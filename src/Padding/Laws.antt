-- ===== src/Padding/Laws.antt =====
-- decrypt.go, `unpad`: what it accepts, and that it never indexes out of range.
use pkcs.Base.{
  ℕ, zero, suc, ◌-◌, ◌%◌, ◌≤◌, ◌<◌, ◌≡◌, ◌≢◌, refl, sym, ap, ◌∙◌, subst, [], ◌∷◌, ◌++◌,
  append_assoc, append-nil,
}
use pkcs.Base.{
  true, false, ◌&&◌, ◌||◌, not, ltb, leb, leb→le, ◌==◌, if◌then◌else◌, Bool-cases, inl, inr, length,
  take, replicate, Bytes, IsByte, All, ok, err, index, arith, length-append_bytes, length-replicate,
  get_elem?_append, take_append, All-append_right,
}
use pkcs.Base.{Ensures, holds, rejected, Ensures-if, cut}
use pkcs.Padding.Block.{PaddingError, invalid_padding, invalid_blocklen, scan_padding, unpad, bit}
use pkcs.Padding.Scan.{pads, pads-Padded, scan_padding-pads, bit_and-bit, snoc}
use native.Mathlib.Nat.{mod-eq_of_lt}

-- `content` is whole blocks: `message`, and behind it 1 to `blocklen` bytes that say how many they are.
pub record IsPadded (content message : Bytes) (blocklen : ℕ) : Type 0 where
  pub some_block : 1 ≤ blocklen
  pub blocks : length content % blocklen ≡ 0
  pub padlen : ℕ
  pub least : 1 ≤ padlen
  pub most : padlen ≤ blocklen
  pub whole : content ≡ message ++ replicate padlen padlen

-- What `unpad` does once the length is right, in terms of the test on the final block.
pub unpad-pads :
    (before block : Bytes) (padlen blocklen : ℕ)
    → 1 ≤ blocklen
    → length block ≡ blocklen
    → length (before ++ block) % blocklen ≡ 0
    → padlen < 256
    → index {E = PaddingError} (before ++ block) (length (before ++ block) - 1) ≡ ok padlen
    → unpad (before ++ block) blocklen ≡ (
        if (leb 1 padlen && leb padlen blocklen) && pads padlen block
        then ok (take (length (before ++ block) - padlen) (before ++ block))
        else err invalid_padding)
unfolding unpad
unpad-pads before block padlen blocklen some size blocks small last =
    let v = leb 1 padlen && leb padlen blocklen in
    let nonempty : length (before ++ block) ≢ 0 = omega (arith, length-append_bytes before block) in
    let scan : scan_padding blocklen (before ++ block) padlen 0 (bit (v && true))
        ≡ ok (bit (v && pads padlen block)) =
      rw append-nil at (scan_padding-pads blocklen before block [] padlen v small size) in
    let fits : length block ≤ length (before ++ block) =
      omega (arith, length-append_bytes before block) in
    let true_right : (v && true) ≡ v = ground arith in
    let scan' = rw true_right at scan in
    rw (last, bit_and-bit (leb 1 padlen) (leb padlen blocklen), scan') (ground arith)

pub index-snoc :
    (xs : Bytes) (d : ℕ)
    → index {E = PaddingError} (xs ++ d ∷ []) (length (xs ++ d ∷ []) - 1) ≡ ok d
unfolding index
index-snoc xs d =
    let here : length (xs ++ d ∷ []) - 1 ≡ length xs =
      omega (arith, length-append_bytes xs (d ∷ [])) in
    rw (here, index, get_elem?_append xs [] d)

last_byte : (xs : Bytes) → All IsByte xs → (d : ℕ) (front : Bytes) → xs ≡ front ++ d ∷ [] → d < 256
last_byte xs h d front e =
    (All-append_right IsByte front (d ∷ []) (subst (λ (t : Bytes). All IsByte t) e h)).0

pub block_fits : (n blocklen : ℕ) → n % blocklen ≡ 0 → n ≢ 0 → blocklen ≤ n
block_fits n blocklen e h = elim (Bool-cases (leb blocklen n)) [
  | inl fits ↦ leb→le blocklen n fits
  | inr short ↦ absurd (omega (arith, mod-eq_of_lt {n = n} {m = blocklen} (ground arith)))
]

pub replicate-suc : (n d : ℕ) → replicate (suc n) d ≡ replicate n d ++ d ∷ []
replicate-suc zero d = refl
replicate-suc (suc n) d = ap (λ (t : Bytes). d ∷ t) (replicate-suc n d)

pub take-padding :
    (content message : Bytes) (padlen : ℕ)
    → content ≡ message ++ replicate padlen padlen
    → take (length content - padlen) content ≡ message
take-padding content message padlen whole =
    let size = length-append_bytes message (replicate padlen padlen) in
    let here : length content - padlen ≡ length message =
      omega (arith, ap length whole, size, length-replicate padlen padlen) in
    rw (here, whole) (take_append message (replicate padlen padlen))

-- A passing test leaves the message.
module _ (content before block : Bytes) (blocklen padlen : ℕ) (whole : content ≡ before ++ block)
    (size : length block ≡ blocklen) (some : 1 ≤ blocklen)
    (blocks : length content % blocklen ≡ 0) where
  passed-IsPadded :
      ((leb 1 padlen && leb padlen blocklen) && pads padlen block) ≡ true
      → IsPadded content (take (length content - padlen) content) blocklen
  passed-IsPadded test =
      let passes : pads padlen block ≡ true = ground arith in
      let most : padlen ≤ blocklen = ground arith in
      let p = pads-Padded padlen block passes (omega arith) in
      let split : content ≡ (before ++ p.front) ++ replicate padlen padlen =
        whole
        ∙ ap (λ (t : Bytes). before ++ t) p.whole
        ∙ sym (append_assoc before p.front (replicate padlen padlen)) in
      record {
        some_block = some;
        blocks = blocks;
        padlen = padlen;
        least = ground arith;
        most = most;
        whole =
            split
            ∙ ap (λ (t : Bytes). t ++ replicate padlen padlen)
                (sym (take-padding content _ padlen split));
      }

  outcome-Ensures :
      Ensures
        (λ message. IsPadded content message blocklen)
        (if (leb 1 padlen && leb padlen blocklen) && pads padlen block
          then ok (take (length content - padlen) content)
          else err invalid_padding)
  outcome-Ensures =
      Ensures-if ((leb 1 padlen && leb padlen blocklen) && pads padlen block)
        (λ test. holds (passed-IsPadded test)) (λ test. rejected)

-- A whole number of blocks.
blocks-Ensures :
    (content : Bytes) (blocklen : ℕ)
    → All IsByte content
    → 1 ≤ blocklen
    → length content % blocklen ≡ 0
    → length content ≢ 0
    → Ensures (λ message. IsPadded content message blocklen) (unpad content blocklen)
blocks-Ensures [] blocklen h some blocks nonempty = absurd (nonempty refl)
blocks-Ensures (b ∷ bs) blocklen h some blocks nonempty =
    let content = b ∷ bs in
    let fits = block_fits (length content) blocklen blocks nonempty in
    let c = cut (length content - blocklen) content (omega arith) in
    let s = snoc b bs in
    let size : length c.back ≡ blocklen =
      omega (arith, ap length c.whole, length-append_bytes c.front c.back, c.size) in
    let last =
      subst (λ (t : Bytes). index {E = PaddingError} t (length t - 1) ≡ ok s.last) (sym s.whole)
        (index-snoc s.front s.last) in
    let e = sym c.whole in
    let run =
      unpad-pads c.front c.back s.last blocklen some size
        (subst (λ (t : Bytes). length t % blocklen ≡ 0) c.whole blocks)
        (last_byte content h s.last s.front s.whole)
        (subst (λ (t : Bytes). index {E = PaddingError} t (length t - 1) ≡ ok s.last) c.whole
          last) in
    let run' =
      subst
        (λ (t : Bytes). unpad t blocklen ≡ (
          if (leb 1 s.last && leb s.last blocklen) && pads s.last c.back
          then ok (take (length t - s.last) t)
          else err invalid_padding))
        e run in
    rw run' (outcome-Ensures content c.front c.back blocklen s.last c.whole size some blocks)

unpad_no_block :
    (content : Bytes) (blocklen : ℕ)
    → ltb blocklen 1 ≡ true
    → unpad content blocklen ≡ err invalid_blocklen
unfolding unpad
unpad_no_block content blocklen h = rw h

unpad_odd :
    (content : Bytes) (blocklen : ℕ)
    → ltb blocklen 1 ≡ false
    → (not (length content % blocklen == 0) || length content == 0) ≡ true
    → unpad content blocklen ≡ err invalid_padding
unfolding unpad
unpad_odd content blocklen h k = rw (h, k)

pub unpad-Ensures :
    (content : Bytes) (blocklen : ℕ)
    → All IsByte content
    → Ensures (λ message. IsPadded content message blocklen) (unpad content blocklen)
unpad-Ensures content blocklen h = elim (Bool-cases (ltb blocklen 1)) [
  | inl none_given ↦ rw (unpad_no_block content blocklen none_given) rejected
  | inr some ↦ elim (Bool-cases (not (length content % blocklen == 0) || length content == 0)) [
    | inl odd ↦ rw (unpad_odd content blocklen some odd) rejected
    | inr whole ↦ blocks-Ensures content blocklen h (ground arith) (ground arith) (ground arith)
  ]
]
