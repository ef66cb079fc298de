-- ===== src/Padding/Scan.antt =====
-- decrypt.go, the scan of the final block in `unpad`.
use pkcs.Base.{
  ℕ, zero, suc, ◌+◌, ◌-◌, ◌≤◌, ◌<◌, ◌≡◌, refl, sym, ap, subst, ◌∙◌, [], ◌∷◌, ◌++◌, append_assoc,
  bit_and, ◌%◌,
}
use pkcs.Base.{
  length-replicate, leb→le, ltb, lt→ltb, Bool, true, false, ◌&&◌, leb, ◌==◌, if◌then◌else◌,
  Bool-cases, inl, inr, length, replicate, Bytes, ok, index, arith, length-append_bytes,
  get_elem?_append,
}
use pkcs.Padding.Block.{PaddingError, scan_padding, bit}

-- The test of one byte with i bytes behind it.
abbrev pads_byte : ℕ → ℕ → ℕ → Bool
pads_byte padlen i b = if leb (i + 1) padlen then b == padlen else true

-- Are all of the last `padlen` bytes that lie in `block` equal to `padlen`?
abbrev pub pads : ℕ → Bytes → Bool
pads padlen [] = true
pads padlen (b ∷ block) = pads padlen block && pads_byte padlen (length block) b

pub bit_and-bit : (a b : Bool) → bit_and (bit a) (bit b) ≡ bit (a && b)
bit_and-bit false false = refl
bit_and-bit false true = refl
bit_and-bit true false = refl
bit_and-bit true true = refl

select_bit :
    (padlen i b : ℕ)
    → padlen < 256
    → (if bit (leb (i + 1) padlen) == 1 then bit (b == padlen % 256) else 1)
      ≡ bit (pads_byte padlen i b)
select_bit padlen i b small =
    let e : padlen % 256 ≡ padlen = omega arith in
    rw e (elim (Bool-cases (leb (i + 1) padlen)) [ inl h ↦ rw h | inr h ↦ rw h ])

&&_assoc : (a b c : Bool) → ((a && b) && c) ≡ (a && (b && c))
&&_assoc true b c = refl
&&_assoc false b c = refl

index_back :
    (before checked : Bytes) (d : ℕ)
    → index {E = PaddingError}
        (before ++ (d ∷ checked))
        (length (before ++ (d ∷ checked)) - 1 - length checked)
      ≡ ok d
unfolding index
index_back before checked d =
    let here : length (before ++ (d ∷ checked)) - 1 - length checked ≡ length before =
      omega (arith, length-append_bytes before (d ∷ checked)) in
    rw (here, index, get_elem?_append before checked d)

scan_step :
    (rounds : ℕ) (before checked : Bytes) (d padlen : ℕ) (v : Bool)
    → padlen < 256
    → scan_padding
        (suc rounds)
        (before ++ (d ∷ checked))
        padlen
        (length checked)
        (bit (v && pads padlen checked))
      ≡ scan_padding rounds
          (before ++ (d ∷ checked))
          padlen
          (length (d ∷ checked))
          (bit (v && pads padlen (d ∷ checked)))
unfolding scan_padding
scan_step rounds before checked d padlen v small =
    let next : length checked + 1 ≡ suc (length checked) = omega arith in
    let inside : ltb (length checked) (length (before ++ (d ∷ checked))) ≡ true =
      lt→ltb _ _ (omega (arith, length-append_bytes before (d ∷ checked))) in
    rw (
      inside,
      index_back before checked d,
      select_bit padlen (length checked) d small,
      bit_and-bit (v && pads padlen checked) (pads_byte padlen (length checked) d),
      &&_assoc v (pads padlen checked) (pads_byte padlen (length checked) d),
      next,
    )

-- A list that is not empty ends in an element.
pub record Snoc (xs : Bytes) : Type 0 where
  pub front : Bytes
  pub last : ℕ
  pub whole : xs ≡ front ++ (last ∷ [])

pub snoc : (x : ℕ) (xs : Bytes) → Snoc (x ∷ xs)
snoc x [] = record { front = []; last = x; whole = refl }
snoc x (y ∷ xs) =
    let s = snoc y xs in
    record { front = x ∷ s.front; last = s.last; whole = ap (λ (t : Bytes). x ∷ t) s.whole }

-- From a checked end of bytes on, the scan looks at one byte of `block` in each round.
pub scan_padding-pads :
    (rounds : ℕ) (before block checked : Bytes) (padlen : ℕ) (v : Bool)
    → padlen < 256
    → length block ≡ rounds
    → scan_padding rounds
        (before ++ (block ++ checked))
        padlen
        (length checked)
        (bit (v && pads padlen checked))
      ≡ ok (bit (v && pads padlen (block ++ checked)))
scan_padding-pads zero before [] checked padlen v small size = unfold scan_padding in refl
scan_padding-pads zero before (b ∷ block) checked padlen v small size = absurd (omega arith)
scan_padding-pads (suc rounds) before [] checked padlen v small size = absurd (omega arith)
scan_padding-pads (suc rounds) before (b ∷ block) checked padlen v small size =
    let s = snoc b block in
    let d = s.last in
    let split : (b ∷ block) ++ checked ≡ s.front ++ (d ∷ checked) =
      ap (λ (t : Bytes). t ++ checked) s.whole ∙ append_assoc s.front (d ∷ []) checked in
    let regroup = append_assoc before s.front (d ∷ checked) in
    let rest =
      scan_padding-pads rounds before s.front (d ∷ checked) padlen v small
        (omega (arith, ap length s.whole, length-append_bytes s.front (d ∷ []))) in
    let step = scan_step rounds (before ++ s.front) checked d padlen v small in
    subst
      (λ (t : Bytes).
        scan_padding (suc rounds) (before ++ t) padlen (length checked)
          (bit (v && pads padlen checked))
        ≡ ok (bit (v && pads padlen t)))
      (sym split) (rw regroup at step ∙ rest)

-- What the test says: the block ends in `padlen` bytes `padlen`, as far as it reaches.
pub pads-replicate : (padlen n : ℕ) → n ≤ padlen → pads padlen (replicate n padlen) ≡ true
pads-replicate padlen zero h = refl
pads-replicate padlen (suc n) h = rw (pads-replicate padlen n (omega arith)) (ground arith)

pub pads-append :
    (padlen : ℕ) (front : Bytes) → pads padlen (front ++ replicate padlen padlen) ≡ true
pads-append padlen [] = pads-replicate padlen padlen (omega arith)
pads-append padlen (b ∷ front) =
    let size = length-append_bytes front (replicate padlen padlen) in
    rw (pads-append padlen front) (ground (arith, size, length-replicate padlen padlen))

-- A block that passes the test, cut before its padding.
pub record Padded (padlen : ℕ) (block : Bytes) : Type 0 where
  pub front : Bytes
  pub whole : block ≡ front ++ replicate padlen padlen

short_block :
    (padlen : ℕ) (block : Bytes)
    → pads padlen block ≡ true
    → length block ≤ padlen
    → block ≡ replicate (length block) padlen
short_block padlen [] h k = refl
short_block padlen (b ∷ block) h k =
    let rest = short_block padlen block (ground arith) (omega arith) in
    let same : b ≡ padlen = ground arith in cc

pub pads-Padded :
    (padlen : ℕ) (block : Bytes)
    → pads padlen block ≡ true
    → padlen ≤ length block
    → Padded padlen block
pads-Padded padlen [] h k = let e : padlen ≡ 0 = omega arith in record { front = []; whole = rw e }
pads-Padded padlen (b ∷ block) h k = elim (Bool-cases (leb padlen (length block))) [
  | inl longer ↦
      let rest = pads-Padded padlen block (ground arith) (leb→le _ _ longer) in
      record { front = b ∷ rest.front; whole = ap (λ (t : Bytes). b ∷ t) rest.whole }
  | inr exact ↦
      let size : length (b ∷ block) ≡ padlen = ground arith in
      let all = short_block padlen (b ∷ block) h (omega arith) in
      record { front = []; whole = all ∙ ap (λ (n : ℕ). replicate n padlen) size }
]
