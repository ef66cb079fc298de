-- ===== src/Padding/Trip.antt =====
-- decrypt.go `unpad` decides the padded format, and undoes encrypt.go `pad`.
use native.Mathlib.Nat.{mod-lt, div-add-mod, mul-mod_right}
use pkcs.Base.{
  ℕ, zero, suc, ◌+◌, ◌-◌, ◌*◌, ◌/◌, ◌%◌, ◌≤◌, ◌<◌, ◌≡◌, ◌≢◌, ◌↔◌, refl, sym, ap, ◌∙◌, subst, [],
  ◌∷◌, ◌++◌, append_assoc,
}
use pkcs.Base.{
  true, false, ltb, All-append_right, ◌&&◌, leb, ◌==◌, length, take, replicate, Bytes, IsByte, All,
  ok, panic, stuck, index, arith, length-append_bytes, length-replicate, cut,
}
use pkcs.Base.{Ensures-ok, Ensures-ne-panic, Ensures-ne-stuck}
use pkcs.Padding.Block.{PaddingError, pad, unpad}
use pkcs.Padding.Scan.{pads, pads-append}
use pkcs.Padding.Laws.{
  IsPadded, unpad-pads, unpad-Ensures, index-snoc, replicate-suc, take-padding, block_fits,
}

last_padding :
    (before : Bytes) (padlen : ℕ)
    → 1 ≤ padlen
    → index {E = PaddingError}
        (before ++ replicate padlen padlen)
        (length (before ++ replicate padlen padlen) - 1)
      ≡ ok padlen
last_padding before padlen least =
    let e : padlen ≡ suc (padlen - 1) = omega arith in
    let split : replicate padlen padlen ≡ replicate (padlen - 1) padlen ++ padlen ∷ [] =
      ap (λ (n : ℕ). replicate n padlen) e ∙ replicate-suc (padlen - 1) padlen in
    let whole : before ++ replicate padlen padlen
        ≡ (before ++ replicate (padlen - 1) padlen) ++ padlen ∷ [] =
      ap (λ (t : Bytes). before ++ t) split
      ∙ sym (append_assoc before (replicate (padlen - 1) padlen) (padlen ∷ [])) in
    subst (λ (t : Bytes). index {E = PaddingError} t (length t - 1) ≡ ok padlen) (sym whole)
      (index-snoc (before ++ replicate (padlen - 1) padlen) padlen)

-- The final block lies in the end of the message and the padding.
unpad_run :
    (content message : Bytes) (blocklen : ℕ)
    → (p : IsPadded content message blocklen) → p.padlen < 256
    → unpad content blocklen ≡ ok message
unpad_run content message blocklen p small =
    let padding = replicate p.padlen p.padlen in
    let sizes : length content ≡ length message + p.padlen = omega (
      arith,
      ap length p.whole,
      length-append_bytes message padding,
      length-replicate p.padlen p.padlen,
    ) in
    let c = cut (length content - blocklen) message (omega arith) in
    let split : content ≡ c.front ++ (c.back ++ padding) =
      p.whole ∙ ap (λ (t : Bytes). t ++ padding) c.whole ∙ append_assoc c.front c.back padding in
    let size : length (c.back ++ padding) ≡ blocklen = omega (
      arith,
      ap length c.whole,
      length-append_bytes c.front c.back,
      c.size,
      length-append_bytes c.back padding,
      length-replicate p.padlen p.padlen,
      block_fits (length content) blocklen p.blocks (omega arith),
    ) in
    let last =
      subst (λ (t : Bytes). index {E = PaddingError} t (length t - 1) ≡ ok p.padlen)
        (append_assoc c.front c.back padding) (last_padding (c.front ++ c.back) p.padlen p.least) in
    let blocks = subst (λ (t : Bytes). length t % blocklen ≡ 0) split p.blocks in
    let run =
      unpad-pads c.front (c.back ++ padding) p.padlen blocklen p.some_block size blocks small
        last in
    let test : ((leb 1 p.padlen && leb p.padlen blocklen) && pads p.padlen (c.back ++ padding))
        ≡ true =
      rw (pads-append p.padlen c.back) (ground (arith, p.least, p.most)) in
    let message_eq =
      subst (λ (t : Bytes). take (length t - p.padlen) t ≡ message) split
        (take-padding content message p.padlen p.whole) in
    rw (split, run, test) (ap ok message_eq)

replicate_byte : (n d : ℕ) → 1 ≤ n → All IsByte (replicate n d) → d < 256
replicate_byte zero d h k = absurd (omega arith)
replicate_byte (suc n) d h k = k.0

padlen_byte :
    (content message : Bytes) (blocklen : ℕ)
    → All IsByte content
    → (p : IsPadded content message blocklen) → p.padlen < 256
padlen_byte content message blocklen h p = replicate_byte p.padlen p.padlen p.least (
    All-append_right IsByte message (replicate p.padlen p.padlen)
      (subst (λ (t : Bytes). All IsByte t) p.whole h))

-- `unpad` succeeds exactly on whole blocks that end in 1 to `blocklen` bytes which say how many
-- they are, and it returns what stands before those bytes.
pub unpad_iff :
    (content message : Bytes) (blocklen : ℕ)
    → All IsByte content
    → (unpad content blocklen ≡ ok message) ↔ IsPadded content message blocklen
unpad_iff content message blocklen h = (
  λ e. Ensures-ok (unpad-Ensures content blocklen h) e,
  λ p. unpad_run content message blocklen p (padlen_byte content message blocklen h p),
)

-- On every byte slice and block length `unpad` returns: its scan and the slice it returns stay inside
-- the bytes given.
pub unpad_returns :
    (content : Bytes) (blocklen : ℕ)
    → All IsByte content
    → (unpad content blocklen ≢ panic) × (unpad content blocklen ≢ stuck)
unpad_returns content blocklen h = (
  Ensures-ne-panic (unpad-Ensures content blocklen h),
  Ensures-ne-stuck (unpad-Ensures content blocklen h),
)

-- What `pad` returns.
padding_of : ℕ → ℕ → ℕ
padding_of size blocklen = blocklen - size % blocklen

padding_of_bounds :
    (size blocklen : ℕ)
    → 1 ≤ blocklen
    → (1 ≤ padding_of size blocklen) × (padding_of size blocklen ≤ blocklen)
unfolding padding_of
padding_of_bounds size blocklen h = (omega (arith, mod-lt size h), omega arith)

-- The padding fills the last block.
padding_of_fills :
    (size blocklen : ℕ) → 1 ≤ blocklen → (size + padding_of size blocklen) % blocklen ≡ 0
unfolding padding_of
padding_of_fills size blocklen h =
    let whole : size + (blocklen - size % blocklen) ≡ blocklen * (size / blocklen + 1) =
      omega (arith, div-add-mod size blocklen, mod-lt size h) in
    rw whole (mul-mod_right blocklen (size / blocklen + 1))

pad_lem :
    (content : Bytes) (blocklen : ℕ)
    → 1 ≤ blocklen
    → blocklen < 256
    → pad content blocklen
      ≡ ok (
          content
          ++ replicate
              (padding_of (length content) blocklen)
              (padding_of (length content) blocklen))
unfolding pad padding_of
pad_lem content blocklen some small =
    let padlen = blocklen - length content % blocklen in
    let bounds : (1 ≤ padlen) × (padlen ≤ blocklen) =
      unfold padding_of in padding_of_bounds (length content) blocklen some in
    let e : padlen % 256 ≡ padlen = omega arith in
    let f : (padlen == 0) ≡ false = ground arith in
    let g : ltb blocklen 1 ≡ false = ground arith in rw (g, f, e)

-- What `pad` has made of a message: whole blocks, 1 to `blocklen` bytes longer, which `unpad` turns
-- back into the message.
pub record PadsAndBack (content : Bytes) (blocklen : ℕ) : Type 0 where
  pub padded : Bytes
  pub pads_to : pad content blocklen ≡ ok padded
  pub blocks : length padded % blocklen ≡ 0
  pub longer : length content < length padded
  pub at_most : length padded ≤ length content + blocklen
  pub back : unpad padded blocklen ≡ ok content

-- For block lengths from 1 to 255 `pad` succeeds, with whole blocks that are 1 to `blocklen` bytes
-- longer than the message, and `unpad` turns them back into the message.
pub unpad-pad :
    (content : Bytes) (blocklen : ℕ) → 1 ≤ blocklen → blocklen < 256 → PadsAndBack content blocklen
unpad-pad content blocklen some small =
    let padlen = padding_of (length content) blocklen in
    let bounds = padding_of_bounds (length content) blocklen some in
    let size : length (content ++ replicate padlen padlen) ≡ length content + padlen = omega (
      arith,
      length-append_bytes content (replicate padlen padlen),
      length-replicate padlen padlen,
    ) in
    let blocks : length (content ++ replicate padlen padlen) % blocklen ≡ 0 =
      rw size (padding_of_fills (length content) blocklen some) in
    record {
      padded = content ++ replicate padlen padlen;
      pads_to = pad_lem content blocklen some small;
      blocks = blocks;
      longer = omega arith;
      at_most = omega arith;
      back =
          unpad_run _ content blocklen
            (record {
              some_block = some;
              blocks = blocks;
              padlen = padlen;
              least = bounds.0;
              most = bounds.1;
              whole = refl;
            })
            (omega arith);
    }
