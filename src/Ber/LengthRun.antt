-- ===== src/Ber/LengthRun.antt =====
-- ber.go, the length part of `readObject`: it reads every length of the grammar.
use pkcs.Base.{ℕ, ◌+◌, ◌^◌, ◌≤◌, ◌<◌, ◌≡◌, ap, [], ◌∷◌, ◌++◌}
use pkcs.Base.{true, false, length, Bytes, ok, arith, length-append_bytes, bit_and}
use pkcs.Base.Bits.{bit_and-0x7f}
use pkcs.Ber.Decode.{top_octet, read_long_length, read_length}
use pkcs.Ber.Grammar.{big_endian, NoLeadingZero, LengthOf, short, long}
use pkcs.Ber.Cursor.{At, At-next, At-length, At-rewrite, index-At}
use pkcs.Ber.Length.{read_int_run, has_leading_zero_run}

top_octet_run :
    (ber : Bytes) (offset : ℕ) (bs ys : Bytes)
    → At ber offset (bs ++ ys)
    → NoLeadingZero bs
    → big_endian 0 bs < 2 ^ 31
    → top_octet ber offset (length bs) ≡ ok tt
unfolding top_octet
top_octet_run ber offset [] ys at minimal h = absurd minimal
top_octet_run ber offset (a ∷ []) ys at minimal h = ground arith
top_octet_run ber offset (a ∷ b ∷ []) ys at minimal h = ground arith
top_octet_run ber offset (a ∷ b ∷ c ∷ []) ys at minimal h = ground arith
top_octet_run ber offset (a ∷ b ∷ c ∷ d ∷ []) ys at minimal h =
    rw (index-At ber offset a (b ∷ c ∷ d ∷ ys) at) (ground arith)
top_octet_run ber offset (a ∷ b ∷ c ∷ d ∷ e ∷ bs) ys at minimal h = ground arith

NoLeadingZero-length : (bs : Bytes) → NoLeadingZero bs → 1 ≤ length bs
NoLeadingZero-length [] h = absurd h
NoLeadingZero-length (b ∷ bs) h = omega arith

read_long_length_run :
    (ber : Bytes) (offset : ℕ) (bs ys : Bytes)
    → At ber offset (bs ++ ys)
    → length bs ≤ 4
    → NoLeadingZero bs
    → big_endian 0 bs < 2 ^ 31
    → read_long_length ber offset (128 + length bs) ≡ ok (big_endian 0 bs, offset + length bs)
unfolding read_long_length
read_long_length_run ber offset bs ys at few minimal small =
    let count : bit_and (128 + length bs) 0x7f ≡ length bs =
      omega (arith, bit_and-0x7f (128 + length bs) (omega arith)) in
    rw
      (
        count,
        top_octet_run ber offset bs ys at minimal small,
        has_leading_zero_run ber offset bs ys at minimal,
        read_int_run ber offset bs ys 0 at small,
      )
      (ground (arith, At-length ber offset (bs ++ ys) at, length-append_bytes bs ys))

-- A definite length is read, if that many bytes follow.
pub read_length_run :
    (ber : Bytes) (offset n : ℕ) (ls ys : Bytes)
    → At ber offset (ls ++ ys)
    → LengthOf n ls
    → n ≤ length ys
    → read_length ber offset
      ≡ ok (record { value = n; indefinite = false; start = offset + length ls })
unfolding read_length
read_length_run ber offset n ls ys at (short h e) fits =
    let at' = At-rewrite ber offset (ls ++ ys) (n ∷ ys) (ap (λ (t : Bytes). t ++ ys) e) at in
    rw (index-At ber offset n ys at', e) (ground (arith, At-length ber offset (n ∷ ys) at'))
read_length_run ber offset n ls ys at (long bs few minimal small writes e) fits =
    let mark = 128 + length bs in
    let at' =
      At-rewrite ber offset (ls ++ ys) (mark ∷ bs ++ ys) (ap (λ (t : Bytes). t ++ ys) e) at in
    let at'' = At-next ber offset mark (bs ++ ys) at' in
    let some_octet = NoLeadingZero-length bs minimal in
    let long_form =
      read_long_length_run ber (offset + 1) bs ys at'' few minimal (omega (arith, writes)) in
    let all = At-length ber offset (mark ∷ bs ++ ys) at' in
    rw (index-At ber offset mark (bs ++ ys) at', e)
      (ground (arith, long_form, all, length-append_bytes bs ys))

pub read_length-indefinite :
    (ber : Bytes) (offset : ℕ) (ys : Bytes)
    → At ber offset (128 ∷ ys)
    → 0 < length ys
    → read_length ber offset ≡ ok (record { value = 0; indefinite = true; start = offset + 1 })
unfolding read_length
read_length-indefinite ber offset ys at h =
    rw (index-At ber offset 128 ys at) (ground (arith, At-length ber offset (128 ∷ ys) at))
