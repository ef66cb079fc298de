-- ===== src/Padding/Block.antt =====
-- encrypt.go, `pad`; decrypt.go, `unpad`.
pub use pkcs.Subtle.{bit, constant_time_less_or_eq, constant_time_byte_eq, constant_time_select}
use pkcs.Base.{ℕ, zero, suc, ◌+◌, ◌-◌, ◌%◌, bit_and, ◌++◌}
use pkcs.Base.{◌||◌, not, ltb, ◌==◌, if◌then◌else◌}
use pkcs.Base.{
  length, take, replicate, Bytes, Outcome, ok, ◌>>=◌, ◌>>◌, fail_if, index, panic_unless, leb,
}

pub data PaddingError : Type 0 where
  invalid_blocklen invalid_padding : PaddingError

unfoldable pub pad : Bytes → ℕ → Outcome PaddingError Bytes
pad content blocklen = do
  fail_if (ltb blocklen 1) invalid_blocklen
  let rest = blocklen - length content % blocklen
  let padlen = if rest == 0 then blocklen else rest
  ok (content ++ replicate padlen (padlen % 256))

-- The rounds of `for i := 0; i < blocklen; i++` that are left, from round i on.
unfoldable pub scan_padding : ℕ → Bytes → ℕ → ℕ → ℕ → Outcome PaddingError ℕ
scan_padding zero content padlen i valid = ok valid
scan_padding (suc rounds) content padlen i valid = do
  let in_padding = constant_time_less_or_eq (i + 1) padlen
  panic_unless (ltb i (length content))
  b ← index content (length content - 1 - i)
  let equal = constant_time_byte_eq b (padlen % 256)
  scan_padding rounds content padlen (i + 1)
      (bit_and valid (constant_time_select in_padding equal 1))

unfoldable pub unpad : Bytes → ℕ → Outcome PaddingError Bytes
unpad content blocklen = do
  fail_if (ltb blocklen 1) invalid_blocklen
  fail_if (not (length content % blocklen == 0) || length content == 0) invalid_padding
  padlen ← index content (length content - 1)
  let valid = bit_and (constant_time_less_or_eq 1 padlen) (constant_time_less_or_eq padlen blocklen)
  v ← scan_padding blocklen content padlen 0 valid
  fail_if (not (v == 1)) invalid_padding
  panic_unless (leb padlen (length content))
  ok (take (length content - padlen) content)
