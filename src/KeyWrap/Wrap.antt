-- ===== src/KeyWrap/Wrap.antt =====
-- kem.go, `aesKeyWrap` and `aesKeyUnwrap`.
use pkcs.Base.{
  ℕ, zero, suc, ◌+◌, ◌-◌, ◌*◌, ◌/◌, ◌%◌, ◌^◌, bit_xor, [], ◌∷◌, ◌++◌, ◌||◌, not, ltb, ◌==◌,
}
use pkcs.Base.{length, drop, slice, splice, Bytes, Outcome, ok, ◌>>◌, fail_if}
use pkcs.Base.BigEndian.{big_endian, low_octets}
use pkcs.Subtle.{constant_time_compare}
use pkcs.KeyWrap.Cipher.{Aes, key_size_ok}

pub data KeyWrapError : Type 0 where
  wrap_input malformed_ciphertext integrity_check key_size : KeyWrapError

-- `aesKeyWrapInitialValue`
abbrev pub initial_value : Bytes
initial_value = 0xa6 ∷ 0xa6 ∷ 0xa6 ∷ 0xa6 ∷ 0xa6 ∷ 0xa6 ∷ 0xa6 ∷ 0xa6 ∷ []

-- `binary.BigEndian.Uint64` and `PutUint64`
abbrev pub uint64 : Bytes → ℕ
uint64 bs = big_endian 0 bs

abbrev pub put_uint64 : ℕ → Bytes
put_uint64 n = low_octets n 8

-- `t := uint64(n*j + i)`
abbrev pub counter : ℕ → ℕ → ℕ → ℕ
counter n j i = (n * j + i) % 2 ^ 64

module _ (aes : Aes) (key : Bytes) (n j : ℕ) where
  -- The body of the inner loop of `aesKeyWrap`.
  unfoldable pub wrap_step : ℕ → Bytes → Bytes
  wrap_step i output =
      let buffer = aes.encrypt key (slice output 0 8 ++ slice output (i * 8) ((i + 1) * 8)) in
      let mixed = put_uint64 (bit_xor (uint64 (slice buffer 0 8)) (counter n j i)) in
      splice (splice output 0 mixed) (i * 8) (slice buffer 8 16)

  -- `for i := 1; i <= n; i++`, from i on, with the rounds that are left.
  unfoldable pub wrap_row : ℕ → ℕ → Bytes → Bytes
  wrap_row zero i output = output
  wrap_row (suc rounds) i output = wrap_row rounds (suc i) (wrap_step i output)

  -- The body of the inner loop of `aesKeyUnwrap`.
  unfoldable pub unwrap_step : ℕ → Bytes → Bytes
  unwrap_step i working =
      let mixed = put_uint64 (bit_xor (uint64 (slice working 0 8)) (counter n j i)) in
      let buffer = aes.decrypt key (mixed ++ slice working (i * 8) ((i + 1) * 8)) in
      splice (splice working 0 (slice buffer 0 8)) (i * 8) (slice buffer 8 16)

  -- `for i := n; i >= 1; i--`
  unfoldable pub unwrap_row : ℕ → Bytes → Bytes
  unwrap_row zero working = working
  unwrap_row (suc i) working = unwrap_row i (unwrap_step (suc i) working)

module _ (aes : Aes) (key : Bytes) (n : ℕ) where
  -- `for j := 0; j < 6; j++`, from j on, with the rounds that are left.
  unfoldable pub wrap_rows : ℕ → ℕ → Bytes → Bytes
  wrap_rows zero j output = output
  wrap_rows (suc rounds) j output = wrap_rows rounds (suc j) (wrap_row aes key n j n 1 output)

  -- `for j := 5; j >= 0; j--`, with the rounds that are left.
  unfoldable pub unwrap_rows : ℕ → Bytes → Bytes
  unwrap_rows zero working = working
  unwrap_rows (suc j) working = unwrap_rows j (unwrap_row aes key n j n working)

module _ (aes : Aes) where
  unfoldable pub aes_key_wrap : Bytes → Bytes → Outcome KeyWrapError Bytes
  aes_key_wrap kek plaintext = do
    fail_if (ltb (length plaintext) 16 || not (length plaintext % 8 == 0)) wrap_input
    fail_if (not (key_size_ok kek)) key_size
    let n = length plaintext / 8
    ok (wrap_rows aes kek n 6 0 (initial_value ++ plaintext))

  unfoldable pub aes_key_unwrap : Bytes → Bytes → Outcome KeyWrapError Bytes
  aes_key_unwrap kek ciphertext = do
    fail_if (ltb (length ciphertext) 24 || not (length ciphertext % 8 == 0)) malformed_ciphertext
    fail_if (not (key_size_ok kek)) key_size
    let n = length ciphertext / 8 - 1
    let working = unwrap_rows aes kek n 6 ciphertext
    fail_if (not (constant_time_compare (slice working 0 8) initial_value == 1)) integrity_check
    ok (drop 8 working)
