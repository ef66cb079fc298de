-- ===== src/KeyWrap/Laws.antt =====
-- kem.go: `aesKeyUnwrap` is the inverse of `aesKeyWrap`.
use pkcs.Base.{not-false}
use pkcs.Base.{ℕ, ◌+◌, ◌-◌, ◌*◌, ◌/◌, ◌%◌, ◌≤◌, ◌≡◌, ◌↔◌, refl, sym, ap, ◌∙◌, ◌++◌}
use pkcs.Base.{
  Bool, true, false, not, ◌||◌, ltb, ◌==◌, length, take, drop, slice, Bytes, IsByte, All,
  All-append, length-append_bytes, take-append-drop, arith,
}
use pkcs.Base.{Outcome, ok, ◌>>=◌, Ensures, holds, Ensures-ok, Ensures-fail_if}
use pkcs.Subtle.{bit, bytes_equal, bytes_equal→eq, bytes_equal_refl, constant_time_compare}
use pkcs.KeyWrap.Cipher.{Aes, IsCipher, key_size_ok}
use pkcs.KeyWrap.Wrap.{
  KeyWrapError, initial_value, wrap_rows, unwrap_rows, aes_key_wrap, aes_key_unwrap,
}
use pkcs.KeyWrap.Step.{IsState}
use pkcs.KeyWrap.Rows.{
  wrap_rows-IsState, unwrap_rows-IsState, unwrap_rows-wrap_rows, wrap_rows-unwrap_rows,
}

whole_blocks :
    (size least : ℕ)
    → (ltb size least || not (size % 8 == 0)) ≡ false
    → (least ≤ size) × (size % 8 ≡ 0)
whole_blocks size least h = ground arith

whole_blocks_false :
    (size least : ℕ) → least ≤ size → size % 8 ≡ 0 → (ltb size least || not (size % 8 == 0)) ≡ false
whole_blocks_false size least h k = ground arith

-- The test at the end of `aesKeyUnwrap`.
checked :
    (bs : Bytes) → not (constant_time_compare bs initial_value == 1) ≡ false → bs ≡ initial_value
checked bs h = bytes_equal→eq bs initial_value (bit_true (bytes_equal bs initial_value) h)
  where
    bit_true : (b : Bool) → not (bit b == 1) ≡ false → b ≡ true
    bit_true true k = refl
    bit_true false k = cc

module _ (aes : Aes) (kek : Bytes) where
  -- What the two functions have tested where they succeed, and what they return there.
  record Wrapped (plaintext ciphertext : Bytes) : Type 0 where
    key : key_size_ok kek ≡ true
    least : 16 ≤ length plaintext
    blocks : length plaintext % 8 ≡ 0
    whole : wrap_rows aes kek (length plaintext / 8) 6 0 (initial_value ++ plaintext) ≡ ciphertext

  record Unwrapped (ciphertext plaintext : Bytes) : Type 0 where
    key : key_size_ok kek ≡ true
    least : 24 ≤ length ciphertext
    blocks : length ciphertext % 8 ≡ 0
    whole :
        unwrap_rows aes kek (length ciphertext / 8 - 1) 6 ciphertext ≡ initial_value ++ plaintext

  aes_key_wrap-Ensures :
      (plaintext : Bytes) → Ensures (Wrapped plaintext) (aes_key_wrap aes kek plaintext)
  unfolding aes_key_wrap
  aes_key_wrap-Ensures plaintext =
      Ensures-fail_if (ltb (length plaintext) 16 || not (length plaintext % 8 == 0)) _ λ h.
        let sizes = whole_blocks (length plaintext) 16 h in
        Ensures-fail_if (not (key_size_ok kek)) _ λ k. holds (record {
          key = not-false (key_size_ok kek) k;
          least = sizes.0;
          blocks = sizes.1;
          whole = refl;
        })

  aes_key_unwrap-Ensures :
      (ciphertext : Bytes) → Ensures (Unwrapped ciphertext) (aes_key_unwrap aes kek ciphertext)
  unfolding aes_key_unwrap
  aes_key_unwrap-Ensures ciphertext =
      let working = unwrap_rows aes kek (length ciphertext / 8 - 1) 6 ciphertext in
      Ensures-fail_if (ltb (length ciphertext) 24 || not (length ciphertext % 8 == 0)) _ λ h.
        let sizes = whole_blocks (length ciphertext) 24 h in
        Ensures-fail_if (not (key_size_ok kek)) _ λ k.
          Ensures-fail_if (not (constant_time_compare (slice working 0 8) initial_value == 1)) _
            λ t.
              let joined : working ≡ initial_value ++ drop 8 working =
                sym (take-append-drop 8 working)
                ∙ ap (λ (x : Bytes). x ++ drop 8 working) (checked (take 8 working) t) in
              holds (record {
                key = not-false (key_size_ok kek) k;
                least = sizes.0;
                blocks = sizes.1;
                whole = joined;
              })

  aes_key_wrap_run :
      (plaintext ciphertext : Bytes)
      → Wrapped plaintext ciphertext
      → aes_key_wrap aes kek plaintext ≡ ok ciphertext
  unfolding aes_key_wrap
  aes_key_wrap_run plaintext ciphertext w =
      rw (whole_blocks_false (length plaintext) 16 w.least w.blocks, w.key, w.whole) refl

  aes_key_unwrap_run :
      (ciphertext plaintext : Bytes)
      → Unwrapped ciphertext plaintext
      → aes_key_unwrap aes kek ciphertext ≡ ok plaintext
  unfolding aes_key_unwrap
  aes_key_unwrap_run ciphertext plaintext w =
      rw
        (
          whole_blocks_false (length ciphertext) 24 w.least w.blocks,
          w.key,
          w.whole,
          bytes_equal_refl initial_value,
        )
        refl

IsByte-initial_value : All IsByte initial_value
IsByte-initial_value = ground arith

module _ (aes : Aes) (kek : Bytes) (c : IsCipher aes kek) where
  start-IsState :
      (plaintext : Bytes)
      → All IsByte plaintext
      → length plaintext % 8 ≡ 0
      → IsState (length plaintext / 8) (initial_value ++ plaintext)
  start-IsState plaintext h e = (
    omega (arith, length-append_bytes initial_value plaintext),
    All-append IsByte initial_value plaintext IsByte-initial_value h,
  )

  unwrap_all :
      (n : ℕ) (start : Bytes)
      → IsState n start
      → unwrap_rows aes kek n 6 (wrap_rows aes kek n 6 0 start) ≡ start
  unfolding unwrap_rows
  unwrap_all n start s = unwrap_rows-wrap_rows aes kek c n 6 0 start s

  Wrapped→Unwrapped :
      (plaintext ciphertext : Bytes)
      → All IsByte plaintext
      → Wrapped aes kek plaintext ciphertext
      → Unwrapped aes kek ciphertext plaintext
  Wrapped→Unwrapped plaintext ciphertext h w =
      let n = length plaintext / 8 in
      let start = initial_value ++ plaintext in
      let s = start-IsState plaintext h w.blocks in
      let size : length ciphertext ≡ (n + 1) * 8 =
        ap length (sym w.whole) ∙ (wrap_rows-IsState aes kek c n 6 0 start s).0 in
      let count : length ciphertext / 8 - 1 ≡ n = omega arith in
      record {
        key = w.key;
        least = omega (arith, w.least);
        blocks = omega arith;
        whole =
            ap (λ (m : ℕ). unwrap_rows aes kek m 6 ciphertext) count
            ∙ ap (unwrap_rows aes kek n 6) (sym w.whole)
            ∙ unwrap_all n start s;
      }

  wrap_all :
      (n : ℕ) (last : Bytes)
      → IsState n last
      → wrap_rows aes kek n 6 0 (unwrap_rows aes kek n 6 last) ≡ last
  unfolding wrap_rows
  wrap_all n last s = wrap_rows-unwrap_rows aes kek c n 6 0 last s

  Unwrapped→Wrapped :
      (ciphertext plaintext : Bytes)
      → All IsByte ciphertext
      → Unwrapped aes kek ciphertext plaintext
      → Wrapped aes kek plaintext ciphertext
  Unwrapped→Wrapped ciphertext plaintext h w =
      let n = length ciphertext / 8 - 1 in
      let s : IsState n ciphertext = (omega (arith, w.least, w.blocks), h) in
      let size : length (initial_value ++ plaintext) ≡ (n + 1) * 8 =
        ap length (sym w.whole) ∙ (unwrap_rows-IsState aes kek c n 6 ciphertext s).0 in
      let shape = length-append_bytes initial_value plaintext in
      let count : length plaintext / 8 ≡ n = omega arith in
      record {
        key = w.key;
        least = omega (arith, w.least);
        blocks = omega arith;
        whole =
            ap (λ (m : ℕ). wrap_rows aes kek m 6 0 (initial_value ++ plaintext)) count
            ∙ ap (wrap_rows aes kek n 6 0) (sym w.whole)
            ∙ wrap_all n ciphertext s;
      }

  -- On byte slices, for a block cipher whose two directions undo each other under the key:
  -- `aesKeyUnwrap` returns a plaintext exactly for the ciphertext that `aesKeyWrap` makes of it.
  pub aes_key_unwrap_iff :
      (ciphertext plaintext : Bytes)
      → All IsByte ciphertext
      → All IsByte plaintext
      → (aes_key_unwrap aes kek ciphertext ≡ ok plaintext)
        ↔ (aes_key_wrap aes kek plaintext ≡ ok ciphertext)
  aes_key_unwrap_iff ciphertext plaintext h k = (
    λ e. aes_key_wrap_run aes kek plaintext ciphertext (
        Unwrapped→Wrapped ciphertext plaintext h
          (Ensures-ok (aes_key_unwrap-Ensures aes kek ciphertext) e)),
    λ e. aes_key_unwrap_run aes kek ciphertext plaintext (
        Wrapped→Unwrapped plaintext ciphertext k
          (Ensures-ok (aes_key_wrap-Ensures aes kek plaintext) e)),
  )

  -- For a block cipher whose two directions undo each other under the key, a key of 16, 24 or 32 bytes
  -- and a plaintext of bytes, of at least two whole registers of 8 bytes,
  -- `aesKeyWrap` succeeds, and `aesKeyUnwrap` gives the plaintext back from what it returns.
  pub aes_key_unwrap-aes_key_wrap :
      (plaintext : Bytes)
      → All IsByte plaintext
      → key_size_ok kek ≡ true
      → 16 ≤ length plaintext
      → length plaintext % 8 ≡ 0
      → (aes_key_wrap aes kek plaintext >>= aes_key_unwrap aes kek) ≡ ok plaintext
  aes_key_unwrap-aes_key_wrap plaintext h key least blocks =
      let ciphertext = wrap_rows aes kek (length plaintext / 8) 6 0 (initial_value ++ plaintext) in
      let w : Wrapped aes kek plaintext ciphertext = record {
        key = key;
        least = least;
        blocks = blocks;
        whole = refl;
      } in
      ap (λ (r : Outcome KeyWrapError Bytes). r >>= aes_key_unwrap aes kek)
        (aes_key_wrap_run aes kek plaintext ciphertext w)
      ∙ aes_key_unwrap_run aes kek ciphertext plaintext (Wrapped→Unwrapped plaintext ciphertext h w)

  -- On byte slices, for a block cipher whose two directions undo each other under the key: what
  -- `aesKeyWrap` returns is one register of 8 bytes longer than the plaintext.
  pub length-aes_key_wrap :
      (plaintext ciphertext : Bytes)
      → All IsByte plaintext
      → aes_key_wrap aes kek plaintext ≡ ok ciphertext
      → length ciphertext ≡ length plaintext + 8
  length-aes_key_wrap plaintext ciphertext h e =
      let w = Ensures-ok (aes_key_wrap-Ensures aes kek plaintext) e in
      let n = length plaintext / 8 in
      let s = start-IsState plaintext h w.blocks in
      omega (
        arith,
        ap length w.whole,
        (wrap_rows-IsState aes kek c n 6 0 (initial_value ++ plaintext) s).0,
        w.blocks,
      )
