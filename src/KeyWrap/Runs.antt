-- ===== src/KeyWrap/Runs.antt =====
-- Runs of kem.go's key wrap at concrete inputs, with a block cipher that swaps the halves of a block.
use pkcs.Base.{ℕ, ◌≡◌, ◌↔◌, refl, sym, subst, [], ◌∷◌, ◌++◌}
use pkcs.Base.{
  length, take, drop, replicate, Bytes, IsByte, All, All-append, All-append_left, All-append_right,
  length-append_bytes, length-take, length-drop, take_append, drop_append, take-append-drop, ok,
  err, ◌>>=◌, arith,
}
use pkcs.Subtle.{bytes_equal}
use pkcs.Base.{◌+◌, true}
use pkcs.KeyWrap.Cipher.{Aes, IsBlock, IsCipher, key_size_ok}
use pkcs.KeyWrap.Wrap.{
  wrap_input, key_size, integrity_check, wrap_step, wrap_row, wrap_rows, unwrap_step, unwrap_row,
  unwrap_rows, aes_key_wrap, aes_key_unwrap,
}
use pkcs.KeyWrap.Laws.{aes_key_unwrap_iff, aes_key_unwrap-aes_key_wrap, length-aes_key_wrap}

abbrev swap : Bytes → Bytes
swap block = drop 8 block ++ take 8 block

abbrev swapping : Aes
swapping = record { encrypt = λ key. swap; decrypt = λ key. swap }

sizes : (b : Bytes) → IsBlock b → (length (take 8 b) ≡ 8) × (length (drop 8 b) ≡ 8)
sizes b h = (length-take 8 b (omega (arith, h.0)), omega (arith, length-drop 8 b, h.0))

swap-IsBlock : (b : Bytes) → IsBlock b → IsBlock (swap b)
swap-IsBlock b h =
    let s = sizes b h in
    let bytes = subst (All IsByte) (sym (take-append-drop 8 b)) h.1 in
    (
      omega (arith, length-append_bytes (drop 8 b) (take 8 b), s.0, s.1),
      All-append IsByte (drop 8 b) (take 8 b) (All-append_right IsByte (take 8 b) (drop 8 b) bytes)
          (All-append_left IsByte (take 8 b) (drop 8 b) bytes),
    )

swap-swap : (b : Bytes) → IsBlock b → swap (swap b) ≡ b
swap-swap b h =
    let s = sizes b h in
    let a = take 8 b in
    let r = drop 8 b in
    let back = subst (λ (n : ℕ). drop n (r ++ a) ≡ a) s.1 (drop_append r a) in
    let front = subst (λ (n : ℕ). take n (r ++ a) ≡ r) s.1 (take_append r a) in
    rw (back, front) (take-append-drop 8 b)

abbrev kek : Bytes
kek = replicate 16 1

swapping-IsCipher : IsCipher swapping kek
swapping-IsCipher = record {
  encrypt-IsBlock = swap-IsBlock;
  decrypt-IsBlock = swap-IsBlock;
  decrypt-encrypt = swap-swap;
  encrypt-decrypt = swap-swap;
}

abbrev content_key : Bytes
content_key = 1 ∷ 2 ∷ 3 ∷ 4 ∷ 5 ∷ 6 ∷ 7 ∷ 8 ∷ 9 ∷ 10 ∷ 11 ∷ 12 ∷ 13 ∷ 14 ∷ 15 ∷ 255 ∷ []

content_key_bytes : All IsByte content_key
content_key_bytes = ground arith

abbrev wrapped_key : Bytes
wrapped_key =
    166 ∷ 166 ∷ 166 ∷ 166 ∷ 166 ∷ 166 ∷ 166 ∷ 166 ∷ 1 ∷ 2 ∷ 3 ∷ 4 ∷ 5 ∷ 6 ∷ 7 ∷ 0 ∷ 9 ∷ 10 ∷ 11 ∷ 12
    ∷ 13 ∷ 14 ∷ 15 ∷ 251 ∷ []

wrap_content_key : aes_key_wrap swapping kek content_key ≡ ok wrapped_key
unfolding aes_key_wrap wrap_rows wrap_row wrap_step key_size_ok
wrap_content_key = refl

-- A plaintext of one register, and a key of an unknown size.
wrap_short : aes_key_wrap swapping kek (replicate 8 1) ≡ err wrap_input
unfolding aes_key_wrap
wrap_short = refl

wrap_bad_key : aes_key_wrap swapping (replicate 15 1) content_key ≡ err key_size
unfolding aes_key_wrap key_size_ok
wrap_bad_key = refl

wrapped_key_bytes : All IsByte wrapped_key
wrapped_key_bytes = ground arith

key_size_ok-kek : key_size_ok kek ≡ true
unfolding key_size_ok
key_size_ok-kek = refl

aes_key_unwrap_iff_example :
    (aes_key_unwrap swapping kek wrapped_key ≡ ok content_key)
    ↔ (aes_key_wrap swapping kek content_key ≡ ok wrapped_key)
aes_key_unwrap_iff_example =
    aes_key_unwrap_iff swapping kek swapping-IsCipher wrapped_key content_key wrapped_key_bytes
      content_key_bytes

-- A ciphertext with its first byte changed.
unwrap_tampered : aes_key_unwrap swapping kek (0 ∷ drop 1 wrapped_key) ≡ err integrity_check
unfolding aes_key_unwrap unwrap_rows unwrap_row unwrap_step key_size_ok bytes_equal
unwrap_tampered = refl

aes_key_unwrap-aes_key_wrap_example :
    (aes_key_wrap swapping kek content_key >>= aes_key_unwrap swapping kek) ≡ ok content_key
aes_key_unwrap-aes_key_wrap_example =
    aes_key_unwrap-aes_key_wrap swapping kek swapping-IsCipher content_key content_key_bytes
      key_size_ok-kek (omega arith) refl

length-aes_key_wrap_example : length wrapped_key ≡ length content_key + 8
length-aes_key_wrap_example =
    length-aes_key_wrap swapping kek swapping-IsCipher content_key wrapped_key content_key_bytes
      wrap_content_key
