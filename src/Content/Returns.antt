-- ===== src/Content/Returns.antt =====
-- decrypt.go, `encryptedContentInfo.decrypt`: it comes to an end, and it never panics.
use pkcs.Base.{
  ℕ, zero, suc, ◌+◌, ◌%◌, ◌<◌, ◌≡◌, ◌≢◌, refl, ◌||◌, not, ◌==◌, Option, none, some, [], ◌++◌,
  length, Bytes, IsByte, All, Outcome, ok, panic, stuck, ◌>>=◌, arith,
}
use pkcs.Base.{
  Ensures, holds, rejected, Ensures->>=, Ensures-fail_if, Ensures-if, Ensures-ne-panic,
  Ensures-ne-stuck,
}
use pkcs.Padding.Block.{PaddingError}
use pkcs.Padding.Laws.{unpad-Ensures}
use pkcs.Algorithms.Keys.{RawValue}
use pkcs.Content.Ciphers.{CipherKind, Block, Crypto, EncryptedContentInfo, ContentError}
use pkcs.Base.{value_or, value_or-Ensures, Ensures-panic_unless, not-false}
use pkcs.Content.Decrypt.{
  is_gcm, cipher_kind, unpadded, join_octets, cyphertext_of, decrypt_gcm, decrypt_cbc, decrypt,
}

-- Decoding an octet string consumes bytes, and CBC mode makes bytes.
pub record IsWellBehaved (crypto : Crypto) : Type 0 where
  pub shorter :
      (bytes part rest : Bytes)
      → crypto.unmarshal_octets bytes ≡ some (part, rest)
      → length rest < length bytes
  pub cbc_bytes :
      (kind : CipherKind) (key : Bytes) (block : Block)
      → crypto.new_cipher kind key ≡ some block
      → (iv content : Bytes) → All IsByte (block.cbc_decrypt iv content)

-- A value of any kind.
abbrev Any : Bytes → Type 0
Any content = Unit {0}

unpadded-Ensures :
    {P : Bytes → Type 0} {r : Outcome PaddingError Bytes} → Ensures P r → Ensures Any (unpadded r)
unpadded-Ensures (holds h) = holds tt
unpadded-Ensures rejected = rejected

value-Ensures : (r : Option Bytes) (e : ContentError) → Ensures Any (value_or r e)
value-Ensures none e = rejected
value-Ensures (some content) e = holds tt

module _ (crypto : Crypto) (w : IsWellBehaved crypto) where
  join_octets-Ensures :
      (fuel : ℕ) (bytes : Bytes) → length bytes < fuel → Ensures Any (join_octets crypto fuel bytes)
  unfolding join_octets
  join_octets-Ensures zero bytes h = absurd (omega arith)
  join_octets-Ensures (suc fuel) bytes h =
      decoded (λ rest k. join_octets-Ensures fuel rest k) (crypto.unmarshal_octets bytes) refl
    where
      decoded :
          ((rest : Bytes) → length rest < fuel → Ensures Any (join_octets crypto fuel rest))
          → (r : Option (Bytes × Bytes)) → crypto.unmarshal_octets bytes ≡ r
          → Ensures Any (elim r [
            | none ↦ ok []
            | some pair ↦ do rest ← join_octets crypto fuel pair.1; ok (pair.0 ++ rest)
          ])
      decoded again none e = holds tt
      decoded again (some (part, rest)) e =
          Ensures->>= (again rest (omega (arith, w.shorter bytes part rest e))) λ _ _. holds tt

  cyphertext_of-Ensures : (content : RawValue) → Ensures Any (cyphertext_of crypto content)
  unfolding cyphertext_of
  cyphertext_of-Ensures content =
      Ensures-if content.is_compound
        (λ _. join_octets-Ensures (length content.bytes + 2) content.bytes (omega arith))
        λ _. holds tt

  decrypt_gcm-Ensures :
      (block : Block) (parameters cyphertext : Bytes)
      → Ensures Any (decrypt_gcm crypto block parameters cyphertext)
  unfolding decrypt_gcm
  decrypt_gcm-Ensures block parameters cyphertext =
      Ensures->>= (value_or-Ensures (crypto.unmarshal_gcm parameters) _) λ params _.
        Ensures->>= (value_or-Ensures block.new_gcm _) λ gcm _.
          Ensures-fail_if (not (length params.nonce == gcm.nonce_size)) _ λ sized.
            Ensures-fail_if (not (params.icv_len == gcm.overhead)) _ λ _.
              Ensures-panic_unless (length params.nonce == gcm.nonce_size) (not-false _ sized)
                (value-Ensures (gcm.open_sealed params.nonce cyphertext) _)

  decrypt_cbc-Ensures :
      (block : Block) (iv cyphertext : Bytes)
      → All IsByte (block.cbc_decrypt iv cyphertext)
      → Ensures Any (decrypt_cbc crypto block iv cyphertext)
  unfolding decrypt_cbc
  decrypt_cbc-Ensures block iv cyphertext h =
      Ensures-fail_if (not (length iv == block.block_size)) _ λ sized.
        Ensures-fail_if (length cyphertext == 0 || not (length cyphertext % block.block_size == 0))
          _
          λ whole. Ensures-panic_unless (length iv == block.block_size) (not-false _ sized) (
            Ensures-panic_unless (length cyphertext % block.block_size == 0) (ground arith) (
              unpadded-Ensures
                (unpad-Ensures (block.cbc_decrypt iv cyphertext) block.block_size h)))

  decrypt-Ensures :
      (eci : EncryptedContentInfo) (key : Bytes) → Ensures Any (decrypt crypto eci key)
  unfolding decrypt
  decrypt-Ensures eci key =
      let alg = eci.content_encryption_algorithm.algorithm in
      let parameters = eci.content_encryption_algorithm.parameters.bytes in
      Ensures->>= (value_or-Ensures (cipher_kind alg) _) λ kind _.
        Ensures->>= (cyphertext_of-Ensures eci.encrypted_content) λ cyphertext _.
          Ensures->>= (value_or-Ensures (crypto.new_cipher kind key) _) λ block made.
            Ensures-if (is_gcm alg) (λ _. decrypt_gcm-Ensures block parameters cyphertext)
              (λ _.
                decrypt_cbc-Ensures block parameters cyphertext
                  (w.cbc_bytes kind key block made parameters cyphertext))

  -- Where decoding an octet string consumes bytes and CBC mode makes bytes, `decrypt` returns on every
  -- encrypted content and every key: its loop over the octet strings ends, and it does not panic.
  pub decrypt_returns :
      (eci : EncryptedContentInfo) (key : Bytes)
      → (decrypt crypto eci key ≢ panic) × (decrypt crypto eci key ≢ stuck)
  decrypt_returns eci key =
      (Ensures-ne-panic (decrypt-Ensures eci key), Ensures-ne-stuck (decrypt-Ensures eci key))
