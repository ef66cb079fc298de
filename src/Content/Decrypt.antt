-- ===== src/Content/Decrypt.antt =====
-- decrypt.go, `encryptedContentInfo.decrypt`.
use pkcs.Base.{
  ℕ, zero, suc, ◌+◌, ◌%◌, Bool, ◌||◌, not, ◌==◌, if◌then◌else◌, Option, none, some, [], ◌++◌,
  length, Bytes, Outcome, ok, err, panic, stuck, ◌>>=◌, ◌>>◌, fail_if,
}
use pkcs.Padding.Block.{PaddingError, unpad}
use pkcs.Algorithms.Oids
use pkcs.Algorithms.Oids.{Oid, equal}
use pkcs.Algorithms.Keys.{RawValue}
use pkcs.Content.Ciphers.{
  CipherKind, Gcm, Block, Crypto, EncryptedContentInfo, ContentError, unsupported_algorithm,
  bad_key, bad_gcm_parameters, no_gcm, authentication, malformed_parameters, invalid_padding,
}
use pkcs.Base.{value_or, panic_unless}

abbrev pub is_gcm : Oid → Bool
is_gcm oid =
    equal oid Oids.encryption_algorithm_aes128_gcm || equal oid Oids.encryption_algorithm_aes256_gcm

-- The cipher of an algorithm, where it is supported.
unfoldable pub cipher_kind : Oid → Option CipherKind
cipher_kind oid =
    if equal oid Oids.encryption_algorithm_des_cbc
    then some CipherKind.des
    else if equal oid Oids.encryption_algorithm_des_ede3_cbc
    then some CipherKind.triple_des
    else if equal oid Oids.encryption_algorithm_aes256_cbc
        || equal oid Oids.encryption_algorithm_aes256_gcm
    then some CipherKind.aes
    else if equal oid Oids.encryption_algorithm_aes128_gcm
        || equal oid Oids.encryption_algorithm_aes128_cbc
    then some CipherKind.aes
    else none

-- `unpad`, where the caller returns its error.
abbrev pub unpadded : Outcome PaddingError Bytes → Outcome ContentError Bytes
unpadded (ok content) = ok content
unpadded (err e) = err invalid_padding
unpadded panic = panic
unpadded stuck = stuck

-- `gcm.Open`, which panics on a nonce of another length than its own.
abbrev pub opened : Gcm → Bytes → Bytes → Outcome ContentError Bytes
opened gcm nonce cyphertext =
    panic_unless (length nonce == gcm.nonce_size)
    >> value_or (gcm.open_sealed nonce cyphertext) authentication

module _ (crypto : Crypto) where
  -- The loop over the octet strings of constructed content: it ends where none can be decoded.
  unfoldable pub join_octets : ℕ → Bytes → Outcome ContentError Bytes
  join_octets zero bytes = stuck
  join_octets (suc fuel) bytes = elim (crypto.unmarshal_octets bytes) [
    | none ↦ ok []
    | some decoded ↦ do rest ← join_octets fuel decoded.1; ok (decoded.0 ++ rest)
  ]

  -- A part takes two bytes at least.
  unfoldable pub cyphertext_of : RawValue → Outcome ContentError Bytes
  cyphertext_of content =
      if content.is_compound
      then join_octets (length content.bytes + 2) content.bytes
      else ok content.bytes

  unfoldable pub decrypt_gcm : Block → Bytes → Bytes → Outcome ContentError Bytes
  decrypt_gcm block parameters cyphertext = do
    params ← value_or (crypto.unmarshal_gcm parameters) bad_gcm_parameters
    gcm ← value_or block.new_gcm no_gcm
    fail_if (not (length params.nonce == gcm.nonce_size)) bad_gcm_parameters
    fail_if (not (params.icv_len == gcm.overhead)) bad_gcm_parameters
    opened gcm params.nonce cyphertext

  -- `NewCBCDecrypter` panics on an initial vector of another length than a block, and `CryptBlocks` on
  -- a part of a block.
  unfoldable pub decrypt_cbc : Block → Bytes → Bytes → Outcome ContentError Bytes
  decrypt_cbc block iv cyphertext = do
    fail_if (not (length iv == block.block_size)) malformed_parameters
    fail_if (length cyphertext == 0 || not (length cyphertext % block.block_size == 0))
        invalid_padding
    panic_unless (length iv == block.block_size)
    panic_unless (length cyphertext % block.block_size == 0)
    unpadded (unpad (block.cbc_decrypt iv cyphertext) block.block_size)

  unfoldable pub decrypt : EncryptedContentInfo → Bytes → Outcome ContentError Bytes
  decrypt eci key = do
    let alg = eci.content_encryption_algorithm.algorithm
    let parameters = eci.content_encryption_algorithm.parameters.bytes
    kind ← value_or (cipher_kind alg) unsupported_algorithm
    cyphertext ← cyphertext_of eci.encrypted_content
    block ← value_or (crypto.new_cipher kind key) bad_key
    if is_gcm alg
        then decrypt_gcm block parameters cyphertext
        else decrypt_cbc block parameters cyphertext
