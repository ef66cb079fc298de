-- ===== src/Content/Laws.antt =====
-- encrypt.go and decrypt.go: decryption gives back the content that was encrypted.
use pkcs.Base.{
  ℕ, suc, ◌+◌, ◌%◌, ◌≤◌, ◌<◌, ◌≡◌, ◌≢◌, refl, ap, ◌∙◌, true, false, ◌||◌, not, ◌==◌, ==_refl,
  Option, some, [], append-nil, length, Bytes, ok, ◌>>=◌, arith,
}
use pkcs.Subtle.{bytes_equal}
use pkcs.Padding.Trip.{PadsAndBack, unpad-pad}
use pkcs.Algorithms.Oids
use pkcs.Algorithms.Oids.{Oid}
use pkcs.Content.Ciphers.{CipherKind, Block, Crypto, IsCbc, IsDecoder}
use pkcs.Content.Encrypt.{
  EncryptionAlgorithm, aes128_cbc, aes256_cbc, marshal_encrypted_content, key_or_random,
  encrypt_cbc, encrypt_des_cbc, encrypt_aes_cbc,
}
use pkcs.Content.Decrypt.{is_gcm, cipher_kind, join_octets, cyphertext_of, decrypt_cbc, decrypt}

-- What `encryptAESCBC` chooses for an algorithm: the identifier and the size of a random key.
pub data AesCbc : EncryptionAlgorithm → ℕ → Type 0 where
  aes_cbc128 : AesCbc aes128_cbc 16
  aes_cbc256 : AesCbc aes256_cbc 32

module _ (crypto : Crypto) (d : IsDecoder crypto) where
  -- Two rounds: the one octet string, and the end.
  pub cyphertext_of-marshal_encrypted_content :
      (content : Bytes)
      → cyphertext_of crypto (marshal_encrypted_content crypto content) ≡ ok content
  unfolding cyphertext_of join_octets
  cyphertext_of-marshal_encrypted_content content =
      let encoded = crypto.marshal_octets content in
      let e : length encoded + 2 ≡ suc (suc (length encoded)) = omega arith in
      ap (λ (fuel : ℕ). join_octets crypto fuel encoded) e
      ∙ two (length encoded) encoded (d.unmarshal_marshal content)
    where
      two :
          (fuel : ℕ) (encoded : Bytes)
          → crypto.unmarshal_octets encoded ≡ some (content, [])
          → join_octets crypto (suc (suc fuel)) encoded ≡ ok content
      two fuel encoded h = rw (join_octets, h, d.unmarshal_nil, append-nil content) refl

  module _ (block : Block) (size : ℕ) (c : IsCbc block size) (some_block : 1 ≤ size)
      (small : size < 256) where
    decrypt_cbc-cbc_encrypt :
        (content iv : Bytes)
        → length iv ≡ size
        → (p : PadsAndBack content size)
        → decrypt_cbc crypto block iv (block.cbc_encrypt iv p.padded) ≡ ok content
    unfolding decrypt_cbc
    decrypt_cbc-cbc_encrypt content iv h p =
        let same = c.cbc_length iv p.padded h p.blocks in
        let whole : (length (block.cbc_encrypt iv p.padded) == 0
              || not (length (block.cbc_encrypt iv p.padded) % size == 0))
            ≡ false =
          rw same (nonempty (length p.padded) size (omega (arith, p.longer)) p.blocks) in
        let blocks : (length (block.cbc_encrypt iv p.padded) % size == 0) ≡ true =
          rw (same, p.blocks) refl in
        rw (c.size_is, h, ==_refl size, whole, blocks, c.cbc_round iv p.padded h p.blocks, p.back)
          refl
      where
        nonempty : (n s : ℕ) → n ≢ 0 → n % s ≡ 0 → (n == 0 || not (n % s == 0)) ≡ false
        nonempty n s k e = ground arith

  module _ (rand_key rand_iv : ℕ → Option Bytes) (given : Option Bytes) (key iv content : Bytes)
      (block : Block) where
    -- For any cipher in CBC mode.
    decrypt-encrypt_cbc :
        (kind : CipherKind) (oid : Oid) (key_size size : ℕ)
        → cipher_kind oid ≡ some kind
        → is_gcm oid ≡ false
        → key_or_random crypto rand_key rand_iv given key_size ≡ ok key
        → rand_iv size ≡ some iv
        → length iv ≡ size
        → crypto.new_cipher kind key ≡ some block
        → IsCbc block size
        → 1 ≤ size
        → size < 256
        → (encrypt_cbc crypto rand_key rand_iv kind oid key_size size content given >>= λ r.
            decrypt crypto r.1 r.0)
          ≡ ok content
    unfolding encrypt_cbc decrypt
    decrypt-encrypt_cbc kind oid key_size size known cbc keyed random iv_size cipher c some_block
          small =
        let p = unpad-pad content size some_block small in
        rw
          (
            keyed,
            random,
            cipher,
            c.size_is,
            p.pads_to,
            known,
            cyphertext_of-marshal_encrypted_content (block.cbc_encrypt iv p.padded),
            cipher,
            cbc,
          )
          (decrypt_cbc-cbc_encrypt block size c some_block small content iv iv_size p)

    -- With DES in CBC mode: where the key, given or random, makes a cipher with blocks of 8 bytes whose
    -- CBC decryption undoes its encryption, and the random bytes of the initial vector are there, what
    -- `encryptDESCBC` returns is decrypted to the content with the key that it returns.
    pub decrypt-encrypt_des_cbc :
        key_or_random crypto rand_key rand_iv given 8 ≡ ok key
        → rand_iv 8 ≡ some iv
        → length iv ≡ 8
        → crypto.new_cipher CipherKind.des key ≡ some block
        → IsCbc block 8
        → (encrypt_des_cbc crypto rand_key rand_iv content given >>= λ r. decrypt crypto r.1 r.0)
          ≡ ok content
    unfolding encrypt_des_cbc cipher_kind bytes_equal
    decrypt-encrypt_des_cbc keyed random iv_size cipher c =
        decrypt-encrypt_cbc CipherKind.des Oids.encryption_algorithm_des_cbc 8 8 refl refl keyed
          random iv_size cipher c (omega arith) (omega arith)

    -- With AES in CBC mode, for a key of the caller or a random one of 16 or of 32 bytes: where the key
    -- makes a cipher with blocks of 16 bytes whose CBC decryption undoes its encryption, and the random
    -- bytes of the initial vector are there, what `encryptAESCBC` returns is decrypted to the content
    -- with the key that it returns.
    pub decrypt-encrypt_aes_cbc :
        (algorithm : EncryptionAlgorithm) (key_size : ℕ)
        → AesCbc algorithm key_size
        → key_or_random crypto rand_key rand_iv given key_size ≡ ok key
        → rand_iv 16 ≡ some iv
        → length iv ≡ 16
        → crypto.new_cipher CipherKind.aes key ≡ some block
        → IsCbc block 16
        → (encrypt_aes_cbc crypto rand_key rand_iv algorithm content given >>= λ r.
            decrypt crypto r.1 r.0)
          ≡ ok content
    unfolding encrypt_aes_cbc cipher_kind bytes_equal
    decrypt-encrypt_aes_cbc algorithm key_size aes_cbc128 keyed random iv_size cipher c =
        decrypt-encrypt_cbc CipherKind.aes Oids.encryption_algorithm_aes128_cbc 16 16 refl refl
          keyed random iv_size cipher c (omega arith) (omega arith)
    decrypt-encrypt_aes_cbc algorithm key_size aes_cbc256 keyed random iv_size cipher c =
        decrypt-encrypt_cbc CipherKind.aes Oids.encryption_algorithm_aes256_cbc 32 16 refl refl
          keyed random iv_size cipher c (omega arith) (omega arith)
