-- ===== src/Content/Runs.antt =====
-- Runs of the encryption and decryption of content.
use pkcs.Base.{
  ℕ, suc, ◌-◌, ◌≡◌, refl, ap, Option, none, some, [], ◌∷◌, length, drop, replicate, Bytes, ok,
  ◌>>=◌, arith,
}
use pkcs.Base.{false, true, zero, ◌<◌, ◌≢◌, panic, stuck, subst, All, IsByte, length-drop}
use pkcs.Algorithms.Oids
use pkcs.Content.Samples.{
  shifting, shifting-IsCbc, sizes, unmarshal, small_gcm, small_gcm-IsGcm, small_crypto,
  small_crypto-IsDecoder, small_crypto-IsGcmDecoder, zeros, text,
}
use pkcs.Content.SealLaws.{decrypt-encrypt_aes_gcm, aes_gcm128}
use pkcs.Content.Seal.{encrypt_aes_gcm}
use pkcs.Content.Returns.{IsWellBehaved, decrypt_returns}
use pkcs.Content.Ciphers.{EncryptedContentInfo}
use pkcs.Content.Ciphers.{Block, Crypto}
use pkcs.Content.Encrypt.{aes256_cbc, aes128_gcm, encrypt_des_cbc, encrypt_aes_cbc}
use pkcs.Content.Decrypt.{decrypt}
use pkcs.Content.Laws.{decrypt-encrypt_des_cbc, decrypt-encrypt_aes_cbc, aes_cbc256}

decrypt-encrypt_aes_gcm_example :
    (encrypt_aes_gcm small_crypto zeros zeros aes128_gcm text none >>= λ r.
    decrypt small_crypto r.1 r.0)
    ≡ ok text
decrypt-encrypt_aes_gcm_example =
    decrypt-encrypt_aes_gcm small_crypto small_crypto-IsDecoder small_crypto-IsGcmDecoder zeros
      zeros none (replicate 16 0) (replicate 12 0) text (16 ∷ replicate 12 0) (shifting 16)
      small_gcm aes128_gcm 16 aes_gcm128 refl refl refl refl refl small_gcm-IsGcm refl

decrypt-encrypt_des_cbc_example :
    (encrypt_des_cbc small_crypto zeros zeros text none >>= λ r. decrypt small_crypto r.1 r.0)
    ≡ ok text
decrypt-encrypt_des_cbc_example =
    decrypt-encrypt_des_cbc small_crypto small_crypto-IsDecoder zeros zeros none (replicate 8 0)
      (replicate 8 0) text (shifting 8) refl refl refl refl (shifting-IsCbc 8)

decrypt-encrypt_aes_cbc_example :
    (encrypt_aes_cbc small_crypto zeros zeros aes256_cbc text none >>= λ r.
    decrypt small_crypto r.1 r.0)
    ≡ ok text
decrypt-encrypt_aes_cbc_example =
    decrypt-encrypt_aes_cbc small_crypto small_crypto-IsDecoder zeros zeros none (replicate 32 0)
      (replicate 16 0) text (shifting 16) aes256_cbc 32 aes_cbc256 refl refl refl refl
      (shifting-IsCbc 16)

-- The decryption of a cipher, if there is one, makes bytes.
abbrev SomeBytes : Option Block → Bytes → Bytes → Type 0
SomeBytes none iv content = Unit {0}
SomeBytes (some block) iv content = All IsByte (block.cbc_decrypt iv content)

-- A cipher in CBC mode that decrypts to zeros.
abbrev blank : ℕ → Block
blank size = record {
  block_size = size;
  cbc_encrypt = λ iv content. content;
  cbc_decrypt = λ iv content. replicate (length content) 0;
  new_gcm = none;
}

abbrev blank_crypto : Crypto
blank_crypto = record {
  new_cipher = λ kind key. some (blank (sizes kind));
  marshal_octets = small_crypto.marshal_octets;
  unmarshal_octets = unmarshal;
  marshal_gcm = λ params. none;
  unmarshal_gcm = λ bytes. none;
}

replicate-IsByte : (n : ℕ) → All IsByte (replicate n 0)
replicate-IsByte zero = tt
replicate-IsByte (suc n) = (omega arith, replicate-IsByte n)

unmarshal_shorter :
    (bytes part rest : Bytes) → unmarshal bytes ≡ some (part, rest) → length rest < length bytes
unmarshal_shorter [] part rest e = cc
unmarshal_shorter (tag ∷ []) part rest e = cc
unmarshal_shorter (tag ∷ n ∷ bytes) part rest e =
    let same : drop n bytes ≡ rest = cc in omega (arith, length-drop_bytes n bytes, ap length same)
  where
    length-drop_bytes : (n : ℕ) (bytes : Bytes) → length (drop n bytes) ≡ length bytes - n
    length-drop_bytes n bytes = length-drop n bytes

blank_crypto-IsWellBehaved : IsWellBehaved blank_crypto
blank_crypto-IsWellBehaved = record {
  shorter = unmarshal_shorter;
  cbc_bytes = λ kind key block made iv content.
      subst (λ (b : Option Block). SomeBytes b iv content) made (replicate-IsByte (length content));
}

-- Two octet strings of four bytes, under DES in CBC mode.
abbrev two_parts : EncryptedContentInfo
two_parts = record {
  content_type = Oids.oid_data;
  content_encryption_algorithm = record {
    algorithm = Oids.encryption_algorithm_des_cbc;
    parameters = record {
      class = 0;
      tag = 4;
      is_compound = false;
      bytes = replicate 8 0;
      full_bytes = [];
    };
  };
  encrypted_content = record {
    class = 2;
    tag = 0;
    is_compound = true;
    bytes = 4 ∷ 4 ∷ 1 ∷ 2 ∷ 3 ∷ 4 ∷ 4 ∷ 4 ∷ 5 ∷ 6 ∷ 7 ∷ 8 ∷ [];
    full_bytes = [];
  };
}

decrypt_returns_example :
    (decrypt blank_crypto two_parts (replicate 8 0) ≢ panic)
    × (decrypt blank_crypto two_parts (replicate 8 0) ≢ stuck)
decrypt_returns_example =
    decrypt_returns blank_crypto blank_crypto-IsWellBehaved two_parts (replicate 8 0)
