-- ===== src/Envelope/Trip.antt =====
-- encrypt.go, pkcs7.go and decrypt.go: a message encrypted with a shared key, parsed and decrypted.
use pkcs.Base.{
  ℕ, ◌≤◌, ◌<◌, ◌^◌, ◌≡◌, ◌⊎◌, inl, inr, false, arith, All, refl, sym, ap, ◌∙◌, subst, Option, some,
  [], Bytes, length, Outcome, ok, ◌>>=◌, value_or, value_or-eq-ok, with_error, with_error-eq-ok,
  >>=-eq-ok, ok_injective,
}
use pkcs.Subtle.{bytes_equal}
use pkcs.Ber.Transcode.{ber2der_iff}
use pkcs.Algorithms.Oids
use pkcs.Algorithms.Oids.{Oid}
use pkcs.Message.Types.{ContentInfo, SignedContent}
use pkcs.Message.Pkcs7.{EncryptedData, raw_encrypted, Pkcs7}
use pkcs.Content.Ciphers.{
  Crypto, CipherKind, Block, Gcm, EncryptedContentInfo, IsDecoder, IsCbc, IsGcm, IsGcmDecoder,
  ContentError,
}
use pkcs.Content.Encrypt.{
  EncryptionAlgorithm, des_cbc, aes128_gcm, aes256_gcm, padded, encrypt_cbc, encrypt_des_cbc,
}
use pkcs.Padding.Block.{pad}
use pkcs.Content.Seal.{gcm_choice, sealed, nonce_size, encrypt_aes_gcm}
use pkcs.Content.Decrypt.{cyphertext_of, decrypt}
use pkcs.Content.Laws.{decrypt-encrypt_des_cbc}
use pkcs.Content.SealLaws.{AesGcm, decrypt-encrypt_aes_gcm, aes_gcm128, aes_gcm256}
use pkcs.Parse.Wire.{Wire, IsDer, IsWire, wrapped, content_info_of}
use pkcs.Parse.Read.{parse_content, parse_encrypted_data, parse_der, parse}
use pkcs.Parse.Laws.{parse-parse_der}
use pkcs.Envelope.Psk.{
  not_marshalled, bad_content, encrypt_content_using_psk, encrypt_using_psk, decrypt_using_psk,
}

-- What decryption reads of encrypted content.
pub record IsSame (a b : EncryptedContentInfo) : Type 0 where
  pub algorithm :
      a.content_encryption_algorithm.algorithm ≡ b.content_encryption_algorithm.algorithm
  pub parameters :
      a.content_encryption_algorithm.parameters.bytes
      ≡ b.content_encryption_algorithm.parameters.bytes
  pub compound : a.encrypted_content.is_compound ≡ b.encrypted_content.is_compound
  pub bytes : a.encrypted_content.bytes ≡ b.encrypted_content.bytes

-- An object identifier that encoding/asn1 decodes: its parts are below 2 ^ 30.
abbrev IsSmall : Oid → Type 0
IsSmall oid = All (λ arc. arc < 2 ^ 30) oid

-- Encrypted content whose raw values are given by their tags and bytes: the parameters an octet string
-- or a value tagged as a sequence, the content in `[0]`.
pub data IsPlain : EncryptedContentInfo → Type 0 where
  plain :
      (oid : Oid) (tag : ℕ) (parameters content : Bytes)
      → IsSmall oid
      → (tag ≡ 4) ⊎ (tag ≡ 16)
      → IsPlain (record {
        content_type = Oids.oid_data;
        content_encryption_algorithm = record {
          algorithm = oid;
          parameters = record {
            class = 0;
            tag = tag;
            is_compound = false;
            bytes = parameters;
            full_bytes = [];
          };
        };
        encrypted_content = wrapped content;
      })

-- Such encrypted data is decoded from its encoding, if that is shorter than 2 ^ 31 bytes, its raw values
-- at least by their bytes; and an encoding is not empty.
pub record IsEncryptedWire (wire : Wire) : Type 0 where
  pub encrypted_round :
      (eci : EncryptedContentInfo) (out : Bytes)
      → IsPlain eci
      → wire.marshal_encrypted_data (record { version = 0; encrypted_content_info = eci })
        ≡ some out
      → length out < 2 ^ 31
      → (decoded : EncryptedData) × (wire.unmarshal_encrypted_data out ≡ some decoded)
        × IsSame decoded.encrypted_content_info eci
  pub encrypted_some :
      (ed : EncryptedData) (out : Bytes)
      → wire.marshal_encrypted_data ed ≡ some out
      → 1 ≤ length out

-- The ciphers and the random bytes work for a key and an algorithm.
pub data IsUsable (crypto : Crypto) (rand_iv : ℕ → Option Bytes) (key : Bytes)
    : EncryptionAlgorithm → Type 0 where
  des_usable :
      (iv : Bytes) (block : Block)
      → rand_iv 8 ≡ some iv
      → length iv ≡ 8
      → crypto.new_cipher CipherKind.des key ≡ some block
      → IsCbc block 8
      → IsUsable crypto rand_iv key des_cbc
  gcm_usable :
      {algorithm : EncryptionAlgorithm} {key_size : ℕ} (a : AesGcm algorithm key_size)
      (nonce params : Bytes) (block : Block) (gcm : Gcm)
      → rand_iv 12 ≡ some nonce
      → length nonce ≡ 12
      → crypto.new_cipher CipherKind.aes key ≡ some block
      → block.new_gcm ≡ some gcm
      → IsGcm gcm
      → crypto.marshal_gcm (record { nonce = nonce; icv_len = gcm.overhead }) ≡ some params
      → IsUsable crypto rand_iv key algorithm

gcm_choice-IsSmall :
    {algorithm : EncryptionAlgorithm} {key_size : ℕ} {choice : ℕ × Oid}
    → AesGcm algorithm key_size
    → gcm_choice algorithm ≡ some choice
    → IsSmall choice.1
gcm_choice-IsSmall {choice = choice} aes_gcm128 e =
    let same : (16, Oids.encryption_algorithm_aes128_gcm) ≡ choice = cc in
    subst (λ (c : ℕ × Oid). IsSmall c.1) same (omega arith)
gcm_choice-IsSmall {choice = choice} aes_gcm256 e =
    let same : (32, Oids.encryption_algorithm_aes256_gcm) ≡ choice = cc in
    subst (λ (c : ℕ × Oid). IsSmall c.1) same (omega arith)

module _ (crypto : Crypto) (d : IsDecoder crypto) (g : IsGcmDecoder crypto)
    (rand_key rand_iv : ℕ → Option Bytes) where
  decrypt-IsSame :
      (a b : EncryptedContentInfo) (key : Bytes)
      → IsSame a b
      → decrypt crypto a key ≡ decrypt crypto b key
  unfolding decrypt cyphertext_of
  decrypt-IsSame a b key s = rw (s.algorithm, s.parameters, s.compound, s.bytes) refl

  -- The key of the caller is the key that is used, and the raw values are given by their bytes.
  encrypt_des_cbc-key :
      (key content : Bytes) (r : Bytes × EncryptedContentInfo)
      → encrypt_des_cbc crypto rand_key rand_iv content (some key) ≡ ok r
      → (r.0 ≡ key) × IsPlain r.1
  unfolding encrypt_des_cbc encrypt_cbc
  encrypt_des_cbc-key key content r e =
      let (iv, h1, e1) = >>=-eq-ok (value_or (rand_iv 8) _) _ e in
      let (block, h2, e2) = >>=-eq-ok (value_or (crypto.new_cipher CipherKind.des key) _) _ e1 in
      let (plaintext, h3, e3) = >>=-eq-ok (padded (pad content block.block_size)) _ e2 in
      subst (λ (p : Bytes × EncryptedContentInfo). (p.0 ≡ key) × IsPlain p.1) (ok_injective e3)
        (refl, plain Oids.encryption_algorithm_des_cbc 4 iv _ (omega arith) (inl refl))

  encrypt_aes_gcm-key :
      {algorithm : EncryptionAlgorithm} {key_size : ℕ} (a : AesGcm algorithm key_size)
      (key content : Bytes) (r : Bytes × EncryptedContentInfo)
      → encrypt_aes_gcm crypto rand_key rand_iv algorithm content (some key) ≡ ok r
      → (r.0 ≡ key) × IsPlain r.1
  unfolding encrypt_aes_gcm
  encrypt_aes_gcm-key {algorithm} a key content r e =
      let (choice, h0, e0) = >>=-eq-ok (value_or (gcm_choice algorithm) _) _ e in
      let (nonce, h1, e1) = >>=-eq-ok (value_or (rand_iv nonce_size) _) _ e0 in
      let (block, h2, e2) = >>=-eq-ok (value_or (crypto.new_cipher CipherKind.aes key) _) _ e1 in
      let (gcm, h3, e3) = >>=-eq-ok (value_or block.new_gcm _) _ e2 in
      let (ciphertext, h4, e4) = >>=-eq-ok (sealed gcm nonce content) _ e3 in
      let (params, h5, e5) = >>=-eq-ok (value_or (crypto.marshal_gcm _) _) _ e4 in
      let small = gcm_choice-IsSmall a (value_or-eq-ok (gcm_choice algorithm) _ h0) in
      subst (λ (p : Bytes × EncryptedContentInfo). (p.0 ≡ key) × IsPlain p.1) (ok_injective e5)
        (refl, plain choice.1 16 params _ small (inr refl))

  -- What decryption makes of a successful encryption, under the same key.
  encrypted_lem :
      (r : Outcome ContentError (Bytes × EncryptedContentInfo)) (key content : Bytes)
      (p : Bytes × EncryptedContentInfo)
      → (r >>= λ q. decrypt crypto q.1 q.0) ≡ ok content
      → (with_error bad_content r) ≡ ok p
      → (r ≡ ok p → (p.0 ≡ key) × IsPlain p.1)
      → (decrypt crypto p.1 key ≡ ok content) × IsPlain p.1
  encrypted_lem r key content p back e keyed =
      let made = with_error-eq-ok bad_content r e in
      let (same, is_plain) = keyed made in
      (
        subst (λ k. decrypt crypto p.1 k ≡ ok content) same
            (ap
                (λ (z : Outcome ContentError (Bytes × EncryptedContentInfo)).
                  z >>= λ q. decrypt crypto q.1 q.0)
                (sym made)
              ∙ back),
        is_plain,
      )

  encrypt_content_using_psk-decrypt :
      (algorithm : EncryptionAlgorithm) (key content : Bytes) (p : Bytes × EncryptedContentInfo)
      → IsUsable crypto rand_iv key algorithm
      → encrypt_content_using_psk crypto rand_key rand_iv algorithm content key ≡ ok p
      → (decrypt crypto p.1 key ≡ ok content) × IsPlain p.1
  unfolding encrypt_content_using_psk
  encrypt_content_using_psk-decrypt algorithm key content p
        (des_usable iv block random sized cipher c) e =
      encrypted_lem (encrypt_des_cbc crypto rand_key rand_iv content (some key)) key content p
        (decrypt-encrypt_des_cbc crypto d rand_key rand_iv (some key) key iv content block refl
          random sized cipher c)
        e (encrypt_des_cbc-key key content p)
  encrypt_content_using_psk-decrypt algorithm key content p
        (gcm_usable aes_gcm128 nonce params block gcm random sized cipher made is encoded) e =
      encrypted_lem (encrypt_aes_gcm crypto rand_key rand_iv aes128_gcm content (some key)) key
        content p
        (decrypt-encrypt_aes_gcm crypto d g rand_key rand_iv (some key) key nonce content params
          block gcm aes128_gcm 16 aes_gcm128 refl random sized cipher made is encoded)
        e (encrypt_aes_gcm-key aes_gcm128 key content p)
  encrypt_content_using_psk-decrypt algorithm key content p
        (gcm_usable aes_gcm256 nonce params block gcm random sized cipher made is encoded) e =
      encrypted_lem (encrypt_aes_gcm crypto rand_key rand_iv aes256_gcm content (some key)) key
        content p
        (decrypt-encrypt_aes_gcm crypto d g rand_key rand_iv (some key) key nonce content params
          block gcm aes256_gcm 32 aes_gcm256 refl random sized cipher made is encoded)
        e (encrypt_aes_gcm-key aes_gcm256 key content p)

  module _ (wire : Wire) (no_signers : Bytes → SignedContent) (w : IsWire wire no_signers)
      (x : IsEncryptedWire wire) where
    -- Encrypted data, whose parts are decoded.
    parse_encrypted_lem :
        (info : ContentInfo) (ed : EncryptedData) (inner out : Bytes)
        → wire.unmarshal_content_info out ≡ some (info, [])
        → info.content_type ≡ Oids.oid_encrypted_data
        → info.content.bytes ≡ inner
        → wire.unmarshal_encrypted_data inner ≡ some ed
        → parse_der wire out
          ≡ ok (record {
            content = [];
            certificates = [];
            crls = [];
            signers = [];
            raw = raw_encrypted ed;
          })
    unfolding parse_der parse_content parse_encrypted_data bytes_equal
    parse_encrypted_lem info ed inner out decoded type bytes e = rw (decoded, type, bytes, e) refl

    -- With DES in CBC mode, or AES in GCM mode: where the ciphers and the random bytes work for the key,
    -- a message that `EncryptUsingPSK` returns, if it is DER of bounded length and nesting, is parsed, and
    -- `DecryptUsingPSK` with the same key gives the content.
    pub decrypt_using_psk-encrypt_using_psk :
        (algorithm : EncryptionAlgorithm) (key content out : Bytes)
        → IsUsable crypto rand_iv key algorithm
        → encrypt_using_psk crypto rand_key rand_iv wire algorithm content (some key) ≡ ok out
        → IsDer out
        → (p7 : Pkcs7) × (parse wire out ≡ ok p7) × (decrypt_using_psk crypto p7 key ≡ ok content)
    unfolding encrypt_using_psk decrypt_using_psk
    decrypt_using_psk-encrypt_using_psk algorithm key content out usable e der =
        let (p, h1, e1) =
          >>=-eq-ok (encrypt_content_using_psk crypto rand_key rand_iv algorithm content key) _ e in
        let (inner, h2, e2) =
          >>=-eq-ok
            (value_or
              (wire.marshal_encrypted_data (record { version = 0; encrypted_content_info = p.1 }))
              not_marshalled)
            _ e1 in
        let outer =
          value_or-eq-ok (wire.marshal_content_info (content_info_of Oids.oid_encrypted_data inner))
            _ e2 in
        let marshalled =
          value_or-eq-ok
            (wire.marshal_encrypted_data (record { version = 0; encrypted_content_info = p.1 })) _
            h2 in
        let some_bytes = x.encrypted_some _ inner marshalled in
        let inner_in = w.content_info_longer Oids.oid_encrypted_data inner out outer in
        let small = der.short in
        let (info, decoded, type, bytes) =
          w.content_info_round Oids.oid_encrypted_data inner out (inr refl) outer some_bytes
            small in
        let (back, is_plain) =
          encrypt_content_using_psk-decrypt algorithm key content p usable h1 in
        let (ed, read, same) = x.encrypted_round p.1 inner is_plain marshalled (omega arith) in
        let transcoded = (ber2der_iff out out der.are_bytes).1 der.element in
        (
          record {
            content = [];
            certificates = [];
            crls = [];
            signers = [];
            raw = raw_encrypted ed;
          },
          parse-parse_der wire out out transcoded
              ∙ parse_encrypted_lem info ed inner out decoded type bytes read,
          ap (with_error bad_content)
              (decrypt-IsSame ed.encrypted_content_info p.1 key same ∙ back),
        )
