-- ===== src/Envelope/Runs.antt =====
-- Runs of `EncryptUsingPSK` and `DecryptUsingPSK` at concrete inputs, with an encoding of one message.
use pkcs.Base.{
  ◌≡◌, ap, length, arith, refl, sym, Bool, true, false, ◌&&◌, Option, none, some, [], ◌∷◌,
  replicate, Bytes, ok,
}
use pkcs.Subtle.{bytes_equal, bytes_equal→eq}
use pkcs.Algorithms.Oids
use pkcs.Algorithms.Oids.{Oid, equal}
use pkcs.Message.Pkcs7.{Pkcs7}
use pkcs.Content.Ciphers.{EncryptedContentInfo}
use pkcs.Content.Encrypt.{des_cbc, encrypt_cbc, encrypt_des_cbc}
use pkcs.Padding.Block.{pad}
use pkcs.Content.Samples.{
  shifting, shifting-IsCbc, small_crypto, small_crypto-IsDecoder, small_crypto-IsGcmDecoder, zeros,
  text,
}
use pkcs.Parse.Wire.{Wire, IsWire, content_info_of}
use pkcs.Parse.Read.{parse}
use pkcs.Parse.Write.{no_signers}
use pkcs.Parse.Samples.{small_der-IsDer, small_der, when, when-some, both}
use pkcs.Algorithms.Laws.{plain}
use pkcs.Algorithms.Keys.{RawValue}
use pkcs.Message.Certificates.{cert2issuer_and_serial}
use pkcs.Verify.Samples.{small_cert}
use pkcs.Envelope.Recipients.{
  RecipientInfo, IsFirst, select_recipient_for_certificate, select_recipient_for_certificate_iff,
}
use pkcs.Base.{List, ◌↔◌}
use pkcs.Envelope.Psk.{encrypt_content_using_psk, encrypt_using_psk, decrypt_using_psk}
use pkcs.Envelope.Trip.{IsEncryptedWire, des_usable, decrypt_using_psk-encrypt_using_psk}

-- The text, padded and shifted.
abbrev shifted_text : Bytes
shifted_text = 4 ∷ 8 ∷ 105 ∷ 102 ∷ 109 ∷ 109 ∷ 112 ∷ 4 ∷ 4 ∷ 4 ∷ []

abbrev shifted_info : EncryptedContentInfo
shifted_info = record {
  content_type = Oids.oid_data;
  content_encryption_algorithm = record {
    algorithm = Oids.encryption_algorithm_des_cbc;
    parameters = record {
      class = 0;
      tag = 4;
      is_compound = false;
      bytes = replicate 8 0;
      full_bytes = [];
    };
  };
  encrypted_content = record {
    class = 2;
    tag = 0;
    is_compound = true;
    bytes = shifted_text;
    full_bytes = [];
  };
}

-- The encrypted content is the one above, in what decryption reads.
abbrev is_shifted : EncryptedContentInfo → Bool
is_shifted eci =
    (equal eci.content_encryption_algorithm.algorithm Oids.encryption_algorithm_des_cbc
      && bytes_equal eci.content_encryption_algorithm.parameters.bytes (replicate 8 0))
    && (eci.encrypted_content.is_compound && bytes_equal eci.encrypted_content.bytes shifted_text)

abbrev psk_wire : Wire
psk_wire = record {
  unmarshal_content_info = λ bytes. some (content_info_of Oids.oid_encrypted_data (1 ∷ []), []);
  unmarshal_signed_data = λ bytes. none;
  unmarshal_enveloped_data = λ bytes. none;
  unmarshal_encrypted_data =
      λ bytes. some (record { version = 0; encrypted_content_info = shifted_info });
  unmarshal_raw = λ bytes. none;
  unmarshal_octets = λ bytes. none;
  parse_certificates = λ bytes. none;
  marshal_content_info = λ info.
      when
        (equal info.content_type Oids.oid_encrypted_data && bytes_equal info.content.bytes (1 ∷ []))
        small_der;
  marshal_signed_data = λ sd. none;
  marshal_enveloped_data = λ ed. none;
  marshal_encrypted_data = λ ed. when (is_shifted ed.encrypted_content_info) (1 ∷ []);
  marshal_raw = λ raw. none;
}

psk_wire-IsWire : IsWire psk_wire no_signers
psk_wire-IsWire = record {
  content_info_round = λ oid inner out _ e _ _.
      let (type, bytes) =
        both (equal oid Oids.oid_encrypted_data) (bytes_equal inner (1 ∷ []))
          (when-some _ small_der out e).0 in
      (
        content_info_of Oids.oid_encrypted_data (1 ∷ []),
        refl,
        sym (bytes_equal→eq oid Oids.oid_encrypted_data type),
        sym (bytes_equal→eq inner (1 ∷ []) bytes),
      );
  content_info_longer = λ oid inner out e.
      let (here, same) = when-some _ small_der out e in
      let (type, bytes) =
        both (equal oid Oids.oid_encrypted_data) (bytes_equal inner (1 ∷ [])) here in
      let three = ap length same in
      let one = ap length (bytes_equal→eq inner (1 ∷ []) bytes) in omega arith;
  no_signers_round = λ cert certs out e _ _. absurd (none_is_some e);
  no_signers_longer = λ cert certs out e _. absurd (none_is_some e);
  raw_round = λ inner out e _. absurd (none_is_some e);
  raw_some = λ inner out e. absurd (none_is_some e);
}
  where
    none_is_some : {out : Bytes} → ◌≡◌ {A = Option Bytes} none (some out) → ⊥
    none_is_some e = cc

psk_wire-IsEncryptedWire : IsEncryptedWire psk_wire
psk_wire-IsEncryptedWire = record {
  encrypted_some = λ ed out e.
      let one = ap length (when-some (is_shifted ed.encrypted_content_info) (1 ∷ []) out e).1 in
      omega arith;
  encrypted_round = λ eci out _ e _.
      let (front, back) = both _ _ (when-some (is_shifted eci) (1 ∷ []) out e).0 in
      let (algorithm, parameters) = both _ _ front in
      let (compound, bytes) = both _ _ back in
      (
        record { version = 0; encrypted_content_info = shifted_info },
        refl,
        record {
          algorithm = sym (
              bytes_equal→eq eci.content_encryption_algorithm.algorithm
                Oids.encryption_algorithm_des_cbc algorithm);
          parameters = sym (
              bytes_equal→eq eci.content_encryption_algorithm.parameters.bytes (replicate 8 0)
                parameters);
          compound = sym compound;
          bytes = sym (bytes_equal→eq eci.encrypted_content.bytes shifted_text bytes);
        },
      );
}

encrypts_text :
    encrypt_using_psk small_crypto zeros zeros psk_wire des_cbc text (some (replicate 8 0))
    ≡ ok small_der
unfolding encrypt_using_psk encrypt_content_using_psk bytes_equal encrypt_des_cbc encrypt_cbc pad
encrypts_text = refl

decrypt_using_psk-encrypt_using_psk_example :
    (p7 : Pkcs7) × (parse psk_wire small_der ≡ ok p7)
    × (decrypt_using_psk small_crypto p7 (replicate 8 0) ≡ ok text)
decrypt_using_psk-encrypt_using_psk_example =
    decrypt_using_psk-encrypt_using_psk small_crypto small_crypto-IsDecoder
      small_crypto-IsGcmDecoder zeros zeros psk_wire no_signers psk_wire-IsWire
      psk_wire-IsEncryptedWire des_cbc (replicate 8 0) text small_der
      (des_usable (replicate 8 0) (shifting 8) refl refl refl (shifting-IsCbc 8)) encrypts_text
      small_der-IsDer

-- A recipient that the small certificate names, behind another one.
abbrev small_recipient : RecipientInfo
small_recipient = record {
  version = 0;
  issuer_and_serial_number = cert2issuer_and_serial small_cert;
  key_encryption_algorithm = plain Oids.encryption_algorithm_rsa;
  encrypted_key = 8 ∷ [];
}

abbrev two_recipients : List RawValue
two_recipients =
    record { class = 2; tag = 4; is_compound = true; bytes = []; full_bytes = 7 ∷ [] }
    ∷ record { class = 0; tag = 16; is_compound = true; bytes = []; full_bytes = 9 ∷ [] }
    ∷ []

select_recipient_for_certificate_iff_example :
    (select_recipient_for_certificate
        (λ bytes. some (small_recipient, []))
        two_recipients
        (some small_cert)
      ≡ ok small_recipient)
    ↔ IsFirst (λ bytes. some (small_recipient, [])) small_cert small_recipient two_recipients
select_recipient_for_certificate_iff_example =
    select_recipient_for_certificate_iff (λ bytes. some (small_recipient, [])) two_recipients
      small_cert small_recipient
