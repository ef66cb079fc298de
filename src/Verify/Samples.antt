-- ===== src/Verify/Samples.antt =====
-- A small message, its certificate, and checks that compare lengths, for runs.
use pkcs.Base.{ℕ, true, none, [], ◌∷◌, Bytes, length}
use pkcs.Subtle.{bytes_equal}
use pkcs.Algorithms.Oids
use pkcs.Algorithms.Oids.{Oid}
use pkcs.Algorithms.Accept.{Asn1, pos}
use pkcs.Algorithms.Laws.{plain}
use pkcs.Message.Types.{Certificate, EncodedAttribute, SignerInfo}
use pkcs.Message.Certificates.{cert2issuer_and_serial}
use pkcs.Message.Pkcs7.{Pkcs7, raw_nil}
use pkcs.Verify.Check.{VerifyOptions, X509}

abbrev pub no_asn1 : Asn1
no_asn1 = record { unmarshal_pss = λ bs. none; unmarshal_identifier = λ bs. none }

-- The digest is the length, and a signature is the length of what is signed, behind a mark.
abbrev pub small_x509 : X509
small_x509 = record {
  digest = λ hash bytes. length bytes ∷ [];
  check_signature =
      λ cert algorithm signed signature. bytes_equal (1 ∷ length signed ∷ []) signature;
  verify = λ cert opts. true;
}

-- Valid from second 10 to second 20.
abbrev pub small_cert : Certificate
small_cert = record {
  raw = 1 ∷ [];
  raw_issuer = 2 ∷ [];
  raw_subject = 3 ∷ [];
  serial_number = pos 7;
  not_before = 10000000000;
  not_after = 20000000000;
  subject_key_id = [];
}

abbrev octet_attribute : Oid → Bytes → EncodedAttribute
octet_attribute oid bytes = record {
  type = oid;
  value = record { class = 0; tag = 17; is_compound = true; bytes = bytes; full_bytes = [] };
}

-- A signer of a content of one byte, at a time.
abbrev pub small_signer : ℕ → SignerInfo
small_signer time = record {
  version = 1;
  issuer_and_serial_number = cert2issuer_and_serial small_cert;
  digest_algorithm = plain Oids.digest_algorithm_sha256;
  authenticated_attributes =
      octet_attribute Oids.attribute_message_digest (4 ∷ 1 ∷ [])
      ∷ octet_attribute Oids.attribute_signing_time (23 ∷ time ∷ [])
      ∷ [];
  digest_encryption_algorithm = plain Oids.encryption_algorithm_rsa_sha256;
  encrypted_digest = 1 ∷ 18 ∷ [];
  unauthenticated_attributes = [];
}

abbrev pub small_message : ℕ → Pkcs7
small_message time = record {
  content = 5 ∷ [];
  certificates = small_cert ∷ [];
  crls = [];
  signers = small_signer time ∷ [];
  raw = raw_nil;
}

abbrev pub no_roots : VerifyOptions
no_roots = record { roots = none; intermediates = []; key_usages = none; current_time = 0 }
