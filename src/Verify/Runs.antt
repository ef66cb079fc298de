-- ===== src/Verify/Runs.antt =====
-- Runs of the functions of verify.go at concrete inputs.
use pkcs.Base.{ℕ, ◌≡◌, ◌≢◌, ◌↔◌, refl, false, some, [], ◌∷◌, length, get_elem?, ok, arith}
use pkcs.Subtle.{bytes_equal}
use pkcs.Algorithms.Oids
use pkcs.Algorithms.Keys.{Hash}
use pkcs.Algorithms.Choose.{find, get_hash_for_oid, ml_dsa_algorithm_for_oid}
use pkcs.Algorithms.Accept.{
  algorithm_identifier_parameters_present, rsa_signature_algorithm, classical_signature_algorithm,
  get_signature_algorithm,
}
use pkcs.Message.Types.{Certificate, SignerInfo}
use pkcs.Message.Certificates.{
  is_cert_match_for_issuer_and_serial, get_cert_from_certs_by_issuer_and_serial, IsNamed,
}
use pkcs.Attributes.Marshal.{traverse, marshal_attributes, unmarshal_attribute}
use pkcs.Attributes.Samples.{small_encoding}
use pkcs.Verify.Check.{
  default_usages, check_digest, check_attributes, signed_bytes, check_chain_and_signature,
  verify_signature, verify_each, verify_with_opts, verify, get_only_signer,
}
use pkcs.Verify.Laws.{IsVerified}
use pkcs.Verify.Accepted.{verify_with_opts_iff}
use pkcs.Verify.Binding.{
  verify_with_opts-digest, verify_with_opts-outside, get_only_signer-verify_with_opts, verify_clock,
}
use pkcs.Verify.Samples.{no_asn1, small_x509, small_cert, small_signer, small_message, no_roots}

accepts_small :
    (content : ℕ)
    → verify_with_opts small_x509 no_asn1 small_encoding
        (λ i. i)
        (record (small_message 15000000000) { content = content ∷ [] })
        no_roots
      ≡ ok tt
unfolding verify_with_opts verify_each verify_signature signed_bytes check_attributes check_digest
    check_chain_and_signature marshal_attributes unmarshal_attribute traverse
    get_cert_from_certs_by_issuer_and_serial is_cert_match_for_issuer_and_serial find bytes_equal
    get_hash_for_oid get_signature_algorithm ml_dsa_algorithm_for_oid classical_signature_algorithm
    rsa_signature_algorithm algorithm_identifier_parameters_present
accepts_small content = refl

verify_with_opts_iff_example :
    (verify_with_opts small_x509 no_asn1 small_encoding
        (λ i. i)
        (small_message 15000000000)
        no_roots
      ≡ ok tt)
    ↔ ((length (small_signer 15000000000 ∷ []) ≢ 0)
        × ((k : ℕ) (signer : SignerInfo)
            → get_elem? (small_signer 15000000000 ∷ []) k ≡ some signer
            → IsVerified small_x509 no_asn1 small_encoding k
                (small_message 15000000000)
                (default_usages no_roots)
                signer))
verify_with_opts_iff_example =
    verify_with_opts_iff small_x509 no_asn1 small_encoding (λ i. i) (small_message 15000000000)
      no_roots

verify_with_opts-digest_example :
    (hash : Hash) × (get_hash_for_oid Oids.digest_algorithm_sha256 ≡ ok hash)
    × (small_x509.digest hash (5 ∷ []) ≡ small_x509.digest hash (8 ∷ []))
verify_with_opts-digest_example =
    verify_with_opts-digest small_x509 no_asn1 small_encoding (λ i. i) (λ i. i)
      (small_message 15000000000) (8 ∷ []) no_roots no_roots 0 (small_signer 15000000000)
      (accepts_small 5) (accepts_small 8) refl (λ e. omega arith)

reads_time :
    unmarshal_attribute small_encoding.unmarshal_time
      (small_signer 30000000000).authenticated_attributes
      Oids.attribute_signing_time
    ≡ ok 30000000000
unfolding unmarshal_attribute bytes_equal
reads_time = refl

names_small :
    get_cert_from_certs_by_issuer_and_serial
      (small_cert ∷ [])
      (small_signer 30000000000).issuer_and_serial_number
    ≡ some small_cert
unfolding get_cert_from_certs_by_issuer_and_serial is_cert_match_for_issuer_and_serial find
    bytes_equal
names_small = refl

verify_with_opts-outside_example :
    verify_with_opts small_x509 no_asn1 small_encoding
      (λ i. i)
      (small_message 30000000000)
      (record no_roots { current_time = 15000000000 })
    ≢ ok tt
verify_with_opts-outside_example =
    verify_with_opts-outside small_x509 no_asn1 small_encoding (λ i. i) (small_message 30000000000)
      (record no_roots { current_time = 15000000000 }) 0 (small_signer 30000000000) small_cert
      30000000000 refl names_small (λ e. omega arith) reads_time
      (λ w. let late = w.1 in omega arith)

get_only_signer-verify_with_opts_example :
    (ee : Certificate) × (get_only_signer (small_message 15000000000) ≡ some ee)
    × IsNamed ee (small_signer 15000000000).issuer_and_serial_number
get_only_signer-verify_with_opts_example =
    get_only_signer-verify_with_opts small_x509 no_asn1 small_encoding (λ i. i)
      (small_message 15000000000) no_roots (small_signer 15000000000) refl (accepts_small 5)

verify_clock_example :
    verify small_x509 no_asn1 small_encoding (λ i. i) (small_message 15000000000)
    ≡ verify
        (record small_x509 { verify = λ cert opts. false })
        no_asn1
        small_encoding
        (λ i. 0)
        (small_message 15000000000)
verify_clock_example =
    verify_clock small_x509 no_asn1 small_encoding (λ cert opts. false) (λ i. i) (λ i. 0)
      (small_message 15000000000)
