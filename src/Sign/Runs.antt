-- ===== src/Sign/Runs.antt =====
-- Runs of the methods of sign.go at concrete inputs.
use pkcs.Base.{◌≡◌, refl, subst, true, false, some, [], ◌∷◌, length, Bytes, Outcome, ok, arith}
use pkcs.Subtle.{bytes_equal, bytes_equal_refl}
use pkcs.Algorithms.Oids
use pkcs.Algorithms.Keys.{Hash, PublicKey, KeyOrSigner}
use pkcs.Algorithms.Choose.{
  find, get_hash_for_oid, get_cms_signer_algorithm, get_oid_for_encryption_algorithm,
  ml_dsa_algorithm_for_public_key,
}
use pkcs.Attributes.Order.{less}
use pkcs.Attributes.Marshal.{traverse, sortable, for_marshalling, marshal_attributes}
use pkcs.Attributes.Insertion.{insertion_sort, insertion_sort-IsSort}
use pkcs.Attributes.Samples.{small_encoding, small_encoding-IsEncoding}
use pkcs.Verify.Check.{verify}
use pkcs.Verify.Samples.{no_asn1, small_x509, small_cert}
use pkcs.Sign.Monad.{SignedData, SignError, after}
use pkcs.Sign.Signer.{
  SignerInfoConfig, SigningKey, SignCrypto, has_explicit_time, add_extra, signed_attributes,
  issuer_and_serial_of, sign_with, make_signer,
}
use pkcs.Sign.State.{
  initial, new_signed_data, set_digest_algorithm, detach, add_signer_chain, sign_without_attr,
}
use pkcs.Sign.Adds.{Adds, add_signer_chain-Adds, sign_without_attr-Adds}
use pkcs.Sign.Steps.{
  digest_set, chain_signed, detached, finished, here, next, IsConsistent, Reach-IsConsistent,
}
use pkcs.Message.Types.{octets_value}
use pkcs.Parse.Write.{finish}
use pkcs.Parse.Samples.{small_wire}
use pkcs.Sign.Trip.{IsPair}
use pkcs.Sign.Accepted.{message_of, verify-add_signer_chain}

abbrev small_crypto : SignCrypto
small_crypto = record { digest = small_x509.digest; check_signature_from = λ cert parent. true }

-- A signature is the digest, behind a mark.
abbrev small_key : SigningKey
small_key = record {
  kind = KeyOrSigner.signer PublicKey.rsa_key;
  sign = λ opts bytes. some (1 ∷ bytes);
}

abbrev plain_config : SignerInfoConfig
plain_config = record {
  extra_signed_attributes = [];
  extra_unsigned_attributes = [];
  skip_certificates = false;
  skip_signing_time = false;
}

abbrev unsigned : SignedData
unsigned = set_digest_algorithm Oids.digest_algorithm_sha256 (initial (5 ∷ []) (4 ∷ 5 ∷ []))

-- What `AddSigner` returns at time 15000000007.
abbrev outcome : SignedData × Outcome SignError (Unit {0})
outcome =
    add_signer_chain small_crypto small_encoding insertion_sort 15000000007 small_cert small_key []
      plain_config unsigned

small_key-IsPair : IsPair small_crypto small_x509 small_key small_cert
small_key-IsPair = record {
  public = PublicKey.rsa_key;
  kind_is = refl;
  one_digest = λ hash bytes. refl;
  short = λ hash bytes. omega arith;
  checks = λ hash algorithm bytes signature a s.
      let same : 1 ∷ length bytes ∷ [] ≡ signature = cc in
      subst (λ z. bytes_equal (1 ∷ length bytes ∷ []) z ≡ true) same
        (bytes_equal_refl (1 ∷ length bytes ∷ []));
}

signs_small : outcome ≡ (outcome.0, ok tt)
unfolding add_signer_chain after issuer_and_serial_of make_signer sign_with signed_attributes
    has_explicit_time add_extra for_marshalling marshal_attributes traverse sortable less
    set_digest_algorithm get_cms_signer_algorithm get_oid_for_encryption_algorithm
    ml_dsa_algorithm_for_public_key get_hash_for_oid find bytes_equal
signs_small = refl

no_signers_yet : unsigned.sd.signer_infos ≡ []
unfolding set_digest_algorithm
no_signers_yet = refl

no_certs_yet : unsigned.certs ≡ []
unfolding set_digest_algorithm
no_certs_yet = refl

sha256_set : unsigned.digest_oid ≡ Oids.digest_algorithm_sha256
unfolding set_digest_algorithm
sha256_set = refl

verify-add_signer_chain_example :
    verify small_x509 no_asn1 small_encoding (λ i. 99) (message_of outcome.0) ≡ ok tt
verify-add_signer_chain_example =
    verify-add_signer_chain small_crypto small_x509 no_asn1 small_encoding insertion_sort
      small_encoding-IsEncoding insertion_sort-IsSort small_cert small_key small_key-IsPair
      Hash.sha256 15000000007 [] plain_config unsigned outcome.0 no_signers_yet no_certs_yet
      sha256_set refl (omega arith, omega arith) tt tt signs_small (λ i. 99)

add_signer_chain-Adds_example : Adds unsigned (small_cert ∷ []) outcome
add_signer_chain-Adds_example =
    add_signer_chain-Adds small_crypto small_encoding insertion_sort 15000000007 small_cert
      small_key [] plain_config unsigned

sign_without_attr-Adds_example :
    Adds unsigned
      (small_cert ∷ [])
      (sign_without_attr small_crypto small_encoding insertion_sort small_cert small_key unsigned)
sign_without_attr-Adds_example =
    sign_without_attr-Adds small_crypto small_encoding insertion_sort small_cert small_key unsigned

new_small : new_signed_data small_encoding (5 ∷ []) ≡ ok (initial (5 ∷ []) (4 ∷ 5 ∷ []))
unfolding new_signed_data
new_small = refl

Reach-IsConsistent_example :
    (encoded : Bytes) × (small_encoding.marshal_value (octets_value (5 ∷ [])) ≡ some encoded)
    × IsConsistent (5 ∷ []) encoded true (finish small_wire (detach outcome.0)).0
Reach-IsConsistent_example =
    Reach-IsConsistent small_crypto small_encoding small_wire insertion_sort new_small (
      next
        (next
          (next (next here (digest_set Oids.digest_algorithm_sha256))
            (chain_signed 15000000007 small_cert small_key [] plain_config))
          detached)
        finished)
