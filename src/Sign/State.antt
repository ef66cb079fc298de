-- ===== src/Sign/State.antt =====
-- sign.go: the methods of `SignedData`.
use pkcs.Base.{
  ℕ, true, if◌then◌else◌, Option, none, some, List, [], ◌∷◌, ◌++◌, map, Bytes, Outcome, ok, err,
  with_error,
}
use pkcs.Algorithms.Oids
use pkcs.Algorithms.Oids.{Oid}
use pkcs.Algorithms.Keys.{Hash, RawValue}
use pkcs.Algorithms.Choose.{get_hash_for_oid, get_cms_signer_algorithm}
use pkcs.Message.Types.{Certificate, SignerInfo, SignedContent, octets_value}
use pkcs.Message.Certificates.{raw_full, cert2issuer_and_serial}
use pkcs.Attributes.Encoding.{Encoding}
use pkcs.Attributes.Marshal.{SortableAttribute}
use pkcs.Sign.Monad.{
  SignedData, SignError, bad_algorithm, not_marshalled, Action, call, modify, ◌>>=◌, ◌>>◌,
}
use pkcs.Sign.Signer.{
  SignerInfoConfig, SigningKey, SignCrypto, identifier, signer_info, issuer_and_serial_of,
  sign_with, make_signer,
}

-- What `asn1.RawValue{Class: 2, Tag: 0, Bytes: content, IsCompound: true}` stands for.
abbrev pub explicit_content : Bytes → RawValue
explicit_content content = record {
  class = 2;
  tag = 0;
  is_compound = true;
  bytes = content;
  full_bytes = [];
}

-- The `SignedData` of `NewSignedData`, for data that is encoded as `encoded`.
abbrev pub initial : Bytes → Bytes → SignedData
initial content encoded = record {
  sd = record {
    version = 1;
    digest_algorithm_identifiers = [];
    content_info = record { content_type = Oids.oid_data; content = explicit_content encoded };
    certificates = [];
    crls = [];
    signer_infos = [];
  };
  certs = [];
  content = content;
  message_digest = [];
  digest_oid = Oids.digest_algorithm_sha1;
  encryption_oid = none;
}

-- What follows `asn1.Marshal(data)`.
abbrev pub started : Bytes → Option Bytes → Outcome SignError SignedData
started content none = err not_marshalled
started content (some encoded) = ok (initial content encoded)

-- `NewSignedData`
unfoldable pub new_signed_data : Encoding → Bytes → Outcome SignError SignedData
new_signed_data enc content = started content (enc.marshal_value (octets_value content))

unfoldable pub set_digest_algorithm : Oid → SignedData → SignedData
set_digest_algorithm oid s = record s { digest_oid = oid }

unfoldable pub set_encryption_algorithm : Oid → SignedData → SignedData
set_encryption_algorithm oid s = record s { encryption_oid = some oid }

unfoldable pub add_certificate : Certificate → SignedData → SignedData
add_certificate cert s = record s { certs = s.certs ++ cert ∷ [] }

-- A change of `sd.sd`.
abbrev pub with_sd : (SignedContent → SignedContent) → SignedData → SignedData
with_sd f s = record s { sd = f s.sd }

unfoldable pub set_content_type : Oid → SignedData → SignedData
set_content_type oid =
    with_sd (λ sd. record sd { content_info = record sd.content_info { content_type = oid } })

unfoldable pub detach : SignedData → SignedData
detach = with_sd (λ sd. record sd {
  content_info = record { content_type = Oids.oid_data; content = raw_full [] };
})

unfoldable pub remove_authenticated_attributes : SignedData → SignedData
remove_authenticated_attributes = with_sd (λ sd. record sd {
  signer_infos =
      map (λ (si : SignerInfo). record si { authenticated_attributes = [] }) sd.signer_infos;
})

unfoldable pub remove_unauthenticated_attributes : SignedData → SignedData
remove_unauthenticated_attributes = with_sd (λ sd. record sd {
  signer_infos =
      map (λ (si : SignerInfo). record si { unauthenticated_attributes = [] }) sd.signer_infos;
})

-- `append(sd.sd.DigestAlgorithmIdentifiers, …)`
abbrev pub add_digest : Oid → SignedData → SignedData
add_digest oid = with_sd (λ sd. record sd {
  digest_algorithm_identifiers = sd.digest_algorithm_identifiers ++ identifier oid ∷ [];
})

-- `append(sd.sd.SignerInfos, signerInfo)`
abbrev pub add_info : SignerInfo → SignedData → SignedData
add_info info = with_sd (λ sd. record sd { signer_infos = sd.signer_infos ++ info ∷ [] })

abbrev pub add_certs : List Certificate → SignedData → SignedData
add_certs certs s = record s { certs = s.certs ++ certs }

module _ (crypto : SignCrypto) (enc : Encoding)
    (sort : List SortableAttribute → List SortableAttribute) where
  -- `sd.messageDigest = h.Sum(nil)`
  abbrev pub digest_content : Hash → SignedData → SignedData
  digest_content hash s = record s { message_digest = crypto.digest hash s.content }

  -- `now` is what the clock shows.
  unfoldable pub add_signer_chain :
      ℕ → Certificate → SigningKey → List Certificate → SignerInfoConfig → Action (Unit {0})
  add_signer_chain now ee key parents config s =
      (do
        algorithm ←
            call (with_error bad_algorithm (get_cms_signer_algorithm key.kind s.digest_oid none))
        ias ← call (issuer_and_serial_of crypto ee parents)
        modify (add_digest algorithm.digest_oid)
        hash ← call (with_error bad_algorithm (get_hash_for_oid algorithm.digest_oid))
        modify (digest_content hash)
        info ← call (
            make_signer crypto enc sort now algorithm hash ias key config
              s.sd.content_info.content_type (crypto.digest hash s.content))
        modify (λ t. if config.skip_certificates then t else add_certs (ee ∷ parents) t)
        modify (add_info info))
        s

  unfoldable pub add_signer : ℕ → Certificate → SigningKey → SignerInfoConfig → Action (Unit {0})
  add_signer now ee key config = add_signer_chain now ee key [] config

  unfoldable pub sign_without_attr : Certificate → SigningKey → Action (Unit {0})
  sign_without_attr ee key s =
      (do
        algorithm ← call (
            with_error bad_algorithm
              (get_cms_signer_algorithm key.kind s.digest_oid s.encryption_oid))
        modify (add_digest algorithm.digest_oid)
        hash ← call (with_error bad_algorithm (get_hash_for_oid algorithm.digest_oid))
        modify (digest_content hash)
        signature ← call (sign_with crypto algorithm.mode key s.content hash)
        modify (add_certs (ee ∷ []))
        modify (add_info (signer_info (cert2issuer_and_serial ee) algorithm [] [] signature)))
        s
