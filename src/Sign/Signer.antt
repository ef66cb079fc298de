-- ===== src/Sign/Signer.antt =====
-- sign.go: `verifyPartialChain`, `cmsSignerAlgorithm.sign` and the attributes that `AddSignerChain` signs.
use pkcs.Base.{
  ℕ, Bool, false, ◌||◌, ◌&&◌, not, if◌then◌else◌, Option, List, [], ◌∷◌, Bytes, Outcome, ok, err,
  ◌>>=◌, ◌>>◌, fail_if, value_or, with_error,
}
use pkcs.Algorithms.Oids
use pkcs.Algorithms.Oids.{Oid, equal}
use pkcs.Algorithms.Keys.{Hash, KeyOrSigner, AlgorithmIdentifier}
use pkcs.Algorithms.Choose.{
  CmsSignerAlgorithm, CmsSigningMode, mode_pre_hashed, mode_dsa, mode_ed25519, mode_ml_dsa,
}
use pkcs.Message.Types.{
  Certificate, Attribute, oid_value, octets_value, time_value, IssuerAndSerial, EncodedAttribute,
  SignerInfo,
}
use pkcs.Message.Certificates.{raw_full}
use pkcs.Attributes.Encoding.{Encoding}
use pkcs.Attributes.Marshal.{SortableAttribute, add, for_marshalling, marshal_attributes}
use pkcs.Sign.Monad.{SignError, bad_attributes, no_parents, bad_parent, not_signed}

-- `SignerInfoConfig`
pub record SignerInfoConfig : Type 0 where
  pub extra_signed_attributes : List Attribute
  pub extra_unsigned_attributes : List Attribute
  pub skip_certificates : Bool
  pub skip_signing_time : Bool

-- The `crypto.SignerOpts` of a signature.
pub data SignerOpts : Type 0 where
  hashed : Hash → SignerOpts
  no_hash ml_dsa_options dsa_encoded : SignerOpts

-- `keyOrSigner`: its dynamic type and its `Sign`, at one state of the random source; for
-- `dsa.PrivateKey`, `dsa.Sign` with the encoding of what it returns.
pub record SigningKey : Type 0 where
  pub kind : KeyOrSigner
  pub sign : SignerOpts → Bytes → Option Bytes

-- Go's hashes and crypto/x509, as signing uses them.
pub record SignCrypto : Type 0 where
  pub digest : Hash → Bytes → Bytes
  pub check_signature_from : Certificate → Certificate → Bool

-- `len(parents) == 1`: there is no more parent to check.
abbrev pub if_more : List Certificate → Outcome SignError (Unit {0}) → Outcome SignError (Unit {0})
if_more [] rest = ok tt
if_more (parent ∷ parents) rest = rest

-- An identifier without parameters.
abbrev pub identifier : Oid → AlgorithmIdentifier
identifier oid = record {
  algorithm = oid;
  parameters = record { class = 0; tag = 0; is_compound = false; bytes = []; full_bytes = [] };
}

-- `signerInfo{…}`, of version 1.
abbrev pub signer_info :
    IssuerAndSerial
    → CmsSignerAlgorithm
    → List EncodedAttribute
    → List EncodedAttribute
    → Bytes
    → SignerInfo
signer_info ias algorithm signed unsigned signature = record {
  version = 1;
  issuer_and_serial_number = ias;
  digest_algorithm = identifier algorithm.digest_oid;
  authenticated_attributes = signed;
  digest_encryption_algorithm = identifier algorithm.signature_oid;
  encrypted_digest = signature;
  unauthenticated_attributes = unsigned;
}

-- `attr.Type.Equal(OIDAttributeSigningTime)`
abbrev pub is_time : Attribute → Bool
is_time attr = equal attr.type Oids.attribute_signing_time

-- `slices.ContainsFunc`
unfoldable pub has_explicit_time : List Attribute → Bool
has_explicit_time [] = false
has_explicit_time (attr ∷ attrs) = is_time attr || has_explicit_time attrs

-- The loop over the extra attributes: of the signing times only the first is added, and none if they
-- are skipped. `added` is `addedExplicitSigningTime`.
unfoldable pub add_extra : Bool → Bool → List Attribute → List Attribute → List Attribute
add_extra skip added attrs [] = attrs
add_extra skip added attrs (attr ∷ extra) =
    add_extra skip (added || (is_time attr && not skip))
      (if is_time attr && (skip || added) then attrs else add attrs attr) extra

-- The attributes that are signed, in the order in which they are added.
unfoldable pub signed_attributes : Oid → Bytes → ℕ → SignerInfoConfig → List Attribute
signed_attributes content_type digest now config =
    let required : List Attribute =
      record { type = Oids.attribute_content_type; value = oid_value content_type }
      ∷ record { type = Oids.attribute_message_digest; value = octets_value digest }
      ∷ [] in
    let start =
      if not config.skip_signing_time && not (has_explicit_time config.extra_signed_attributes)
      then add required (record { type = Oids.attribute_signing_time; value = time_value now })
      else required in
    add_extra config.skip_signing_time false start config.extra_signed_attributes

module _ (crypto : SignCrypto) where
  unfoldable pub verify_partial_chain :
      Certificate → List Certificate → Outcome SignError (Unit {0})
  verify_partial_chain cert [] = err no_parents
  verify_partial_chain cert (parent ∷ parents) =
      fail_if (not (crypto.check_signature_from cert parent)) bad_parent
      >> if_more parents (verify_partial_chain parent parents)

  -- The issuer of a signer: of its own certificate, or the subject of its first parent.
  unfoldable pub issuer_and_serial_of :
      Certificate → List Certificate → Outcome SignError IssuerAndSerial
  issuer_and_serial_of ee [] =
      ok (record { issuer_name = raw_full ee.raw_issuer; serial_number = ee.serial_number })
  issuer_and_serial_of ee (parent ∷ parents) = do
    verify_partial_chain ee (parent ∷ parents)
    ok (record { issuer_name = raw_full parent.raw_subject; serial_number = ee.serial_number })

  -- `algorithm.sign`
  unfoldable pub sign_with : CmsSigningMode → SigningKey → Bytes → Hash → Outcome SignError Bytes
  sign_with mode_dsa key content hash =
      value_or (key.sign SignerOpts.dsa_encoded (crypto.digest hash content)) not_signed
  sign_with mode_ed25519 key content hash =
      value_or (key.sign SignerOpts.no_hash content) not_signed
  sign_with mode_ml_dsa key content hash =
      value_or (key.sign SignerOpts.ml_dsa_options content) not_signed
  sign_with mode_pre_hashed key content hash =
      value_or (key.sign (SignerOpts.hashed hash) (crypto.digest hash content)) not_signed

  module _ (enc : Encoding) (sort : List SortableAttribute → List SortableAttribute) where
    -- The signer that `AddSignerChain` makes, from the attributes on.
    unfoldable pub make_signer :
        ℕ
        → CmsSignerAlgorithm
        → Hash
        → IssuerAndSerial
        → SigningKey
        → SignerInfoConfig
        → Oid
        → Bytes
        → Outcome SignError SignerInfo
    make_signer now algorithm hash ias key config content_type digest = do
      signed ←
          with_error bad_attributes
            (for_marshalling enc sort (signed_attributes content_type digest now config))
      unsigned ←
          with_error bad_attributes (for_marshalling enc sort config.extra_unsigned_attributes)
      encoded ← with_error bad_attributes (marshal_attributes enc signed)
      signature ← sign_with algorithm.mode key encoded hash
      ok (signer_info ias algorithm signed unsigned signature)

    -- `si.SetUnauthenticatedAttributes`
    unfoldable pub set_unauthenticated_attributes :
        List Attribute → SignerInfo → Outcome SignError SignerInfo
    set_unauthenticated_attributes extra info = do
      attrs ← with_error bad_attributes (for_marshalling enc sort extra)
      ok (record info { unauthenticated_attributes = attrs })
