-- ===== src/Sign/Chosen.antt =====
-- sign.go `getCMSSignerAlgorithm`, as what `AddSignerChain` signs with.
use pkcs.Base.{
  ◌≡◌, refl, sym, ◌∙◌, subst, Option, none, some, Bytes, Outcome, ok, value_or-eq-ok, ok_injective,
}
use pkcs.Subtle.{bytes_equal}
use pkcs.Algorithms.Keys.{Hash, SignatureAlgorithm, Parameters, PublicKey, KeyOrSigner}
use pkcs.Algorithms.Choose.{
  AlgorithmError, CmsSignerAlgorithm, CmsSigningMode, mode_pre_hashed, mode_ed25519, mode_ml_dsa,
  find, get_hash_for_oid, get_cms_signer_algorithm, get_oid_for_encryption_algorithm,
  ml_dsa_algorithm_for_public_key, ml_dsa_algorithm_for_oid,
}
use pkcs.Algorithms.Accept.{
  Asn1, algorithm_identifier_parameters_present, rsa_signature_algorithm,
  classical_signature_algorithm, get_signature_algorithm,
}
use pkcs.Algorithms.Pss.{digest_oid}
use pkcs.Algorithms.Laws.{signature_of, get_hash_for_oid-digest_oid}
use pkcs.Sign.Signer.{SignerOpts, SigningKey, SignCrypto, identifier, sign_with}

abbrev mode_of : PublicKey → CmsSigningMode
mode_of PublicKey.ed25519_key = mode_ed25519
mode_of (PublicKey.ml_dsa_key parameters) = mode_ml_dsa
mode_of _ = mode_pre_hashed

-- A key signs the bytes themselves, or their digest.
abbrev pub signature_by : SignCrypto → SigningKey → PublicKey → Hash → Bytes → Option Bytes
signature_by crypto key PublicKey.ed25519_key hash bytes = key.sign SignerOpts.no_hash bytes
signature_by crypto key (PublicKey.ml_dsa_key parameters) hash bytes =
    key.sign SignerOpts.ml_dsa_options bytes
signature_by crypto key _ hash bytes = key.sign (SignerOpts.hashed hash) (crypto.digest hash bytes)

module _ (asn1 : Asn1) where
  pub record IsChosen (public : PublicKey) (hash : Hash) (a : CmsSignerAlgorithm) : Type 0 where
    pub algorithm : SignatureAlgorithm
    pub algorithm_of : signature_of public hash ≡ some algorithm
    pub algorithm_is :
        get_signature_algorithm asn1 (identifier a.signature_oid) (identifier a.digest_oid)
        ≡ ok algorithm
    pub mode_is : a.mode ≡ mode_of public
    pub hash_is :
        (h : Hash)
        → mode_of public ≡ mode_pre_hashed
        → get_hash_for_oid a.digest_oid ≡ ok h
        → hash ≡ h

  given :
      {public : PublicKey} {hash : Hash} {a b : CmsSignerAlgorithm}
      → IsChosen public hash a
      → ◌≡◌ {A = Outcome AlgorithmError CmsSignerAlgorithm} (ok a) (ok b)
      → IsChosen public hash b
  given {public = public} {hash = hash} c e = subst (IsChosen public hash) (ok_injective e) c

  pub get_cms_signer_algorithm-IsChosen :
      (public : PublicKey) (hash : Hash) (a : CmsSignerAlgorithm)
      → get_cms_signer_algorithm (KeyOrSigner.signer public) (digest_oid hash) none ≡ ok a
      → IsChosen public hash a
  unfolding get_signature_algorithm classical_signature_algorithm rsa_signature_algorithm
      get_cms_signer_algorithm get_oid_for_encryption_algorithm ml_dsa_algorithm_for_public_key
      ml_dsa_algorithm_for_oid find bytes_equal algorithm_identifier_parameters_present
  get_cms_signer_algorithm-IsChosen PublicKey.rsa_key Hash.sha1 a e =
      given
        (record {
          algorithm = SignatureAlgorithm.sha1_with_rsa;
          algorithm_of = refl;
          algorithm_is = refl;
          mode_is = refl;
          hash_is = λ h m g. ok_injective (sym (get_hash_for_oid-digest_oid Hash.sha1) ∙ g);
        })
        e
  get_cms_signer_algorithm-IsChosen PublicKey.rsa_key Hash.sha256 a e =
      given
        (record {
          algorithm = SignatureAlgorithm.sha256_with_rsa;
          algorithm_of = refl;
          algorithm_is = refl;
          mode_is = refl;
          hash_is = λ h m g. ok_injective (sym (get_hash_for_oid-digest_oid Hash.sha256) ∙ g);
        })
        e
  get_cms_signer_algorithm-IsChosen PublicKey.rsa_key Hash.sha384 a e =
      given
        (record {
          algorithm = SignatureAlgorithm.sha384_with_rsa;
          algorithm_of = refl;
          algorithm_is = refl;
          mode_is = refl;
          hash_is = λ h m g. ok_injective (sym (get_hash_for_oid-digest_oid Hash.sha384) ∙ g);
        })
        e
  get_cms_signer_algorithm-IsChosen PublicKey.rsa_key Hash.sha512 a e =
      given
        (record {
          algorithm = SignatureAlgorithm.sha512_with_rsa;
          algorithm_of = refl;
          algorithm_is = refl;
          mode_is = refl;
          hash_is = λ h m g. ok_injective (sym (get_hash_for_oid-digest_oid Hash.sha512) ∙ g);
        })
        e
  get_cms_signer_algorithm-IsChosen PublicKey.ecdsa_key Hash.sha1 a e =
      given
        (record {
          algorithm = SignatureAlgorithm.ecdsa_with_sha1;
          algorithm_of = refl;
          algorithm_is = refl;
          mode_is = refl;
          hash_is = λ h m g. ok_injective (sym (get_hash_for_oid-digest_oid Hash.sha1) ∙ g);
        })
        e
  get_cms_signer_algorithm-IsChosen PublicKey.ecdsa_key Hash.sha256 a e =
      given
        (record {
          algorithm = SignatureAlgorithm.ecdsa_with_sha256;
          algorithm_of = refl;
          algorithm_is = refl;
          mode_is = refl;
          hash_is = λ h m g. ok_injective (sym (get_hash_for_oid-digest_oid Hash.sha256) ∙ g);
        })
        e
  get_cms_signer_algorithm-IsChosen PublicKey.ecdsa_key Hash.sha384 a e =
      given
        (record {
          algorithm = SignatureAlgorithm.ecdsa_with_sha384;
          algorithm_of = refl;
          algorithm_is = refl;
          mode_is = refl;
          hash_is = λ h m g. ok_injective (sym (get_hash_for_oid-digest_oid Hash.sha384) ∙ g);
        })
        e
  get_cms_signer_algorithm-IsChosen PublicKey.ecdsa_key Hash.sha512 a e =
      given
        (record {
          algorithm = SignatureAlgorithm.ecdsa_with_sha512;
          algorithm_of = refl;
          algorithm_is = refl;
          mode_is = refl;
          hash_is = λ h m g. ok_injective (sym (get_hash_for_oid-digest_oid Hash.sha512) ∙ g);
        })
        e
  get_cms_signer_algorithm-IsChosen PublicKey.ed25519_key hash a e =
      given
        (record {
          algorithm = SignatureAlgorithm.pure_ed25519;
          algorithm_of = refl;
          algorithm_is = refl;
          mode_is = refl;
          hash_is = λ h m g. cc;
        })
        e
  get_cms_signer_algorithm-IsChosen (PublicKey.ml_dsa_key Parameters.parameters44) hash a e =
      given
        (record {
          algorithm = SignatureAlgorithm.ml_dsa44;
          algorithm_of = refl;
          algorithm_is = refl;
          mode_is = refl;
          hash_is = λ h m g. cc;
        })
        e
  get_cms_signer_algorithm-IsChosen (PublicKey.ml_dsa_key Parameters.parameters65) hash a e =
      given
        (record {
          algorithm = SignatureAlgorithm.ml_dsa65;
          algorithm_of = refl;
          algorithm_is = refl;
          mode_is = refl;
          hash_is = λ h m g. cc;
        })
        e
  get_cms_signer_algorithm-IsChosen (PublicKey.ml_dsa_key Parameters.parameters87) hash a e =
      given
        (record {
          algorithm = SignatureAlgorithm.ml_dsa87;
          algorithm_of = refl;
          algorithm_is = refl;
          mode_is = refl;
          hash_is = λ h m g. cc;
        })
        e
  get_cms_signer_algorithm-IsChosen (PublicKey.ml_dsa_key Parameters.no_parameters) hash a e = cc
  get_cms_signer_algorithm-IsChosen PublicKey.other_key hash a e = cc

-- The signature is one that the key makes.
pub sign_with-signature_by :
    (crypto : SignCrypto) (key : SigningKey) (public : PublicKey) (hash : Hash)
    (mode : CmsSigningMode) (h : Hash) (bytes signature : Bytes)
    → mode ≡ mode_of public
    → (mode_of public ≡ mode_pre_hashed → hash ≡ h)
    → sign_with crypto mode key bytes h ≡ ok signature
    → signature_by crypto key public hash bytes ≡ some signature
unfolding sign_with
sign_with-signature_by crypto key PublicKey.rsa_key hash mode h bytes signature m same e =
    rw (same refl) (value_or-eq-ok _ _ (rw m at e))
sign_with-signature_by crypto key PublicKey.ecdsa_key hash mode h bytes signature m same e =
    rw (same refl) (value_or-eq-ok _ _ (rw m at e))
sign_with-signature_by crypto key PublicKey.other_key hash mode h bytes signature m same e =
    rw (same refl) (value_or-eq-ok _ _ (rw m at e))
sign_with-signature_by crypto key PublicKey.ed25519_key hash mode h bytes signature m same e =
    value_or-eq-ok _ _ (rw m at e)
sign_with-signature_by crypto key (PublicKey.ml_dsa_key parameters) hash mode h bytes signature m
      same e =
    value_or-eq-ok _ _ (rw m at e)
