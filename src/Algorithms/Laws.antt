-- ===== src/Algorithms/Laws.antt =====
-- pkcs7.go, sign.go and verify.go: what signing chooses is what verification accepts, and both name
-- the hash that the digest identifier names.
use pkcs.Base.{
  ℕ, ◌≡◌, ◌≢◌, refl, sym, ap, ◌∙◌, Bool, true, false, not, ◌||◌, if◌then◌else◌, Option, none, some,
  List, [], ◌∷◌, Outcome, ok, err, panic, stuck, ◌>>=◌, ◌>>◌, fail_if, All, Ensures, holds,
  rejected, Ensures-ok, Ensures-map, Ensures-fail_if, Ensures-if,
}
use pkcs.Subtle.{bytes_equal, bytes_equal→eq}
use pkcs.Algorithms.Oids
use pkcs.Algorithms.Oids.{Oid, equal}
use pkcs.Algorithms.Keys.{
  Hash, SignatureAlgorithm, Parameters, PublicKey, KeyOrSigner, AlgorithmIdentifier,
}
use pkcs.Algorithms.Choose.{
  AlgorithmError, MlDsaAlgorithm, CmsSignerAlgorithm, find, ml_dsa_algorithms, get_hash_for_oid,
  get_digest_oid_for_signature_algorithm, get_cms_signer_algorithm,
  get_oid_for_encryption_algorithm, ml_dsa_algorithm_for_public_key, ml_dsa_algorithm_for_oid,
}
use pkcs.Algorithms.Accept.{
  VerifyError, Asn1, algorithm_identifier_parameters_present,
  algorithm_identifier_parameters_absent_or_null, get_ecdsa_signature_algorithm,
  rsa_signature_algorithm, classical_signature_algorithm, get_signature_algorithm,
}
use pkcs.Algorithms.Pss.{digest_oid, PssHash, get_rsa_pss_signature_algorithm-Ensures}

-- An identifier without parameters, as `AddSignerChain` writes it and as it is decoded.
abbrev pub plain : Oid → AlgorithmIdentifier
plain oid = record {
  algorithm = oid;
  parameters = record { class = 0; tag = 0; is_compound = false; bytes = []; full_bytes = [] };
}

-- The signature that a key makes of a digest.
abbrev pub signature_of : PublicKey → Hash → Option SignatureAlgorithm
signature_of PublicKey.rsa_key Hash.sha1 = some SignatureAlgorithm.sha1_with_rsa
signature_of PublicKey.rsa_key Hash.sha256 = some SignatureAlgorithm.sha256_with_rsa
signature_of PublicKey.rsa_key Hash.sha384 = some SignatureAlgorithm.sha384_with_rsa
signature_of PublicKey.rsa_key Hash.sha512 = some SignatureAlgorithm.sha512_with_rsa
signature_of PublicKey.ecdsa_key Hash.sha1 = some SignatureAlgorithm.ecdsa_with_sha1
signature_of PublicKey.ecdsa_key Hash.sha256 = some SignatureAlgorithm.ecdsa_with_sha256
signature_of PublicKey.ecdsa_key Hash.sha384 = some SignatureAlgorithm.ecdsa_with_sha384
signature_of PublicKey.ecdsa_key Hash.sha512 = some SignatureAlgorithm.ecdsa_with_sha512
signature_of PublicKey.ed25519_key hash = some SignatureAlgorithm.pure_ed25519
signature_of PublicKey.other_key hash = none
signature_of (PublicKey.ml_dsa_key Parameters.parameters44) hash = some SignatureAlgorithm.ml_dsa44
signature_of (PublicKey.ml_dsa_key Parameters.parameters65) hash = some SignatureAlgorithm.ml_dsa65
signature_of (PublicKey.ml_dsa_key Parameters.parameters87) hash = some SignatureAlgorithm.ml_dsa87
signature_of (PublicKey.ml_dsa_key Parameters.no_parameters) hash = none

-- Where a key has a signature algorithm, signing succeeds with identifiers that verification takes
-- for it; where it has none, signing ends in an error.
abbrev pub Chooses :
    Asn1 → Outcome AlgorithmError CmsSignerAlgorithm → Option SignatureAlgorithm → Type 0
Chooses asn1 r (some algorithm) =
    (a : CmsSignerAlgorithm) × (r ≡ ok a)
    × (get_signature_algorithm asn1 (plain a.signature_oid) (plain a.digest_oid) ≡ ok algorithm)
Chooses asn1 r none = (e : AlgorithmError) × (r ≡ err e)

-- For each kind of public key and each hash: with the digest identifier of the hash, and no signature
-- identifier configured, signing chooses identifiers that verification takes for the signature
-- algorithm of that key and hash; for keys of other kinds signing ends in an error.
pub get_signature_algorithm-get_cms_signer_algorithm :
    (asn1 : Asn1) (public : PublicKey) (hash : Hash)
    → Chooses asn1
        (get_cms_signer_algorithm (KeyOrSigner.signer public) (digest_oid hash) none)
        (signature_of public hash)
unfolding get_signature_algorithm classical_signature_algorithm rsa_signature_algorithm
    get_cms_signer_algorithm get_oid_for_encryption_algorithm ml_dsa_algorithm_for_public_key
    ml_dsa_algorithm_for_oid find bytes_equal algorithm_identifier_parameters_present
get_signature_algorithm-get_cms_signer_algorithm asn1 PublicKey.rsa_key Hash.sha1 = (_, refl, refl)
get_signature_algorithm-get_cms_signer_algorithm asn1 PublicKey.rsa_key Hash.sha256 =
    (_, refl, refl)
get_signature_algorithm-get_cms_signer_algorithm asn1 PublicKey.rsa_key Hash.sha384 =
    (_, refl, refl)
get_signature_algorithm-get_cms_signer_algorithm asn1 PublicKey.rsa_key Hash.sha512 =
    (_, refl, refl)
get_signature_algorithm-get_cms_signer_algorithm asn1 PublicKey.ecdsa_key Hash.sha1 =
    (_, refl, refl)
get_signature_algorithm-get_cms_signer_algorithm asn1 PublicKey.ecdsa_key Hash.sha256 =
    (_, refl, refl)
get_signature_algorithm-get_cms_signer_algorithm asn1 PublicKey.ecdsa_key Hash.sha384 =
    (_, refl, refl)
get_signature_algorithm-get_cms_signer_algorithm asn1 PublicKey.ecdsa_key Hash.sha512 =
    (_, refl, refl)
get_signature_algorithm-get_cms_signer_algorithm asn1 PublicKey.ed25519_key hash = (_, refl, refl)
get_signature_algorithm-get_cms_signer_algorithm asn1 PublicKey.other_key hash = (_, refl)
get_signature_algorithm-get_cms_signer_algorithm asn1 (PublicKey.ml_dsa_key Parameters.parameters44)
      hash =
    (_, refl, refl)
get_signature_algorithm-get_cms_signer_algorithm asn1 (PublicKey.ml_dsa_key Parameters.parameters65)
      hash =
    (_, refl, refl)
get_signature_algorithm-get_cms_signer_algorithm asn1 (PublicKey.ml_dsa_key Parameters.parameters87)
      hash =
    (_, refl, refl)
get_signature_algorithm-get_cms_signer_algorithm asn1
      (PublicKey.ml_dsa_key Parameters.no_parameters) hash =
    (_, refl)

-- The hash of an RSA signature algorithm.
abbrev pub rsa_hash : SignatureAlgorithm → Option Hash
rsa_hash SignatureAlgorithm.sha1_with_rsa = some Hash.sha1
rsa_hash SignatureAlgorithm.sha256_with_rsa = some Hash.sha256
rsa_hash SignatureAlgorithm.sha384_with_rsa = some Hash.sha384
rsa_hash SignatureAlgorithm.sha512_with_rsa = some Hash.sha512
rsa_hash SignatureAlgorithm.sha256_with_rsa_pss = some Hash.sha256
rsa_hash SignatureAlgorithm.sha384_with_rsa_pss = some Hash.sha384
rsa_hash SignatureAlgorithm.sha512_with_rsa_pss = some Hash.sha512
rsa_hash _ = none

pub get_hash_for_oid-digest_oid : (hash : Hash) → get_hash_for_oid (digest_oid hash) ≡ ok hash
unfolding get_hash_for_oid bytes_equal
get_hash_for_oid-digest_oid Hash.sha1 = refl
get_hash_for_oid-digest_oid Hash.sha256 = refl
get_hash_for_oid-digest_oid Hash.sha384 = refl
get_hash_for_oid-digest_oid Hash.sha512 = refl

abbrev OptionAll : {A : Type 0} → (A → Type 0) → Option A → Type 0
OptionAll P none = Unit {0}
OptionAll P (some a) = P a

OptionAll-if :
    {A : Type 0} (P : A → Type 0) (b : Bool) (r s : Option A)
    → OptionAll P r
    → OptionAll P s
    → OptionAll P (if b then r else s)
OptionAll-if P true r s h k = h
OptionAll-if P false r s h k = k

-- If the algorithm is an RSA one, the digest names its hash.
abbrev Governed : AlgorithmIdentifier → SignatureAlgorithm → Type 0
Governed digest algorithm =
    (hash : Hash) → rsa_hash algorithm ≡ some hash → get_hash_for_oid digest.algorithm ≡ ok hash

same_hash :
    (digest : AlgorithmIdentifier) (algorithm : SignatureAlgorithm) (h : Hash)
    → digest.algorithm ≡ digest_oid h
    → rsa_hash algorithm ≡ some h
    → Governed digest algorithm
same_hash digest algorithm h e f hash g =
    let k : h ≡ hash = cc in ap get_hash_for_oid e ∙ get_hash_for_oid-digest_oid h ∙ ap ok k

rsa_hash-PssHash :
    {hash : Hash} {size : ℕ} {algorithm : SignatureAlgorithm}
    → PssHash hash size algorithm
    → rsa_hash algorithm ≡ some hash
rsa_hash-PssHash PssHash.pss_sha256 = refl
rsa_hash-PssHash PssHash.pss_sha384 = refl
rsa_hash-PssHash PssHash.pss_sha512 = refl

module _ (digest : AlgorithmIdentifier) where
  not_rsa :
      {algorithm : SignatureAlgorithm}
      → rsa_hash algorithm ≡ none
      → Ensures {E = VerifyError} (Governed digest) (ok algorithm)
  not_rsa e = holds (λ hash f. absurd (none≢some (sym e ∙ f)))
    where
      none≢some : {hash : Hash} → none ≢ some hash
      none≢some h = cc

  found :
      (algorithm : SignatureAlgorithm) (h : Hash)
      → rsa_hash algorithm ≡ some h
      → equal digest.algorithm (digest_oid h) ≡ true
      → Ensures {E = VerifyError} (Governed digest) (ok algorithm)
  found algorithm h f e =
      holds (same_hash digest algorithm h (bytes_equal→eq digest.algorithm (digest_oid h) e) f)

  rsa-Governed : Ensures (Governed digest) (rsa_signature_algorithm digest)
  unfolding rsa_signature_algorithm
  rsa-Governed =
      Ensures-if (equal digest.algorithm Oids.digest_algorithm_sha1)
        (found SignatureAlgorithm.sha1_with_rsa Hash.sha1 refl)
        λ _.
          Ensures-if (equal digest.algorithm Oids.digest_algorithm_sha256)
            (found SignatureAlgorithm.sha256_with_rsa Hash.sha256 refl)
            λ _.
              Ensures-if (equal digest.algorithm Oids.digest_algorithm_sha384)
                (found SignatureAlgorithm.sha384_with_rsa Hash.sha384 refl)
                λ _.
                  Ensures-if (equal digest.algorithm Oids.digest_algorithm_sha512)
                    (found SignatureAlgorithm.sha512_with_rsa Hash.sha512 refl) λ _. rejected

  ecdsa-Governed : Ensures (Governed digest) (get_ecdsa_signature_algorithm digest)
  unfolding get_ecdsa_signature_algorithm
  ecdsa-Governed =
      Ensures-if (equal digest.algorithm Oids.digest_algorithm_sha1) (λ _. not_rsa refl)
        λ _.
          Ensures-if (equal digest.algorithm Oids.digest_algorithm_sha256) (λ _. not_rsa refl)
            λ _.
              Ensures-if (equal digest.algorithm Oids.digest_algorithm_sha384) (λ _. not_rsa refl)
                λ _.
                  Ensures-if (equal digest.algorithm Oids.digest_algorithm_sha512)
                    (λ _. not_rsa refl) λ _. rejected

  ml_dsa-Governed :
      (oid : Oid) (candidates : List MlDsaAlgorithm)
      → All (λ (a : MlDsaAlgorithm). rsa_hash a.signature_algorithm ≡ none) candidates
      → OptionAll
          (λ (a : MlDsaAlgorithm). rsa_hash a.signature_algorithm ≡ none)
          (find (λ (a : MlDsaAlgorithm). equal oid a.oid) candidates)
  unfolding find
  ml_dsa-Governed oid [] h = tt
  ml_dsa-Governed oid (a ∷ rest) h =
      OptionAll-if _ (equal oid a.oid) (some a)
        (find (λ (a : MlDsaAlgorithm). equal oid a.oid) rest) h.0 (ml_dsa-Governed oid rest h.1)

  module _ (asn1 : Asn1) (encryption : AlgorithmIdentifier) where
    classical-Governed :
        Ensures (Governed digest) (classical_signature_algorithm asn1 encryption digest)
    unfolding classical_signature_algorithm
    classical-Governed =
        Ensures-if (equal encryption.algorithm Oids.digest_algorithm_ecdsa_sha1) (λ _. not_rsa refl)
          λ _.
            Ensures-if (equal encryption.algorithm Oids.digest_algorithm_ecdsa_sha256)
              (λ _. not_rsa refl)
              λ _.
                Ensures-if (equal encryption.algorithm Oids.digest_algorithm_ecdsa_sha384)
                  (λ _. not_rsa refl)
                  λ _.
                    Ensures-if (equal encryption.algorithm Oids.digest_algorithm_ecdsa_sha512)
                      (λ _. not_rsa refl)
                      λ _.
                        Ensures-if (equal encryption.algorithm Oids.public_key_algorithm_ec)
                          (λ _.
                            Ensures-fail_if
                              (not (
                                algorithm_identifier_parameters_absent_or_null
                                  encryption.parameters))
                              _ λ _. ecdsa-Governed)
                          λ _.
                            Ensures-if
                              (equal encryption.algorithm Oids.encryption_algorithm_rsa
                                || (equal encryption.algorithm Oids.encryption_algorithm_rsa_sha1
                                    || (equal encryption.algorithm
                                          Oids.encryption_algorithm_rsa_sha256
                                        || (equal encryption.algorithm
                                              Oids.encryption_algorithm_rsa_sha384
                                            || equal encryption.algorithm
                                                Oids.encryption_algorithm_rsa_sha512))))
                              (λ _. rsa-Governed)
                              λ _.
                                Ensures-if
                                  (equal encryption.algorithm Oids.digest_algorithm_dsa
                                    || equal encryption.algorithm Oids.digest_algorithm_dsa_sha1)
                                  (λ _. rejected)
                                  λ _.
                                    Ensures-if
                                      (equal encryption.algorithm
                                          Oids.encryption_algorithm_ecdsa_p256
                                        || (equal encryption.algorithm
                                              Oids.encryption_algorithm_ecdsa_p384
                                            || equal encryption.algorithm
                                                Oids.encryption_algorithm_ecdsa_p521))
                                      (λ _. ecdsa-Governed)
                                      λ _.
                                        Ensures-if
                                          (equal encryption.algorithm
                                            Oids.encryption_algorithm_eddsa25519)
                                          (λ _. not_rsa refl)
                                          λ _.
                                            Ensures-if
                                              (equal encryption.algorithm
                                                Oids.encryption_algorithm_rsa_pss)
                                              (λ _.
                                                Ensures-map
                                                  (λ algorithm p.
                                                    same_hash digest algorithm p.hash p.digest_is
                                                      (rsa_hash-PssHash p.profile))
                                                  (get_rsa_pss_signature_algorithm-Ensures asn1
                                                    encryption.parameters digest))
                                              λ _. rejected

    signature-Governed : Ensures (Governed digest) (get_signature_algorithm asn1 encryption digest)
    unfolding get_signature_algorithm ml_dsa_algorithm_for_oid
    signature-Governed =
        choose (find (λ (a : MlDsaAlgorithm). equal encryption.algorithm a.oid) ml_dsa_algorithms)
          (ml_dsa-Governed encryption.algorithm ml_dsa_algorithms (refl, (refl, (refl, tt))))
      where
        choose :
            (r : Option MlDsaAlgorithm)
            → OptionAll (λ (a : MlDsaAlgorithm). rsa_hash a.signature_algorithm ≡ none) r
            → Ensures (Governed digest) (elim r [
              | some a ↦
                  (fail_if
                      (algorithm_identifier_parameters_present encryption.parameters)
                      VerifyError.ml_dsa_parameters
                    >> ok a.signature_algorithm)
              | none ↦ classical_signature_algorithm asn1 encryption digest
            ])
        choose none h = classical-Governed
        choose (some a) h =
            Ensures-fail_if (algorithm_identifier_parameters_present encryption.parameters) _
              λ _. not_rsa h

    -- Where verification takes a signer for an RSA signature, PKCS #1 v1.5 or PSS, the hash of that
    -- signature algorithm is the one that the signer's digest identifier names.
    pub get_hash_for_oid-get_signature_algorithm :
        (algorithm : SignatureAlgorithm) (hash : Hash)
        → get_signature_algorithm asn1 encryption digest ≡ ok algorithm
        → rsa_hash algorithm ≡ some hash
        → get_hash_for_oid digest.algorithm ≡ ok hash
    get_hash_for_oid-get_signature_algorithm algorithm hash e f =
        Ensures-ok signature-Governed e hash f

-- The hash that a message is digested with for a signature algorithm of signing.
abbrev pub signing_hash : SignatureAlgorithm → Option Hash
signing_hash SignatureAlgorithm.sha1_with_rsa = some Hash.sha1
signing_hash SignatureAlgorithm.ecdsa_with_sha1 = some Hash.sha1
signing_hash SignatureAlgorithm.sha256_with_rsa = some Hash.sha256
signing_hash SignatureAlgorithm.ecdsa_with_sha256 = some Hash.sha256
signing_hash SignatureAlgorithm.sha384_with_rsa = some Hash.sha384
signing_hash SignatureAlgorithm.ecdsa_with_sha384 = some Hash.sha384
signing_hash SignatureAlgorithm.sha512_with_rsa = some Hash.sha512
signing_hash SignatureAlgorithm.ecdsa_with_sha512 = some Hash.sha512
signing_hash SignatureAlgorithm.pure_ed25519 = some Hash.sha512
signing_hash SignatureAlgorithm.ml_dsa44 = some Hash.sha512
signing_hash SignatureAlgorithm.ml_dsa65 = some Hash.sha512
signing_hash SignatureAlgorithm.ml_dsa87 = some Hash.sha512
signing_hash _ = none

abbrev pub result : Outcome AlgorithmError Hash → Option Hash
result (ok hash) = some hash
result (err e) = none
result panic = none
result stuck = none

-- For every x509 signature algorithm, `getHashForOID` reads the digest identifier that
-- `GetDigestOIDForSignatureAlgorithm` gives as the algorithm's own hash, SHA-512 for Ed25519 and
-- ML-DSA, and one of the two fails for the MD2, MD5, DSA, PSS and unknown algorithms.
pub get_hash_for_oid-get_digest_oid_for_signature_algorithm :
    (algorithm : SignatureAlgorithm)
    → result (get_digest_oid_for_signature_algorithm algorithm >>= get_hash_for_oid)
      ≡ signing_hash algorithm
unfolding get_digest_oid_for_signature_algorithm get_hash_for_oid bytes_equal
get_hash_for_oid-get_digest_oid_for_signature_algorithm
      SignatureAlgorithm.unknown_signature_algorithm =
    refl
get_hash_for_oid-get_digest_oid_for_signature_algorithm SignatureAlgorithm.md2_with_rsa = refl
get_hash_for_oid-get_digest_oid_for_signature_algorithm SignatureAlgorithm.md5_with_rsa = refl
get_hash_for_oid-get_digest_oid_for_signature_algorithm SignatureAlgorithm.sha1_with_rsa = refl
get_hash_for_oid-get_digest_oid_for_signature_algorithm SignatureAlgorithm.sha256_with_rsa = refl
get_hash_for_oid-get_digest_oid_for_signature_algorithm SignatureAlgorithm.sha384_with_rsa = refl
get_hash_for_oid-get_digest_oid_for_signature_algorithm SignatureAlgorithm.sha512_with_rsa = refl
get_hash_for_oid-get_digest_oid_for_signature_algorithm SignatureAlgorithm.dsa_with_sha1 = refl
get_hash_for_oid-get_digest_oid_for_signature_algorithm SignatureAlgorithm.dsa_with_sha256 = refl
get_hash_for_oid-get_digest_oid_for_signature_algorithm SignatureAlgorithm.ecdsa_with_sha1 = refl
get_hash_for_oid-get_digest_oid_for_signature_algorithm SignatureAlgorithm.ecdsa_with_sha256 = refl
get_hash_for_oid-get_digest_oid_for_signature_algorithm SignatureAlgorithm.ecdsa_with_sha384 = refl
get_hash_for_oid-get_digest_oid_for_signature_algorithm SignatureAlgorithm.ecdsa_with_sha512 = refl
get_hash_for_oid-get_digest_oid_for_signature_algorithm SignatureAlgorithm.sha256_with_rsa_pss =
    refl
get_hash_for_oid-get_digest_oid_for_signature_algorithm SignatureAlgorithm.sha384_with_rsa_pss =
    refl
get_hash_for_oid-get_digest_oid_for_signature_algorithm SignatureAlgorithm.sha512_with_rsa_pss =
    refl
get_hash_for_oid-get_digest_oid_for_signature_algorithm SignatureAlgorithm.pure_ed25519 = refl
get_hash_for_oid-get_digest_oid_for_signature_algorithm SignatureAlgorithm.ml_dsa44 = refl
get_hash_for_oid-get_digest_oid_for_signature_algorithm SignatureAlgorithm.ml_dsa65 = refl
get_hash_for_oid-get_digest_oid_for_signature_algorithm SignatureAlgorithm.ml_dsa87 = refl
