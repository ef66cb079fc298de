-- ===== src/Sign/Adds.antt =====
-- sign.go: what `AddSignerChain` and `SignWithoutAttr` have done when they return.
use pkcs.Base.{
  ℕ, ◌≡◌, refl, sym, ap, subst, Bool, true, false, if◌then◌else◌, none, List, [], ◌∷◌, ◌++◌,
  append-nil, Bytes, Outcome, ok, err, panic, stuck, with_error, >>=-eq-ok, ok_injective,
}
use pkcs.Algorithms.Oids.{Oid}
use pkcs.Algorithms.Keys.{Hash, AlgorithmIdentifier}
use pkcs.Algorithms.Choose.{CmsSignerAlgorithm, get_hash_for_oid, get_cms_signer_algorithm}
use pkcs.Message.Types.{Certificate, IssuerAndSerial, SignerInfo}
use pkcs.Message.Certificates.{cert2issuer_and_serial}
use pkcs.Attributes.Encoding.{Encoding}
use pkcs.Attributes.Marshal.{SortableAttribute, for_marshalling, marshal_attributes}
use pkcs.Sign.Monad.{SignedData, SignError, bad_algorithm, bad_attributes, Action, after}
use pkcs.Sign.Signer.{
  SignerInfoConfig, SigningKey, SignCrypto, identifier, signer_info, signed_attributes,
  issuer_and_serial_of, sign_with, make_signer,
}
use pkcs.Sign.State.{add_digest, add_info, add_certs, add_signer_chain, sign_without_attr}

-- The call has failed.
abbrev pub IsError : {A : Type 0} → Outcome SignError A → Type 0
IsError (ok a) = ⊥
IsError (err e) = Unit {0}
IsError panic = Unit {0}
IsError stuck = Unit {0}

-- No more than the digest identifiers and the digest have changed.
pub record IsKept (s t : SignedData) : Type 0 where
  pub infos : t.sd.signer_infos ≡ s.sd.signer_infos
  pub certs : t.certs ≡ s.certs
  pub version : t.sd.version ≡ s.sd.version
  pub content_info : t.sd.content_info ≡ s.sd.content_info
  pub content : t.content ≡ s.content
  pub new_digests : List AlgorithmIdentifier
  pub digests : t.sd.digest_algorithm_identifiers ≡ s.sd.digest_algorithm_identifiers ++ new_digests

-- A signer of version 1 was added behind the others, with the identifier of its digest, and some
-- certificates.
pub record IsAdded (s t : SignedData) (info : SignerInfo) (new_certs : List Certificate)
    : Type 0 where
  pub infos : t.sd.signer_infos ≡ s.sd.signer_infos ++ info ∷ []
  pub certs : t.certs ≡ s.certs ++ new_certs
  pub info_version : info.version ≡ 1
  pub version : t.sd.version ≡ s.sd.version
  pub content_info : t.sd.content_info ≡ s.sd.content_info
  pub content : t.content ≡ s.content
  pub digests :
      t.sd.digest_algorithm_identifiers
      ≡ s.sd.digest_algorithm_identifiers ++ info.digest_algorithm ∷ []

pub data Adds (s : SignedData) (new_certs : List Certificate)
    : SignedData × Outcome SignError (Unit {0}) → Type 0 where
  kept :
      {t : SignedData} {r : Outcome SignError (Unit {0})}
      → IsError r
      → IsKept s t
      → Adds s new_certs (t, r)
  added :
      {t : SignedData} (info : SignerInfo)
      → IsAdded s t info new_certs
      → Adds s new_certs (t, ok tt)

-- A call that has succeeded has added a signer.
pub Adds-IsAdded :
    {s t : SignedData} {new_certs : List Certificate}
    {r : SignedData × Outcome SignError (Unit {0})}
    → Adds s new_certs r
    → r ≡ (t, ok tt)
    → (info : SignerInfo) × IsAdded s t info new_certs
Adds-IsAdded (kept x k) e =
    absurd (subst IsError (ap (λ (q : SignedData × Outcome SignError (Unit {0})). q.1) e) x)
Adds-IsAdded {s = s} {new_certs = new_certs} (added info k) e = (
  info,
  subst (λ u. IsAdded s u info new_certs)
      (ap (λ (q : SignedData × Outcome SignError (Unit {0})). q.0) e) k,
)

-- A call that leaves the state alone, and what follows if it succeeds.
after_call :
    {A : Type 0} {s : SignedData} {new_certs : List Certificate} {t : SignedData}
    (r : Outcome SignError A) (f : A → Action (Unit {0}))
    → IsKept s t
    → ((a : A) → r ≡ ok a → Adds s new_certs (f a t))
    → Adds s new_certs (after f (t, r))
unfolding after
after_call (ok a) f k h = h a refl
after_call (err e) f k h = kept tt k
after_call panic f k h = kept tt k
after_call stuck f k h = kept tt k

-- A change of the state, and what follows.
after_modify :
    {s : SignedData} {new_certs : List Certificate} {t : SignedData}
    (f : Unit {0} → Action (Unit {0}))
    → Adds s new_certs (f tt t)
    → Adds s new_certs (after f (t, ok tt))
unfolding after
after_modify f h = h

same : (s : SignedData) → IsKept s s
same s = record {
  infos = refl;
  certs = refl;
  version = refl;
  content_info = refl;
  content = refl;
  new_digests = [];
  digests = sym (append-nil s.sd.digest_algorithm_identifiers);
}

-- The state behind the digest of the content.
digested :
    (s : SignedData) (oid : Oid) (digest : Bytes)
    → IsKept s (record (add_digest oid s) { message_digest = digest })
digested s oid digest = record {
  infos = refl;
  certs = refl;
  version = refl;
  content_info = refl;
  content = refl;
  new_digests = identifier oid ∷ [];
  digests = refl;
}

-- The certificates that are added.
abbrev pub certs_of : Bool → List Certificate → List Certificate
certs_of skip certs = if skip then [] else certs

-- The last two statements, behind a signer that was made.
finished :
    (skip : Bool) (s : SignedData) (oid : Oid) (digest : Bytes) (certs : List Certificate)
    (info : SignerInfo)
    → (info.version ≡ 1) × (info.digest_algorithm ≡ identifier oid)
    → Adds s (certs_of skip certs) (
      add_info info (
          let t = record (add_digest oid s) { message_digest = digest } in
          if skip then t else add_certs certs t),
      ok tt,
    )
finished true s oid digest certs info (version, id) = added info (record {
  infos = refl;
  certs = sym (append-nil s.certs);
  info_version = version;
  version = refl;
  content_info = refl;
  content = refl;
  digests = ap (λ a. s.sd.digest_algorithm_identifiers ++ a ∷ []) (sym id);
})
finished false s oid digest certs info (version, id) = added info (record {
  infos = refl;
  certs = refl;
  info_version = version;
  version = refl;
  content_info = refl;
  content = refl;
  digests = ap (λ a. s.sd.digest_algorithm_identifiers ++ a ∷ []) (sym id);
})

module _ (crypto : SignCrypto) (enc : Encoding)
    (sort : List SortableAttribute → List SortableAttribute) where
  make_signer-signer_info :
      (now : ℕ) (algorithm : CmsSignerAlgorithm) (hash : Hash) (ias : IssuerAndSerial)
      (key : SigningKey) (config : SignerInfoConfig) (content_type : Oid) (digest : Bytes)
      (info : SignerInfo)
      → make_signer crypto enc sort now algorithm hash ias key config content_type digest ≡ ok info
      → (info.version ≡ 1) × (info.digest_algorithm ≡ identifier algorithm.digest_oid)
  unfolding make_signer
  make_signer-signer_info now algorithm hash ias key config content_type digest info e =
      let (signed, h1, e1) =
        >>=-eq-ok
          (with_error bad_attributes
            (for_marshalling enc sort (signed_attributes content_type digest now config)))
          _ e in
      let (unsigned, h2, e2) =
        >>=-eq-ok
          (with_error bad_attributes (for_marshalling enc sort config.extra_unsigned_attributes)) _
          e1 in
      let (encoded, h3, e3) =
        >>=-eq-ok (with_error bad_attributes (marshal_attributes enc signed)) _ e2 in
      let (signature, h4, e4) = >>=-eq-ok (sign_with crypto algorithm.mode key encoded hash) _ e3 in
      let made = ok_injective e4 in
      (
        ap (λ (i : SignerInfo). i.version) (sym made),
        ap (λ (i : SignerInfo). i.digest_algorithm) (sym made),
      )

  -- `AddSignerChain` either fails, and then signers, certificates and content stay as they were, or it
  -- adds one signer of version 1, the identifier of that signer's digest, and the certificate with its
  -- parents unless they are skipped; other signers and the content stay as they were.
  pub add_signer_chain-Adds :
      (now : ℕ) (ee : Certificate) (key : SigningKey) (parents : List Certificate)
      (config : SignerInfoConfig) (s : SignedData)
      → Adds s
          (certs_of config.skip_certificates (ee ∷ parents))
          (add_signer_chain crypto enc sort now ee key parents config s)
  unfolding add_signer_chain
  add_signer_chain-Adds now ee key parents config s =
      after_call (with_error bad_algorithm (get_cms_signer_algorithm key.kind s.digest_oid none)) _
        (same s)
        λ algorithm _. after_call (issuer_and_serial_of crypto ee parents) _ (same s) λ ias _.
          after_modify _ (
            after_call (with_error bad_algorithm (get_hash_for_oid algorithm.digest_oid)) _
              (digested s algorithm.digest_oid s.message_digest)
              λ hash _. after_modify _ (
                after_call
                  (make_signer crypto enc sort now algorithm hash ias key config
                    s.sd.content_info.content_type (crypto.digest hash s.content))
                  _ (digested s algorithm.digest_oid (crypto.digest hash s.content))
                  λ info made. after_modify _ (
                    finished config.skip_certificates s algorithm.digest_oid
                      (crypto.digest hash s.content) (ee ∷ parents) info
                      (make_signer-signer_info now algorithm hash ias key config
                        s.sd.content_info.content_type (crypto.digest hash s.content) info made))))

  -- `SignWithoutAttr` either fails, and then signers, certificates and content stay as they were, or it
  -- adds one signer of version 1, the identifier of that signer's digest, and the certificate.
  pub sign_without_attr-Adds :
      (ee : Certificate) (key : SigningKey) (s : SignedData)
      → Adds s (ee ∷ []) (sign_without_attr crypto enc sort ee key s)
  unfolding sign_without_attr
  sign_without_attr-Adds ee key s =
      after_call
        (with_error bad_algorithm (get_cms_signer_algorithm key.kind s.digest_oid s.encryption_oid))
        _ (same s)
        λ algorithm _. after_modify _ (
          after_call (with_error bad_algorithm (get_hash_for_oid algorithm.digest_oid)) _
            (digested s algorithm.digest_oid s.message_digest)
            λ hash _. after_modify _ (
              after_call (sign_with crypto algorithm.mode key s.content hash) _
                (digested s algorithm.digest_oid (crypto.digest hash s.content))
                λ signature _. after_modify _ (
                  finished false s algorithm.digest_oid (crypto.digest hash s.content) (ee ∷ [])
                    (signer_info (cert2issuer_and_serial ee) algorithm [] [] signature)
                    (refl, refl))))
