-- ===== src/Sign/Trip.antt =====
-- sign.go and verify.go: what `AddSignerChain` adds is accepted.
use pkcs.Base.{
  ℕ, ◌<◌, ◌^◌, ◌≡◌, ◌≢◌, refl, sym, ap, ◌∙◌, subst, Bool, true, false, if◌then◌else◌, none, some,
  List, [], ◌∷◌, ◌++◌, length, Bytes, Outcome, ok, err, panic, stuck, with_error, with_error-eq-ok,
  >>=-eq-ok, ok_injective, All, All_mono, arith,
}
use pkcs.Algorithms.Oids
use pkcs.Algorithms.Oids.{Oid, equal}
use pkcs.Algorithms.Keys.{Hash, SignatureAlgorithm, PublicKey, KeyOrSigner}
use pkcs.Algorithms.Choose.{CmsSignerAlgorithm, get_hash_for_oid, get_cms_signer_algorithm}
use pkcs.Algorithms.Accept.{Asn1}
use pkcs.Algorithms.Pss.{digest_oid}
use pkcs.Algorithms.Laws.{signature_of}
use pkcs.Message.Types.{
  Certificate, Attribute, time_value, EncodedAttribute, IssuerAndSerial, SignerInfo,
}
use pkcs.Message.Certificates.{
  raw_full, cert2issuer_and_serial, get_cert_from_certs_by_issuer_and_serial,
}
use pkcs.Attributes.Encoding.{Encoding, IsEncoding, whole_seconds}
use pkcs.Attributes.Marshal.{
  AttributeError, SortableAttribute, for_marshalling, marshal_attributes, unmarshal_attribute,
}
use pkcs.Attributes.Sorted.{IsSort}
use pkcs.Attributes.Lookup.{has_type}
use pkcs.Message.Pkcs7.{Pkcs7}
use pkcs.Verify.Check.{VerifyOptions, X509, found}
use pkcs.Verify.Laws.{IsWithin, attributed, IsTrusted, options_at, IsVerified}
use pkcs.Sign.Monad.{SignedData, SignError, bad_algorithm, bad_attributes, Action, after}
use pkcs.Sign.Signer.{
  SignerInfoConfig, SigningKey, SignCrypto, signed_attributes, verify_partial_chain,
  issuer_and_serial_of, sign_with, make_signer,
}
use pkcs.Sign.State.{add_digest, add_info, add_certs, add_signer_chain}
use pkcs.Sign.Signed.{IsValidAt, IsFit, for_marshalling-IsReadBack}
use pkcs.Sign.Chosen.{signature_by, get_cms_signer_algorithm-IsChosen, sign_with-signature_by}

-- A call that leaves the state alone has succeeded, if what follows it has.
after-eq-ok :
    {A B : Type 0} {s t : SignedData} {b : B} (r : Outcome SignError A) (f : A → Action B)
    → after f (s, r) ≡ (t, ok b)
    → (a : A) × (r ≡ ok a) × (f a s ≡ (t, ok b))
unfolding after
after-eq-ok (ok a) f e = (a, refl, e)
after-eq-ok (err x) f e = cc
after-eq-ok panic f e = cc
after-eq-ok stuck f e = cc

-- A change of the state, and what follows.
after_modify_lem :
    {B : Type 0} {s : SignedData} (f : Unit {0} → Action B) {r : SignedData × Outcome SignError B}
    → after f (s, ok tt) ≡ r
    → f tt s ≡ r
unfolding after
after_modify_lem f e = e

-- The signers behind the last two statements.
added_infos :
    (skip : Bool) (d : SignedData) (certs : List Certificate) (info : SignerInfo) {t : SignedData}
    → ◌≡◌ {A = SignedData × Outcome SignError (Unit {0})}
        (add_info info (if skip then d else add_certs certs d), ok tt)
        (t, ok tt)
    → t.sd.signer_infos ≡ d.sd.signer_infos ++ info ∷ []
added_infos true d certs info e =
    ap (λ (q : SignedData × Outcome SignError (Unit {0})). q.0.sd.signer_infos) (sym e)
added_infos false d certs info e =
    ap (λ (q : SignedData × Outcome SignError (Unit {0})). q.0.sd.signer_infos) (sym e)

-- The parent, if there is one, bears the name of the issuer.
abbrev pub IsIssued : Certificate → List Certificate → Type 0
IsIssued ee [] = Unit {0}
IsIssued ee (parent ∷ parents) = parent.raw_subject ≡ ee.raw_issuer

-- An attribute of the caller: it is no message digest, and if it is a signing time, then one at which
-- the certificate is valid.
pub record IsExtra (ee : Certificate) (attr : Attribute) : Type 0 where
  pub no_digest : equal attr.type Oids.attribute_message_digest ≡ false
  pub time_within :
      equal attr.type Oids.attribute_signing_time ≡ true
      → (t : ℕ) × (attr.value ≡ time_value t) × IsValidAt ee (whole_seconds t)

IsExtra-IsFit :
    (digest : Bytes) (ee : Certificate) (attr : Attribute) → IsExtra ee attr → IsFit digest ee attr
IsExtra-IsFit digest ee attr x = ((λ e. let no = x.no_digest in cc), x.time_within)

found-IsWithin :
    (ee : Certificate) (r : Outcome AttributeError ℕ)
    → ((t : ℕ) → r ≡ ok t → IsValidAt ee t)
    → IsWithin ee (found r)
found-IsWithin ee (ok t) h = h t refl
found-IsWithin ee (err e) h = tt
found-IsWithin ee panic h = tt
found-IsWithin ee stuck h = tt

has_type-length :
    (oid : Oid) (attrs : List EncodedAttribute) → has_type oid attrs ≡ true → length attrs ≢ 0
has_type-length oid [] h e = cc
has_type-length oid (attr ∷ attrs) h e = omega arith

-- What Go's crypto/x509 and the hashes do for the certificate of a key: digests are short, and with the
-- algorithm of the key and the hash, the certificate checks what the key signs.
pub record IsPair (crypto : SignCrypto) (x509 : X509) (key : SigningKey) (ee : Certificate)
    : Type 0 where
  pub public : PublicKey
  pub kind_is : key.kind ≡ KeyOrSigner.signer public
  pub one_digest : (hash : Hash) (bytes : Bytes) → x509.digest hash bytes ≡ crypto.digest hash bytes
  pub short : (hash : Hash) (bytes : Bytes) → length (crypto.digest hash bytes) < 2 ^ 30
  pub checks :
      (hash : Hash) (algorithm : SignatureAlgorithm) (bytes signature : Bytes)
      → signature_of public hash ≡ some algorithm
      → signature_by crypto key public hash bytes ≡ some signature
      → x509.check_signature ee algorithm bytes signature ≡ true

issuer_and_serial_of-IsIssued :
    (crypto : SignCrypto) (ee : Certificate) (parents : List Certificate) (ias : IssuerAndSerial)
    → IsIssued ee parents
    → issuer_and_serial_of crypto ee parents ≡ ok ias
    → cert2issuer_and_serial ee ≡ ias
unfolding issuer_and_serial_of
issuer_and_serial_of-IsIssued crypto ee [] ias i e = ok_injective e
issuer_and_serial_of-IsIssued crypto ee (parent ∷ parents) ias i e =
    let (u, h, g) = >>=-eq-ok (verify_partial_chain crypto ee (parent ∷ parents)) _ e in
    ap (λ name. record { issuer_name = raw_full name; serial_number = ee.serial_number }) (sym i)
    ∙ ok_injective g

module _ (crypto : SignCrypto) (x509 : X509) (asn1 : Asn1) (enc : Encoding)
    (sort : List SortableAttribute → List SortableAttribute) where
  -- A signer that is made of the attributes of the content is verified with it.
  make_signer-IsVerified :
      (laws : IsEncoding enc) (o : IsSort sort) (ee : Certificate) (key : SigningKey)
      (p : IsPair crypto x509 key ee) (hash h : Hash) (a : CmsSignerAlgorithm) (now : ℕ)
      (config : SignerInfoConfig) (content_type : Oid) (content : Bytes) (info : SignerInfo)
      → IsValidAt ee (whole_seconds now)
      → All (IsExtra ee) config.extra_signed_attributes
      → get_cms_signer_algorithm (KeyOrSigner.signer p.public) (digest_oid hash) none ≡ ok a
      → get_hash_for_oid a.digest_oid ≡ ok h
      → make_signer crypto enc sort now a h
          (cert2issuer_and_serial ee)
          key
          config
          content_type
          (crypto.digest h content)
        ≡ ok info
      → (clock : ℕ) (p7 : Pkcs7) (opts : VerifyOptions) → p7.content ≡ content
      → get_cert_from_certs_by_issuer_and_serial p7.certificates (cert2issuer_and_serial ee)
        ≡ some ee
      → opts.roots ≡ none
      → IsVerified x509 asn1 enc clock p7 opts info
  unfolding make_signer
  make_signer-IsVerified laws o ee key p hash h a now config content_type content info valid extra
        chosen hashed e clock p7 opts same cert roots =
      let digest = crypto.digest h content in
      let (signed, h1, e1) =
        >>=-eq-ok
          (with_error bad_attributes
            (for_marshalling enc sort (signed_attributes content_type digest now config)))
          _ e in
      let (unsigned, h2, e2) =
        >>=-eq-ok
          (with_error bad_attributes (for_marshalling enc sort config.extra_unsigned_attributes)) _
          e1 in
      let (encoded, h3, e3) =
        >>=-eq-ok (with_error bad_attributes (marshal_attributes enc signed)) _ e2 in
      let (signature, h4, e4) = >>=-eq-ok (sign_with crypto a.mode key encoded h) _ e3 in
      let c = get_cms_signer_algorithm-IsChosen asn1 p.public hash a chosen in
      let back =
        for_marshalling-IsReadBack enc laws sort o content_type digest (p.short h content) now
          config ee signed valid (All_mono (IsExtra-IsFit digest ee) _ extra)
          (with_error-eq-ok _ _ h1) in
      let time = unmarshal_attribute enc.unmarshal_time signed Oids.attribute_signing_time in
      subst (IsVerified x509 asn1 enc clock p7 opts) (ok_injective e4) (record {
        ee = ee;
        signed = encoded;
        time = found time;
        algorithm = c.algorithm;
        ee_is = cert;
        content_is = attributed (has_type-length _ signed back.has_digest) (record {
          hash = h;
          hash_is = hashed;
          digest_is =
              back.digest_is ∙ ap ok (sym (p.one_digest h content) ∙ ap (x509.digest h) (sym same));
          signed_is = with_error-eq-ok _ _ h3;
          time_is = refl;
          within = found-IsWithin ee time back.time_within;
        });
        trusted =
            subst (IsTrusted x509 asn1 enc ee (options_at x509 asn1 enc clock opts (found time)))
              (sym roots) tt;
        algorithm_is = c.algorithm_is;
        signature = p.checks hash c.algorithm encoded signature c.algorithm_of (
            sign_with-signature_by crypto key p.public hash a.mode h encoded signature c.mode_is
              (λ m. c.hash_is h m hashed) h4);
      })

  -- The signer that is added, verified with each message of the same content in which the certificate
  -- is the first of its issuer and number.
  abbrev pub AddsVerified : Certificate → SignedData → SignedData → Type 0
  AddsVerified ee s t =
      (info : SignerInfo) × (t.sd.signer_infos ≡ s.sd.signer_infos ++ info ∷ [])
      × ((clock : ℕ) (p7 : Pkcs7) (opts : VerifyOptions)
          → p7.content ≡ s.content
          → get_cert_from_certs_by_issuer_and_serial p7.certificates (cert2issuer_and_serial ee)
            ≡ some ee
          → opts.roots ≡ none
          → IsVerified x509 asn1 enc clock p7 opts info)

  pub add_signer_chain-AddsVerified :
      (laws : IsEncoding enc) (o : IsSort sort) (ee : Certificate) (key : SigningKey)
      (p : IsPair crypto x509 key ee) (hash : Hash) (now : ℕ) (parents : List Certificate)
      (config : SignerInfoConfig) (s t : SignedData)
      → s.digest_oid ≡ digest_oid hash
      → IsValidAt ee (whole_seconds now)
      → IsIssued ee parents
      → All (IsExtra ee) config.extra_signed_attributes
      → add_signer_chain crypto enc sort now ee key parents config s ≡ (t, ok tt)
      → AddsVerified ee s t
  unfolding add_signer_chain
  add_signer_chain-AddsVerified laws o ee key p hash now parents config s t chosen valid issued
        extra e =
      let (a, h1, e1) =
        after-eq-ok (with_error bad_algorithm (get_cms_signer_algorithm key.kind s.digest_oid none))
          _ e in
      let (ias, h2, e2) = after-eq-ok (issuer_and_serial_of crypto ee parents) _ e1 in
      let (h, h3, e3) =
        after-eq-ok (with_error bad_algorithm (get_hash_for_oid a.digest_oid)) _
          (after_modify_lem _ e2) in
      let (info, h4, e4) =
        after-eq-ok
          (make_signer crypto enc sort now a h ias key config s.sd.content_info.content_type
            (crypto.digest h s.content))
          _ (after_modify_lem _ e3) in
      let named = issuer_and_serial_of-IsIssued crypto ee parents ias issued h2 in
      let picked : get_cms_signer_algorithm (KeyOrSigner.signer p.public) (digest_oid hash) none
          ≡ ok a =
        ap (λ kind. get_cms_signer_algorithm kind (digest_oid hash) none) (sym p.kind_is)
        ∙ ap (λ oid. get_cms_signer_algorithm key.kind oid none) (sym chosen)
        ∙ with_error-eq-ok _ _ h1 in
      let made =
        ap
          (λ i.
            make_signer crypto enc sort now a h i key config s.sd.content_info.content_type
              (crypto.digest h s.content))
          named
        ∙ h4 in
      (
        info,
        added_infos config.skip_certificates
            (record (add_digest a.digest_oid s) { message_digest = crypto.digest h s.content })
            (ee ∷ parents) info (after_modify_lem _ e4),
        make_signer-IsVerified laws o ee key p hash h a now config s.sd.content_info.content_type
            s.content info valid extra picked (with_error-eq-ok _ _ h3) made,
      )
