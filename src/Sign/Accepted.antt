-- ===== src/Sign/Accepted.antt =====
-- sign.go `AddSignerChain` and verify.go `Verify`, one behind the other.
use pkcs.Base.{
  ℕ, ◌≡◌, refl, sym, ap, ◌∙◌, subst, false, none, some, List, [], ◌∷◌, ◌++◌, length, get_elem?, ok,
  All, zero, suc, arith,
}
use pkcs.Algorithms.Keys.{Hash}
use pkcs.Algorithms.Accept.{Asn1}
use pkcs.Algorithms.Pss.{digest_oid}
use pkcs.Message.Types.{Certificate}
use pkcs.Message.Certificates.{
  get_cert_from_certs_by_issuer_and_serial, cert2issuer_and_serial, get_cert-cert2issuer_and_serial,
}
use pkcs.Attributes.Encoding.{Encoding, IsEncoding, whole_seconds}
use pkcs.Attributes.Marshal.{SortableAttribute}
use pkcs.Attributes.Sorted.{IsSort}
use pkcs.Message.Pkcs7.{Pkcs7, raw_signed}
use pkcs.Verify.Check.{VerifyOptions, X509, default_usages, verify_with_chain, verify}
use pkcs.Verify.Laws.{IsVerified}
use pkcs.Verify.Accepted.{verify_with_opts_iff}
use pkcs.Sign.Monad.{SignedData}
use pkcs.Sign.Signer.{SignerInfoConfig, SigningKey, SignCrypto}
use pkcs.Sign.State.{add_signer_chain}
use pkcs.Sign.Adds.{certs_of, add_signer_chain-Adds, Adds-IsAdded}
use pkcs.Sign.Signed.{IsValidAt}
use pkcs.Sign.Trip.{IsIssued, IsExtra, IsPair, add_signer_chain-AddsVerified}

-- The message that holds the content, the certificates and the signers of the state.
abbrev pub message_of : SignedData → Pkcs7
message_of s = record {
  content = s.content;
  certificates = s.certs;
  crls = [];
  signers = s.sd.signer_infos;
  raw = raw_signed s.sd;
}

only_one : {A : Type 0} (a b : A) (k : ℕ) → get_elem? (a ∷ []) k ≡ some b → a ≡ b
only_one a b zero e = cc
only_one a b (suc k) e = cc

module _ (crypto : SignCrypto) (x509 : X509) (asn1 : Asn1) (enc : Encoding)
    (sort : List SortableAttribute → List SortableAttribute) where
  -- Where `AddSignerChain` signs a state that has no signers and no certificates yet, with a key
  -- that belongs to the certificate and digests that are short, one of the four hashes, and the
  -- certificates included, the message of the content, the certificates and the signers of the new
  -- state is accepted by `Verify` at every later time: the certificate is valid at the whole second
  -- of the signing, its first parent bears the name of its issuer, and the extra signed attributes
  -- hold no message digest and no signing time whose whole second is outside the validity. The
  -- message is not one that went through `Finish` and `Parse`.
  pub verify-add_signer_chain :
      (laws : IsEncoding enc) (o : IsSort sort) (ee : Certificate) (key : SigningKey)
      (p : IsPair crypto x509 key ee) (hash : Hash) (now : ℕ) (parents : List Certificate)
      (config : SignerInfoConfig) (s t : SignedData)
      → s.sd.signer_infos ≡ []
      → s.certs ≡ []
      → s.digest_oid ≡ digest_oid hash
      → config.skip_certificates ≡ false
      → IsValidAt ee (whole_seconds now)
      → IsIssued ee parents
      → All (IsExtra ee) config.extra_signed_attributes
      → add_signer_chain crypto enc sort now ee key parents config s ≡ (t, ok tt)
      → (clock : ℕ → ℕ) → verify x509 asn1 enc clock (message_of t) ≡ ok tt
  unfolding verify verify_with_chain
  verify-add_signer_chain laws o ee key p hash now parents config s t unsigned bare chosen included
        valid issued extra e clock =
      let (info, infos, verified) =
        add_signer_chain-AddsVerified crypto x509 asn1 enc sort laws o ee key p hash now parents
          config s t chosen valid issued extra e in
      let (other, more) =
        Adds-IsAdded (add_signer_chain-Adds crypto enc sort now ee key parents config s) e in
      let opts : VerifyOptions = record {
        roots = none;
        intermediates = t.certs;
        key_usages = none;
        current_time = 0;
      } in
      let one : t.sd.signer_infos ≡ info ∷ [] = infos ∙ ap (λ l. l ++ info ∷ []) unsigned in
      let certs : t.certs ≡ ee ∷ parents =
        more.certs
        ∙ ap (λ l. l ++ certs_of config.skip_certificates (ee ∷ parents)) bare
        ∙ ap (λ b. certs_of b (ee ∷ parents)) included in
      let cert : get_cert_from_certs_by_issuer_and_serial t.certs (cert2issuer_and_serial ee)
          ≡ some ee =
        rw certs (get_cert-cert2issuer_and_serial ee parents) in
      (verify_with_opts_iff x509 asn1 enc clock (message_of t) opts).1 (
        (λ none_left. let wrong = ap length (sym one) ∙ none_left in omega arith),
        λ k signer g.
            subst (IsVerified x509 asn1 enc (clock k) (message_of t) (default_usages opts))
              (only_one info signer k (ap (λ l. get_elem? l k) (sym one) ∙ g))
              (verified (clock k) (message_of t) (default_usages opts) more.content cert refl),
      )
