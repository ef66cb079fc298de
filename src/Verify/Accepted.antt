-- ===== src/Verify/Accepted.antt =====
-- verify.go `VerifyWithOpts`: it accepts exactly the messages whose signers are all verified.
use pkcs.Base.{
  ℕ, zero, suc, ◌+◌, ◌≡◌, ◌≢◌, ◌↔◌, refl, sym, ◌∙◌, subst, false, not-false, ◌==◌, if◌then◌else◌,
  Option, none, some, List, [], ◌∷◌, length, get_elem?, Outcome, ok, ◌>>=◌, fail_if, value_or,
  arith, Bool-cases, inl, inr,
}
use pkcs.Base.{>>=-eq-ok, value_or-eq-ok, fail_if-eq-ok, with_error, with_error-eq-ok}
use pkcs.Algorithms.Accept.{Asn1, get_signature_algorithm}
use pkcs.Message.Types.{Certificate, SignerInfo}
use pkcs.Message.Certificates.{get_cert_from_certs_by_issuer_and_serial}
use pkcs.Attributes.Encoding.{Encoding}
use pkcs.Message.Pkcs7.{Pkcs7}
use pkcs.Verify.Check.{
  VerifyOptions, CheckError, bad_algorithm, X509, chain_fails, default_usages, signed_bytes,
  check_chain_and_signature, verify_signature_at_time, verify_signature, verify_each,
  verify_with_opts,
}
use pkcs.Verify.Laws.{IsTrusted, options_at, IsVerified, signed_bytes-IsSigned, signed_bytes_run}

module _ (x509 : X509) (asn1 : Asn1) (enc : Encoding) where
  chain_fails-IsTrusted :
      (ee : Certificate) (opts : VerifyOptions) (roots : Option (List Certificate))
      → chain_fails x509 ee opts roots ≡ false
      → IsTrusted x509 asn1 enc ee opts roots
  chain_fails-IsTrusted ee opts none h = tt
  chain_fails-IsTrusted ee opts (some roots) h = not-false (x509.verify ee opts) h

  IsTrusted-chain_fails :
      (ee : Certificate) (opts : VerifyOptions) (roots : Option (List Certificate))
      → IsTrusted x509 asn1 enc ee opts roots
      → chain_fails x509 ee opts roots ≡ false
  IsTrusted-chain_fails ee opts none h = refl
  IsTrusted-chain_fails ee opts (some roots) h = rw h refl

  -- The call for one signer, with or without a given time.
  abbrev verify_one : ℕ → Pkcs7 → VerifyOptions → SignerInfo → Outcome CheckError (Unit {0})
  verify_one now p7 opts signer =
      if opts.current_time == 0
      then verify_signature x509 asn1 enc now p7 signer opts
      else verify_signature_at_time x509 asn1 enc p7 signer opts

  -- Both calls, by the options of the chain.
  verify_one_lem :
      (now : ℕ) (p7 : Pkcs7) (opts : VerifyOptions) (signer : SignerInfo)
      → verify_one now p7 opts signer ≡ (do
        ee ←
            value_or
              (get_cert_from_certs_by_issuer_and_serial p7.certificates
                signer.issuer_and_serial_number)
              CheckError.no_certificate
        (signed, time) ← signed_bytes x509 asn1 enc p7.content ee signer
        check_chain_and_signature x509 asn1 enc
            (options_at x509 asn1 enc now opts time)
            ee
            signer
            signed)
  unfolding verify_signature verify_signature_at_time
  verify_one_lem now p7 opts signer = elim (Bool-cases (opts.current_time == 0)) [
    | inl unset ↦ rw unset refl
    | inr given ↦ rw given refl
  ]

  options_at-roots :
      (now : ℕ) (opts : VerifyOptions) (time : Option ℕ)
      → (options_at x509 asn1 enc now opts time).roots ≡ opts.roots
  options_at-roots now opts time = elim (Bool-cases (opts.current_time == 0)) [
    | inl unset ↦ rw unset refl
    | inr given ↦ rw given refl
  ]

  verify_one-IsVerified :
      (now : ℕ) (p7 : Pkcs7) (opts : VerifyOptions) (signer : SignerInfo)
      → verify_one now p7 opts signer ≡ ok tt
      → IsVerified x509 asn1 enc now p7 opts signer
  unfolding check_chain_and_signature
  verify_one-IsVerified now p7 opts signer e =
      let (ee, h, e1) =
        >>=-eq-ok
          (value_or
            (get_cert_from_certs_by_issuer_and_serial p7.certificates
              signer.issuer_and_serial_number)
            CheckError.no_certificate)
          _ (sym (verify_one_lem now p7 opts signer) ∙ e) in
      let (pair, s, e2) = >>=-eq-ok (signed_bytes x509 asn1 enc p7.content ee signer) _ e1 in
      let at = options_at x509 asn1 enc now opts pair.1 in
      let (u, c, e3) =
        >>=-eq-ok (fail_if (chain_fails x509 ee at at.roots) CheckError.bad_chain) _ e2 in
      let (algorithm, a, e4) =
        >>=-eq-ok
          (with_error bad_algorithm (
            get_signature_algorithm asn1 signer.digest_encryption_algorithm
              signer.digest_algorithm))
          _ e3 in
      record {
        ee = ee;
        signed = pair.0;
        time = pair.1;
        algorithm = algorithm;
        ee_is = value_or-eq-ok _ _ h;
        content_is = signed_bytes-IsSigned x509 asn1 enc p7.content ee signer pair.0 pair.1 s;
        trusted =
            subst (IsTrusted x509 asn1 enc ee at) (options_at-roots now opts pair.1)
              (chain_fails-IsTrusted ee at at.roots (fail_if-eq-ok _ _ c));
        algorithm_is = with_error-eq-ok _ _ a;
        signature = not-false _ (fail_if-eq-ok _ _ e4);
      }

  pub IsVerified-verify_one :
      (now : ℕ) (p7 : Pkcs7) (opts : VerifyOptions) (signer : SignerInfo)
      → IsVerified x509 asn1 enc now p7 opts signer
      → verify_one now p7 opts signer ≡ ok tt
  unfolding check_chain_and_signature
  IsVerified-verify_one now p7 opts signer v =
      let at = options_at x509 asn1 enc now opts v.time in
      let chain : chain_fails x509 v.ee at at.roots ≡ false =
        IsTrusted-chain_fails v.ee at at.roots (
          subst (IsTrusted x509 asn1 enc v.ee at) (sym (options_at-roots now opts v.time))
            v.trusted) in
      verify_one_lem now p7 opts signer
      ∙ rw
          (
            v.ee_is,
            signed_bytes_run x509 asn1 enc p7.content v.ee signer v.signed v.time v.content_is,
            chain,
            v.algorithm_is,
            v.signature,
          )
          refl

  -- Every signer in turn.
  verify_each-eq-ok :
      (check : ℕ → SignerInfo → Outcome CheckError (Unit {0})) (i : ℕ) (signers : List SignerInfo)
      → verify_each x509 asn1 enc check i signers ≡ ok tt
      → (k : ℕ) (signer : SignerInfo) → get_elem? signers k ≡ some signer
      → check (i + k) signer ≡ ok tt
  unfolding verify_each
  verify_each-eq-ok check i [] e k signer g = cc
  verify_each-eq-ok check i (s ∷ signers) e zero signer g =
      let (u, h, e1) = >>=-eq-ok (check i s) _ e in
      let same : s ≡ signer = cc in
      let at : i ≡ i + 0 = omega arith in
      subst (λ (n : ℕ). check n signer ≡ ok tt) at
        (subst (λ (z : SignerInfo). check i z ≡ ok tt) same h)
  verify_each-eq-ok check i (s ∷ signers) e (suc k) signer g =
      let (u, h, e1) = >>=-eq-ok (check i s) _ e in
      let at : i + 1 + k ≡ i + suc k = omega arith in
      subst (λ (n : ℕ). check n signer ≡ ok tt) at
        (verify_each-eq-ok check (i + 1) signers e1 k signer g)

  verify_each_run :
      (check : ℕ → SignerInfo → Outcome CheckError (Unit {0})) (i : ℕ) (signers : List SignerInfo)
      → ((k : ℕ) (signer : SignerInfo)
          → get_elem? signers k ≡ some signer
          → check (i + k) signer ≡ ok tt)
      → verify_each x509 asn1 enc check i signers ≡ ok tt
  unfolding verify_each
  verify_each_run check i [] h = refl
  verify_each_run check i (s ∷ signers) h =
      let first : check i s ≡ ok tt =
        let at : i + 0 ≡ i = omega arith in subst (λ (n : ℕ). check n s ≡ ok tt) at (h 0 s refl) in
      rw first (
        verify_each_run check (i + 1) signers (λ k signer g.
          let at : i + suc k ≡ i + 1 + k = omega arith in
          subst (λ (n : ℕ). check n signer ≡ ok tt) at (h (suc k) signer g)))

  zero_plus : (k : ℕ) → 0 + k ≡ k
  zero_plus k = omega arith

  no_signer : (n : ℕ) → (n == 0) ≡ false → n ≢ 0
  no_signer n h = ground arith

  some_signer : (n : ℕ) → n ≢ 0 → (n == 0) ≡ false
  some_signer n h = ground arith

  -- `VerifyWithOpts` accepts exactly the messages that have a signer and of which every signer is
  -- verified: its certificate is in the message, the message digest attribute is the digest of the
  -- content and the signing time lies in the validity of the certificate, where there are attributes,
  -- the chain is verified, where roots are given, at the time asked for, or else at the signing time
  -- or now, and the signature is one of the attributes, or of the content where there are none.
  pub verify_with_opts_iff :
      (clock : ℕ → ℕ) (p7 : Pkcs7) (opts : VerifyOptions)
      → (verify_with_opts x509 asn1 enc clock p7 opts ≡ ok tt) ↔ (
          (length p7.signers ≢ 0)
          × ((k : ℕ) (signer : SignerInfo)
              → get_elem? p7.signers k ≡ some signer
              → IsVerified x509 asn1 enc (clock k) p7 (default_usages opts) signer))
  unfolding verify_with_opts
  verify_with_opts_iff clock p7 opts =
      let used = default_usages opts in
      let check = λ (i : ℕ) (signer : SignerInfo). verify_one (clock i) p7 used signer in
      let at = λ (k : ℕ). zero_plus k in
      (
        (λ e.
            let (u, h, e1) =
              >>=-eq-ok (fail_if (length p7.signers == 0) CheckError.no_signers) _ e in
            (
              no_signer _ (fail_if-eq-ok _ _ h),
              λ k signer g. verify_one-IsVerified (clock k) p7 used signer (
                  subst (λ (n : ℕ). check n signer ≡ ok tt) (at k)
                    (verify_each-eq-ok check 0 p7.signers e1 k signer g)),
            )),
        (λ h. rw (some_signer _ h.0) (
            verify_each_run check 0 p7.signers (λ k signer g.
              subst (λ (n : ℕ). check n signer ≡ ok tt) (sym (at k))
                (IsVerified-verify_one (clock k) p7 used signer (h.1 k signer g))))),
      )
