-- ===== src/Parse/Laws.antt =====
-- pkcs7.go `Parse`: it returns, it reads BER as its DER, and it reads what `DegenerateCertificate`
-- writes.
use pkcs.Base.{
  ℕ, suc, ◌≤◌, ◌<◌, ◌^◌, ◌≡◌, ◌≢◌, refl, sym, ap, ◌∙◌, inl, false, not, ◌==◌, Option, some, List,
  [], ◌∷◌, length, Bytes, All, IsByte, Outcome, ok, err, panic, stuck, value_or, with_error, arith,
}
use pkcs.Base.{
  Ensures, holds, rejected, Ensures-ne-panic, Ensures-ne-stuck, Ensures->>=, Ensures-map,
  Ensures-fail_if, Ensures-if, value_or-Ensures, >>=-eq-ok, value_or-eq-ok,
}
use pkcs.Subtle.{bytes_equal}
use pkcs.Ber.Decode.{ber2der}
use pkcs.Ber.Transcode.{ber2der_returns, ber2der_iff, ber2der-ber2der}
use pkcs.Algorithms.Oids
use pkcs.Algorithms.Oids.{Oid, equal}
use pkcs.Algorithms.Keys.{RawValue}
use pkcs.Message.Types.{Certificate, ContentInfo, SignedContent}
use pkcs.Message.Pkcs7.{raw_signed}
use pkcs.Sign.Monad.{not_marshalled}
use pkcs.Parse.Wire.{Wire, IsDer, IsWire, wrapped, content_info_of}
use pkcs.Parse.Read.{
  bad_ber, parse_raw_certificates, compound_of, content_of, parse_signed_data, parse_enveloped_data,
  parse_encrypted_data, parse_content, parse_der, parse,
}
use pkcs.Parse.Write.{
  no_signers, marshal_certificate_bytes, marshal_message, degenerate_certificate,
}

-- A call that returns.
abbrev Returns : {E A : Type 0} → Outcome E A → Type 0
Returns r = Ensures (λ a. Unit {0}) r

value_or-Returns : {E A : Type 0} (r : Option A) (e : E) → Returns (value_or r e)
value_or-Returns r e = Ensures-map (λ a h. tt) (value_or-Ensures r e)

with_error-Returns :
    {E F A : Type 0} (f : E → F) (r : Outcome E A)
    → r ≢ panic
    → r ≢ stuck
    → Returns (with_error f r)
with_error-Returns f (ok a) h k = holds tt
with_error-Returns f (err e) h k = rejected
with_error-Returns f panic h k = absurd (h refl)
with_error-Returns f stuck h k = absurd (k refl)

ber2der-nil : (der : Bytes) → ber2der [] ≢ ok der
unfolding ber2der
ber2der-nil der e = cc

suc-not_zero : (n : ℕ) → (suc n == 0) ≡ false
suc-not_zero n = ground arith

some-not_zero : (n : ℕ) → 1 ≤ n → (n == 0) ≡ false
some-not_zero n h = ground arith

module _ (wire : Wire) where
  parse_raw_certificates-Returns : (raw : Bytes) → Returns (parse_raw_certificates wire raw)
  unfolding parse_raw_certificates
  parse_raw_certificates-Returns raw =
      Ensures-if (length raw == 0) (λ e. holds tt)
        (λ e.
          Ensures->>= (value_or-Returns (wire.unmarshal_raw raw) _) (λ v h. value_or-Returns _ _))

  compound_of-Returns : (bytes : Bytes) → Returns (compound_of wire bytes)
  unfolding compound_of
  compound_of-Returns bytes =
      Ensures-if (length bytes == 0) (λ e. holds tt) (λ e. value_or-Returns _ _)

  content_of-Returns : (compound : RawValue) → Returns (content_of wire compound)
  unfolding content_of
  content_of-Returns compound =
      Ensures-if compound.is_compound
        (λ e. Ensures-if (compound.tag == 4) (λ f. value_or-Returns _ _) (λ f. holds tt))
        (λ e. holds tt)

  parse_signed_data-Returns : (bytes : Bytes) → Returns (parse_signed_data wire bytes)
  unfolding parse_signed_data
  parse_signed_data-Returns bytes =
      Ensures->>= (value_or-Returns (wire.unmarshal_signed_data bytes) _) λ sd h.
        Ensures->>= (parse_raw_certificates-Returns sd.certificates) λ certs k.
          Ensures->>= (compound_of-Returns sd.content_info.content.bytes)
            λ compound l. Ensures->>= (content_of-Returns compound) λ content m. holds tt

  parse_content-Returns : (oid : Oid) (bytes : Bytes) → Returns (parse_content wire oid bytes)
  unfolding parse_content parse_enveloped_data parse_encrypted_data
  parse_content-Returns oid bytes =
      Ensures-if (equal oid Oids.oid_signed_data) (λ e. parse_signed_data-Returns bytes)
        (λ e.
          Ensures-if (equal oid Oids.oid_enveloped_data)
            (λ f.
              Ensures->>= (value_or-Returns (wire.unmarshal_enveloped_data bytes) _)
                (λ ed h. holds tt))
            (λ f.
              Ensures-if (equal oid Oids.oid_encrypted_data)
                (λ g.
                  Ensures->>= (value_or-Returns (wire.unmarshal_encrypted_data bytes) _)
                    (λ ed h. holds tt))
                (λ g. rejected)))

  parse-Returns : (bytes : Bytes) → All IsByte bytes → Returns (parse wire bytes)
  unfolding parse parse_der
  parse-Returns bytes b =
      let (no_panic, enough) = ber2der_returns bytes b in
      Ensures-fail_if (length bytes == 0) _ λ some_bytes.
        Ensures->>= (with_error-Returns bad_ber (ber2der bytes) no_panic enough) λ der h.
          Ensures->>= (value_or-Returns (wire.unmarshal_content_info der) _) λ pair k.
            Ensures-fail_if (not (length pair.1 == 0)) _
              λ whole. parse_content-Returns pair.0.content_type pair.0.content.bytes

  -- `Parse` returns on every byte slice, with a message or an error: it does not panic, and the
  -- recursion of `ber2der` ends.
  pub parse_returns :
      (bytes : Bytes) → All IsByte bytes → (parse wire bytes ≢ panic) × (parse wire bytes ≢ stuck)
  parse_returns bytes b =
      (Ensures-ne-panic (parse-Returns bytes b), Ensures-ne-stuck (parse-Returns bytes b))

  -- Where the input is transcoded, it is not empty.
  pub parse-parse_der :
      (bytes der : Bytes) → ber2der bytes ≡ ok der → parse wire bytes ≡ parse_der wire der
  unfolding parse
  parse-parse_der [] der e = absurd (ber2der-nil der e)
  parse-parse_der (b ∷ bytes) der e = rw (suc-not_zero (length bytes), e) refl

  -- A message in BER is parsed as its DER is, which is shorter than 2 ^ 31 bytes.
  pub parse-ber2der :
      (bytes der : Bytes)
      → All IsByte bytes
      → ber2der bytes ≡ ok der
      → length der < 2 ^ 31
      → parse wire bytes ≡ parse wire der
  parse-ber2der bytes der b e small =
      parse-parse_der bytes der e
      ∙ sym (parse-parse_der der der (ber2der-ber2der bytes der b e small))

  -- A message without signers, whose parts are decoded.
  degenerate_lem :
      (info : ContentInfo) (raw : RawValue) (raw_cert inner out : Bytes) (certs : List Certificate)
      → wire.unmarshal_content_info out ≡ some (info, [])
      → info.content_type ≡ Oids.oid_signed_data
      → info.content.bytes ≡ inner
      → wire.unmarshal_signed_data inner ≡ some (no_signers raw_cert)
      → (length raw_cert == 0) ≡ false
      → wire.unmarshal_raw raw_cert ≡ some raw
      → wire.parse_certificates raw.bytes ≡ some certs
      → parse_der wire out
        ≡ ok (record {
          content = [];
          certificates = certs;
          crls = [];
          signers = [];
          raw = raw_signed (no_signers raw_cert);
        })
  unfolding parse_der parse_content parse_signed_data parse_raw_certificates compound_of content_of
      bytes_equal
  degenerate_lem info raw raw_cert inner out certs decoded type bytes sd full val known =
      rw (decoded, type, bytes, sd, full, val, known) refl

  -- What `DegenerateCertificate` writes, where it is DER of bounded length and nesting, is parsed to a
  -- message without content, signers and revocation lists that holds the certificates which crypto/x509
  -- reads of the bytes given.
  pub parse-degenerate_certificate :
      (laws : IsWire wire no_signers) (cert out : Bytes) (certs : List Certificate)
      → wire.parse_certificates cert ≡ some certs
      → degenerate_certificate wire cert ≡ ok out
      → IsDer out
      → (sd : SignedContent) × (parse wire out
          ≡ ok (record {
            content = [];
            certificates = certs;
            crls = [];
            signers = [];
            raw = raw_signed sd;
          }))
  unfolding degenerate_certificate marshal_certificate_bytes marshal_message
  parse-degenerate_certificate laws cert out certs known e der =
      let (raw_cert, h1, e1) =
        >>=-eq-ok (value_or (wire.marshal_raw (wrapped cert)) not_marshalled) _ e in
      let (inner, h2, e2) =
        >>=-eq-ok (value_or (wire.marshal_signed_data (no_signers raw_cert)) not_marshalled) _ e1 in
      let outer =
        value_or-eq-ok (wire.marshal_content_info (content_info_of Oids.oid_signed_data inner)) _
          e2 in
      let wrapper = value_or-eq-ok (wire.marshal_raw (wrapped cert)) _ h1 in
      let signed = value_or-eq-ok (wire.marshal_signed_data (no_signers raw_cert)) _ h2 in
      let some_raw = laws.raw_some cert raw_cert wrapper in
      let raw_in = laws.no_signers_longer cert raw_cert inner wrapper signed in
      let inner_in = laws.content_info_longer Oids.oid_signed_data inner out outer in
      let small = der.short in
      let (info, decoded, type, bytes) =
        laws.content_info_round Oids.oid_signed_data inner out (inl refl) outer (omega arith)
          small in
      let (raw, raw_decoded, raw_bytes) = laws.raw_round cert raw_cert wrapper (omega arith) in
      let same = (ber2der_iff out out der.are_bytes).1 der.element in
      (
        no_signers raw_cert,
        parse-parse_der out out same
            ∙ degenerate_lem info raw raw_cert inner out certs decoded type bytes
                (laws.no_signers_round cert raw_cert inner wrapper signed (omega arith))
                (some-not_zero _ some_raw) raw_decoded
                (ap wire.parse_certificates raw_bytes ∙ known),
      )
