-- ===== src/Parse/Write.antt =====
-- sign.go `Finish`, `marshalCertificates`, `marshalCertificateBytes` and `DegenerateCertificate`.
use pkcs.Base.{List, [], ◌∷◌, ◌++◌, Bytes, Outcome, ok, err, panic, stuck, ◌>>=◌, value_or}
use pkcs.Algorithms.Oids
use pkcs.Message.Types.{Certificate, SignedContent}
use pkcs.Message.Certificates.{raw_full}
use pkcs.Parse.Wire.{Wire, wrapped, content_info_of}
use pkcs.Sign.Monad.{SignError, not_marshalled, Action}
use pkcs.Sign.State.{with_sd}

-- `buf.Write(cert.Raw)` for each certificate.
unfoldable pub raw_bytes : List Certificate → Bytes
raw_bytes [] = []
raw_bytes (cert ∷ certs) = cert.raw ++ raw_bytes certs

-- `signedData{…}` of `DegenerateCertificate`.
abbrev pub no_signers : Bytes → SignedContent
no_signers certs = record {
  version = 1;
  digest_algorithm_identifiers = [];
  content_info = record { content_type = Oids.oid_data; content = raw_full [] };
  certificates = certs;
  crls = [];
  signer_infos = [];
}

-- The result where the error is dropped.
abbrev pub or_empty : Outcome SignError Bytes → Bytes
or_empty (ok bytes) = bytes
or_empty (err e) = []
or_empty panic = []
or_empty stuck = []

module _ (wire : Wire) where
  unfoldable pub marshal_certificate_bytes : Bytes → Outcome SignError Bytes
  marshal_certificate_bytes certs = value_or (wire.marshal_raw (wrapped certs)) not_marshalled

  unfoldable pub marshal_certificates : List Certificate → Bytes
  marshal_certificates certs = or_empty (marshal_certificate_bytes (raw_bytes certs))

  -- The encoding of a signed message.
  unfoldable pub marshal_message : SignedContent → Outcome SignError Bytes
  marshal_message sd = do
    inner ← value_or (wire.marshal_signed_data sd) not_marshalled
    value_or (wire.marshal_content_info (content_info_of Oids.oid_signed_data inner)) not_marshalled

  unfoldable pub finish : Action Bytes
  finish s =
      let t = with_sd (λ sd. record sd { certificates = marshal_certificates s.certs }) s in
      (t, marshal_message t.sd)

  unfoldable pub degenerate_certificate : Bytes → Outcome SignError Bytes
  degenerate_certificate cert = do
    raw_cert ← marshal_certificate_bytes cert
    marshal_message (no_signers raw_cert)
