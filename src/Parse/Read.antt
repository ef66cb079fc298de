-- ===== src/Parse/Read.antt =====
-- pkcs7.go `Parse`, `parseEnvelopedData`, `parseEncryptedData` and `rawCertificates.Parse`; verify.go
-- `parseSignedData`.
use pkcs.Base.{
  not, ◌==◌, if◌then◌else◌, List, [], length, Bytes, Outcome, ok, err, ◌>>=◌, ◌>>◌, fail_if,
  value_or, with_error,
}
use pkcs.Ber.Decode.{Error, ber2der}
use pkcs.Algorithms.Oids
use pkcs.Algorithms.Oids.{Oid, equal}
use pkcs.Algorithms.Keys.{RawValue}
use pkcs.Message.Types.{Certificate}
use pkcs.Message.Certificates.{raw_full}
use pkcs.Message.Pkcs7.{raw_signed, raw_enveloped, raw_encrypted, Pkcs7}
use pkcs.Parse.Wire.{Wire}

pub data ParseError : Type 0 where
  empty_input not_decoded trailing_data unsupported_content_type : ParseError
  bad_ber : Error → ParseError

-- `var compound asn1.RawValue`
abbrev pub no_value : RawValue
no_value = raw_full []

module _ (wire : Wire) where
  -- `rawCertificates.Parse`
  unfoldable pub parse_raw_certificates : Bytes → Outcome ParseError (List Certificate)
  parse_raw_certificates raw = if length raw == 0 then ok [] else (do
    val ← value_or (wire.unmarshal_raw raw) not_decoded
    value_or (wire.parse_certificates val.bytes) not_decoded)

  -- The value in the content, or the zero value where the content is empty.
  unfoldable pub compound_of : Bytes → Outcome ParseError RawValue
  compound_of bytes =
      if length bytes == 0 then ok no_value else value_or (wire.unmarshal_raw bytes) not_decoded

  -- The first part of a constructed octet string, or the bytes of the value.
  unfoldable pub content_of : RawValue → Outcome ParseError Bytes
  content_of compound =
      if compound.is_compound
      then (if compound.tag == 4
          then value_or (wire.unmarshal_octets compound.bytes) not_decoded
          else ok compound.bytes)
      else ok compound.bytes

  unfoldable pub parse_signed_data : Bytes → Outcome ParseError Pkcs7
  parse_signed_data bytes = do
    sd ← value_or (wire.unmarshal_signed_data bytes) not_decoded
    certs ← parse_raw_certificates sd.certificates
    compound ← compound_of sd.content_info.content.bytes
    content ← content_of compound
    ok (record {
      content = content;
      certificates = certs;
      crls = sd.crls;
      signers = sd.signer_infos;
      raw = raw_signed sd;
    })

  unfoldable pub parse_enveloped_data : Bytes → Outcome ParseError Pkcs7
  parse_enveloped_data bytes = do
    ed ← value_or (wire.unmarshal_enveloped_data bytes) not_decoded
    ok (record { content = []; certificates = []; crls = []; signers = []; raw = raw_enveloped ed })

  unfoldable pub parse_encrypted_data : Bytes → Outcome ParseError Pkcs7
  parse_encrypted_data bytes = do
    ed ← value_or (wire.unmarshal_encrypted_data bytes) not_decoded
    ok (record { content = []; certificates = []; crls = []; signers = []; raw = raw_encrypted ed })

  -- The switch on the content type.
  unfoldable pub parse_content : Oid → Bytes → Outcome ParseError Pkcs7
  parse_content oid bytes =
      if equal oid Oids.oid_signed_data
      then parse_signed_data bytes
      else if equal oid Oids.oid_enveloped_data
      then parse_enveloped_data bytes
      else if equal oid Oids.oid_encrypted_data
      then parse_encrypted_data bytes
      else err unsupported_content_type

  -- `Parse`, from `asn1.Unmarshal` on.
  unfoldable pub parse_der : Bytes → Outcome ParseError Pkcs7
  parse_der der = do
    (info, rest) ← value_or (wire.unmarshal_content_info der) not_decoded
    fail_if (not (length rest == 0)) trailing_data
    parse_content info.content_type info.content.bytes

  unfoldable pub parse : Bytes → Outcome ParseError Pkcs7
  parse bytes = do
    fail_if (length bytes == 0) empty_input
    der ← with_error bad_ber (ber2der bytes)
    parse_der der
