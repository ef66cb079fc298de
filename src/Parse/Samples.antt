-- ===== src/Parse/Samples.antt =====
-- A DER element, and an encoder of one value, for runs.
use pkcs.Base.{
  slice_in, prefix_in, ◌≡◌, refl, Bool, true, false, ◌&&◌, if◌then◌else◌, Option, none, some, [],
  ◌∷◌, Bytes, All, IsByte, ok, arith, index,
}
use pkcs.Subtle.{bytes_equal}
use pkcs.Algorithms.Oids
use pkcs.Algorithms.Oids.{equal}
use pkcs.Verify.Samples.{small_cert}
use pkcs.Parse.Wire.{Wire, IsDer, wrapped, content_info_of}
use pkcs.Parse.Write.{no_signers}
use pkcs.Ber.Transcode.{ber2der_iff}
use pkcs.Ber.Encode.{encode_to, encode_length}
use pkcs.Ber.Decode.{ber2der, read_object, read_header, read_tag, read_length}

-- An octet string of one byte.
abbrev pub small_der : Bytes
small_der = 4 ∷ 1 ∷ 7 ∷ []

abbrev pub when : Bool → Bytes → Option Bytes
when b bytes = if b then some bytes else none

pub when-some :
    (b : Bool) (bytes out : Bytes) → when b bytes ≡ some out → (b ≡ true) × (bytes ≡ out)
when-some true bytes out e = (refl, cc)
when-some false bytes out e = cc

pub small_der-IsByte : All IsByte small_der
small_der-IsByte = omega arith

pub transcodes_small : ber2der small_der ≡ ok small_der
unfolding ber2der read_object slice_in prefix_in read_header read_tag index read_length encode_to
    encode_length
transcodes_small = refl

pub both : (a b : Bool) → (a && b) ≡ true → (a ≡ true) × (b ≡ true)
both true b e = (refl, e)
both false b e = cc

abbrev pub small_wire : Wire
small_wire = record {
  unmarshal_content_info = λ bytes. some (content_info_of Oids.oid_signed_data (1 ∷ []), []);
  unmarshal_signed_data = λ bytes. some (no_signers (9 ∷ []));
  unmarshal_enveloped_data = λ bytes. none;
  unmarshal_encrypted_data = λ bytes. none;
  unmarshal_raw = λ bytes. some (wrapped (5 ∷ []));
  unmarshal_octets = λ bytes. none;
  parse_certificates = λ bytes. some (small_cert ∷ []);
  marshal_content_info = λ info.
      when (equal info.content_type Oids.oid_signed_data && bytes_equal info.content.bytes (1 ∷ []))
        small_der;
  marshal_signed_data = λ sd. when (bytes_equal sd.certificates (9 ∷ [])) (1 ∷ []);
  marshal_enveloped_data = λ ed. none;
  marshal_encrypted_data = λ ed. none;
  marshal_raw = λ raw. when (bytes_equal raw.bytes (5 ∷ [])) (9 ∷ []);
}

pub small_der-IsDer : IsDer small_der
small_der-IsDer = record {
  are_bytes = small_der-IsByte;
  element = (ber2der_iff small_der small_der small_der-IsByte).0 transcodes_small;
  short = omega arith;
}
