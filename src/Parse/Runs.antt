-- ===== src/Parse/Runs.antt =====
-- Runs of `Parse` and `DegenerateCertificate` at concrete inputs, with an encoding of one message.
use pkcs.Base.{
  slice_in, prefix_in, ◌≡◌, ◌≢◌, refl, sym, ap, some, [], ◌∷◌, length, Bytes, ok, panic, stuck,
  arith, index,
}
use pkcs.Subtle.{bytes_equal, bytes_equal→eq}
use pkcs.Ber.Encode.{encode_to, encode_length}
use pkcs.Ber.Decode.{
  ber2der, read_object, goes_on, is_indefinite_termination, read_header, read_tag, skip_tag,
  read_length,
}
use pkcs.Algorithms.Oids
use pkcs.Algorithms.Oids.{Oid, equal}
use pkcs.Message.Types.{SignedContent}
use pkcs.Message.Pkcs7.{raw_signed}
use pkcs.Verify.Samples.{small_cert}
use pkcs.Parse.Wire.{IsWire, wrapped, content_info_of}
use pkcs.Parse.Read.{parse}
use pkcs.Parse.Write.{
  no_signers, marshal_certificate_bytes, marshal_message, degenerate_certificate,
}
use pkcs.Parse.Samples.{small_wire, small_der-IsDer, small_der, when-some, both}
use pkcs.Parse.Laws.{parse_returns, parse-ber2der, parse-degenerate_certificate}

small_wire-IsWire : IsWire small_wire no_signers
small_wire-IsWire = record {
  content_info_round = λ oid inner out _ e _ _.
      let (type, bytes) =
        both (equal oid Oids.oid_signed_data) (bytes_equal inner (1 ∷ []))
          (when-some _ small_der out e).0 in
      (
        content_info_of Oids.oid_signed_data (1 ∷ []),
        refl,
        sym (bytes_equal→eq oid Oids.oid_signed_data type),
        sym (bytes_equal→eq inner (1 ∷ []) bytes),
      );
  content_info_longer = λ oid inner out e.
      let (here, same) = when-some _ small_der out e in
      let (type, bytes) = both (equal oid Oids.oid_signed_data) (bytes_equal inner (1 ∷ [])) here in
      let three = ap length same in
      let one = ap length (bytes_equal→eq inner (1 ∷ []) bytes) in omega arith;
  no_signers_round = λ cert certs out _ e _.
      ap (λ c. some (no_signers c))
        (sym (bytes_equal→eq certs (9 ∷ []) (when-some _ (1 ∷ []) out e).0));
  no_signers_longer = λ cert certs out _ e.
      let (here, same) = when-some _ (1 ∷ []) out e in
      let whole = ap length same in
      let one = ap length (bytes_equal→eq certs (9 ∷ []) here) in omega arith;
  raw_round = λ inner out e _.
      (wrapped (5 ∷ []), refl, sym (bytes_equal→eq inner (5 ∷ []) (when-some _ (9 ∷ []) out e).0));
  raw_some = λ inner out e. let one = ap length (when-some _ (9 ∷ []) out e).1 in omega arith;
}

writes_small : degenerate_certificate small_wire (5 ∷ []) ≡ ok small_der
unfolding degenerate_certificate marshal_certificate_bytes marshal_message bytes_equal
writes_small = refl

parse-degenerate_certificate_example :
    (sd : SignedContent) × (parse small_wire small_der
      ≡ ok (record {
        content = [];
        certificates = small_cert ∷ [];
        crls = [];
        signers = [];
        raw = raw_signed sd;
      }))
parse-degenerate_certificate_example =
    parse-degenerate_certificate small_wire small_wire-IsWire (5 ∷ []) small_der (small_cert ∷ [])
      refl writes_small small_der-IsDer

parse_returns_example :
    (parse small_wire (0x30 ∷ 0x80 ∷ []) ≢ panic) × (parse small_wire (0x30 ∷ 0x80 ∷ []) ≢ stuck)
parse_returns_example = parse_returns small_wire (0x30 ∷ 0x80 ∷ []) (omega arith)

-- A sequence of unknown length.
abbrev small_ber : Bytes
small_ber = 0x30 ∷ 0x80 ∷ 0x05 ∷ 0x00 ∷ 0x00 ∷ 0x00 ∷ []

transcodes_ber : ber2der small_ber ≡ ok (0x30 ∷ 0x02 ∷ 0x05 ∷ 0x00 ∷ [])
unfolding ber2der read_object slice_in prefix_in goes_on is_indefinite_termination read_header
    read_tag skip_tag read_length index encode_to encode_length
transcodes_ber = refl

parse-ber2der_example :
    parse small_wire small_ber ≡ parse small_wire (0x30 ∷ 0x02 ∷ 0x05 ∷ 0x00 ∷ [])
parse-ber2der_example =
    parse-ber2der small_wire small_ber (0x30 ∷ 0x02 ∷ 0x05 ∷ 0x00 ∷ []) (omega arith) transcodes_ber
      (omega arith)
