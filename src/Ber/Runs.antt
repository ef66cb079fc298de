-- ===== src/Ber/Runs.antt =====
-- Concrete transcodings, and the theorems at concrete inputs.
use pkcs.Base.{
  slice_in, prefix_in, ◌+◌, ◌-◌, ◌*◌, ◌^◌, ◌≤◌, ◌<◌, ◌≡◌, ◌≢◌, ◌↔◌, refl, [], ◌∷◌, ◌++◌, Bytes,
  length, replicate, false, ok, err, panic, stuck, arith,
}
use pkcs.Ber.Transcode.{
  Transcodes, ber2der_returns, ber2der_iff, ber2der-ber2der, length-ber2der, ber2der-append,
}
use pkcs.Ber.LengthTrip.{read_length-encode_length}
use pkcs.Ber.LengthOctets.{length_length_digits}
use pkcs.Ber.Nesting.{opens, ber2der-opens}
use pkcs.Ber.Encode.{
  length_length, encode_length, marshal_long_length, marshal_long_length_loop, encode_to,
}
use pkcs.Ber.Decode.{
  ber2der, nesting_depth, read_object, goes_on, is_indefinite_termination, read_header, read_tag,
  skip_tag, read_length, read_long_length, top_octet, has_leading_zero, index, leading_zero,
  more_than_available, cannot_move,
}

-- An indefinite sequence of a NULL becomes a definite one; what follows it is dropped.
ber2der_indefinite :
    ber2der (0x30 ∷ 0x80 ∷ 0x05 ∷ 0x00 ∷ 0x00 ∷ 0x00 ∷ 0x77 ∷ [])
    ≡ ok (0x30 ∷ 0x02 ∷ 0x05 ∷ 0x00 ∷ [])
unfolding ber2der read_object slice_in prefix_in goes_on is_indefinite_termination read_header
    read_tag skip_tag read_length index encode_to encode_length
ber2der_indefinite = refl

ber2der_leading_zero : ber2der (0x04 ∷ 0x81 ∷ 0x00 ∷ []) ≡ err leading_zero
unfolding ber2der read_object slice_in prefix_in read_header read_tag read_length read_long_length
    top_octet has_leading_zero index
ber2der_leading_zero = refl

ber2der_short : ber2der (0x04 ∷ 0x05 ∷ 0x00 ∷ []) ≡ err more_than_available
unfolding ber2der read_object slice_in prefix_in read_header read_tag read_length read_long_length
    top_octet has_leading_zero index
ber2der_short = refl

ber2der_high_tag :
    ber2der (0x1f ∷ 0x81 ∷ 0x01 ∷ 0x01 ∷ 0xff ∷ []) ≡ ok (0x1f ∷ 0x81 ∷ 0x01 ∷ 0x01 ∷ 0xff ∷ [])
unfolding ber2der read_object slice_in prefix_in goes_on is_indefinite_termination read_header
    read_tag skip_tag read_length index encode_to encode_length
ber2der_high_tag = refl

encode_length_500 : encode_length [] 500 ≡ 0x82 ∷ 0x01 ∷ 0xf4 ∷ []
unfolding encode_length marshal_long_length marshal_long_length_loop length_length
encode_length_500 = refl

ber2der_cut : ber2der (0x30 ∷ []) ≡ err cannot_move
unfolding ber2der read_object slice_in prefix_in read_header read_tag read_length read_long_length
    top_octet has_leading_zero index
ber2der_cut = refl

abbrev octet_string : Bytes
octet_string = 0x04 ∷ []

abbrev message : Bytes
message = 0x30 ∷ 0x80 ∷ 0x05 ∷ 0x00 ∷ 0x00 ∷ 0x00 ∷ 0x77 ∷ []

abbrev transcoded : Bytes
transcoded = 0x30 ∷ 0x02 ∷ 0x05 ∷ 0x00 ∷ []

ber2der_returns_example : (ber2der message ≢ panic) × (ber2der message ≢ stuck)
ber2der_returns_example = ber2der_returns message (omega arith)

ber2der_iff_example : (ber2der message ≡ ok transcoded) ↔ Transcodes message transcoded
ber2der_iff_example = ber2der_iff message transcoded (omega arith)

ber2der-ber2der_example : ber2der transcoded ≡ ok transcoded
ber2der-ber2der_example =
    ber2der-ber2der message transcoded (omega arith) ber2der_indefinite (omega arith)

length-ber2der_example : length transcoded ≤ 3 * length message
length-ber2der_example =
    length-ber2der message transcoded (omega arith) (omega arith) ber2der_indefinite

ber2der-append_example : ber2der (message ++ 0x99 ∷ []) ≡ ok transcoded
ber2der-append_example =
    ber2der-append message (0x99 ∷ []) transcoded (omega arith) ber2der_indefinite

read_length-encode_length_example :
    read_length (octet_string ++ (encode_length [] 200 ++ replicate 200 7)) (length octet_string)
    ≡ ok (record {
      value = 200;
      indefinite = false;
      start = length octet_string + length (encode_length [] 200);
    })
read_length-encode_length_example =
    read_length-encode_length 200 octet_string (replicate 200 7) (omega arith) (omega arith)
      (omega arith)

length_length_digits_example :
    (1 ≤ length_length 500)
    × (500 < 2 ^ (length_length 500 * 8))
    × (0 < 500 → 2 ^ ((length_length 500 - 1) * 8) ≤ 500)
length_length_digits_example = length_length_digits 500

ber2der-opens_example : ber2der (opens 600 ++ transcoded) ≡ err nesting_depth
ber2der-opens_example = ber2der-opens 600 transcoded (omega arith) (omega arith)
