-- ===== src/Ber/LengthTrip.antt =====
-- ber.go, `encodeLength` against the length part of `readObject`.
use pkcs.Base.{ℕ, ◌+◌, ◌^◌, ◌≤◌, ◌<◌, ◌≡◌, refl, sym, subst, [], ◌++◌}
use pkcs.Base.{false, length, Bytes, IsByte, All, All-append, ok}
use pkcs.Ber.Encode.{encode_length}
use pkcs.Ber.Decode.{read_length}
use pkcs.Ber.Grammar.{LengthOf}
use pkcs.Ber.LengthOctets.{encoded}
use pkcs.Ber.LengthRun.{read_length_run}

encode_length-LengthOf : (n : ℕ) → n < 2 ^ 31 → LengthOf n (encode_length [] n)
encode_length-LengthOf n small =
    let e = encoded n small in subst (λ (t : Bytes). LengthOf n t) (sym (e.appends [])) e.form

encode_length-IsByte : (n : ℕ) → n < 2 ^ 31 → All IsByte (encode_length [] n)
encode_length-IsByte n small =
    let e = encoded n small in subst (λ (t : Bytes). All IsByte t) (sym (e.appends [])) e.bytes

-- A length below 2 ^ 31 that `encodeLength` has written is read back, behind any bytes, if that
-- many bytes follow it; the reader then stands behind it.
pub read_length-encode_length :
    (n : ℕ) (before ys : Bytes)
    → n < 2 ^ 31
    → All IsByte ys
    → n ≤ length ys
    → read_length (before ++ (encode_length [] n ++ ys)) (length before)
      ≡ ok (record {
        value = n;
        indefinite = false;
        start = length before + length (encode_length [] n);
      })
read_length-encode_length n before ys small bytes room =
    read_length_run _ (length before) n (encode_length [] n) ys
      (record {
        before = before;
        split = refl;
        here = refl;
        bytes = All-append IsByte (encode_length [] n) ys (encode_length-IsByte n small) bytes;
      })
      (encode_length-LengthOf n small) room
