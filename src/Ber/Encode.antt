-- ===== src/Ber/Encode.antt =====
-- ber.go: `EncodeTo` of the two kinds of object, `encodeLength`, `marshalLongLength` and
-- `lengthLength`. A bytes.Buffer is the list of the bytes written; writing to it cannot fail.
use mathlib.Core.Logic.{dite}
use mathlib.Core.WellFounded.{Acc}
use native.Mathlib.Decide.{dec_lt}
use pkcs.Base.{ℕ, zero, suc, ◌+◌, ◌*◌, ◌/◌, ◌%◌, ◌^◌, ◌<◌, bit_or, [], ◌∷◌, ◌++◌, arith}
use pkcs.Base.{leb, if◌then◌else◌, length, Bytes}
use pkcs.Base.Loops.{lt_wf}

-- `asn1Object`: `asn1Primitive{tagBytes, length, content}` or `asn1Structured{tagBytes, content}`,
-- and the slice of objects inside the latter.
mutual
  pub data Object : Type 0 where
    primitive : Bytes → ℕ → Bytes → Object
    structured : Bytes → Objects → Object

  pub data Objects : Type 0 where
    no_objects : Objects
    object : Object → Objects → Objects

-- `for i > 255 { numBytes++; i >>= 8 }`
unfoldable pub length_length_loop : (i : ℕ) → ℕ → Acc ◌<◌ i → ℕ
length_length_loop i num_bytes (Acc.intro _ smaller) =
    dite (dec_lt 255 i)
      (λ more. length_length_loop (i / 256) (num_bytes + 1) (smaller (i / 256) (omega arith)))
      (λ _. num_bytes)

unfoldable pub length_length : ℕ → ℕ
unfolding length_length_loop lt_wf dec_lt
length_length i = length_length_loop i 1 (lt_wf.apply i)

-- `for ; n > 0; n-- { out.WriteByte(byte(i >> uint((n-1)*8))) }`
unfoldable pub marshal_long_length_loop : Bytes → ℕ → ℕ → Bytes
marshal_long_length_loop out i zero = out
marshal_long_length_loop out i (suc n) =
    marshal_long_length_loop (out ++ (i / 2 ^ (n * 8) % 256) ∷ []) i n

unfoldable pub marshal_long_length : Bytes → ℕ → Bytes
marshal_long_length out i = marshal_long_length_loop out i (length_length i)

unfoldable pub encode_length : Bytes → ℕ → Bytes
encode_length out n =
    if leb 128 n
    then marshal_long_length (out ++ bit_or 0x80 (length_length n % 256) ∷ []) n
    else out ++ (n % 256) ∷ []

-- A structured object writes its content to a buffer of its own, `inner`, whose length it needs.
unfoldable mutual
  pub encode_to : Object → Bytes → Bytes
  encode_to (primitive tag_bytes n content) out = encode_length (out ++ tag_bytes) n ++ content
  encode_to (structured tag_bytes content) out =
      let inner = encode_all content [] in encode_length (out ++ tag_bytes) (length inner) ++ inner

  pub encode_all : Objects → Bytes → Bytes
  encode_all no_objects inner = inner
  encode_all (object obj objs) inner = encode_all objs (encode_to obj inner)
