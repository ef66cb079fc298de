-- ===== src/Ber/Grammar.antt =====
-- BER as a grammar, with no offsets: which bytes encode an object. This is the specification of the
-- reader of ber.go, in the forms of X.690 that the program admits.
use pkcs.Base.{ℕ, suc, ◌+◌, ◌/◌, ◌%◌, ◌^◌, ◌≤◌, ◌<◌, ◌≡◌, ◌≢◌, [], ◌∷◌, ◌++◌}
use pkcs.Base.{Bool, true, false, length, Bytes}
pub use pkcs.Base.BigEndian.{big_endian}
use pkcs.Ber.Encode.{Object, Objects, primitive, structured, no_objects, object}

-- The tail of a tag in the high form: bytes from 128 on, then one below.
abbrev pub IsHighTag : Bytes → Type 0
IsHighTag [] = ⊥
IsHighTag (b ∷ []) = b < 128
IsHighTag (b ∷ c ∷ bs) = (128 ≤ b) × IsHighTag (c ∷ bs)

-- The octets of a tag: one byte, or a byte that ends in five ones and a high form.
abbrev pub IsTag : Bytes → Type 0
IsTag [] = ⊥
IsTag (b ∷ []) = b % 32 ≢ 31
IsTag (b ∷ c ∷ bs) = (b % 32 ≡ 31) × IsHighTag (c ∷ bs)

-- Bit 6 of the first octet.
abbrev pub IsPrimitive : Bytes → Type 0
IsPrimitive [] = ⊥
IsPrimitive (b ∷ bs) = b / 32 % 2 ≡ 0

abbrev pub IsConstructed : Bytes → Type 0
IsConstructed [] = ⊥
IsConstructed (b ∷ bs) = b / 32 % 2 ≡ 1

-- The program refuses a first octet 0 if it stands alone or before an octet below 128.
abbrev pub NoLeadingZero : Bytes → Type 0
NoLeadingZero [] = ⊥
NoLeadingZero (b ∷ []) = b ≢ 0
NoLeadingZero (b ∷ c ∷ bs) = b ≡ 0 → 128 ≤ c

-- The octets of a definite length.
pub data LengthOf (n : ℕ) : Bytes → Type 0 where
  short : {ls : Bytes} → n < 128 → ls ≡ n ∷ [] → LengthOf n ls
  long :
      {ls : Bytes} (bs : Bytes)
      → length bs ≤ 4
      → NoLeadingZero bs
      → n < 2 ^ 31
      → big_endian 0 bs ≡ n
      → ls ≡ (128 + length bs) ∷ bs
      → LengthOf n ls

-- The end-of-contents octets.
abbrev pub end_of_contents : Bytes
end_of_contents = 0 ∷ 0 ∷ []

-- In the indefinite form an object must not look like the end of the contents.
abbrev pub IsUnambiguous : Bool → Bytes → Type 0
IsUnambiguous false bs = Unit {0}
IsUnambiguous true [] = Unit {0}
IsUnambiguous true (b ∷ []) = Unit {0}
IsUnambiguous true (b ∷ c ∷ bs) = b ≡ 0 → c ≢ 0

-- `Encodes levels obj bs`: the bytes encode the object, which nests at most `levels` deep.
mutual
  pub data Encodes : ℕ → Object → Bytes → Type 0 where
    primitive_form :
        {levels n : ℕ} {tag content bs : Bytes} (ls : Bytes)
        → IsTag tag
        → IsPrimitive tag
        → n ≡ length content
        → LengthOf n ls
        → bs ≡ tag ++ (ls ++ content)
        → Encodes (suc levels) (primitive tag n content) bs
    definite_form :
        {levels : ℕ} {tag bs : Bytes} {objs : Objects} (ls content : Bytes)
        → IsTag tag
        → IsConstructed tag
        → LengthOf (length content) ls
        → EncodesAll levels false objs content
        → bs ≡ tag ++ (ls ++ content)
        → Encodes (suc levels) (structured tag objs) bs
    indefinite_form :
        {levels : ℕ} {tag bs : Bytes} {objs : Objects} (content : Bytes)
        → IsTag tag
        → IsConstructed tag
        → EncodesAll levels true objs content
        → bs ≡ tag ++ (128 ∷ content ++ end_of_contents)
        → Encodes (suc levels) (structured tag objs) bs

  pub data EncodesAll : ℕ → Bool → Objects → Bytes → Type 0 where
    none_left :
        {levels : ℕ} {open_form : Bool} {bs : Bytes}
        → bs ≡ []
        → EncodesAll levels open_form no_objects bs
    one_more :
        {levels : ℕ} {open_form : Bool} {obj : Object} {objs : Objects} {bs : Bytes}
        (first rest : Bytes)
        → Encodes levels obj first
        → IsUnambiguous open_form first
        → EncodesAll levels open_form objs rest
        → bs ≡ first ++ rest
        → EncodesAll levels open_form (object obj objs) bs
