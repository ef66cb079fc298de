-- ===== src/Ber/Loop.antt =====
-- ber.go, the loop of `readObject` over the sub-objects: when it goes on.
use pkcs.Base.{ℕ, ◌+◌, ◌≤◌, ◌<◌, ◌≡◌, refl, ap, [], ◌∷◌}
use pkcs.Base.{
  Bool, true, false, not, ltb, ◌==◌, if◌then◌else◌, length, Bytes, ok, err, arith, lengths,
}
use pkcs.Base.{Ensures, holds, rejected}
use pkcs.Ber.Decode.{invalid_format, is_indefinite_termination, goes_on}
use pkcs.Ber.Grammar.{
  Encodes, IsTag, LengthOf, short, long, primitive_form, definite_form, indefinite_form,
}
use pkcs.Ber.Encode.{Object}
use pkcs.Ber.Cursor.{At, At-next, At-length, index-At}

pub IsTag-length : (tag : Bytes) → IsTag tag → 1 ≤ length tag
IsTag-length [] h = absurd h
IsTag-length (b ∷ bs) h = omega arith

pub LengthOf-length : (n : ℕ) (ls : Bytes) → LengthOf n ls → 1 ≤ length ls
LengthOf-length n ls (short h e) = omega (arith, ap length e)
LengthOf-length n ls (long bs few minimal small writes e) = omega (arith, ap length e)

-- An object takes two bytes at least.
pub Encodes-length :
    (levels : ℕ) (obj : Object) (bs : Bytes) → Encodes levels obj bs → 2 ≤ length bs
Encodes-length levels obj bs (primitive_form {n = n} {tag} {content} ls form kind e size whole) =
    omega (lengths, ap length whole, IsTag-length tag form, LengthOf-length n ls size)
Encodes-length levels obj bs (definite_form {tag = tag} ls content form kind size all whole) =
    omega
      (lengths, ap length whole, IsTag-length tag form, LengthOf-length (length content) ls size)
Encodes-length levels obj bs (indefinite_form {tag = tag} content form kind all whole) =
    omega (lengths, ap length whole, IsTag-length tag form)

pub goes_on-definite :
    (ber : Bytes) (offset end : ℕ) → goes_on ber offset end false ≡ ok (ltb offset end)
unfolding goes_on
goes_on-definite ber offset end = ground arith

is_indefinite_termination_lem :
    (ber : Bytes) (offset b c : ℕ) (ys : Bytes)
    → At ber offset (b ∷ c ∷ ys)
    → is_indefinite_termination ber offset ≡ ok (if b == 0 then c == 0 else false)
unfolding is_indefinite_termination
is_indefinite_termination_lem ber offset b c ys at =
    let at' = At-next ber offset b (c ∷ ys) at in
    rw (index-At ber offset b (c ∷ ys) at, index-At ber (offset + 1) c ys at')
      (ground (arith, At-length ber offset (b ∷ c ∷ ys) at))

pub goes_on-indefinite :
    (ber : Bytes) (offset end b c : ℕ) (ys : Bytes)
    → At ber offset (b ∷ c ∷ ys)
    → goes_on ber offset end true ≡ ok (not (if b == 0 then c == 0 else false))
unfolding goes_on
goes_on-indefinite ber offset end b c ys at =
    ground (arith, is_indefinite_termination_lem ber offset b c ys at)

goes_on_short :
    (ber : Bytes) (offset end : ℕ)
    → length ber < offset + 2
    → goes_on ber offset end true ≡ err invalid_format
unfolding goes_on is_indefinite_termination
goes_on_short ber offset end h = ground arith

-- What a successful test of the indefinite form has seen: two bytes more.
pub record TwoSeen (xs : Bytes) (more : Bool) : Type 0 where
  pub b : ℕ
  pub c : ℕ
  pub back : Bytes
  pub whole : xs ≡ b ∷ c ∷ back
  pub test : more ≡ not (if b == 0 then c == 0 else false)

-- With fewer than two bytes left the indefinite form is an error.
pub goes_on-Ensures :
    (ber : Bytes) (offset end : ℕ) (xs : Bytes)
    → At ber offset xs
    → Ensures (TwoSeen xs) (goes_on ber offset end true)
goes_on-Ensures ber offset end [] at =
    rw (goes_on_short ber offset end (omega (arith, At-length ber offset [] at))) rejected
goes_on-Ensures ber offset end (x ∷ []) at =
    rw (goes_on_short ber offset end (omega (arith, At-length ber offset (x ∷ []) at))) rejected
goes_on-Ensures ber offset end (x ∷ y ∷ ys) at =
    rw (goes_on-indefinite ber offset end x y ys at)
      (holds (record { b = x; c = y; back = ys; whole = refl; test = refl }))
