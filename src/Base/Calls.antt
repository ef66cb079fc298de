-- ===== src/Base/Calls.antt =====
-- What a Go call ends in: a value, an error of type E, a run-time panic (an index out of range), or
-- `stuck`, which is no Go value: the model's fuel ran out.
use mathlib.Core.Path.{◌≡◌, refl, subst}
use mathlib.Core.Logic.{◌≢◌}
use pkcs.Base.Tests.{if◌then◌else◌, leb, le→leb}
use Prim.Native.Nat.{ℕ, ◌≤◌}
use mathlib.Core.List.{List}
use mathlib.Core.Option.{Option, none, some}
use pkcs.Base.Lists.{get_elem?, Bytes, slice, take, length}
use mathlib.Core.Bool.{Bool, true, false, ◌&&◌}

pub data Outcome (E : Type 0) (A : Type 0) : Type 0 where
  ok : A → Outcome E A
  err : E → Outcome E A
  panic : Outcome E A
  stuck : Outcome E A

infixl 5 ◌>>=◌ ◌>>◌
abbrev pub ◌>>=◌ : {E A B : Type 0} → Outcome E A → (A → Outcome E B) → Outcome E B
panic >>= rest = panic
stuck >>= rest = stuck
err e >>= rest = err e
ok value >>= rest = rest value

abbrev pub ◌>>◌ : {E B : Type 0} → Outcome E (Unit {0}) → Outcome E B → Outcome E B
call >> rest = call >>= λ _. rest

-- `if test { return nil, e }`
abbrev pub fail_if : {E : Type 0} → Bool → E → Outcome E (Unit {0})
fail_if true e = err e
fail_if false e = ok tt

-- The value of an optional result, and the error where it is absent.
abbrev pub value_or : {E A : Type 0} → Option A → E → Outcome E A
value_or none e = err e
value_or (some a) e = ok a

-- An error of a callee that the caller returns.
abbrev pub with_error : {E F A : Type 0} → (E → F) → Outcome E A → Outcome F A
with_error f (ok a) = ok a
with_error f (err e) = err (f e)
with_error f panic = panic
with_error f stuck = stuck

-- `xs[i]`
unfoldable pub index : {E A : Type 0} → List A → ℕ → Outcome E A
index xs i = elim (get_elem? xs i) [ none ↦ panic | some x ↦ ok x ]

-- What Go does at run time: it panics unless the test holds.
abbrev pub panic_unless : {E : Type 0} → Bool → Outcome E (Unit {0})
panic_unless true = ok tt
panic_unless false = panic

-- `bs[low:high]`, which panics unless low ≤ high ≤ len(bs). (Go admits a high up to the capacity.)
unfoldable pub slice_in : {E : Type 0} → Bytes → ℕ → ℕ → Outcome E Bytes
slice_in bs low high = panic_unless (leb low high && leb high (length bs)) >> ok (slice bs low high)

-- `bs[:high]`
unfoldable pub prefix_in : {E : Type 0} → Bytes → ℕ → Outcome E Bytes
prefix_in bs high = panic_unless (leb high (length bs)) >> ok (take high bs)

pub slice_in-slice :
    {E : Type 0} (bs : Bytes) (low high : ℕ)
    → low ≤ high
    → high ≤ length bs
    → slice_in {E = E} bs low high ≡ ok (slice bs low high)
unfolding slice_in
slice_in-slice bs low high h k = rw (le→leb low high h, le→leb high (length bs) k) refl

pub prefix_in-take :
    {E : Type 0} (bs : Bytes) (high : ℕ)
    → high ≤ length bs
    → prefix_in {E = E} bs high ≡ ok (take high bs)
unfolding prefix_in
prefix_in-take bs high h = rw (le→leb high (length bs) h) refl

-- The call returns, with a value that satisfies P or with an error: no panic, and enough fuel.
pub data Ensures {E A : Type 0} (P : A → Type 0) : Outcome E A → Type 0 where
  holds : {a : A} → P a → Ensures P (ok a)
  rejected : {e : E} → Ensures P (err e)

module _ {E A : Type 0} {P : A → Type 0} where
  pub Ensures-ok : {r : Outcome E A} {a : A} → Ensures P r → r ≡ ok a → P a
  Ensures-ok (holds h) e = subst P (cc) h
  Ensures-ok rejected e = cc

  pub Ensures-ne-panic : {r : Outcome E A} → Ensures P r → r ≢ panic
  Ensures-ne-panic (holds h) = cc
  Ensures-ne-panic rejected = cc

  pub Ensures-ne-stuck : {r : Outcome E A} → Ensures P r → r ≢ stuck
  Ensures-ne-stuck (holds h) = cc
  Ensures-ne-stuck rejected = cc

  pub Ensures->>= :
      {B : Type 0} {Q : B → Type 0} {r : Outcome E A} {f : A → Outcome E B}
      → Ensures P r
      → ((a : A) → P a → Ensures Q (f a))
      → Ensures Q (r >>= f)
  Ensures->>= (holds {a} h) k = k a h
  Ensures->>= rejected k = rejected

  pub Ensures-map :
      {Q : A → Type 0} {r : Outcome E A} → ((a : A) → P a → Q a) → Ensures P r → Ensures Q r
  Ensures-map k (holds {a} h) = holds (k a h)
  Ensures-map k rejected = rejected

module _ {E A : Type 0} {P : A → Type 0} where
  pub Ensures-fail_if :
      (b : Bool) (e : E) {r : Outcome E A}
      → (b ≡ false → Ensures P r)
      → Ensures P (fail_if b e >> r)
  Ensures-fail_if true e h = rejected
  Ensures-fail_if false e h = h refl

  pub Ensures-if :
      (b : Bool) {r s : Outcome E A}
      → (b ≡ true → Ensures P r)
      → (b ≡ false → Ensures P s)
      → Ensures P (if b then r else s)
  Ensures-if true h k = h refl
  Ensures-if false h k = k refl

pub Ensures-panic_unless :
    {E A : Type 0} {P : A → Type 0} (b : Bool) {r : Outcome E A}
    → b ≡ true
    → Ensures P r
    → Ensures P (panic_unless b >> r)
Ensures-panic_unless true e h = h
Ensures-panic_unless false e h = cc

pub Ensures-fail_if_end :
    {E : Type 0} {P : Unit {0} → Type 0} (b : Bool) (e : E)
    → (b ≡ false → P tt)
    → Ensures P (fail_if b e)
Ensures-fail_if_end true e h = rejected
Ensures-fail_if_end false e h = holds (h refl)

pub value_or-Ensures :
    {E A : Type 0} (r : Option A) (e : E) → Ensures (λ (a : A). r ≡ some a) (value_or r e)
value_or-Ensures none e = rejected
value_or-Ensures (some a) e = holds refl

-- A call that succeeds, and the one in it whose value is used.
pub >>=-eq-ok :
    {E A B : Type 0} (call : Outcome E A) (rest : A → Outcome E B) {value : B}
    → (call >>= rest) ≡ ok value
    → (first : A) × (call ≡ ok first) × (rest first ≡ ok value)
>>=-eq-ok panic rest success = cc
>>=-eq-ok stuck rest success = cc
>>=-eq-ok (err e) rest success = cc
>>=-eq-ok (ok first) rest success = (first, refl, success)

pub fail_if-eq-ok : {E : Type 0} (b : Bool) (e : E) → fail_if b e ≡ ok tt → b ≡ false
fail_if-eq-ok true e h = cc
fail_if-eq-ok false e h = refl

pub value_or-eq-ok :
    {E A : Type 0} (r : Option A) (e : E) {a : A} → value_or r e ≡ ok a → r ≡ some a
value_or-eq-ok none e h = cc
value_or-eq-ok (some a) e h = cc

pub ok_injective : {E A : Type 0} {a b : A} → ◌≡◌ {A = Outcome E A} (ok a) (ok b) → a ≡ b
ok_injective h = cc

pub with_error-eq-ok :
    {E F A : Type 0} (f : E → F) (r : Outcome E A) {a : A} → with_error f r ≡ ok a → r ≡ ok a
with_error-eq-ok f (ok a) h = cc
with_error-eq-ok f (err e) h = cc
with_error-eq-ok f panic h = cc
with_error-eq-ok f stuck h = cc
