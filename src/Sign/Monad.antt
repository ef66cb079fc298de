-- ===== src/Sign/Monad.antt =====
-- A method of `SignedData`: it changes the state, and it ends in a value or an error.
use pkcs.Base.{List, Bytes, Option, Outcome, ok, err, panic, stuck}
use pkcs.Algorithms.Oids.{Oid}
use pkcs.Algorithms.Choose.{AlgorithmError}
use pkcs.Attributes.Marshal.{AttributeError}
use pkcs.Message.Types.{Certificate, SignedContent}

-- `SignedData`
pub record SignedData : Type 0 where
  pub sd : SignedContent
  pub certs : List Certificate
  pub content : Bytes
  pub message_digest : Bytes
  pub digest_oid : Oid
  pub encryption_oid : Option Oid

pub data SignError : Type 0 where
  bad_algorithm : AlgorithmError → SignError
  bad_attributes : AttributeError → SignError
  no_parents bad_parent not_signed not_marshalled : SignError

abbrev pub Action : Type 0 → Type 0
Action A = SignedData → SignedData × Outcome SignError A

-- What follows a call, by how it ended.
unfoldable pub after :
    {A B : Type 0}
    → (A → Action B)
    → SignedData × Outcome SignError A
    → SignedData × Outcome SignError B
after f (s, ok a) = f a s
after f (s, err e) = (s, err e)
after f (s, panic) = (s, panic)
after f (s, stuck) = (s, stuck)

abbrev pub ◌>>=◌ : {A B : Type 0} → Action A → (A → Action B) → Action B
◌>>=◌ first rest s = after rest (first s)

abbrev pub ◌>>◌ : {B : Type 0} → Action (Unit {0}) → Action B → Action B
first >> next = first >>= λ _. next

infixl 5 ◌>>=◌ ◌>>◌
-- A call that does not change the state.
abbrev pub call : {A : Type 0} → Outcome SignError A → Action A
call r s = (s, r)

-- A statement that changes it.
abbrev pub modify : (SignedData → SignedData) → Action (Unit {0})
modify f s = (f s, ok tt)
