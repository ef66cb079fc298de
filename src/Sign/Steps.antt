-- ===== src/Sign/Steps.antt =====
-- sign.go: the methods of `SignedData` that change it as steps, `Finish` included, and what every
-- sequence of calls keeps. `GetSignedData`, which hands out the state to be changed at will, is no step.
use mathlib.Core.List.{Mem, mem-append_left, mem-append_right, mem-cons_self}
use pkcs.Base.{
  ℕ, ◌≡◌, refl, sym, ◌∙◌, subst, Bool, true, false, Option, none, some, List, [], ◌∷◌, ◌++◌, map,
  Bytes, Outcome, ok, err, ok_injective, All, All-append,
}
use pkcs.Algorithms.Oids.{Oid}
use pkcs.Algorithms.Keys.{AlgorithmIdentifier, RawValue}
use pkcs.Message.Types.{Certificate, SignerInfo, octets_value}
use pkcs.Message.Certificates.{raw_full}
use pkcs.Attributes.Encoding.{Encoding}
use pkcs.Attributes.Marshal.{SortableAttribute}
use pkcs.Sign.Monad.{SignedData, SignError, not_marshalled}
use pkcs.Sign.Signer.{SignerInfoConfig, SigningKey, SignCrypto}
use pkcs.Sign.State.{
  explicit_content, initial, started, new_signed_data, set_digest_algorithm,
  set_encryption_algorithm, add_certificate, set_content_type, detach,
  remove_authenticated_attributes, remove_unauthenticated_attributes, add_signer_chain,
  sign_without_attr,
}
use pkcs.Parse.Wire.{Wire}
use pkcs.Parse.Write.{finish}
use pkcs.Sign.Adds.{
  Adds, kept, added, IsKept, IsAdded, add_signer_chain-Adds, sign_without_attr-Adds,
}

-- One call of a method, with what it returns left out: the methods that sign may fail. The truth values
-- say whether the content is detached, before the call and after it.
pub data Step (crypto : SignCrypto) (enc : Encoding) (wire : Wire)
    (sort : List SortableAttribute → List SortableAttribute) (d : Bool) (s : SignedData)
    : Bool → SignedData → Type 0 where
  digest_set : (oid : Oid) → Step crypto enc wire sort d s d (set_digest_algorithm oid s)
  encryption_set : (oid : Oid) → Step crypto enc wire sort d s d (set_encryption_algorithm oid s)
  certificate_added :
      (cert : Certificate) → Step crypto enc wire sort d s d (add_certificate cert s)
  type_set : (oid : Oid) → Step crypto enc wire sort d s d (set_content_type oid s)
  detached : Step crypto enc wire sort d s true (detach s)
  authenticated_removed : Step crypto enc wire sort d s d (remove_authenticated_attributes s)
  unauthenticated_removed : Step crypto enc wire sort d s d (remove_unauthenticated_attributes s)
  chain_signed :
      (now : ℕ) (ee : Certificate) (key : SigningKey) (parents : List Certificate)
      (config : SignerInfoConfig)
      → Step crypto enc wire sort d s d
          ((add_signer_chain crypto enc sort now ee key parents config s).0)
  content_signed :
      (ee : Certificate) (key : SigningKey)
      → Step crypto enc wire sort d s d ((sign_without_attr crypto enc sort ee key s).0)
  finished : Step crypto enc wire sort d s d ((finish wire s).0)

pub data Reach (crypto : SignCrypto) (enc : Encoding) (wire : Wire)
    (sort : List SortableAttribute → List SortableAttribute) (s : SignedData)
    : Bool → SignedData → Type 0 where
  here : Reach crypto enc wire sort s false s
  next :
      {d e : Bool} {t u : SignedData}
      → Reach crypto enc wire sort s d t
      → Step crypto enc wire sort d t e u
      → Reach crypto enc wire sort s e u

-- A signer of version 1 whose digest is listed.
abbrev pub IsListed : List AlgorithmIdentifier → SignerInfo → Type 0
IsListed digests info = (info.version ≡ 1) × Mem info.digest_algorithm digests

-- The content of the message: the encoded data or, when detached, none.
abbrev pub IsContent : Bytes → Bool → RawValue → Type 0
IsContent encoded false raw = raw ≡ explicit_content encoded
IsContent encoded true raw = raw ≡ raw_full []

pub record IsConsistent (content encoded : Bytes) (d : Bool) (s : SignedData) : Type 0 where
  pub version : s.sd.version ≡ 1
  pub same_content : s.content ≡ content
  pub embedded : IsContent encoded d s.sd.content_info.content
  pub signers : All (IsListed s.sd.digest_algorithm_identifiers) s.sd.signer_infos

initial-IsConsistent :
    (content encoded : Bytes) → IsConsistent content encoded false (initial content encoded)
initial-IsConsistent content encoded = record {
  version = refl;
  same_content = refl;
  embedded = refl;
  signers = tt;
}

Listed_more :
    (old new : List AlgorithmIdentifier) (infos : List SignerInfo)
    → All (IsListed old) infos
    → All (IsListed (old ++ new)) infos
Listed_more old new [] h = tt
Listed_more old new (info ∷ infos) h =
    ((h.0.0, mem-append_left new h.0.1), Listed_more old new infos h.1)

started-eq-ok :
    (content : Bytes) (r : Option Bytes) {s : SignedData}
    → started content r ≡ ok s
    → (encoded : Bytes) × (r ≡ some encoded) × (s ≡ initial content encoded)
started-eq-ok content none e = absurd (err_is_ok e)
  where
    err_is_ok :
        {s : SignedData} → ◌≡◌ {A = Outcome SignError SignedData} (err not_marshalled) (ok s) → ⊥
    err_is_ok e = cc
started-eq-ok content (some encoded) e = (encoded, refl, sym (ok_injective e))

kept-IsConsistent :
    {content encoded : Bytes} {d : Bool} {s t : SignedData}
    → IsKept s t
    → IsConsistent content encoded d s
    → IsConsistent content encoded d t
kept-IsConsistent {encoded = encoded} {d = d} {s = s} {t = t} k c = record {
  version = k.version ∙ c.version;
  same_content = k.content ∙ c.same_content;
  embedded = rw k.content_info c.embedded;
  signers = rw (k.infos, k.digests) (Listed_more _ k.new_digests _ c.signers);
}

added-IsConsistent :
    {content encoded : Bytes} {d : Bool} {s t : SignedData} {certs : List Certificate}
    (info : SignerInfo)
    → IsAdded s t info certs
    → IsConsistent content encoded d s
    → IsConsistent content encoded d t
added-IsConsistent {encoded = encoded} {d = d} {s = s} {t = t} info k c = record {
  version = k.version ∙ c.version;
  same_content = k.content ∙ c.same_content;
  embedded = rw k.content_info c.embedded;
  signers =
      rw (k.infos, k.digests)
        (All-append _ _ (info ∷ []) (Listed_more _ (info.digest_algorithm ∷ []) _ c.signers)
          ((k.info_version, mem-append_right s.sd.digest_algorithm_identifiers mem-cons_self), tt));
}

Adds-IsConsistent :
    {content encoded : Bytes} {d : Bool} {s : SignedData} {certs : List Certificate}
    {r : SignedData × Outcome SignError (Unit {0})}
    → Adds s certs r
    → IsConsistent content encoded d s
    → IsConsistent content encoded d r.0
Adds-IsConsistent (kept e k) c = kept-IsConsistent k c
Adds-IsConsistent (added info k) c = added-IsConsistent info k c

-- A change of every signer that leaves version and digest alone.
Listed_map :
    (digests : List AlgorithmIdentifier) (f : SignerInfo → SignerInfo)
    → ((info : SignerInfo) → IsListed digests info → IsListed digests (f info))
    → (infos : List SignerInfo) → All (IsListed digests) infos
    → All (IsListed digests) (map f infos)
Listed_map digests f keeps [] h = tt
Listed_map digests f keeps (info ∷ infos) h = (keeps info h.0, Listed_map digests f keeps infos h.1)

module _ (crypto : SignCrypto) (enc : Encoding) (wire : Wire)
    (sort : List SortableAttribute → List SortableAttribute) where
  Step-IsConsistent :
      {content encoded : Bytes} {d e : Bool} {s t : SignedData}
      → Step crypto enc wire sort d s e t
      → IsConsistent content encoded d s
      → IsConsistent content encoded e t
  unfolding set_digest_algorithm set_encryption_algorithm add_certificate set_content_type detach
      remove_authenticated_attributes remove_unauthenticated_attributes finish
  Step-IsConsistent (digest_set oid) c = record {
    version = c.version;
    same_content = c.same_content;
    embedded = c.embedded;
    signers = c.signers;
  }
  Step-IsConsistent (encryption_set oid) c = record {
    version = c.version;
    same_content = c.same_content;
    embedded = c.embedded;
    signers = c.signers;
  }
  Step-IsConsistent (certificate_added cert) c = record {
    version = c.version;
    same_content = c.same_content;
    embedded = c.embedded;
    signers = c.signers;
  }
  Step-IsConsistent (type_set oid) c = record {
    version = c.version;
    same_content = c.same_content;
    embedded = c.embedded;
    signers = c.signers;
  }
  Step-IsConsistent detached c = record {
    version = c.version;
    same_content = c.same_content;
    embedded = refl;
    signers = c.signers;
  }
  Step-IsConsistent authenticated_removed c = record {
    version = c.version;
    same_content = c.same_content;
    embedded = c.embedded;
    signers = Listed_map _ _ (λ info h. h) _ c.signers;
  }
  Step-IsConsistent unauthenticated_removed c = record {
    version = c.version;
    same_content = c.same_content;
    embedded = c.embedded;
    signers = Listed_map _ _ (λ info h. h) _ c.signers;
  }
  Step-IsConsistent {s = s} (chain_signed now ee key parents config) c =
      Adds-IsConsistent (add_signer_chain-Adds crypto enc sort now ee key parents config s) c
  Step-IsConsistent {s = s} (content_signed ee key) c =
      Adds-IsConsistent (sign_without_attr-Adds crypto enc sort ee key s) c
  Step-IsConsistent finished c = record {
    version = c.version;
    same_content = c.same_content;
    embedded = c.embedded;
    signers = c.signers;
  }

  Reach-initial :
      {content encoded : Bytes} {d : Bool} {s : SignedData}
      → Reach crypto enc wire sort (initial content encoded) d s
      → IsConsistent content encoded d s
  Reach-initial here = initial-IsConsistent _ _
  Reach-initial (next r step) = Step-IsConsistent step (Reach-initial r)

  -- `NewSignedData`, if it succeeds, encodes the data, and after any calls of the methods above, the
  -- ones that failed included, the message has version 1, every signer has version 1 and its digest
  -- algorithm is listed, what is to be signed is the data given at first, and the embedded content is
  -- its encoding exactly if `Detach` was not called, and else nothing.
  pub Reach-IsConsistent :
      {content : Bytes} {d : Bool} {s t : SignedData}
      → new_signed_data enc content ≡ ok s
      → Reach crypto enc wire sort s d t
      → (encoded : Bytes) × (enc.marshal_value (octets_value content) ≡ some encoded)
        × IsConsistent content encoded d t
  unfolding new_signed_data
  Reach-IsConsistent {content} {d} {t = t} e r =
      let (encoded, same, first) =
        started-eq-ok content (enc.marshal_value (octets_value content)) e in
      (encoded, same, Reach-initial (subst (λ z. Reach crypto enc wire sort z d t) first r))
