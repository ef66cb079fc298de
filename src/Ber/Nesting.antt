-- ===== src/Ber/Nesting.antt =====
-- ber.go, the bound on the nesting of objects in `readObject`.
use pkcs.Base.{ℕ, zero, suc, ◌+◌, ◌*◌, ◌≤◌, ◌<◌, ◌≡◌, refl, [], ◌∷◌, ◌++◌}
use pkcs.Base.{
  Bool-cases, inl, inr, subst, ltb, ltb→lt, lt→ltb, ltb_false→le, length, Bytes, IsByte, All,
  All-append, err, arith, length-append_bytes,
}
use pkcs.Ber.Decode.{ber2der, read_object, read_header, max_nesting_depth, nesting_depth}
use pkcs.Ber.Cursor.{At, At-start, At-advance}
use pkcs.Ber.HeaderRun.{read_header-indefinite}
use pkcs.Ber.Loop.{goes_on-indefinite}

-- The beginnings of k sequences of indefinite length, each inside the one before.
unfoldable pub opens : ℕ → Bytes
opens zero = []
opens (suc k) = 0x30 ∷ 0x80 ∷ opens k

opens-IsByte : (k : ℕ) → All IsByte (opens k)
unfolding opens
opens-IsByte zero = tt
opens-IsByte (suc k) = (omega arith, (omega arith, opens-IsByte k))

length-opens : (k : ℕ) → length (opens k) ≡ 2 * k
unfolding opens
length-opens zero = refl
length-opens (suc k) = omega (arith, length-opens k)

too_deep :
    (fuel : ℕ) (ber : Bytes) (offset depth : ℕ)
    → max_nesting_depth < depth
    → read_object (suc fuel) ber offset depth ≡ err nesting_depth
unfolding read_object read_header
too_deep fuel ber offset depth h = rw (lt→ltb max_nesting_depth depth h)

-- One beginning: the object inside it is read next.
read_object_open :
    (fuel : ℕ) (ber : Bytes) (offset depth : ℕ) (more : Bytes)
    → At ber offset (0x30 ∷ 0x80 ∷ 0x30 ∷ 0x80 ∷ more)
    → depth ≤ max_nesting_depth
    → read_object fuel ber (offset + 1 + 1) (depth + 1) ≡ err nesting_depth
    → read_object (suc (suc fuel)) ber offset depth ≡ err nesting_depth
unfolding read_object
read_object_open fuel ber offset depth more at shallow inside =
    let start = offset + 1 + 1 in
    let rest = 0x30 ∷ 0x80 ∷ more in
    let e : offset + 2 ≡ start = omega arith in
    let behind : At ber start rest =
      subst (λ (n : ℕ). At ber n rest) e (At-advance ber offset (0x30 ∷ 0x80 ∷ []) rest at) in
    rw (
      read_header-indefinite ber offset depth (0x30 ∷ []) rest at (omega arith) refl (omega arith)
          shallow,
      goes_on-indefinite ber start (start + 0) 0x30 0x80 more behind,
      inside,
    )

read_object-opens :
    (k fuel : ℕ) (ber : Bytes) (offset depth : ℕ) (more : Bytes)
    → At ber offset (opens (suc k) ++ more)
    → max_nesting_depth < depth + k
    → 2 * k < fuel
    → read_object fuel ber offset depth ≡ err nesting_depth
unfolding opens
read_object-opens k zero ber offset depth more at deep enough = absurd (omega arith)
read_object-opens zero (suc fuel) ber offset depth more at deep enough =
    too_deep fuel ber offset depth (omega arith)
read_object-opens (suc k) (suc zero) ber offset depth more at deep enough = absurd (omega arith)
read_object-opens (suc k) (suc (suc fuel)) ber offset depth more at deep enough =
    let rest = opens (suc k) ++ more in
    let e : offset + 2 ≡ offset + 1 + 1 = omega arith in
    let behind : At ber (offset + 1 + 1) rest =
      subst (λ (n : ℕ). At ber n rest) e (At-advance ber offset (0x30 ∷ 0x80 ∷ []) rest at) in
    let inside =
      read_object-opens k fuel ber (offset + 1 + 1) (depth + 1) more behind (omega arith)
        (omega arith) in
    elim (Bool-cases (ltb max_nesting_depth depth)) [
      | inl too ↦ too_deep (suc fuel) ber offset depth (ltb→lt max_nesting_depth depth too)
      | inr fine ↦
          read_object_open fuel ber offset depth (opens k ++ more) at
            (ltb_false→le max_nesting_depth depth fine) inside
    ]

-- 502 nested beginnings or more are rejected for their depth, whatever follows them.
pub ber2der-opens :
    (k : ℕ) (more : Bytes)
    → max_nesting_depth + 2 ≤ k
    → All IsByte more
    → ber2der (opens k ++ more) ≡ err nesting_depth
unfolding ber2der
ber2der-opens zero more deep bytes = absurd (omega arith)
ber2der-opens (suc k) more deep bytes =
    let ber = opens (suc k) ++ more in
    let all = All-append IsByte (opens (suc k)) more (opens-IsByte (suc k)) bytes in
    let size = length-append_bytes (opens (suc k)) more in
    let long = length-opens (suc k) in
    let read =
      read_object-opens k (length ber + 1) ber 0 0 more (At-start ber all) (omega arith)
        (omega arith) in
    ground (arith, read)
