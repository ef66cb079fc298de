-- ===== src/KeyWrap/Step.antt =====
-- kem.go, the bodies of the inner loops of `aesKeyWrap` and `aesKeyUnwrap`: each undoes the other.
use native.Mathlib.Nat.{mod-lt}
use pkcs.Base.{
  ℕ, ◌+◌, ◌-◌, ◌*◌, ◌^◌, ◌≤◌, ◌<◌, ◌≡◌, refl, sym, ap, ◌∙◌, subst, bit_xor, [], ◌++◌, append_assoc,
  append-nil,
}
use pkcs.Base.{
  length, slice, splice, slice_parts, splice_parts, Bytes, IsByte, All, All-append, All-append_left,
  All-append_right, length-append_bytes, arith, cut,
}
use pkcs.Base.Xor.{bit_xor-lt, bit_xor_cancel}
use pkcs.Base.BigEndian.{
  low_octets, length-low_octets, low_octets-IsByte, big_endian-low_octets_all, big_endian-lt-weight,
  low_octets-big_endian,
}
use pkcs.KeyWrap.Cipher.{Aes, IsBlock, IsCipher}
use pkcs.KeyWrap.Wrap.{uint64, put_uint64, counter, wrap_step, unwrap_step}

-- Eight bytes, with a number mixed in.
abbrev mix : ℕ → Bytes → Bytes
mix t a = put_uint64 (bit_xor (uint64 a) t)

mix-mix : (t : ℕ) (a : Bytes) → t < 2 ^ 64 → length a ≡ 8 → All IsByte a → mix t (mix t a) ≡ a
mix-mix t a small size bytes =
    let value : uint64 a < 2 ^ 64 =
      subst (λ (k : ℕ). uint64 a < 2 ^ (k * 8)) size (big_endian-lt-weight a bytes) in
    let mixed = bit_xor-lt 64 (uint64 a) t value small in
    let read : uint64 (mix t a) ≡ bit_xor (uint64 a) t =
      big_endian-low_octets_all (bit_xor (uint64 a) t) 8 mixed in
    let back : bit_xor (uint64 (mix t a)) t ≡ uint64 a =
      ap (λ (x : ℕ). bit_xor x t) read ∙ bit_xor_cancel 64 (uint64 a) t value small in
    ap put_uint64 back
    ∙ subst (λ (k : ℕ). low_octets (uint64 a) k ≡ a) size (low_octets-big_endian 0 a bytes)

-- What the loops work on: n + 1 registers of eight bytes.
abbrev pub IsState : ℕ → Bytes → Type 0
IsState n state = (length state ≡ (n + 1) * 8) × All IsByte state

-- The state, split into the first register, those before register i, register i, and the rest.
module _ (i : ℕ) (a middle r rest : Bytes) (head : length a ≡ 8)
    (before : 8 + length middle ≡ i * 8) (register : length r ≡ 8) where
  slice_first : slice (a ++ (middle ++ (r ++ rest))) 0 8 ≡ a
  slice_first = slice_parts [] a (middle ++ (r ++ rest)) 0 8 refl (omega arith)

  slice_register : slice (a ++ (middle ++ (r ++ rest))) (i * 8) ((i + 1) * 8) ≡ r
  slice_register =
      ap (λ (t : Bytes). slice t (i * 8) ((i + 1) * 8)) (sym (append_assoc a middle (r ++ rest)))
      ∙ slice_parts (a ++ middle) r rest (i * 8) ((i + 1) * 8)
          (omega (arith, length-append_bytes a middle))
          (omega (arith, length-append_bytes a middle))

  splice_both :
      (b q : Bytes)
      → length b ≡ 8
      → length q ≡ 8
      → splice (splice (a ++ (middle ++ (r ++ rest))) 0 b) (i * 8) q ≡ b ++ (middle ++ (q ++ rest))
  splice_both b q e f =
      ap (λ (t : Bytes). splice t (i * 8) q)
        (splice_parts [] a b (middle ++ (r ++ rest)) 0 refl (e ∙ sym head)
          ∙ sym (append_assoc b middle (r ++ rest)))
      ∙ splice_parts (b ++ middle) r q rest (i * 8) (omega (arith, length-append_bytes b middle))
          (f ∙ sym register)
      ∙ append_assoc b middle (q ++ rest)

record Parts (n i : ℕ) (state : Bytes) : Type 0 where
  a : Bytes
  middle : Bytes
  r : Bytes
  rest : Bytes
  whole : state ≡ a ++ (middle ++ (r ++ rest))
  head : length a ≡ 8
  before : 8 + length middle ≡ i * 8
  register : length r ≡ 8
  a_bytes : All IsByte a
  middle_bytes : All IsByte middle
  r_bytes : All IsByte r
  rest_bytes : All IsByte rest

parts : (n i : ℕ) (state : Bytes) → 1 ≤ i → i ≤ n → IsState n state → Parts n i state
parts n i state least most s =
    let c = cut 8 state (omega (arith, s.0)) in
    let c_size = length-append_bytes c.front c.back in
    let d = cut ((i - 1) * 8) c.back (omega (arith, s.0, c_size, c.size, ap length c.whole)) in
    let d_size = length-append_bytes d.front d.back in
    let e =
      cut 8 d.back (
        omega (arith, s.0, c_size, c.size, ap length c.whole, d_size, d.size, ap length d.whole)) in
    let whole : state ≡ c.front ++ (d.front ++ (e.front ++ e.back)) =
      cc (c.whole, d.whole, e.whole) in
    let bytes = subst (All IsByte) whole s.1 in
    let behind = All-append_right IsByte c.front (d.front ++ (e.front ++ e.back)) bytes in
    let behind2 = All-append_right IsByte d.front (e.front ++ e.back) behind in
    record {
      a = c.front;
      middle = d.front;
      r = e.front;
      rest = e.back;
      whole = whole;
      head = c.size;
      before = omega (arith, d.size);
      register = e.size;
      a_bytes = All-append_left IsByte c.front (d.front ++ (e.front ++ e.back)) bytes;
      middle_bytes = All-append_left IsByte d.front (e.front ++ e.back) behind;
      r_bytes = All-append_left IsByte e.front e.back behind2;
      rest_bytes = All-append_right IsByte e.front e.back behind2;
    }

-- Eight bytes.
abbrev IsRegister : Bytes → Type 0
IsRegister a = (length a ≡ 8) × All IsByte a

mix-IsRegister : (t : ℕ) (a : Bytes) → IsRegister (mix t a)
mix-IsRegister t a =
    (length-low_octets (bit_xor (uint64 a) t) 8, low_octets-IsByte (bit_xor (uint64 a) t) 8)

-- A block is two registers.
record Halves (block : Bytes) : Type 0 where
  low : IsRegister (slice block 0 8)
  high : IsRegister (slice block 8 16)
  whole : slice block 0 8 ++ slice block 8 16 ≡ block

slice_low : (a r : Bytes) → length a ≡ 8 → slice (a ++ r) 0 8 ≡ a
slice_low a r e = slice_parts [] a r 0 8 refl (omega arith)

slice_high : (a r : Bytes) → length a ≡ 8 → length r ≡ 8 → slice (a ++ r) 8 16 ≡ r
slice_high a r e f =
    ap (λ (t : Bytes). slice (a ++ t) 8 16) (sym (append-nil r))
    ∙ slice_parts a r [] 8 16 (sym e) (omega arith)

halves : (block : Bytes) → IsBlock block → Halves block
halves block b =
    let c = cut 8 block (omega (arith, b.0)) in
    let size : length c.back ≡ 8 =
      omega (arith, b.0, ap length c.whole, length-append_bytes c.front c.back, c.size) in
    let bytes = subst (All IsByte) c.whole b.1 in
    let low : slice block 0 8 ≡ c.front =
      ap (λ (t : Bytes). slice t 0 8) c.whole ∙ slice_low c.front c.back c.size in
    let high : slice block 8 16 ≡ c.back =
      ap (λ (t : Bytes). slice t 8 16) c.whole ∙ slice_high c.front c.back c.size size in
    record {
      low = subst IsRegister (sym low) (c.size, All-append_left IsByte c.front c.back bytes);
      high = subst IsRegister (sym high) (size, All-append_right IsByte c.front c.back bytes);
      whole = cc (low, high, c.whole);
    }

block : (a r : Bytes) → IsRegister a → IsRegister r → IsBlock (a ++ r)
block a r h k = (omega (arith, length-append_bytes a r, h.0, k.0), All-append IsByte a r h.1 k.1)

module _ {n i : ℕ} {state : Bytes} (p : Parts n i state) where
  -- The state with its first register and register i replaced.
  abbrev put : Bytes → Bytes → Bytes
  put b q = b ++ (p.middle ++ (q ++ p.rest))

  put-Parts : (b q : Bytes) → IsRegister b → IsRegister q → Parts n i (put b q)
  put-Parts b q h k = record {
    a = b;
    middle = p.middle;
    r = q;
    rest = p.rest;
    whole = refl;
    head = h.0;
    before = p.before;
    register = k.0;
    a_bytes = h.1;
    middle_bytes = p.middle_bytes;
    r_bytes = k.1;
    rest_bytes = p.rest_bytes;
  }

  put-IsState : (b q : Bytes) → IsState n state → IsRegister b → IsRegister q → IsState n (put b q)
  put-IsState b q s h k = (
    omega (
      arith,
      s.0,
      ap length p.whole,
      length-append_bytes p.a (p.middle ++ (p.r ++ p.rest)),
      length-append_bytes p.middle (p.r ++ p.rest),
      length-append_bytes p.r p.rest,
      length-append_bytes b (p.middle ++ (q ++ p.rest)),
      length-append_bytes p.middle (q ++ p.rest),
      length-append_bytes q p.rest,
      p.head,
      p.register,
      h.0,
      k.0,
    ),
    All-append IsByte b (p.middle ++ (q ++ p.rest)) h.1 (
        All-append IsByte p.middle (q ++ p.rest) p.middle_bytes
          (All-append IsByte q p.rest k.1 p.rest_bytes)),
  )

  module _ (aes : Aes) (key : Bytes) (c : IsCipher aes key) (j : ℕ) where
    wrap_step-put :
        let e = aes.encrypt key (p.a ++ p.r) in
        wrap_step aes key n j i state ≡ put (mix (counter n j i) (slice e 0 8)) (slice e 8 16)
    unfolding wrap_step
    wrap_step-put =
        let t = counter n j i in
        let e = aes.encrypt key (p.a ++ p.r) in
        let first = slice_first i p.a p.middle p.r p.rest p.head p.before p.register in
        let register = slice_register i p.a p.middle p.r p.rest p.head p.before p.register in
        let h = halves e (
          c.encrypt-IsBlock (p.a ++ p.r)
            (block p.a p.r (p.head, p.a_bytes) (p.register, p.r_bytes))) in
        rw (p.whole, first, register)
          (splice_both i p.a p.middle p.r p.rest p.head p.before p.register (mix t (slice e 0 8))
            (slice e 8 16) (mix-IsRegister t (slice e 0 8)).0 h.high.0)

    unwrap_step-put :
        let d = aes.decrypt key (mix (counter n j i) p.a ++ p.r) in
        unwrap_step aes key n j i state ≡ put (slice d 0 8) (slice d 8 16)
    unfolding unwrap_step
    unwrap_step-put =
        let d = aes.decrypt key (mix (counter n j i) p.a ++ p.r) in
        let first = slice_first i p.a p.middle p.r p.rest p.head p.before p.register in
        let register = slice_register i p.a p.middle p.r p.rest p.head p.before p.register in
        let h = halves d (
          c.decrypt-IsBlock (mix (counter n j i) p.a ++ p.r) (
            block (mix (counter n j i) p.a) p.r (mix-IsRegister (counter n j i) p.a)
              (p.register, p.r_bytes))) in
        rw (p.whole, first, register)
          (splice_both i p.a p.middle p.r p.rest p.head p.before p.register (slice d 0 8)
            (slice d 8 16) h.low.0 h.high.0)

module _ (aes : Aes) (key : Bytes) (c : IsCipher aes key) (n j i : ℕ) (state : Bytes)
    (least : 1 ≤ i) (most : i ≤ n) (s : IsState n state) where
  pub wrap_step-IsState : IsState n (wrap_step aes key n j i state)
  wrap_step-IsState =
      let p = parts n i state least most s in
      let e = aes.encrypt key (p.a ++ p.r) in
      let h = halves e (
        c.encrypt-IsBlock (p.a ++ p.r)
          (block p.a p.r (p.head, p.a_bytes) (p.register, p.r_bytes))) in
      subst (IsState n) (sym (wrap_step-put p aes key c j)) (
        put-IsState p (mix (counter n j i) (slice e 0 8)) (slice e 8 16) s
          (mix-IsRegister (counter n j i) (slice e 0 8)) h.high)

  pub unwrap_step-IsState : IsState n (unwrap_step aes key n j i state)
  unwrap_step-IsState =
      let p = parts n i state least most s in
      let t = counter n j i in
      let d = aes.decrypt key (mix t p.a ++ p.r) in
      let h = halves d (
        c.decrypt-IsBlock (mix t p.a ++ p.r)
          (block (mix t p.a) p.r (mix-IsRegister t p.a) (p.register, p.r_bytes))) in
      subst (IsState n) (sym (unwrap_step-put p aes key c j))
        (put-IsState p (slice d 0 8) (slice d 8 16) s h.low h.high)

  pub unwrap_step-wrap_step : unwrap_step aes key n j i (wrap_step aes key n j i state) ≡ state
  unfolding put-Parts
  unwrap_step-wrap_step =
      let p = parts n i state least most s in
      let t = counter n j i in
      let small : t < 2 ^ 64 = mod-lt (n * j + i) (omega arith) in
      let b = block p.a p.r (p.head, p.a_bytes) (p.register, p.r_bytes) in
      let e = aes.encrypt key (p.a ++ p.r) in
      let h = halves e (c.encrypt-IsBlock (p.a ++ p.r) b) in
      let q =
        put-Parts p (mix t (slice e 0 8)) (slice e 8 16) (mix-IsRegister t (slice e 0 8)) h.high in
      let undone : aes.decrypt key (mix t (mix t (slice e 0 8)) ++ slice e 8 16) ≡ p.a ++ p.r =
        ap (λ (x : Bytes). aes.decrypt key (x ++ slice e 8 16))
          (mix-mix t (slice e 0 8) small h.low.0 h.low.1)
        ∙ ap (aes.decrypt key) h.whole
        ∙ c.decrypt-encrypt (p.a ++ p.r) b in
      ap (unwrap_step aes key n j i) (wrap_step-put p aes key c j)
      ∙ unwrap_step-put q aes key c j
      ∙ ap (λ (x : Bytes). slice x 0 8 ++ (p.middle ++ (slice x 8 16 ++ p.rest))) undone
      ∙ rw (slice_low p.a p.r p.head, slice_high p.a p.r p.head p.register) (sym p.whole)

  pub wrap_step-unwrap_step : wrap_step aes key n j i (unwrap_step aes key n j i state) ≡ state
  unfolding put-Parts
  wrap_step-unwrap_step =
      let p = parts n i state least most s in
      let t = counter n j i in
      let small : t < 2 ^ 64 = mod-lt (n * j + i) (omega arith) in
      let m = mix-IsRegister t p.a in
      let b = block (mix t p.a) p.r m (p.register, p.r_bytes) in
      let d = aes.decrypt key (mix t p.a ++ p.r) in
      let h = halves d (c.decrypt-IsBlock (mix t p.a ++ p.r) b) in
      let q = put-Parts p (slice d 0 8) (slice d 8 16) h.low h.high in
      let undone : aes.encrypt key (slice d 0 8 ++ slice d 8 16) ≡ mix t p.a ++ p.r =
        ap (aes.encrypt key) h.whole ∙ c.encrypt-decrypt (mix t p.a ++ p.r) b in
      ap (wrap_step aes key n j i) (unwrap_step-put p aes key c j)
      ∙ wrap_step-put q aes key c j
      ∙ ap (λ (x : Bytes). mix t (slice x 0 8) ++ (p.middle ++ (slice x 8 16 ++ p.rest))) undone
      ∙ ap (λ (x : Bytes). mix t x ++ (p.middle ++ (slice (mix t p.a ++ p.r) 8 16 ++ p.rest)))
          (slice_low (mix t p.a) p.r m.0)
      ∙ ap (λ (x : Bytes). mix t (mix t p.a) ++ (p.middle ++ (x ++ p.rest)))
          (slice_high (mix t p.a) p.r m.0 p.register)
      ∙ ap (λ (x : Bytes). x ++ (p.middle ++ (p.r ++ p.rest)))
          (mix-mix t p.a small p.head p.a_bytes)
      ∙ sym p.whole
