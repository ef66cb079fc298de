-- ===== src/KeyWrap/Rows.antt =====
-- kem.go, the loops of `aesKeyWrap` and `aesKeyUnwrap`: they run the same steps in opposite orders.
use pkcs.Base.{ℕ, zero, suc, ◌+◌, ◌≤◌, ◌≡◌, ap, ◌∙◌, Bytes, arith}
use pkcs.KeyWrap.Cipher.{Aes, IsCipher}
use pkcs.KeyWrap.Wrap.{wrap_step, unwrap_step, wrap_row, unwrap_row, wrap_rows, unwrap_rows}
use pkcs.KeyWrap.Step.{
  IsState, wrap_step-IsState, unwrap_step-IsState, unwrap_step-wrap_step, wrap_step-unwrap_step,
}

module _ (aes : Aes) (key : Bytes) (c : IsCipher aes key) (n j : ℕ) where
  wrap_row-IsState :
      (rounds k : ℕ) (state : Bytes)
      → rounds + k ≤ n
      → IsState n state
      → IsState n (wrap_row aes key n j rounds (suc k) state)
  unfolding wrap_row
  wrap_row-IsState zero k state h s = s
  wrap_row-IsState (suc rounds) k state h s =
      wrap_row-IsState rounds (suc k) (wrap_step aes key n j (suc k) state) (omega arith)
        (wrap_step-IsState aes key c n j (suc k) state (omega arith) (omega arith) s)

  unwrap_row-IsState :
      (k : ℕ) (state : Bytes) → k ≤ n → IsState n state → IsState n (unwrap_row aes key n j k state)
  unfolding unwrap_row
  unwrap_row-IsState zero state h s = s
  unwrap_row-IsState (suc k) state h s =
      unwrap_row-IsState k (unwrap_step aes key n j (suc k) state) (omega arith)
        (unwrap_step-IsState aes key c n j (suc k) state (omega arith) (omega arith) s)

  unwrap_row-wrap_row_from :
      (rounds k : ℕ) (state : Bytes)
      → rounds + k ≤ n
      → IsState n state
      → unwrap_row aes key n j (rounds + k) (wrap_row aes key n j rounds (suc k) state)
        ≡ unwrap_row aes key n j k state
  unfolding wrap_row unwrap_row
  unwrap_row-wrap_row_from zero k state h s =
      let e : 0 + k ≡ k = omega arith in ap (λ (m : ℕ). unwrap_row aes key n j m state) e
  unwrap_row-wrap_row_from (suc rounds) k state h s =
      let least : 1 ≤ suc k = omega arith in
      let most : suc k ≤ n = omega arith in
      let next = wrap_step aes key n j (suc k) state in
      let e : suc rounds + k ≡ rounds + suc k = omega arith in
      ap (λ (m : ℕ). unwrap_row aes key n j m (wrap_row aes key n j rounds (suc (suc k)) next)) e
      ∙ unwrap_row-wrap_row_from rounds (suc k) next (omega arith)
          (wrap_step-IsState aes key c n j (suc k) state least most s)
      ∙ ap (unwrap_row aes key n j k)
          (unwrap_step-wrap_step aes key c n j (suc k) state least most s)

  wrap_row-unwrap_row_from :
      (k rounds : ℕ) (state : Bytes)
      → k ≤ n
      → IsState n state
      → wrap_row aes key n j (k + rounds) 1 (unwrap_row aes key n j k state)
        ≡ wrap_row aes key n j rounds (suc k) state
  unfolding wrap_row unwrap_row
  wrap_row-unwrap_row_from zero rounds state h s =
      let e : 0 + rounds ≡ rounds = omega arith in ap (λ (m : ℕ). wrap_row aes key n j m 1 state) e
  wrap_row-unwrap_row_from (suc k) rounds state h s =
      let least : 1 ≤ suc k = omega arith in
      let next = unwrap_step aes key n j (suc k) state in
      let e : suc k + rounds ≡ k + suc rounds = omega arith in
      ap (λ (m : ℕ). wrap_row aes key n j m 1 (unwrap_row aes key n j k next)) e
      ∙ wrap_row-unwrap_row_from k (suc rounds) next (omega arith)
          (unwrap_step-IsState aes key c n j (suc k) state least h s)
      ∙ ap (wrap_row aes key n j rounds (suc (suc k)))
          (wrap_step-unwrap_step aes key c n j (suc k) state least h s)

  -- One pass over all registers.
  row-IsState : (state : Bytes) → IsState n state → IsState n (wrap_row aes key n j n 1 state)
  row-IsState state s = wrap_row-IsState n 0 state (omega arith) s

  unwrap_row-wrap_row :
      (state : Bytes)
      → IsState n state
      → unwrap_row aes key n j n (wrap_row aes key n j n 1 state) ≡ state
  unfolding unwrap_row
  unwrap_row-wrap_row state s =
      let e : n ≡ n + 0 = omega arith in
      ap (λ (m : ℕ). unwrap_row aes key n j m (wrap_row aes key n j n 1 state)) e
      ∙ unwrap_row-wrap_row_from n 0 state (omega arith) s

  wrap_row-unwrap_row :
      (state : Bytes)
      → IsState n state
      → wrap_row aes key n j n 1 (unwrap_row aes key n j n state) ≡ state
  unfolding wrap_row
  wrap_row-unwrap_row state s =
      let e : n ≡ n + 0 = omega arith in
      ap (λ (m : ℕ). wrap_row aes key n j m 1 (unwrap_row aes key n j n state)) e
      ∙ wrap_row-unwrap_row_from n 0 state (omega arith) s

module _ (aes : Aes) (key : Bytes) (c : IsCipher aes key) (n : ℕ) where
  pub wrap_rows-IsState :
      (rounds j : ℕ) (state : Bytes)
      → IsState n state
      → IsState n (wrap_rows aes key n rounds j state)
  unfolding wrap_rows
  wrap_rows-IsState zero j state s = s
  wrap_rows-IsState (suc rounds) j state s =
      wrap_rows-IsState rounds (suc j) (wrap_row aes key n j n 1 state)
        (row-IsState aes key c n j state s)

  pub unwrap_rows-IsState :
      (k : ℕ) (state : Bytes) → IsState n state → IsState n (unwrap_rows aes key n k state)
  unfolding unwrap_rows
  unwrap_rows-IsState zero state s = s
  unwrap_rows-IsState (suc k) state s =
      unwrap_rows-IsState k (unwrap_row aes key n k n state)
        (unwrap_row-IsState aes key c n k n state (omega arith) s)

  pub unwrap_rows-wrap_rows :
      (rounds k : ℕ) (state : Bytes)
      → IsState n state
      → unwrap_rows aes key n (rounds + k) (wrap_rows aes key n rounds k state)
        ≡ unwrap_rows aes key n k state
  unfolding wrap_rows unwrap_rows
  unwrap_rows-wrap_rows zero k state s =
      let e : 0 + k ≡ k = omega arith in ap (λ (m : ℕ). unwrap_rows aes key n m state) e
  unwrap_rows-wrap_rows (suc rounds) k state s =
      let next = wrap_row aes key n k n 1 state in
      let e : suc rounds + k ≡ rounds + suc k = omega arith in
      ap (λ (m : ℕ). unwrap_rows aes key n m (wrap_rows aes key n rounds (suc k) next)) e
      ∙ unwrap_rows-wrap_rows rounds (suc k) next (row-IsState aes key c n k state s)
      ∙ ap (unwrap_rows aes key n k) (unwrap_row-wrap_row aes key c n k state s)

  pub wrap_rows-unwrap_rows :
      (k rounds : ℕ) (state : Bytes)
      → IsState n state
      → wrap_rows aes key n (k + rounds) 0 (unwrap_rows aes key n k state)
        ≡ wrap_rows aes key n rounds k state
  unfolding wrap_rows unwrap_rows
  wrap_rows-unwrap_rows zero rounds state s =
      let e : 0 + rounds ≡ rounds = omega arith in ap (λ (m : ℕ). wrap_rows aes key n m 0 state) e
  wrap_rows-unwrap_rows (suc k) rounds state s =
      let next = unwrap_row aes key n k n state in
      let e : suc k + rounds ≡ k + suc rounds = omega arith in
      ap (λ (m : ℕ). wrap_rows aes key n m 0 (unwrap_rows aes key n k next)) e
      ∙ wrap_rows-unwrap_rows k (suc rounds) next
          (unwrap_row-IsState aes key c n k n state (omega arith) s)
      ∙ ap (wrap_rows aes key n rounds (suc k)) (wrap_row-unwrap_row aes key c n k state s)
