-- ===== src/Padding/Runs.antt =====
-- Concrete paddings, and the theorems at concrete inputs.
use pkcs.Base.{◌≡◌, ◌≢◌, ◌↔◌, refl, [], ◌∷◌, Bytes, ok, err, panic, stuck, index, arith}
use pkcs.Padding.Block.{pad, unpad, scan_padding, invalid_padding, invalid_blocklen}
use pkcs.Padding.Laws.{IsPadded}
use pkcs.Padding.Trip.{unpad_iff, unpad_returns, unpad-pad, PadsAndBack}

abbrev message : Bytes
message = 7 ∷ 8 ∷ 9 ∷ []

abbrev padded : Bytes
padded = 7 ∷ 8 ∷ 9 ∷ 1 ∷ []

pad_4 : pad message 4 ≡ ok padded
unfolding pad
pad_4 = refl

-- A message of whole blocks gets a block of padding.
pad_3 : pad message 3 ≡ ok (7 ∷ 8 ∷ 9 ∷ 3 ∷ 3 ∷ 3 ∷ [])
unfolding pad
pad_3 = refl

unpad_4 : unpad padded 4 ≡ ok message
unfolding unpad scan_padding index
unpad_4 = refl

unpad_wrong : unpad (7 ∷ 8 ∷ 9 ∷ 2 ∷ []) 4 ≡ err invalid_padding
unfolding unpad scan_padding index
unpad_wrong = refl

unpad_no_blocklen : unpad padded 0 ≡ err invalid_blocklen
unfolding unpad
unpad_no_blocklen = refl

unpad_iff_example : (unpad padded 4 ≡ ok message) ↔ IsPadded padded message 4
unpad_iff_example = unpad_iff padded message 4 (omega arith)

unpad_returns_example : (unpad padded 4 ≢ panic) × (unpad padded 4 ≢ stuck)
unpad_returns_example = unpad_returns padded 4 (omega arith)

unpad-pad_example : PadsAndBack message 8
unpad-pad_example = unpad-pad message 8 (omega arith) (omega arith)
