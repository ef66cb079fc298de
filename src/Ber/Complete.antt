-- ===== src/Ber/Complete.antt =====
-- Every encoding of the grammar is read, wherever it stands and whatever follows it.
use pkcs.Base.{
  ℕ, zero, suc, ◌+◌, ◌≤◌, ◌<◌, ◌≡◌, refl, sym, ap, subst, ◌∙◌, [], ◌∷◌, ◌++◌, append_assoc,
  append-nil,
}
use pkcs.Base.{
  Bool, true, false, lt→ltb, le→ltb_false, length, take, Bytes, IsByte, ok, arith, lengths,
  length-append_bytes, All-append_left,
}
use pkcs.Base.{prefix_in-take}
use pkcs.Ber.Decode.{Error, read_object, read_objects, max_nesting_depth, goes_on}
use pkcs.Ber.Encode.{Object, Objects}
use pkcs.Ber.Grammar.{
  Encodes, EncodesAll, IsUnambiguous, end_of_contents, primitive_form, definite_form,
  indefinite_form, none_left, one_more,
}
use pkcs.Ber.Cursor.{
  At, At-length, At-advance, At-rewrite, At-take, At-parts, At-content, length-parts, slice_in-At,
}
use pkcs.Ber.Header.{kind_of_primitive, kind_of_constructed}
use pkcs.Ber.HeaderRun.{read_header_run, read_header-indefinite}
use pkcs.Ber.Loop.{
  Encodes-length, IsTag-length, LengthOf-length, goes_on-definite, goes_on-indefinite,
}

-- What ends a list of objects: the end of the content, or the end-of-contents octets.
abbrev pub Ends : Bool → ℕ → ℕ → Bytes → Type 0
Ends false here end ys = here ≡ end
Ends true here end ys = (zs : Bytes) × (ys ≡ 0 ∷ 0 ∷ zs)

Ends-room :
    (open_form : Bool) (offset here end : ℕ) (ys : Bytes)
    → Ends open_form here end ys
    → offset < here
    → open_form ≡ false
    → offset < end
Ends-room false offset here end ys e h f = omega arith
Ends-room true offset here end ys e h f = cc

goes_on-one_more :
    (open_form : Bool) (ber : Bytes) (offset end : ℕ) (first ys : Bytes)
    → At ber offset (first ++ ys)
    → 2 ≤ length first
    → IsUnambiguous open_form first
    → (open_form ≡ false → offset < end)
    → goes_on ber offset end open_form ≡ ok true
goes_on-one_more false ber offset end first ys at two plain room =
    goes_on-definite ber offset end ∙ ap ok (lt→ltb offset end (room refl))
goes_on-one_more true ber offset end [] ys at two plain room = absurd (omega arith)
goes_on-one_more true ber offset end (b ∷ []) ys at two plain room = absurd (omega arith)
goes_on-one_more true ber offset end (b ∷ c ∷ bs) ys at two plain room =
    goes_on-indefinite ber offset end b c (bs ++ ys) at ∙ ground arith

goes_on-none_left :
    (open_form : Bool) (ber : Bytes) (offset end : ℕ) (ys : Bytes)
    → At ber offset ys
    → Ends open_form offset end ys
    → goes_on ber offset end open_form ≡ ok false
goes_on-none_left false ber offset end ys at e =
    goes_on-definite ber offset end ∙ ap ok (le→ltb_false offset end (omega arith))
goes_on-none_left true ber offset end ys at (zs, e) =
    goes_on-indefinite ber offset end 0 0 zs (At-rewrite ber offset ys (0 ∷ 0 ∷ zs) e at)

mutual
  unfolding read_object

  pub read_object_run :
      {levels : ℕ} {obj : Object} {bs : Bytes}
      → Encodes levels obj bs
      → (fuel : ℕ) (ber : Bytes) (offset depth : ℕ) (ys : Bytes) → At ber offset (bs ++ ys)
      → levels + depth ≤ max_nesting_depth + 1
      → length bs ≤ fuel
      → read_object fuel ber offset depth ≡ ok (obj, offset + length bs)
  read_object_run e zero ber offset depth ys at deep enough =
      absurd (omega (arith, Encodes-length _ _ _ e))
  read_object_run (primitive_form {levels} {n} {tag} {content} {bs} ls form kind e size whole)
        (suc fuel) ber offset depth ys at deep enough =
      let at' = At-parts ber offset bs tag ls content ys whole at in
      let here = At-content ber offset tag ls (content ++ ys) at' in
      let start = offset + length tag + length ls in
      let room : n ≤ length (content ++ ys) = omega (arith, e, length-append_bytes content ys) in
      let bytes = All-append_left IsByte tag (ls ++ (content ++ ys)) at'.bytes in
      let end : start + n ≡ offset + length bs = omega (lengths, e, ap length whole) in
      rw (
        read_header_run ber offset depth n tag ls (content ++ ys) at' form size room (omega arith),
        kind_of_primitive tag bytes kind,
        slice_in-At ber start (start + n) content ys here (omega (arith, e)),
        end,
      )
  read_object_run
        (definite_form {levels = levels} {tag} {bs} {objs} ls content form kind size all whole)
        (suc fuel) ber offset depth ys at deep enough =
      let at' = At-parts ber offset bs tag ls content ys whole at in
      let n = length content in
      let here = At-content ber offset tag ls (content ++ ys) at' in
      let start = offset + length tag + length ls in
      let room : n ≤ length (content ++ ys) = omega (arith, length-append_bytes content ys) in
      let bytes = All-append_left IsByte tag (ls ++ (content ++ ys)) at'.bytes in
      let end : start + n ≡ offset + length bs = omega (lengths, ap length whole) in
      let inside = At-take ber start (start + n) content ys here refl in
      let inside' = At-rewrite _ start content (content ++ []) (sym (append-nil content)) inside in
      let parts = length-parts bs tag ls content whole in
      let octets = LengthOf-length n ls size in
      let shorter : length content < fuel = omega (arith, parts, octets, IsTag-length tag form) in
      rw (
        read_header_run ber offset depth n tag ls (content ++ ys) at' form size room (omega arith),
        kind_of_constructed tag bytes kind,
        prefix_in-take {E = Error} ber (start + n) (
            omega
              (arith, At-length ber start (content ++ ys) here, length-append_bytes content ys)),
        read_objects_run all fuel (take (start + n) ber) start (start + n) depth [] inside' refl
            (omega arith) shorter,
        end,
      )
  read_object_run (indefinite_form {levels = levels} {tag} {bs} {objs} content form kind all whole)
        (suc fuel) ber offset depth ys at deep enough =
      let at' = At-parts ber offset bs tag (128 ∷ []) (content ++ end_of_contents) ys whole at in
      let start = offset + length tag + 1 in
      let here = At-content ber offset tag (128 ∷ []) (content ++ end_of_contents ++ ys) at' in
      let here' =
        At-rewrite ber start (content ++ end_of_contents ++ ys) (content ++ (0 ∷ 0 ∷ ys))
          (append_assoc content end_of_contents ys) here in
      let parts = length-parts bs tag (128 ∷ []) (content ++ end_of_contents) whole in
      let inner = length-append_bytes content end_of_contents in
      let end : start + length content + 2 ≡ offset + length bs = omega (arith, parts, inner) in
      let shorter : length content < fuel = omega (arith, parts, inner, IsTag-length tag form) in
      let room = length-append_bytes (content ++ end_of_contents) ys in
      rw (
        read_header-indefinite ber offset depth tag (content ++ end_of_contents ++ ys) at' form kind
            (omega (arith, room, inner)) (omega arith),
        read_objects_run all fuel ber start (start + 0) depth (0 ∷ 0 ∷ ys) here' (ys, refl)
            (omega arith) shorter,
        end,
      )

  pub read_objects_run :
      {levels : ℕ} {open_form : Bool} {objs : Objects} {bs : Bytes}
      → EncodesAll levels open_form objs bs
      → (fuel : ℕ) (ber : Bytes) (offset end depth : ℕ) (ys : Bytes) → At ber offset (bs ++ ys)
      → Ends open_form (offset + length bs) end ys
      → levels + depth ≤ max_nesting_depth
      → length bs < fuel
      → read_objects fuel ber offset end open_form depth ≡ ok (objs, offset + length bs)
  read_objects_run e zero ber offset end depth ys at ends deep enough = absurd (omega arith)
  read_objects_run (none_left {open_form = open_form} {bs} e) (suc fuel) ber offset end depth ys at
        ends deep enough =
      let at' = At-rewrite ber offset (bs ++ ys) ys (ap (λ (t : Bytes). t ++ ys) e) at in
      let here : offset + length bs ≡ offset = omega (arith, ap length e) in
      rw here (
        rw (
          goes_on-none_left open_form ber offset end ys at'
            (subst (λ here. Ends open_form here end ys) here ends)))
  read_objects_run (one_more {open_form = open_form} {bs = bs} first rest one plain all e)
        (suc fuel) ber offset end depth ys at ends deep enough =
      let at' =
        At-rewrite ber offset (bs ++ ys) (first ++ (rest ++ ys))
          (ap (λ (t : Bytes). t ++ ys) e ∙ append_assoc first rest ys) at in
      let two = Encodes-length _ _ _ one in
      let parts : length bs ≡ length first + length rest = omega (lengths, ap length e) in
      let behind = At-advance ber offset first (rest ++ ys) at' in
      let here : offset + length bs ≡ offset + length first + length rest = omega (arith, parts) in
      rw (
        goes_on-one_more open_form ber offset end first (rest ++ ys) at' two plain
            (Ends-room open_form offset _ end ys ends (omega (arith, parts))),
        read_object_run one fuel ber offset (depth + 1) (rest ++ ys) at' (omega arith)
            (omega arith),
        read_objects_run all fuel ber (offset + length first) end depth ys behind
            (subst (λ here. Ends open_form here end ys) here ends) (omega arith) (omega arith),
        here,
      )
