-- ===== src/Ber/Sound.antt =====
-- Whatever is read is an encoding of the grammar; nothing panics, and the fuel is enough.
use pkcs.Base.{
  ℕ, zero, suc, ◌+◌, ◌≤◌, ◌<◌, ◌≡◌, refl, sym, ap, ◌∙◌, subst, [], ◌∷◌, ◌++◌, append_assoc,
  append-nil,
}
use mathlib.Core.Path.{subst₂}
use pkcs.Base.{
  Bool, true, false, not, ◌==◌, if◌then◌else◌, Bool-cases, inl, inr, length, Bytes, ok, arith,
  length-append_bytes,
}
use pkcs.Base.{Ensures, holds, Ensures->>=, Ensures-if, Ensures-map, ◌>>=◌, ltb_false→le}
use pkcs.Base.{prefix_in, prefix_in-take, slice_in-slice}
use pkcs.Ber.Decode.{
  Error, read_object, read_objects, max_nesting_depth, goes_on, Header, Res, slice,
}
use pkcs.Ber.Encode.{Object, Objects, primitive, structured, object}
use pkcs.Ber.Grammar.{
  Encodes, EncodesAll, IsUnambiguous, end_of_contents, LengthOf, primitive_form, definite_form,
  indefinite_form, none_left, one_more,
}
use pkcs.Ber.Cursor.{
  At, At-length, At-advance, At-rewrite, At-take, At-content, length-parts, slice-At, Cut, cut,
}
use pkcs.Ber.Header.{HeaderRead, read_header-Ensures}
use pkcs.Ber.Loop.{Encodes-length, IsTag-length, goes_on-definite, goes_on-Ensures}

-- What a successful `read_object` has read.
pub record ObjectRead (levels offset : ℕ) (xs : Bytes) (obj : Object) (end : ℕ) : Type 0 where
  pub bs : Bytes
  pub back : Bytes
  pub whole : xs ≡ bs ++ back
  pub ends : end ≡ offset + length bs
  pub encodes : Encodes levels obj bs

-- What follows the sub-objects.
abbrev Closes : Bool → Bytes → Type 0
Closes false back = back ≡ []
Closes true back = (zs : Bytes) × (back ≡ 0 ∷ 0 ∷ zs)

record ObjectsRead (levels : ℕ) (open_form : Bool) (offset : ℕ) (xs : Bytes) (objs : Objects)
    (end : ℕ) : Type 0 where
  bs : Bytes
  back : Bytes
  whole : xs ≡ bs ++ back
  ends : end ≡ offset + length bs
  closes : Closes open_form back
  encodes : EncodesAll levels open_form objs bs

-- The content behind a header.
module _ (ber : Bytes) (offset levels : ℕ) (xs : Bytes) (at : At ber offset xs) (h : Header)
    (r : HeaderRead ber offset xs h) where
  content-At : At ber h.start r.back
  content-At =
      let whole' = At-rewrite ber offset xs (r.tag ++ (r.octets ++ r.back)) r.whole at in
      let here : h.start ≡ offset + length r.tag + length r.octets =
        omega (arith, r.starts, length-append_bytes r.tag r.octets) in
      subst (λ (s : ℕ). At ber s r.back) (sym here)
        (At-content ber offset r.tag r.octets r.back whole')

  content_shorter : length r.back + 2 ≤ length xs
  content_shorter = omega (
    arith,
    length-parts xs r.tag r.octets r.back r.whole,
    IsTag-length r.tag r.form,
    r.some_octet,
  )

  content-Cut : Cut h.value r.back
  content-Cut = cut h.value r.back (omega (arith, r.fits, At-length ber h.start r.back content-At))

  header_end :
      (content : Bytes)
      → h.start + length content ≡ offset + length (r.tag ++ (r.octets ++ content))
  header_end content = omega (
    arith,
    r.starts,
    length-append_bytes r.tag r.octets,
    length-append_bytes r.tag (r.octets ++ content),
    length-append_bytes r.octets content,
  )

  split_whole :
      (content back : Bytes)
      → r.back ≡ content ++ back
      → xs ≡ (r.tag ++ (r.octets ++ content)) ++ back
  split_whole content back e =
      r.whole ∙ ap (λ (t : Bytes). r.tag ++ (r.octets ++ t)) e ∙ simp append_assoc

  definite_of_primitive : h.constructed ≡ false → h.indefinite ≡ false
  definite_of_primitive kind = elim (Bool-cases h.indefinite) [
    | inl e ↦ cc ((r.open_form e).2)
    | inr e ↦ e
  ]

  primitive_read :
      h.constructed ≡ false
      → ObjectRead
          (suc levels)
          offset
          xs
          (primitive h.tag_bytes h.value (slice ber h.start (h.start + h.value)))
          (h.start + h.value)
  primitive_read kind =
      let c = content-Cut in
      let here = At-rewrite ber h.start r.back (c.front ++ c.back) c.whole content-At in
      let same =
        slice-At ber h.start (h.start + h.value) c.front c.back here (omega (arith, c.size)) in
      record {
        bs = r.tag ++ (r.octets ++ c.front);
        back = c.back;
        whole = split_whole c.front c.back c.whole;
        ends = omega (arith, header_end c.front, c.size);
        encodes =
            subst₂
              (λ (t content : Bytes).
                Encodes (suc levels) (primitive t h.value content) (r.tag ++ (r.octets ++ c.front)))
              (sym r.same_tag) (sym same)
              (primitive_form r.octets r.form (r.is_primitive kind) (sym c.size)
                (r.definite (definite_of_primitive kind)) refl);
      }

  -- The loop over the sub-objects from the content on, in either form.
  abbrev contents : ℕ → ℕ → Bool → Res (Object × ℕ)
  contents fuel depth open_form = do
    let content_end = h.start + h.value
    narrowed ← if open_form then ok ber else prefix_in ber content_end
    (objs, end) ← read_objects fuel narrowed h.start content_end open_form depth
    ok (structured h.tag_bytes objs, if open_form then end + 2 else content_end)

  -- What the loop over the sub-objects promises, on inputs that are shorter than `xs`.
  abbrev LoopReads : ℕ → ℕ → Bool → Type 0
  LoopReads fuel depth open_form =
      (ber' : Bytes) (offset' end : ℕ) (ys : Bytes)
      → At ber' offset' ys
      → (open_form ≡ false → end ≡ offset' + length ys)
      → length ys + 2 ≤ length xs
      → Ensures (λ (objs, e). ObjectsRead levels open_form offset' ys objs e)
          (read_objects fuel ber' offset' end open_form depth)

  definite_read :
      h.constructed ≡ true
      → h.indefinite ≡ false
      → (c : Cut h.value r.back) (objs : Objects) (end : ℕ)
      → ObjectsRead levels false h.start c.front objs end
      → ObjectRead (suc levels) offset xs (structured h.tag_bytes objs) (h.start + h.value)
  definite_read kind definite c objs end o =
      let all : c.front ≡ o.bs =
        o.whole ∙ ap (λ (t : Bytes). o.bs ++ t) o.closes ∙ append-nil o.bs in
      let size : LengthOf (length c.front) r.octets =
        subst (λ (n : ℕ). LengthOf n r.octets) (sym c.size) (r.definite definite) in
      let inside : EncodesAll levels false objs c.front =
        subst (λ (t : Bytes). EncodesAll levels false objs t) (sym all) o.encodes in
      record {
        bs = r.tag ++ (r.octets ++ c.front);
        back = c.back;
        whole = split_whole c.front c.back c.whole;
        ends = omega (arith, header_end c.front, c.size);
        encodes =
            subst
              (λ (t : Bytes).
                Encodes (suc levels) (structured t objs) (r.tag ++ (r.octets ++ c.front)))
              (sym r.same_tag)
              (definite_form r.octets c.front r.form (r.is_constructed kind) size inside refl);
      }

  indefinite_read :
      h.constructed ≡ true
      → h.indefinite ≡ true
      → (objs : Objects) (end : ℕ) → ObjectsRead levels true h.start r.back objs end
      → ObjectRead (suc levels) offset xs (structured h.tag_bytes objs) (end + 2)
  indefinite_read kind open_form objs end o =
      let (zs, closes) = o.closes in
      let octets = (r.open_form open_form).0 in
      let tail : r.back ≡ (o.bs ++ end_of_contents) ++ zs =
        o.whole
        ∙ ap (λ (t : Bytes). o.bs ++ t) closes
        ∙ sym (append_assoc o.bs end_of_contents zs) in
      record {
        bs = r.tag ++ (r.octets ++ (o.bs ++ end_of_contents));
        back = zs;
        whole = split_whole (o.bs ++ end_of_contents) zs tail;
        ends = omega (
          arith,
          header_end (o.bs ++ end_of_contents),
          o.ends,
          length-append_bytes o.bs end_of_contents,
        );
        encodes =
            subst
              (λ (t : Bytes).
                Encodes (suc levels) (structured t objs)
                  (r.tag ++ (r.octets ++ (o.bs ++ end_of_contents))))
              (sym r.same_tag)
              (indefinite_form o.bs r.form (r.is_constructed kind) o.encodes
                (ap (λ (t : Bytes). r.tag ++ (t ++ (o.bs ++ end_of_contents))) octets));
      }

  contents-Ensures :
      (fuel depth : ℕ) (open_form : Bool)
      → h.constructed ≡ true
      → h.indefinite ≡ open_form
      → LoopReads fuel depth open_form
      → Ensures
          (λ (obj, e). ObjectRead (suc levels) offset xs obj e)
          (contents fuel depth open_form)
  contents-Ensures fuel depth false kind form loop =
      let c = content-Cut in
      let here = At-rewrite ber h.start r.back (c.front ++ c.back) c.whole content-At in
      let inside =
        At-take ber h.start (h.start + h.value) c.front c.back here (omega (arith, c.size)) in
      let parts = length-append_bytes c.front c.back in
      rw (prefix_in-take {E = Error} ber (h.start + h.value) r.fits) (
        Ensures->>=
          (loop _ h.start (h.start + h.value) c.front inside (λ _. omega (arith, c.size))
            (omega (arith, content_shorter, parts, ap length c.whole)))
          (λ (objs, e) o. holds (definite_read kind form c objs e o)))
  contents-Ensures fuel depth true kind form loop =
      Ensures->>= (loop ber h.start (h.start + h.value) r.back content-At (λ e. cc) content_shorter)
        (λ (objs, e) o. holds (indefinite_read kind form objs e o))

-- What the test of the loop says of the bytes from the offset on.
record TestSeen (open_form : Bool) (xs : Bytes) (more : Bool) : Type 0 where
  goes :
      more ≡ true
      → (front back : Bytes) → xs ≡ front ++ back
      → 2 ≤ length front
      → IsUnambiguous open_form front
  stops : more ≡ false → Closes open_form xs

nothing_left : (xs : Bytes) → length xs ≡ 0 → xs ≡ []
nothing_left [] h = refl
nothing_left (x ∷ xs) h = absurd (omega arith)

IsUnambiguous-front :
    (b c : ℕ) (ys front back : Bytes)
    → not (if b == 0 then c == 0 else false) ≡ true
    → (b ∷ c ∷ ys) ≡ front ++ back
    → 2 ≤ length front
    → IsUnambiguous true front
IsUnambiguous-front b c ys [] back t e h = tt
IsUnambiguous-front b c ys (d ∷ []) back t e h = tt
IsUnambiguous-front b c ys (d ∷ f ∷ front) back t e h = λ z. ground (arith, e)

test_seen :
    (ber : Bytes) (offset end : ℕ) (open_form : Bool) (xs : Bytes)
    → At ber offset xs
    → (open_form ≡ false → end ≡ offset + length xs)
    → Ensures (TestSeen open_form xs) (goes_on ber offset end open_form)
test_seen ber offset end false xs at tight = rw (goes_on-definite ber offset end) (
    holds (record {
      goes = λ m front back e h. tt;
      stops = λ m. nothing_left xs (omega (arith, tight refl, ltb_false→le offset end m));
    }))
test_seen ber offset end true xs at tight =
    Ensures-map
      (λ more s. record {
        goes = λ m front back e h.
            IsUnambiguous-front s.b s.c s.back front back (sym s.test ∙ m) (sym s.whole ∙ e) h;
        stops = λ m. (s.back, s.whole ∙ ground (arith, s.test));
      })
      (goes_on-Ensures ber offset end xs at)

one_more_read :
    (levels offset next : ℕ) (open_form : Bool) (xs : Bytes) (obj : Object) (objs : Objects)
    (end : ℕ)
    → TestSeen open_form xs true
    → (o : ObjectRead levels offset xs obj next) → ObjectsRead levels open_form next o.back objs end
    → ObjectsRead levels open_form offset xs (object obj objs) end
one_more_read levels offset next open_form xs obj objs end t o os = record {
  bs = o.bs ++ os.bs;
  back = os.back;
  whole = o.whole ∙ ap (λ (t : Bytes). o.bs ++ t) os.whole ∙ sym (append_assoc o.bs os.bs os.back);
  ends = omega (arith, o.ends, os.ends, length-append_bytes o.bs os.bs);
  closes = os.closes;
  encodes =
      one_more o.bs os.bs o.encodes
        (t.goes refl o.bs o.back o.whole (Encodes-length _ _ _ o.encodes)) os.encodes refl;
}

mutual
  unfolding read_object

  pub read_object-Ensures :
      (fuel : ℕ) (ber : Bytes) (offset depth levels : ℕ) (xs : Bytes)
      → At ber offset xs
      → levels + depth ≡ max_nesting_depth + 1
      → length xs < fuel
      → Ensures
          (λ (obj, end). ObjectRead levels offset xs obj end)
          (read_object fuel ber offset depth)
  read_object-Ensures zero ber offset depth levels xs at deep enough = absurd (omega arith)
  read_object-Ensures (suc fuel) ber offset depth zero xs at deep enough =
      Ensures->>= (read_header-Ensures ber offset depth xs at)
        (λ h (r, shallow). absurd (omega arith))
  read_object-Ensures (suc fuel) ber offset depth (suc levels) xs at deep enough =
      Ensures->>= (read_header-Ensures ber offset depth xs at) (λ h (r, shallow).
        Ensures-if h.constructed
          (λ kind.
            contents-Ensures ber offset levels xs at h r fuel depth h.indefinite kind refl
              (λ ber' offset' end ys at' tight shorter.
                read_objects-Ensures fuel ber' offset' end h.indefinite depth levels ys at' tight
                  (omega arith) (omega arith)))
          (λ kind.
            rw (slice_in-slice {E = Error} ber h.start (h.start + h.value) (omega arith) r.fits)
              (holds (primitive_read ber offset levels xs at h r kind))))

  read_objects-Ensures :
      (fuel : ℕ) (ber : Bytes) (offset end : ℕ) (open_form : Bool) (depth levels : ℕ) (xs : Bytes)
      → At ber offset xs
      → (open_form ≡ false → end ≡ offset + length xs)
      → levels + depth ≡ max_nesting_depth
      → length xs + 1 < fuel
      → Ensures
          (λ (objs, e). ObjectsRead levels open_form offset xs objs e)
          (read_objects fuel ber offset end open_form depth)
  read_objects-Ensures zero ber offset end open_form depth levels xs at tight deep enough =
      absurd (omega arith)
  read_objects-Ensures (suc fuel) ber offset end open_form depth levels xs at tight deep enough =
      Ensures->>= (test_seen ber offset end open_form xs at tight) (λ more t.
        Ensures-if more
          (λ m.
            Ensures->>=
              (read_object-Ensures fuel ber offset (depth + 1) levels xs at (omega arith)
                (omega arith))
              (λ (obj, next) o.
                let at' = At-rewrite ber offset xs (o.bs ++ o.back) o.whole at in
                let behind =
                  subst (λ (n : ℕ). At ber n o.back) (sym o.ends)
                    (At-advance ber offset o.bs o.back at') in
                let parts : length xs ≡ length o.bs + length o.back =
                  omega (arith, ap length o.whole, length-append_bytes o.bs o.back) in
                let two = Encodes-length _ _ _ o.encodes in
                Ensures->>=
                  (read_objects-Ensures fuel ber next end open_form depth levels o.back behind
                    (λ e. omega (arith, tight e, parts, o.ends)) deep (omega (arith, parts, two)))
                  (λ (objs, e) os. holds (
                    one_more_read levels offset next open_form xs obj objs e
                      (subst (λ (b : Bool). TestSeen open_form xs b) m t) o os))))
          (λ m. holds (record {
            bs = [];
            back = xs;
            whole = refl;
            ends = omega arith;
            closes = t.stops m;
            encodes = none_left refl;
          })))
