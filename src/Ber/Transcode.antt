-- ===== src/Ber/Transcode.antt =====
-- ber.go, `ber2der` as a whole: what it accepts, what it returns, and that it settles.
use pkcs.Base.{
  ◌+◌, ◌*◌, ◌^◌, ◌≤◌, ◌<◌, ◌≡◌, ◌≢◌, ◌↔◌, refl, sym, ap, ◌∙◌, subst, [], ◌++◌, append-nil,
  append_assoc,
}
use pkcs.Base.{
  ◌==◌, length, Bytes, IsByte, All, All-append_left, ok, panic, stuck, arith, length-append_bytes,
}
use pkcs.Base.{
  Ensures, holds, Ensures->>=, Ensures-fail_if, Ensures-ok, Ensures-ne-panic, Ensures-ne-stuck,
}
use pkcs.Ber.Decode.{ber2der, max_nesting_depth}
use pkcs.Ber.Encode.{Object}
use pkcs.Ber.Grammar.{Encodes}
use pkcs.Ber.Cursor.{At-start, At-rewrite}
use pkcs.Ber.Loop.{Encodes-length}
use pkcs.Ber.Sound.{read_object-Ensures}
use pkcs.Ber.Complete.{read_object_run}
use pkcs.Ber.Octets.{der-IsByte}
use pkcs.Ber.Canonical.{der, Encodes-der, length-der}

-- `ber` begins with an encoding of an object, nested at most 501 deep, that is written as `out`.
pub record Transcodes (ber out : Bytes) : Type 0 where
  pub obj : Object
  pub bs : Bytes
  pub back : Bytes
  pub whole : ber ≡ bs ++ back
  pub encodes : Encodes (max_nesting_depth + 1) obj bs
  pub written : out ≡ der obj

ber2der-Ensures : (ber : Bytes) → All IsByte ber → Ensures (λ out. Transcodes ber out) (ber2der ber)
unfolding ber2der
ber2der-Ensures ber bytes = Ensures-fail_if (length ber == 0) _ (λ some.
    Ensures->>=
      (read_object-Ensures (length ber + 1) ber 0 0 (max_nesting_depth + 1) ber (At-start ber bytes)
        (omega arith) (omega arith))
      (λ (obj, _) o. holds (record {
        obj = obj;
        bs = o.bs;
        back = o.back;
        whole = o.whole;
        encodes = o.encodes;
        written = refl;
      })))

ber2der_run : (ber out : Bytes) → All IsByte ber → Transcodes ber out → ber2der ber ≡ ok out
unfolding ber2der
ber2der_run ber out bytes t =
    let at = At-rewrite ber 0 ber (t.bs ++ t.back) t.whole (At-start ber bytes) in
    let size : length ber ≡ length t.bs + length t.back =
      omega (arith, ap length t.whole, length-append_bytes t.bs t.back) in
    let two = Encodes-length _ _ _ t.encodes in
    let read =
      read_object_run t.encodes (length ber + 1) ber 0 0 t.back at (omega arith) (omega arith) in
    ground (arith, read, t.written)

-- On every byte slice `ber2der` returns: it never indexes or slices out of range, and the fuel of the
-- model is enough for every input.
pub ber2der_returns : (ber : Bytes) → All IsByte ber → (ber2der ber ≢ panic) × (ber2der ber ≢ stuck)
ber2der_returns ber bytes =
    (Ensures-ne-panic (ber2der-Ensures ber bytes), Ensures-ne-stuck (ber2der-Ensures ber bytes))

-- `ber2der` succeeds with `out` exactly on the byte slices that begin with an encoding of the
-- grammar, nested at most 501 deep, of an object that is written as `out`.
pub ber2der_iff : (ber out : Bytes) → All IsByte ber → (ber2der ber ≡ ok out) ↔ Transcodes ber out
ber2der_iff ber out bytes =
    (λ e. Ensures-ok (ber2der-Ensures ber bytes) e, λ t. ber2der_run ber out bytes t)

written_bytes :
    (ber out : Bytes) → All IsByte ber → Transcodes ber out → length out < 2 ^ 31 → All IsByte out
written_bytes ber out bytes t small =
    let whole = subst (λ (xs : Bytes). All IsByte xs) t.whole bytes in
    let here =
      der-IsByte t.encodes (All-append_left IsByte t.bs t.back whole)
        (omega (arith, ap length t.written)) in
    subst (λ (xs : Bytes). All IsByte xs) (sym t.written) here

-- `ber2der` settles: what it returns, if shorter than 2 ^ 31 bytes, is transcoded to itself.
pub ber2der-ber2der :
    (ber out : Bytes)
    → All IsByte ber
    → ber2der ber ≡ ok out
    → length out < 2 ^ 31
    → ber2der out ≡ ok out
ber2der-ber2der ber out bytes e small =
    let t = Ensures-ok (ber2der-Ensures ber bytes) e in
    let again : Transcodes out out = record {
      obj = t.obj;
      bs = out;
      back = [];
      whole = sym (append-nil out);
      encodes =
          subst (λ (xs : Bytes). Encodes (max_nesting_depth + 1) t.obj xs) (sym t.written)
            (Encodes-der t.encodes (omega (arith, ap length t.written)));
      written = t.written;
    } in
    ber2der_run out out (written_bytes ber out bytes t small) again

-- The output is at most three times as long as the input, on inputs below 2 ^ 31 / 3 bytes.
pub length-ber2der :
    (ber out : Bytes)
    → All IsByte ber
    → 3 * length ber < 2 ^ 31
    → ber2der ber ≡ ok out
    → length out ≤ 3 * length ber
length-ber2der ber out bytes small e =
    let t = Ensures-ok (ber2der-Ensures ber bytes) e in
    let size : length ber ≡ length t.bs + length t.back =
      omega (arith, ap length t.whole, length-append_bytes t.bs t.back) in
    omega (arith, length-der t.encodes (omega arith), ap length t.written)

-- Bytes behind a message do not change its transcoding: they are dropped.
pub ber2der-append :
    (ber more out : Bytes)
    → All IsByte (ber ++ more)
    → ber2der ber ≡ ok out
    → ber2der (ber ++ more) ≡ ok out
ber2der-append ber more out bytes e =
    let t = Ensures-ok (ber2der-Ensures ber (All-append_left IsByte ber more bytes)) e in
    ber2der_run (ber ++ more) out bytes (record {
      obj = t.obj;
      bs = t.bs;
      back = t.back ++ more;
      whole = ap (λ (xs : Bytes). xs ++ more) t.whole ∙ append_assoc t.bs t.back more;
      encodes = t.encodes;
      written = t.written;
    })
