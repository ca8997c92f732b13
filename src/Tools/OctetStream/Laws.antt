-- ===== src/Tools/OctetStream/Laws.antt =====
-- What the operations of an octetStream do to its content.
use spdz_yao.Base.{
  ℕ, ◌+◌, ◌-◌, ◌*◌, ◌%◌, ◌^◌, ◌≤◌, ◌<◌, min, ◌≡◌, refl, sym, ap, ap₂, ◌∙◌, Bool, true, false, ◌==◌,
  ltb, if◌then◌else◌, List, ◌++◌, length, take, drop, replicate, length-append, length-take,
  length-drop, length-replicate, append_assoc, Result, ok, arith,
}
use spdz_yao.Tools.OctetStream.{OctetStream, resize_precise, resize, append_no_resize, append}
use spdz_yao.Tools.OctetStream.Content.{content, Valid, take-append, take-length, take-take}

-- Writing puts the octets behind the content.
pub record Appended (os : OctetStream) (xs : List ℕ) (r : Result OctetStream) : Type 0 where
  pub os' : OctetStream
  pub succeeds : r ≡ ok os'
  pub written : content os' ≡ content os ++ xs
  pub ptr_same : os'.ptr ≡ os.ptr
  pub len_more : os'.len ≡ os.len + length xs
  pub valid : Valid os'

append_no_resize-Appended :
    (xs : List ℕ) (os : OctetStream)
    → Valid os
    → os.len + length xs ≤ length os.octets
    → Appended os xs (append_no_resize xs os)
unfolding append_no_resize content
append_no_resize-Appended xs os (read, held) room =
    let before = take os.len os.octets in
    let after = drop (os.len + length xs) os.octets in
    let size : length before ≡ os.len = omega (arith, length-take os.len os.octets) in
    let fits : ltb (length os.octets) (os.len + length xs) ≡ false = ground arith in
    let total : os.len + length xs ≡ length (before ++ xs) =
      omega (arith, size, length-append before xs) in
    record {
      os' = record os { octets = before ++ (xs ++ after); len = os.len + length xs };
      succeeds = rw fits refl;
      written =
          ap₂ take total (sym (append_assoc before xs after)) ∙ take-length (before ++ xs) after;
      ptr_same = refl;
      len_more = refl;
      valid = (
        omega arith,
        omega (
          arith,
          length-append before (xs ++ after),
          length-append xs after,
          size,
          length-drop (os.len + length xs) os.octets,
        ),
      );
    }

-- A stream that holds the same in a buffer of `l` octets at least.
pub record Roomy (os : OctetStream) (l : ℕ) (os' : OctetStream) : Type 0 where
  pub same : content os' ≡ content os
  pub room : l ≤ length os'.octets
  pub len_same : os'.len ≡ os.len
  pub ptr_same : os'.ptr ≡ os.ptr

branch-Roomy :
    (os : OctetStream) (l : ℕ) (test : Bool) (x y : OctetStream)
    → (test ≡ true → Roomy os l x)
    → (test ≡ false → Roomy os l y)
    → Roomy os l (if test then x else y)
branch-Roomy os l true x y f g = f refl
branch-Roomy os l false x y f g = g refl

resize_precise-Roomy :
    (l : ℕ) (os : OctetStream) → Valid os → os.len ≤ l → Roomy os l (resize_precise l os)
unfolding resize_precise content
resize_precise-Roomy l os (read, held) room =
    let kept = min os.len l in
    let all : kept ≡ os.len = omega arith in
    let size : length (take kept os.octets) ≡ os.len = omega (arith, length-take kept os.octets) in
    branch-Roomy os l (l == length os.octets) os _
      (λ e. record { same = refl; room = ground arith; len_same = refl; ptr_same = refl })
      (λ e. record {
        same =
            take-append os.len (take kept os.octets) _ (omega (arith, size))
            ∙ ap (λ k. take os.len (take k os.octets)) all
            ∙ take-take os.len os.len os.octets (omega arith);
        room = omega (
          arith,
          length-append (take kept os.octets) (replicate (l - kept) 0),
          size,
          length-replicate {A = ℕ} (l - kept) 0,
        );
        len_same = refl;
        ptr_same = refl;
      })

-- `resize` makes room for `l` octets, unless twice as many overflow.
pub resize-Roomy :
    (l : ℕ) (os : OctetStream) → Valid os → os.len ≤ l → l < 2 ^ 63 → Roomy os l (resize l os)
unfolding resize
resize-Roomy l os valid room small =
    branch-Roomy os l (ltb l (length os.octets)) os _
      (λ e. record { same = refl; room = ground arith; len_same = refl; ptr_same = refl })
      (λ e.
        let twice : 2 * l % 2 ^ 64 ≡ 2 * l = omega arith in
        let r = resize_precise-Roomy (2 * l % 2 ^ 64) os valid (omega arith) in
        record {
          same = r.same;
          room = omega (arith, r.room);
          len_same = r.len_same;
          ptr_same = r.ptr_same;
        })

-- A write into a stream that has been given room for it.
pub Roomy-Appended :
    (xs : List ℕ) (os os' : OctetStream)
    → Valid os
    → Roomy os (os.len + length xs) os'
    → Appended os xs (append_no_resize xs os')
Roomy-Appended xs os os' (read, held) r =
    let a =
      append_no_resize-Appended xs os'
        (omega (arith, r.ptr_same, r.len_same), omega (arith, r.room, r.len_same))
        (omega (arith, r.room, r.len_same)) in
    record {
      os' = a.os';
      succeeds = a.succeeds;
      written = a.written ∙ ap (λ ys. ys ++ xs) r.same;
      ptr_same = a.ptr_same ∙ r.ptr_same;
      len_more = a.len_more ∙ ap (λ k. k + length xs) r.len_same;
      valid = a.valid;
    }

-- `append` puts the octets behind what the stream holds, in the old buffer or in a larger one, as
-- long as there are fewer than 2^63 octets.
pub append-Appended :
    (xs : List ℕ) (os : OctetStream)
    → Valid os
    → os.len + length xs < 2 ^ 63
    → Appended os xs (append xs os)
unfolding append
append-Appended xs os valid small = Roomy-Appended xs os _ valid (
    branch-Roomy os (os.len + length xs) (ltb (length os.octets) (os.len + length xs)) _ os
      (λ e. resize-Roomy (os.len + length xs) os valid (omega arith) small)
      (λ e. record { same = refl; room = ground arith; len_same = refl; ptr_same = refl }))
