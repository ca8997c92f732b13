-- ===== src/Tools/OctetStream/Numbers.antt =====
-- Numbers written to an octetStream and read from it.
use spdz_yao.Base.{
  ℕ, ◌+◌, ◌-◌, ◌%◌, ◌*◌, ◌^◌, ◌<◌, ◌≡◌, refl, sym, ap, ◌∙◌, false, ltb, List, [], ◌++◌, length,
  take, drop, append-nil, length-append, length-take, length-drop, Result, ok, arith,
}
use spdz_yao.Tools.Length.{encode_length, decode_length-encode_length, length-encode_length}
use spdz_yao.Tools.OctetStream.{OctetStream, consume, store_int, get_int, resize}
use spdz_yao.Tools.OctetStream.Content.{
  content, unread, Valid, drop-append, take-length, drop-length, drop-take, drop-drop, take-take,
}
use spdz_yao.Tools.OctetStream.Laws.{Appended, Roomy, Roomy-Appended, resize-Roomy}

-- What is written is read last.
pub unread-Appended :
    {os : OctetStream} {xs : List ℕ} {r : Result OctetStream} (a : Appended os xs r)
    → Valid os
    → unread a.os' ≡ unread os ++ xs
unfolding unread
unread-Appended {os} {xs} a (read, held) =
    ap (drop a.os'.ptr) a.written
    ∙ ap (λ p. drop p (content os ++ xs)) a.ptr_same
    ∙ drop-append os.ptr (content os) xs
        (unfold content in omega (arith, length-take os.len os.octets))

-- `store_int` of a number that it takes puts its octets behind what the stream holds, as long as there
-- are fewer than 2^63 octets.
pub store_int-Appended :
    (a n_bytes : ℕ) (os : OctetStream) (buff : List ℕ)
    → Valid os
    → os.len + n_bytes < 2 ^ 63
    → encode_length a n_bytes ≡ ok buff
    → Appended os buff (store_int a n_bytes os)
unfolding store_int
store_int-Appended a n_bytes os buff valid small encodes =
    let size = length-encode_length a n_bytes encodes in
    let room : Roomy os (os.len + length buff) (resize (os.len + n_bytes) os) =
      rw size (resize-Roomy (os.len + n_bytes) os valid (omega arith) small) in
    rw encodes (Roomy-Appended buff os _ valid room)

-- Reading takes the first octets that are unread.
pub consume-unread :
    (os : OctetStream) (xs ys : List ℕ)
    → Valid os
    → unread os ≡ xs ++ ys
    → (os' : OctetStream) × (consume (length xs) os ≡ ok (xs, os')) × (unread os' ≡ ys) × Valid os'
unfolding consume unread content
consume-unread os xs ys (read, held) h =
    let left = os.len - os.ptr in
    let rest : take left (drop os.ptr os.octets) ≡ xs ++ ys =
      sym (drop-take os.ptr left os.len os.octets (omega arith)) ∙ h in
    let size : length xs + length ys ≡ left = omega (
      arith,
      length-append xs ys,
      sym (ap length h),
      length-drop os.ptr (take os.len os.octets),
      length-take os.len os.octets,
    ) in
    let fits : ltb (length os.octets) (os.ptr + length xs) ≡ false = ground arith in
    let front : take (length xs) (drop os.ptr os.octets) ≡ xs =
      sym (take-take (length xs) left (drop os.ptr os.octets) (omega arith))
      ∙ ap (take (length xs)) rest
      ∙ take-length xs ys in
    let gone =
      drop-drop os.ptr (length xs) (os.ptr + length xs) (take os.len os.octets) refl
      ∙ ap (drop (length xs)) h
      ∙ drop-length xs ys in
    (record os { ptr = os.ptr + length xs }, rw (fits, front) refl, gone, (omega arith, held))

-- `get_int` reads the number whose octets are the first unread ones, and leaves the others.
pub get_int-encode_length :
    (a n_bytes : ℕ) (os : OctetStream) (buff ys : List ℕ)
    → Valid os
    → encode_length a n_bytes ≡ ok buff
    → unread os ≡ buff ++ ys
    → (os' : OctetStream) × (get_int n_bytes os ≡ ok (a % 2 ^ (8 * n_bytes), os'))
      × (unread os' ≡ ys)
      × Valid os'
unfolding get_int
get_int-encode_length a n_bytes os buff ys valid encodes h =
    let (os', consumes, rest, valid') = consume-unread os buff ys valid h in
    let sized : consume n_bytes os ≡ ok (buff, os') =
      ap (λ n. consume n os) (sym (length-encode_length a n_bytes encodes)) ∙ consumes in
    (os', rw (sized, decode_length-encode_length a n_bytes buff encodes), rest, valid')

-- A number that encode_length takes for a field of some octets, stored to a stream of which all before
-- has been read, is read back modulo 2^8 to the power of the number of octets, and all has been read
-- again, for fewer than 2^63 octets. So it comes back itself when the field has room for it.
pub get_int-store_int :
    (a n_bytes : ℕ) (os : OctetStream) (buff : List ℕ)
    → Valid os
    → unread os ≡ []
    → os.len + n_bytes < 2 ^ 63
    → encode_length a n_bytes ≡ ok buff
    → (os' : OctetStream) × (os'' : OctetStream) × (store_int a n_bytes os ≡ ok os')
      × (get_int n_bytes os' ≡ ok (a % 2 ^ (8 * n_bytes), os''))
      × (unread os'' ≡ [])
      × Valid os''
get_int-store_int a n_bytes os buff valid none small encodes =
    let stored = store_int-Appended a n_bytes os buff valid small encodes in
    let all : unread stored.os' ≡ buff ++ [] =
      unread-Appended stored valid ∙ ap (λ l. l ++ buff) none ∙ sym (append-nil buff) in
    let (os'', gets, rest, valid'') =
      get_int-encode_length a n_bytes stored.os' buff [] stored.valid encodes all in
    (stored.os', os'', stored.succeeds, gets, rest, valid'')
