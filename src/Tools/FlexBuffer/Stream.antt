-- ===== src/Tools/FlexBuffer/Stream.antt =====
-- A FlexBuffer as an octetStream: the conversions between the two, and what they agree on.
use spdz_yao.Base.{
  ℕ, ◌+◌, ◌*◌, ◌%◌, ◌^◌, ◌≤◌, ◌<◌, min, ◌≡◌, refl, ap, ◌∙◌, Bool, true, false, Bool-cases, inl, inr,
  ◌==◌, ltb, if◌then◌else◌, List, length, ok, ◌>>=◌, arith,
}
use spdz_yao.Tools.OctetStream.{
  OctetStream, resize_precise, resize, append_no_resize, append, consume,
}
use spdz_yao.Tools.FlexBuffer.{
  FlexBuffer, resize_copy, allocate, serialize_no_allocate, serialize, unserialize,
}

-- `octetStream(FlexBuffer&)`.
unfoldable pub as_stream : FlexBuffer → OctetStream
as_stream b = record { octets = b.buf; len = b.len; ptr = b.ptr }

-- `FlexBuffer::operator=(octetStream&)`.
unfoldable pub as_buffer : OctetStream → FlexBuffer
as_buffer os = record { buf = os.octets; len = os.len; ptr = os.ptr }

branch-as_stream :
    (test : Bool) (x y : FlexBuffer) (x' y' : OctetStream)
    → (test ≡ true → as_stream x ≡ x')
    → as_stream y ≡ y'
    → as_stream (if test then x else y) ≡ (if test then x' else y')
branch-as_stream true x y x' y' f h = f refl
branch-as_stream false x y x' y' f h = h

grown :
    (l : ℕ) (b : FlexBuffer)
    → b.len ≤ l
    → l < 2 ^ 63
    → length b.buf < l
    → as_stream (resize_copy (2 * l % 2 ^ 64) b) ≡ resize l (as_stream b)
unfolding as_stream resize_copy resize resize_precise
grown l b held small short =
    let twice : 2 * l % 2 ^ 64 ≡ 2 * l = omega arith in
    let no_room : ltb l (length b.buf) ≡ false = ground arith in
    let other : (2 * l == length b.buf) ≡ false = ground arith in
    let all : min b.len (2 * l) ≡ b.len = omega arith in rw (twice, no_room, other, all) refl

written :
    (source : List ℕ) (b : FlexBuffer)
    → (serialize_no_allocate source b >>= λ b'. ok (as_stream b'))
      ≡ append_no_resize source (as_stream b)
unfolding serialize_no_allocate append_no_resize as_stream
written source b = elim (Bool-cases (ltb (length b.buf) (b.len + length source))) [
  | inl short ↦ rw short refl
  | inr room ↦ rw room refl
]

-- `SendBuffer::serialize` does to a buffer what `octetStream::append` does to a stream, for fewer than
-- 2^63 octets.
pub serialize-append :
    (source : List ℕ) (b : FlexBuffer)
    → b.len ≤ length b.buf
    → b.len + length source < 2 ^ 63
    → (serialize source b >>= λ b'. ok (as_stream b')) ≡ append source (as_stream b)
unfolding serialize append allocate as_stream
serialize-append source b held small =
    let total = b.len + length source in
    written source (allocate (length source) b)
    ∙ ap (append_no_resize source) (
        branch-as_stream (ltb (length b.buf) total) _ b _ (as_stream b)
          (λ short. grown total b (omega arith) small (ground arith)) refl)

-- `ReceivedMsg::unserialize` reads what `octetStream::consume` does.
pub unserialize-consume :
    (size : ℕ) (b : FlexBuffer)
    → (unserialize size b >>= λ r. ok (r.0, as_stream r.1)) ≡ consume size (as_stream b)
unfolding unserialize consume as_stream
unserialize-consume size b = elim (Bool-cases (ltb (length b.buf) (b.ptr + size))) [
  | inl short ↦ rw short refl
  | inr room ↦ rw room refl
]
