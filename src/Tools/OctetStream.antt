-- ===== src/Tools/OctetStream.antt =====
-- Tools/octetStream.h and Tools/octetStream.cpp: a buffer of octets with a write and a read head.
pub mod Content
pub mod Laws
pub mod Numbers
use spdz_yao.Base.{
  ℕ, zero, suc, ◌+◌, ◌-◌, ◌*◌, ◌%◌, ◌^◌, min, Bool, ◌==◌, ltb, if◌then◌else◌, List, [], ◌∷◌, ◌++◌,
  length, take, drop, replicate, Result, ok, err, ◌>>=◌, fault,
}
use spdz_yao.Gc.Instruction.{sign_extend}
use spdz_yao.Tools.Length.{encode_length, decode_length}

-- `octets` are the `mxlen` octets of `data`. `len` is the write head and `ptr` the read head.
pub record OctetStream : Type 0 where
  pub octets : List ℕ
  pub len : ℕ
  pub ptr : ℕ

abbrev pub size_mod : ℕ
size_mod = 2 ^ 64

-- `octetStream()`.
abbrev pub empty_stream : OctetStream
empty_stream = record { octets = []; len = 0; ptr = 0 }

-- `new octet[l]` and the copy of what is stored. What the other octets are is left open in C++; here
-- they are 0.
unfoldable pub resize_precise : ℕ → OctetStream → OctetStream
resize_precise l os =
    let kept = min os.len l in
    if l == length os.octets
    then os
    else record os { octets = take kept os.octets ++ replicate (l - kept) 0 }

unfoldable pub resize : ℕ → OctetStream → OctetStream
resize l os = if ltb l (length os.octets) then os else resize_precise (2 * l % size_mod) os

-- `memcpy(data + len, x, l)` within the buffer.
unfoldable pub append_no_resize : List ℕ → OctetStream → Result OctetStream
append_no_resize xs os =
    if ltb (length os.octets) (os.len + length xs)
    then err fault
    else ok (record os {
      octets = take os.len os.octets ++ (xs ++ drop (os.len + length xs) os.octets);
      len = os.len + length xs;
    })

unfoldable pub append : List ℕ → OctetStream → Result OctetStream
append xs os =
    append_no_resize xs
      (if ltb (length os.octets) (os.len + length xs) then resize (os.len + length xs) os else os)

unfoldable pub consume : ℕ → OctetStream → Result (List ℕ × OctetStream)
consume l os =
    if ltb (length os.octets) (os.ptr + l)
    then err fault
    else ok (take l (drop os.ptr os.octets), record os { ptr = os.ptr + l })

unfoldable pub store_int : ℕ → ℕ → OctetStream → Result OctetStream
store_int a n_bytes os = do
  buff ← encode_length a n_bytes
  append_no_resize buff (resize (os.len + n_bytes) os)

unfoldable pub get_int : ℕ → OctetStream → Result (ℕ × OctetStream)
get_int n_bytes os = do (buff, os') ← consume n_bytes os; res ← decode_length buff; ok (res, os')

unfoldable pub store_bytes : List ℕ → OctetStream → Result OctetStream
store_bytes xs os = do
  buff ← encode_length (length xs) 4
  os' ← append_no_resize buff (resize (os.len + 4 + length xs) os)
  append_no_resize xs os'

unfoldable pub get_bytes : OctetStream → Result (List ℕ × OctetStream)
get_bytes os = do (len, os') ← get_int 4 os; consume len os'

unfoldable pub concat : OctetStream → OctetStream → Result OctetStream
concat other os = append_no_resize (take other.len other.octets) (resize (os.len + other.len) os)

unfoldable pub reset_read_head : OctetStream → OctetStream
reset_read_head os = record os { ptr = 0 }

unfoldable pub reset_write_head : OctetStream → OctetStream
reset_write_head os = record os { len = 0; ptr = 0 }
