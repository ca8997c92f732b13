-- ===== src/Tools/FlexBuffer.antt =====
-- Tools/FlexBuffer.h and Tools/FlexBuffer.cpp: the buffers that messages between the parties are put
-- together in and read from, and the store that keeps received messages in memory or in files.
pub mod Store
pub mod Stream
use spdz_yao.Base.{
  ℕ, zero, suc, ◌+◌, ◌-◌, ◌*◌, ◌%◌, ◌^◌, Bool, true, false, not, ◌&&◌, ◌==◌, ltb, if◌then◌else◌,
  List, [], ◌∷◌, ◌++◌, length, take, drop, replicate, Result, ok, err, ◌>>=◌, fault,
}

-- `buf` has `max_len` octets; `ptr` is an offset into it. A buffer that has been moved or is new has
-- none.
pub record FlexBuffer : Type 0 where
  pub buf : List ℕ
  pub ptr : ℕ
  pub len : ℕ

abbrev pub empty_buffer : FlexBuffer
empty_buffer = record { buf = []; ptr = 0; len = 0 }

-- `SendBuffer::resize_copy`: the octets so far in a new array.
unfoldable pub resize_copy : ℕ → FlexBuffer → FlexBuffer
resize_copy new_max_len b = record b { buf = take b.len b.buf ++ replicate (new_max_len - b.len) 0 }

unfoldable pub allocate : ℕ → FlexBuffer → FlexBuffer
allocate size b =
    if ltb (length b.buf) (b.len + size) then resize_copy (2 * (b.len + size) % 2 ^ 64) b else b

unfoldable pub serialize_no_allocate : List ℕ → FlexBuffer → Result FlexBuffer
serialize_no_allocate source b =
    if ltb (length b.buf) (b.len + length source)
    then err fault
    else ok (record b {
      buf = take b.len b.buf ++ (source ++ drop (b.len + length source) b.buf);
      len = b.len + length source;
    })

-- `SendBuffer::serialize`.
unfoldable pub serialize : List ℕ → FlexBuffer → Result FlexBuffer
serialize source b = serialize_no_allocate source (allocate (length source) b)

unfoldable pub clear : FlexBuffer → FlexBuffer
clear b = record b { len = 0 }

-- `ReceivedMsg::resize`.
unfoldable pub resize_message : ℕ → FlexBuffer → FlexBuffer
resize_message new_len b =
    if ltb (length b.buf) new_len
    then record { buf = replicate new_len 0; ptr = 0; len = new_len }
    else record b { ptr = 0; len = new_len }

-- `ReceivedMsg::unserialize`, without CHECK_BUFFER.
unfoldable pub unserialize : ℕ → FlexBuffer → Result (List ℕ × FlexBuffer)
unserialize size b =
    if ltb (length b.buf) (b.ptr + size)
    then err fault
    else ok (take size (drop b.ptr b.buf), record b { ptr = b.ptr + size })

-- What `ReceivedMsgStore::push` writes to a file.
pub record StoredMsg : Type 0 where
  pub len : ℕ
  pub ptr : ℕ
  pub octets : List ℕ

-- `N` is 1: one message is in memory, in `mem[0]`, or none. The files are queued by name.
pub record ReceivedMsgStore : Type 0 where
  pub mem : FlexBuffer
  pub mem_size : ℕ
  pub files : List StoredMsg
  pub total_size : ℕ

abbrev pub empty_store : ReceivedMsgStore
empty_store = record { mem = empty_buffer; mem_size = 0; files = []; total_size = 0 }

abbrev pub no_files : List StoredMsg → Bool
no_files [] = true
no_files (file ∷ files) = false

-- A message that goes to memory is moved: its own buffer is empty after it.
unfoldable pub push : FlexBuffer → ReceivedMsgStore → FlexBuffer × ReceivedMsgStore
push msg store =
    let counted = record store { total_size = store.total_size + msg.len } in
    if not (store.mem_size == 1) && no_files store.files
    then (empty_buffer, record counted { mem = msg; mem_size = store.mem_size + 1 })
    else (
      msg,
      record counted {
        files =
            store.files
            ++ record { len = msg.len; ptr = msg.ptr; octets = take msg.len msg.buf } ∷ [];
      },
    )

unfoldable pub load : StoredMsg → FlexBuffer → FlexBuffer
load file msg =
    let msg' = resize_message file.len msg in
    record { buf = file.octets ++ drop file.len msg'.buf; ptr = file.ptr; len = file.len }

pop_file : List StoredMsg → FlexBuffer → ReceivedMsgStore → Bool × FlexBuffer × ReceivedMsgStore
unfolding load
pop_file [] msg store = (false, msg, store)
pop_file (file ∷ files) msg store = (true, load file msg, record store { files = files })

-- `ReceivedMsgStore::pop`, with what it leaves in `msg`.
unfoldable pub pop : FlexBuffer → ReceivedMsgStore → Bool × FlexBuffer × ReceivedMsgStore
unfolding pop_file
pop msg store =
    if not (store.mem_size == 0)
    then (true, store.mem, record store { mem = empty_buffer; mem_size = store.mem_size - 1 })
    else pop_file store.files msg store
