-- ===== src/Tests/Buffers.antt =====
-- The theorems on buffers and stored messages at concrete octets.
use spdz_yao.Base.{◌≡◌, refl, true, [], ◌∷◌, ◌++◌, ok, ◌>>=◌, arith}
use spdz_yao.Tools.OctetStream.{append}
use spdz_yao.Tools.FlexBuffer.{FlexBuffer, ReceivedMsgStore, push, pop, serialize}
use spdz_yao.Tools.FlexBuffer.Store.{queue, view, ValidStore, queue-push, queue-pop}
use spdz_yao.Tools.FlexBuffer.Stream.{as_stream, serialize-append}

abbrev test_message : FlexBuffer
test_message = record { buf = 7 ∷ 8 ∷ 9 ∷ []; ptr = 1; len = 2 }

-- One message is in memory and one is in a file.
abbrev test_store : ReceivedMsgStore
test_store = record {
  mem = record { buf = 1 ∷ 2 ∷ []; ptr = 0; len = 2 };
  mem_size = 1;
  files = record { len = 1; ptr = 0; octets = 3 ∷ [] } ∷ [];
  total_size = 3;
}

queue-push_example :
    (queue (push test_message test_store).1 ≡ queue test_store ++ view test_message ∷ [])
    × ValidStore (push test_message test_store).1
queue-push_example = queue-push test_message test_store (omega arith) (omega arith, (refl, tt))

queue-pop_example :
    (((pop test_message test_store).0 ≡ true)
      × (view (pop test_message test_store).1 ≡ (1 ∷ 2 ∷ [], 0))
      × (queue (pop test_message test_store).2 ≡ (3 ∷ [], 0) ∷ []))
    × ValidStore (pop test_message test_store).2
unfolding queue
queue-pop_example = queue-pop test_message test_store (omega arith, (refl, tt))

serialize-append_example :
    (serialize (4 ∷ 5 ∷ []) test_message >>= λ b'. ok (as_stream b'))
    ≡ append (4 ∷ 5 ∷ []) (as_stream test_message)
serialize-append_example = serialize-append (4 ∷ 5 ∷ []) test_message (omega arith) (omega arith)
