-- ===== src/Tools/FlexBuffer/Store.antt =====
-- The store of received messages is a queue, wherever it keeps them.
use spdz_yao.Base.{
  ℕ, zero, suc, ◌≤◌, ◌≡◌, refl, sym, ap, ◌∙◌, Bool, true, false, List, [], ◌∷◌, ◌++◌, length, take,
  drop, map, length-take, arith,
}
use spdz_yao.Tools.OctetStream.Content.{take-length}
use spdz_yao.Tools.FlexBuffer.{
  FlexBuffer, StoredMsg, ReceivedMsgStore, push, pop, load, resize_message,
}

-- A message as its reader finds it: what has been received, and how far it has been read.
abbrev pub view : FlexBuffer → List ℕ × ℕ
view msg = (take msg.len msg.buf, msg.ptr)

abbrev pub file_view : StoredMsg → List ℕ × ℕ
file_view file = (file.octets, file.ptr)

abbrev in_memory : ℕ → FlexBuffer → List (List ℕ × ℕ)
in_memory zero msg = []
in_memory (suc n) msg = view msg ∷ []

-- The messages in the order in which they are to be popped.
unfoldable pub queue : ReceivedMsgStore → List (List ℕ × ℕ)
queue store = in_memory store.mem_size store.mem ++ map file_view store.files

abbrev pub AllWhole : List StoredMsg → Type 0
AllWhole [] = Unit {0}
AllWhole (file ∷ files) = (length file.octets ≡ file.len) × AllWhole files

-- One message at most is in memory, and the files are as long as they say.
abbrev pub ValidStore : ReceivedMsgStore → Type 0
ValidStore store = (store.mem_size ≤ 1) × AllWhole store.files

map-append : {A B : Type 0} (f : A → B) (xs ys : List A) → map f (xs ++ ys) ≡ map f xs ++ map f ys
map-append f [] ys = refl
map-append f (x ∷ xs) ys = ap (λ zs. f x ∷ zs) (map-append f xs ys)

AllWhole-append : (xs ys : List StoredMsg) → AllWhole xs → AllWhole ys → AllWhole (xs ++ ys)
AllWhole-append [] ys h k = k
AllWhole-append (x ∷ xs) ys h k = (h.0, AllWhole-append xs ys h.1 k)

push_parts :
    (msg mem : FlexBuffer) (n : ℕ) (files : List StoredMsg) (t : ℕ)
    → let store : ReceivedMsgStore = record {
      mem = mem;
      mem_size = n;
      files = files;
      total_size = t;
    } in
      msg.len ≤ length msg.buf
      → ValidStore store
      → (queue (push msg store).1 ≡ queue store ++ view msg ∷ []) × ValidStore (push msg store).1
unfolding queue push
push_parts msg mem zero [] t held valid = (refl, (omega arith, tt))
push_parts msg mem zero (file ∷ files) t held valid = (
  map-append file_view (file ∷ files) _,
  (
    omega arith,
    AllWhole-append (file ∷ files) _ valid.1 (omega (arith, length-take msg.len msg.buf), tt),
  ),
)
push_parts msg mem (suc zero) files t held valid = (
  ap (λ l. view mem ∷ l) (map-append file_view files _),
  (omega arith, AllWhole-append files _ valid.1 (omega (arith, length-take msg.len msg.buf), tt)),
)
push_parts msg mem (suc (suc n)) files t held valid = absurd (omega arith)

-- A message that is pushed becomes the last of the queue.
pub queue-push :
    (msg : FlexBuffer) (store : ReceivedMsgStore)
    → msg.len ≤ length msg.buf
    → ValidStore store
    → (queue (push msg store).1 ≡ queue store ++ view msg ∷ []) × ValidStore (push msg store).1
queue-push msg store held valid =
    push_parts msg store.mem store.mem_size store.files store.total_size held valid

view-load :
    (file : StoredMsg) (msg : FlexBuffer)
    → length file.octets ≡ file.len
    → view (load file msg) ≡ file_view file
unfolding load
view-load file msg whole =
    ap (λ l. (l, file.ptr))
      (ap (λ n. take n (file.octets ++ drop file.len (resize_message file.len msg).buf)) (sym whole)
        ∙ take-length file.octets _)

-- What `pop` gives back: nothing from an empty queue, and its first message otherwise.
abbrev Popped : List (List ℕ × ℕ) → Bool → FlexBuffer → ReceivedMsgStore → Type 0
Popped [] found msg store = (found ≡ false) × (queue store ≡ [])
Popped (first ∷ others) found msg store =
    (found ≡ true) × (view msg ≡ first) × (queue store ≡ others)

pop_parts :
    (msg mem : FlexBuffer) (n : ℕ) (files : List StoredMsg) (t : ℕ)
    → let store : ReceivedMsgStore = record {
      mem = mem;
      mem_size = n;
      files = files;
      total_size = t;
    } in
      ValidStore store
      → let (found, msg', store') = pop msg store in
        Popped (queue store) found msg' store' × ValidStore store'
unfolding queue pop
pop_parts msg mem zero [] t valid = ((refl, refl), valid)
pop_parts msg mem zero (file ∷ files) t valid =
    ((refl, view-load file msg valid.1.0, refl), (omega arith, valid.1.1))
pop_parts msg mem (suc zero) files t valid = ((refl, refl, refl), (omega arith, valid.1))
pop_parts msg mem (suc (suc n)) files t valid = absurd (omega arith)

-- `pop` takes the first message of the queue, and says so when there is none.
pub queue-pop :
    (msg : FlexBuffer) (store : ReceivedMsgStore)
    → ValidStore store
    → let (found, msg', store') = pop msg store in
      Popped (queue store) found msg' store' × ValidStore store'
queue-pop msg store valid =
    pop_parts msg store.mem store.mem_size store.files store.total_size valid
