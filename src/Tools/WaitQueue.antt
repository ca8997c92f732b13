-- ===== src/Tools/WaitQueue.antt =====
-- Tools/WaitQueue.h: a queue between threads. What a thread does while it holds the mutex is one
-- function here. `wait` gives the mutex up, so a pop that waits is two: up to `wait`, and after it.
pub mod Steps
pub mod Takes
pub mod Safety
use spdz_yao.Base.{
  ℕ, zero, suc, ◌+◌, Bool, true, false, ◌&&◌, ◌==◌, if◌then◌else◌, Option, none, some, List, [],
  ◌∷◌, ◌++◌, length, Result, ok, err, fault,
}

-- `blocked` threads are in `wait`, and `signalled` ones have been woken and want the mutex.
pub record WaitQueue {ℓ} (A : Type ℓ) : Type ℓ where
  pub queue : List A
  pub running : Bool
  pub blocked : ℕ
  pub signalled : ℕ

-- What a thread has come to when it gives the mutex up: it waits, or is through, with a value taken
-- or none.
pub data Progress {ℓ} (A : Type ℓ) : Type ℓ where
  waits : Progress A
  through : Option A → Progress A

module _ {ℓ} {A : Type ℓ} where
  unfoldable pub new_queue : WaitQueue A
  new_queue = record { queue = []; running = true; blocked = 0; signalled = 0 }

  unfoldable pub wake_one : ℕ → WaitQueue A → WaitQueue A
  wake_one zero q = q
  wake_one (suc others) q = record q { blocked = others; signalled = q.signalled + 1 }

  -- One of the waiting threads is woken, if there is one.
  unfoldable pub signal : WaitQueue A → WaitQueue A
  unfolding wake_one
  signal q = wake_one q.blocked q

  unfoldable pub push : A → WaitQueue A → WaitQueue A
  unfolding signal
  push value q = signal (record q { queue = q.queue ++ value ∷ [] })

  unfoldable pub stop : WaitQueue A → WaitQueue A
  unfolding signal
  stop q = signal (record q { running = false })

  -- `front()` and `pop_front()`, which an empty deque does not define.
  unfoldable pub take_front : List A → WaitQueue A → Result (Progress A × WaitQueue A)
  take_front [] q = err fault
  take_front (value ∷ later) q = ok (through (some value), record q { queue = later })

  -- `pop` after the wait, or without one.
  unfoldable pub pop_rest : WaitQueue A → Result (Progress A × WaitQueue A)
  unfolding take_front
  pop_rest q = if q.running then take_front q.queue q else ok (through none, q)

  unfoldable pub pop_dont_stop_rest : WaitQueue A → Result (Progress A × WaitQueue A)
  unfolding take_front
  pop_dont_stop_rest q = if length q.queue == 0 then ok (through none, q) else take_front q.queue q

  abbrev pub must_wait : WaitQueue A → Bool
  must_wait q = q.running && (length q.queue == 0)

  unfoldable pub pop : WaitQueue A → Result (Progress A × WaitQueue A)
  unfolding pop_rest
  pop q = if must_wait q then ok (waits, record q { blocked = q.blocked + 1 }) else pop_rest q

  unfoldable pub pop_dont_stop : WaitQueue A → Result (Progress A × WaitQueue A)
  unfolding pop_dont_stop_rest
  pop_dont_stop q =
      if must_wait q then ok (waits, record q { blocked = q.blocked + 1 }) else pop_dont_stop_rest q

  -- `pop` reads what it returns when it has given the mutex up.
  unfoldable pub pop_returns : WaitQueue A → Bool
  pop_returns q = q.running
