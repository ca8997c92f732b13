-- ===== src/Tests/Queues.antt =====
-- A queue between threads, for the theorems on Tools/WaitQueue.h.
use spdz_yao.Base.{arith, ℕ, suc, ◌<◌, ◌⊎◌, ◌≡◌, refl, true, some, [], ◌∷◌, ok, err, fault}
use spdz_yao.Tools.WaitQueue.{WaitQueue, Progress, waits, through, new_queue, push, pop, pop_rest}
use spdz_yao.Tools.WaitQueue.Steps.{Reach, starts, pushes, enters, wakes, stopping, enter, resume}
use spdz_yao.Tools.WaitQueue.Takes.{Waits}
use spdz_yao.Tools.WaitQueue.Safety.{Sound, Reach-Sound, Reach-pop}

abbrev waiting_queue : WaitQueue ℕ
waiting_queue = record { queue = []; running = true; blocked = 1; signalled = 0 }

enters_waits : enter stopping new_queue ≡ ok (waits, waiting_queue)
unfolding enter pop new_queue
enters_waits = refl

-- The consumer waits.
waiting : Reach 1 (record { now = waiting_queue; pushed = []; popped = []; spurious = 0 })
unfolding new_queue
waiting = enters starts (omega arith) stopping waits waiting_queue enters_waits

Reach-Sound_example :
    Sound (record { now = push 7 waiting_queue; pushed = 7 ∷ []; popped = []; spurious = 0 })
Reach-Sound_example = Reach-Sound (pushes waiting 7)

-- The consumer is woken by nobody.
abbrev woken_queue : WaitQueue ℕ
woken_queue = record { queue = []; running = true; blocked = 0; signalled = 1 }

woken : Reach 1 (record { now = woken_queue; pushed = []; popped = []; spurious = 1 })
woken = wakes waiting 0 refl

Reach-pop_example :
    ((r : Progress ℕ × WaitQueue ℕ) × (enter stopping woken_queue ≡ ok r))
    × ((others : ℕ)
        → 1 ≡ suc others
        → ((r : Progress ℕ × WaitQueue ℕ) × (resume stopping
                (record woken_queue { signalled = others })
              ≡ ok r))
          ⊎ ((stopping ≡ stopping)
              × (0 < 1)
              × Waits woken_queue
              × (resume stopping (record woken_queue { signalled = others }) ≡ err fault)))
Reach-pop_example = Reach-pop woken stopping

woken_faults : resume stopping (record woken_queue { signalled = 0 }) ≡ err fault
unfolding resume pop_rest
woken_faults = refl

-- With two consumers the queue is not sound: one that comes between a push and the consumer that the
-- push has woken takes the value, and the woken one reads the front of an empty deque.
abbrev taken_between : WaitQueue ℕ
taken_between = record { queue = []; running = true; blocked = 0; signalled = 0 }

second_takes :
    pop (push 7 waiting_queue)
    ≡ ok (through (some 7), record { queue = []; running = true; blocked = 0; signalled = 1 })
unfolding pop push
second_takes = refl

first_faults : pop_rest taken_between ≡ err fault
unfolding pop_rest
first_faults = refl
