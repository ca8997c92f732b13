-- ===== src/Tools/WaitQueue/Steps.antt =====
-- What threads do with a queue of Tools/WaitQueue.h: producers push, one thread stops it, and at most
-- a number of consumers pop, each waiting for its own pop to end before it starts another.
use spdz_yao.Base.{ℕ, suc, ◌+◌, ◌<◌, ◌≡◌, none, some, List, [], ◌∷◌, ◌++◌, Result, ok}
use spdz_yao.Tools.WaitQueue.{
  WaitQueue, Progress, waits, through, new_queue, push, stop, pop, pop_rest, pop_dont_stop,
  pop_dont_stop_rest,
}

-- The two ways to pop: up to the wait, and after it.
pub data Mode : Type 0 where
  stopping draining : Mode

module _ {ℓ} {A : Type ℓ} where
  unfoldable pub enter : Mode → WaitQueue A → Result (Progress A × WaitQueue A)
  enter stopping = pop
  enter draining = pop_dont_stop

  unfoldable pub resume : Mode → WaitQueue A → Result (Progress A × WaitQueue A)
  resume stopping q = pop_rest q
  resume draining q = pop_dont_stop_rest q

  abbrev pub taken : Progress A → List A
  taken waits = []
  taken (through none) = []
  taken (through (some value)) = value ∷ []

-- The queue, with all values pushed and all values taken so far, in their orders, and how often a
-- thread in `wait` has been woken by nobody, as `pthread_cond_wait` allows.
pub record History {ℓ} (A : Type ℓ) : Type ℓ where
  pub now : WaitQueue A
  pub pushed : List A
  pub popped : List A
  pub spurious : ℕ

module _ {ℓ} {A : Type ℓ} where
  -- The histories of at most so many consumers.
  pub data Reach (consumers : ℕ) : History A → Type ℓ where
    starts : Reach consumers (record { now = new_queue; pushed = []; popped = []; spurious = 0 })
    pushes :
        {s : History A}
        → Reach consumers s
        → (value : A)
        → Reach consumers (record s { now = push value s.now; pushed = s.pushed ++ value ∷ [] })
    stops : {s : History A} → Reach consumers s → Reach consumers (record s { now = stop s.now })
    enters :
        {s : History A}
        → Reach consumers s
        → s.now.blocked + s.now.signalled < consumers
        → (mode : Mode) (progress : Progress A) (q : WaitQueue A)
        → enter mode s.now ≡ ok (progress, q)
        → Reach consumers (record s { now = q; popped = s.popped ++ taken progress })
    resumes :
        {s : History A}
        → Reach consumers s
        → (others : ℕ) → s.now.signalled ≡ suc others
        → (mode : Mode) (progress : Progress A) (q : WaitQueue A)
        → resume mode (record s.now { signalled = others }) ≡ ok (progress, q)
        → Reach consumers (record s { now = q; popped = s.popped ++ taken progress })
    wakes :
        {s : History A}
        → Reach consumers s
        → (others : ℕ) → s.now.blocked ≡ suc others
        → Reach consumers (record s {
          now = record s.now { blocked = others; signalled = s.now.signalled + 1 };
          spurious = s.spurious + 1;
        })
