-- ===== src/Tools/WaitQueue/Takes.antt =====
-- The branches of the operations of Tools/WaitQueue.h: when a pop waits, and what it takes when not.
use spdz_yao.Base.{
  arith, ℕ, zero, suc, ◌+◌, ◌≤◌, ◌<◌, ◌≡◌, refl, ◌⊎◌, inl, inr, Bool, true, false, ◌==◌,
  if◌then◌else◌, none, some, List, [], ◌∷◌, ◌++◌, length, Result, ok, err, fault,
}
use spdz_yao.Tools.WaitQueue.{
  WaitQueue, Progress, waits, through, pop, pop_rest, pop_dont_stop, pop_dont_stop_rest, wake_one,
  take_front, must_wait,
}
use spdz_yao.Tools.WaitQueue.Steps.{Mode, stopping, draining, enter, resume, taken}

module _ {ℓ} {A : Type ℓ} where
  -- The pop after a wait has something to take, or need not take anything.
  abbrev pub IsReady : WaitQueue A → Type 0
  IsReady q = (q.running ≡ false) ⊎ (0 < length q.queue)

  -- What `pop` does with the mutex when it need not wait.
  abbrev pub Takes : WaitQueue A → Progress A × WaitQueue A → Type ℓ
  Takes q (progress, q') =
      (q.queue ≡ taken progress ++ q'.queue)
      × (q'.running ≡ q.running)
      × (q'.blocked ≡ q.blocked)
      × (q'.signalled ≡ q.signalled)

  unfoldable pub Returns : Result (Progress A × WaitQueue A) → WaitQueue A → Type ℓ
  Returns call q = (r : Progress A × WaitQueue A) × (call ≡ ok r) × Takes q r

  take_front-Takes :
      (q : WaitQueue A) (xs : List A) → q.queue ≡ xs → 0 < length xs → Returns (take_front xs q) q
  unfolding take_front Returns
  take_front-Takes q [] e h = elim h [ ]
  take_front-Takes q (x ∷ xs) e h =
      ((through (some x), record q { queue = xs }), refl, (e, refl, refl, refl))

  none_taken : (q : WaitQueue A) → Returns (ok (through none, q)) q
  unfolding Returns
  none_taken q = ((through none, q), refl, (refl, refl, refl, refl))

  take_or_none :
      (taking : Bool) (q : WaitQueue A)
      → (taking ≡ true → 0 < length q.queue)
      → Returns (if taking then take_front q.queue q else ok (through none, q)) q
  take_or_none true q something = take_front-Takes q q.queue refl (something refl)
  take_or_none false q something = none_taken q

  none_or_take :
      (empty : Bool) (q : WaitQueue A)
      → (empty ≡ false → 0 < length q.queue)
      → Returns (if empty then ok (through none, q) else take_front q.queue q) q
  none_or_take true q something = none_taken q
  none_or_take false q something = take_front-Takes q q.queue refl (something refl)

  -- After a wait that was ended when there was something to take, or when the queue was stopped, both
  -- ways to pop return, and take the first value or none.
  pub resume-Takes : (mode : Mode) (q : WaitQueue A) → IsReady q → Returns (resume mode q) q
  unfolding resume pop_rest pop_dont_stop_rest
  resume-Takes stopping q ready = take_or_none q.running q (λ runs. ground (arith, ready, runs))
  resume-Takes draining q ready =
      none_or_take (length q.queue == 0) q (λ something. ground (arith, something))

  take_front_cases :
      (q : WaitQueue A) (xs : List A)
      → q.queue ≡ xs
      → Returns (take_front xs q) q ⊎ ((take_front xs q ≡ err fault) × (length xs ≡ 0))
  unfolding take_front
  take_front_cases q [] e = inr (refl, refl)
  take_front_cases q (x ∷ xs) e = inl (take_front-Takes q (x ∷ xs) e (omega arith))

  abbrev pub Waits : WaitQueue A → Type 0
  Waits q = (length q.queue ≡ 0) × (q.running ≡ true)

  -- After a wait that was ended by anything, pop_dont_stop returns, and pop returns unless the queue
  -- runs and has no value.
  pub resume_cases :
      (mode : Mode) (q : WaitQueue A)
      → Returns (resume mode q) q ⊎ ((mode ≡ stopping) × Waits q × (resume mode q ≡ err fault))
  unfolding resume pop_rest pop_dont_stop_rest
  resume_cases draining q =
      inl (none_or_take (length q.queue == 0) q (λ something. ground (arith, something)))
  resume_cases stopping q = by_running q.running refl
    where
      by_running :
          (runs : Bool)
          → q.running ≡ runs
          → Returns (if runs then take_front q.queue q else ok (through none, q)) q
            ⊎ ((stopping ≡ stopping)
                × Waits q
                × ((if runs then take_front q.queue q else ok (through none, q)) ≡ err fault))
      by_running false e = inl (none_taken q)
      by_running true e = elim (take_front_cases q q.queue refl) [
        | inl returns ↦ inl returns
        | inr (faults, empty) ↦ inr (refl, (empty, e), faults)
      ]

  enter-resume :
      (mode : Mode) (q : WaitQueue A)
      → enter mode q
        ≡ (if must_wait q then ok (waits, record q { blocked = q.blocked + 1 }) else resume mode q)
  unfolding enter resume pop pop_dont_stop
  enter-resume stopping q = refl
  enter-resume draining q = refl

  -- Without a wait there is something to take, or the queue has been stopped.
  pub enter_cases :
      (mode : Mode) (q : WaitQueue A)
      → ((enter mode q ≡ ok (waits, record q { blocked = q.blocked + 1 })) × Waits q)
        ⊎ Returns (enter mode q) q
  enter_cases mode q =
      rw (enter-resume mode q)
        (by_wait (must_wait q) (λ e. ground (arith, e)) (λ e. ground (arith, e)))
    where
      by_wait :
          (b : Bool)
          → (b ≡ true → Waits q)
          → (b ≡ false → IsReady q)
          → (((if b then ok (waits, record q { blocked = q.blocked + 1 }) else resume mode q)
                ≡ ok (waits, record q { blocked = q.blocked + 1 }))
              × Waits q)
            ⊎ Returns
                (if b then ok (waits, record q { blocked = q.blocked + 1 }) else resume mode q)
                q
      by_wait true waiting ready = inl (refl, waiting refl)
      by_wait false waiting ready = inr (resume-Takes mode q (ready refl))

  pub wake_one_lem :
      (n : ℕ) (q : WaitQueue A)
      → q.blocked ≡ n
      → n + q.signalled ≤ 1
      → (0 < n + q.signalled → IsReady q)
      → ((wake_one n q).queue ≡ q.queue)
        × ((wake_one n q).running ≡ q.running)
        × ((wake_one n q).blocked ≡ 0)
        × ((wake_one n q).signalled ≤ 1)
        × (0 < (wake_one n q).signalled → IsReady q)
  unfolding wake_one
  wake_one_lem zero q e one ready = (refl, refl, e, omega arith, λ h. ready (omega arith))
  wake_one_lem (suc n) q e one ready =
      (refl, refl, omega arith, omega arith, λ h. ready (omega arith))
