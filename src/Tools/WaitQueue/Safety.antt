-- ===== src/Tools/WaitQueue/Safety.antt =====
-- A queue of Tools/WaitQueue.h with one consumer, as its users have it.
use mathlib.Core.Path.{subst}
use spdz_yao.Base.{
  arith, ℕ, zero, suc, ◌+◌, ◌≤◌, ◌<◌, ◌≡◌, refl, sym, ap, ◌∙◌, inl, inr, true, false, List, [], ◌∷◌,
  ◌++◌, append-nil, append_assoc, length, ok, err, fault, ok-injective, ℕ_discrete, ◌⊎◌,
}
use spdz_yao.Tools.WaitQueue.{WaitQueue, Progress, waits, new_queue, push, stop, signal, wake_one}
use spdz_yao.Tools.WaitQueue.Takes.{
  IsReady, Takes, Waits, Returns, resume_cases, enter_cases, wake_one_lem,
}
use spdz_yao.Tools.WaitQueue.Steps.{
  Mode, enter, resume, taken, History, Reach, starts, pushes, stops, enters, resumes, wakes,
  stopping,
}

module _ {ℓ} {A : Type ℓ} where
  pub record Sound (s : History A) : Type ℓ where
    pub in_order : s.pushed ≡ s.popped ++ s.now.queue
    pub one_consumer : s.now.blocked + s.now.signalled ≤ 1
    pub blocked_empty : 0 < s.now.blocked → (length s.now.queue ≡ 0) × (s.now.running ≡ true)
    pub signalled_ready : s.spurious ≡ 0 → 0 < s.now.signalled → IsReady s.now

  signal-Sound :
      (q : WaitQueue A) (pushed popped : List A) (spurious : ℕ)
      → pushed ≡ popped ++ q.queue
      → q.blocked + q.signalled ≤ 1
      → (0 < q.blocked + q.signalled → IsReady q)
      → Sound (record { now = signal q; pushed = pushed; popped = popped; spurious = spurious })
  unfolding signal
  signal-Sound q pushed popped spurious order one ready =
      let (same_queue, same_running, no_others, few, ready') =
        wake_one_lem q.blocked q refl one ready in
      record {
        in_order = rw same_queue order;
        one_consumer = omega arith;
        blocked_empty = λ h. absurd (omega arith);
        signalled_ready = λ none h. rw (same_queue, same_running) (ready' h);
      }

  -- A pop that goes through leaves the queue sound.
  taken-Sound :
      {s : History A}
      → Sound s
      → (progress : Progress A) (q q' : WaitQueue A) → q.queue ≡ s.now.queue
      → q.blocked + q.signalled ≡ 0
      → Takes q (progress, q')
      → Sound (record s { now = q'; popped = s.popped ++ taken progress })
  taken-Sound {s = s} sound progress q q' same free (split, runs, blocked, signalled) = record {
    in_order =
        sound.in_order
        ∙ ap (λ xs. s.popped ++ xs) (sym same ∙ split)
        ∙ sym (append_assoc s.popped (taken progress) q'.queue);
    one_consumer = omega arith;
    blocked_empty = λ h. absurd (omega arith);
    signalled_ready = λ none h. absurd (omega arith);
  }

  waiting-Sound :
      {s : History A}
      → Sound s
      → s.now.blocked + s.now.signalled < 1
      → Waits s.now
      → Sound (record s {
        now = record s.now { blocked = s.now.blocked + 1 };
        popped = s.popped ++ taken waits;
      })
  waiting-Sound {s = s} sound free empty = record {
    in_order = sound.in_order ∙ ap (λ xs. xs ++ s.now.queue) (sym (append-nil s.popped));
    one_consumer = omega arith;
    blocked_empty = λ h. empty;
    signalled_ready = λ none h. absurd (omega arith);
  }

  -- A woken consumer that finds nothing has been woken by nobody.
  by_nobody : {s : History A} → Sound s → 0 < s.now.signalled → Waits s.now → 0 < s.spurious
  by_nobody {s = s} sound woken (empty, runs) = elim (ℕ_discrete s.spurious 0) [
    | yes none ↦ elim (sound.signalled_ready none woken) [
      | inl stopped ↦ ground (arith, stopped, runs)
      | inr something ↦ absurd (omega arith)
    ]
    | no some ↦ omega arith
  ]

  length-snoc : (xs : List A) (x : A) → 0 < length (xs ++ x ∷ [])
  length-snoc [] x = omega arith
  length-snoc (y ∷ xs) x = omega arith

  -- With one consumer, in every history, whether or not `wait` has returned without a signal: the
  -- values taken and then those in the queue are the values pushed, in their order, and nobody waits
  -- for a queue that has values or is stopped; and as long as `wait` has not returned without a signal,
  -- when the consumer has been woken, there is a value to take or the queue is stopped.
  pub Reach-Sound : {s : History A} → Reach 1 s → Sound s
  unfolding new_queue push stop Returns
  Reach-Sound starts = record {
    in_order = refl;
    one_consumer = omega arith;
    blocked_empty = λ h. absurd (omega arith);
    signalled_ready = λ none h. absurd (omega arith);
  }
  Reach-Sound (pushes {s = s} r value) =
      let sound = Reach-Sound r in
      signal-Sound (record s.now { queue = s.now.queue ++ value ∷ [] }) (s.pushed ++ value ∷ [])
        s.popped s.spurious
        (ap (λ xs. xs ++ value ∷ []) sound.in_order
          ∙ append_assoc s.popped s.now.queue (value ∷ []))
        sound.one_consumer (λ h. inr (length-snoc s.now.queue value))
  Reach-Sound (stops {s = s} r) =
      let sound = Reach-Sound r in
      signal-Sound (record s.now { running = false }) s.pushed s.popped s.spurious sound.in_order
        sound.one_consumer (λ h. inl refl)
  Reach-Sound (enters {s = s} r free mode progress q returns) =
      let sound = Reach-Sound r in
      elim (enter_cases mode s.now) [
        | inl (waiting, empty) ↦
            subst (λ r. Sound (record s { now = r.1; popped = s.popped ++ taken r.0 }))
              (ok-injective (sym waiting ∙ returns)) (waiting-Sound sound free empty)
        | inr (result, same, takes) ↦
            taken-Sound sound progress s.now q refl (omega arith)
              (subst (Takes s.now) (ok-injective (sym same ∙ returns)) takes)
      ]
  Reach-Sound (resumes {s = s} r others woken mode progress q returns) =
      let sound = Reach-Sound r in
      let before = record s.now { signalled = others } in
      let one = sound.one_consumer in
      elim (resume_cases mode before) [
        | inl (result, same, takes) ↦
            taken-Sound sound progress before q refl (omega arith)
              (subst (Takes before) (ok-injective (sym same ∙ returns)) takes)
        | inr (plain, empty, faults) ↦ cc
      ]
  Reach-Sound (wakes {s = s} r others waiting) =
      let sound = Reach-Sound r in
      let one = sound.one_consumer in
      record {
        in_order = sound.in_order;
        one_consumer = omega arith;
        blocked_empty = λ h. absurd (omega arith);
        signalled_ready = λ none h. absurd (omega arith);
      }

  -- With one consumer, in every history: a pop waits or returns when it starts; and a consumer that has
  -- been woken returns, but for one pop that fails: the one of a queue that runs and has no values,
  -- which pop and not pop_dont_stop comes to, and only if `wait` has returned without a signal.
  pub Reach-pop :
      {s : History A}
      → Reach 1 s
      → (mode : Mode)
      → ((r : Progress A × WaitQueue A) × (enter mode s.now ≡ ok r))
        × ((others : ℕ)
            → s.now.signalled ≡ suc others
            → ((r : Progress A × WaitQueue A) × (resume mode (record s.now { signalled = others })
                  ≡ ok r))
              ⊎ ((mode ≡ stopping)
                  × (0 < s.spurious)
                  × Waits s.now
                  × (resume mode (record s.now { signalled = others }) ≡ err fault)))
  unfolding Returns
  Reach-pop {s = s} r mode =
      let sound = Reach-Sound r in
      (
        elim (enter_cases mode s.now) [
          | inl (waiting, empty) ↦ ((waits, record s.now { blocked = s.now.blocked + 1 }), waiting)
          | inr (result, same, takes) ↦ (result, same)
        ],
        λ others woken. elim (resume_cases mode (record s.now { signalled = others })) [
          | inl (result, same, takes) ↦ inl (result, same)
          | inr (plain, empty, faults) ↦
              inr (plain, by_nobody sound (omega arith) empty, empty, faults)
        ],
      )

  -- With one consumer, after a push or a stop nobody waits: a consumer that did has been woken.
  pub Reach-wakes :
      {s : History A}
      → Reach 1 s
      → (value : A)
      → ((push value s.now).blocked ≡ 0)
        × ((push value s.now).signalled ≡ s.now.blocked + s.now.signalled)
        × ((stop s.now).blocked ≡ 0)
        × ((stop s.now).signalled ≡ s.now.blocked + s.now.signalled)
  unfolding push stop signal wake_one
  Reach-wakes {s = s} r value =
      let sound = Reach-Sound r in
      let (none_left, woken) =
        wake_one-none_left s.now.blocked (record s.now { queue = s.now.queue ++ value ∷ [] })
          sound.one_consumer refl in
      let (none_left', woken') =
        wake_one-none_left s.now.blocked (record s.now { running = false }) sound.one_consumer
          refl in
      (none_left, woken, none_left', woken')
    where
      wake_one-none_left :
          (n : ℕ) (q : WaitQueue A)
          → n + q.signalled ≤ 1
          → q.blocked ≡ n
          → ((wake_one n q).blocked ≡ 0) × ((wake_one n q).signalled ≡ n + q.signalled)
      wake_one-none_left zero q one e = (e, omega arith)
      wake_one-none_left (suc n) q one e = (omega arith, omega arith)
