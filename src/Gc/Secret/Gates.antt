-- ===== src/Gc/Secret/Gates.antt =====
-- An AND gate on registers of the processor, step by step.
use spdz_yao.Base.{ℕ, ◌≡◌, sym, List, Result, ok, >>=-eq-ok, ok-injective}
use mathlib.Core.Path.{subst}
use spdz_yao.Function.{and_function}
use spdz_yao.Gc.Phase.{Phase}
use spdz_yao.Gc.Processor.{Processor, M, ◌>>=◌, fetch_reg, store_reg, get_reg, put_reg, on_party}
use spdz_yao.Gc.Secret.{and_reg}

module _ {phase : Phase} where
  open phase use {Wire, Party, op_prepare, op_finish}

  -- What a run of the gate goes through, and the processor that it ends in.
  pub record AndRun (d i x j y k : ℕ) (proc : Processor phase) : Type 0 where
    pub this : Wire
    pub this' : Wire
    pub party' : Party
    pub s : List (List Wire)
    pub left : Wire
    pub right : Wire
    pub res : Wire
    pub party : Party
    pub s' : List (List Wire)
    pub reads : fetch_reg proc.s d i ≡ ok this
    pub prepares : op_prepare this proc.party ≡ (this', party')
    pub clears : store_reg proc.s d i this' ≡ ok s
    pub reads_left : fetch_reg s x j ≡ ok left
    pub reads_right : fetch_reg s y k ≡ ok right
    pub finishes : op_finish this' left right and_function party' ≡ ok (res, party)
    pub writes : store_reg s d i res ≡ ok s'

  pub and_reg_of_run :
      (d i x j y k : ℕ) (proc : Processor phase) (r : AndRun d i x j y k proc)
      → and_reg d i x j y k proc ≡ ok (tt, record proc { s = r.s'; party = r.party })
  unfolding and_reg get_reg put_reg on_party ◌>>=◌
  and_reg_of_run d i x j y k proc r =
      rw (r.reads, r.prepares, r.clears, r.reads_left, r.reads_right, r.finishes, r.writes)

  module _ {B : Type 0} (proc : Processor phase) {b : B × Processor phase} where
    -- The accesses at the head of code that succeeds.
    get_reg-inv :
        (r i : ℕ) (f : Wire → M phase B)
        → (get_reg r i >>= f) proc ≡ ok b
        → (w : Wire) × (fetch_reg proc.s r i ≡ ok w) × (f w proc ≡ ok b)
    unfolding get_reg ◌>>=◌
    get_reg-inv r i f eq =
        let ((w, q), e₁, e₂) = >>=-eq-ok _ (λ r. f r.0 r.1) eq in
        let (w', read, e₃) = >>=-eq-ok (fetch_reg proc.s r i) (λ w. ok (w, proc)) e₁ in
        (
          w',
          read,
          subst (λ (r : Wire × Processor phase). f r.0 r.1 ≡ ok b) (sym (ok-injective e₃)) e₂,
        )

    put_reg-inv :
        (r i : ℕ) (w : Wire) (f : Unit {0} → M phase B)
        → (put_reg r i w >>= f) proc ≡ ok b
        → (s : List (List Wire)) × (store_reg proc.s r i w ≡ ok s)
          × (f tt (record proc { s = s }) ≡ ok b)
    unfolding put_reg ◌>>=◌
    put_reg-inv r i w f eq =
        let ((u, q), e₁, e₂) = >>=-eq-ok _ (λ r. f r.0 r.1) eq in
        let (s, written, e₃) =
          >>=-eq-ok (store_reg proc.s r i w) (λ s. ok (tt, record proc { s = s })) e₁ in
        (
          s,
          written,
          subst (λ (r : Unit {0} × Processor phase). f r.0 r.1 ≡ ok b) (sym (ok-injective e₃)) e₂,
        )

    on_party-inv :
        {A : Type 0} (h : Party → Result (A × Party)) (f : A → M phase B)
        → (on_party h >>= f) proc ≡ ok b
        → (a : A) × (party : Party) × (h proc.party ≡ ok (a, party))
          × (f a (record proc { party = party }) ≡ ok b)
    unfolding on_party ◌>>=◌
    on_party-inv {A} h f eq =
        let ((a', q), e₁, e₂) = >>=-eq-ok _ (λ r. f r.0 r.1) eq in
        let ((a, party), e, e₃) =
          >>=-eq-ok (h proc.party) (λ r. ok (r.0, record proc { party = r.1 })) e₁ in
        (
          a,
          party,
          e,
          subst (λ (r : A × Processor phase). f r.0 r.1 ≡ ok b) (sym (ok-injective e₃)) e₂,
        )

  put_reg-ok :
      (proc : Processor phase) (r i : ℕ) (w : Wire) {a : Unit {0} × Processor phase}
      → put_reg r i w proc ≡ ok a
      → (s : List (List Wire)) × (store_reg proc.s r i w ≡ ok s)
        × (◌≡◌ {A = Result (Unit {0} × Processor phase)} (ok (tt, record proc { s = s })) (ok a))
  unfolding put_reg
  put_reg-ok proc r i w eq =
      >>=-eq-ok (store_reg proc.s r i w) (λ s. ok (tt, record proc { s = s })) eq

  pub run_of_and_reg :
      (d i x j y k : ℕ) (proc : Processor phase) {u : Unit {0}} {p' : Processor phase}
      → and_reg d i x j y k proc ≡ ok (u, p')
      → (r : AndRun d i x j y k proc) × (◌≡◌ {A = Result (Unit {0} × Processor phase)}
          (ok (tt, record proc { s = r.s'; party = r.party }))
          (ok (u, p')))
  unfolding and_reg
  run_of_and_reg d i x j y k proc eq =
      let (this, reads, e₁) = get_reg-inv proc d i _ eq in
      let (this', party', prepares, e₂) = on_party-inv proc (λ q. ok (op_prepare this q)) _ e₁ in
      let (s, clears, e₃) = put_reg-inv (record proc { party = party' }) d i this' _ e₂ in
      let q = record proc { party = party'; s = s } in
      let (left, reads_left, e₄) = get_reg-inv q x j _ e₃ in
      let (right, reads_right, e₅) = get_reg-inv q y k _ e₄ in
      let (res, party, finishes, e₆) =
        on_party-inv q (op_finish this' left right and_function) _ e₅ in
      let (s', writes, e₇) = put_reg-ok (record q { party = party }) d i res e₆ in
      (
        record {
          this = this;
          this' = this';
          party' = party';
          s = s;
          left = left;
          right = right;
          res = res;
          party = party;
          s' = s';
          reads = reads;
          prepares = ok-injective prepares;
          clears = clears;
          reads_left = reads_left;
          reads_right = reads_right;
          finishes = finishes;
          writes = writes;
        },
        e₇,
      )
