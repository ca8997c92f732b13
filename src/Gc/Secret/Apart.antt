-- ===== src/Gc/Secret/Apart.antt =====
-- An AND gate of GC/Secret.h whose result is in another register than its operands: the operands are
-- those of the registers as they were, though `op` has overwritten its target when it reads them.
use spdz_yao.Base.{ℕ, ◌≡◌, ◌≢◌, sym, ◌∙◌, List, ok, Result}
use spdz_yao.Function.{and_function}
use spdz_yao.Gc.Phase.{Phase}
use spdz_yao.Gc.Processor.{Processor, fetch_reg, store_reg}
use spdz_yao.Gc.Secret.{and_reg}
use spdz_yao.Gc.Secret.Gates.{and_reg_of_run, run_of_and_reg}
use spdz_yao.Gc.Secret.Wires.{fetch_reg-store_reg_ne, store_reg-store_reg, store_reg_of_fetch_reg}

module _ {phase : Phase} where
  open phase use {Wire, Party, op_prepare, op_finish}

  pub record ApartRun (d i x j y k : ℕ) (proc : Processor phase) : Type 0 where
    pub this : Wire
    pub this' : Wire
    pub party' : Party
    pub left : Wire
    pub right : Wire
    pub res : Wire
    pub party : Party
    pub s' : List (List Wire)
    pub reads : fetch_reg proc.s d i ≡ ok this
    pub prepares : op_prepare this proc.party ≡ (this', party')
    pub reads_left : fetch_reg proc.s x j ≡ ok left
    pub reads_right : fetch_reg proc.s y k ≡ ok right
    pub finishes : op_finish this' left right and_function party' ≡ ok (res, party)
    pub writes : store_reg proc.s d i res ≡ ok s'

  module _ (d i x j y k : ℕ) (d≢x : d ≢ x) (d≢y : d ≢ y) (proc : Processor phase) where
    pub and_reg_of_apart :
        (r : ApartRun d i x j y k proc)
        → and_reg d i x j y k proc ≡ ok (tt, record proc { s = r.s'; party = r.party })
    and_reg_of_apart r =
        let (s, clears) = store_reg_of_fetch_reg proc.s d i r.this' r.reads in
        and_reg_of_run d i x j y k proc (record {
          this = r.this;
          this' = r.this';
          party' = r.party';
          s = s;
          left = r.left;
          right = r.right;
          res = r.res;
          party = r.party;
          s' = r.s';
          reads = r.reads;
          prepares = r.prepares;
          clears = clears;
          reads_left = fetch_reg-store_reg_ne proc.s d i r.this' clears x j d≢x ∙ r.reads_left;
          reads_right = fetch_reg-store_reg_ne proc.s d i r.this' clears y k d≢y ∙ r.reads_right;
          finishes = r.finishes;
          writes = store_reg-store_reg proc.s d i r.this' clears r.res ∙ r.writes;
        })

    pub apart_of_and_reg :
        {u : Unit {0}} {p' : Processor phase}
        → and_reg d i x j y k proc ≡ ok (u, p')
        → (r : ApartRun d i x j y k proc) × (◌≡◌ {A = Result (Unit {0} × Processor phase)}
            (ok (tt, record proc { s = r.s'; party = r.party }))
            (ok (u, p')))
    apart_of_and_reg eq =
        let (r, ends) = run_of_and_reg d i x j y k proc eq in
        (
          record {
            this = r.this;
            this' = r.this';
            party' = r.party';
            left = r.left;
            right = r.right;
            res = r.res;
            party = r.party;
            s' = r.s';
            reads = r.reads;
            prepares = r.prepares;
            reads_left =
                sym (fetch_reg-store_reg_ne proc.s d i r.this' r.clears x j d≢x) ∙ r.reads_left;
            reads_right =
                sym (fetch_reg-store_reg_ne proc.s d i r.this' r.clears y k d≢y) ∙ r.reads_right;
            finishes = r.finishes;
            writes = sym (store_reg-store_reg proc.s d i r.this' r.clears r.res) ∙ r.writes;
          },
          ends,
        )
