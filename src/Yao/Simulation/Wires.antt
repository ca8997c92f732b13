-- ===== src/Yao/Simulation/Wires.antt =====
-- The simulation of the accesses to single wires.
use spdz_yao.Base.{ℕ, ◌≡◌, refl, Bool, List, ok, ◌>>=◌, >>=-eq-ok}
use spdz_yao.Key.{Key}
use spdz_yao.Gc.Processor.{fetch, store, fetch_reg, store_reg, get_reg, put_reg}
use spdz_yao.Yao.Primitives.{Primitives}
use spdz_yao.Yao.Agreement.{Agrees}
use spdz_yao.Yao.GarbleWire.{GarbleWire}
use spdz_yao.Yao.EvalWire.{EvalWire}
use spdz_yao.Yao.Simulation.Lists.{All, fetch-All, store-All}
use spdz_yao.Yao.Simulation.Relation.{Simulates}
use spdz_yao.Yao.Simulation.Rules.{Done, silent, as_result}

module _ {A B C : Type 0} {P : A → B → C → Type 0} {xs : List (List A)} {ys : List (List B)} where
  -- A wire that the plain registers have, the parties' have too.
  pub fetch_reg-All :
      {zs : List (List C)}
      → All (All P) xs ys zs
      → (r i : ℕ) {z : C} → fetch_reg zs r i ≡ ok z
      → (x : A) × (y : B) × (fetch_reg xs r i ≡ ok x) × (fetch_reg ys r i ≡ ok y) × P x y z
  unfolding fetch_reg
  fetch_reg-All {zs} h r i e =
      let (regs, f, e') = >>=-eq-ok (fetch zs r) (λ regs. fetch regs i) e in
      let outer = fetch-All h r f in
      let inner = fetch-All outer.agree i e' in
      (inner.x, inner.y, rw outer.left inner.left, rw outer.right inner.right, inner.agree)

  pub store_reg-All :
      {zs : List (List C)}
      → All (All P) xs ys zs
      → (r i : ℕ) (x : A) (y : B) (z : C) → P x y z
      → {zs' : List (List C)} → store_reg zs r i z ≡ ok zs'
      → (xs' : List (List A)) × (ys' : List (List B)) × (store_reg xs r i x ≡ ok xs')
        × (store_reg ys r i y ≡ ok ys')
        × All (All P) xs' ys' zs'
  unfolding store_reg
  store_reg-All {zs} h r i x y z q e =
      let (regs, f, e₁) =
        >>=-eq-ok (fetch zs r) (λ regs. store regs i z >>= λ regs'. store zs r regs') e in
      let (regs', g, e₂) = >>=-eq-ok (store regs i z) (λ regs'. store zs r regs') e₁ in
      let outer = fetch-All h r f in
      let inner = store-All outer.agree i q g in
      let done = store-All h r inner.agree e₂ in
      (
        done.xs',
        done.ys',
        rw (outer.left, inner.left) done.left,
        rw (outer.right, inner.right) done.right,
        done.agree,
      )

module _ {primitives : Primitives} {delta : Key} where
  pub get_reg-Simulates :
      (r i : ℕ)
      → Simulates primitives delta (Agrees delta) (get_reg r i) (get_reg r i) (get_reg r i)
  unfolding get_reg
  get_reg-Simulates r i = record {
    run = λ g e p rel c p' eq.
        let (w, read, eq') = >>=-eq-ok (fetch_reg p.s r i) (λ w. ok (w, p)) eq in
        let (x, y, fx, fy, agree) = fetch_reg-All rel.s r i read in
        as_result eq' (silent x y g e (rw fx) (λ rest more. rw fy) refl refl agree rel);
  }

  pub put_reg-Simulates :
      (r i : ℕ) (x : GarbleWire) (y : EvalWire) (z : Bool)
      → Agrees delta x y z
      → Simulates primitives delta Done (put_reg r i x) (put_reg r i y) (put_reg r i z)
  unfolding put_reg
  put_reg-Simulates r i x y z h = record {
    run = λ g e p rel u p' eq.
        let (s', written, eq') =
          >>=-eq-ok (store_reg p.s r i z) (λ s. ok (tt, record p { s = s })) eq in
        let (xs, ys, fx, fy, agree) = store_reg-All rel.s r i x y z h written in
        as_result eq' (
          silent tt tt (record g { s = xs }) (record e { s = ys }) (rw fx) (λ rest more. rw fy) refl
            refl tt (assumption agree));
  }
