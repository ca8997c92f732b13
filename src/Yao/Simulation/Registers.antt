-- ===== src/Yao/Simulation/Registers.antt =====
-- The simulation of the accesses to secret and clear registers and their memories.
use spdz_yao.Base.{ℕ, ◌≡◌, refl, sym, ap, ap₂, ◌∙◌, Bool, List, length, ok, >>=-eq-ok}
use spdz_yao.Key.{Key}
use spdz_yao.Gc.Processor.{get_s, put_s, get_ms, put_ms, get_c, put_c, get_mc, put_mc, fetch, store}
use spdz_yao.Yao.Primitives.{Primitives}
use spdz_yao.Yao.Agreement.{Agrees}
use spdz_yao.Yao.GarbleWire.{GarbleWire}
use spdz_yao.Yao.EvalWire.{EvalWire}
use spdz_yao.Yao.Simulation.Lists.{
  All, fetch-All, store-All, fetch_of_length, store_of_length, length-store,
}
use spdz_yao.Yao.Simulation.Relation.{Simulates}
use spdz_yao.Yao.Simulation.Rules.{Done, Revealed, silent, as_result}

module _ {primitives : Primitives} {delta : Key} where
  pub get_s-Simulates :
      (r : ℕ) → Simulates primitives delta (All (Agrees delta)) (get_s r) (get_s r) (get_s r)
  unfolding get_s
  get_s-Simulates r = record {
    run = λ g e p rel c p' eq.
        let (regs, fetched, eq') = >>=-eq-ok (fetch p.s r) (λ x. ok (x, p)) eq in
        let f = fetch-All rel.s r fetched in
        as_result eq'
          (silent f.x f.y g e (rw f.left) (λ rest more. rw f.right) refl refl f.agree rel);
  }

  pub put_s-Simulates :
      (r : ℕ) {xs : List GarbleWire} {ys : List EvalWire} {zs : List Bool}
      → All (Agrees delta) xs ys zs
      → Simulates primitives delta Done (put_s r xs) (put_s r ys) (put_s r zs)
  unfolding put_s
  put_s-Simulates r {xs} {ys} {zs} h = record {
    run = λ g e p rel c p' eq.
        let (s', stored, eq') = >>=-eq-ok (store p.s r zs) (λ s. ok (tt, record p { s = s })) eq in
        let f = store-All rel.s r h stored in
        as_result eq' (
          silent tt tt (record g { s = f.xs' }) (record e { s = f.ys' }) (rw f.left)
            (λ rest more. rw f.right) refl refl tt (assumption (f.agree)));
  }

  pub get_ms-Simulates :
      (r : ℕ) → Simulates primitives delta (All (Agrees delta)) (get_ms r) (get_ms r) (get_ms r)
  unfolding get_ms
  get_ms-Simulates r = record {
    run = λ g e p rel c p' eq.
        let (regs, fetched, eq') = >>=-eq-ok (fetch p.ms r) (λ x. ok (x, p)) eq in
        let f = fetch-All rel.ms r fetched in
        as_result eq'
          (silent f.x f.y g e (rw f.left) (λ rest more. rw f.right) refl refl f.agree rel);
  }

  pub put_ms-Simulates :
      (r : ℕ) {xs : List GarbleWire} {ys : List EvalWire} {zs : List Bool}
      → All (Agrees delta) xs ys zs
      → Simulates primitives delta Done (put_ms r xs) (put_ms r ys) (put_ms r zs)
  unfolding put_ms
  put_ms-Simulates r {xs} {ys} {zs} h = record {
    run = λ g e p rel c p' eq.
        let (ms', stored, eq') =
          >>=-eq-ok (store p.ms r zs) (λ ms. ok (tt, record p { ms = ms })) eq in
        let f = store-All rel.ms r h stored in
        as_result eq' (
          silent tt tt (record g { ms = f.xs' }) (record e { ms = f.ys' }) (rw f.left)
            (λ rest more. rw f.right) refl refl tt (assumption (f.agree)));
  }

  -- The evaluator's clear value is the plain one.
  pub get_c-Simulates : (r : ℕ) → Simulates primitives delta Revealed (get_c r) (get_c r) (get_c r)
  unfolding get_c
  get_c-Simulates r = record {
    run = λ g e p rel c p' eq.
        let (x, fetched, eq') = >>=-eq-ok (fetch p.c r) (λ x. ok (x, p)) eq in
        let (y, f) = fetch_of_length g.c p.c r rel.c_size fetched in
        as_result eq' (
          silent y x g e (rw f) (λ rest more. rw (ap (λ l. fetch l r) rel.c ∙ fetched)) refl refl
            refl rel);
  }

  pub put_c-Simulates :
      (r a b c : ℕ)
      → Revealed a b c
      → Simulates primitives delta Done (put_c r a) (put_c r b) (put_c r c)
  unfolding put_c
  put_c-Simulates r a b c h = record {
    run = λ g e p rel u p' eq.
        let (l, stored, eq') = >>=-eq-ok (store p.c r c) (λ l. ok (tt, record p { c = l })) eq in
        let same : l ≡ l = refl in
        let (k, f) = store_of_length g.c p.c r a c rel.c_size stored in
        let size : length k ≡ length l =
          length-store g.c r a f ∙ rel.c_size ∙ sym (length-store p.c r c stored) in
        as_result eq' (
          silent tt tt (record g { c = k }) (record e { c = l }) (rw f)
            (λ rest more. rw (ap₂ (λ m x. store m r x) rel.c h ∙ stored)) refl refl tt
            (assumption (size, same)));
  }

  -- The evaluator's clear value is the plain one.
  pub get_mc-Simulates :
      (r : ℕ) → Simulates primitives delta Revealed (get_mc r) (get_mc r) (get_mc r)
  unfolding get_mc
  get_mc-Simulates r = record {
    run = λ g e p rel c p' eq.
        let (x, fetched, eq') = >>=-eq-ok (fetch p.mc r) (λ x. ok (x, p)) eq in
        let (y, f) = fetch_of_length g.mc p.mc r rel.mc_size fetched in
        as_result eq' (
          silent y x g e (rw f) (λ rest more. rw (ap (λ l. fetch l r) rel.mc ∙ fetched)) refl refl
            refl rel);
  }

  pub put_mc-Simulates :
      (r a b c : ℕ)
      → Revealed a b c
      → Simulates primitives delta Done (put_mc r a) (put_mc r b) (put_mc r c)
  unfolding put_mc
  put_mc-Simulates r a b c h = record {
    run = λ g e p rel u p' eq.
        let (l, stored, eq') = >>=-eq-ok (store p.mc r c) (λ l. ok (tt, record p { mc = l })) eq in
        let same : l ≡ l = refl in
        let (k, f) = store_of_length g.mc p.mc r a c rel.mc_size stored in
        let size : length k ≡ length l =
          length-store g.mc r a f ∙ rel.mc_size ∙ sym (length-store p.mc r c stored) in
        as_result eq' (
          silent tt tt (record g { mc = k }) (record e { mc = l }) (rw f)
            (λ rest more. rw (ap₂ (λ m x. store m r x) rel.mc h ∙ stored)) refl refl tt
            (assumption (size, same)));
  }
