-- ===== src/Yao/Simulation/Integers.antt =====
-- The simulation of the accesses to integers, their memory, the program counter and the output.
use spdz_yao.Base.{ℕ, ◌≡◌, refl, ap, ap₂, ◌∙◌, List, [], ◌∷◌, ◌++◌, ok, >>=-eq-ok}
use spdz_yao.Key.{Key}
use spdz_yao.Gc.Processor.{
  get_i, put_i, get_mi, put_mi, get_pc, put_pc, get_complexity, put_complexity, print, Printed,
  fetch, store,
}
use spdz_yao.Yao.Primitives.{Primitives}
use spdz_yao.Yao.Simulation.Relation.{Simulates}
use spdz_yao.Yao.Simulation.Rules.{Done, Same, silent, as_result}

module _ {primitives : Primitives} {delta : Key} where
  pub get_i-Simulates : (r : ℕ) → Simulates primitives delta Same (get_i r) (get_i r) (get_i r)
  unfolding get_i
  get_i-Simulates r = record {
    run = λ g e p rel c p' eq.
        let (x, fetched, eq') = >>=-eq-ok (fetch p.i r) (λ x. ok (x, p)) eq in
        as_result eq' (
          silent x x g e (rw (ap (λ l. fetch l r) rel.i_garbler ∙ fetched))
            (λ rest more. rw (ap (λ l. fetch l r) rel.i_evaluator ∙ fetched)) refl refl (refl, refl)
            rel);
  }

  pub put_i-Simulates :
      (r a b c : ℕ)
      → Same a b c
      → Simulates primitives delta Done (put_i r a) (put_i r b) (put_i r c)
  unfolding put_i
  put_i-Simulates r a b c h = record {
    run = λ g e p rel u p' eq.
        let (l, stored, eq') = >>=-eq-ok (store p.i r c) (λ l. ok (tt, record p { i = l })) eq in
        let same : l ≡ l = refl in
        as_result eq' (
          silent tt tt (record g { i = l }) (record e { i = l })
            (rw (ap₂ (λ m x. store m r x) rel.i_garbler h.0 ∙ stored))
            (λ rest more. rw (ap₂ (λ m x. store m r x) rel.i_evaluator h.1 ∙ stored)) refl refl tt
            (assumption same));
  }

  pub get_mi-Simulates : (r : ℕ) → Simulates primitives delta Same (get_mi r) (get_mi r) (get_mi r)
  unfolding get_mi
  get_mi-Simulates r = record {
    run = λ g e p rel c p' eq.
        let (x, fetched, eq') = >>=-eq-ok (fetch p.mi r) (λ x. ok (x, p)) eq in
        as_result eq' (
          silent x x g e (rw (ap (λ l. fetch l r) rel.mi_garbler ∙ fetched))
            (λ rest more. rw (ap (λ l. fetch l r) rel.mi_evaluator ∙ fetched)) refl refl
            (refl, refl) rel);
  }

  pub put_mi-Simulates :
      (r a b c : ℕ)
      → Same a b c
      → Simulates primitives delta Done (put_mi r a) (put_mi r b) (put_mi r c)
  unfolding put_mi
  put_mi-Simulates r a b c h = record {
    run = λ g e p rel u p' eq.
        let (l, stored, eq') = >>=-eq-ok (store p.mi r c) (λ l. ok (tt, record p { mi = l })) eq in
        let same : l ≡ l = refl in
        as_result eq' (
          silent tt tt (record g { mi = l }) (record e { mi = l })
            (rw (ap₂ (λ m x. store m r x) rel.mi_garbler h.0 ∙ stored))
            (λ rest more. rw (ap₂ (λ m x. store m r x) rel.mi_evaluator h.1 ∙ stored)) refl refl tt
            (assumption same));
  }

  pub get_pc-Simulates : Simulates primitives delta Same get_pc get_pc get_pc
  unfolding get_pc
  get_pc-Simulates = record {
    run = λ g e p rel c p' eq. as_result eq (
        silent g.pc e.pc g e refl (λ rest more. refl) refl refl (rel.pc_garbler, rel.pc_evaluator)
          rel);
  }

  pub put_pc-Simulates :
      (a b c : ℕ) → Same a b c → Simulates primitives delta Done (put_pc a) (put_pc b) (put_pc c)
  unfolding put_pc
  put_pc-Simulates a b c h = record {
    run = λ g e p rel u p' eq. as_result eq (
        silent tt tt (record g { pc = a }) (record e { pc = b }) refl (λ rest more. refl) refl refl
          tt (assumption (h.0, h.1)));
  }

  pub get_complexity-Simulates :
      Simulates primitives delta Same get_complexity get_complexity get_complexity
  unfolding get_complexity
  get_complexity-Simulates = record {
    run = λ g e p rel c p' eq. as_result eq (
        silent g.complexity e.complexity g e refl (λ rest more. refl) refl refl
          (rel.complexity_garbler, rel.complexity_evaluator) rel);
  }

  pub put_complexity-Simulates :
      (a b c : ℕ)
      → Same a b c
      → Simulates primitives delta Done (put_complexity a) (put_complexity b) (put_complexity c)
  unfolding put_complexity
  put_complexity-Simulates a b c h = record {
    run = λ g e p rel u p' eq. as_result eq (
        silent tt tt (record g { complexity = a }) (record e { complexity = b }) refl
          (λ rest more. refl) refl refl tt (assumption (h.0, h.1)));
  }

  -- The garbler prints nothing; the evaluator prints what the plain run does.
  pub print-Simulates :
      (a b c : Printed) → b ≡ c → Simulates primitives delta Done (print a) (print b) (print c)
  unfolding print
  print-Simulates a b c h = record {
    run = λ g e p rel u p' eq. as_result eq (
        silent tt tt g (record e { out = e.out ++ b ∷ [] }) refl (λ rest more. refl) refl refl tt
          (assumption (ap₂ (λ (l : List Printed) x. l ++ x ∷ []) rel.out h)));
  }
