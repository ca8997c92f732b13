-- ===== src/Yao/Simulation/Lists.antt =====
-- Three lists that agree element by element, and the vector operations that keep this.
use spdz_yao.Base.{
  ℕ, zero, suc, ◌≡◌, refl, sym, ap, ◌∙◌, arith, List, [], ◌∷◌, ◌++◌, length, ok, >>=-eq-ok,
  ok-injective,
}
use mathlib.Core.Path.{subst}
use spdz_yao.Gc.Processor.{fetch, store, resize}

pub data All {A B C : Type 0} (P : A → B → C → Type 0) : List A → List B → List C → Type 0 where
  nil : All P [] [] []
  cons :
      {x : A} {y : B} {z : C} {xs : List A} {ys : List B} {zs : List C}
      → P x y z
      → All P xs ys zs
      → All P (x ∷ xs) (y ∷ ys) (z ∷ zs)

pub record Fetched {A B C : Type 0} (P : A → B → C → Type 0) (xs : List A) (ys : List B) (i : ℕ)
    (z : C) : Type 0 where
  pub x : A
  pub y : B
  pub left : fetch xs i ≡ ok x
  pub right : fetch ys i ≡ ok y
  pub agree : P x y z

pub record Stored {A B C : Type 0} (P : A → B → C → Type 0) (xs : List A) (ys : List B) (i : ℕ)
    (x : A) (y : B) (zs' : List C) : Type 0 where
  pub xs' : List A
  pub ys' : List B
  pub left : store xs i x ≡ ok xs'
  pub right : store ys i y ≡ ok ys'
  pub agree : All P xs' ys' zs'

module _ {A B C : Type 0} {P : A → B → C → Type 0} where
  pub fetch-All :
      {xs : List A} {ys : List B} {zs : List C}
      → All P xs ys zs
      → (i : ℕ) {z : C} → fetch zs i ≡ ok z
      → Fetched P xs ys i z
  fetch-All nil i e = cc
  fetch-All (cons {x} {y} p ps) zero e = record {
    x = x;
    y = y;
    left = refl;
    right = refl;
    agree = rw (← ok-injective e) p;
  }
  fetch-All (cons p ps) (suc i) e =
      let f = fetch-All ps i e in
      record { x = f.x; y = f.y; left = f.left; right = f.right; agree = f.agree }

  pub store-All :
      {xs : List A} {ys : List B} {zs : List C}
      → All P xs ys zs
      → (i : ℕ) {x : A} {y : B} {z : C} → P x y z
      → {zs' : List C} → store zs i z ≡ ok zs'
      → Stored P xs ys i x y zs'
  store-All nil i q e = cc
  store-All (cons {xs} {ys} p ps) zero {x} {y} q e = record {
    xs' = x ∷ xs;
    ys' = y ∷ ys;
    left = refl;
    right = refl;
    agree = rw (← ok-injective e) (cons q ps);
  }
  store-All (cons {x = x'} {y = y'} {z = z'} p ps) (suc i) q e =
      let (zs, stored, e') = >>=-eq-ok _ (λ zs. ok (z' ∷ zs)) e in
      let s = store-All ps i q stored in
      record {
        xs' = x' ∷ s.xs';
        ys' = y' ∷ s.ys';
        left = rw s.left;
        right = rw s.right;
        agree =
            subst (All P (x' ∷ s.xs') (y' ∷ s.ys')) (ok-injective {x = z' ∷ zs} e')
              (cons p s.agree);
      }

  pub resize-All :
      (x : A) (y : B) (z : C)
      → P x y z
      → (n : ℕ) {xs : List A} {ys : List B} {zs : List C} → All P xs ys zs
      → All P (resize n x xs) (resize n y ys) (resize n z zs)
  resize-All x y z q zero ps = nil
  resize-All x y z q (suc n) nil = cons q (resize-All x y z q n nil)
  resize-All x y z q (suc n) (cons p ps) = cons p (resize-All x y z q n ps)

  pub append-All :
      {xs xs' : List A} {ys ys' : List B} {zs zs' : List C}
      → All P xs ys zs
      → All P xs' ys' zs'
      → All P (xs ++ xs') (ys ++ ys') (zs ++ zs')
  append-All nil qs = qs
  append-All (cons p ps) qs = cons p (append-All ps qs)

  pub length-All_left :
      {xs : List A} {ys : List B} {zs : List C} → All P xs ys zs → length xs ≡ length zs
  length-All_left nil = refl
  length-All_left (cons p ps) = ap suc (length-All_left ps)

  pub length-All_right :
      {xs : List A} {ys : List B} {zs : List C} → All P xs ys zs → length ys ≡ length zs
  length-All_right nil = refl
  length-All_right (cons p ps) = ap suc (length-All_right ps)

-- Lists of one length: an access that succeeds in the one does in the other.
pub fetch_of_length :
    {A B : Type 0} (xs : List A) (zs : List B) (i : ℕ)
    → length xs ≡ length zs
    → {z : B} → fetch zs i ≡ ok z
    → (x : A) × (fetch xs i ≡ ok x)
fetch_of_length [] [] i h e = cc
fetch_of_length [] (z ∷ zs) i h e = absurd (omega arith)
fetch_of_length (x ∷ xs) [] i h e = absurd (omega arith)
fetch_of_length (x ∷ xs) (z ∷ zs) zero h e = (x, refl)
fetch_of_length (x ∷ xs) (z ∷ zs) (suc i) h e = fetch_of_length xs zs i (omega arith) e

pub length-store :
    {B : Type 0} (zs : List B) (i : ℕ) (z : B) {zs' : List B}
    → store zs i z ≡ ok zs'
    → length zs' ≡ length zs
length-store [] i z e = cc
length-store (y ∷ zs) zero z e = ap length (sym (ok-injective {x = z ∷ zs} e))
length-store (y ∷ zs) (suc i) z e =
    let (ys, stored, e') = >>=-eq-ok (store zs i z) (λ ys. ok (y ∷ ys)) e in
    ap length (sym (ok-injective {x = y ∷ ys} e')) ∙ ap suc (length-store zs i z stored)

pub store_of_length :
    {A B : Type 0} (xs : List A) (zs : List B) (i : ℕ) (x : A) (z : B) {zs' : List B}
    → length xs ≡ length zs
    → store zs i z ≡ ok zs'
    → (xs' : List A) × (store xs i x ≡ ok xs')
store_of_length [] [] i x v h e = cc
store_of_length [] (z ∷ zs) i x v h e = absurd (omega arith)
store_of_length (y ∷ xs) [] i x v h e = absurd (omega arith)
store_of_length (y ∷ xs) (z ∷ zs) zero x v h e = (x ∷ xs, refl)
store_of_length (y ∷ xs) (z ∷ zs) (suc i) x v h e =
    let (ys, stored, e') = >>=-eq-ok (store zs i v) (λ ys. ok (z ∷ ys)) e in
    let (xs', done) = store_of_length xs zs i x v (omega arith) stored in (y ∷ xs', rw done)
