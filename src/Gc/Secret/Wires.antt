-- ===== src/Gc/Secret/Wires.antt =====
-- Reading and writing single wires of the registers: what a write leaves alone.
use spdz_yao.Base.{
  ℕ, zero, suc, ◌≡◌, ◌≢◌, refl, ap, List, [], ◌∷◌, ok, ◌>>=◌, >>=-eq-ok, ok-injective,
}
use mathlib.Core.Path.{subst, fun_ext}
use spdz_yao.Gc.Processor.{fetch, store, fetch_reg, store_reg}

module _ {A : Type 0} where
  fetch-store_ne :
      (xs : List A) (i j : ℕ) (v : A) {ys : List A}
      → i ≢ j
      → store xs i v ≡ ok ys
      → fetch ys j ≡ fetch xs j
  fetch-store_ne [] i j v ne e = cc
  fetch-store_ne (x ∷ xs) zero zero v ne e = absurd (ne refl)
  fetch-store_ne (x ∷ xs) zero (suc j) v ne e =
      subst (λ ys. fetch ys (suc j) ≡ fetch xs j) (ok-injective {x = v ∷ xs} e) refl
  fetch-store_ne (x ∷ xs) (suc i) zero v ne e =
      let (zs, stored, e') = >>=-eq-ok (store xs i v) (λ ys. ok (x ∷ ys)) e in
      subst (λ ys. fetch ys 0 ≡ ok x) (ok-injective {x = x ∷ zs} e') refl
  fetch-store_ne (x ∷ xs) (suc i) (suc j) v ne e =
      let (zs, stored, e') = >>=-eq-ok (store xs i v) (λ ys. ok (x ∷ ys)) e in
      subst (λ ys. fetch ys (suc j) ≡ fetch xs j) (ok-injective {x = x ∷ zs} e')
        (fetch-store_ne xs i j v (λ h. ne (ap suc h)) stored)

  fetch-store_self :
      (xs : List A) (i : ℕ) (v : A) {ys : List A} → store xs i v ≡ ok ys → fetch ys i ≡ ok v
  fetch-store_self [] i v e = cc
  fetch-store_self (x ∷ xs) zero v e =
      subst (λ ys. fetch ys 0 ≡ ok v) (ok-injective {x = v ∷ xs} e) refl
  fetch-store_self (x ∷ xs) (suc i) v e =
      let (zs, stored, e') = >>=-eq-ok (store xs i v) (λ ys. ok (x ∷ ys)) e in
      subst (λ ys. fetch ys (suc i) ≡ ok v) (ok-injective {x = x ∷ zs} e')
        (fetch-store_self xs i v stored)

  store-store :
      (xs : List A) (i : ℕ) (v w : A) {ys : List A}
      → store xs i v ≡ ok ys
      → store ys i w ≡ store xs i w
  store-store [] i v w e = cc
  store-store (x ∷ xs) zero v w e =
      subst (λ ys. store ys 0 w ≡ ok (w ∷ xs)) (ok-injective {x = v ∷ xs} e) refl
  store-store (x ∷ xs) (suc i) v w e =
      let (zs, stored, e') = >>=-eq-ok (store xs i v) (λ ys. ok (x ∷ ys)) e in
      subst (λ ys. store ys (suc i) w ≡ store (x ∷ xs) (suc i) w) (ok-injective {x = x ∷ zs} e')
        (rw (store-store xs i v w stored))

  store_of_fetch :
      (xs : List A) (i : ℕ) (v : A) {x : A}
      → fetch xs i ≡ ok x
      → (ys : List A) × (store xs i v ≡ ok ys)
  store_of_fetch [] i v e = cc
  store_of_fetch (x ∷ xs) zero v e = (v ∷ xs, refl)
  store_of_fetch (x ∷ xs) (suc i) v e = let (ys, h) = store_of_fetch xs i v e in (x ∷ ys, rw h)

module _ {A : Type 0} (s : List (List A)) (d i : ℕ) (v : A) {s' : List (List A)}
    (written : store_reg s d i v ≡ ok s') where
  -- Another register keeps its wires.
  pub fetch_reg-store_reg_ne : (x j : ℕ) → d ≢ x → fetch_reg s' x j ≡ fetch_reg s x j
  unfolding fetch_reg store_reg
  fetch_reg-store_reg_ne x j ne =
      let (regs, f, e) =
        >>=-eq-ok (fetch s d) (λ regs. store regs i v >>= λ regs'. store s d regs') written in
      let (regs', g, e') = >>=-eq-ok (store regs i v) (λ regs'. store s d regs') e in
      ap (λ r. r >>= λ regs. fetch regs j) (fetch-store_ne s d x regs' ne e')

  -- The second of two writes counts.
  pub store_reg-store_reg : (w : A) → store_reg s' d i w ≡ store_reg s d i w
  unfolding store_reg
  store_reg-store_reg w =
      let (regs, f, e) =
        >>=-eq-ok (fetch s d) (λ regs. store regs i v >>= λ regs'. store s d regs') written in
      let (regs', g, e') = >>=-eq-ok (store regs i v) (λ regs'. store s d regs') e in
      rw (fetch-store_self s d regs' e', f, store-store regs i v w g)
        (ap (λ k. store regs i w >>= k) (fun_ext λ r. store-store s d regs' r e'))

-- What can be read can be written.
pub store_reg_of_fetch_reg :
    {A : Type 0} (s : List (List A)) (r i : ℕ) (v : A) {x : A}
    → fetch_reg s r i ≡ ok x
    → (s' : List (List A)) × (store_reg s r i v ≡ ok s')
unfolding fetch_reg store_reg
store_reg_of_fetch_reg s r i v read =
    let (regs, f, e) = >>=-eq-ok (fetch s r) (λ regs. fetch regs i) read in
    let (regs', g) = store_of_fetch regs i v e in
    let (s', h) = store_of_fetch s r regs' f in (s', rw (f, g) h)
