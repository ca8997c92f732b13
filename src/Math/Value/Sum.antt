-- ===== src/Math/Value/Sum.antt =====
-- Sums over the players, or over the values of a check.
use spdz_yao.Base.{◌≡◌, refl, sym, ap, ap₂, ◌∙◌, List, [], ◌∷◌, ◌++◌, map}
use spdz_yao.Math.Value.{Value, nil, ◌⊕◌, ◌⊖◌, ◌⊗◌, opposite, sum}
use spdz_yao.Math.Value.Laws.{
  nil_plus, plus_swap, minus_self, minus_swap, times_nil, opposite-nil, opposite-plus,
}

module _ {ℓ} {T : Type ℓ} ⦃v : Value T⦄ where
  pub sum-append : (xs ys : List T) → sum (xs ++ ys) ≡ sum xs ⊕ sum ys
  sum-append [] ys = sym (nil_plus (sum ys))
  sum-append (x ∷ xs) ys = rw (sum-append xs ys) (sym (v.plus_assoc x (sum xs) (sum ys)))

module _ {ℓ κ} {A : Type ℓ} {T : Type κ} ⦃v : Value T⦄ where
  pub sum-map-plus :
      (f g : A → T) (xs : List A) → sum (map (λ x. f x ⊕ g x) xs) ≡ sum (map f xs) ⊕ sum (map g xs)
  sum-map-plus f g [] = sym (nil_plus nil)
  sum-map-plus f g (x ∷ xs) =
      ap (λ s. (f x ⊕ g x) ⊕ s) (sum-map-plus f g xs)
      ∙ plus_swap (f x) (g x) (sum (map f xs)) (sum (map g xs))

  pub sum-map-minus :
      (f g : A → T) (xs : List A) → sum (map (λ x. f x ⊖ g x) xs) ≡ sum (map f xs) ⊖ sum (map g xs)
  sum-map-minus f g [] = sym (minus_self nil)
  sum-map-minus f g (x ∷ xs) =
      ap (λ s. (f x ⊖ g x) ⊕ s) (sum-map-minus f g xs)
      ∙ minus_swap (f x) (g x) (sum (map f xs)) (sum (map g xs))

  pub sum-map-times :
      (c : T) (f : A → T) (xs : List A) → sum (map (λ x. c ⊗ f x) xs) ≡ c ⊗ sum (map f xs)
  sum-map-times c f [] = sym (times_nil c)
  sum-map-times c f (x ∷ xs) =
      ap (λ s. c ⊗ f x ⊕ s) (sum-map-times c f xs) ∙ sym (v.times_plus c (f x) (sum (map f xs)))

  pub sum-map-opposite :
      (f : A → T) (xs : List A) → sum (map (λ x. opposite (f x)) xs) ≡ opposite (sum (map f xs))
  sum-map-opposite f [] = sym opposite-nil
  sum-map-opposite f (x ∷ xs) =
      ap (λ s. opposite (f x) ⊕ s) (sum-map-opposite f xs)
      ∙ sym (opposite-plus (f x) (sum (map f xs)))

  pub sum-map-ext :
      {f g : A → T} (xs : List A) → ((x : A) → f x ≡ g x) → sum (map f xs) ≡ sum (map g xs)
  sum-map-ext [] e = refl
  sum-map-ext (x ∷ xs) e = ap₂ ◌⊕◌ (e x) (sum-map-ext xs e)

  pub sum-map-nil : (xs : List A) → sum (map (λ _. nil {T = T}) xs) ≡ nil
  sum-map-nil [] = refl
  sum-map-nil (x ∷ xs) = nil_plus _ ∙ sum-map-nil xs
