-- ===== src/Math/Congruence.antt =====
-- Numbers that leave the same remainder, for the arithmetic modulo a prime of Math/.
use spdz_yao.Base.{◌≡◌, refl, sym, ap, ap₂, ◌∙◌, ℕ, ◌+◌, ◌*◌, ◌%◌, ◌/◌, ◌<◌, arith}
use native.Mathlib.Nat.{add-mul-mod_self_right, mod-add-div, mod-eq_of_lt, add-mod, mod-mod}

pub record Congruent (p a b : ℕ) : Type 0 where
  pub same : a % p ≡ b % p

congruent : (p a b : ℕ) → a % p ≡ b % p → Congruent p a b
congruent p a b e = record { same = e }

module _ {p : ℕ} where
  pub of_eq : {a b : ℕ} → a ≡ b → Congruent p a b
  of_eq e = congruent _ _ _ (ap (λ n. n % p) e)

  pub reverse : {a b : ℕ} → Congruent p a b → Congruent p b a
  reverse c = congruent _ _ _ (sym c.same)

  infixr 20 ◌and_so◌
  pub ◌and_so◌ : {a b c : ℕ} → Congruent p a b → Congruent p b c → Congruent p a c
  c and_so d = congruent _ _ _ (c.same ∙ d.same)

  -- Numbers that differ by a multiple.
  pub of_multiples : {a b : ℕ} (k l : ℕ) → a + k * p ≡ b + l * p → Congruent p a b
  of_multiples {a = a} {b = b} k l e =
      congruent _ _ _
        (sym (add-mul-mod_self_right a k p) ∙ ap (λ n. n % p) e ∙ add-mul-mod_self_right b l p)

  pub to_multiples : {a b : ℕ} → Congruent p a b → a + b / p * p ≡ b + a / p * p
  to_multiples {a = a} {b = b} c = omega (arith, mod-add-div a p, mod-add-div b p, c.same)

  pub mod-Congruent : (a : ℕ) → Congruent p (a % p) a
  mod-Congruent a = congruent _ _ _ (mod-mod a p)

  pub plus_both : {a b c d : ℕ} → Congruent p a c → Congruent p b d → Congruent p (a + b) (c + d)
  plus_both {a = a} {b = b} {c = c} {d = d} e f =
      congruent _ _ _ (add-mod a b p ∙ ap₂ (λ x y. (x + y) % p) e.same f.same ∙ sym (add-mod c d p))

  pub times_right : {a c : ℕ} (b : ℕ) → Congruent p a c → Congruent p (a * b) (c * b)
  times_right {a = a} {c = c} b e =
      of_multiples (c / p * b) (a / p * b) (omega (arith, ap (λ n. n * b) (to_multiples e)))

  pub times_both : {a b c d : ℕ} → Congruent p a c → Congruent p b d → Congruent p (a * b) (c * d)
  times_both {a = a} {b = b} {c = c} {d = d} e f =
      times_right b e and_so of_eq (omega arith) and_so times_right c f and_so of_eq (omega arith)

  -- Multiplication by what has an inverse is undone.
  pub cancel :
      (r inverse : ℕ) {a b : ℕ}
      → Congruent p (r * inverse) 1
      → Congruent p (a * r) (b * r)
      → Congruent p a b
  cancel r inverse {a = a} {b = b} i e =
      of_eq {a = a} {b = a * 1} (omega arith)
      and_so times_both {b = 1} {d = r * inverse} (of_eq refl) (reverse i)
      and_so of_eq {b = a * r * inverse} (omega arith)
      and_so times_right inverse e
      and_so of_eq {b = b * (r * inverse)} (omega arith)
      and_so times_both {d = 1} (of_eq refl) i
      and_so of_eq (omega arith)

  -- Remainders are equal if they are congruent.
  pub canonical : {a b : ℕ} → a < p → b < p → Congruent p a b → a ≡ b
  canonical h k c = sym (mod-eq_of_lt h) ∙ c.same ∙ mod-eq_of_lt k
