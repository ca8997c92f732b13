-- ===== src/Math/Share/Sharing.antt =====
-- The players of a computation, and what it means that they share a value under the MAC key.
use spdz_yao.Base.{
  arith, ℕ, suc, ◌≡◌, refl, sym, ap, ap₂, ◌∙◌, ◌==◌, if◌then◌else◌, List, [], ◌∷◌, map,
}
use spdz_yao.Math.Value.{Value, nil, ◌⊕◌, ◌⊖◌, ◌⊗◌, sum}
use spdz_yao.Math.Value.Laws.{plus_times, times_minus}
use spdz_yao.Math.Value.Sum.{sum-map-plus, sum-map-minus, sum-map-times, sum-map-ext}
use spdz_yao.Math.Share.{Share, mul, add, sub}

-- What a player has: `P.my_num()`, the share `alphai` of the key, and the registers of shares.
pub record Party {ℓ} (T : Type ℓ) : Type ℓ where
  pub my_num : ℕ
  pub alphai : T
  pub registers : ℕ → Share T

-- The players in their order, from a number on.
abbrev pub NumberedFrom {ℓ} : {T : Type ℓ} → ℕ → List (Party T) → Type 0
NumberedFrom n [] = Unit
NumberedFrom n (p ∷ ps) = (p.my_num ≡ n) × NumberedFrom (suc n) ps

module _ {ℓ} {T : Type ℓ} ⦃v : Value T⦄ where
  unfoldable pub key_of : List (Party T) → T
  key_of ps = sum (map (λ p. p.alphai) ps)

  -- The shares that the players compute add up to the value, and their MACs to the value times the
  -- key.
  pub record Shares (ps : List (Party T)) (f : Party T → Share T) (x : T) : Type ℓ where
    pub value_shared : sum (map (λ p. (f p).a) ps) ≡ x
    pub mac_shared : sum (map (λ p. (f p).mac) ps) ≡ x ⊗ key_of ps

  minus_times : (a b c : T) → (a ⊖ b) ⊗ c ≡ a ⊗ c ⊖ b ⊗ c
  minus_times a b c =
      rw (v.times_comm (a ⊖ b) c, v.times_comm a c, v.times_comm b c) (times_minus c a b)

  sum-map-scaled :
      (f : Party T → T) (c : T) (ps : List (Party T))
      → sum (map (λ p. f p ⊗ c) ps) ≡ sum (map f ps) ⊗ c
  sum-map-scaled f c ps =
      sum-map-ext ps (λ p. v.times_comm (f p) c)
      ∙ sum-map-times c f ps
      ∙ v.times_comm c (sum (map f ps))

  unfoldable pub only_first : T → Party T → T
  only_first c p = if p.my_num == 0 then c else nil

  not_first : (c : T) (n : ℕ) → (if suc n == 0 then c else nil) ≡ nil
  not_first c n = ground arith

  only_later :
      (c : T) (n : ℕ) (ps : List (Party T))
      → NumberedFrom (suc n) ps
      → sum (map (only_first c) ps) ≡ nil
  unfolding only_first
  only_later c n [] numbered = refl
  only_later c n (p ∷ ps) (number, numbered) =
      rw number (ap₂ ◌⊕◌ (not_first c n) (only_later c (suc n) ps numbered) ∙ v.plus_nil nil)

  -- One player contributes a public value, the others nothing.
  pub sum-only_first :
      (c : T) (p : Party T) (ps : List (Party T))
      → NumberedFrom 0 (p ∷ ps)
      → sum (map (only_first c) (p ∷ ps)) ≡ c
  unfolding only_first
  sum-only_first c p ps (number, numbered) =
      rw number (ap (◌⊕◌ c) (only_later c 0 ps numbered) ∙ v.plus_nil c)

  module _ (ps : List (Party T)) where
    pub Shares-add :
        {f g : Party T → Share T} {x y : T}
        → Shares ps f x
        → Shares ps g y
        → Shares ps (λ p. add (f p) (g p)) (x ⊕ y)
    unfolding add
    Shares-add {f = f} {g = g} {x = x} {y = y} hf hg = record {
      value_shared = sum-map-plus _ _ ps ∙ ap₂ ◌⊕◌ hf.value_shared hg.value_shared;
      mac_shared =
          sum-map-plus _ _ ps
          ∙ ap₂ ◌⊕◌ hf.mac_shared hg.mac_shared
          ∙ sym (plus_times x y (key_of ps));
    }

    pub Shares-sub :
        {f g : Party T → Share T} {x y : T}
        → Shares ps f x
        → Shares ps g y
        → Shares ps (λ p. sub (f p) (g p)) (x ⊖ y)
    unfolding sub
    Shares-sub {f = f} {g = g} {x = x} {y = y} hf hg = record {
      value_shared = sum-map-minus _ _ ps ∙ ap₂ ◌⊖◌ hf.value_shared hg.value_shared;
      mac_shared =
          sum-map-minus _ _ ps
          ∙ ap₂ ◌⊖◌ hf.mac_shared hg.mac_shared
          ∙ sym (minus_times x y (key_of ps));
    }

    pub Shares-mul :
        {f : Party T → Share T} {x : T}
        → Shares ps f x
        → (c : T) → Shares ps (λ p. mul (f p) c) (x ⊗ c)
    unfolding mul
    Shares-mul {f = f} {x = x} hf c = record {
      value_shared = sum-map-scaled (λ p. (f p).a) c ps ∙ ap (λ s. s ⊗ c) hf.value_shared;
      mac_shared =
          sum-map-scaled (λ p. (f p).mac) c ps
          ∙ ap (λ s. s ⊗ c) hf.mac_shared
          ∙ v.times_assoc x (key_of ps) c
          ∙ ap (λ s. x ⊗ s) (v.times_comm (key_of ps) c)
          ∙ sym (v.times_assoc x c (key_of ps));
    }
