-- ===== src/Math/Share/Constants.antt =====
-- Public constants in Math/Share.h: the first player takes the constant in, every player the MAC.
-- Each operation is that on two shares, with the shares of the constant.
use spdz_yao.Base.{◌≡◌, refl, sym, ap, ap₂, ◌∙◌, Bool, true, false, ◌==◌, if◌then◌else◌, List, ◌∷◌}
use spdz_yao.Math.Value.{Value, nil, ◌⊕◌, ◌⊖◌, ◌⊗◌, opposite}
use spdz_yao.Math.Value.Laws.{nil_plus, nil_times, minus_nil}
use spdz_yao.Math.Value.Sum.{sum-map-times, sum-map-ext, sum-map-nil}
use spdz_yao.Math.Share.{
  Share, assign_zero, assign_constant, add_constant, negate, sub_constant, sub_from_constant, add,
  sub,
}
use spdz_yao.Math.Share.Sharing.{
  Party, NumberedFrom, Shares, Shares-add, Shares-sub, key_of, only_first, sum-only_first,
}

module _ {ℓ} {T : Type ℓ} ⦃v : Value T⦄ where
  nil_minus : (a : T) → nil ⊖ a ≡ opposite a
  nil_minus a = v.minus_eq nil a ∙ nil_plus (opposite a)

  -- The operations with a constant, by the operations with the shares of it.
  pub add-assign_constant :
      (s : Share T) (c : T) (p : Party T)
      → add_constant s c (p.my_num == 0) p.alphai ≡ add s (assign_constant c p.my_num p.alphai)
  unfolding add_constant add assign_constant
  add-assign_constant s c p =
      rw (v.times_comm c p.alphai)
        (ap (λ x. record { a = x; mac = s.mac ⊕ p.alphai ⊗ c }) (chosen (p.my_num == 0)))
    where
      chosen : (b : Bool) → (if b then s.a ⊕ c else s.a) ≡ s.a ⊕ (if b then c else nil)
      chosen true = refl
      chosen false = sym (v.plus_nil s.a)

  pub sub-assign_constant :
      (s : Share T) (c : T) (p : Party T)
      → sub_constant s c (p.my_num == 0) p.alphai ≡ sub s (assign_constant c p.my_num p.alphai)
  unfolding sub_constant sub assign_constant
  sub-assign_constant s c p =
      rw (v.times_comm c p.alphai)
        (ap (λ x. record { a = x; mac = s.mac ⊖ p.alphai ⊗ c }) (chosen (p.my_num == 0)))
    where
      chosen : (b : Bool) → (if b then s.a ⊖ c else s.a) ≡ s.a ⊖ (if b then c else nil)
      chosen true = refl
      chosen false = sym (minus_nil s.a)

  pub sub_from-assign_constant :
      (s : Share T) (c : T) (p : Party T)
      → sub_from_constant c s (p.my_num == 0) p.alphai ≡ sub (assign_constant c p.my_num p.alphai) s
  unfolding sub_from_constant sub assign_constant
  sub_from-assign_constant s c p =
      rw (v.times_comm c p.alphai)
        (ap (λ x. record { a = x; mac = p.alphai ⊗ c ⊖ s.mac }) (chosen (p.my_num == 0)))
    where
      chosen : (b : Bool) → (if b then c ⊖ s.a else opposite s.a) ≡ (if b then c else nil) ⊖ s.a
      chosen true = refl
      chosen false = sym (nil_minus s.a)

  negate-sub : (s : Share T) → negate s ≡ sub assign_zero s
  unfolding negate sub assign_zero
  negate-sub s =
      ap₂ (λ x y. record { a = x; mac = y }) (sym (nil_minus s.a)) (sym (nil_minus s.mac))

  Shares-ext :
      {ps : List (Party T)} {f g : Party T → Share T} {x : T}
      → ((p : Party T) → f p ≡ g p)
      → Shares ps g x
      → Shares ps f x
  Shares-ext {ps = ps} e h = record {
    value_shared = sum-map-ext ps (λ p. ap (λ s. s.a) (e p)) ∙ h.value_shared;
    mac_shared = sum-map-ext ps (λ p. ap (λ s. s.mac) (e p)) ∙ h.mac_shared;
  }

  module _ (ps : List (Party T)) where
    Shares-assign_zero : Shares ps (λ _. assign_zero) nil
    unfolding assign_zero
    Shares-assign_zero = record {
      value_shared = sum-map-nil ps;
      mac_shared = sum-map-nil ps ∙ sym (nil_times (key_of ps));
    }

    pub Shares-negate :
        {f : Party T → Share T} {x : T} → Shares ps f x → Shares ps (λ p. negate (f p)) (opposite x)
    Shares-negate {f = f} {x = x} h =
        Shares-ext (λ p. negate-sub (f p)) (rw (← nil_minus x) (Shares-sub ps Shares-assign_zero h))

  module _ (p : Party T) (ps : List (Party T)) (numbered : NumberedFrom 0 (p ∷ ps)) where
    pub Shares-assign_constant :
        (c : T) → Shares (p ∷ ps) (λ q. assign_constant c q.my_num q.alphai) c
    unfolding assign_constant key_of only_first
    Shares-assign_constant c = record {
      value_shared = sum-only_first c p ps numbered;
      mac_shared = sum-map-times c (λ q. q.alphai) (p ∷ ps);
    }

    module _ {f : Party T → Share T} {x : T} (h : Shares (p ∷ ps) f x) (c : T) where
      pub Shares-add_constant :
          Shares (p ∷ ps) (λ q. add_constant (f q) c (q.my_num == 0) q.alphai) (x ⊕ c)
      Shares-add_constant =
          Shares-ext (λ q. add-assign_constant (f q) c q)
            (Shares-add (p ∷ ps) h (Shares-assign_constant c))

      pub Shares-sub_constant :
          Shares (p ∷ ps) (λ q. sub_constant (f q) c (q.my_num == 0) q.alphai) (x ⊖ c)
      Shares-sub_constant =
          Shares-ext (λ q. sub-assign_constant (f q) c q)
            (Shares-sub (p ∷ ps) h (Shares-assign_constant c))

      pub Shares-sub_from_constant :
          Shares (p ∷ ps) (λ q. sub_from_constant c (f q) (q.my_num == 0) q.alphai) (c ⊖ x)
      Shares-sub_from_constant =
          Shares-ext (λ q. sub_from-assign_constant (f q) c q)
            (Shares-sub (p ∷ ps) (Shares-assign_constant c) h)
