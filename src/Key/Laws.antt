-- ===== src/Key/Laws.antt =====
-- The group of labels under exclusive or, and the signal bit.
use spdz_yao.Base.{
  ℕ, ◌+◌, ◌%◌, ◌≡◌, refl, sym, ap₂, ◌∙◌, Bool, true, false, xor, ◌==◌, ◌↔◌, if◌then◌else◌, arith,
  bit_xor, bit_and,
}
use spdz_yao.Base.Bits.{
  xor_comm, xor_assoc, xor_self, xor-zero, zero-xor, xor-parity, and_even-parity,
}
use mathlib.Core.Path.{◌≡⟨◌⟩◌, ◌∎}
use spdz_yao.Key.{Key, zero_key, ◌⊕◌, equal, get_signal, set_signal}

key_path :
    {a b c d : ℕ}
    → a ≡ c
    → b ≡ d
    → ◌≡◌ {A = Key} (record { hi = a; lo = b }) (record { hi = c; lo = d })
key_path p q i = record { hi = p i; lo = q i }

pub ⊕_assoc : (a b c : Key) → a ⊕ b ⊕ c ≡ a ⊕ (b ⊕ c)
unfolding ◌⊕◌
⊕_assoc a b c = key_path (xor_assoc a.hi b.hi c.hi) (xor_assoc a.lo b.lo c.lo)

pub ⊕_comm : (a b : Key) → a ⊕ b ≡ b ⊕ a
unfolding ◌⊕◌
⊕_comm a b = key_path (xor_comm a.hi b.hi) (xor_comm a.lo b.lo)

pub ⊕_self : (a : Key) → a ⊕ a ≡ zero_key
unfolding ◌⊕◌
⊕_self a = key_path (xor_self a.hi) (xor_self a.lo)

pub ⊕-zero : (a : Key) → a ⊕ zero_key ≡ a
unfolding ◌⊕◌
⊕-zero a = key_path (xor-zero a.hi) (xor-zero a.lo)

pub zero-⊕ : (a : Key) → zero_key ⊕ a ≡ a
unfolding ◌⊕◌
zero-⊕ a = key_path (zero-xor a.hi) (zero-xor a.lo)

-- What is added twice cancels.
pub ⊕_cancel : (a h : Key) → a ⊕ h ⊕ h ≡ a
⊕_cancel a h = rw (⊕_assoc, ⊕_self) (⊕-zero a)

pub ⊕_cancel_left : (a b : Key) → a ⊕ (a ⊕ b) ≡ b
⊕_cancel_left a b = rw (← ⊕_assoc a a b, ⊕_self) (zero-⊕ b)

-- Two sums exchange their middle terms.
pub ⊕_interchange : (a b c d : Key) → a ⊕ b ⊕ (c ⊕ d) ≡ a ⊕ c ⊕ (b ⊕ d)
⊕_interchange a b c d =
    a ⊕ b ⊕ (c ⊕ d)
    ≡⟨ ⊕_assoc a b (c ⊕ d) ⟩ a ⊕ (b ⊕ (c ⊕ d))
    ≡⟨ ap₂ ◌⊕◌ refl (sym (⊕_assoc b c d) ∙ ap₂ ◌⊕◌ (⊕_comm b c) refl ∙ ⊕_assoc c b d) ⟩
      a ⊕ (c ⊕ (b ⊕ d))
    ≡⟨ sym (⊕_assoc a c (b ⊕ d)) ⟩ a ⊕ c ⊕ (b ⊕ d) ∎

parity_xor : (x y z : ℕ) → z % 2 ≡ (x + y) % 2 → (z % 2 == 1) ≡ xor (x % 2 == 1) (y % 2 == 1)
unfolding xor
parity_xor x y z h = ground arith

-- The signal of a sum is the exclusive or of the signals.
pub get_signal-⊕ : (a b : Key) → get_signal (a ⊕ b) ≡ xor (get_signal a) (get_signal b)
unfolding get_signal ◌⊕◌
get_signal-⊕ a b = parity_xor a.lo b.lo _ (xor-parity a.lo b.lo)

pub get_signal-zero : get_signal zero_key ≡ false
unfolding get_signal
get_signal-zero = refl

signal_parity :
    (m z : ℕ) (signal : Bool)
    → m % 2 ≡ 0
    → z % 2 ≡ (m + (if signal then 1 else 0)) % 2
    → (z % 2 == 1) ≡ signal
signal_parity m z true h e = ground arith
signal_parity m z false h e = ground arith

pub get_signal-set_signal : (signal : Bool) (k : Key) → get_signal (set_signal signal k) ≡ signal
unfolding get_signal set_signal
get_signal-set_signal signal k =
    signal_parity (bit_and k.lo 18446744073709551614) _ signal
      (and_even-parity k.lo 9223372036854775807)
      (xor-parity (bit_and k.lo 18446744073709551614) (if signal then 1 else 0))

-- `operator==` decides equality.
pub equal_iff : (a b : Key) → (equal a b ≡ true) ↔ (a ≡ b)
unfolding equal ◌⊕◌
equal_iff a b = (forth, back)
  where
    lanes : equal a b ≡ true → (bit_xor a.hi b.hi ≡ 0) × (bit_xor a.lo b.lo ≡ 0)
    lanes e = ground arith

    undo : (x y : ℕ) → bit_xor x y ≡ 0 → x ≡ y
    undo x y z = sym (
        sym (zero-xor y)
        ∙ ap₂ bit_xor (sym (xor_self x)) refl
        ∙ xor_assoc x x y
        ∙ ap₂ bit_xor refl z
        ∙ xor-zero x)

    forth : equal a b ≡ true → a ≡ b
    forth e = key_path (undo a.hi b.hi (lanes e).0) (undo a.lo b.lo (lanes e).1)

    back : a ≡ b → equal a b ≡ true
    back e = rw e (ground (arith, xor_self b.hi, xor_self b.lo))
