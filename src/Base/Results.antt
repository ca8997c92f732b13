-- ===== src/Base/Results.antt =====
-- Fallible code: the exceptions of Exceptions/Exceptions.h and of the standard library that the
-- modelled code throws, and `fault` where C++ leaves the behaviour undefined.
use mathlib.Core.Path.{◌≡◌, refl}

pub data Error : Type 0 where
  processor_error out_of_range runtime_error invalid_length bad_value not_implemented : Error
  end_of_input overflow_error mac_fail max_mod_sz_too_small invalid_commitment : Error
  fault : Error

-- What a call comes to: the exception that it throws, or the value that it returns.
pub data Result {ℓ} (Value : Type ℓ) : Type ℓ where
  err : Error → Result Value
  ok : Value → Result Value

-- The code after a call runs on the value only.
infixl 5 ◌>>=◌
abbrev pub ◌>>=◌ {ℓ κ} : {X : Type ℓ} {Y : Type κ} → Result X → (X → Result Y) → Result Y
err error >>= next = err error
ok value >>= next = next value

-- If the whole returns, the call has returned, and so has the code after it.
pub >>=-eq-ok {ℓ κ} :
    {X : Type ℓ} {Y : Type κ} (call : Result X) (next : X → Result Y) {y : Y}
    → (call >>= next) ≡ ok y
    → (x : X) × (call ≡ ok x) × (next x ≡ ok y)
>>=-eq-ok (err error) next eq = cc
>>=-eq-ok (ok value) next eq = (value, refl, eq)

pub ok-injective {ℓ} : {X : Type ℓ} {x y : X} → ok x ≡ ok y → x ≡ y
ok-injective eq = cc
