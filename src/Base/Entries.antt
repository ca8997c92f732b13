-- ===== src/Base/Entries.antt =====
-- Values found in lists with a default, and what append, take and drop do to them.
use Prim.Native.Nat.{ℕ, zero, suc, ◌-◌, ◌≤◌, ◌<◌}
use mathlib.Core.Path.{◌≡◌, refl, ap, ◌∙◌}
use mathlib.Core.List.{List, [], ◌∷◌, ◌++◌}
use native.Mathlib.Omega.{arith}
use spdz_yao.Base.Results.{Result, ok, err, fault}
use spdz_yao.Base.Lists.{length, get_or, take, drop}

pub get_or-append_left {ℓ} :
    {A : Type ℓ} (xs ys : List A) (i : ℕ) (d : A)
    → i < length xs
    → get_or (xs ++ ys) i d ≡ get_or xs i d
get_or-append_left [] ys i d h = elim h [ ]
get_or-append_left (x ∷ xs) ys zero d h = refl
get_or-append_left (x ∷ xs) ys (suc i) d h = get_or-append_left xs ys i d (omega arith)

pub get_or-append_right {ℓ} :
    {A : Type ℓ} (xs ys : List A) (i : ℕ) (d : A)
    → length xs ≤ i
    → get_or (xs ++ ys) i d ≡ get_or ys (i - length xs) d
get_or-append_right [] ys i d h = ap (λ k. get_or ys k d) (omega arith)
get_or-append_right (x ∷ xs) ys zero d h = absurd (omega arith)
get_or-append_right (x ∷ xs) ys (suc i) d h =
    get_or-append_right xs ys i d (omega arith) ∙ ap (λ k. get_or ys k d) (omega arith)

pub drop-length {ℓ} : {A : Type ℓ} (xs : List A) → drop (length xs) xs ≡ []
drop-length [] = refl
drop-length (x ∷ xs) = drop-length xs

pub get_or-take {ℓ} :
    {A : Type ℓ} (n : ℕ) (xs : List A) (i : ℕ) (d : A)
    → i < n
    → get_or (take n xs) i d ≡ get_or xs i d
get_or-take zero xs i d h = elim h [ ]
get_or-take (suc n) [] i d h = refl
get_or-take (suc n) (x ∷ xs) zero d h = refl
get_or-take (suc n) (x ∷ xs) (suc i) d h = get_or-take n xs i d (omega arith)

-- `xs[i]`, which is undefined out of range.
unfoldable pub element {ℓ} : {A : Type ℓ} → List A → ℕ → Result A
element [] i = err fault
element (x ∷ xs) zero = ok x
element (x ∷ xs) (suc i) = element xs i

pub element-get_or {ℓ} :
    {A : Type ℓ} (xs : List A) (i : ℕ) (d : A) → i < length xs → element xs i ≡ ok (get_or xs i d)
unfolding element
element-get_or [] i d h = elim h [ ]
element-get_or (x ∷ xs) zero d h = refl
element-get_or (x ∷ xs) (suc i) d h = element-get_or xs i d (omega arith)

pub take-length_append {ℓ} : {A : Type ℓ} (xs ys : List A) → take (length xs) (xs ++ ys) ≡ xs
take-length_append [] ys = refl
take-length_append (x ∷ xs) ys = ap (λ l. x ∷ l) (take-length_append xs ys)

pub drop-length_append {ℓ} : {A : Type ℓ} (xs ys : List A) → drop (length xs) (xs ++ ys) ≡ ys
drop-length_append [] ys = refl
drop-length_append (x ∷ xs) ys = drop-length_append xs ys
