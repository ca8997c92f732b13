-- ===== src/Tools/OctetStream/Content.antt =====
-- What an octetStream holds, whatever its capacity.
use spdz_yao.Base.{
  ℕ, zero, suc, ◌+◌, ◌≤◌, ◌≡◌, refl, ap, List, [], ◌∷◌, ◌++◌, length, take, drop, arith,
}
use spdz_yao.Tools.OctetStream.{OctetStream}

-- The octets that have been written, and those of them that have not been read.
unfoldable pub content : OctetStream → List ℕ
content os = take os.len os.octets

unfoldable pub unread : OctetStream → List ℕ
unfolding content
unread os = drop os.ptr (content os)

-- The read head is not past the write head, and the write head is within the buffer.
abbrev pub Valid : OctetStream → Type 0
Valid os = (os.ptr ≤ os.len) × (os.len ≤ length os.octets)

module _ {A : Type 0} where
  pub take-append : (n : ℕ) (xs ys : List A) → n ≤ length xs → take n (xs ++ ys) ≡ take n xs
  take-append zero xs ys h = refl
  take-append (suc n) [] ys h = absurd (omega arith)
  take-append (suc n) (x ∷ xs) ys h = ap (λ zs. x ∷ zs) (take-append n xs ys (omega arith))

  pub drop-append : (n : ℕ) (xs ys : List A) → n ≤ length xs → drop n (xs ++ ys) ≡ drop n xs ++ ys
  drop-append zero xs ys h = refl
  drop-append (suc n) [] ys h = absurd (omega arith)
  drop-append (suc n) (x ∷ xs) ys h = drop-append n xs ys (omega arith)

  pub take-length : (xs ys : List A) → take (length xs) (xs ++ ys) ≡ xs
  take-length [] ys = refl
  take-length (x ∷ xs) ys = ap (λ zs. x ∷ zs) (take-length xs ys)

  pub drop-length : (xs ys : List A) → drop (length xs) (xs ++ ys) ≡ ys
  drop-length [] ys = refl
  drop-length (x ∷ xs) ys = drop-length xs ys

  pub drop-take : (p n m : ℕ) (xs : List A) → m ≡ p + n → drop p (take m xs) ≡ take n (drop p xs)
  drop-take zero n m xs h = let e : m ≡ n = omega arith in ap (λ k. take k xs) e
  drop-take (suc p) n zero xs h = absurd (omega arith)
  drop-take (suc p) zero (suc m) [] h = refl
  drop-take (suc p) (suc n) (suc m) [] h = refl
  drop-take (suc p) n (suc m) (x ∷ xs) h = drop-take p n m xs (omega arith)

  pub drop-drop : (p n m : ℕ) (xs : List A) → m ≡ p + n → drop m xs ≡ drop n (drop p xs)
  drop-drop zero n m xs h = let e : m ≡ n = omega arith in ap (λ k. drop k xs) e
  drop-drop (suc p) n zero xs h = absurd (omega arith)
  drop-drop (suc p) zero (suc m) [] h = refl
  drop-drop (suc p) (suc n) (suc m) [] h = refl
  drop-drop (suc p) n (suc m) (x ∷ xs) h = drop-drop p n m xs (omega arith)

  pub take-take : (n m : ℕ) (xs : List A) → n ≤ m → take n (take m xs) ≡ take n xs
  take-take zero m xs h = refl
  take-take (suc n) zero xs h = absurd (omega arith)
  take-take (suc n) (suc m) [] h = refl
  take-take (suc n) (suc m) (x ∷ xs) h = ap (λ zs. x ∷ zs) (take-take n m xs (omega arith))
