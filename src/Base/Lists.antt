-- ===== src/Base/Lists.antt =====
-- Lists measured by native numbers, predicates by recursion, and sets of keys as lists.
use Prim.Native.Nat.{ℕ, zero, suc, ◌+◌, ◌≤◌, min}
use mathlib.Core.Path.{◌≡◌}
use mathlib.Core.Bool.{Bool, true, false, ◌||◌}
use mathlib.Core.List.{List, [], ◌∷◌, ◌++◌}
use native.Mathlib.Omega.{arith}
use aequa_network.Base.Tests.{if◌then◌else◌}
use aequa_network.Base.Equality.{Eq, ◌==◌, ==_self}

module _ {ℓ} {A : Type ℓ} where
  abbrev pub length : List A → ℕ
  length [] = 0
  length (x ∷ xs) = suc (length xs)

  abbrev pub take : ℕ → List A → List A
  take zero xs = []
  take (suc n) [] = []
  take (suc n) (x ∷ xs) = x ∷ take n xs

  abbrev pub drop : ℕ → List A → List A
  drop zero xs = xs
  drop (suc n) [] = []
  drop (suc n) (x ∷ xs) = drop n xs

  pub length-append : (xs ys : List A) → length (xs ++ ys) ≡ length xs + length ys
  length-append [] ys = omega arith
  length-append (x ∷ xs) ys = omega (arith, length-append xs ys)

  pub length-take : (n : ℕ) (xs : List A) → length (take n xs) ≡ min n (length xs)
  length-take zero xs = omega arith
  length-take (suc n) [] = omega arith
  length-take (suc n) (x ∷ xs) = omega (arith, length-take n xs)

  -- Every member satisfies `P`.
  abbrev pub All {κ} : (A → Type κ) → List A → Type κ
  All P [] = Unit
  All P (x ∷ xs) = P x × All P xs

  pub All-append {κ} : (P : A → Type κ) (xs ys : List A) → All P xs → All P ys → All P (xs ++ ys)
  All-append P [] ys hx hy = hy
  All-append P (x ∷ xs) ys hx hy = (hx.0, All-append P xs ys hx.1 hy)

  pub All-take {κ} : (P : A → Type κ) (n : ℕ) (xs : List A) → All P xs → All P (take n xs)
  All-take P zero xs h = tt
  All-take P (suc n) [] h = tt
  All-take P (suc n) (x ∷ xs) h = (h.0, All-take P n xs h.1)

-- A Go `map[K]struct{}` is the list of its keys.
module _ {ℓ} {A : Type ℓ} ⦃e : Eq A⦄ where
  unfoldable pub contains : List A → A → Bool
  contains [] a = false
  contains (x ∷ xs) a = x == a || contains xs a

  unfoldable pub add_key : A → List A → List A
  add_key a xs = if contains xs a then xs else a ∷ xs

  -- No key is listed twice.
  abbrev pub Distinct : List A → Type 0
  Distinct [] = Unit
  Distinct (x ∷ xs) = (contains xs x ≡ false) × Distinct xs

  pub add_key-Distinct : (a : A) (xs : List A) → Distinct xs → Distinct (add_key a xs)
  unfolding add_key
  add_key-Distinct a xs h = ground arith

  pub contains-add_key_self : (a : A) (xs : List A) → contains (add_key a xs) a ≡ true
  unfolding add_key contains
  contains-add_key_self a xs = ground (arith, ==_self a)

  pub length-add_key : (a : A) (xs : List A) → length xs ≤ length (add_key a xs)
  unfolding add_key
  length-add_key a xs = ground arith

  pub contains-add_key_mono :
      (a b : A) (xs : List A) → contains xs b ≡ true → contains (add_key a xs) b ≡ true
  unfolding add_key contains
  contains-add_key_mono a b xs h = ground arith
