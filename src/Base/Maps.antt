-- ===== src/Base/Maps.antt =====
-- A Go map is an association list; a missing key is `none`.
use mathlib.Core.Path.{◌≡◌, refl, subst}
use mathlib.Core.Logic.{inl, inr}
use mathlib.Core.Option.{Option, none, some}
use mathlib.Core.List.{List, [], ◌∷◌}
use native.Mathlib.Omega.{arith}
use aequa_network.Base.Tests.{if◌then◌else◌, Bool-cases}
use Prim.Native.Nat.{◌≤◌, ◌<◌}
use aequa_network.Base.Lists.{length}
use aequa_network.Base.Equality.{Eq, ◌==◌, ==_self}

module _ {ℓ κ} {K : Type ℓ} ⦃e : Eq K⦄ {V : Type κ} where
  unfoldable pub lookup : K → List (K × V) → Option V
  lookup k [] = none
  lookup k ((j, v) ∷ m) = if j == k then some v else lookup k m

  unfoldable pub insert : K → V → List (K × V) → List (K × V)
  insert key val ((other, old) ∷ rest) =
      if other == key then (key, val) ∷ rest else (other, old) ∷ insert key val rest
  insert key val [] = (key, val) ∷ []

  -- The value under a key, or a default where Go reads the zero value.
  unfoldable pub lookup_or : V → K → List (K × V) → V
  lookup_or d k m = elim (lookup k m) [ some v ↦ v | none ↦ d ]

  pub lookup-insert :
      (new old : K) (val : V) (entries : List (K × V))
      → lookup old (insert new val entries) ≡ (if new == old then some val else lookup old entries)
  unfolding insert lookup
  lookup-insert new old val [] = refl
  lookup-insert new old val ((key, w) ∷ rest) = ground (
    arith,
    e.same_iff new old,
    e.same_iff key new,
    e.same_iff key old,
    lookup-insert new old val rest,
  )

  pub lookup-insert_self : (k : K) (v : V) (m : List (K × V)) → lookup k (insert k v m) ≡ some v
  lookup-insert_self k v m = simp (lookup-insert, ==_self)

  pub lookup_or-insert_self :
      (d : V) (k : K) (v : V) (m : List (K × V)) → lookup_or d k (insert k v m) ≡ v
  unfolding lookup_or
  lookup_or-insert_self d k v m = rw (lookup-insert_self k v m, lookup_or) refl

  -- Go's `delete`.
  unfoldable pub remove_key : K → List (K × V) → List (K × V)
  remove_key k [] = []
  remove_key k ((j, w) ∷ m) = let rest = remove_key k m in if j == k then rest else (j, w) ∷ rest

  pub lookup_or-insert :
      (d : V) (k j : K) (v : V) (m : List (K × V))
      → lookup_or d j (insert k v m) ≡ (if k == j then v else lookup_or d j m)
  unfolding lookup_or
  lookup_or-insert d k j v m =
      rw (lookup-insert k j v m, lookup_or) (ground (arith, e.same_iff k j))

  pub lookup-remove_key :
      (k j : K) (m : List (K × V))
      → lookup j (remove_key k m) ≡ (if k == j then none else lookup j m)
  unfolding lookup remove_key
  lookup-remove_key k j [] = ground arith
  lookup-remove_key k j ((i, w) ∷ m) =
      ground (arith, e.same_iff k j, e.same_iff i k, e.same_iff i j, lookup-remove_key k j m)

  pub length-remove_key_le : (k : K) (m : List (K × V)) → length (remove_key k m) ≤ length m
  unfolding remove_key
  length-remove_key_le k [] = omega arith
  length-remove_key_le k ((i, w) ∷ m) = ground (arith, length-remove_key_le k m)

  pub length-remove_key_lt :
      (k : K) (m : List (K × V)) (v : V) → lookup k m ≡ some v → length (remove_key k m) < length m
  unfolding lookup remove_key
  length-remove_key_lt k [] v h = absurd (ground arith)
  length-remove_key_lt k ((i, w) ∷ m) v h =
      ground (arith, length-remove_key_le k m, length-remove_key_lt k m v)

  pub lookup_of_length_zero : (k : K) (m : List (K × V)) → length m ≡ 0 → lookup k m ≡ none
  unfolding lookup
  lookup_of_length_zero k [] h = refl
  lookup_of_length_zero k (x ∷ m) h = absurd (omega arith)

  -- Every value satisfies `P`.
  abbrev pub Values {μ} : (V → Type μ) → List (K × V) → Type μ
  Values P [] = Unit
  Values P ((k, v) ∷ m) = P v × Values P m

  pub insert-Values {μ} :
      (P : V → Type μ) (k : K) (v : V) (m : List (K × V))
      → P v
      → Values P m
      → Values P (insert k v m)
  unfolding insert
  insert-Values P k v [] p h = (p, h)
  insert-Values P k v ((j, w) ∷ m) p h = elim (Bool-cases (j == k)) [
    | inl e ↦ rw e (p, h.1)
    | inr e ↦ rw e (h.0, insert-Values P k v m p h.1)
  ]

  pub remove_key-Values {μ} :
      (P : V → Type μ) (k : K) (m : List (K × V)) → Values P m → Values P (remove_key k m)
  unfolding remove_key
  remove_key-Values P k [] h = h
  remove_key-Values P k ((j, w) ∷ m) h = elim (Bool-cases (j == k)) [
    | inl e ↦ rw e (remove_key-Values P k m h.1)
    | inr e ↦ rw e (h.0, remove_key-Values P k m h.1)
  ]

  pub lookup-Values {μ} :
      (P : V → Type μ) (k : K) (v : V) (m : List (K × V)) → Values P m → lookup k m ≡ some v → P v
  unfolding lookup
  lookup-Values P k v [] h e = absurd (ground arith)
  lookup-Values P k v ((j, w) ∷ m) h e = elim (Bool-cases (j == k)) [
    | inl f ↦ subst P (ground (arith, f, e)) h.0
    | inr f ↦ lookup-Values P k v m h.1 (ground (arith, f, e))
  ]
