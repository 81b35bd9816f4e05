-- ===== src/Sorting/Laws.antt =====
-- A stable sort orders the list by its comparison, keeps its members, and forgets the order in
-- which they came if the comparison tells all members apart.
use mathlib.Core.Path.{ap₂}
use mathlib.Core.Logic.Or
use mathlib.Core.List.{Perm, Mem, mem-cons, mem-cons_self, mem-cons_of_mem, not-mem-nil}
use mathlib.Core.List.Perm
use aequa_network.Base.{
  ℕ, zero, suc, Bool, true, false, List, [], ◌∷◌, ◌≡◌, refl, inl, inr, take, arith, length, All,
  Bool-cases,
}
use aequa_network.Sorting.{insert_by, sort_by}

module _ {ℓ κ} {A : Type ℓ} (R : A → A → Type κ) where
  abbrev pub Leads : A → List A → Type κ
  Leads x [] = Unit
  Leads x (y ∷ ys) = R x y

  -- Neighbours are in relation.
  abbrev pub Chain : List A → Type κ
  Chain [] = Unit
  Chain (x ∷ xs) = Leads x xs × Chain xs

module _ {ℓ κ} {A : Type ℓ} (less : A → A → Bool) (R : A → A → Type κ) where
  module _ (of_less : (a b : A) → less a b ≡ true → R a b)
      (of_not_less : (a b : A) → less b a ≡ false → R a b) where
    insert_by-Leads :
        (y x : A) (ys : List A) → R y x → Leads R y ys → Leads R y (insert_by less x ys)
    unfolding insert_by
    insert_by-Leads y x [] r l = r
    insert_by-Leads y x (z ∷ zs) r l = elim (Bool-cases (less z x)) [
      | inl e ↦ rw e l
      | inr e ↦ rw e r
    ]

    insert_by-Chain : (x : A) (ys : List A) → Chain R ys → Chain R (insert_by less x ys)
    unfolding insert_by
    insert_by-Chain x [] c = (tt, tt)
    insert_by-Chain x (y ∷ ys) c = elim (Bool-cases (less y x)) [
      | inl e ↦ rw e (insert_by-Leads y x ys (of_less y x e) c.0, insert_by-Chain x ys c.1)
      | inr e ↦ rw e (of_not_less x y e, c)
    ]

    -- The sorted list is a chain for every relation that the comparison decides.
    pub sort_by-Chain : (xs : List A) → Chain R (sort_by less xs)
    unfolding sort_by
    sort_by-Chain [] = tt
    sort_by-Chain (x ∷ xs) = insert_by-Chain x (sort_by less xs) (sort_by-Chain xs)

module _ {ℓ} {A : Type ℓ} (less : A → A → Bool) where
  insert_by-perm : (x : A) (ys : List A) → Perm (insert_by less x ys) (x ∷ ys)
  unfolding insert_by
  insert_by-perm x [] = Perm.rfl
  insert_by-perm x (y ∷ ys) = elim (Bool-cases (less y x)) [
    | inl e ↦ rw e (Perm.trans (Perm.cons y (insert_by-perm x ys)) (Perm.swap x y ys))
    | inr e ↦ rw e Perm.rfl
  ]

  pub sort_by-perm : (xs : List A) → Perm (sort_by less xs) xs
  unfolding sort_by
  sort_by-perm [] = Perm.rfl
  sort_by-perm (x ∷ xs) =
      Perm.trans (insert_by-perm x (sort_by less xs)) (Perm.cons x (sort_by-perm xs))

  insert_by-All {κ} :
      (P : A → Type κ) (x : A) (ys : List A) → P x → All P ys → All P (insert_by less x ys)
  unfolding insert_by
  insert_by-All P x [] p h = (p, tt)
  insert_by-All P x (y ∷ ys) p h = elim (Bool-cases (less y x)) [
    | inl e ↦ rw e (h.0, insert_by-All P x ys p h.1)
    | inr e ↦ rw e (p, h)
  ]

  pub sort_by-All {κ} : (P : A → Type κ) (xs : List A) → All P xs → All P (sort_by less xs)
  unfolding sort_by
  sort_by-All P [] h = tt
  sort_by-All P (x ∷ xs) h = insert_by-All P x (sort_by less xs) h.0 (sort_by-All P xs h.1)

  length-insert_by : (x : A) (ys : List A) → length (insert_by less x ys) ≡ length (x ∷ ys)
  unfolding insert_by
  length-insert_by x [] = refl
  length-insert_by x (y ∷ ys) = ground (arith, length-insert_by x ys)

  pub length-sort_by : (xs : List A) → length (sort_by less xs) ≡ length xs
  unfolding sort_by
  length-sort_by [] = refl
  length-sort_by (x ∷ xs) = omega (arith, length-insert_by x (sort_by less xs), length-sort_by xs)

-- A transitive relation holds between the head of a chain and every later member.
module _ {ℓ} {A : Type ℓ} (R : A → A → Type 0) (prop : (a b : A) → IsProp (R a b))
    (trans : (a b c : A) → R a b → R b c → R a c) where
  chain_head : (x : A) (xs : List A) → Chain R (x ∷ xs) → (y : A) → Mem y xs → R x y
  chain_head x [] c y m = absurd (not-mem-nil m)
  chain_head x (z ∷ zs) c y m =
      Or.elim (prop x y) (mem-cons.0 m) (λ e. rw e c.0)
        λ later. chain_head x zs (skip zs c, c.1.1) y later
    where
      skip : (ws : List A) → Chain R (x ∷ z ∷ ws) → Leads R x ws
      skip [] d = tt
      skip (w ∷ ws) d = trans x z w d.0 d.1.0

  heads_le : (a b : A) (l r : List A) → R a a → Chain R (a ∷ l) → Perm (b ∷ r) (a ∷ l) → R a b
  heads_le a b l r self c p =
      Or.elim (prop a b) (mem-cons.0 ((Perm.mem_iff p).0 mem-cons_self)) (λ e. rw e self)
        (chain_head a l c b)

  -- Two chains with the same members are equal, if the relation is antisymmetric on these.
  pub Chain-unique :
      (l r : List A)
      → ((a : A) → R a a)
      → ((a b : A) → Mem a l → Mem b l → R a b → R b a → a ≡ b)
      → Chain R l
      → Chain R r
      → Perm l r
      → l ≡ r
  Chain-unique [] r self anti cl cr p = Perm.nil-eq p
  Chain-unique (a ∷ l) [] self anti cl cr p = Perm.eq-nil p
  Chain-unique (a ∷ l) (b ∷ r) self anti cl cr p =
      let member : Mem b (a ∷ l) = (Perm.mem_iff p).1 mem-cons_self in
      let heads =
        anti a b mem-cons_self member (heads_le a b l r (self a) cl (Perm.symm p))
          (heads_le b a r l (self b) cr p) in
      let tails = Perm.cons_inv (Perm.trans p (Perm.symm (Perm.cons' heads Perm.rfl))) in
      ap₂ ◌∷◌ heads (
        Chain-unique l r self (λ x y mx my. anti x y (mem-cons_of_mem a mx) (mem-cons_of_mem a my))
          cl.1 cr.1 tails)

module _ {ℓ κ} {A : Type ℓ} (R : A → A → Type κ) where
  Leads-take : (x : A) (n : ℕ) (xs : List A) → Leads R x xs → Leads R x (take n xs)
  Leads-take x zero xs l = tt
  Leads-take x (suc n) [] l = tt
  Leads-take x (suc n) (y ∷ ys) l = l

  pub Chain-take : (n : ℕ) (xs : List A) → Chain R xs → Chain R (take n xs)
  Chain-take zero xs c = tt
  Chain-take (suc n) [] c = tt
  Chain-take (suc n) (x ∷ xs) c = (Leads-take x n xs c.0, Chain-take n xs c.1)
