-- ===== src/Payload/Builder/Grouped.antt =====
-- The shape of a block: one group for each type, in the order of the policy, and the sort keys not
-- increasing within a group. `ProcessProposal` accepts every block of this shape.
use aequa_network.Base.{
  ℕ, suc, ◌≤◌, ◌≡◌, refl, ◌∙◌, subst, ◌⊎◌, inl, inr, String, false, List, [], ◌∷◌, ◌++◌, Option,
  none, some, ltb, ◌==◌, string_eq, eq_iff, length, lookup, insert, lookup-insert, arith, All,
  Distinct, contains, Bool-cases, nat_beq,
}
use aequa_network.Sorting.Laws.{Chain, Leads}
use aequa_network.Payload.Types.{Payload, type_of, sort_key}
use aequa_network.Payload.Builder.{StandardBlock, BuilderPolicy}
use aequa_network.Payload.Processing.{
  priorities, pri_less, key_above, check_items, process_proposal,
}

abbrev pub KeyGe : Payload → Payload → Type 0
KeyGe p q = sort_key q ≤ sort_key p

abbrev pub OfType : String → List Payload → Type 0
OfType t = All (λ p. type_of p ≡ t)

pub data Grouped : List String → List Payload → Type 0 where
  none_left : Grouped [] []
  group :
      {t : String} {ts : List String} {items : List Payload} (block rest : List Payload)
      → items ≡ block ++ rest
      → OfType t block
      → Chain KeyGe block
      → Grouped ts rest
      → Grouped (t ∷ ts) items

-- The position of each type of the list in the priority map, counted from `i`.
abbrev Indexed : List (String × ℕ) → ℕ → List String → Type 0
Indexed pri i [] = Unit {0}
Indexed pri i (t ∷ ts) = (lookup t pri ≡ some i) × Indexed pri (suc i) ts

priorities_other :
    (i : ℕ) (ts : List String) (pri : List (String × ℕ)) (u : String)
    → contains ts u ≡ false
    → lookup u (priorities i ts pri) ≡ lookup u pri
unfolding priorities contains
priorities_other i [] pri u h = refl
priorities_other i (t ∷ ts) pri u h =
    priorities_other (suc i) ts (insert t i pri) u (ground arith)
    ∙ lookup-insert t u i pri
    ∙ ground arith

priorities-Indexed :
    (i : ℕ) (ts : List String) (pri : List (String × ℕ))
    → Distinct ts
    → Indexed (priorities i ts pri) i ts
unfolding priorities
priorities-Indexed i [] pri h = tt
priorities-Indexed i (t ∷ ts) pri h = (
  priorities_other (suc i) ts (insert t i pri) t h.0
      ∙ lookup-insert t t i pri
      ∙ ground (arith, eq_iff t t),
  priorities-Indexed (suc i) ts (insert t i pri) h.1,
)

abbrev HeadFits : List (String × ℕ) → String → List Payload → Type 0
HeadFits keys t [] = Unit {0}
HeadFits keys t (it ∷ its) = key_above it (lookup t keys) ≡ false

-- Where the check stands after a group.
abbrev Passed :
    List (String × ℕ)
    → ℕ
    → String
    → Option ℕ
    → List (String × ℕ)
    → List Payload
    → List Payload
    → Type 0
Passed pri i t last keys items rest =
    (last' : Option ℕ) × (keys' : List (String × ℕ)) × (check_items pri last keys items
      ≡ check_items pri last' keys' rest)
    × ((last' ≡ last) ⊎ (last' ≡ some i))
    × ((u : String) → (t == u) ≡ false → lookup u keys' ≡ lookup u keys)

check_own :
    (pri : List (String × ℕ)) (i : ℕ) (last : Option ℕ) (keys : List (String × ℕ)) (it : Payload)
    (its : List Payload)
    → lookup (type_of it) pri ≡ some i
    → pri_less i last ≡ false
    → key_above it (lookup (type_of it) keys) ≡ false
    → check_items pri last keys (it ∷ its)
      ≡ check_items pri (some i) (insert (type_of it) (sort_key it) keys) its
unfolding check_items
check_own pri i none keys it its at_it l k = rw (at_it, check_items) (rw k refl)
check_own pri i (some p) keys it its at_it l k =
    rw (at_it, check_items)
      (rw (l, k)
        (elim (Bool-cases (ltb p i)) [
          | inl e ↦ rw e refl
          | inr e ↦ let q : p ≡ i = ground arith in rw (e, q) refl
        ]))

module _ (pri : List (String × ℕ)) (i : ℕ) (t : String) (at_i : lookup t pri ≡ some i) where
  next_fits :
      (it : Payload) (its : List Payload) (keys : List (String × ℕ))
      → Leads KeyGe it its
      → HeadFits (insert t (sort_key it) keys) t its
  next_fits it [] keys h = tt
  next_fits it (jt ∷ its) keys h = ground (arith, lookup-insert t t (sort_key it) keys, eq_iff t t)

  check_group :
      (block rest : List Payload) (last : Option ℕ) (keys : List (String × ℕ))
      → OfType t block
      → Chain KeyGe block
      → pri_less i last ≡ false
      → HeadFits keys t block
      → Passed pri i t last keys (block ++ rest) rest
  check_group [] rest last keys ty c l h = (last, keys, refl, inl refl, λ u ne. refl)
  check_group (it ∷ its) rest last keys ty c l h =
      let (last', keys', same, le, others) =
        check_group its rest (some i) (insert t (sort_key it) keys) ty.1 c.1 (ground arith)
          (next_fits it its keys c.0) in
      (
        last',
        keys',
        subst
              (λ u.
                key_above it (lookup u keys) ≡ false
                → lookup u pri ≡ some i
                → check_items pri last keys (it ∷ its ++ rest)
                  ≡ check_items pri (some i) (insert u (sort_key it) keys) (its ++ rest))
              ty.0 (λ k q. check_own pri i last keys it (its ++ rest) q l k) h at_i
            ∙ same,
        inr (ground arith),
        λ u ne. others u ne ∙ lookup-insert t u (sort_key it) keys ∙ rw ne,
      )

abbrev Unseen : List (String × ℕ) → List String → Type 0
Unseen keys = All (λ t. lookup t keys ≡ none)

head_unseen :
    (keys : List (String × ℕ)) (t : String) (block : List Payload)
    → lookup t keys ≡ none
    → HeadFits keys t block
head_unseen keys t [] h = tt
head_unseen keys t (it ∷ its) h = rw h

later-Unseen :
    (keys keys' : List (String × ℕ)) (t : String) (ts : List String)
    → ((u : String) → (t == u) ≡ false → lookup u keys' ≡ lookup u keys)
    → contains ts t ≡ false
    → Unseen keys ts
    → Unseen keys' ts
unfolding contains
later-Unseen keys keys' t [] same d h = tt
later-Unseen keys keys' t (u ∷ ts) same d h = (
  same u (ground (arith, eq_iff t u, eq_iff u t)) ∙ h.0,
  later-Unseen keys keys' t ts same (ground arith) h.1,
)

check_groups :
    (pri : List (String × ℕ)) (i : ℕ) {ts : List String} {items : List Payload} (last : Option ℕ)
    (keys : List (String × ℕ))
    → Grouped ts items
    → Indexed pri i ts
    → Distinct ts
    → Unseen keys ts
    → pri_less i last ≡ false
    → check_items pri last keys items ≡ none
unfolding check_items
check_groups pri i last keys none_left ix d u l = refl
check_groups pri i {ts = t ∷ ts} last keys (group block rest e ty c g) ix d u l =
    let (last', keys', same, le, others) =
      check_group pri i t ix.0 block rest last keys ty c l (head_unseen keys t block u.0) in
    rw e (
      same
      ∙ check_groups pri (suc i) last' keys' g ix.1 d.1
          (later-Unseen keys keys' t ts others d.0 u.1) (later last' le))
  where
    later : (last' : Option ℕ) → (last' ≡ last) ⊎ (last' ≡ some i) → pri_less (suc i) last' ≡ false
    later last' (inl q) = ground arith
    later last' (inr q) = ground arith

Unseen-nil : (ts : List String) → Unseen [] ts
unfolding lookup
Unseen-nil [] = tt
Unseen-nil (t ∷ ts) = (refl, Unseen-nil ts)

-- A block in groups by the policy's order, which names each type once, passes `ProcessProposal`.
pub Grouped-accepted :
    (b : StandardBlock) (pol : BuilderPolicy)
    → Distinct pol.order
    → Grouped pol.order b.items
    → process_proposal b pol ≡ none
unfolding process_proposal
Grouped-accepted b pol d g = elim (Bool-cases (nat_beq (length pol.order) 0)) [
  | inl e ↦ rw e refl
  | inr e ↦ rw e (
      check_groups (priorities 0 pol.order []) 0 none [] g (priorities-Indexed 0 pol.order [] d) d
        (Unseen-nil pol.order) refl)
]
