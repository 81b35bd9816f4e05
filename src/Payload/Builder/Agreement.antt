-- ===== src/Payload/Builder/Agreement.antt =====
-- Two nodes with the same pools build the same block, in whatever order their maps are walked.
use mathlib.Core.HLevel.{hedberg}
use mathlib.Core.Logic.Or
use native.Mathlib.Nat.{ℕ_set}
use mathlib.Core.List.{mem-cons, not-mem-nil, Mem, Perm}
use mathlib.Core.List.Perm
use aequa_network.Base.{
  ℕ, ◌≡◌, refl, sym, ◌∙◌, ap, inl, inr, String, true, false, List, [], ◌∷◌, map, ◌==◌, string_eq,
  nat_eq, arith, Bool-cases, contains, Distinct, eq_iff, bytes_eq, ==_self,
}
use aequa_network.Sorting.{sort_by}
use aequa_network.Sorting.Laws.{Chain, sort_by-Chain, sort_by-perm, Chain-unique}
use aequa_network.Sorting.Members.{length-perm}
use aequa_network.Payload.Types.{Digest, Payload, hash_of}
use aequa_network.Payload.Builder.{bytes_less, comes_before, take_deterministic}

bytes_less_irrefl : (a : List ℕ) → bytes_less a a ≡ false
unfolding bytes_less
bytes_less_irrefl [] = refl
bytes_less_irrefl (x ∷ a) = ground (arith, bytes_less_irrefl a)

bytes_less_asymm : (a b : List ℕ) → bytes_less a b ≡ true → bytes_less b a ≡ false
unfolding bytes_less
bytes_less_asymm [] [] h = refl
bytes_less_asymm [] (y ∷ b) h = refl
bytes_less_asymm (x ∷ a) [] h = absurd (ground arith)
bytes_less_asymm (x ∷ a) (y ∷ b) h = ground (arith, bytes_less_asymm a b)

bytes_less_antisymm : (a b : List ℕ) → bytes_less a b ≡ false → bytes_less b a ≡ false → a ≡ b
unfolding bytes_less
bytes_less_antisymm [] [] h k = refl
bytes_less_antisymm [] (y ∷ b) h k = absurd (ground arith)
bytes_less_antisymm (x ∷ a) [] h k = absurd (ground arith)
bytes_less_antisymm (x ∷ a) (y ∷ b) h k = ground (arith, bytes_less_antisymm a b)

bytes_less_not_trans :
    (a b c : List ℕ) → bytes_less b a ≡ false → bytes_less c b ≡ false → bytes_less c a ≡ false
unfolding bytes_less
bytes_less_not_trans a b [] h k = by_first a b h k
  where
    by_first :
        (u v : List ℕ) → bytes_less v u ≡ false → bytes_less [] v ≡ false → bytes_less [] u ≡ false
    by_first [] v p q = refl
    by_first (x ∷ u) [] p q = absurd (ground arith)
    by_first (x ∷ u) (y ∷ v) p q = absurd (ground arith)
bytes_less_not_trans [] b (z ∷ c) h k = refl
bytes_less_not_trans (x ∷ a) [] (z ∷ c) h k = absurd (ground arith)
bytes_less_not_trans (x ∷ a) (y ∷ b) (z ∷ c) h k = ground (arith, bytes_less_not_trans a b c)

module _ ⦃d : Digest⦄ where
  before_irrefl : (p : Payload) → comes_before p p ≡ false
  unfolding comes_before
  before_irrefl p = ground (arith, bytes_less_irrefl (hash_of p))

  before_asymm : (p q : Payload) → comes_before p q ≡ true → comes_before q p ≡ false
  unfolding comes_before
  before_asymm p q h = ground (arith, bytes_less_asymm (hash_of p) (hash_of q))

  before_not_trans :
      (p q r : Payload)
      → comes_before q p ≡ false
      → comes_before r q ≡ false
      → comes_before r p ≡ false
  unfolding comes_before
  before_not_trans p q r h k =
      ground (arith, bytes_less_not_trans (hash_of p) (hash_of q) (hash_of r))

  before_antisymm :
      (p q : Payload) → comes_before p q ≡ false → comes_before q p ≡ false → hash_of p ≡ hash_of q
  unfolding comes_before
  before_antisymm p q h k = ground (arith, bytes_less_antisymm (hash_of p) (hash_of q))

  -- The hash tells the members of the list apart.
  abbrev pub DistinctHashes : List Payload → Type 0
  DistinctHashes l = (p q : Payload) → Mem p l → Mem q l → hash_of p ≡ hash_of q → p ≡ q

  sorted_agree :
      (l r : List Payload)
      → DistinctHashes l
      → Perm l r
      → sort_by comes_before l ≡ sort_by comes_before r
  sorted_agree l r distinct p =
      Chain-unique (λ a b. comes_before b a ≡ false) (λ a b. hlevel) before_not_trans
        (sort_by comes_before l) (sort_by comes_before r) before_irrefl
        (λ a b ma mb h k.
          distinct a b ((Perm.mem_iff (sort_by-perm comes_before l)).0 ma)
            ((Perm.mem_iff (sort_by-perm comes_before l)).0 mb) (before_antisymm a b k h))
        (chain l) (chain r)
        (Perm.trans (sort_by-perm comes_before l)
          (Perm.trans p (Perm.symm (sort_by-perm comes_before r))))
    where
      chain :
          (xs : List Payload) → Chain (λ a b. comes_before b a ≡ false) (sort_by comes_before xs)
      chain xs =
          sort_by-Chain comes_before (λ a b. comes_before b a ≡ false) before_asymm (λ a b h. h) xs

  -- `takeDeterministic` does not see the order of its candidates, if their hashes differ.
  pub take_deterministic_agree :
      (l r : List Payload) (need budget : ℕ)
      → DistinctHashes l
      → Perm l r
      → take_deterministic l need budget ≡ take_deterministic r need budget
  unfolding take_deterministic
  take_deterministic_agree l r need budget distinct p =
      rw (sorted_agree l r distinct p, length-perm p) refl

text_discrete : Discrete String
text_discrete a b = elim (Bool-cases (a == b)) [
  | inl e ↦ yes ((eq_iff a b).0 e)
  | inr e ↦ no λ q. ground (arith, eq_iff a b)
]

text_set : IsSet String
text_set = hedberg text_discrete

Payload-IsSet : IsSet Payload
Payload-IsSet = hlevel (text_set, ℕ_set)

module _ ⦃d : Digest⦄ where
  contains-hash :
      (q : Payload) (l : List Payload) → Mem q l → contains (map hash_of l) (hash_of q) ≡ true
  unfolding contains
  contains-hash q [] m = absurd (not-mem-nil m)
  contains-hash q (x ∷ l) m =
      Or.elim (hlevel) (mem-cons.0 m) (λ e. rw (e, ==_self (hash_of x)) refl)
        λ later. ground (arith, contains-hash q l later)

  -- That the hashes of a list differ is a test on them.
  pub distinct_hashes : (l : List Payload) → Distinct (map hash_of l) → DistinctHashes l
  distinct_hashes [] h p q mp mq e = absurd (not-mem-nil mp)
  distinct_hashes (x ∷ l) h p q mp mq e =
      Or.elim (Payload-IsSet p q) (mem-cons.0 mp)
        (λ px.
          Or.elim (Payload-IsSet p q) (mem-cons.0 mq) (λ qx. px ∙ sym qx)
            λ ql. absurd (clash q ql (ap hash_of (sym px) ∙ e)))
        (λ pl.
          Or.elim (Payload-IsSet p q) (mem-cons.0 mq)
            (λ qx. absurd (clash p pl (ap hash_of (sym qx) ∙ sym e)))
            λ ql. distinct_hashes l h.1 p q pl ql e)
    where
      clash : (r : Payload) → Mem r l → hash_of x ≡ hash_of r → ⊥
      clash r m q =
          let hit : contains (map hash_of l) (hash_of x) ≡ true = rw q (contains-hash r l m) in
          ground arith
