-- ===== src/Dfba/Shape.antt =====
-- What the solver selects comes from its input, in groups by type and with non-increasing keys.
use mathlib.Core.List.{append-nil, append_assoc}
use aequa_network.Base.{
  ℕ, ◌-◌, ◌/◌, ◌≤◌, ◌<◌, ◌≡◌, ◌≢◌, refl, sym, ◌∙◌, ◌⊎◌, inl, inr, String, true, false, List, [],
  ◌∷◌, ◌++◌, ◌==◌, string_eq, nat_eq, eq_iff, length, take, arith, All, All-take, Bool-cases,
}
use aequa_network.Sorting.Laws.{Chain, Chain-take, sort_by-Chain, sort_by-All}
use aequa_network.Dfba.{
  Item, Policy, bid_flow, user_flow, max_of, window_of, less_by_key_hash, sorted, of_type,
  take_window, per_type_loop, select_per_type, match_count, flow_part, flow_loop, pairs, solve,
}

module _ {A : Type 0} where
  abbrev pub KeyGe : Item A → Item A → Type 0
  KeyGe a b = b.key ≤ a.key

  abbrev pub OfType : String → List (Item A) → Type 0
  OfType t = All (λ it. it.type ≡ t)

  -- One group for each type of the order.
  pub data Groups : List String → List (Item A) → Type 0 where
    none_left : Groups [] []
    group :
        {t : String} {ts : List String} {items : List (Item A)} (block rest : List (Item A))
        → items ≡ block ++ rest
        → OfType t block
        → Chain KeyGe block
        → Groups ts rest
        → Groups (t ∷ ts) items

  KeyGe-of_less : (a b : Item A) → less_by_key_hash a b ≡ true → KeyGe a b
  unfolding less_by_key_hash
  KeyGe-of_less a b h = ground arith

  KeyGe-of_not_less : (a b : Item A) → less_by_key_hash b a ≡ false → KeyGe a b
  unfolding less_by_key_hash
  KeyGe-of_not_less a b h = ground arith

  pub sorted-Chain : (l : List (Item A)) → Chain KeyGe (sorted l)
  sorted-Chain l = sort_by-Chain less_by_key_hash KeyGe KeyGe-of_less KeyGe-of_not_less l

  pub of_type-OfType : (t : String) (l : List (Item A)) → OfType t (of_type t l)
  unfolding of_type
  of_type-OfType t [] = tt
  of_type-OfType t (it ∷ l) = ground (arith, eq_iff it.type t, of_type-OfType t l)

  pub of_type-All {κ} :
      (P : Item A → Type κ) (t : String) (l : List (Item A)) → All P l → All P (of_type t l)
  unfolding of_type
  of_type-All P t [] h = tt
  of_type-All P t (it ∷ l) h = elim (Bool-cases (it.type == t)) [
    | inl e ↦ rw e (h.0, of_type-All P t l h.1)
    | inr e ↦ rw e (of_type-All P t l h.1)
  ]

  -- A prefix of a sorted group is a group with keys in order.
  prefix-OfType :
      (n : ℕ) (t : String) (l : List (Item A)) → OfType t (take n (sorted (of_type t l)))
  prefix-OfType n t l =
      All-take _ n (sorted (of_type t l))
        (sort_by-All less_by_key_hash (λ it. it.type ≡ t) (of_type t l) (of_type-OfType t l))

  prefix-Chain : (n : ℕ) (l : List (Item A)) → Chain KeyGe (take n (sorted l))
  prefix-Chain n l = Chain-take KeyGe n (sorted l) (sorted-Chain l)

  empty-Groups : (ts : List String) → Groups ts []
  empty-Groups [] = none_left
  empty-Groups (t ∷ ts) = group [] [] refl tt tt (empty-Groups ts)

  module _ (items : List (Item A)) (max window : ℕ) where
    per_type_loop-Groups :
        (types : List String) (have : List (Item A))
        → (sel : List (Item A)) × (per_type_loop items max window types have ≡ have ++ sel)
          × Groups types sel
    unfolding per_type_loop
    per_type_loop-Groups [] have = ([], sym (append-nil have), none_left)
    per_type_loop-Groups (t ∷ ts) have = elim (Bool-cases (max - length have == 0)) [
      | inl e ↦ ([], rw e (sym (append-nil have)), empty-Groups (t ∷ ts))
      | inr e ↦
          let block = take_window (of_type t items) window (max - length have) in
          let (sel, same, g) = per_type_loop-Groups ts (have ++ block) in
          (
            block ++ sel,
            rw e (same ∙ append_assoc have block sel),
            group block sel refl (unfold take_window in prefix-OfType _ t items)
                (unfold take_window in prefix-Chain _ (of_type t items)) g,
          )
    ]

    pub part-OfType : (k : ℕ) (t : String) (n : ℕ) → OfType t (flow_part items max window k t n)
    unfolding flow_part
    part-OfType k t n = elim (Bool-cases (t == bid_flow)) [
      | inl e ↦ rw (e, (eq_iff t bid_flow).0 e) (prefix-OfType k bid_flow items)
      | inr e ↦ rw e (elim (Bool-cases (t == user_flow)) [
        | inl f ↦ rw (f, (eq_iff t user_flow).0 f) (prefix-OfType k user_flow items)
        | inr f ↦ rw f (prefix-OfType _ t items)
      ])
    ]

    part-Chain : (k : ℕ) (t : String) (n : ℕ) → Chain KeyGe (flow_part items max window k t n)
    unfolding flow_part
    part-Chain k t n = elim (Bool-cases (t == bid_flow)) [
      | inl e ↦ rw e (prefix-Chain k (of_type bid_flow items))
      | inr e ↦ rw e (elim (Bool-cases (t == user_flow)) [
        | inl f ↦ rw f (prefix-Chain k (of_type user_flow items))
        | inr f ↦ rw f (prefix-Chain _ (of_type t items))
      ])
    ]

    flow_loop-Groups :
        (k : ℕ) (types : List String) (have : List (Item A))
        → (sel : List (Item A)) × (flow_loop items max window k types have ≡ have ++ sel)
          × Groups types sel
    unfolding flow_loop
    flow_loop-Groups k [] have = ([], sym (append-nil have), none_left)
    flow_loop-Groups k (t ∷ ts) have =
        let block = flow_part items max window k t (length have) in
        let (sel, same, g) = flow_loop-Groups k ts (have ++ block) in
        (
          block ++ sel,
          same ∙ append_assoc have block sel,
          group block sel refl (part-OfType k t (length have)) (part-Chain k t (length have)) g,
        )

-- A match is empty exactly if a flow is, or there is no room for a pair.
pub match_count_zero :
    (bids users window max : ℕ)
    → 0 < window
    → match_count bids users window max ≡ 0
    → (bids ≡ 0) ⊎ (users ≡ 0) ⊎ (max / 2 ≡ 0)
unfolding match_count
match_count_zero bids users window max w h = ground arith

pub match_count_le :
    (bids users window max : ℕ)
    → (match_count bids users window max ≤ bids)
      × (match_count bids users window max ≤ users)
      × (match_count bids users window max ≤ window)
      × (match_count bids users window max ≤ max / 2)
unfolding match_count
match_count_le bids users window max = ground arith

pub max_of_pos : (n : ℕ) → 0 < max_of n
unfolding max_of
max_of_pos n = ground arith

pub window_of_pos : (w max : ℕ) → 0 < max → 0 < window_of w max
unfolding window_of
window_of_pos w max h = ground arith

module _ {A : Type 0} (items : List (Item A)) (pol : Policy) where
  -- The solver falls back exactly when it matches no pair.
  pub solve_unmatched :
      pairs items pol ≡ 0
      → solve items pol
        ≡ select_per_type items pol.order
            (max_of pol.max_n)
            (window_of pol.window (max_of pol.max_n))
  unfolding pairs solve
  solve_unmatched h =
      let max = max_of pol.max_n in
      ground (
        arith,
        match_count_zero (length (of_type bid_flow items)) (length (of_type user_flow items))
            (window_of pol.window max) max (window_of_pos pol.window max (max_of_pos pol.max_n)) h,
      )

  pub solve_matched :
      pairs items pol ≢ 0
      → solve items pol
        ≡ flow_loop items
            (max_of pol.max_n)
            (window_of pol.window (max_of pol.max_n))
            (pairs items pol)
            pol.order
            []
  unfolding pairs solve
  solve_matched h =
      let max = max_of pol.max_n in
      ground (
        arith,
        match_count_le (length (of_type bid_flow items)) (length (of_type user_flow items))
            (window_of pol.window max) max,
      )

  -- Whatever the input, the selection is made of one group for each type of the order, in that
  -- order, and within a group the keys do not increase.
  pub solve-Groups : Groups pol.order (solve items pol)
  unfolding select_per_type
  solve-Groups =
      let max = max_of pol.max_n in
      let window = window_of pol.window max in
      elim (Bool-cases (pairs items pol == 0)) [
        | inl e ↦
            let (sel, same, g) = per_type_loop-Groups items max window pol.order [] in
            rw (solve_unmatched (ground arith)) (rw (select_per_type, same) g)
        | inr e ↦
            let (sel, same, g) = flow_loop-Groups items max window (pairs items pol) pol.order [] in
            rw (solve_matched (ground arith)) (rw same g)
      ]
