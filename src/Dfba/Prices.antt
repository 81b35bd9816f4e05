-- ===== src/Dfba/Prices.antt =====
-- The clearing price against the keys of the selected items.
use aequa_network.Base.{
  ℕ, zero, suc, ◌-◌, ◌≤◌, ◌≡◌, ◌≢◌, sym, ◌∙◌, ap, subst, String, true, List, [], ◌∷◌, string_eq,
  length, take, arith, contains, Distinct, All, length-take,
}
use aequa_network.Sorting.Laws.{Chain, length-sort_by}
use aequa_network.Dfba.{
  Item, Policy, bid_flow, user_flow, less_by_key_hash, sorted, of_type, pairs, solve,
  clearing_price, key_at,
}
use aequa_network.Dfba.Shape.{KeyGe, sorted-Chain}
use aequa_network.Dfba.Capacity.{pairs_le}
use aequa_network.Dfba.Matching.{selected_bids, selected_users}

module _ {A : Type 0} where
  key_at-le_head :
      (j : ℕ) (x : Item A) (l : List (Item A)) → Chain KeyGe (x ∷ l) → key_at (x ∷ l) j ≤ x.key
  unfolding key_at
  key_at-le_head zero x l c = omega arith
  key_at-le_head (suc j) x [] c = omega arith
  key_at-le_head (suc j) x (y ∷ l) c = omega (arith, c.0, key_at-le_head j y l c.1)

  -- In a list with non-increasing keys, a prefix has no key below that of its last item.
  prefix_keys :
      (j : ℕ) (l : List (Item A)) → Chain KeyGe l → All (λ it. key_at l j ≤ it.key) (take (suc j) l)
  unfolding key_at
  prefix_keys j [] c = tt
  prefix_keys zero (x ∷ l) c = (omega arith, tt)
  prefix_keys (suc j) (x ∷ l) c = (key_at-le_head (suc j) x l c, prefix_keys j l c.1)

  All-weaken :
      (m n : ℕ) (l : List (Item A)) → m ≤ n → All (λ it. n ≤ it.key) l → All (λ it. m ≤ it.key) l
  All-weaken m n [] h a = tt
  All-weaken m n (x ∷ l) h a = (omega (arith, a.0), All-weaken m n l h a.1)

  best_keys :
      (k m : ℕ) (l : List (Item A))
      → k ≢ 0
      → m ≤ key_at (sorted l) (k - 1)
      → All (λ it. m ≤ it.key) (take k (sorted l))
  best_keys zero m l k_pos h = ground arith
  best_keys (suc j) m l k_pos h =
      All-weaken m (key_at (sorted l) j) (take (suc j) (sorted l))
        (subst (λ i. m ≤ key_at (sorted l) i) (omega arith) h)
        (prefix_keys j (sorted l) (sorted-Chain l))

  module _ (items : List (Item A)) (pol : Policy) (distinct : Distinct pol.order) where
    price_le :
        (clearing_price items (pairs items pol)
          ≤ key_at (sorted (of_type bid_flow items)) (pairs items pol - 1))
        × (clearing_price items (pairs items pol)
            ≤ key_at (sorted (of_type user_flow items)) (pairs items pol - 1))
    unfolding clearing_price
    price_le = ground arith

    -- When pairs are matched and the order names both flows, each type once, the selected bids and
    -- the selected user payments are as many as the pairs each, and every one of them has at least
    -- the clearing price as its key.
    pub matched_flows :
        contains pol.order bid_flow ≡ true
        → contains pol.order user_flow ≡ true
        → pairs items pol ≢ 0
        → (length (of_type bid_flow (solve items pol)) ≡ pairs items pol)
          × (length (of_type user_flow (solve items pol)) ≡ pairs items pol)
          × All
              (λ it. clearing_price items (pairs items pol) ≤ it.key)
              (of_type bid_flow (solve items pol))
          × All
              (λ it. clearing_price items (pairs items pol) ≤ it.key)
              (of_type user_flow (solve items pol))
    matched_flows has_bids has_users k_pos =
        let bids = selected_bids items pol distinct has_bids k_pos in
        let users = selected_users items pol distinct has_users k_pos in
        let k = pairs items pol in
        (
          ap length bids ∙ enough bid_flow (pairs_le items pol).0,
          ap length users ∙ enough user_flow (pairs_le items pol).1,
          subst (All (λ it. clearing_price items k ≤ it.key)) (sym bids)
              (best_keys k (clearing_price items k) (of_type bid_flow items) k_pos price_le.0),
          subst (All (λ it. clearing_price items k ≤ it.key)) (sym users)
              (best_keys k (clearing_price items k) (of_type user_flow items) k_pos price_le.1),
        )
      where
        enough :
            (t : String)
            → pairs items pol ≤ length (of_type t items)
            → length (take (pairs items pol) (sorted (of_type t items))) ≡ pairs items pol
        enough t h = omega (
          arith,
          length-take (pairs items pol) (sorted (of_type t items)),
          length-sort_by less_by_key_hash (of_type t items),
        )
