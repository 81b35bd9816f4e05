-- ===== src/Dfba/Capacity.antt =====
-- How many items the solver selects against `MaxN`.
use aequa_network.Base.{
  ℕ, ◌+◌, ◌-◌, ◌*◌, ◌/◌, ◌≤◌, ◌≡◌, ◌≢◌, refl, sym, ◌∙◌, ap, subst, inl, inr, String, false, List,
  [], ◌∷◌, ◌++◌, ◌==◌, string_eq, nat_eq, length, min, arith, contains, length-append, length-take,
  Bool-cases,
}
use aequa_network.Sorting.Laws.{length-sort_by}
use aequa_network.Dfba.{
  Item, Policy, bid_flow, user_flow, max_of, window_of, less_by_key_hash, sorted, of_type,
  take_window, per_type_loop, select_per_type, flow_part, flow_loop, pairs, solve,
}
use aequa_network.Dfba.Shape.{match_count_le, solve_unmatched, solve_matched}

module _ {A : Type 0} where
  length-take_window :
      (l : List (Item A)) (window room : ℕ)
      → length (take_window l window room) ≡ min window (min room (length l))
  unfolding take_window
  length-take_window l window room = omega (
    arith,
    length-take (min window (min room (length l))) (sorted l),
    length-sort_by less_by_key_hash l,
  )

  module _ (items : List (Item A)) (max window : ℕ) where
    length-per_type_loop :
        (types : List String) (have : List (Item A))
        → length have ≤ max
        → length (per_type_loop items max window types have) ≤ max
    unfolding per_type_loop
    length-per_type_loop [] have h = h
    length-per_type_loop (t ∷ ts) have h = elim (Bool-cases (max - length have == 0)) [
      | inl e ↦ rw e h
      | inr e ↦
          let block = take_window (of_type t items) window (max - length have) in
          rw e (
            length-per_type_loop ts (have ++ block) (
              omega (
                arith,
                length-append have block,
                length-take_window (of_type t items) window (max - length have),
              )))
    ]

    other_part :
        (k : ℕ) (t : String) (n : ℕ)
        → (t == bid_flow) ≡ false
        → (t == user_flow) ≡ false
        → flow_part items max window k t n ≡ take_window (of_type t items) window (max - n)
    unfolding flow_part
    other_part k t n h j = rw (h, j) refl

    -- Types beside the two flows fill up what room is left.
    length-other_types :
        (k : ℕ) (types : List String) (have : List (Item A))
        → contains types bid_flow ≡ false
        → contains types user_flow ≡ false
        → length have ≤ max
        → length (flow_loop items max window k types have) ≤ max
    unfolding flow_loop contains
    length-other_types k [] have b u h = h
    length-other_types k (t ∷ ts) have b u h =
        let block = take_window (of_type t items) window (max - length have) in
        rw (other_part k t (length have) (ground arith) (ground arith)) (
          length-other_types k ts (have ++ block) (ground arith) (ground arith) (
            omega (
              arith,
              length-append have block,
              length-take_window (of_type t items) window (max - length have),
            )))

    bid_part :
        (k n : ℕ)
        → length (flow_part items max window k bid_flow n) ≡ min k (length (of_type bid_flow items))
    unfolding flow_part
    bid_part k n = omega (
      arith,
      length-take k (sorted (of_type bid_flow items)),
      length-sort_by less_by_key_hash (of_type bid_flow items),
    )

    user_part :
        (k n : ℕ)
        → length (flow_part items max window k user_flow n)
          ≡ min k (length (of_type user_flow items))
    unfolding flow_part
    user_part k n = omega (
      arith,
      length-take k (sorted (of_type user_flow items)),
      length-sort_by less_by_key_hash (of_type user_flow items),
    )

    -- The pairs are at most half of the capacity each, so what follows them has room left.
    flows_first :
        (k : ℕ) (others : List String)
        → k ≤ max / 2
        → contains others bid_flow ≡ false
        → contains others user_flow ≡ false
        → length (flow_loop items max window k (bid_flow ∷ user_flow ∷ others) []) ≤ max
    unfolding flow_loop
    flows_first k others h b u =
        let bids = flow_part items max window k bid_flow 0 in
        let users = flow_part items max window k user_flow (length bids) in
        length-other_types k others (bids ++ users) b u
          (omega (arith, h, length-append bids users, bid_part k 0, user_part k (length bids)))

    three_parts :
        (k : ℕ) (t u v : String)
        → flow_loop items max window k (t ∷ u ∷ v ∷ []) []
          ≡ (flow_part items max window k t 0
              ++ flow_part items max window k u (length (flow_part items max window k t 0)))
            ++ flow_part items max window k v (
                length (
                  flow_part items max window k t 0
                  ++ flow_part items max window k u (length (flow_part items max window k t 0))))
    unfolding flow_loop
    three_parts k t u v = refl

    flows_second :
        (k : ℕ) (t : String)
        → k ≤ length (of_type bid_flow items)
        → k ≤ length (of_type user_flow items)
        → (t == bid_flow) ≡ false
        → (t == user_flow) ≡ false
        → length (flow_loop items max window k (t ∷ bid_flow ∷ user_flow ∷ []) [])
          ≡ min window (min max (length (of_type t items))) + 2 * k
    flows_second k t h j b u =
        let first = flow_part items max window k t 0 in
        let bids = flow_part items max window k bid_flow (length first) in
        let users = flow_part items max window k user_flow (length (first ++ bids)) in
        omega (
          arith,
          ap length (three_parts k t bid_flow user_flow),
          ap length (other_part k t 0 b u),
          length-append (first ++ bids) users,
          length-append first bids,
          length-take_window (of_type t items) window (max - 0),
          bid_part k (length first),
          user_part k (length (first ++ bids)),
        )

  module _ (items : List (Item A)) (pol : Policy) where
    pub pairs_le :
        (pairs items pol ≤ length (of_type bid_flow items))
        × (pairs items pol ≤ length (of_type user_flow items))
        × (pairs items pol ≤ max_of pol.max_n / 2)
    unfolding pairs
    pairs_le =
        let (b, u, _, m) =
          match_count_le (length (of_type bid_flow items)) (length (of_type user_flow items))
            (window_of pol.window (max_of pol.max_n)) (max_of pol.max_n) in
        (b, u, m)

    -- With the bids and the user payments first in the order, and no other place for them, the
    -- selection stays within `MaxN`.
    pub solve_within_max :
        (others : List String)
        → pol.order ≡ bid_flow ∷ user_flow ∷ others
        → contains others bid_flow ≡ false
        → contains others user_flow ≡ false
        → length (solve items pol) ≤ max_of pol.max_n
    unfolding select_per_type
    solve_within_max others e b u =
        let max = max_of pol.max_n in
        let window = window_of pol.window max in
        let k = pairs items pol in
        elim (Bool-cases (k == 0)) [
          | inl z ↦
              rw (solve_unmatched items pol (ground arith))
                (length-per_type_loop items max window pol.order [] (omega arith))
          | inr z ↦ rw (solve_matched items pol (ground arith)) (
              subst (λ o. length (flow_loop items max window k o []) ≤ max) (sym e)
                (flows_first items max window k others pairs_le.2 b u))
        ]

    -- With another type before the two flows the selection has a window of that type and all the
    -- matched pairs besides: up to twice `MaxN`, since the pairs are not held to the room left.
    pub length-solve_other_first :
        (t : String)
        → pol.order ≡ t ∷ bid_flow ∷ user_flow ∷ []
        → (t == bid_flow) ≡ false
        → (t == user_flow) ≡ false
        → pairs items pol ≢ 0
        → length (solve items pol)
          ≡ min
              (window_of pol.window (max_of pol.max_n))
              (min (max_of pol.max_n) (length (of_type t items)))
            + 2 * pairs items pol
    length-solve_other_first t e b u k_pos =
        let max = max_of pol.max_n in
        let window = window_of pol.window max in
        let k = pairs items pol in
        ap length (solve_matched items pol k_pos)
        ∙ subst
            (λ o.
              length (flow_loop items max window k o [])
              ≡ min window (min max (length (of_type t items))) + 2 * k)
            (sym e) (flows_second items max window k t pairs_le.0 pairs_le.1 b u)
