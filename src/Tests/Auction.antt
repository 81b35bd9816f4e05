-- ===== src/Tests/Auction.antt =====
-- Runs of internal/dfba.
use aequa_network.Base.{
  ℕ, ◌+◌, ◌*◌, ◌≡◌, ◌≢◌, ◌≤◌, refl, String, List, [], ◌∷◌, min, arith, string_eq, nat_eq, length,
  contains, All,
}
use aequa_network.Sorting.{sort_by}
use aequa_network.Dfba.{
  Item, Policy, bid_flow, user_flow, max_of, window_of, of_type, pairs, solve, clearing_price,
  less_by_key_hash,
}
use aequa_network.Dfba.Shape.{Groups, solve-Groups}
use aequa_network.Dfba.Capacity.{solve_within_max, length-solve_other_first}
use aequa_network.Dfba.Prices.{matched_flows}

abbrev item : String → ℕ → Item ℕ
item t k = record { payload = k; type = t; key = k; hash = k ∷ [] }

abbrev offers : List (Item ℕ)
offers =
    item bid_flow 5
    ∷ item user_flow 4
    ∷ item "private_v1" 0
    ∷ item bid_flow 9
    ∷ item user_flow 7
    ∷ item bid_flow 6
    ∷ item "private_v1" 1
    ∷ item "private_v1" 2
    ∷ item "private_v1" 3
    ∷ []

abbrev flows : Policy
flows = record {
  order = bid_flow ∷ user_flow ∷ [];
  max_n = 4;
  min_bid = 0;
  min_fee = 0;
  window = 0;
  batch_ticks = 0;
}

abbrev private_first : Policy
private_first = record flows { order = "private_v1" ∷ bid_flow ∷ user_flow ∷ [] }

two_pairs : pairs offers flows ≢ 0
unfolding pairs
two_pairs e = ground arith

two_pairs_late : pairs offers private_first ≢ 0
unfolding pairs
two_pairs_late e = ground arith

offers_selected : length (solve offers flows) ≡ 4
unfolding solve sort_by of_type less_by_key_hash
offers_selected = refl

-- Four private items and two pairs, against a limit of four.
limit_exceeded : length (solve offers private_first) ≡ 8
unfolding solve sort_by of_type less_by_key_hash
limit_exceeded = refl

price_of_offers : clearing_price offers 2 ≡ 4
unfolding clearing_price sort_by of_type less_by_key_hash
price_of_offers = refl

solve-Groups_example : Groups flows.order (solve offers flows)
solve-Groups_example = solve-Groups offers flows

solve_within_max_example : length (solve offers flows) ≤ max_of flows.max_n
unfolding contains
solve_within_max_example = solve_within_max offers flows [] refl refl refl

length-solve_other_first_example :
    length (solve offers private_first)
    ≡ min
        (window_of private_first.window (max_of private_first.max_n))
        (min (max_of private_first.max_n) (length (of_type "private_v1" offers)))
      + 2 * pairs offers private_first
length-solve_other_first_example =
    length-solve_other_first offers private_first "private_v1" refl refl refl two_pairs_late

matched_flows_example :
    (length (of_type bid_flow (solve offers flows)) ≡ pairs offers flows)
    × (length (of_type user_flow (solve offers flows)) ≡ pairs offers flows)
    × All
        (λ it. clearing_price offers (pairs offers flows) ≤ it.key)
        (of_type bid_flow (solve offers flows))
    × All
        (λ it. clearing_price offers (pairs offers flows) ≤ it.key)
        (of_type user_flow (solve offers flows))
unfolding contains
matched_flows_example = matched_flows offers flows (refl, (refl, tt)) refl refl two_pairs
