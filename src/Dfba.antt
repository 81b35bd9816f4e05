-- ===== src/Dfba.antt =====
-- internal/dfba/dfba.go: the dual-flow batch auction that selects matched bids and user payments.
-- Counters are left out; the gauge of the clearing price is `clearing_price`. An `int` limit is
-- only tested for being positive before it is used, so 0 stands for every value that is not.
pub mod Shape
pub mod Capacity
pub mod Matching
pub mod Prices
pub mod Members
use aequa_network.Base.{
  ℕ, zero, suc, ◌+◌, ◌-◌, ◌*◌, ◌/◌, ◌^◌, String, Bool, true, false, ◌&&◌, ◌||◌, not, List, [], ◌∷◌,
  ◌++◌, Option, none, some, ltb, ◌==◌, if◌then◌else◌, string_eq, nat_eq, length, take, min,
}
use aequa_network.Sorting.{sort_by}

pub record Item (A : Type 0) : Type 0 where
  pub payload : A
  pub type : String
  pub key : ℕ
  pub hash : List ℕ

-- `MinBid`, `MinFee` and `BatchTicks` are carried and not read by the solver.
pub record Policy : Type 0 where
  pub order : List String
  pub max_n : ℕ
  pub min_bid : ℕ
  pub min_fee : ℕ
  pub window : ℕ
  pub batch_ticks : ℕ

abbrev pub bid_flow : String
bid_flow = "auction_bid_v1"

abbrev pub user_flow : String
user_flow = "plaintext_v1"

-- The loop over two hashes of equal length.
unfoldable pub differ_less : List ℕ → List ℕ → Bool
differ_less (x ∷ xs) (y ∷ ys) = if x == y then differ_less xs ys else ltb x y
differ_less _ _ = false

unfoldable pub max_of : ℕ → ℕ
max_of n = if n == 0 then 1024 else n

unfoldable pub window_of : ℕ → ℕ → ℕ
window_of window max = if window == 0 || ltb max window then max else window

-- The number of pairs: both flows, the window and half of the capacity bound it.
unfoldable pub match_count : ℕ → ℕ → ℕ → ℕ → ℕ
match_count bids users window max =
    let k = if ltb users bids then users else bids in
    let k' = if ltb window k then window else k in if ltb (max / 2) k' then max / 2 else k'

-- The gauge is an int64, and is set only to a positive price.
unfoldable pub price_gauge : ℕ → Option ℕ
price_gauge cp = if ltb 0 cp then some (if ltb (2 ^ 63 - 1) cp then 2 ^ 63 - 1 else cp) else none

module _ {A : Type 0} where
  -- Key descending, then hash ascending.
  unfoldable pub less_by_key_hash : Item A → Item A → Bool
  unfolding differ_less
  less_by_key_hash a b =
      if not (a.key == b.key)
      then ltb b.key a.key
      else if length a.hash == length b.hash
      then differ_less a.hash b.hash
      else false

  abbrev pub sorted : List (Item A) → List (Item A)
  sorted = sort_by less_by_key_hash

  -- `byType[typ]`.
  unfoldable pub of_type : String → List (Item A) → List (Item A)
  of_type typ [] = []
  of_type typ (it ∷ its) = let rest = of_type typ its in if it.type == typ then it ∷ rest else rest

  -- `min(window, room, len(list))` of the sorted list.
  unfoldable pub take_window : List (Item A) → ℕ → ℕ → List (Item A)
  take_window list window room = take (min window (min room (length list))) (sorted list)

  -- The loop of `selectPerType`; `remain` is always `max - len(selected)`.
  unfoldable pub per_type_loop : List (Item A) → ℕ → ℕ → List String → List (Item A) → List (Item A)
  unfolding take_window of_type
  per_type_loop items max window [] selected = selected
  per_type_loop items max window (typ ∷ types) selected =
      let remain = max - length selected in
      let rest =
        per_type_loop items max window types
          (selected ++ take_window (of_type typ items) window remain) in
      if remain == 0 then selected else rest

  unfoldable pub select_per_type : List (Item A) → List String → ℕ → ℕ → List (Item A)
  unfolding per_type_loop
  select_per_type items order max window = per_type_loop items max window order []

  -- What one type of the order adds, in the dual-flow case.
  unfoldable pub flow_part : List (Item A) → ℕ → ℕ → ℕ → String → ℕ → List (Item A)
  unfolding take_window of_type
  flow_part items max window k typ have =
      if typ == bid_flow
      then take k (sorted (of_type bid_flow items))
      else if typ == user_flow
      then take k (sorted (of_type user_flow items))
      else take_window (of_type typ items) window (max - have)

  unfoldable pub flow_loop : List (Item A) → ℕ → ℕ → ℕ → List String → List (Item A) → List (Item A)
  unfolding flow_part
  flow_loop items max window k [] selected = selected
  flow_loop items max window k (typ ∷ types) selected =
      flow_loop items max window k types
        (selected ++ flow_part items max window k typ (length selected))

  -- The pairs that the solver matches; 0 sends it to the selection by types.
  unfoldable pub pairs : List (Item A) → Policy → ℕ
  unfolding match_count max_of window_of of_type
  pairs items pol =
      let max = max_of pol.max_n in
      match_count (length (of_type bid_flow items)) (length (of_type user_flow items))
        (window_of pol.window max) max

  -- `SolveDeterministic`. The three fallbacks are one: a flow is empty, or there is no room for a
  -- pair, exactly if the number of pairs is 0.
  unfoldable pub solve : List (Item A) → Policy → List (Item A)
  unfolding max_of window_of of_type match_count select_per_type flow_loop
  solve items pol =
      let max = max_of pol.max_n in
      let window = window_of pol.window max in
      let bids = length (of_type bid_flow items) in
      let users = length (of_type user_flow items) in
      let k = match_count bids users window max in
      if bids == 0 || users == 0
      then select_per_type items pol.order max window
      else if max / 2 == 0
      then select_per_type items pol.order max window
      else if k == 0
      then select_per_type items pol.order max window
      else flow_loop items max window k pol.order []

  key_at : List (Item A) → ℕ → ℕ
  key_at [] i = 0
  key_at (it ∷ its) zero = it.key
  key_at (it ∷ its) (suc i) = key_at its i

  -- `min(bid_k, user_k)` over the sorted flows.
  unfoldable pub clearing_price : List (Item A) → ℕ → ℕ
  unfolding key_at
  clearing_price items k =
      let b = key_at (sorted (of_type bid_flow items)) (k - 1) in
      let u = key_at (sorted (of_type user_flow items)) (k - 1) in if ltb u b then u else b
