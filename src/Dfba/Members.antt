-- ===== src/Dfba/Members.antt =====
-- Every selected item comes from the input: what holds of all the input holds of the selection.
use aequa_network.Base.{
  ℕ, ◌-◌, inl, inr, String, List, [], ◌∷◌, ◌++◌, ◌==◌, string_eq, nat_eq, length, take, arith, All,
  All-take, All-append, Bool-cases,
}
use aequa_network.Sorting.Laws.{sort_by-All}
use aequa_network.Dfba.{
  Item, Policy, bid_flow, user_flow, max_of, window_of, less_by_key_hash, sorted, of_type,
  take_window, per_type_loop, select_per_type, flow_part, flow_loop, pairs, solve,
}
use aequa_network.Dfba.Shape.{of_type-All, solve_unmatched, solve_matched}

module _ {κ} {A : Type 0} (P : Item A → Type κ) (items : List (Item A)) (every : All P items) where
  prefix-All : (n : ℕ) (t : String) → All P (take n (sorted (of_type t items)))
  prefix-All n t =
      All-take P n (sorted (of_type t items))
        (sort_by-All less_by_key_hash P (of_type t items) (of_type-All P t items every))

  module _ (max window : ℕ) where
    per_type_loop-All :
        (types : List String) (have : List (Item A))
        → All P have
        → All P (per_type_loop items max window types have)
    unfolding per_type_loop
    per_type_loop-All [] have h = h
    per_type_loop-All (t ∷ ts) have h = elim (Bool-cases (max - length have == 0)) [
      | inl e ↦ rw e h
      | inr e ↦
          let block = take_window (of_type t items) window (max - length have) in
          rw e (
            per_type_loop-All ts (have ++ block)
              (All-append P have block h (unfold take_window in prefix-All _ t)))
    ]

    part-All : (k : ℕ) (t : String) (n : ℕ) → All P (flow_part items max window k t n)
    unfolding flow_part
    part-All k t n = elim (Bool-cases (t == bid_flow)) [
      | inl e ↦ rw e (prefix-All k bid_flow)
      | inr e ↦ rw e (elim (Bool-cases (t == user_flow)) [
        | inl f ↦ rw f (prefix-All k user_flow)
        | inr f ↦ rw f (prefix-All _ t)
      ])
    ]

    flow_loop-All :
        (k : ℕ) (types : List String) (have : List (Item A))
        → All P have
        → All P (flow_loop items max window k types have)
    unfolding flow_loop
    flow_loop-All k [] have h = h
    flow_loop-All k (t ∷ ts) have h =
        let block = flow_part items max window k t (length have) in
        flow_loop-All k ts (have ++ block) (All-append P have block h (part-All k t (length have)))

  pub solve-All : (pol : Policy) → All P (solve items pol)
  unfolding select_per_type
  solve-All pol =
      let max = max_of pol.max_n in
      let window = window_of pol.window max in
      elim (Bool-cases (pairs items pol == 0)) [
        | inl e ↦
            rw (solve_unmatched items pol (ground arith))
              (per_type_loop-All max window pol.order [] tt)
        | inr e ↦
            rw (solve_matched items pol (ground arith))
              (flow_loop-All max window (pairs items pol) pol.order [] tt)
      ]
