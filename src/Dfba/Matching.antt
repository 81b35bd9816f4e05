-- ===== src/Dfba/Matching.antt =====
-- Which items the dual-flow case selects: equally many bids and user payments, the best of each.
use mathlib.Core.List.{append-nil}
use aequa_network.Base.{
  ℕ, ◌≡◌, ◌≢◌, refl, ◌∙◌, ap, subst, inl, inr, String, true, false, List, [], ◌∷◌, ◌++◌, ◌==◌,
  string_eq, nat_eq, eq_iff, length, take, arith, contains, Distinct, Bool-cases,
}
use aequa_network.Dfba.{
  Item, Policy, bid_flow, user_flow, max_of, window_of, sorted, of_type, flow_part, flow_loop,
  pairs, solve,
}
use aequa_network.Dfba.Shape.{OfType, part-OfType, solve_matched}

module _ {A : Type 0} where
  of_type-append :
      (t : String) (l r : List (Item A)) → of_type t (l ++ r) ≡ of_type t l ++ of_type t r
  unfolding of_type
  of_type-append t [] r = refl
  of_type-append t (it ∷ l) r = ground (arith, of_type-append t l r)

  -- A list of one type is all of that type, and has none of another.
  of_type-own : (t : String) (l : List (Item A)) → OfType t l → of_type t l ≡ l
  unfolding of_type
  of_type-own t [] h = refl
  of_type-own t (it ∷ l) h = ground (arith, eq_iff it.type t, of_type-own t l h.1)

  of_type-other :
      (t u : String) (l : List (Item A)) → OfType u l → (u == t) ≡ false → of_type t l ≡ []
  unfolding of_type
  of_type-other t u [] h ne = refl
  of_type-other t u (it ∷ l) h ne = ground (arith, eq_iff it.type u, of_type-other t u l h.1 ne)

  module _ (items : List (Item A)) (max window k : ℕ) (t : String) where
    -- A type that the order does not name adds nothing of that type.
    flow_loop-unnamed :
        (types : List String) (have : List (Item A))
        → contains types t ≡ false
        → of_type t (flow_loop items max window k types have) ≡ of_type t have
    unfolding flow_loop contains
    flow_loop-unnamed [] have h = refl
    flow_loop-unnamed (u ∷ us) have h =
        let block = flow_part items max window k u (length have) in
        flow_loop-unnamed us (have ++ block) (ground arith)
        ∙ of_type-append t have block
        ∙ ap (λ l. of_type t have ++ l)
            (of_type-other t u block (part-OfType items max window k u (length have))
              (ground arith))
        ∙ append-nil (of_type t have)

    -- The part of a flow does not depend on what is selected before it.
    module _ (part : List (Item A))
        (fixed : (n : ℕ) → flow_part items max window k t n ≡ part) where
      flow_loop-named :
          (types : List String) (have : List (Item A))
          → Distinct types
          → contains types t ≡ true
          → of_type t (flow_loop items max window k types have) ≡ of_type t have ++ part
      unfolding flow_loop contains
      flow_loop-named [] have d h = ground arith
      flow_loop-named (u ∷ us) have d h =
          let block = flow_part items max window k u (length have) in
          elim (Bool-cases (u == t)) [
            | inl e ↦
                flow_loop-unnamed us (have ++ block)
                  (subst (λ v. contains us v ≡ false) ((eq_iff u t).0 e) d.0)
                ∙ of_type-append t have block
                ∙ ap (λ l. of_type t have ++ l)
                    (of_type-own t block (
                        subst (λ v. OfType v block) ((eq_iff u t).0 e)
                          (part-OfType items max window k u (length have)))
                      ∙ ap (λ v. flow_part items max window k v (length have)) ((eq_iff u t).0 e)
                      ∙ fixed (length have))
            | inr e ↦
                flow_loop-named us (have ++ block) d.1 (ground arith)
                ∙ ap (λ l. l ++ part)
                    (of_type-append t have block
                      ∙ ap (λ l. of_type t have ++ l)
                          (of_type-other t u block (part-OfType items max window k u (length have))
                            e)
                      ∙ append-nil (of_type t have))
          ]

  module _ (items : List (Item A)) (pol : Policy) (distinct : Distinct pol.order) where
    matched_part :
        (t : String) (part : List (Item A))
        → ((n : ℕ)
            → flow_part items
                (max_of pol.max_n)
                (window_of pol.window (max_of pol.max_n))
                (pairs items pol)
                t
                n
              ≡ part)
        → contains pol.order t ≡ true
        → pairs items pol ≢ 0
        → of_type t (solve items pol) ≡ part
    unfolding of_type
    matched_part t part fixed named k_pos =
        ap (of_type t) (solve_matched items pol k_pos)
        ∙ flow_loop-named items (max_of pol.max_n) (window_of pol.window (max_of pol.max_n))
            (pairs items pol) t part fixed pol.order [] distinct named

    -- When pairs are matched and the order names each type once, the selected bids are the best
    -- ones, as many as there are pairs, best first.
    pub selected_bids :
        contains pol.order bid_flow ≡ true
        → pairs items pol ≢ 0
        → of_type bid_flow (solve items pol)
          ≡ take (pairs items pol) (sorted (of_type bid_flow items))
    unfolding flow_part
    selected_bids named k_pos =
        matched_part bid_flow (take (pairs items pol) (sorted (of_type bid_flow items))) (λ n. refl)
          named k_pos

    pub selected_users :
        contains pol.order user_flow ≡ true
        → pairs items pol ≢ 0
        → of_type user_flow (solve items pol)
          ≡ take (pairs items pol) (sorted (of_type user_flow items))
    unfolding flow_part
    selected_users named k_pos =
        matched_part user_flow (take (pairs items pol) (sorted (of_type user_flow items)))
          (λ n. refl) named k_pos
