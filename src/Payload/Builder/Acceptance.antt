-- ===== src/Payload/Builder/Acceptance.antt =====
-- The blocks of `PrepareProposal` against `ProcessProposal` and the policy.
use mathlib.Core.List.{Mem, mem-cons_self, mem-cons_of_mem}
use aequa_network.Base.{
  ℕ, ◌+◌, ◌≤◌, ◌<◌, ◌≡◌, sym, subst, ◌⊎◌, inl, inr, String, true, false, List, [], ◌∷◌, none, some,
  string_eq, nat_eq, eq_iff, length, contains, arith, All, Bool-cases, Distinct, ==_self,
}
use aequa_network.Payload.Types.{Digest, Payload, type_of, sort_key}
use aequa_network.Payload.Container.{
  Container, ArrivalMeta, get_all, arrival, WellKeyed, get_all-type,
}
use aequa_network.Payload.Builder.{
  BuilderPolicy, BlockHeader, Env, max_of, window_of, window_dur, passes, filter_candidates,
  candidates, prepare_by_types, prepare_proposal_dfba, prepare_proposal,
}
use aequa_network.Payload.Processing.{process_proposal}
use aequa_network.Payload.Builder.Parts.{prepared, prepared_by_types}
use aequa_network.Payload.Builder.DualFlow.{dfba-Grouped, dfba-All}
use aequa_network.Payload.Builder.Grouped.{OfType, Grouped, Grouped-accepted}
use aequa_network.Payload.Builder.Selection.{
  select_types-Grouped, length-select_types, select_types-All,
}

All-imp {ℓ κ μ} :
    {A : Type ℓ} (P : A → Type κ) (Q : A → Type μ)
    → ((a : A) → P a → Q a)
    → (xs : List A) → All P xs
    → All Q xs
All-imp P Q f [] h = tt
All-imp P Q f (x ∷ xs) h = (f x h.0, All-imp P Q f xs h.1)

All-self {ℓ} : {A : Type ℓ} (xs : List A) → All (λ x. Mem x xs) xs
All-self [] = tt
All-self (x ∷ xs) = (
  mem-cons_self,
  All-imp (λ y. Mem y xs) (λ y. Mem y (x ∷ xs)) (λ y m. mem-cons_of_mem x m) xs (All-self xs),
)

max_of_pos : (n : ℕ) → 0 < max_of n
unfolding max_of
max_of_pos n = ground arith

window_of_pos : (w max : ℕ) → 0 < max → 0 < window_of w max
unfolding window_of
window_of_pos w max h = ground arith

-- A payload is stored in the pool of its type, not below the floor that the policy sets for its
-- type, and not older than the batch window, if there is one and its arrival is known.
pub record Admitted ⦃d : Digest⦄ (env : Env) (c : Container) (pol : BuilderPolicy) (p : Payload)
    : Type 0 where
  pub stored : Mem p (get_all env.map_order c (type_of p))
  pub bid_floor : type_of p ≡ "auction_bid_v1" → pol.min_bid ≤ sort_key p
  pub fee_floor : type_of p ≡ "plaintext_v1" → pol.min_fee ≤ sort_key p
  pub in_time :
      (meta : ArrivalMeta)
      → arrival c p ≡ some meta
      → 0 < window_dur pol
      → env.now ≤ meta.ts + window_dur pol

module _ ⦃d : Digest⦄ (env : Env) (c : Container) (hdr : BlockHeader) (pol : BuilderPolicy) where
  filter-All {κ} :
      (P : Payload → Type κ) (typ : String) (ps : List Payload)
      → All P ps
      → All (λ p. P p × (passes env c typ pol p ≡ true)) (filter_candidates env c typ pol ps)
  unfolding filter_candidates
  filter-All P typ [] h = tt
  filter-All P typ (p ∷ ps) h = elim (Bool-cases (passes env c typ pol p)) [
    | inl e ↦ rw e ((h.0, e), filter-All P typ ps h.1)
    | inr e ↦ rw e (filter-All P typ ps h.1)
  ]

  fee_of : (p : Payload) → passes env c "plaintext_v1" pol p ≡ true → pol.min_fee ≤ sort_key p
  unfolding passes
  fee_of p h = ground arith

  Admitted-of_passes :
      (p : Payload)
      → Mem p (get_all env.map_order c (type_of p))
      → passes env c (type_of p) pol p ≡ true
      → Admitted env c pol p
  unfolding passes
  Admitted-of_passes p m h = record {
    stored = m;
    bid_floor = λ e. ground (arith, eq_iff (type_of p) "auction_bid_v1");
    fee_floor = λ e. fee_of p (subst (λ t. passes env c t pol p ≡ true) e h);
    in_time = λ meta e w. ground arith;
  }

  -- Private payloads are not replaced by what they decrypt to.
  module _ (plain : (env.beast ≡ false) ⊎ (contains pol.order "private_v1" ≡ false))
      (keyed : WellKeyed c) where
    filtered-Admitted :
        (typ : String)
        → All
            (λ p. Admitted env c pol p × (type_of p ≡ typ))
            (filter_candidates env c typ pol (get_all env.map_order c typ))
    filtered-Admitted typ =
        All-imp _ _ (λ p ((m, ty), ok). (Admitted-of_passes p (rw ty m) (rw ty ok), ty))
          (filter_candidates env c typ pol (get_all env.map_order c typ))
          (filter-All (λ p. Mem p (get_all env.map_order c typ) × (type_of p ≡ typ)) typ
            (get_all env.map_order c typ)
            (both typ (get_all env.map_order c typ) (All-self (get_all env.map_order c typ))
              (get_all-type env.map_order c typ keyed)))
      where
        both :
            (t : String) (ps : List Payload)
            → All (λ p. Mem p (get_all env.map_order c t)) ps
            → OfType t ps
            → All (λ p. Mem p (get_all env.map_order c t) × (type_of p ≡ t)) ps
        both t [] h k = tt
        both t (p ∷ ps) h k = ((h.0, k.0), both t ps h.1 k.1)

    -- A type in the order is not replaced by decryption.
    same_candidates :
        (typ : String)
        → contains pol.order typ ≡ true
        → candidates env c hdr pol typ
          ≡ filter_candidates env c typ pol (get_all env.map_order c typ)
    unfolding candidates
    same_candidates typ h = ground (arith, eq_iff typ "private_v1")

    candidates-Admitted :
        (types : List String)
        → ((t : String) → contains types t ≡ true → contains pol.order t ≡ true)
        → All
            (λ t. All (λ p. Admitted env c pol p × (type_of p ≡ t)) (candidates env c hdr pol t))
            types
    unfolding contains
    candidates-Admitted [] sub = tt
    candidates-Admitted (t ∷ ts) sub = (
      rw (same_candidates t (sub t (ground (arith, ==_self t)))) (filtered-Admitted t),
      candidates-Admitted ts (λ u h. sub u (ground arith)),
    )

    every_candidate :
        All
          (λ t. All (λ p. Admitted env c pol p × (type_of p ≡ t)) (candidates env c hdr pol t))
          pol.order
    every_candidate = candidates-Admitted pol.order (λ t h. h)

    own_types : All (λ t. OfType t (candidates env c hdr pol t)) pol.order
    own_types =
        All-imp _ _ (λ t h. All-imp _ _ (λ p q. q.1) (candidates env c hdr pol t) h) pol.order
          every_candidate

    every-Admitted : All (λ t. All (Admitted env c pol) (candidates env c hdr pol t)) pol.order
    every-Admitted =
        All-imp _ _ (λ t h. All-imp _ _ (λ p q. q.0) (candidates env c hdr pol t) h) pol.order
          every_candidate

    by_types-Grouped : Grouped pol.order (prepare_by_types env c hdr pol).items
    unfolding prepare_by_types
    by_types-Grouped =
        let (sel, same, g) =
          select_types-Grouped (candidates env c hdr pol) (max_of pol.max_n)
            (window_of pol.window (max_of pol.max_n)) pol.order [] own_types in
        rw same g

    by_types-Admitted : All (Admitted env c pol) (prepare_by_types env c hdr pol).items
    unfolding prepare_by_types
    by_types-Admitted =
        select_types-All (candidates env c hdr pol) (max_of pol.max_n)
          (window_of pol.window (max_of pol.max_n)) (Admitted env c pol) pol.order [] every-Admitted
          tt

    -- With an order that names each type once and pools under their own types, and unless BEAST
    -- replaces private payloads, the block of `PrepareProposal` passes `ProcessProposal`, with the
    -- DFBA switch and without it.
    pub prepared_is_accepted :
        Distinct pol.order → process_proposal (prepare_proposal env c hdr pol) pol ≡ none
    prepared_is_accepted distinct =
        prepared env c hdr pol (λ b. process_proposal b pol ≡ none)
          (Grouped-accepted (prepare_proposal_dfba env c hdr pol) pol distinct
            (dfba-Grouped env c hdr pol own_types))
          (Grouped-accepted (prepare_by_types env c hdr pol) pol distinct by_types-Grouped)

    -- With pools under their own types, and unless BEAST replaces private payloads, every payload of
    -- the block is stored in the pool of its type, at or above the floor that the policy sets for its
    -- type, and not older than the batch window, with the DFBA switch and without it.
    pub prepared-Admitted : All (Admitted env c pol) (prepare_proposal env c hdr pol).items
    prepared-Admitted =
        prepared env c hdr pol (λ b. All (Admitted env c pol) b.items)
          (dfba-All env c hdr pol (Admitted env c pol) every-Admitted) by_types-Admitted

  -- Without the DFBA switch the block never exceeds `MaxN` payloads (1024 where the policy sets no
  -- limit), whatever the order, the pools, the BEAST switch and the decrypter are.
  pub prepared_within_max :
      pol.use_dfba ≡ false → length (prepare_proposal env c hdr pol).items ≤ max_of pol.max_n
  unfolding prepare_by_types
  prepared_within_max h =
      subst (λ b. length b.items ≤ max_of pol.max_n) (sym (prepared_by_types env c hdr pol h))
        (length-select_types (candidates env c hdr pol) (max_of pol.max_n)
          (window_of pol.window (max_of pol.max_n)) pol.order []
          (window_of_pos pol.window (max_of pol.max_n) (max_of_pos pol.max_n)) (omega arith))
