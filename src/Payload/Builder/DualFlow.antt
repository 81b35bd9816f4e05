-- ===== src/Payload/Builder/DualFlow.antt =====
-- The block of the DFBA path: the groups of the solver, as payloads.
use aequa_network.Base.{
  ◌≡◌, refl, ◌∙◌, ap, subst, String, List, [], ◌∷◌, ◌++◌, map, arith, All, All-append, string_eq,
}
use aequa_network.Dfba.{Item, solve}
use aequa_network.Dfba
use aequa_network.Dfba.Shape
use aequa_network.Dfba.Shape.{Groups, solve-Groups}
use aequa_network.Dfba.Members.{solve-All}
use aequa_network.Sorting.Laws.{Chain, Leads}
use aequa_network.Payload.Types.{Digest, Payload, type_of, sort_key}
use aequa_network.Payload.Container.{Container}
use aequa_network.Payload.Builder.{
  BuilderPolicy, BlockHeader, Env, candidates, as_item, dfba_items, dfba_policy,
  prepare_proposal_dfba,
}
use aequa_network.Payload.Builder.Grouped.{KeyGe, OfType, Grouped, none_left, group}

-- An item that carries the type and the key of its payload.
abbrev pub Labelled : Item Payload → Type 0
Labelled it = (type_of it.payload ≡ it.type) × (it.key ≡ sort_key it.payload)

abbrev payloads : List (Item Payload) → List Payload
payloads = map (λ it. it.payload)

All-append_left {κ} :
    (P : Item Payload → Type κ) (xs ys : List (Item Payload))
    → All P (xs ++ ys)
    → All P xs × All P ys
All-append_left P [] ys h = (tt, h)
All-append_left P (x ∷ xs) ys h = let (a, b) = All-append_left P xs ys h.1 in ((h.0, a), b)

map-append : (xs ys : List (Item Payload)) → payloads (xs ++ ys) ≡ payloads xs ++ payloads ys
map-append [] ys = refl
map-append (x ∷ xs) ys = ap (λ l. x.payload ∷ l) (map-append xs ys)

payloads-OfType :
    (t : String) (l : List (Item Payload))
    → Dfba.Shape.OfType t l
    → All Labelled l
    → OfType t (payloads l)
payloads-OfType t [] ty lab = tt
payloads-OfType t (it ∷ l) ty lab = (lab.0.0 ∙ ty.0, payloads-OfType t l ty.1 lab.1)

payloads-Leads :
    (it : Item Payload) (l : List (Item Payload))
    → Labelled it
    → All Labelled l
    → Leads Dfba.Shape.KeyGe it l
    → Leads KeyGe it.payload (payloads l)
payloads-Leads it [] h lab c = tt
payloads-Leads it (jt ∷ l) h lab c = omega (arith, h.1, lab.0.1)

payloads-Chain :
    (l : List (Item Payload)) → Chain Dfba.Shape.KeyGe l → All Labelled l → Chain KeyGe (payloads l)
payloads-Chain [] c lab = tt
payloads-Chain (it ∷ l) c lab = (payloads-Leads it l lab.0 lab.1 c.0, payloads-Chain l c.1 lab.1)

payloads-Grouped :
    {ts : List String} {l : List (Item Payload)}
    → Groups ts l
    → All Labelled l
    → Grouped ts (payloads l)
payloads-Grouped Groups.none_left lab = none_left
payloads-Grouped (Groups.group block rest e ty c g) lab =
    let (own, others) = All-append_left Labelled block rest (subst (All Labelled) e lab) in
    group (payloads block) (payloads rest) (ap payloads e ∙ map-append block rest)
      (payloads-OfType _ block ty own) (payloads-Chain block c own) (payloads-Grouped g others)

payloads-All {κ} :
    (P : Payload → Type κ) (l : List (Item Payload))
    → All (λ it. P it.payload) l
    → All P (payloads l)
payloads-All P [] h = tt
payloads-All P (it ∷ l) h = (h.0, payloads-All P l h.1)

module _ ⦃d : Digest⦄ where
  items-All {κ} :
      (P : Item Payload → Type κ) (t : String) (ps : List Payload)
      → All (λ p. P (as_item t p)) ps
      → All P (map (as_item t) ps)
  items-All P t [] h = tt
  items-All P t (p ∷ ps) h = (h.0, items-All P t ps h.1)

  dfba_items-All {κ} :
      (P : Item Payload → Type κ) (cands : String → List Payload) (types : List String)
      → All (λ t. All (λ p. P (as_item t p)) (cands t)) types
      → All P (dfba_items cands types)
  unfolding dfba_items
  dfba_items-All P cands [] h = tt
  dfba_items-All P cands (t ∷ ts) h =
      All-append P (map (as_item t) (cands t)) (dfba_items cands ts) (items-All P t (cands t) h.0)
        (dfba_items-All P cands ts h.1)

  labelled : (t : String) (ps : List Payload) → OfType t ps → All (λ p. Labelled (as_item t p)) ps
  labelled t [] h = tt
  labelled t (p ∷ ps) h = ((h.0, refl), labelled t ps h.1)

  candidates-Labelled :
      (cands : String → List Payload) (types : List String)
      → All (λ t. OfType t (cands t)) types
      → All (λ t. All (λ p. Labelled (as_item t p)) (cands t)) types
  candidates-Labelled cands [] h = tt
  candidates-Labelled cands (t ∷ ts) h =
      (labelled t (cands t) h.0, candidates-Labelled cands ts h.1)

  module _ (env : Env) (c : Container) (hdr : BlockHeader) (pol : BuilderPolicy) where
    pub dfba-Grouped :
        All (λ t. OfType t (candidates env c hdr pol t)) pol.order
        → Grouped pol.order (prepare_proposal_dfba env c hdr pol).items
    unfolding prepare_proposal_dfba
    dfba-Grouped h =
        let items = dfba_items (candidates env c hdr pol) pol.order in
        payloads-Grouped (solve-Groups items (dfba_policy pol)) (
          solve-All Labelled items
            (dfba_items-All Labelled (candidates env c hdr pol) pol.order
              (candidates-Labelled (candidates env c hdr pol) pol.order h))
            (dfba_policy pol))

    pub dfba-All {κ} :
        (P : Payload → Type κ)
        → All (λ t. All P (candidates env c hdr pol t)) pol.order
        → All P (prepare_proposal_dfba env c hdr pol).items
    unfolding prepare_proposal_dfba
    dfba-All P h =
        let items = dfba_items (candidates env c hdr pol) pol.order in
        payloads-All P (solve items (dfba_policy pol)) (
          solve-All (λ it. P it.payload) items
            (dfba_items-All (λ it. P it.payload) (candidates env c hdr pol) pol.order h)
            (dfba_policy pol))
