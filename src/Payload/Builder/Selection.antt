-- ===== src/Payload/Builder/Selection.antt =====
-- What `PrepareProposal` puts into a block: at most `MaxN` payloads, in groups by type, each of them
-- stored in the pool of its type, at or above the policy's floor and in time.
use mathlib.Core.List.{append-nil, append_assoc}
use aequa_network.Base.{
  ℕ, ◌-◌, ◌≤◌, ◌<◌, ◌≡◌, refl, sym, ◌∙◌, inl, inr, String, true, false, List, [], ◌∷◌, ◌++◌, ltb,
  ◌==◌, if◌then◌else◌, string_eq, nat_eq, length, arith, All, All-take, Bool-cases, length-append,
  length-take, All-append,
}
use aequa_network.Sorting.{sort_by}
use aequa_network.Sorting.Laws.{Chain, Chain-take, sort_by-Chain, sort_by-All, length-sort_by}
use aequa_network.Payload.Types.{Digest, Payload, type_of}
use aequa_network.Payload.Builder.{comes_before, take_deterministic, select_types}
use aequa_network.Payload.Builder.Grouped.{KeyGe, OfType, Grouped, none_left, group}

empty-Grouped : (ts : List String) → Grouped ts []
empty-Grouped [] = none_left
empty-Grouped (t ∷ ts) = group [] [] refl tt tt (empty-Grouped ts)

module _ ⦃d : Digest⦄ where
  KeyGe-of_before : (p q : Payload) → comes_before p q ≡ true → KeyGe p q
  unfolding comes_before
  KeyGe-of_before p q h = ground arith

  KeyGe-of_not_before : (p q : Payload) → comes_before q p ≡ false → KeyGe p q
  unfolding comes_before
  KeyGe-of_not_before p q h = ground arith

  pub take_deterministic-Chain :
      (cands : List Payload) (need budget : ℕ) → Chain KeyGe (take_deterministic cands need budget)
  unfolding take_deterministic
  take_deterministic-Chain cands need budget =
      Chain-take KeyGe _ (sort_by comes_before cands)
        (sort_by-Chain comes_before KeyGe KeyGe-of_before KeyGe-of_not_before cands)

  pub take_deterministic-All {κ} :
      (P : Payload → Type κ) (cands : List Payload) (need budget : ℕ)
      → All P cands
      → All P (take_deterministic cands need budget)
  unfolding take_deterministic
  take_deterministic-All P cands need budget h =
      All-take P _ (sort_by comes_before cands) (sort_by-All comes_before P cands h)

  pub length-take_deterministic :
      (cands : List Payload) (need budget : ℕ)
      → 0 < need
      → need ≤ budget
      → length (take_deterministic cands need budget) ≤ need
  unfolding take_deterministic
  length-take_deterministic cands need budget h k = ground (
    arith,
    length-take (length cands) (sort_by comes_before cands),
    length-take need (sort_by comes_before cands),
    length-take budget (sort_by comes_before cands),
    length-sort_by comes_before cands,
  )

  module _ (cands : String → List Payload) (max window : ℕ) where
    -- What the loop adds to `res`.
    pub select_types-Grouped :
        (types : List String) (res : List Payload)
        → All (λ t. OfType t (cands t)) types
        → (sel : List Payload) × (select_types cands max window types res ≡ res ++ sel)
          × Grouped types sel
    unfolding select_types
    select_types-Grouped [] res h = ([], sym (append-nil res), none_left)
    select_types-Grouped (t ∷ ts) res h = elim (Bool-cases (max - length res == 0)) [
      | inl e ↦ ([], rw e (sym (append-nil res)), empty-Grouped (t ∷ ts))
      | inr e ↦
          let remain = max - length res in
          let need = if ltb remain window then remain else window in
          let block = take_deterministic (cands t) need remain in
          let (sel, same, g) = select_types-Grouped ts (res ++ block) h.1 in
          (
            block ++ sel,
            rw e (same ∙ append_assoc res block sel),
            group block sel refl
                (take_deterministic-All (λ p. type_of p ≡ t) (cands t) need remain h.0)
                (take_deterministic-Chain (cands t) need remain) g,
          )
    ]

    pub length-select_types :
        (types : List String) (res : List Payload)
        → 0 < window
        → length res ≤ max
        → length (select_types cands max window types res) ≤ max
    unfolding select_types
    length-select_types [] res w h = h
    length-select_types (t ∷ ts) res w h = elim (Bool-cases (max - length res == 0)) [
      | inl e ↦ rw e h
      | inr e ↦
          let remain = max - length res in
          let need = if ltb remain window then remain else window in
          let block = take_deterministic (cands t) need remain in
          rw e (
            length-select_types ts (res ++ block) w (
              ground
                (arith, length-append res block, length-take_deterministic (cands t) need remain)))
    ]

    pub select_types-All {κ} :
        (P : Payload → Type κ) (types : List String) (res : List Payload)
        → All (λ t. All P (cands t)) types
        → All P res
        → All P (select_types cands max window types res)
    unfolding select_types
    select_types-All P [] res h r = r
    select_types-All P (t ∷ ts) res h r = elim (Bool-cases (max - length res == 0)) [
      | inl e ↦ rw e r
      | inr e ↦
          let remain = max - length res in
          let need = if ltb remain window then remain else window in
          let block = take_deterministic (cands t) need remain in
          rw e (
            select_types-All P ts (res ++ block) h.1
              (All-append P res block r (take_deterministic-All P (cands t) need remain h.0)))
    ]
