-- ===== src/Payload/Processing.antt =====
-- internal/payload/builder.go: the check of a block. The messages of the errors are left out.
use aequa_network.Base.{
  ℕ, suc, String, Bool, false, List, [], ◌∷◌, Option, none, some, ltb, ◌==◌, if◌then◌else◌,
  string_eq, nat_eq, length, lookup, insert,
}
use aequa_network.Payload.Types.{Payload, type_of, sort_key}
use aequa_network.Payload.Builder.{BuilderPolicy, StandardBlock}

pub data ProposalError : Type 0 where
  unexpected_type key_not_non_increasing : String → ProposalError
  priority_violated : ProposalError

-- The priority map: a later position of a type replaces an earlier one.
unfoldable pub priorities : ℕ → List String → List (String × ℕ) → List (String × ℕ)
priorities i [] pri = pri
priorities i (t ∷ ts) pri = priorities (suc i) ts (insert t i pri)

-- `lastPri` is -1 at first.
abbrev pub pri_less : ℕ → Option ℕ → Bool
pri_less p none = false
pri_less p (some last) = ltb p last

abbrev pub pri_max : ℕ → Option ℕ → ℕ
pri_max p none = p
pri_max p (some last) = if ltb last p then p else last

abbrev pub key_above : Payload → Option ℕ → Bool
key_above it none = false
key_above it (some prev) = ltb prev (sort_key it)

unfoldable pub check_items :
    List (String × ℕ) → Option ℕ → List (String × ℕ) → List Payload → Option ProposalError
check_items pri last keys [] = none
check_items pri last keys (it ∷ its) =
    let t = type_of it in
    elim (lookup t pri) [
      | none ↦ some (unexpected_type t)
      | some p ↦
          if pri_less p last
          then some priority_violated
          else if key_above it (lookup t keys)
          then some (key_not_non_increasing t)
          else check_items pri (some (pri_max p last)) (insert t (sort_key it) keys) its
    ]

-- `ProcessProposal`: `none` is acceptance.
unfoldable pub process_proposal : StandardBlock → BuilderPolicy → Option ProposalError
unfolding check_items priorities
process_proposal b pol =
    if length pol.order == 0 then none else check_items (priorities 0 pol.order []) none [] b.items
