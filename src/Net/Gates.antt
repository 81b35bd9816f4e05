-- ===== src/Net/Gates.antt =====
-- internal/p2p/gating.go: which peers may connect. An int64 that the code only compares with a
-- positive number is a number with 0 for all that is not positive.
pub mod Admission
use aequa_network.Base.{
  ℕ, ◌-◌, String, Bool, true, false, ◌||◌, not, List, [], ◌∷◌, Option, none, some, ltb, leb, ◌==◌,
  if◌then◌else◌, string_eq, nat_eq, contains, add_key, lookup,
}

-- `AllowListGate`: the set of the peers that it admits.
abbrev pub AllowList : Type 0
AllowList = List String

pub new_allow_list : List String → AllowList
new_allow_list [] = []
new_allow_list (id ∷ ids) = add_key id (new_allow_list ids)

unfoldable pub add_peer : AllowList → String → AllowList
add_peer g id = add_key id g

unfoldable pub remove_peer : AllowList → String → AllowList
remove_peer [] id = []
remove_peer (x ∷ xs) id = let rest = remove_peer xs id in if x == id then rest else x ∷ rest

pub record ScoreGate : Type 0 where
  pub threshold : ℕ
  pub scores : List (String × ℕ)

at_least : ℕ → Option ℕ → Bool
at_least threshold none = false
at_least threshold (some s) = leb threshold s

unfoldable pub score_allows : ScoreGate → String → Bool
unfolding at_least
score_allows g id = g.threshold == 0 || at_least g.threshold (lookup id g.scores)

pub data Reason : Type 0 where
  denied limited allowed : Reason

-- `CombinedGate`; `none` is a nil gate, and `rate` holds what `RateLimitGate` has left.
pub record CombinedGate : Type 0 where
  pub allow : Option AllowList
  pub rate : Option ℕ
  pub score : Option ScoreGate

pub listed : Option AllowList → String → Bool
listed none id = true
listed (some g) id = contains g id

pub scored : Option ScoreGate → String → Bool
unfolding score_allows
scored none id = true
scored (some g) id = score_allows g id

-- The rate gate takes one from what is left before the score is looked at.
rate_step : CombinedGate → String → Option ℕ → CombinedGate × Reason
unfolding scored
rate_step g id none = (g, if scored g.score id then allowed else denied)
rate_step g id (some r) =
    if r == 0
    then (g, limited)
    else (record g { rate = some (r - 1) }, if scored g.score id then allowed else denied)

unfoldable pub allow_with_reason : CombinedGate → String → CombinedGate × Reason
unfolding rate_step listed
allow_with_reason g id = if listed g.allow id then rate_step g id g.rate else (g, denied)

is_allowed : Reason → Bool
is_allowed allowed = true
is_allowed _ = false

-- The gate and the admitted peers, newest first, after a list of attempts, newest first.
unfoldable pub admit : CombinedGate → List String → CombinedGate × List String
unfolding is_allowed
admit g [] = (g, [])
admit g (id ∷ ids) =
    let (h, peers) = admit g ids in
    let (h', reason) = allow_with_reason h id in
    (h', if is_allowed reason then id ∷ peers else peers)
