-- ===== src/Net/Gates/Admission.antt =====
-- Whom the combined gate admits, and how many.
use aequa_network.Base.{
  ℕ, ◌==◌, ◌⊎◌, Option, none, Option-cases, contains, lookup, ◌+◌, ◌-◌, ◌≤◌, ◌≡◌, refl, sym, ap,
  ◌∙◌, String, true, List, [], ◌∷◌, some, if◌then◌else◌, string_eq, nat_eq, arith, length, All, min,
  Bool-cases, inl, inr,
}
use aequa_network.Net.Gates.{
  AllowList, ScoreGate, at_least, score_allows, CombinedGate, listed, scored, rate_step,
  allow_with_reason, is_allowed, admit,
}

-- How many of the attempts come from peers on the allow list.
unfoldable pub listed_attempts : CombinedGate → List String → ℕ
listed_attempts g [] = 0
listed_attempts g (id ∷ ids) =
    let n = listed_attempts g ids in if listed g.allow id then n + 1 else n

-- On the allow list, if there is one.
abbrev pub OnList : Option AllowList → String → Type 0
OnList none id = Unit
OnList (some g) id = contains g id ≡ true

-- With a score that is known and reaches the threshold, if there is one.
abbrev pub HasScore : Option ScoreGate → String → Type 0
HasScore none id = Unit
HasScore (some g) id =
    (g.threshold ≡ 0) ⊎ ((points : ℕ) × (lookup id g.scores ≡ some points) × (g.threshold ≤ points))

listed-OnList : (a : Option AllowList) (id : String) → listed a id ≡ true → OnList a id
unfolding listed
listed-OnList none id h = tt
listed-OnList (some g) id h = h

scored-HasScore : (g : Option ScoreGate) (id : String) → scored g id ≡ true → HasScore g id
unfolding scored score_allows at_least
scored-HasScore none id h = tt
scored-HasScore (some g) id h = elim (Option-cases (lookup id g.scores)) [
  | inl o ↦ inl (ground (arith, o, h))
  | inr (points, o) ↦ elim (Bool-cases (g.threshold == 0)) [
    | inl z ↦ inl (ground (arith, z))
    | inr z ↦ inr (points, o, ground (arith, o, z, h))
  ]
]

-- A gate that only differs in what the rate limit has left.
pub record After (g : CombinedGate) (ids : List String) (limit : ℕ) : Type 0 where
  pub same_list : (admit g ids).0.allow ≡ g.allow
  pub same_score : (admit g ids).0.score ≡ g.score
  pub left : (admit g ids).0.rate ≡ some (limit - listed_attempts g ids)
  pub fit : All (λ id. OnList g.allow id × HasScore g.score id) (admit g ids).1
  pub counted : length (admit g ids).1 ≤ min limit (listed_attempts g ids)

rate_step_after :
    (h : CombinedGate) (id : String) (r : ℕ)
    → h.rate ≡ some r
    → ((rate_step h id (some r)).0.allow ≡ h.allow)
      × ((rate_step h id (some r)).0.score ≡ h.score)
      × ((rate_step h id (some r)).0.rate ≡ some (r - 1))
      × (is_allowed (rate_step h id (some r)).1 ≡ true → (scored h.score id ≡ true) × (1 ≤ r))
unfolding rate_step is_allowed
rate_step_after h id r e = ground arith

step_after :
    (h : CombinedGate) (id : String) (r : ℕ)
    → h.rate ≡ some r
    → ((allow_with_reason h id).0.allow ≡ h.allow)
      × ((allow_with_reason h id).0.score ≡ h.score)
      × ((allow_with_reason h id).0.rate ≡ some (if listed h.allow id then r - 1 else r))
      × (is_allowed (allow_with_reason h id).1 ≡ true
          → (listed h.allow id ≡ true) × (scored h.score id ≡ true) × (1 ≤ r))
unfolding allow_with_reason is_allowed
step_after h id r e = ground (arith, rate_step_after h id r e)

-- A gate with a rate limit, after any attempts: every admitted peer is on the allow list, if there is
-- one, and has a known score that reaches the threshold, if there is one above zero; at most as many are admitted as the limit says, and every attempt of a listed
-- peer takes one from the limit until it is spent, also if the score then denies the peer.
pub admit-After :
    (g : CombinedGate) (ids : List String) (limit : ℕ) → g.rate ≡ some limit → After g ids limit
unfolding admit listed_attempts
admit-After g [] limit e = record {
  same_list = refl;
  same_score = refl;
  left = ground arith;
  fit = tt;
  counted = omega arith;
}
admit-After g (id ∷ ids) limit e =
    let a = admit-After g ids limit e in
    let h = (admit g ids).0 in
    let n = listed_attempts g ids in
    let s = step_after h id (limit - n) a.left in
    let on_list = ap (λ o. listed o id) a.same_list in
    let good = ap (λ o. scored o id) a.same_score in
    record {
      same_list = s.0 ∙ a.same_list;
      same_score = s.1 ∙ a.same_score;
      left = ground (arith, s.2, on_list);
      fit = elim (Bool-cases (is_allowed (allow_with_reason h id).1)) [
        | inl y ↦ rw y (
          (
            listed-OnList g.allow id (sym on_list ∙ (s.3 y).0),
            scored-HasScore g.score id (sym good ∙ (s.3 y).1),
          ),
          a.fit,
        )
        | inr y ↦ rw y a.fit
      ];
      counted = elim (Bool-cases (is_allowed (allow_with_reason h id).1)) [
        | inl y ↦ let f = s.3 y in rw y (ground (arith, on_list, a.counted, f.0, f.2))
        | inr y ↦ rw y (ground (arith, a.counted))
      ];
    }
