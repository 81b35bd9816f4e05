-- ===== src/Qbft/Verifier/Admission.antt =====
-- `Verify` accepts exactly the messages that a list of independent conditions admits.
use aequa_network.Base.{
  ℕ, ◌+◌, ◌≤◌, ◌<◌, ◌≡◌, ◌≢◌, ◌↔◌, ◌⊎◌, inl, inr, refl, true, false, [], Option, none, some, arith,
  length, contains, lookup, lookup_or, string_eq, eq_iff, ltb, Bool-cases, Option-cases,
}
use aequa_network.Qbft.Message.{Message, preprepare, prepare, commit}
use aequa_network.Qbft.Verifier.{
  Verifier, AntiReplay, type_eq, before_replay, guard_replay, after_replay, verify, valid_type,
}

-- The conditions on the message and the configured windows; 0 switches a window off.
pub record Admissible (v : Verifier) (m : Message) : Type 0 where
  pub has_id : m.id ≢ ""
  pub has_sender : m.sender ≢ ""
  pub known_type : valid_type m.type ≡ true
  pub listed : (v.allowed ≡ []) ⊎ (contains v.allowed m.sender ≡ true)
  pub signed : (length m.sig ≡ 0) ⊎ (32 ≤ length m.sig)
  pub proposal_round : m.type ≡ preprepare → m.round ≡ 0
  pub vote_round : (m.type ≡ prepare) ⊎ (m.type ≡ commit) → 1 ≤ m.round
  pub high : v.min_height ≤ m.height
  pub in_window : (v.round_window ≡ 0) ⊎ (m.round ≤ v.round_window)
  pub type_high : lookup_or 0 m.type v.type_min_height ≤ m.height
  pub type_window :
      (lookup_or 0 m.type v.type_round_max ≡ 0) ⊎ (m.round ≤ lookup_or 0 m.type v.type_round_max)

-- The replay guard lets the message through: its id is new, or outside the height window.
abbrev pub Fresh : Verifier → Option AntiReplay → Message → Type 0
Fresh v none m = Unit {0}
Fresh v (some r) m =
    ((v.replay_window ≡ 0) × (contains r.seen m.id ≡ false))
    ⊎ ((0 < v.replay_window)
        × ((lookup m.id r.h_seen ≡ none)
            ⊎ ((last : ℕ) × (lookup m.id r.h_seen ≡ some last)
                × ((m.height < last) ⊎ (last + v.replay_window < m.height)))))

module _ (v : Verifier) (m : Message) where
  before-of_Admissible : Admissible v m → before_replay v m ≡ none
  unfolding before_replay
  before-of_Admissible a = ground (arith, eq_iff m.id "", eq_iff m.sender "")

  after_of_Admissible : Admissible v m → after_replay v m ≡ none
  unfolding after_replay
  after_of_Admissible a = ground arith

  Admissible-of_none : before_replay v m ≡ none → after_replay v m ≡ none → Admissible v m
  unfolding before_replay after_replay
  Admissible-of_none b a = ground (arith, eq_iff m.id "", eq_iff m.sender "")

  guard_of_Fresh :
      (r : Option AntiReplay) → m.id ≢ "" → Fresh v r m → (guard_replay v m r).1 ≡ false
  unfolding guard_replay
  guard_of_Fresh none i f = refl
  guard_of_Fresh (some r) i f = ground (arith, eq_iff m.id "")

  Fresh-of_guard :
      (r : Option AntiReplay) → m.id ≢ "" → (guard_replay v m r).1 ≡ false → Fresh v r m
  unfolding guard_replay
  Fresh-of_guard none i g = tt
  Fresh-of_guard (some r) i g = elim (Option-cases (lookup m.id r.h_seen)) [
    | inl e ↦ ground (arith, eq_iff m.id "")
    | inr (last, e) ↦ elim (Bool-cases (ltb 0 v.replay_window)) [
      | inl w ↦ inr (ground arith, inr (last, e, ground (arith, eq_iff m.id "")))
      | inr w ↦ inl (ground arith, ground (arith, eq_iff m.id ""))
    ]
  ]

  -- The replay guard changes nothing that the later checks read.
  after_guard_same :
      (r : Option AntiReplay) → after_replay (guard_replay v m r).0 m ≡ after_replay v m
  unfolding after_replay guard_replay
  after_guard_same none = refl
  after_guard_same (some r) = refl

  verify_step :
      (verify v m).1 ≡ none
      → (before_replay v m ≡ none)
        × ((guard_replay v m v.replay).1 ≡ false)
        × (after_replay v m ≡ none)
  unfolding verify
  verify_step h = ground (arith, after_guard_same v.replay)

  verify_of_steps :
      before_replay v m ≡ none
      → (guard_replay v m v.replay).1 ≡ false
      → after_replay v m ≡ none
      → (verify v m).1 ≡ none
  unfolding verify
  verify_of_steps b g a = ground (arith, after_guard_same v.replay)

  -- `Verify` accepts a message exactly when it is admissible under the configured conditions and
  -- the replay guard finds its id new, or recorded at a height that is higher, or lower by more
  -- than the window.
  pub verify_accepts_iff : ((verify v m).1 ≡ none) ↔ (Admissible v m × Fresh v v.replay m)
  verify_accepts_iff = (
    λ h.
        let (b, g, a) = verify_step h in
        let ad : Admissible v m = Admissible-of_none b a in
        (ad, Fresh-of_guard v.replay ad.has_id g),
    λ (ad, f).
        verify_of_steps (before-of_Admissible ad) (guard_of_Fresh v.replay ad.has_id f)
          (after_of_Admissible ad),
  )
