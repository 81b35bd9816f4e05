-- ===== src/Qbft/Verifier/Replays.antt =====
-- The id-level replay guard over whole runs of messages.
use aequa_network.Base.{
  ◌≡◌, ◌≢◌, inl, inr, refl, String, true, List, [], ◌∷◌, Option, none, some, arith, contains,
  string_eq, eq_iff, contains-add_key_mono, contains-add_key_self, Option-cases, subst, sym,
}
use aequa_network.Qbft.Message.{Message}
use aequa_network.Qbft.Verifier.{
  Verifier, AntiReplay, type_eq, before_replay, guard_replay, verify, verify_all,
}

-- The verifier keeps ids (no height window) and has recorded `id`.
abbrev pub Recorded : String → Option AntiReplay → Type 0
Recorded id none = ⊥
Recorded id (some r) = contains r.seen id ≡ true

pub record Remembers (id : String) (v : Verifier) : Type 0 where
  pub by_id : v.replay_window ≡ 0
  pub recorded : Recorded id v.replay

guard-Remembers :
    (v : Verifier) (m : Message) (id : String) (r : Option AntiReplay)
    → v.replay_window ≡ 0
    → Recorded id r
    → Remembers id (guard_replay v m r).0
unfolding guard_replay
guard-Remembers v m id none w h = elim h [ ]
guard-Remembers v m id (some r) w h = ground (arith, contains-add_key_mono m.id id r.seen)

pub verify-Remembers :
    (v : Verifier) (m : Message) (id : String) → Remembers id v → Remembers id (verify v m).0
unfolding verify
verify-Remembers v m id h = ground (arith, guard-Remembers v m id v.replay h.by_id h.recorded)

verify_all-Remembers :
    (v : Verifier) (ms : List Message) (id : String)
    → Remembers id v
    → Remembers id (verify_all v ms)
unfolding verify_all
verify_all-Remembers v [] id h = h
verify_all-Remembers v (m ∷ ms) id h =
    verify_all-Remembers (verify v m).0 ms id (verify-Remembers v m id h)

guard_records :
    (v : Verifier) (m : Message) (r : AntiReplay)
    → v.replay_window ≡ 0
    → m.id ≢ ""
    → Remembers m.id (guard_replay v m (some r)).0
unfolding guard_replay
guard_records v m r w i = ground (arith, eq_iff m.id "", contains-add_key_self m.id r.seen)

before_replay_id : (v : Verifier) (m : Message) → before_replay v m ≡ none → m.id ≢ ""
unfolding before_replay
before_replay_id v m h = λ e. ground (arith, eq_iff m.id "")

-- A message that passes the first checks is recorded, whatever the later checks say.
pub reached_guard-Remembers :
    (v : Verifier) (m : Message) (r : AntiReplay)
    → v.replay_window ≡ 0
    → v.replay ≡ some r
    → before_replay v m ≡ none
    → Remembers m.id (verify v m).0
unfolding verify
reached_guard-Remembers v m r w e b = ground (arith, guard_records v m r w (before_replay_id v m b))

guard_hits :
    (v : Verifier) (m : Message) (r : Option AntiReplay)
    → v.replay_window ≡ 0
    → m.id ≢ ""
    → Recorded m.id r
    → (guard_replay v m r).1 ≡ true
unfolding guard_replay
guard_hits v m none w i h = elim h [ ]
guard_hits v m (some r) w i h = ground (arith, eq_iff m.id "")

pub remembered_rejected : (v : Verifier) (m : Message) → Remembers m.id v → (verify v m).1 ≢ none
unfolding verify
remembered_rejected v m h = elim (Option-cases (before_replay v m)) [
  | inl b ↦
      λ acc. ground (arith, guard_hits v m v.replay h.by_id (before_replay_id v m b) h.recorded)
  | inr (x, b) ↦ λ acc. ground arith
]

-- With the id-level guard, once a message has passed the checks above the guard, no message with
-- the same id is accepted after any further run of messages: whoever sends it, at any height and
-- round, and also if the first message was itself rejected by a check below the guard.
pub id_spent :
    (v : Verifier) (r : AntiReplay) (m : Message) (later : List Message) (again : Message)
    → v.replay ≡ some r
    → v.replay_window ≡ 0
    → before_replay v m ≡ none
    → again.id ≡ m.id
    → (verify (verify_all v (m ∷ later)) again).1 ≢ none
unfolding verify_all
id_spent v r m later again e w b i =
    let kept =
      verify_all-Remembers (verify v m).0 later m.id (reached_guard-Remembers v m r w e b) in
    remembered_rejected (verify_all (verify v m).0 later) again
      (subst (λ x. Remembers x (verify_all (verify v m).0 later)) (sym i) kept)

guard_keeps :
    (v : Verifier) (m : Message) (r : Option AntiReplay)
    → ((guard_replay v m r).0.replay_window ≡ v.replay_window)
      × (r ≢ none → v.replay ≢ none → (guard_replay v m r).0.replay ≢ none)
unfolding guard_replay
guard_keeps v m none = (refl, λ h _. absurd (h refl))
guard_keeps v m (some r) = (refl, λ _ _. ground arith)

-- The configuration of the replay guard stays.
pub verify_keeps :
    (v : Verifier) (m : Message)
    → ((verify v m).0.replay_window ≡ v.replay_window)
      × (v.replay ≢ none → (verify v m).0.replay ≢ none)
unfolding verify
verify_keeps v m = elim (Option-cases (before_replay v m)) [
  | inl b ↦
      let (w, k) = guard_keeps v m v.replay in (ground arith, λ h. let g = k h h in ground arith)
  | inr (x, b) ↦ (ground arith, λ h. ground arith)
]

accepted_before : (v : Verifier) (m : Message) → (verify v m).1 ≡ none → before_replay v m ≡ none
unfolding verify
accepted_before v m h = ground arith

pub accepted-Remembers :
    (v : Verifier) (m : Message)
    → v.replay_window ≡ 0
    → v.replay ≢ none
    → (verify v m).1 ≡ none
    → Remembers m.id (verify v m).0
accepted-Remembers v m w g h = elim (Option-cases v.replay) [
  | inl e ↦ absurd (g e)
  | inr (r, e) ↦ reached_guard-Remembers v m r w e (accepted_before v m h)
]
