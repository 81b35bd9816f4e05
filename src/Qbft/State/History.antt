-- ===== src/Qbft/State/History.antt =====
-- The votes in a state, traced back to the messages of the log.
use aequa_network.Base.{
  ◌≤◌, ◌≡◌, ◌≢◌, refl, String, Bool, true, false, ◌&&◌, ◌||◌, List, [], ◌∷◌, none, some, arith,
  length, Distinct, contains, eq_iff, string_eq, All, ◌==◌, ==_self,
}
use aequa_network.Qbft.Message.{
  MsgType, Message, preprepare, prepare, commit, view_change, new_view, other, is_prepare,
  is_commit,
}
use aequa_network.Qbft.State.{
  State, Votes, committed, process, initial, replay_log, on_preprepare, on_prepare, on_commit,
  on_view_change, on_new_view, dispatch, coordinates,
}
use aequa_network.Qbft.State.Evidence.{IsValid, process-IsValid}

-- The log holds a message of the tested type, for the proposal `id`, from `from`.
abbrev pub sent : (MsgType → Bool) → String → String → List Message → Bool
sent is id from [] = false
sent is id from (m ∷ ms) = (is m.type && m.id == id && m.sender == from) || sent is id from ms

abbrev pub voters : Votes → List String
voters none = []
voters (some vs) = vs

abbrev pub Sent : (MsgType → Bool) → String → List Message → List String → Type 0
Sent is id ms = All (λ f. sent is id f ms ≡ true)

pub record Backed (ms : List Message) (s : State) : Type 0 where
  pub prepares : Sent is_prepare s.proposal_id ms (voters s.prepare_votes)
  pub commits : Sent is_commit s.proposal_id ms (voters s.commit_votes)

Sent-cons :
    (is : MsgType → Bool) (id : String) (m : Message) (ms : List Message) (vs : List String)
    → Sent is id ms vs
    → Sent is id (m ∷ ms) vs
Sent-cons is id m ms [] h = tt
Sent-cons is id m ms (v ∷ vs) h = (ground arith, Sent-cons is id m ms vs h.1)

module _ (s : State) (m : Message) (ms : List Message) (b : Backed ms s) where
  older_prepares : Sent is_prepare s.proposal_id (m ∷ ms) (voters s.prepare_votes)
  older_prepares = Sent-cons is_prepare s.proposal_id m ms (voters s.prepare_votes) b.prepares

  older_commits : Sent is_commit s.proposal_id (m ∷ ms) (voters s.commit_votes)
  older_commits = Sent-cons is_commit s.proposal_id m ms (voters s.commit_votes) b.commits

  older : Backed (m ∷ ms) s
  older = record { prepares = older_prepares; commits = older_commits }

  on_preprepare-Backed : Backed (m ∷ ms) (on_preprepare s m).state
  unfolding on_preprepare
  on_preprepare-Backed = ground (arith, older_prepares, older_commits)

  on_prepare-Backed : m.type ≡ prepare → Backed (m ∷ ms) (on_prepare s m).state
  unfolding on_prepare
  on_prepare-Backed t = ground (arith, older_prepares, older_commits, ==_self m.sender)

  on_commit-Backed : m.type ≡ commit → Backed (m ∷ ms) (on_commit s m).state
  unfolding on_commit
  on_commit-Backed t = ground (arith, older_prepares, older_commits, ==_self m.sender)

  on_view_change-Backed : Backed (m ∷ ms) (on_view_change s m).state
  unfolding on_view_change
  on_view_change-Backed = ground (arith, older_prepares, older_commits)

  on_new_view-Backed : Backed (m ∷ ms) (on_new_view s m).state
  unfolding on_new_view
  on_new_view-Backed = ground (arith, older_prepares, older_commits)

  dispatch-Backed : (t : MsgType) → m.type ≡ t → Backed (m ∷ ms) (dispatch s m t).state
  unfolding dispatch
  dispatch-Backed preprepare e = on_preprepare-Backed
  dispatch-Backed prepare e = on_prepare-Backed e
  dispatch-Backed commit e = on_commit-Backed e
  dispatch-Backed view_change e = on_view_change-Backed
  dispatch-Backed new_view e = on_new_view-Backed
  dispatch-Backed (other t) e = older

coordinates-Backed :
    (s : State) (m : Message) (ms : List Message) (t : MsgType)
    → Backed ms s
    → Backed ms (coordinates s m t)
unfolding coordinates
coordinates-Backed s m ms view_change b = record { prepares = b.prepares; commits = b.commits }
coordinates-Backed s m ms _ b = record { prepares = b.prepares; commits = b.commits }

process-Backed :
    (s : State) (m : Message) (ms : List Message)
    → Backed ms s
    → Backed (m ∷ ms) (process s m).state
unfolding process
process-Backed s m ms b =
    dispatch-Backed (coordinates s m m.type) m ms (coordinates-Backed s m ms m.type b) m.type refl

initial-IsValid : (l : String) → IsValid (initial l)
initial-IsValid l = record { evidence = tt }

pub replay_log-IsValid : (l : String) (ms : List Message) → IsValid (replay_log (initial l) ms)
unfolding replay_log
replay_log-IsValid l [] = initial-IsValid l
replay_log-IsValid l (m ∷ ms) =
    process-IsValid (replay_log (initial l) ms) m (replay_log-IsValid l ms)

pub replay_log-Backed : (l : String) (ms : List Message) → Backed ms (replay_log (initial l) ms)
unfolding replay_log
replay_log-Backed l [] = record { prepares = tt; commits = tt }
replay_log-Backed l (m ∷ ms) =
    process-Backed (replay_log (initial l) ms) m ms (replay_log-Backed l ms)

-- Two distinct voters for prepare and one for commit, all on record for the same proposal.
abbrev pub Quorum : String → List Message → Type 0
Quorum id ms =
    (a : String) × (b : String) × (c : String) × (a ≢ b)
    × (sent is_prepare id a ms ≡ true)
    × (sent is_prepare id b ms ≡ true)
    × (sent is_commit id c ms ≡ true)

Quorum-of_votes :
    (id : String) (ms : List Message) (p c : List String)
    → Distinct p
    → 2 ≤ length p
    → 1 ≤ length c
    → Sent is_prepare id ms p
    → Sent is_commit id ms c
    → Quorum id ms
unfolding contains
Quorum-of_votes id ms [] c d hp hc sp sc = absurd (omega arith)
Quorum-of_votes id ms (a ∷ []) c d hp hc sp sc = absurd (omega arith)
Quorum-of_votes id ms (a ∷ b ∷ p) [] d hp hc sp sc = absurd (omega arith)
Quorum-of_votes id ms (a ∷ b ∷ p) (c ∷ cs) d hp hc sp sc =
    (a, b, c, (λ e. ground (arith, eq_iff b a)), sp.0, sp.1.0, sc.0)

Quorum-of_committed :
    (ms : List Message) (s : State) (p c : Votes)
    → s.prepare_votes ≡ p
    → s.commit_votes ≡ c
    → s.phase ≡ committed
    → IsValid s
    → Backed ms s
    → Quorum s.proposal_id ms
Quorum-of_committed ms s none c ep ec h v b = absurd (ground arith)
Quorum-of_committed ms s (some p) none ep ec h v b = absurd (ground arith)
Quorum-of_committed ms s (some p) (some c) ep ec h v b =
    Quorum-of_votes s.proposal_id ms p c (ground arith) (ground arith) (ground arith) (ground arith)
      (ground arith)

-- A state that was reached from the initial one by any log of messages and is in the commit phase
-- rests on prepare messages of two distinct senders and a commit message in that log, all three
-- for the proposal that the state holds.
pub committed-Quorum :
    (l : String) (ms : List Message)
    → (replay_log (initial l) ms).phase ≡ committed
    → Quorum (replay_log (initial l) ms).proposal_id ms
committed-Quorum l ms h =
    let s = replay_log (initial l) ms in
    Quorum-of_committed ms s s.prepare_votes s.commit_votes refl refl h (replay_log-IsValid l ms)
      (replay_log-Backed l ms)
