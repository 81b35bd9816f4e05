-- ===== src/Qbft/State/Errors.antt =====
-- What a refused message changes, and when a certificate is counted.
use aequa_network.Base.{
  ◌≡◌, ◌↔◌, refl, Bool, true, false, ◌||◌, List, [], ◌∷◌, arith, string_eq, nat_eq,
}
use aequa_network.Qbft.Message.{
  MsgType, Message, preprepare, prepare, commit, view_change, new_view, other,
}
use aequa_network.Qbft.State.{
  State, Error, Metric, qc_prepare, qc_commit, preprepared, prepared, committed, refused, process,
  dispatch, coordinates,
}

-- Everything that the votes of a proposal decide.
pub record SameProposal (s t : State) : Type 0 where
  pub phase : t.phase ≡ s.phase
  pub proposal_id : t.proposal_id ≡ s.proposal_id
  pub prepare_votes : t.prepare_votes ≡ s.prepare_votes
  pub commit_votes : t.commit_votes ≡ s.commit_votes
  pub view_votes : t.view_votes ≡ s.view_votes

dispatch_refused :
    (s : State) (m : Message) (t : MsgType) {e : Error}
    → (dispatch s m t).verdict ≡ refused e
    → (dispatch s m t).state ≡ s
unfolding dispatch
dispatch_refused s m preprepare h = ground arith
dispatch_refused s m prepare h = ground arith
dispatch_refused s m commit h = ground arith
dispatch_refused s m view_change h = ground arith
dispatch_refused s m new_view h = ground arith
dispatch_refused s m (other t) h = ground arith

refused_coordinates :
    (s : State) (m : Message) (t : MsgType) {e : Error}
    → (dispatch (coordinates s m t) m t).verdict ≡ refused e
    → SameProposal s (coordinates s m t)
      × ((coordinates s m t).height ≡ m.height)
      × ((coordinates s m t).round ≡ m.round)
unfolding coordinates
refused_coordinates s m preprepare h = ground arith
refused_coordinates s m prepare h = ground arith
refused_coordinates s m commit h = ground arith
refused_coordinates s m view_change h = absurd (unfold dispatch in ground arith)
refused_coordinates s m new_view h = absurd (unfold dispatch in ground arith)
refused_coordinates s m (other t) h = ground arith

-- A message that `Process` answers with an error leaves the phase, the proposal and every vote as
-- they were; the coordinates are those of the refused message all the same.
pub refused_keeps_votes :
    (s : State) (m : Message) {e : Error}
    → (process s m).verdict ≡ refused e
    → SameProposal s (process s m).state
      × ((process s m).state.height ≡ m.height)
      × ((process s m).state.round ≡ m.round)
unfolding process
refused_keeps_votes s m h =
    rw (dispatch_refused (coordinates s m m.type) m m.type h) (refused_coordinates s m m.type h)

abbrev pub counts : (Metric → Bool) → List Metric → Bool
counts p [] = false
counts p (x ∷ xs) = p x || counts p xs

abbrev pub is_qc_prepare : Metric → Bool
is_qc_prepare qc_prepare = true
is_qc_prepare _ = false

abbrev pub is_qc_commit : Metric → Bool
is_qc_commit qc_commit = true
is_qc_commit _ = false

-- The prepare certificate is counted exactly when the phase goes from preprepared to prepared, and
-- the commit certificate exactly when it goes from prepared to commit.
abbrev pub CountsCertificates : State → State → List Metric → Type 0
CountsCertificates s t ms =
    ((counts is_qc_prepare ms ≡ true) ↔ ((s.phase ≡ preprepared) × (t.phase ≡ prepared)))
    × ((counts is_qc_commit ms ≡ true) ↔ ((s.phase ≡ prepared) × (t.phase ≡ committed)))

dispatch_counts :
    (s : State) (m : Message) (t : MsgType)
    → CountsCertificates s (dispatch s m t).state (dispatch s m t).metrics
unfolding dispatch
dispatch_counts s m preprepare = ground arith
dispatch_counts s m prepare = ground arith
dispatch_counts s m commit = ground arith
dispatch_counts s m view_change = ground arith
dispatch_counts s m new_view = ground arith
dispatch_counts s m (other t) = ground arith

coordinates_phase : (s : State) (m : Message) (t : MsgType) → (coordinates s m t).phase ≡ s.phase
unfolding coordinates
coordinates_phase s m view_change = refl
coordinates_phase s m _ = refl

-- In one call of `Process` the prepare certificate is counted exactly when the phase goes from
-- preprepared to prepared, and the commit certificate exactly when it goes from prepared to commit.
pub certificates_counted_once :
    (s : State) (m : Message) → CountsCertificates s (process s m).state (process s m).metrics
unfolding process
certificates_counted_once s m =
    ground (arith, coordinates_phase s m m.type, dispatch_counts (coordinates s m m.type) m m.type)
