-- ===== src/Qbft/State/Early.antt =====
-- How far a state gets on messages that are not for its own proposal.
use aequa_network.Base.{◌≡◌, ◌≢◌, ◌⊎◌, inl, refl, arith, eq_iff}
use aequa_network.Qbft.Message.{
  MsgType, Message, preprepare, prepare, commit, view_change, new_view, other,
}
use aequa_network.Qbft.State.{State, Phase, idle, preprepared, process, dispatch, coordinates}

abbrev pub Early : Phase → Type 0
Early p = (p ≡ idle) ⊎ (p ≡ preprepared)

-- A message for another proposal leaves the phase early, and brings at most its own id.
dispatch-Early :
    (s : State) (m : Message) (t : MsgType)
    → Early s.phase
    → (s.proposal_id ≡ "") ⊎ (m.id ≢ s.proposal_id)
    → Early (dispatch s m t).state.phase
      × (((dispatch s m t).state.proposal_id ≡ s.proposal_id)
          ⊎ ((dispatch s m t).state.proposal_id ≡ "")
          ⊎ ((dispatch s m t).state.proposal_id ≡ m.id))
unfolding dispatch
dispatch-Early s m preprepare e d = ground arith
dispatch-Early s m prepare e d = ground (arith, eq_iff m.id s.proposal_id, eq_iff s.proposal_id "")
dispatch-Early s m commit e d = ground arith
dispatch-Early s m view_change e d = ground arith
dispatch-Early s m new_view e d = ground arith
dispatch-Early s m (other t) e d = (e, inl refl)

coordinates_same :
    (s : State) (m : Message) (t : MsgType)
    → ((coordinates s m t).phase ≡ s.phase) × ((coordinates s m t).proposal_id ≡ s.proposal_id)
unfolding coordinates
coordinates_same s m view_change = (refl, refl)
coordinates_same s m _ = (refl, refl)

pub process-Early :
    (s : State) (m : Message)
    → Early s.phase
    → (s.proposal_id ≡ "") ⊎ (m.id ≢ s.proposal_id)
    → Early (process s m).state.phase
      × (((process s m).state.proposal_id ≡ s.proposal_id)
          ⊎ ((process s m).state.proposal_id ≡ "")
          ⊎ ((process s m).state.proposal_id ≡ m.id))
unfolding process
process-Early s m e d =
    let (p, i) = coordinates_same s m m.type in
    rw i at (dispatch-Early (coordinates s m m.type) m m.type (rw p e) (rw i d))
