-- ===== src/Qbft/State/Evidence.antt =====
-- What the votes that a state keeps say about its phase.
use aequa_network.Base.{◌≤◌, ◌≡◌, ◌≢◌, [], none, some, arith, length, Distinct, string_eq}
use aequa_network.Qbft.Message.{
  MsgType, Message, preprepare, prepare, commit, view_change, new_view, other,
}
use aequa_network.Qbft.State.{
  State, Phase, Votes, idle, preprepared, prepared, committed, panicked, process, on_preprepare,
  on_prepare, on_commit, on_view_change, on_new_view, dispatch, coordinates,
}

-- The certificate that a phase stands for, read off the two vote maps.
abbrev pub Evidence : Phase → Votes → Votes → Type 0
Evidence idle none none = Unit {0}
Evidence preprepared (some p) (some c) = Distinct p × (length p ≤ 1) × (c ≡ [])
Evidence prepared (some p) (some c) = Distinct p × (2 ≤ length p) × (c ≡ [])
Evidence committed (some p) (some c) = Distinct p × (2 ≤ length p) × Distinct c × (1 ≤ length c)
Evidence _ _ _ = ⊥

pub record IsValid (s : State) : Type 0 where
  pub evidence : Evidence s.phase s.prepare_votes s.commit_votes

module _ (s : State) (m : Message) (v : IsValid s) where
  on_preprepare-IsValid : IsValid (on_preprepare s m).state
  unfolding on_preprepare
  on_preprepare-IsValid = ground arith

  on_prepare-IsValid : IsValid (on_prepare s m).state
  unfolding on_prepare
  on_prepare-IsValid = ground arith

  on_commit-IsValid : IsValid (on_commit s m).state
  unfolding on_commit
  on_commit-IsValid = ground arith

  on_view_change-IsValid : IsValid (on_view_change s m).state
  unfolding on_view_change
  on_view_change-IsValid = ground arith

  on_new_view-IsValid : IsValid (on_new_view s m).state
  unfolding on_new_view
  on_new_view-IsValid = ground arith

  dispatch-IsValid : (t : MsgType) → IsValid (dispatch s m t).state
  unfolding dispatch
  dispatch-IsValid preprepare = on_preprepare-IsValid
  dispatch-IsValid prepare = on_prepare-IsValid
  dispatch-IsValid commit = on_commit-IsValid
  dispatch-IsValid view_change = on_view_change-IsValid
  dispatch-IsValid new_view = on_new_view-IsValid
  dispatch-IsValid (other t) = v

coordinates-IsValid :
    (s : State) (m : Message) (t : MsgType) → IsValid s → IsValid (coordinates s m t)
unfolding coordinates
coordinates-IsValid s m view_change v = record { evidence = v.evidence }
coordinates-IsValid s m _ v = record { evidence = v.evidence }

-- `Process` keeps the votes in step with the phase: two distinct prepare votes or more from
-- prepared on, a commit vote or more at commit, no commit votes before, and vote maps exactly from
-- preprepared on.
pub process-IsValid : (s : State) (m : Message) → IsValid s → IsValid (process s m).state
unfolding process
process-IsValid s m v =
    dispatch-IsValid (coordinates s m m.type) m (coordinates-IsValid s m m.type v) m.type

dispatch_no_panic :
    (s : State) (m : Message) (t : MsgType) → IsValid s → (dispatch s m t).verdict ≢ panicked
unfolding dispatch
dispatch_no_panic s m prepare v = ground arith
dispatch_no_panic s m commit v = ground arith
dispatch_no_panic s m preprepare v = ground arith
dispatch_no_panic s m view_change v = ground arith
dispatch_no_panic s m new_view v = ground arith
dispatch_no_panic s m (other t) v = ground arith

-- On a state whose votes are in step with its phase, `Process` never writes to a nil vote map.
pub process_no_panic : (s : State) (m : Message) → IsValid s → (process s m).verdict ≢ panicked
unfolding process
process_no_panic s m v =
    dispatch_no_panic (coordinates s m m.type) m m.type (coordinates-IsValid s m m.type v)
