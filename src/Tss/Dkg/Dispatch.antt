-- ===== src/Tss/Dkg/Dispatch.antt =====
-- internal/tss/dkg/beast_runner_blst.go: `OnMessage`, and the events of a run.
use aequa_network.Base.{Bool, ◌&&◌, not, List, [], ◌∷◌, ◌==◌, string_eq, nat_eq, if◌then◌else◌, ltb}
use aequa_network.Tss.Dkg.Runner.{Message, Crypto, Runner}
use aequa_network.Tss.Dkg.Sending.{verify_sig, broadcast_missing_shares}
use aequa_network.Tss.Dkg.Epoch.{bump_epoch, start, retry}
use aequa_network.Tss.Dkg.Finalize.{maybe_finalize}
use aequa_network.Tss.Dkg.Handlers.{
  on_commitments, on_share, on_ack, on_complaint, on_share_open, try_process_pending,
}

pub data Event : Type 0 where
  received : Message → Event
  retried : Bool → Event

module _ {S P : Type 0} (e : Crypto S P) where
  -- The guards of a message before its epoch is looked at.
  unfoldable pub is_admitted : Message → Runner S → Bool
  is_admitted m r =
      (m.session_id == r.cfg.session_id)
      && not (m.epoch == 0)
      && not (m.from_index == 0)
      && not (ltb r.cfg.n m.from_index)
      && not (m.from_index == r.cfg.index)
      && not (m.kind == "")
      && verify_sig e r m
      && not r.done
      && not (ltb m.epoch r.epoch)

  -- The switch over the kinds, without the closing call of `maybeFinalize`.
  unfoldable pub handle_commitments : Message → Runner S → Runner S
  handle_commitments m r =
      broadcast_missing_shares e (try_process_pending e m.from_index (on_commitments e m r))

  unfoldable pub dispatch : Message → Runner S → Runner S
  unfolding handle_commitments
  dispatch m r =
      if m.kind == "commitments"
      then maybe_finalize e (handle_commitments m r)
      else if m.kind == "share"
      then (if m.to_index == r.cfg.index then maybe_finalize e (on_share e m r) else r)
      else if m.kind == "share_open"
      then maybe_finalize e (on_share_open e m r)
      else if m.kind == "ack"
      then maybe_finalize e (on_ack e m r)
      else if m.kind == "complaint"
      then maybe_finalize e (on_complaint e m r)
      else r

  -- The epoch of a later message is taken over first.
  unfoldable pub catch_up : Message → Runner S → Runner S
  catch_up m r = if ltb r.epoch m.epoch then bump_epoch e m.epoch r else r

  unfoldable pub take : Message → Runner S → Runner S
  unfolding dispatch
  take m r = if m.epoch == r.epoch then dispatch m r else r

  unfoldable pub on_message : Message → Runner S → Runner S
  unfolding is_admitted catch_up take
  on_message m r = if is_admitted m r then take m (catch_up m r) else r

  -- What can happen to a node after its start; the argument of a retry is whether the epoch's time
  -- is over.
  unfoldable pub step : Runner S → Event → Runner S
  unfolding on_message
  step r (received m) = on_message m r
  step r (retried late) = retry e late r

  -- The node after a log of events, newest first.
  unfoldable pub run : Runner S → List Event → Runner S
  unfolding step
  run r [] = start e r
  run r (ev ∷ evs) = step (run r evs) ev
