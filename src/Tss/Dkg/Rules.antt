-- ===== src/Tss/Dkg/Rules.antt =====
-- What a message may do to the state of an epoch, as rules.
pub mod Handlers
pub mod Keep
pub mod Deal
pub mod Steps
use aequa_network.Base.{
  ℕ, zero, suc, ◌+◌, ◌≡◌, refl, ◌∙◌, ap, sym, subst, Bool, true, false, ◌||◌, ◌&&◌, not, List, [],
  ◌∷◌, Option, none, some, ◌==◌, nat_eq, string_eq, if◌then◌else◌, length, ltb, contains, lookup,
  insert, remove_key, arith, Bool-cases, Option-cases, inl, inr,
}
use aequa_network.Tss.Dkg.Curve.{Bytes, Curve}
use aequa_network.Tss.Dkg.Feldman.{is_empty, verify_feldman_share, Result, ok, err}
use aequa_network.Tss.Dkg.Runner.{Message, Crypto, Runner, persist, entries_of, note, clear}
use aequa_network.Tss.Dkg.Sending.{
  derive_share_key, decrypt_share, broadcast_ack, broadcast_complaint, broadcast_share_open,
}
use aequa_network.Tss.Dkg.Handlers.{
  disqualify_dealer, expel, are_points, on_commitments, fits, open_share, accept_share, judge_share,
  on_share, on_ack, on_complaint, resolve, judge_open, on_share_open, retry_share, retry_open,
  try_process_pending,
}
use aequa_network.Tss.Dkg.Core.{
  core, persist-core, broadcast_share_open-core, broadcast_ack-core, broadcast_complaint-core,
}

-- `Heard d` tells which dealers the node hears.
module _ {S P : Type 0} (e : Crypto S P) (Heard : ℕ → Type 0) where
  pub data Move : Runner S → Runner S → Type 0 where
    gossip :
        {r s : Runner S} (acks complaints : List (ℕ × List ℕ))
        → core s ≡ core (record r { acks = acks; complaints = complaints })
        → Move r s
    hold_share :
        {r s : Runner S} (d : ℕ) (m : Message)
        → Heard m.from_index
        → core s ≡ core (record r { pending_share = insert d m r.pending_share })
        → Move r s
    hold_open :
        {r s : Runner S} (d : ℕ) (m : Message)
        → Heard m.from_index
        → core s ≡ core (record r { pending_open = insert d m r.pending_open })
        → Move r s
    let_go :
        {r s : Runner S} (d : ℕ)
        → core s ≡ core (record r { pending_share = remove_key d r.pending_share })
        → Move r s
    let_open_go :
        {r s : Runner S} (d : ℕ)
        → core s ≡ core (record r { pending_open = remove_key d r.pending_open })
        → Move r s
    disqualify :
        {r s : Runner S} (d : ℕ)
        → Heard d
        → core s ≡ core (record r { bad_dealers = d ∷ r.bad_dealers })
        → Move r s
    commit :
        {r s : Runner S} (d : ℕ) (points : List Bytes)
        → Heard d
        → lookup d r.commitments ≡ none
        → is_empty points ≡ false
        → core s ≡ core (record r { commitments = insert d points r.commitments })
        → Move r s
    accept :
        {r s : Runner S} (d : ℕ) (share : S)
        → Heard d
        → lookup d r.shares ≡ none
        → fits e share r.cfg.index (entries_of d r.commitments) ≡ true
        → core s ≡ core (record r { shares = insert d share r.shares })
        → Move r s

  pub data Moves : Runner S → Runner S → Type 0 where
    stay : {r s : Runner S} → core s ≡ core r → Moves r s
    one : {r s : Runner S} → Move r s → Moves r s
    both : {r s t : Runner S} → Moves r s → Moves s t → Moves r t
