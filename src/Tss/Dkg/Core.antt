-- ===== src/Tss/Dkg/Core.antt =====
-- What a save or a broadcast leaves alone: all but the session store, the messages and the draws.
use aequa_network.Base.{
  ℕ, ◌≡◌, refl, ◌∙◌, Bool, true, false, List, [], ◌∷◌, none, nat_eq, string_eq, if◌then◌else◌,
  arith,
}
use aequa_network.Tss.Dkg.Runner.{Message, Crypto, Runner, persist, entries_of, note, clear}
use aequa_network.Tss.Dkg.Sending.{
  send, broadcast_commitments, send_share, send_shares, broadcast_missing_shares, broadcast_ack,
  broadcast_complaint, broadcast_share_open, seats,
}

module _ {S : Type 0} where
  abbrev pub core : Runner S → Runner S
  core r = record r { saved = none; sent = []; draws = 0 }

module _ {S P : Type 0} (e : Crypto S P) where
  pub persist-core : (r : Runner S) → core (persist e r) ≡ core r
  unfolding persist
  persist-core r = ground arith

  pub send-core : (m : Message) (r : Runner S) → core (send e m r) ≡ core r
  unfolding send
  send-core m r = ground arith

  pub broadcast_commitments-core : (r : Runner S) → core (broadcast_commitments e r) ≡ core r
  unfolding broadcast_commitments
  broadcast_commitments-core r = send-core _ r

  send_share-core :
      (coeffs : List S) (i : ℕ) (r : Runner S) → core (send_share e coeffs i r) ≡ core r
  unfolding send_share
  send_share-core coeffs i r = grind (arith, send-core)

  offer-core :
      (b : Bool) (coeffs : List S) (i : ℕ) (r : Runner S)
      → core (if b then r else send_share e coeffs i r) ≡ core r
  offer-core true coeffs i r = refl
  offer-core false coeffs i r = send_share-core coeffs i r

  send_shares-core :
      (coeffs : List S) (acks is : List ℕ) (r : Runner S)
      → core (send_shares e coeffs acks is r) ≡ core r
  unfolding send_shares
  send_shares-core coeffs acks [] r = refl
  send_shares-core coeffs acks (i ∷ is) r =
      send_shares-core coeffs acks is _ ∙ offer-core _ coeffs i r

  pub broadcast_missing_shares-core : (r : Runner S) → core (broadcast_missing_shares e r) ≡ core r
  unfolding broadcast_missing_shares
  broadcast_missing_shares-core r =
      send_shares-core r.coeffs (entries_of r.cfg.index r.acks) (seats r.cfg.n) r

  pub broadcast_share_open-core :
      (to : ℕ) (r : Runner S) → core (broadcast_share_open e to r) ≡ core r
  unfolding broadcast_share_open
  broadcast_share_open-core to r = grind (arith, send-core)

  pub broadcast_ack-core :
      (dealer : ℕ) (r : Runner S)
      → core (broadcast_ack e dealer r)
        ≡ core (record r {
          acks = note dealer r.cfg.index r.acks;
          complaints = clear dealer r.cfg.index r.complaints;
        })
  unfolding broadcast_ack
  broadcast_ack-core dealer r = send-core _ _ ∙ persist-core _

  pub broadcast_complaint-core :
      (dealer : ℕ) (r : Runner S)
      → core (broadcast_complaint e dealer r)
        ≡ core (record r { complaints = note dealer r.cfg.index r.complaints })
  unfolding broadcast_complaint
  broadcast_complaint-core dealer r = send-core _ _ ∙ persist-core _
