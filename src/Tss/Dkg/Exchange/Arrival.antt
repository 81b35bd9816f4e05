-- ===== src/Tss/Dkg/Exchange/Arrival.antt =====
-- From the dealer's share message to the receiver's share.
use aequa_network.Base.{
  ◌≡◌, ◌≢◌, ◌∙◌, ap, sym, subst, true, false, List, [], ◌∷◌, none, some, nat_eq, arith, lookup,
  contains,
}
use mathlib.Core.Path.{ap₂}
use aequa_network.Tss.Dkg.Curve.{Bytes, IsGroup, zeros}
use aequa_network.Tss.Dkg.Feldman.{ok, is_empty, eval_poly_at, commitments_from_poly}
use aequa_network.Tss.Dkg.Config.{Member}
use aequa_network.Tss.Dkg.Runner.{Message, Crypto, Runner, entries_of}
use aequa_network.Tss.Dkg.Sending.{send_share, decrypt_share}
use aequa_network.Tss.Dkg.Handlers.{on_share}
use aequa_network.Tss.Dkg.Sound.{fits-own}
use aequa_network.Tss.Dkg.Exchange.{
  IsSealed, IsPaired, decrypt-encrypt, send_share-fields, derive_share_key-agree,
  accept_share-shares, on_share-accepts,
}

module _ {S P : Type 0} (e : Crypto S P) where
  commitments-nonempty :
      (coeffs : List S) (points : List Bytes)
      → commitments_from_poly e.curve coeffs ≡ ok points
      → is_empty points ≡ false
  unfolding commitments_from_poly
  commitments-nonempty [] points h = absurd (ground arith)
  commitments-nonempty (a ∷ coeffs) points h = ground (arith, h)

  -- The share message that a dealer sends to a member with whom it is paired is accepted there: if
  -- the member holds the dealer's commitments, has not disqualified the dealer and has no share of
  -- it, and the value of the dealer's polynomial at its own index is not zero, then after the message
  -- it holds that value, and its acknowledgement of the dealer is on record. This rests on the group
  -- laws and on sealed data and serialized scalars other than zero being read back.
  pub sent_share_arrives :
      IsGroup e.curve
      → IsSealed e
      → (dealer receiver : Runner S) (m n : Member) (z : Bytes) → IsPaired e dealer receiver m n z
      → (points : List Bytes) (share : S) (signed : Message)
      → commitments_from_poly e.curve dealer.coeffs ≡ ok points
      → eval_poly_at e.curve dealer.coeffs receiver.cfg.index ≡ ok share
      → share ≢ e.curve.from_bendian (zeros 32)
      → (send_share e dealer.coeffs receiver.cfg.index dealer).sent ≡ signed ∷ dealer.sent
      → entries_of dealer.cfg.index receiver.commitments ≡ points
      → contains receiver.bad_dealers dealer.cfg.index ≡ false
      → lookup dealer.cfg.index receiver.shares ≡ none
      → (lookup dealer.cfg.index (on_share e signed receiver).shares ≡ some share)
        × (contains
              (entries_of dealer.cfg.index (on_share e signed receiver).acks)
              receiver.cfg.index
            ≡ true)
  sent_share_arrives g q dealer receiver m n z w points share signed c v nonzero sent known good
        new =
      let (key, nonce, ct, keyed, sealed, whose, nonced, coded) =
        send_share-fields e dealer dealer.coeffs receiver.cfg.index share signed v sent in
      let opened = decrypt-encrypt e q key (e.curve.serialize share) nonce ct dealer.draws sealed in
      let accepted =
        on_share-accepts e signed receiver dealer.cfg.index points key (e.curve.serialize share)
          share whose good known (commitments-nonempty dealer.coeffs points c) new
          (sym (derive_share_key-agree e dealer receiver m n z w) ∙ keyed)
          (ap₂ (decrypt_share e key) nonced coded ∙ opened) (q.short share) (q.read share nonzero)
          (fits-own e g dealer.coeffs points receiver.cfg.index share c v) in
      let (held, acked) = accept_share-shares e signed share receiver in
      subst
        (λ d.
          (lookup d (on_share e signed receiver).shares ≡ some share)
          × (contains (entries_of d (on_share e signed receiver).acks) receiver.cfg.index ≡ true))
        whose
        (
          ap (λ x. lookup signed.from_index x.shares) accepted ∙ held,
          ap (λ x. contains (entries_of signed.from_index x.acks) receiver.cfg.index) accepted
              ∙ acked,
        )
