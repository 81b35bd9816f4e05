-- ===== src/Tss/Dkg/Handlers.antt =====
-- internal/tss/dkg/beast_runner_blst.go: one function for each kind of message.
use aequa_network.Base.{
  ℕ, Bool, true, false, ◌||◌, ◌&&◌, not, List, [], ◌∷◌, Option, none, some, ◌==◌, nat_eq,
  if◌then◌else◌, length, ltb, contains, lookup, insert, remove_key,
}
use aequa_network.Tss.Dkg.Curve.{Bytes}
use aequa_network.Tss.Dkg.Feldman.{is_empty, verify_feldman_share, ok, err}
use aequa_network.Tss.Dkg.Runner.{Message, Crypto, Runner, persist, entries_of, note, clear}
use aequa_network.Tss.Dkg.Sending.{
  derive_share_key, decrypt_share, broadcast_ack, broadcast_complaint, broadcast_share_open,
}

module _ {S P : Type 0} (e : Crypto S P) where
  unfoldable pub disqualify_dealer : ℕ → Runner S → Runner S
  disqualify_dealer dealer r =
      if (dealer == 0) || contains r.bad_dealers dealer then r else record r {
        bad_dealers = dealer ∷ r.bad_dealers;
        complaints = remove_key dealer r.complaints;
      }

  -- `disqualifyDealerLocked`, then `persistLocked`.
  unfoldable pub expel : ℕ → Runner S → Runner S
  unfolding disqualify_dealer
  expel dealer r = persist e (disqualify_dealer dealer r)

  -- Every commitment is 48 bytes that stand for a point.
  unfoldable pub are_points : List Bytes → Bool
  are_points [] = true
  are_points (b ∷ bs) =
      (length b == 48)
      && elim (e.curve.uncompress b) [ none ↦ false | some _ ↦ true ]
      && are_points bs

  unfoldable pub on_commitments : Message → Runner S → Runner S
  unfolding expel are_points
  on_commitments m r =
      if is_empty m.commitments
      then r
      else if not (length m.commitments == r.cfg.threshold) || not (are_points m.commitments)
      then expel m.from_index r
      else if contains r.bad_dealers m.from_index
      then r
      else elim (lookup m.from_index r.commitments) [
        | some _ ↦ r
        | none ↦
            persist e (record r { commitments = insert m.from_index m.commitments r.commitments })
      ]

  -- Whether a scalar is this index's share of the committed polynomial.
  abbrev pub fits : S → ℕ → List Bytes → Bool
  fits s x points = elim (verify_feldman_share e.curve s x points) [ ok b ↦ b | err _ ↦ false ]

  -- The scalar that a decrypted share holds; `none` where the code complains.
  unfoldable pub open_share : Option Bytes → Option S
  open_share none = none
  open_share (some pt) = if length pt == 32 then e.curve.deserialize pt else none

  unfoldable pub accept_share : Message → S → Runner S → Runner S
  accept_share m s r = broadcast_ack e m.from_index (
      persist e (record r {
        pending_share = remove_key m.from_index r.pending_share;
        shares = insert m.from_index s r.shares;
      }))

  unfoldable pub judge_share : Message → List Bytes → Option S → Runner S → Runner S
  unfolding accept_share
  judge_share m points none r = broadcast_complaint e m.from_index r
  judge_share m points (some s) r =
      if fits s r.cfg.index points then accept_share m s r else broadcast_complaint e m.from_index r

  unfoldable pub on_share : Message → Runner S → Runner S
  unfolding judge_share open_share
  on_share m r =
      let points = entries_of m.from_index r.commitments in
      if contains r.bad_dealers m.from_index
      then r
      else if is_empty points
      then record r { pending_share = insert m.from_index m r.pending_share }
      else elim (lookup m.from_index r.shares) [
        | some _ ↦ r
        | none ↦ elim (derive_share_key e r m.from_index r.cfg.index) [
          | none ↦ r
          | some key ↦
              judge_share m points (open_share (decrypt_share e key m.nonce m.ciphertext)) r
        ]
      ]

  unfoldable pub on_ack : Message → Runner S → Runner S
  on_ack m r =
      if (m.to_index == 0) || ltb r.cfg.n m.to_index || contains r.bad_dealers m.to_index
      then r
      else persist e (record r {
        acks = note m.to_index m.from_index r.acks;
        complaints = clear m.to_index m.from_index r.complaints;
      })

  unfoldable pub on_complaint : Message → Runner S → Runner S
  on_complaint m r =
      if (m.to_index == 0) || ltb r.cfg.n m.to_index
      then r
      else if m.to_index == r.cfg.index
      then broadcast_share_open e m.from_index r
      else if contains r.bad_dealers m.to_index
      then r
      else persist e (record r { complaints = note m.to_index m.from_index r.complaints })

  -- An opened share that fits resolves the complaint of its receiver.
  unfoldable pub resolve : Message → S → Runner S → Runner S
  resolve m s r =
      let cleared = record r {
        pending_open = remove_key m.from_index r.pending_open;
        complaints = clear m.from_index m.to_index r.complaints;
      } in
      if m.to_index == r.cfg.index
      then broadcast_ack e m.from_index (
          persist e (elim (lookup m.from_index r.shares) [
            | some _ ↦ cleared
            | none ↦ record cleared { shares = insert m.from_index s r.shares }
          ]))
      else persist e cleared

  unfoldable pub judge_open : Message → List Bytes → Option S → Runner S → Runner S
  unfolding expel resolve
  judge_open m points none r = expel m.from_index r
  judge_open m points (some s) r =
      if fits s m.to_index points then resolve m s r else expel m.from_index r

  unfoldable pub on_share_open : Message → Runner S → Runner S
  unfolding expel judge_open
  on_share_open m r =
      let points = entries_of m.from_index r.commitments in
      if (m.to_index == 0) || ltb r.cfg.n m.to_index
      then r
      else if not (length m.share == 32)
      then expel m.from_index r
      else if contains r.bad_dealers m.from_index
      then r
      else if is_empty points
      then record r { pending_open = insert m.from_index m r.pending_open }
      else judge_open m points (e.curve.deserialize m.share) r

  unfoldable pub retry_share : ℕ → Runner S → Runner S
  unfolding on_share
  retry_share dealer r = elim (lookup dealer r.pending_share) [ none ↦ r | some m ↦ on_share m r ]

  unfoldable pub retry_open : ℕ → Runner S → Runner S
  unfolding on_share_open
  retry_open dealer r = elim (lookup dealer r.pending_open) [
    | none ↦ r
    | some m ↦ on_share_open m r
  ]

  -- A waiting share, then a waiting opened share of a dealer.
  unfoldable pub try_process_pending : ℕ → Runner S → Runner S
  unfolding retry_share retry_open
  try_process_pending dealer r = retry_open dealer (retry_share dealer r)
