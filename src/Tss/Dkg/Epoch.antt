-- ===== src/Tss/Dkg/Epoch.antt =====
-- internal/tss/dkg/beast_runner_blst.go: the local polynomial, the start, and the move to another
-- epoch.
use aequa_network.Base.{
  ℕ, zero, suc, ◌+◌, ◌%◌, ◌^◌, Bool, true, false, ◌||◌, ◌&&◌, not, List, [], ◌∷◌, Option, none,
  some, ◌==◌, string_eq, nat_eq, if◌then◌else◌, length, leb, insert,
}
use aequa_network.Tss.Dkg.Feldman.{is_empty, eval_poly_at, commitments_from_poly, ok, err}
use aequa_network.Tss.Dkg.Runner.{Crypto, Runner, persist, KeyShare, restore, reset_for_epoch}
use aequa_network.Tss.Dkg.Sending.{broadcast_commitments, broadcast_missing_shares}

module _ {S P : Type 0} (e : Crypto S P) where
  -- `count` calls of `randScalar`, the first of them the draw `start`.
  unfoldable pub draw_scalars : ℕ → ℕ → Option (List S)
  draw_scalars zero start = some []
  draw_scalars (suc count) start = elim (e.rand_scalar start) [
    | none ↦ none
    | some s ↦ elim (draw_scalars count (start + 1)) [ none ↦ none | some rest ↦ some (s ∷ rest) ]
  ]

  -- The polynomial, its commitments and the node's own share of it; and whether all went well.
  unfoldable pub deal : List S → Runner S → Runner S × Bool
  deal coeffs r = elim (commitments_from_poly e.curve coeffs) [
    | err _ ↦ (r, false)
    | ok points ↦ elim (eval_poly_at e.curve coeffs r.cfg.index) [
      | err _ ↦ (r, false)
      | ok share ↦ (
        persist e (record r {
          coeffs = coeffs;
          self_commitments = points;
          commitments = insert r.cfg.index points r.commitments;
          shares = insert r.cfg.index share r.shares;
        }),
        true,
      )
    ]
  ]

  -- The runner, and whether the code returns nil.
  unfoldable pub ensure_local_poly : Runner S → Runner S × Bool
  unfolding draw_scalars deal
  ensure_local_poly r =
      if not (is_empty r.coeffs) && not (is_empty r.self_commitments)
      then (r, true)
      else if not (length r.cfg.sig_priv == 64) || not (length r.cfg.enc_priv == 32)
      then (r, false)
      else let drawn = record r { draws = r.draws + r.cfg.threshold } in
        elim (draw_scalars r.cfg.threshold r.draws) [
          | none ↦ (drawn, false)
          | some coeffs ↦ deal coeffs drawn
        ]

  unfoldable pub bump_epoch : ℕ → Runner S → Runner S
  unfolding ensure_local_poly
  bump_epoch epoch r =
      if (epoch == 0) || r.done || leb epoch r.epoch
      then r
      else broadcast_commitments e (ensure_local_poly (persist e (reset_for_epoch epoch r))).0

  unfoldable pub resume : Runner S → Runner S
  resume r =
      if r.cfg.session_dir == "" then r else elim r.saved [ none ↦ r | some st ↦ restore e st r ]

  unfoldable pub finished : KeyShare → Runner S → Runner S
  finished k r = record r {
    done = true;
    result = record {
      index = r.cfg.index;
      threshold = r.cfg.threshold;
      group_pub_key = k.public_key;
      share_scalar = k.private_key;
    };
  }

  unfoldable pub begin : Runner S → Runner S
  unfolding ensure_local_poly resume
  begin r =
      let (r', fine) = ensure_local_poly (resume r) in
      if fine then broadcast_commitments e r' else r'

  -- `Start`, up to the retry loop.
  unfoldable pub start : Runner S → Runner S
  unfolding begin finished
  start r = elim r.key_share [
    | none ↦ begin r
    | some k ↦ if length k.private_key == 32 then finished k r else begin r
  ]

  -- One round of `retryLoop`; `late` is whether the time of the epoch is over.
  unfoldable pub retry : Bool → Runner S → Runner S
  retry late r =
      if r.done
      then r
      else if late
      then bump_epoch ((r.epoch + 1) % 2 ^ 64) r
      else broadcast_missing_shares e (broadcast_commitments e r)
