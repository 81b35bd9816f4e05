-- ===== src/Tss/Dkg/Rules/Handlers.antt =====
-- Each handler is a sequence of the rules.
use aequa_network.Base.{
  ℕ, ◌≡◌, refl, subst, true, ◌||◌, not, ◌∷◌, Option, none, some, ◌==◌, nat_eq, string_eq, length,
  ltb, contains, lookup, insert, remove_key, Bool-cases, Option-cases, inl, inr,
}
use aequa_network.Tss.Dkg.Feldman.{is_empty}
use aequa_network.Tss.Dkg.Runner.{Message, Crypto, Runner, persist, entries_of, note, clear}
use aequa_network.Tss.Dkg.Sending.{derive_share_key, broadcast_ack, broadcast_complaint}
use aequa_network.Tss.Dkg.Handlers.{
  disqualify_dealer, expel, are_points, on_commitments, fits, accept_share, judge_share, on_share,
  on_ack, on_complaint, resolve, judge_open, on_share_open,
}
use aequa_network.Tss.Dkg.Core.{
  persist-core, broadcast_share_open-core, broadcast_ack-core, broadcast_complaint-core,
}
use aequa_network.Tss.Dkg.Rules.{
  gossip, hold_share, hold_open, let_go, let_open_go, disqualify, commit, accept, Moves, stay, one,
  both,
}

module _ {S P : Type 0} (e : Crypto S P) (Heard : ℕ → Type 0) where
  expel-Moves : (d : ℕ) (r : Runner S) → Heard d → Moves e Heard r (expel e d r)
  unfolding expel disqualify_dealer
  expel-Moves d r h = elim (Bool-cases ((d == 0) || contains r.bad_dealers d)) [
    | inl k ↦ stay (rw k (persist-core e r))
    | inr k ↦ rw k (
        both (one (disqualify {s = record r { bad_dealers = d ∷ r.bad_dealers }} d h refl))
          (one (gossip r.acks (remove_key d r.complaints) (persist-core e _))))
  ]

  pub on_ack-Moves : (m : Message) (r : Runner S) → Moves e Heard r (on_ack e m r)
  unfolding on_ack
  on_ack-Moves m r =
      elim (Bool-cases
        ((m.to_index == 0) || ltb r.cfg.n m.to_index || contains r.bad_dealers m.to_index)) [
          | inl k ↦ stay (rw k refl)
          | inr k ↦ rw k (one (gossip _ _ (persist-core e _)))
        ]

  pub on_complaint-Moves : (m : Message) (r : Runner S) → Moves e Heard r (on_complaint e m r)
  unfolding on_complaint
  on_complaint-Moves m r = elim (Bool-cases ((m.to_index == 0) || ltb r.cfg.n m.to_index)) [
    | inl k ↦ stay (rw k refl)
    | inr k ↦ elim (Bool-cases (m.to_index == r.cfg.index)) [
      | inl own ↦ stay (rw (k, own) (broadcast_share_open-core e m.from_index r))
      | inr other ↦ elim (Bool-cases (contains r.bad_dealers m.to_index)) [
        | inl bad ↦ stay (rw (k, other, bad) refl)
        | inr good ↦ rw (k, other, good) (one (gossip _ _ (persist-core e _)))
      ]
    ]
  ]

  pub on_commitments-Moves :
      (m : Message) (r : Runner S) → Heard m.from_index → Moves e Heard r (on_commitments e m r)
  unfolding on_commitments
  on_commitments-Moves m r h = elim (Bool-cases (is_empty m.commitments)) [
    | inl k ↦ stay (rw k refl)
    | inr filled ↦
        elim (Bool-cases
          (not (length m.commitments == r.cfg.threshold) || not (are_points e m.commitments))) [
            | inl bad ↦ rw (filled, bad) (expel-Moves m.from_index r h)
            | inr well ↦ elim (Bool-cases (contains r.bad_dealers m.from_index)) [
              | inl bad ↦ stay (rw (filled, well, bad) refl)
              | inr good ↦ elim (Option-cases (lookup m.from_index r.commitments)) [
                | inl new ↦
                    rw (filled, well, good, new)
                      (one (commit m.from_index m.commitments h new filled (persist-core e _)))
                | inr (old, known) ↦ stay (rw (filled, well, good, known) refl)
              ]
            ]
          ]
  ]

  -- A save and an acknowledgement after a change are one more rule.
  broadcast_ack-Moves : (d : ℕ) (r : Runner S) → Moves e Heard r (broadcast_ack e d r)
  broadcast_ack-Moves d r = one (
      gossip (note d r.cfg.index r.acks) (clear d r.cfg.index r.complaints)
        (broadcast_ack-core e d r))

  complain-Moves : (d : ℕ) (r : Runner S) → Moves e Heard r (broadcast_complaint e d r)
  complain-Moves d r =
      one (gossip r.acks (note d r.cfg.index r.complaints) (broadcast_complaint-core e d r))

  module _ (m : Message) (r : Runner S) (h : Heard m.from_index) where
    accept_share-Moves :
        (s : S)
        → lookup m.from_index r.shares ≡ none
        → fits e s r.cfg.index (entries_of m.from_index r.commitments) ≡ true
        → Moves e Heard r (accept_share e m s r)
    unfolding accept_share
    accept_share-Moves s new fit =
        let dropped : Runner S = record r {
          pending_share = remove_key m.from_index r.pending_share;
        } in
        let held : Runner S = record dropped { shares = insert m.from_index s r.shares } in
        both (one (let_go {s = dropped} m.from_index refl)) (
          both (one (accept {s = persist e held} m.from_index s h new fit (persist-core e held)))
            (broadcast_ack-Moves m.from_index (persist e held)))

    judge_share-Moves :
        (o : Option S)
        → lookup m.from_index r.shares ≡ none
        → Moves e Heard r (judge_share e m (entries_of m.from_index r.commitments) o r)
    unfolding judge_share
    judge_share-Moves none new = complain-Moves m.from_index r
    judge_share-Moves (some s) new =
        elim (Bool-cases (fits e s r.cfg.index (entries_of m.from_index r.commitments))) [
          | inl fit ↦ rw fit (accept_share-Moves s new fit)
          | inr unfit ↦ rw unfit (complain-Moves m.from_index r)
        ]

    pub on_share-Moves : Moves e Heard r (on_share e m r)
    unfolding on_share
    on_share-Moves = elim (Bool-cases (contains r.bad_dealers m.from_index)) [
      | inl bad ↦ stay (rw bad refl)
      | inr good ↦ elim (Bool-cases (is_empty (entries_of m.from_index r.commitments))) [
        | inl early ↦ rw (good, early) (one (hold_share m.from_index m h refl))
        | inr late ↦ elim (Option-cases (lookup m.from_index r.shares)) [
          | inr (s, known) ↦ stay (rw (good, late, known) refl)
          | inl new ↦ elim (Option-cases (derive_share_key e r m.from_index r.cfg.index)) [
            | inl keyless ↦ stay (rw (good, late, new, keyless) refl)
            | inr (key, keyed) ↦ rw (good, late, new, keyed) (judge_share-Moves _ new)
          ]
        ]
      ]
    ]

    resolve-Moves :
        (s : S)
        → fits e s m.to_index (entries_of m.from_index r.commitments) ≡ true
        → Moves e Heard r (resolve e m s r)
    unfolding resolve
    resolve-Moves s fit =
        let dropped : Runner S = record r {
          pending_open = remove_key m.from_index r.pending_open;
        } in
        let cleared : Runner S = record dropped {
          complaints = clear m.from_index m.to_index r.complaints;
        } in
        let held : Runner S = record cleared { shares = insert m.from_index s r.shares } in
        let settled : Moves e Heard r cleared =
          both (one (let_open_go {s = dropped} m.from_index refl))
            (one (gossip r.acks cleared.complaints refl)) in
        elim (Bool-cases (m.to_index == r.cfg.index)) [
          | inr other ↦ rw other (both settled (stay (persist-core e cleared)))
          | inl own ↦ elim (Option-cases (lookup m.from_index r.shares)) [
            | inr (old, known) ↦
                rw (own, known)
                  (both settled (
                    both (stay (persist-core e cleared))
                      (broadcast_ack-Moves m.from_index (persist e cleared))))
            | inl new ↦
                rw (own, new)
                  (both settled (
                    both
                      (one (
                        accept {s = persist e held} m.from_index s h new
                          (subst (λ x. fits e s x (entries_of m.from_index r.commitments) ≡ true)
                            ((nat_eq.same_iff m.to_index r.cfg.index).0 own) fit)
                          (persist-core e held)))
                      (broadcast_ack-Moves m.from_index (persist e held))))
          ]
        ]

    judge_open-Moves :
        (o : Option S)
        → Moves e Heard r (judge_open e m (entries_of m.from_index r.commitments) o r)
    unfolding judge_open
    judge_open-Moves none = expel-Moves m.from_index r h
    judge_open-Moves (some s) =
        elim (Bool-cases (fits e s m.to_index (entries_of m.from_index r.commitments))) [
          | inl fit ↦ rw fit (resolve-Moves s fit)
          | inr unfit ↦ rw unfit (expel-Moves m.from_index r h)
        ]

    pub on_share_open-Moves : Moves e Heard r (on_share_open e m r)
    unfolding on_share_open
    on_share_open-Moves = elim (Bool-cases ((m.to_index == 0) || ltb r.cfg.n m.to_index)) [
      | inl k ↦ stay (rw k refl)
      | inr k ↦ elim (Bool-cases (not (length m.share == 32))) [
        | inl long ↦ rw (k, long) (expel-Moves m.from_index r h)
        | inr fine ↦ elim (Bool-cases (contains r.bad_dealers m.from_index)) [
          | inl bad ↦ stay (rw (k, fine, bad) refl)
          | inr good ↦ elim (Bool-cases (is_empty (entries_of m.from_index r.commitments))) [
            | inl early ↦ rw (k, fine, good, early) (one (hold_open m.from_index m h refl))
            | inr late ↦ rw (k, fine, good, late) (judge_open-Moves (e.curve.deserialize m.share))
          ]
        ]
      ]
    ]
