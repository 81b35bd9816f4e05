-- ===== src/Tss/Dkg/Rules/Steps.antt =====
-- The induction over a run: what the rules, a new epoch and the end keep holds after every log.
use aequa_network.Base.{
  ℕ, ◌+◌, ◌%◌, ◌^◌, ◌<◌, ◌≡◌, refl, ap, sym, subst, Bool, true, false, ◌||◌, not, List, [], ◌∷◌,
  none, ◌==◌, nat_eq, string_eq, arith, Bool-cases, Option-cases, inl, inr, ltb, All, Values,
  lookup-Values, ◌⊎◌, lookup,
}
use aequa_network.Tss.Dkg.Runner.{Message, Crypto, Runner, reset_for_epoch}
use aequa_network.Tss.Dkg.Sending.{broadcast_commitments}
use aequa_network.Tss.Dkg.Epoch.{ensure_local_poly, bump_epoch, start, retry, resume, begin}
use aequa_network.Tss.Dkg.Finalize.{
  Pending, Verdict, wait, reshare, save, verdict, save_key_share, complete, maybe_finalize,
}
use aequa_network.Tss.Dkg.Handlers.{retry_share, retry_open, try_process_pending}
use aequa_network.Tss.Dkg.Dispatch.{
  Event, received, retried, is_admitted, handle_commitments, dispatch, catch_up, take, on_message,
  step, run,
}
use aequa_network.Tss.Dkg.Config.{Config}
use aequa_network.Tss.Dkg.Fresh.{IsFresh}
use aequa_network.Tss.Dkg.Core.{
  core, persist-core, broadcast_commitments-core, broadcast_missing_shares-core,
}
use aequa_network.Tss.Dkg.Rules.{Moves, stay, both}
use aequa_network.Tss.Dkg.Rules.Handlers.{
  on_commitments-Moves, on_share-Moves, on_share_open-Moves, on_ack-Moves, on_complaint-Moves,
}
use aequa_network.Tss.Dkg.Rules.Keep.{Waiting, Moves-Waiting}
use aequa_network.Tss.Dkg.Rules.Deal.{
  Deal, idle, dealt, ensure_local_poly-Deal, bump_epoch-cases, Deal-core,
}

module _ {S P : Type 0} (e : Crypto S P) where
  begin-Deal : (r : Runner S) → Deal e (resume e r) (begin e r)
  unfolding begin
  begin-Deal r = elim (Bool-cases (ensure_local_poly e (resume e r)).1) [
    | inl k ↦
        rw (k, begin)
          (Deal-core e (broadcast_commitments-core e _) (ensure_local_poly-Deal e (resume e r)))
    | inr k ↦ rw (k, begin) (ensure_local_poly-Deal e (resume e r))
  ]

  resume-fresh : (r : Runner S) → r.saved ≡ none → resume e r ≡ r
  unfolding resume
  resume-fresh r k = ground arith

  -- A start with empty stores deals, or does nothing.
  pub start-Deal : (r : Runner S) → r.key_share ≡ none → r.saved ≡ none → Deal e r (start e r)
  unfolding start
  start-Deal r h k =
      let opened : start e r ≡ begin e r = ground arith in
      subst (Deal e r) (sym opened)
        (subst (λ x. Deal e x (begin e r)) (resume-fresh r k) (begin-Deal r))

  -- A round of the retry loop does nothing, moves to the next epoch, or only broadcasts.
  retry-cases :
      (late : Bool) (r : Runner S)
      → (retry e late r ≡ r)
        ⊎ (retry e late r ≡ bump_epoch e ((r.epoch + 1) % 2 ^ 64) r)
        ⊎ ((r.done ≡ false) × (core (retry e late r) ≡ core r))
  unfolding retry
  retry-cases late r = ground (
    arith,
    broadcast_missing_shares-core e (broadcast_commitments e r),
    broadcast_commitments-core e r,
  )

  module _ (Heard : ℕ → Type 0) where
    retry_share-Moves :
        (d : ℕ) (r : Runner S) → Waiting e Heard r → Moves e Heard r (retry_share e d r)
    unfolding retry_share
    retry_share-Moves d r w = elim (Option-cases (lookup d r.pending_share)) [
      | inl k ↦ rw (k, retry_share) (stay refl)
      | inr (m, k) ↦
          rw (k, retry_share)
            (on_share-Moves e Heard m r (lookup-Values (λ x. Heard x.from_index) d m _ w.0 k))
    ]

    retry_open-Moves :
        (d : ℕ) (r : Runner S) → Waiting e Heard r → Moves e Heard r (retry_open e d r)
    unfolding retry_open
    retry_open-Moves d r w = elim (Option-cases (lookup d r.pending_open)) [
      | inl k ↦ rw (k, retry_open) (stay refl)
      | inr (m, k) ↦
          rw (k, retry_open)
            (on_share_open-Moves e Heard m r (lookup-Values (λ x. Heard x.from_index) d m _ w.1 k))
    ]

    pub handle_commitments-Moves :
        (m : Message) (r : Runner S)
        → Heard m.from_index
        → Waiting e Heard r
        → Moves e Heard r (handle_commitments e m r)
    unfolding handle_commitments try_process_pending
    handle_commitments-Moves m r h w =
        let first = on_commitments-Moves e Heard m r h in
        let second = retry_share-Moves m.from_index _ (Moves-Waiting e Heard first w) in
        let third =
          retry_open-Moves m.from_index _
            (Moves-Waiting e Heard second (Moves-Waiting e Heard first w)) in
        both first (both second (both third (stay (broadcast_missing_shares-core e _))))

    -- An event of a dealer that the node hears.
    abbrev pub HeardEvent : Event → Type 0
    HeardEvent (received m) = Heard m.from_index
    HeardEvent (retried late) = Unit

    module _ (Q : Runner S → Type 0)
        (moves : (r s : Runner S) → r.done ≡ false → Moves e Heard r s → Q r → Q s)
        (deals : (n : ℕ) (r s : Runner S)
          → r.done ≡ false
          → r.epoch < n
          → Deal e (reset_for_epoch n r) s
          → Q r
          → Q s)
        (finish : (p : Pending) (r : Runner S)
          → verdict e r ≡ save p
          → Q r
          → Q (complete e p (save_key_share p r))) where
      abbrev pub Kept : Runner S → Type 0
      Kept r = Q r × Waiting e Heard r

      Moves-Kept : (r s : Runner S) → r.done ≡ false → Moves e Heard r s → Kept r → Kept s
      Moves-Kept r s h ms (q, w) = (moves r s h ms q, Moves-Waiting e Heard ms w)

      Deal-Waiting : {r s : Runner S} → Deal e r s → Waiting e Heard r → Waiting e Heard s
      Deal-Waiting (idle k) w = subst (Waiting e Heard) (sym k) w
      Deal-Waiting (dealt _ _ _ _ _ k) w = subst (Waiting e Heard) (sym k) w

      reset-Waiting : (n : ℕ) (r : Runner S) → Waiting e Heard (reset_for_epoch n r)
      unfolding reset_for_epoch
      reset-Waiting n r = (tt, tt)

      bump_epoch-Kept : (n : ℕ) (r : Runner S) → Kept r → Kept (bump_epoch e n r)
      bump_epoch-Kept n r (q, w) = elim (bump_epoch-cases e n r) [
        | inl (_, same) ↦ rw same (q, w)
        | inr (k, d) ↦ (
          deals n r _ (ground (arith, k)) (ground (arith, k)) d q,
          Deal-Waiting d (reset-Waiting n r),
        )
      ]

      complete-Waiting :
          (p : Pending) (r : Runner S)
          → Waiting e Heard r
          → Waiting e Heard (complete e p (save_key_share p r))
      unfolding complete save_key_share
      complete-Waiting p r w = elim (Bool-cases (r.done || not (r.epoch == p.epoch))) [
        | inl k ↦ rw k w
        | inr k ↦ rw k (subst (Waiting e Heard) (sym (persist-core e _)) w)
      ]

      finalize-Kept : (r : Runner S) → Kept r → Kept (maybe_finalize e r)
      unfolding maybe_finalize
      finalize-Kept r (q, w) = by_verdict (verdict e r) refl
        where
          by_verdict : (v : Verdict) → verdict e r ≡ v → Kept (maybe_finalize e r)
          by_verdict wait h = rw (h, maybe_finalize) (q, w)
          by_verdict reshare h = rw (h, maybe_finalize) (bump_epoch-Kept _ r (q, w))
          by_verdict (save p) h = rw (h, maybe_finalize) (finish p r h q, complete-Waiting p r w)

      then-Kept :
          (r s : Runner S) → r.done ≡ false → Kept r → Moves e Heard r s → Kept (maybe_finalize e s)
      then-Kept r s h k ms = finalize-Kept s (Moves-Kept r s h ms k)

      dispatch-Kept :
          (m : Message) (r : Runner S)
          → Heard m.from_index
          → r.done ≡ false
          → Kept r
          → Kept (dispatch e m r)
      unfolding dispatch
      dispatch-Kept m r h live k = elim (Bool-cases (m.kind == "commitments")) [
        | inl c ↦ rw c (then-Kept r _ live k (handle_commitments-Moves m r h k.1))
        | inr c ↦ elim (Bool-cases (m.kind == "share")) [
          | inl s ↦ elim (Bool-cases (m.to_index == r.cfg.index)) [
            | inl own ↦ rw (c, s, own) (then-Kept r _ live k (on_share-Moves e Heard m r h))
            | inr other ↦ rw (c, s, other) k
          ]
          | inr s ↦ elim (Bool-cases (m.kind == "share_open")) [
            | inl o ↦ rw (c, s, o) (then-Kept r _ live k (on_share_open-Moves e Heard m r h))
            | inr o ↦ elim (Bool-cases (m.kind == "ack")) [
              | inl a ↦ rw (c, s, o, a) (then-Kept r _ live k (on_ack-Moves e Heard m r))
              | inr a ↦ elim (Bool-cases (m.kind == "complaint")) [
                | inl l ↦ rw (c, s, o, a, l) (then-Kept r _ live k (on_complaint-Moves e Heard m r))
                | inr l ↦ rw (c, s, o, a, l) k
              ]
            ]
          ]
        ]
      ]

      -- Taking over a later epoch leaves a live node live.
      bump_epoch-live : (n : ℕ) (r : Runner S) → r.done ≡ false → (bump_epoch e n r).done ≡ false
      unfolding reset_for_epoch
      bump_epoch-live n r h = elim (bump_epoch-cases e n r) [
        | inl (_, same) ↦ rw same h
        | inr (_, idle k) ↦ ap (λ x. x.done) k
        | inr (_, dealt _ _ _ _ _ k) ↦ ap (λ x. x.done) k
      ]

      live-of_admitted : (m : Message) (r : Runner S) → is_admitted e m r ≡ true → r.done ≡ false
      unfolding is_admitted
      live-of_admitted m r h = ground arith

      take-Kept :
          (m : Message) (r : Runner S)
          → Heard m.from_index
          → r.done ≡ false
          → Kept r
          → Kept (take e m r)
      unfolding take
      take-Kept m r h live k = elim (Bool-cases (m.epoch == r.epoch)) [
        | inl same ↦ rw same (dispatch-Kept m r h live k)
        | inr other ↦ rw other k
      ]

      pub on_message-Kept :
          (m : Message) (r : Runner S) → Heard m.from_index → Kept r → Kept (on_message e m r)
      unfolding on_message catch_up
      on_message-Kept m r h k = elim (Bool-cases (is_admitted e m r)) [
        | inr refused ↦ rw refused k
        | inl admitted ↦
            let live = live-of_admitted m r admitted in
            elim (Bool-cases (ltb r.epoch m.epoch)) [
              | inl later ↦
                  rw (admitted, later)
                    (take-Kept m _ h (bump_epoch-live m.epoch r live) (bump_epoch-Kept m.epoch r k))
              | inr now ↦ rw (admitted, now) (take-Kept m r h live k)
            ]
      ]

      pub retry-Kept : (late : Bool) (r : Runner S) → Kept r → Kept (retry e late r)
      retry-Kept late r k = elim (retry-cases late r) [
        | inl same ↦ subst Kept (sym same) k
        | inr (inl bumped) ↦ subst Kept (sym bumped) (bump_epoch-Kept _ r k)
        | inr (inr (live, quiet)) ↦ Moves-Kept r _ live (stay quiet) k
      ]

      fresh-Waiting : (c : Config) (r : Runner S) → IsFresh c r → Waiting e Heard r
      fresh-Waiting c r f = (
        subst (Values (λ m. Heard m.from_index)) (sym f.unheard) tt,
        subst (Values (λ m. Heard m.from_index)) (sym f.unopened) tt,
      )

      -- After every log of events of dealers that the node hears, from a start with empty stores.
      pub run-Kept :
          (c : Config) (r : Runner S)
          → IsFresh c r
          → ((s : Runner S) → Deal e r s → Q s)
          → (log : List Event) → All (HeardEvent) log
          → Kept (run e r log)
      unfolding run step
      run-Kept c r f base [] _ =
          let d = start-Deal r f.keyless f.unsaved in
          (base (start e r) d, Deal-Waiting d (fresh-Waiting c r f))
      run-Kept c r f base (received m ∷ log) heard =
          on_message-Kept m _ heard.0 (run-Kept c r f base log heard.1)
      run-Kept c r f base (retried late ∷ log) heard =
          retry-Kept late _ (run-Kept c r f base log heard.1)
