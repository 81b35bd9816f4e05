-- ===== src/Consensus/Guard.antt =====
-- Votes after a restart: the intent that the service recovers from its log.
use aequa_network.Base.{
  ◌≡◌, ◌<◌, ◌⊎◌, ◌∙◌, ap, subst, inl, inr, true, false, List, [], ◌∷◌, Option, none, some, nat_eq,
  arith, Bool-cases,
}
use aequa_network.Qbft.Message.{Message}
use aequa_network.Qbft.State.{process}
use aequa_network.Qbft.Verifier.{verify, Rejection}
use aequa_network.Payload.Types.{Digest, Payload}
use aequa_network.Payload.Container.{Container}
use aequa_network.Payload.Builder.{Env}
use aequa_network.Consensus.{
  Format, Event, transaction, carried, duty, Service, Intent, is_vote, intent_of, append_intent,
  append_to, last_intent, recover, build, process_allowed, dropped, older, after_verify,
  handle_message, duty_message, add_transaction, handle, handle_all,
}
use aequa_network.Consensus.Refinement.{SameNode, build-SameNode}

-- The coordinates of `v` lie before those of `m`.
abbrev pub Earlier : Message → Message → Type 0
Earlier v m = (v.height < m.height) ⊎ ((v.height ≡ m.height) × (v.round < m.round))

-- What a turn with the vote `v` makes of `s` when the log that was read ended with `m`.
abbrev pub Guarded : Service → Service → Message → Message → Type 0
Guarded s t v m =
    ((entries : List Intent) × (s.wal ≡ some entries) × (t.wal ≡ some (intent_of v ∷ entries)))
    × ((Earlier v m × (t.state ≡ s.state) × (t.store ≡ s.store))
        ⊎ (¬ Earlier v m
            × (t.state ≡ (process s.state v).state)
            × (t.store ≡ some (record { height = v.height; round = v.round }))))

Earlier-older : (v m : Message) → older v (intent_of m) ≡ true → Earlier v m
unfolding older
Earlier-older v m h = ground (arith, h)

older-Earlier : (v m : Message) → older v (intent_of m) ≡ false → ¬ Earlier v m
unfolding older
older-Earlier v m h e = ground (arith, h, e)

-- A log is there, and `i` is the intent that was read from it.
abbrev Guards : Intent → Service → Type 0
Guards i s = (entries : List Intent) × (s.last_wal ≡ some i) × (s.wal ≡ some entries)

append-some :
    (m : Message) (entries : List Intent)
    → (kept : List Intent) × (append_intent (some entries) m ≡ some kept)
unfolding append_intent append_to
append-some m entries = elim (Bool-cases (is_vote m.type)) [
  | inl k ↦ (intent_of m ∷ entries, ground (arith, k))
  | inr k ↦ (entries, ground (arith, k))
]

SameNode-Guards : (i : Intent) (s t : Service) → SameNode s t → Guards i s → Guards i t
SameNode-Guards i s t same (entries, l, w) = (entries, same.last_wal ∙ l, same.wal ∙ w)

allowed-Guards :
    (i : Intent) (s : Service) (m : Message) → Guards i s → Guards i (process_allowed s m)
unfolding process_allowed
allowed-Guards i s m g = elim (Bool-cases (dropped s.last_wal m)) [
  | inl k ↦ rw k g
  | inr k ↦ rw k g
]

module _ ⦃d : Digest⦄ where
  after_verify-Guards :
      (i : Intent) (s : Service) (env : Env) (m : Message) (r : Option Rejection)
      → Guards i s
      → Guards i (after_verify s env m r)
  unfolding after_verify
  after_verify-Guards i s env m (some e) g = g
  after_verify-Guards i s env m none (entries, l, w) =
      let (kept, k) = append-some m entries in
      let logged = record s { wal = append_intent s.wal m } in
      allowed-Guards i (build logged env m) m (
        SameNode-Guards i logged (build logged env m) (build-SameNode logged env m)
          (kept, l, ap (λ x. append_intent x m) w ∙ k))

  message-Guards :
      (i : Intent) (s : Service) (env : Env) (m : Message)
      → Guards i s
      → Guards i (handle_message s env m)
  unfolding handle_message
  message-Guards i s env m g =
      after_verify-Guards i (record s { verifier = (verify s.verifier m).0 }) env m
        (verify s.verifier m).1 g

  transaction-Guards :
      (i : Intent) (s : Service) (env : Env) (p : Payload) (r : Option Container)
      → Guards i s
      → Guards i (add_transaction s env p r)
  unfolding add_transaction
  transaction-Guards i s env p none g = g
  transaction-Guards i s env p (some c) g = g

  run-Guards :
      (i : Intent) (f : Format) (s : Service) (es : List (Env × Event))
      → Guards i s
      → Guards i (handle_all f s es)
  unfolding handle_all handle
  run-Guards i f s [] g = g
  run-Guards i f s ((env, transaction p) ∷ es) g =
      run-Guards i f (add_transaction s env p s.pool) es (transaction-Guards i s env p s.pool g)
  run-Guards i f s ((env, carried m) ∷ es) g =
      run-Guards i f (handle_message s env m) es (message-Guards i s env m g)
  run-Guards i f s ((env, duty height trace) ∷ es) g =
      run-Guards i f (handle_message s env (duty_message f height trace)) es
        (message-Guards i s env (duty_message f height trace) g)

  -- What an accepted vote does after the log and the builder.
  allowed-Guarded :
      (s b : Service) (v m : Message) (entries : List Intent)
      → SameNode (record s { wal = some (intent_of v ∷ entries) }) b
      → is_vote v.type ≡ true
      → s.wal ≡ some entries
      → s.last_wal ≡ some (intent_of m)
      → Guarded s (process_allowed b v) v m
  unfolding process_allowed dropped
  allowed-Guarded s b v m entries same vote w l = elim (Bool-cases (older v (intent_of m))) [
    | inl o ↦ (
      (entries, w, ground (arith, same.wal, same.last_wal, l, vote, o)),
      inl (
        Earlier-older v m o,
        ground (arith, same.last_wal, same.state, l, vote, o),
        ground (arith, same.last_wal, same.store, l, vote, o),
      ),
    )
    | inr o ↦ (
      (entries, w, ground (arith, same.wal, same.last_wal, l, vote, o)),
      inr (
        older-Earlier v m o,
        ground (arith, same.last_wal, same.state, l, o),
        ground (arith, same.last_wal, same.state, l, o),
      ),
    )
  ]

  accepted-Guarded :
      (s : Service) (env : Env) (v m : Message) (r : Option Rejection)
      → r ≡ none
      → is_vote v.type ≡ true
      → Guards (intent_of m) s
      → Guarded s (after_verify s env v r) v m
  unfolding after_verify append_intent append_to
  accepted-Guarded s env v m (some e) a vote g = absurd (ground (arith, a))
  accepted-Guarded s env v m none a vote (entries, l, w) =
      let logged = record s { wal = append_intent s.wal v } in
      let appended : append_intent s.wal v ≡ some (intent_of v ∷ entries) =
        ground (arith, vote, w) in
      allowed-Guarded s (build logged env v) v m entries
        (subst (λ x. SameNode (record s { wal = x }) (build logged env v)) appended
          (build-SameNode logged env v))
        vote w l

  -- An accepted vote stands at the end of the log.
  logged_last :
      (s : Service) (env : Env) (m : Message) (entries : List Intent) (r : Option Rejection)
      → r ≡ none
      → is_vote m.type ≡ true
      → s.wal ≡ some entries
      → (after_verify s env m r).wal ≡ some (intent_of m ∷ entries)
  unfolding after_verify append_intent append_to process_allowed
  logged_last s env m entries (some e) a vote w = absurd (ground (arith, a))
  logged_last s env m entries none a vote w =
      let logged = record s { wal = append_intent s.wal m } in
      let same = build-SameNode logged env m in
      elim (Bool-cases (dropped (build logged env m).last_wal m)) [
        | inl k ↦ ground (arith, k, same.wal, vote, w)
        | inr k ↦ ground (arith, k, same.wal, vote, w)
      ]

  recovered-Guards :
      (r : Service) (i : Intent) (entries : List Intent)
      → r.wal ≡ some (i ∷ entries)
      → Guards i (recover r)
  unfolding recover last_intent
  recovered-Guards r i entries w = (i ∷ entries, ap last_intent w, w)

  -- A service with a log takes a vote `m` that its verifier accepts, and a service `r` is started on
  -- the log that this leaves. After any run of turns of `r` a vote that its verifier accepts is
  -- appended to the log; if its coordinates lie before those of `m`, the state machine and the stored
  -- coordinates stay as they are, and if not, it is processed and its coordinates are stored.
  pub restart_guards_votes :
      (f : Format) (s r : Service) (env now : Env) (m v : Message) (entries : List Intent)
      (turns : List (Env × Event))
      → s.wal ≡ some entries
      → (verify s.verifier m).1 ≡ none
      → is_vote m.type ≡ true
      → r.wal ≡ (handle f s env (carried m)).wal
      → (verify (handle_all f (recover r) turns).verifier v).1 ≡ none
      → is_vote v.type ≡ true
      → Guarded
          (handle_all f (recover r) turns)
          (handle f (handle_all f (recover r) turns) now (carried v))
          v
          m
  unfolding handle handle_message
  restart_guards_votes f s r env now m v entries turns w accepted vote same accepted' vote' =
      let t : Service = handle_all f (recover r) turns in
      let logged =
        logged_last (record s { verifier = (verify s.verifier m).0 }) env m entries
          (verify s.verifier m).1 accepted vote w in
      let guards =
        run-Guards (intent_of m) f (recover r) turns
          (recovered-Guards r (intent_of m) entries (same ∙ logged)) in
      accepted-Guarded (record t { verifier = (verify t.verifier v).0 }) now v m
        (verify t.verifier v).1 accepted' vote' guards
