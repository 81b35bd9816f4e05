-- ===== src/Consensus/Refinement.antt =====
-- The service, seen as a node that verifies and processes messages.
use aequa_network.Base.{
  ◌≡◌, refl, sym, subst, List, [], ◌∷◌, Option, none, some, arith, inl, inr, Bool-cases,
  if◌then◌else◌,
}
use aequa_network.Qbft.Message.{Message}
use aequa_network.Qbft.State.{process}
use aequa_network.Qbft.Verifier.{Rejection, verify}
use aequa_network.Qbft.Delivery.{Node, deliver, deliver_all, process_accepted}
use aequa_network.Payload.Types.{Digest, Payload}
use aequa_network.Payload.Container.{Container}
use aequa_network.Payload.Builder.{Env, StandardBlock, prepare_proposal}
use aequa_network.Payload.Processing.{ProposalError, process_proposal}
use aequa_network.Consensus.{
  Format, Event, transaction, carried, duty, Service, append_intent, build, build_from, keep_block,
  process_allowed, dropped, duty_message, after_verify, handle_message, handle, handle_all,
  add_transaction,
}

abbrev pub node_of : Service → Node
node_of s = record { verifier = s.verifier; state = s.state }

-- The messages that a run brings to the verifier.
unfoldable pub messages : Format → List (Env × Event) → List Message
messages f [] = []
messages f ((env, transaction p) ∷ es) = messages f es
messages f ((env, carried m) ∷ es) = m ∷ messages f es
messages f ((env, duty height trace) ∷ es) = duty_message f height trace ∷ messages f es

-- What the builder and the pool leave alone.
pub record SameNode (s t : Service) : Type 0 where
  pub verifier : t.verifier ≡ s.verifier
  pub state : t.state ≡ s.state
  pub last_wal : t.last_wal ≡ s.last_wal
  pub wal : t.wal ≡ s.wal
  pub store : t.store ≡ s.store

keep_block-SameNode :
    (s : Service) (m : Message) (blk : StandardBlock) (r : Option ProposalError)
    → SameNode s (keep_block s m blk r)
unfolding keep_block
keep_block-SameNode s m blk none = record {
  verifier = refl;
  state = refl;
  last_wal = refl;
  wal = refl;
  store = refl;
}
keep_block-SameNode s m blk (some e) = record {
  verifier = refl;
  state = refl;
  last_wal = refl;
  wal = refl;
  store = refl;
}

module _ ⦃d : Digest⦄ where
  build_from-SameNode :
      (s : Service) (env : Env) (m : Message) (r : Option Container)
      → SameNode s (build_from s env m r)
  unfolding build_from
  build_from-SameNode s env m none = record {
    verifier = refl;
    state = refl;
    last_wal = refl;
    wal = refl;
    store = refl;
  }
  build_from-SameNode s env m (some c) =
      keep_block-SameNode s m
        (prepare_proposal env c (record { height = m.height; round = m.round }) s.policy)
        (process_proposal
          (prepare_proposal env c (record { height = m.height; round = m.round }) s.policy)
          s.policy)

  pub build-SameNode : (s : Service) (env : Env) (m : Message) → SameNode s (build s env m)
  unfolding build
  build-SameNode s env m = elim (Bool-cases s.enable_builder) [
    | inl e ↦
        subst (λ b. SameNode s (if b then build_from s env m s.pool else s)) (sym e)
          (build_from-SameNode s env m s.pool)
    | inr e ↦
        subst (λ b. SameNode s (if b then build_from s env m s.pool else s)) (sym e)
          (record { verifier = refl; state = refl; last_wal = refl; wal = refl; store = refl })
  ]

  add_transaction-SameNode :
      (s : Service) (env : Env) (p : Payload) (r : Option Container)
      → SameNode s (add_transaction s env p r)
  unfolding add_transaction
  add_transaction-SameNode s env p none = record {
    verifier = refl;
    state = refl;
    last_wal = refl;
    wal = refl;
    store = refl;
  }
  add_transaction-SameNode s env p (some c) = record {
    verifier = refl;
    state = refl;
    last_wal = refl;
    wal = refl;
    store = refl;
  }

  -- What the two steps of a node make of a message.
  abbrev Delivered : Service → Node → Type 0
  Delivered t n = (node_of t ≡ n) × (t.last_wal ≡ none)

  allowed-Delivered :
      (s b : Service) (m : Message)
      → SameNode s b
      → s.last_wal ≡ none
      → Delivered
          (process_allowed b m)
          (record { verifier = s.verifier; state = (process s.state m).state })
  unfolding process_allowed dropped
  allowed-Delivered s b m same h = ground (arith, same.verifier, same.state, same.last_wal, h)

  after_verify-Delivered :
      (s : Service) (env : Env) (m : Message) (r : Option Rejection)
      → s.last_wal ≡ none
      → Delivered
          (after_verify s env m r)
          (record { verifier = s.verifier; state = process_accepted r s.state m })
  unfolding after_verify process_accepted
  after_verify-Delivered s env m none h =
      let logged = record s { wal = append_intent s.wal m } in
      allowed-Delivered logged (build logged env m) m (build-SameNode logged env m) h
  after_verify-Delivered s env m (some e) h = (refl, h)

  message-Delivered :
      (s : Service) (env : Env) (m : Message)
      → s.last_wal ≡ none
      → Delivered (handle_message s env m) (deliver (node_of s) m)
  unfolding handle_message deliver
  message-Delivered s env m h =
      after_verify-Delivered (record s { verifier = (verify s.verifier m).0 }) env m
        (verify s.verifier m).1 h

  transaction-Delivered :
      (s : Service) (env : Env) (p : Payload)
      → s.last_wal ≡ none
      → Delivered (add_transaction s env p s.pool) (node_of s)
  transaction-Delivered s env p h =
      let same = add_transaction-SameNode s env p s.pool in
      ground (arith, same.verifier, same.state, same.last_wal, h)

  handle_all-Delivered :
      (f : Format) (s : Service) (es : List (Env × Event))
      → s.last_wal ≡ none
      → Delivered (handle_all f s es) (deliver_all (node_of s) (messages f es))
  unfolding handle_all handle messages deliver_all
  handle_all-Delivered f s [] h = (refl, h)
  handle_all-Delivered f s ((env, transaction p) ∷ es) h =
      let (n, k) = transaction-Delivered s env p h in
      rw n at (handle_all-Delivered f (add_transaction s env p s.pool) es k)
  handle_all-Delivered f s ((env, carried m) ∷ es) h =
      let (n, k) = message-Delivered s env m h in
      rw n at (handle_all-Delivered f (handle_message s env m) es k)
  handle_all-Delivered f s ((env, duty height trace) ∷ es) h =
      let (n, k) = message-Delivered s env (duty_message f height trace) h in
      rw n at (handle_all-Delivered f (handle_message s env (duty_message f height trace)) es k)

  -- A service that recovered no intent from its log treats a run of events as a node does the
  -- messages of that run: transactions, the log, the builder and the store change nothing that the
  -- verifier and the state machine see.
  pub service_delivers :
      (f : Format) (s : Service) (es : List (Env × Event))
      → s.last_wal ≡ none
      → node_of (handle_all f s es) ≡ deliver_all (node_of s) (messages f es)
  service_delivers f s es h = (handle_all-Delivered f s es h).0
