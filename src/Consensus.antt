-- ===== src/Consensus.antt =====
-- internal/consensus/service.go, internal/consensus/adapter.go and internal/consensus/qbft/wal.go: one
-- event of the service's loop, with the write-ahead log, the block builder and the last state. Log
-- lines, metrics, the broadcast of votes and the signature of a block go out and change no state of
-- the service; they are left out. The log and the store are those that do not fail.
pub mod Guard
pub mod Refinement
use Prim.Native.String.{◌++◌ as str_append}
use aequa_network.Base.{
  ℕ, ◌+◌, ◌%◌, ◌^◌, String, Bool, true, false, ◌&&◌, ◌||◌, List, [], ◌∷◌, Option, none, some, ltb,
  ◌==◌, if◌then◌else◌, nat_eq, length, insert, lookup_or,
}
use aequa_network.Qbft.Message.{MsgType, Message, preprepare, is_prepare, is_commit}
use aequa_network.Qbft.State.{State, process}
use aequa_network.Qbft.Verifier.{Verifier, Rejection, verify}
use aequa_network.Payload.Types.{Digest, Payload, plaintext, auction, private}
use aequa_network.Payload.Container.{Container, add_payload}
use aequa_network.Payload.Builder.{
  BuilderPolicy, BlockHeader, BlockStats, StandardBlock, Env, prepare_proposal,
}
use aequa_network.Payload.Processing.{ProposalError, process_proposal}
use aequa_network.Store.{LastState}

-- fmt, which the adapter calls for the decimal digits of a number.
pub record Format : Type 0 where
  pub decimal : ℕ → String

-- A transaction; a consensus message from the network; any other event, with its height and trace.
pub data Event : Type 0 where
  transaction : Payload → Event
  carried : Message → Event
  duty : ℕ → String → Event

-- `walEntry`.
pub record Intent : Type 0 where
  pub type : MsgType
  pub height : ℕ
  pub round : ℕ
  pub id : String
  pub sender : String

abbrev pub intent_of : Message → Intent
intent_of m = record {
  type = m.type;
  height = m.height;
  round = m.round;
  id = m.id;
  sender = m.sender;
}

abbrev pub is_vote : MsgType → Bool
is_vote t = is_prepare t || is_commit t

-- The log is the list of its entries, newest first; `none` is a nil log.
append_to : Option (List Intent) → Message → Option (List Intent)
append_to none m = none
append_to (some es) m = some (intent_of m ∷ es)

unfoldable pub append_intent : Option (List Intent) → Message → Option (List Intent)
unfolding append_to
append_intent wal m = if is_vote m.type then append_to wal m else wal

unfoldable pub last_intent : Option (List Intent) → Option Intent
last_intent none = none
last_intent (some []) = none
last_intent (some (e ∷ es)) = some e

pub record Service : Type 0 where
  pub verifier : Verifier
  pub store : Option LastState
  pub state : State
  pub wal : Option (List Intent)
  pub last_wal : Option Intent
  pub enable_builder : Bool
  pub pool : Option Container
  pub policy : BuilderPolicy
  pub last_block : List (ℕ × List (ℕ × StandardBlock))

-- The recovery from the log in `Start`.
unfoldable pub recover : Service → Service
unfolding last_intent
recover s = record s { last_wal = last_intent s.wal }

add_stats : BlockStats → Payload → BlockStats
add_stats stats (auction tx) = record stats { total_bids = (stats.total_bids + tx.bid) % 2 ^ 64 }
add_stats stats (plaintext tx) = record stats { total_fees = (stats.total_fees + tx.fee) % 2 ^ 64 }
add_stats stats (private tx) = stats

sum_stats : BlockStats → List Payload → BlockStats
unfolding add_stats
sum_stats stats [] = stats
sum_stats stats (p ∷ ps) = sum_stats (add_stats stats p) ps

unfoldable pub summarize_stats : List Payload → BlockStats
unfolding sum_stats
summarize_stats items =
    sum_stats (record { total_fees = 0; total_bids = 0; items = length items }) items

-- The message is older than the intent.
unfoldable pub older : Message → Intent → Bool
older m i = ltb m.height i.height || (m.height == i.height && ltb m.round i.round)

unfoldable pub dropped : Option Intent → Message → Bool
unfolding older
dropped none m = false
dropped (some i) m = is_vote m.type && older m i

keep_block : Service → Message → StandardBlock → Option ProposalError → Service
unfolding summarize_stats
keep_block s m blk none = record s {
  last_block =
      insert m.height
        (insert m.round (record blk { stats = summarize_stats blk.items })
          (lookup_or [] m.height s.last_block))
        s.last_block;
}
keep_block s m blk (some e) = s

-- What is done with a message that the verifier accepts, after the log and the builder.
process_allowed : Service → Message → Service
unfolding dropped
process_allowed s m = if dropped s.last_wal m then s else record s {
  state = (process s.state m).state;
  store = some (record { height = m.height; round = m.round });
}

-- `MapEventToQBFT` of an event that carries no message.
unfoldable pub duty_message : Format → ℕ → String → Message
duty_message f height trace = record {
  id = str_append "ev-" (str_append trace (str_append "-" (str_append (f.decimal height) "-0")));
  sender = "consensus_stub";
  type = preprepare;
  height = height;
  round = 0;
  payload = [];
  trace_id = trace;
  sig = [];
}

module _ ⦃d : Digest⦄ where
  build_from : Service → Env → Message → Option Container → Service
  unfolding keep_block
  build_from s env m none = s
  build_from s env m (some c) =
      let blk = prepare_proposal env c (record { height = m.height; round = m.round }) s.policy in
      keep_block s m blk (process_proposal blk s.policy)

  unfoldable pub build : Service → Env → Message → Service
  unfolding build_from
  build s env m = if s.enable_builder then build_from s env m s.pool else s

  after_verify : Service → Env → Message → Option Rejection → Service
  unfolding append_intent build process_allowed
  after_verify s env m none =
      process_allowed (build (record s { wal = append_intent s.wal m }) env m) m
  after_verify s env m (some e) = s

  unfoldable pub handle_message : Service → Env → Message → Service
  unfolding after_verify
  handle_message s env m =
      let (v, rejection) = verify s.verifier m in
      after_verify (record s { verifier = v }) env m rejection

  unfoldable pub add_transaction : Service → Env → Payload → Option Container → Service
  add_transaction s env p none = s
  add_transaction s env p (some c) = record s { pool = some (add_payload c p env.now).0 }

  -- One turn of the loop in `Start`.
  unfoldable pub handle : Format → Service → Env → Event → Service
  unfolding handle_message duty_message add_transaction
  handle f s env (transaction p) = add_transaction s env p s.pool
  handle f s env (carried m) = handle_message s env m
  handle f s env (duty height trace) = handle_message s env (duty_message f height trace)

  -- The service after a run of turns, in their order, each with what it reads of its surroundings.
  unfoldable pub handle_all : Format → Service → List (Env × Event) → Service
  handle_all f s [] = s
  handle_all f s ((env, e) ∷ es) = handle_all f (handle f s env e) es
