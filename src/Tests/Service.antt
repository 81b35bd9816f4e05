-- ===== src/Tests/Service.antt =====
-- Runs of the consensus service.
use aequa_network.Base.{
  ℕ, ◌≡◌, refl, true, false, List, [], ◌∷◌, none, some, string_eq, nat_eq, contains, add_key,
  lookup, lookup_or,
}
use aequa_network.Qbft.Message.{Message, prepare}
use aequa_network.Qbft.State.{initial}
use aequa_network.Qbft.Verifier.{new_basic_verifier, verify}
use aequa_network.Qbft.Delivery.{deliver_all}
use aequa_network.Payload.Types.{Digest, plaintext}
use aequa_network.Payload.Container.{new_container}
use aequa_network.Payload.Builder.{Env, BuilderPolicy, noop_decrypt}
use aequa_network.Consensus.{
  Format, Event, transaction, carried, duty, Service, intent_of, recover, handle_all, handle,
  add_transaction,
}
use aequa_network.Consensus.Guard.{Guarded, restart_guards_votes}
use aequa_network.Consensus.Refinement.{node_of, messages, service_delivers}

abbrev toy_digest : Digest
toy_digest = record { sha256 = λ bs. bs; bytes = λ s. [] }

abbrev no_digits : Format
no_digits = record { decimal = λ n. "1" }

abbrev surroundings : Env
surroundings = record {
  map_order = record { plaintext_order = λ m. m; auction_order = λ m. m };
  now = 7;
  beast = false;
  decrypt = noop_decrypt;
}

abbrev plain_policy : BuilderPolicy
plain_policy = record {
  order = "plaintext_v1" ∷ [];
  max_n = 4;
  budget_bytes = 0;
  min_bid = 0;
  min_fee = 0;
  window = 0;
  batch_ticks = 0;
  use_dfba = false;
}

abbrev vote : ℕ → Message
vote round = record {
  sender = "b";
  height = 5;
  round = round;
  type = prepare;
  payload = [];
  id = "block";
  trace_id = "";
  sig = [];
}

abbrev fresh : Service
fresh = record {
  verifier = new_basic_verifier;
  store = none;
  state = initial "a";
  wal = some (intent_of (vote 3) ∷ []);
  last_wal = none;
  enable_builder = true;
  pool = some (new_container []);
  policy = plain_policy;
  last_block = [];
}

-- The log before the vote of round 3.
abbrev before : Service
before = record fresh { wal = some [] }

later_accepted : (verify before.verifier (vote 3)).1 ≡ none
unfolding verify contains add_key lookup lookup_or
later_accepted = refl

-- A new service on the log that the vote leaves.
abbrev restarted : Service
restarted = record fresh {
  wal = (handle ⦃d = toy_digest⦄ no_digits before surroundings (carried (vote 3))).wal;
}

abbrev sends : List (Env × Event)
sends =
    (
      surroundings,
      transaction (
          plaintext (record { sender = "alice"; nonce = 0; gas = 1; fee = 2; sig = []; h = none })),
    )
    ∷ []

vote_accepted :
    (verify (handle_all ⦃d = toy_digest⦄ no_digits (recover restarted) sends).verifier (vote 2)).1
    ≡ none
unfolding verify contains add_key lookup lookup_or handle_all handle add_transaction recover
vote_accepted = refl

restart_guards_votes_example :
    Guarded
      (handle_all ⦃d = toy_digest⦄ no_digits (recover restarted) sends)
      (handle ⦃d = toy_digest⦄ no_digits
        (handle_all ⦃d = toy_digest⦄ no_digits (recover restarted) sends)
        surroundings
        (carried (vote 2)))
      (vote 2)
      (vote 3)
restart_guards_votes_example =
    restart_guards_votes ⦃d = toy_digest⦄ no_digits before restarted surroundings surroundings
      (vote 3) (vote 2) [] sends refl later_accepted refl refl vote_accepted refl

abbrev turns : List (Env × Event)
turns =
    (surroundings, duty 5 "t")
    ∷ (
      surroundings,
      transaction (
          plaintext (record { sender = "alice"; nonce = 0; gas = 1; fee = 2; sig = []; h = none })),
    )
    ∷ (surroundings, carried (vote 2))
    ∷ []

service_delivers_example :
    node_of (handle_all ⦃d = toy_digest⦄ no_digits fresh turns)
    ≡ deliver_all (node_of fresh) (messages no_digits turns)
service_delivers_example = service_delivers ⦃d = toy_digest⦄ no_digits fresh turns refl
