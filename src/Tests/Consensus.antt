-- ===== src/Tests/Consensus.antt =====
-- Runs of internal/consensus/qbft.
use aequa_network.Base.{
  ℕ, ◌≡◌, ◌≢◌, ◌↔◌, refl, String, List, [], ◌∷◌, none, some, arith, string_eq, contains, add_key,
}
use aequa_network.Qbft.Message.{MsgType, Message, preprepare, prepare, commit}
use aequa_network.Qbft.State.{
  initial, process, replay_log, preprepared, committed, refused, panicked, commit_before_prepared,
}
use aequa_network.Qbft.State.Evidence.{IsValid, process-IsValid, process_no_panic}
use aequa_network.Qbft.State.History.{Quorum, committed-Quorum, replay_log-IsValid}
use aequa_network.Qbft.State.Idempotent.{process_idempotent}
use aequa_network.Qbft.State.Early.{Early}
use aequa_network.Qbft.State.Errors.{SameProposal, refused_keeps_votes}
use aequa_network.Qbft.Verifier.{
  new_basic_verifier, new_anti_replay, type_eq, verify, verify_all, before_replay, replayed,
}
use aequa_network.Qbft.Verifier.Admission.{Admissible, Fresh, verify_accepts_iff}
use aequa_network.Qbft.Verifier.Replays.{id_spent}
use aequa_network.Qbft.Delivery.{deliver_all, id_guard_blocks_votes}

abbrev message : String → MsgType → ℕ → Message
message from typ round = record {
  sender = from;
  height = 1;
  round = round;
  type = typ;
  payload = [];
  id = "block";
  trace_id = "";
  sig = [];
}

-- Newest first: a proposal, two votes to prepare and one to commit.
abbrev voting : List Message
voting =
    message "d" commit 1
    ∷ message "c" prepare 1
    ∷ message "b" prepare 1
    ∷ message "a" preprepare 0
    ∷ []

abbrev at_prepare : List Message
at_prepare = message "b" prepare 1 ∷ message "a" preprepare 0 ∷ []

voting_commits : (replay_log (initial "a") voting).phase ≡ committed
unfolding replay_log process contains
voting_commits = refl

vote_repeated : (replay_log (initial "a") (message "b" prepare 1 ∷ at_prepare)).phase ≡ preprepared
unfolding replay_log process contains
vote_repeated = refl

committed-Quorum_example : Quorum (replay_log (initial "a") voting).proposal_id voting
committed-Quorum_example = committed-Quorum "a" voting voting_commits

process-IsValid_example :
    IsValid (process (replay_log (initial "a") at_prepare) (message "c" prepare 1)).state
process-IsValid_example =
    process-IsValid (replay_log (initial "a") at_prepare) (message "c" prepare 1)
      (replay_log-IsValid "a" at_prepare)

process_no_panic_example :
    (process (replay_log (initial "a") at_prepare) (message "c" prepare 1)).verdict ≢ panicked
process_no_panic_example =
    process_no_panic (replay_log (initial "a") at_prepare) (message "c" prepare 1)
      (replay_log-IsValid "a" at_prepare)

process_idempotent_example :
    (process
      (process (replay_log (initial "a") at_prepare) (message "c" prepare 1)).state
      (message "c" prepare 1)).state
    ≡ (process (replay_log (initial "a") at_prepare) (message "c" prepare 1)).state
process_idempotent_example =
    process_idempotent (replay_log (initial "a") at_prepare) (message "c" prepare 1)

early_commit :
    (process (replay_log (initial "a") at_prepare) (message "d" commit 7)).verdict
    ≡ refused commit_before_prepared
unfolding replay_log process contains
early_commit = refl

refused_keeps_votes_example :
    SameProposal
      (replay_log (initial "a") at_prepare)
      (process (replay_log (initial "a") at_prepare) (message "d" commit 7)).state
    × ((process (replay_log (initial "a") at_prepare) (message "d" commit 7)).state.height ≡ 1)
    × ((process (replay_log (initial "a") at_prepare) (message "d" commit 7)).state.round ≡ 7)
refused_keeps_votes_example =
    refused_keeps_votes (replay_log (initial "a") at_prepare) (message "d" commit 7) early_commit

-- The first vote for the proposal is taken for a replay of the proposal.
vote_is_replayed :
    (verify (verify new_basic_verifier (message "a" preprepare 0)).0 (message "b" prepare 1)).1
    ≡ some replayed
unfolding verify contains add_key
vote_is_replayed = refl

verify_accepts_iff_example : ((verify new_basic_verifier (message "b" prepare 1)).1 ≡ none) ↔ (
    Admissible new_basic_verifier (message "b" prepare 1)
    × Fresh new_basic_verifier new_basic_verifier.replay (message "b" prepare 1))
verify_accepts_iff_example = verify_accepts_iff new_basic_verifier (message "b" prepare 1)

-- A vote in round 0 is rejected below the guard, and the vote in round 1 with its id after it.
first_checks : before_replay new_basic_verifier (message "b" prepare 0) ≡ none
unfolding verify contains add_key
first_checks = refl

id_spent_example :
    (verify (verify_all new_basic_verifier (message "b" prepare 0 ∷ [])) (message "b" prepare 1)).1
    ≢ none
id_spent_example =
    id_spent new_basic_verifier new_anti_replay (message "b" prepare 0) [] (message "b" prepare 1)
      refl refl first_checks refl

delivered : List Message
delivered =
    message "a" preprepare 0
    ∷ message "b" prepare 1
    ∷ message "c" prepare 1
    ∷ message "d" commit 1
    ∷ []

id_guard_blocks_votes_example :
    Early
      (deliver_all
        (record { verifier = new_basic_verifier; state = initial "a" })
        delivered).state.phase
id_guard_blocks_votes_example =
    id_guard_blocks_votes "a" new_basic_verifier delivered refl λ e. ground arith
