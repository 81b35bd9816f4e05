-- ===== src/Lib.antt =====
-- A verification library for the deterministic core of a distributed validator node: the consensus
-- state machine and its message verifier, the typed mempools, the block builder with its check, and
-- the batch auction that selects payments and bids; and of what stands around it: the state file, the
-- peer gates and limits, the wire forms, the signing sessions, and the distributed key generation.
--
-- A node verifies each consensus message (internal/consensus/qbft/verifier.go) and hands the accepted
-- ones to the state machine (internal/consensus/qbft/state.go). Transactions enter typed pools through
-- a container that dates them (internal/payload/container.go). The builder reads the container and
-- selects a block by policy (internal/payload/builder.go), on the DFBA path through the solver
-- (internal/dfba/dfba.go); `ProcessProposal` checks a block against the policy.
--
-- Files:
--   Base           tests, equality as an interface, lists by native numbers, maps as association lists
--   Sorting        the stable sort (sort.SliceStable), chains, rearrangements
--   Qbft/Message   internal/consensus/qbft/message.go
--   Qbft/State     internal/consensus/qbft/state.go: `process` is Process, with one function for each
--                  case of its switch; children: the evidence a phase rests on, the log behind it,
--                  repetition, errors, and what messages for other proposals can do
--   Qbft/Verifier  internal/consensus/qbft/verifier.go: `verify` is Verify, in three parts around the
--                  replay guard
--   Qbft/Delivery  the pair of calls Verify and Process on a message
--                  (internal/consensus/e2e_server_e2e.go)
--   Consensus      internal/consensus/service.go (one turn of the loop is `handle`),
--                  internal/consensus/adapter.go, internal/consensus/qbft/wal.go
--   Payload/Types  the transactions of internal/payload/plaintext_v1, auction_bid_v1, private_v1
--   Payload/NoncePool    internal/payload/plaintext_v1/pool.go, internal/payload/auction_bid_v1/pool.go
--   Payload/PrivatePool  internal/payload/private_v1/pool.go
--   Payload/Container    internal/payload/container.go; Additions: runs of Add
--   Payload/Builder      internal/payload/builder.go: PrepareProposal, both paths
--   Payload/Processing   internal/payload/builder.go: ProcessProposal
--   Payload/Threshold    internal/payload/private_v1: threshold_state.go, threshold_share_blst.go,
--                        threshold_key_blst.go
--   Payload/Decrypters   internal/payload/private_v1: blst_decrypter.go, json_decrypter.go,
--                        pending_decrypter_blst.go, decode.go, config.go; a log of shares that arrive and of
--                        payloads to decrypt is `run`
--   Dfba           internal/dfba/dfba.go
--   Store          internal/state/file_store.go and internal/state/db.go
--   Net/Gates      internal/p2p/gating.go; Net/Limits: internal/p2p/resources.go and
--                  internal/p2p/tss_limits.go; Net/Wire: internal/p2p/wire
--   Tss/Session    internal/tss/session/manager.go
--   Tss/Dkg        internal/tss/dkg: Curve is the group that blst offers, as an interface; Feldman is
--                  feldman_crypto_blst.go, Config beast_dkg_config.go; Runner, Sending, Epoch,
--                  Finalize, Handlers and Dispatch are beast_runner_blst.go (OnMessage is
--                  `on_message`, maybeFinalize the two halves around the save of the key share). Core,
--                  Rules and Fresh carry the proofs: a handler is a sequence of rules
--   Tss/Engine     internal/tss/dkg/engine.go: OnMessage is `on_message`, one message of a log `run`
--   Lifecycle      pkg/lifecycle/manager.go
--   Tests          runs on fixed inputs
--
-- Maps are association lists, a Go set is the list of its keys, a nil map is `none` where the code
-- depends on it. The order in which Go ranges over a map is a parameter. Integers are native
-- numbers; uint64 additions wrap at 2 ^ 64, bytes at 256. An `int` limit that the code only tests
-- for being positive is a number with 0 for all the rest. `BatchTicks`, which is multiplied into
-- an int64 and wraps there, is taken as not negative. The clock, SHA-256, CRC-32 and the
-- installed decrypter are parameters, and so are the digits that fmt makes of a number. A crash
-- during a save of the state file is one of the directories that stand between two of its calls.
-- The promotion loop of the nonce pools is recursion on fuel, with the number of a sender's future
-- transactions as fuel: each round removes one, and the invariant of Payload/NoncePool/Order says
-- that none is left at the expected nonce when the loop ends.
--
-- In the decrypters what they call of internal/beast (ibe, bte, pprf, the symmetric engine) and of
-- encoding/json is a parameter, and the release of a share when a transaction enters the pool, which
-- an environment variable turns on, is left out.
--
-- In the key generation the operations of the group, the signatures, X25519, AES-GCM, SHA-256, JSON
-- and the random draws are parameters, what blst and the Go packages document of them is a named
-- hypothesis, saves succeed, and the handlers of messages run one after another, except where a
-- statement puts an epoch between the two halves of the end.
--
-- Not modelled: broadcast and signing by the service, network transports, HTTP, pairing
-- cryptography, log lines, and metrics except where a statement counts them.
pub mod Base
pub mod Sorting
pub mod Qbft
pub mod Consensus
pub mod Dfba
pub mod Payload
pub mod Tests
pub mod Net
pub mod Tss
pub mod Store
pub mod Lifecycle
