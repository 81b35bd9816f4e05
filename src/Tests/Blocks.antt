-- ===== src/Tests/Blocks.antt =====
-- Runs of the block builder of internal/payload.
use mathlib.Core.List.{Perm}
use mathlib.Core.List.Perm
use aequa_network.Base.{
  ℕ, ◌≡◌, ◌≤◌, refl, sym, subst, inl, inr, String, false, List, [], ◌∷◌, none, string_eq, nat_eq,
  bytes_eq, list_beq, length, contains, All, lookup, ◌==◌, Bool-cases, eq_iff,
}
use aequa_network.Sorting.{sort_by}
use aequa_network.Payload.Types.{
  Digest, PlaintextTx, AuctionBidTx, Payload, plaintext, auction, hash_of, plaintext_hash,
}
use aequa_network.Payload.NoncePool.{Pool, plaintext_tx, new, len, get}
use aequa_network.Payload.Container.{
  Container, MapOrder, plaintexts, auctions, new_container, WellKeyed, new_container-WellKeyed,
  get_all, pool_len, pool_get,
}
use aequa_network.Payload.Builder.{
  BuilderPolicy, BlockHeader, StandardBlock, Env, noop_decrypt, no_stats, max_of, prepare_proposal,
  candidates,
}
use aequa_network.Payload.Processing.{process_proposal}
use aequa_network.Payload.Builder.Grouped.{none_left, group, Grouped-accepted}
use aequa_network.Payload.Builder.Acceptance.{
  Admitted, prepared_is_accepted, prepared-Admitted, prepared_within_max,
}
use aequa_network.Payload.Builder.Nodes.{Walks, walked_by, nodes_agree}
use aequa_network.Payload.Builder.Agreement.{DistinctHashes, distinct_hashes}

abbrev plain_hash : Digest
plain_hash = record { sha256 = λ bs. bs; bytes = λ s. [] }

abbrev pay : String → ℕ → PlaintextTx
pay from fee = record { sender = from; nonce = 0; gas = 1; fee = fee; sig = []; h = none }

abbrev bid : String → ℕ → AuctionBidTx
bid from b = record {
  sender = from;
  nonce = 0;
  gas = 1;
  bid = b;
  fee_recipient = "pool";
  sig = [];
  h = none;
}

-- Two senders with a pending payment each, and one with a bid.
abbrev two_payers : Pool PlaintextTx
two_payers = record new {
  expect = ("alice", 1) ∷ ("bob", 1) ∷ [];
  pend_by_sender = ("alice", pay "alice" 5 ∷ []) ∷ ("bob", pay "bob" 7 ∷ []) ∷ [];
}

abbrev one_bidder : Pool AuctionBidTx
one_bidder = record new {
  expect = ("carol", 1) ∷ [];
  pend_by_sender = ("carol", bid "carol" 3 ∷ []) ∷ [];
}

abbrev stored : Container
stored =
    new_container
      (("plaintext_v1", plaintexts two_payers) ∷ ("auction_bid_v1", auctions one_bidder) ∷ [])

abbrev in_order : MapOrder
in_order = record { plaintext_order = λ m. m; auction_order = λ m. m }

swap_payers : List (String × List PlaintextTx) → List (String × List PlaintextTx)
swap_payers (x ∷ y ∷ m) = y ∷ x ∷ m
swap_payers m = m

abbrev swapped : MapOrder
swapped = record { plaintext_order = swap_payers; auction_order = λ m. m }

abbrev local : Env
local = record { map_order = in_order; now = 100; beast = false; decrypt = noop_decrypt }

abbrev top : BlockHeader
top = record { height = 1; round = 0 }

abbrev bids_first : BuilderPolicy
bids_first = record {
  order = "auction_bid_v1" ∷ "plaintext_v1" ∷ [];
  max_n = 2;
  budget_bytes = 0;
  min_bid = 2;
  min_fee = 6;
  window = 0;
  batch_ticks = 0;
  use_dfba = false;
}

best_of_each :
    (prepare_proposal ⦃d = plain_hash⦄ local stored top bids_first).items
    ≡ auction (bid "carol" 3) ∷ plaintext (pay "bob" 7) ∷ []
unfolding prepare_proposal candidates get_all lookup pool_len len pool_get get sort_by
best_of_each = refl

stored-WellKeyed : WellKeyed stored
stored-WellKeyed = new_container-WellKeyed stored.impl (refl, (refl, tt))

prepared_is_accepted_example :
    process_proposal (prepare_proposal ⦃d = plain_hash⦄ local stored top bids_first) bids_first
    ≡ none
unfolding contains
prepared_is_accepted_example =
    prepared_is_accepted ⦃d = plain_hash⦄ local stored top bids_first (inl refl) stored-WellKeyed
      (refl, (refl, tt))

prepared-Admitted_example :
    All
      (Admitted ⦃d = plain_hash⦄ local stored bids_first)
      (prepare_proposal ⦃d = plain_hash⦄ local stored top bids_first).items
prepared-Admitted_example =
    prepared-Admitted ⦃d = plain_hash⦄ local stored top bids_first (inl refl) stored-WellKeyed

prepared_within_max_example :
    length (prepare_proposal ⦃d = plain_hash⦄ local stored top bids_first).items
    ≤ max_of bids_first.max_n
prepared_within_max_example = prepared_within_max ⦃d = plain_hash⦄ local stored top bids_first refl

abbrev block : StandardBlock
block = record {
  header = top;
  items = auction (bid "carol" 3) ∷ plaintext (pay "bob" 7) ∷ [];
  stats = no_stats;
}

Grouped-accepted_example : process_proposal block bids_first ≡ none
unfolding contains
Grouped-accepted_example =
    Grouped-accepted block bids_first (refl, (refl, tt))
      (group (auction (bid "carol" 3) ∷ []) (plaintext (pay "bob" 7) ∷ []) refl (refl, tt) (tt, tt)
        (group (plaintext (pay "bob" 7) ∷ []) [] refl (refl, tt) (tt, tt) none_left))

in_order-Walks : Walks in_order
in_order-Walks = record { plaintext_walk = λ m. Perm.rfl; auction_walk = λ m. Perm.rfl }

swap_payers-perm : (m : List (String × List PlaintextTx)) → Perm (swap_payers m) m
unfolding swap_payers
swap_payers-perm [] = Perm.rfl
swap_payers-perm (x ∷ []) = Perm.rfl
swap_payers-perm (x ∷ y ∷ m) = Perm.swap x y m

swapped-Walks : Walks swapped
swapped-Walks = record { plaintext_walk = swap_payers-perm; auction_walk = λ m. Perm.rfl }

abbrev any_fee : BuilderPolicy
any_fee = record bids_first { min_fee = 0 }

abbrev stored_of : String → List Payload
stored_of typ = candidates ⦃d = plain_hash⦄ local stored top any_fee typ

no_candidates :
    (typ : String)
    → ("plaintext_v1" == typ) ≡ false
    → ("auction_bid_v1" == typ) ≡ false
    → stored_of typ ≡ []
unfolding candidates get_all lookup
no_candidates typ h k = rw (h, k) refl

stored-distinct : (typ : String) → DistinctHashes ⦃d = plain_hash⦄ (stored_of typ)
unfolding candidates get_all lookup pool_len len pool_get get sort_by contains list_beq hash_of
    plaintext_hash
stored-distinct typ = elim (Bool-cases ("plaintext_v1" == typ)) [
  | inl e ↦
      subst (λ t. DistinctHashes ⦃d = plain_hash⦄ (stored_of t)) ((eq_iff "plaintext_v1" typ).0 e)
        (distinct_hashes ⦃d = plain_hash⦄ (stored_of "plaintext_v1") (refl, (refl, tt)))
  | inr e ↦ elim (Bool-cases ("auction_bid_v1" == typ)) [
    | inl f ↦
        subst (λ t. DistinctHashes ⦃d = plain_hash⦄ (stored_of t))
          ((eq_iff "auction_bid_v1" typ).0 f)
          (distinct_hashes ⦃d = plain_hash⦄ (stored_of "auction_bid_v1") (refl, tt))
    | inr f ↦
        subst (DistinctHashes ⦃d = plain_hash⦄) (sym (no_candidates typ e f))
          (distinct_hashes ⦃d = plain_hash⦄ [] tt)
  ]
]

nodes_agree_example :
    prepare_proposal ⦃d = plain_hash⦄ local stored top any_fee
    ≡ prepare_proposal ⦃d = plain_hash⦄ (walked_by local swapped) stored top any_fee
nodes_agree_example =
    nodes_agree ⦃d = plain_hash⦄ local swapped stored top any_fee refl in_order-Walks swapped-Walks
      stored-distinct
