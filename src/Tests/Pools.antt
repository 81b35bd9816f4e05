-- ===== src/Tests/Pools.antt =====
-- Runs of the pools and of the container of internal/payload.
use aequa_network.Base.{
  ℕ, String, list_beq, ◌≡◌, refl, List, [], ◌∷◌, none, some, arith, string_eq, nat_eq, bytes_eq,
  contains, lookup, lookup_or, insert, remove_key,
}
use aequa_network.Payload.Types.{
  Digest, PlaintextTx, PrivateTx, Payload, plaintext, private, plaintext_valid, hash_of,
  plaintext_hash, private_valid,
}
use aequa_network.Payload.NoncePool.{
  plaintext_tx, add, new, add_ready, add_future, promote, advance, enqueue,
}
use aequa_network.Payload.NoncePool.Lane.{view, lane_add, AddsLane, add-Lane}
use aequa_network.Payload.NoncePool.Order.{IsOrdered, add_each, pool_in_nonce_order}
use aequa_network.Payload.PrivatePool
use aequa_network.Payload.PrivatePool.{
  PrivatePool, new_private, add_private, add_private-IsValid, add_private_again, overflow, dup,
}
use aequa_network.Payload.Container.{plaintexts, new_container, add_payload, arrival, Mempool}
use aequa_network.Payload.Container.Additions.{
  Addition, add_all, alone_of, answer, last_arrival, container_splits,
}

-- A hash that keeps its input, and texts without bytes.
abbrev plain_digest : Digest
plain_digest = record { sha256 = λ bs. bs; bytes = λ s. [] }

abbrev sig32 : List ℕ
sig32 =
    0 ∷ 0 ∷ 0 ∷ 0 ∷ 0 ∷ 0 ∷ 0 ∷ 0 ∷ 0 ∷ 0 ∷ 0 ∷ 0 ∷ 0 ∷ 0 ∷ 0 ∷ 0 ∷ 0 ∷ 0 ∷ 0 ∷ 0 ∷ 0 ∷ 0 ∷ 0 ∷ 0
    ∷ 0 ∷ 0 ∷ 0 ∷ 0 ∷ 0 ∷ 0 ∷ 0 ∷ 0 ∷ []

abbrev pays : ℕ → ℕ → PlaintextTx
pays n f = record { sender = "alice"; nonce = n; gas = 1; fee = f; sig = sig32; h = none }

-- Out of order, with a repetition.
abbrev arrivals : List PlaintextTx
arrivals = pays 1 7 ∷ pays 1 8 ∷ pays 2 3 ∷ pays 0 5 ∷ pays 0 9 ∷ []

arrivals_pending :
    (view (add_each new arrivals) "alice").pending ≡ pays 0 5 ∷ pays 1 7 ∷ pays 2 3 ∷ []
unfolding add_each add add_ready add_future promote advance enqueue plaintext_valid lookup lookup_or
    insert remove_key
arrivals_pending = refl

pool_in_nonce_order_example : IsOrdered (view (add_each new arrivals) "alice")
pool_in_nonce_order_example =
    pool_in_nonce_order arrivals "alice"
      (ground arith, (ground arith, (ground arith, (ground arith, (ground arith, tt)))))

add-Lane_example :
    AddsLane new (pays 0 5) (add new (pays 0 5)) (lane_add (view new "alice") (pays 0 5))
add-Lane_example = add-Lane new (pays 0 5)

abbrev secret : PrivateTx
secret = record {
  sender = "alice";
  nonce = 0;
  ciphertext = 1 ∷ [];
  ephemeral_key = 2 ∷ [];
  target_height = 9;
  batch_index = 0;
  punctured_key = [];
  h = none;
}

new_private-IsValid : PrivatePool.IsValid ⦃d = plain_digest⦄ new_private
new_private-IsValid = record { bounded = omega arith; hashed = refl; distinct = tt }

add_private-IsValid_example :
    PrivatePool.IsValid ⦃d = plain_digest⦄ (add_private ⦃d = plain_digest⦄ new_private secret).0
add_private-IsValid_example =
    add_private-IsValid ⦃d = plain_digest⦄ new_private secret new_private-IsValid

secret_stored : (add_private ⦃d = plain_digest⦄ new_private secret).1 ≡ PrivatePool.ok
unfolding add_private private_valid contains
secret_stored = refl

-- The pool refuses a fee without a signature, and the container dates it.
abbrev unsigned : Payload
unsigned = plaintext (record (pays 0 5) { sig = [] })

abbrev one_pool_entries : List (String × Mempool)
one_pool_entries = ("plaintext_v1", plaintexts new) ∷ []

-- The refused payload comes twice, and a private one, which has no pool, comes between.
abbrev additions : List Addition
additions = (unsigned, 17) ∷ (private secret, 12) ∷ (unsigned, 9) ∷ []

container_splits_example :
    (lookup "plaintext_v1"
        (add_all ⦃d = plain_digest⦄ (new_container one_pool_entries) additions).impl
      ≡ alone_of ⦃d = plain_digest⦄ "plaintext_v1"
          (lookup "plaintext_v1" one_pool_entries)
          additions)
    × ((add_payload ⦃d = plain_digest⦄
          (add_all ⦃d = plain_digest⦄ (new_container one_pool_entries) additions)
          unsigned
          20).1
        ≡ answer ⦃d = plain_digest⦄ unsigned (
            alone_of ⦃d = plain_digest⦄ "plaintext_v1"
              (lookup "plaintext_v1" one_pool_entries)
              additions))
    × (arrival ⦃d = plain_digest⦄
          (add_all ⦃d = plain_digest⦄ (new_container one_pool_entries) additions)
          unsigned
        ≡ last_arrival ⦃d = plain_digest⦄ one_pool_entries additions unsigned)
container_splits_example =
    container_splits ⦃d = plain_digest⦄ one_pool_entries additions "plaintext_v1" unsigned 20

-- It is dated by its second coming, the second addition that has a pool.
dated_again :
    last_arrival ⦃d = plain_digest⦄ one_pool_entries additions unsigned
    ≡ some (record { seq = 2; ts = 17 })
unfolding lookup list_beq hash_of plaintext_hash
dated_again = refl
