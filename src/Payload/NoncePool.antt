-- ===== src/Payload/NoncePool.antt =====
-- The nonce-ordered pool of internal/payload/plaintext_v1/pool.go and auction_bid_v1/pool.go: the
-- two files hold the same code over two transaction types, which `NonceTx` abstracts.
pub mod Lane
pub mod Order
use aequa_network.Base.{
  ℕ, zero, suc, ◌+◌, ◌%◌, ◌^◌, String, Bool, true, false, ◌&&◌, not, List, [], ◌∷◌, ◌++◌, map,
  Option, none, some, ltb, leb, ◌==◌, Eq, if◌then◌else◌, string_eq, nat_eq, length, take, lookup,
  lookup_or, insert, remove_key,
}
use aequa_network.Payload.Types.{
  PlaintextTx, AuctionBidTx, Payload, plaintext, auction, plaintext_valid, auction_valid,
}
use aequa_network.Sorting.{sort_by}

-- What `Add` and `Get` read of a transaction.
pub record NonceTx (T : Type 0) : Type 0 where
  pub sender : T → String
  pub nonce : T → ℕ
  pub is_valid : T → Bool
  pub key : T → ℕ

instance abbrev pub plaintext_tx : NonceTx PlaintextTx
plaintext_tx = record {
  sender = λ t. t.sender;
  nonce = λ t. t.nonce;
  is_valid = plaintext_valid;
  key = λ t. t.fee;
}

instance abbrev pub auction_tx : NonceTx AuctionBidTx
auction_tx = record {
  sender = λ t. t.sender;
  nonce = λ t. t.nonce;
  is_valid = auction_valid;
  key = λ t. t.bid;
}

-- `gauge` is what the pool has added to the metric `mempool_size`.
pub record Pool (T : Type 0) : Type 0 where
  pub expect : List (String × ℕ)
  pub pend_by_sender : List (String × List T)
  pub future : List (String × List (ℕ × T))
  pub gauge : ℕ

-- The `result` label of `mempool_in_total`; the first two are errors, and so is `dup`.
pub data Result : Type 0 where
  invalid old dup future ok : Result

-- uint64 arithmetic on the expected nonce.
abbrev pub next_nonce : ℕ → ℕ
next_nonce n = (n + 1) % 2 ^ 64

module _ {T : Type 0} where
  abbrev pub new : Pool T
  new = record { expect = []; pend_by_sender = []; future = []; gauge = 0 }

  -- `append` to the sender's pending list, and the expected nonce after it.
  unfoldable pub enqueue : Pool T → String → T → ℕ → Pool T
  enqueue p f t nonce = record p {
    expect = insert f (next_nonce nonce) p.expect;
    pend_by_sender = insert f (lookup_or [] f p.pend_by_sender ++ t ∷ []) p.pend_by_sender;
  }

  -- One promotion: the future transaction `t` under the nonce `nx` becomes pending.
  unfoldable pub advance : Pool T → String → T → ℕ → Pool T
  unfolding enqueue
  advance p f t nx =
      let q = enqueue p f t nx in
      record q { future = insert f (remove_key nx (lookup_or [] f p.future)) p.future }

  -- The promotion loop. Each round takes one entry out of the sender's futures, so their number
  -- is fuel enough (`Order.promote-IsOrdered`: none is left at the expected nonce).
  unfoldable pub promote : ℕ → String → Pool T → Pool T
  promote zero f p = p
  promote (suc fuel) f p =
      let nx = lookup_or 0 f p.expect in
      elim (lookup nx (lookup_or [] f p.future)) [
        | some t ↦ promote fuel f (advance p f t nx)
        | none ↦ p
      ]

  unfoldable pub flatten : List (String × List T) → List T
  flatten [] = []
  flatten ((f, ts) ∷ m) = ts ++ flatten m

  unfoldable pub len : Pool T → ℕ
  unfolding flatten
  len p = length (flatten p.pend_by_sender)

module _ {T : Type 0} ⦃x : NonceTx T⦄ where
  -- The case `tx.Nonce == exp`.
  unfoldable pub add_ready : Pool T → T → Pool T × Result
  unfolding promote enqueue
  add_ready p t =
      let f = x.sender t in
      let q = promote (length (lookup_or [] f p.future)) f (enqueue p f t (x.nonce t)) in
      (record q { gauge = q.gauge + 1 }, ok)

  -- The case `tx.Nonce > exp`.
  unfoldable pub add_future : Pool T → T → Pool T × Result
  add_future p t =
      let f = x.sender t in
      let futs = lookup_or [] f p.future in
      elim (lookup (x.nonce t) futs) [
        | some u ↦ (p, dup)
        | none ↦ (record p { future = insert f (insert (x.nonce t) t futs) p.future }, future)
      ]

  unfoldable pub add : Pool T → T → Pool T × Result
  unfolding add_ready add_future
  add p t =
      if not (x.is_valid t)
      then (p, invalid)
      else let exp = lookup_or 0 (x.sender t) p.expect in
        if ltb (x.nonce t) exp
        then (p, old)
        else if x.nonce t == exp
        then add_ready p t
        else add_future p t

  -- `Get`, over the order in which the `range` loop meets the senders.
  unfoldable pub get : List (String × List T) → ℕ → List T
  unfolding flatten
  get order n =
      let buf = sort_by (λ a b. ltb (x.key b) (x.key a)) (flatten order) in
      if ltb 0 n && ltb n (length buf) then take n buf else buf
