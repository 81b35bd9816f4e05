-- ===== src/Payload/Container.antt =====
-- internal/payload/container.go: the typed mempools behind one door, with arrival metadata.
pub mod Additions
use aequa_network.Base.{
  ℕ, ◌+◌, ◌%◌, ◌^◌, ◌≡◌, refl, String, Bool, true, false, List, [], ◌∷◌, map, Option, none, some,
  ◌==◌, if◌then◌else◌, string_eq, bytes_eq, nat_eq, length, lookup, insert, arith, All,
  lookup-insert_self, Bool-cases, inl, inr, eq_iff,
}
use aequa_network.Payload.Types.{
  Digest, PlaintextTx, AuctionBidTx, Payload, plaintext, auction, private, type_of, hash_of,
}
use aequa_network.Payload.NoncePool.{Pool, plaintext_tx, auction_tx, Result, add, get, len}
use aequa_network.Payload.NoncePool
use aequa_network.Payload.PrivatePool.{PrivatePool, PrivateResult, add_private, get_private}
use aequa_network.Payload.PrivatePool

-- The implementations of `TypedMempool`.
pub data Mempool : Type 0 where
  plaintexts : Pool PlaintextTx → Mempool
  auctions : Pool AuctionBidTx → Mempool
  privates : PrivatePool → Mempool

-- The type of the payloads that a pool stores.
abbrev pub pool_type : Mempool → String
pool_type (plaintexts p) = "plaintext_v1"
pool_type (auctions p) = "auction_bid_v1"
pool_type (privates p) = "private_v1"

-- `ignored` is the nil error of a pool that is handed another type, or of a missing pool.
pub data AddResult : Type 0 where
  ignored : AddResult
  nonce_result : Result → AddResult
  private_result : PrivateResult → AddResult

-- Whether `Add` returned an error.
abbrev pub is_error : AddResult → Bool
is_error ignored = false
is_error (nonce_result NoncePool.ok) = false
is_error (nonce_result NoncePool.future) = false
is_error (nonce_result _) = true
is_error (private_result PrivatePool.ok) = false
is_error (private_result _) = true

-- The order in which `range` meets the senders of a pool: Go leaves it open, so it is a parameter.
pub record MapOrder : Type 0 where
  pub plaintext_order : List (String × List PlaintextTx) → List (String × List PlaintextTx)
  pub auction_order : List (String × List AuctionBidTx) → List (String × List AuctionBidTx)

pub record ArrivalMeta : Type 0 where
  pub seq : ℕ
  pub ts : ℕ

pub record Container : Type 0 where
  pub impl : List (String × Mempool)
  pub meta : List (List ℕ × ArrivalMeta)
  pub seq : ℕ

abbrev pub new_container : List (String × Mempool) → Container
new_container pools = record { impl = pools; meta = []; seq = 0 }

unfoldable pub pool_len : Mempool → ℕ
pool_len (plaintexts p) = len p
pool_len (auctions p) = len p
pool_len (privates p) = length p.items

unfoldable pub pool_get : MapOrder → Mempool → ℕ → List Payload
pool_get o (plaintexts p) n = map plaintext (get (o.plaintext_order p.pend_by_sender) n)
pool_get o (auctions p) n = map auction (get (o.auction_order p.pend_by_sender) n)
pool_get o (privates p) n = map private (get_private p n)

get_some : MapOrder → Option Mempool → ℕ → List Payload
get_some o none n = []
get_some o (some pool) n = pool_get o pool n

unfoldable pub get_every : MapOrder → Option Mempool → List Payload
get_every o none = []
get_every o (some pool) = if pool_len pool == 0 then [] else pool_get o pool (pool_len pool)

unfoldable pub get_n : MapOrder → Container → String → ℕ → List Payload
unfolding get_some
get_n o c typ n = get_some o (lookup typ c.impl) n

-- `GetAll`.
unfoldable pub get_all : MapOrder → Container → String → List Payload
unfolding get_every
get_all o c typ = get_every o (lookup typ c.impl)

sum_len : List (String × Mempool) → ℕ
sum_len [] = 0
sum_len ((k, pool) ∷ m) = pool_len pool + sum_len m

-- `Len`.
unfoldable pub total_len : Container → ℕ
unfolding sum_len
total_len c = sum_len c.impl

module _ ⦃d : Digest⦄ where
  unfoldable pub pool_add : Mempool → Payload → Mempool × AddResult
  pool_add (plaintexts p) (plaintext t) = let (q, r) = add p t in (plaintexts q, nonce_result r)
  pool_add (auctions p) (auction t) = let (q, r) = add p t in (auctions q, nonce_result r)
  pool_add (privates p) (private t) = let (q, r) = add_private p t in (privates q, private_result r)
  pool_add pool t = (pool, ignored)

  -- The arrival is noted before the pool decides.
  route : Container → Payload → ℕ → Option Mempool → Container × AddResult
  route c p now none = (c, ignored)
  route c p now (some pool) =
      let seq' = (c.seq + 1) % 2 ^ 64 in
      let (pool', r) = pool_add pool p in
      (
        record {
          impl = insert (type_of p) pool' c.impl;
          meta = insert (hash_of p) (record { seq = seq'; ts = now }) c.meta;
          seq = seq';
        },
        r,
      )

  unfoldable pub add_payload : Container → Payload → ℕ → Container × AddResult
  unfolding route
  add_payload c p now = route c p now (lookup (type_of p) c.impl)

  unfoldable pub arrival : Container → Payload → Option ArrivalMeta
  arrival c p = lookup (hash_of p) c.meta

All-map_type :
    {T : Type 0} (f : T → Payload) (typ : String)
    → ((t : T) → type_of (f t) ≡ typ)
    → (ts : List T) → All (λ p. type_of p ≡ typ) (map f ts)
All-map_type f typ h [] = tt
All-map_type f typ h (t ∷ ts) = (h t, All-map_type f typ h ts)

pub pool_get-type :
    (o : MapOrder) (pool : Mempool) (n : ℕ)
    → All (λ p. type_of p ≡ pool_type pool) (pool_get o pool n)
unfolding pool_get
pool_get-type o (plaintexts p) n =
    All-map_type plaintext _ (λ t. refl) (get (o.plaintext_order p.pend_by_sender) n)
pool_get-type o (auctions p) n =
    All-map_type auction _ (λ t. refl) (get (o.auction_order p.pend_by_sender) n)
pool_get-type o (privates p) n = All-map_type private _ (λ t. refl) (get_private p n)

-- Each pool stands under its own type, as the node wires them.
abbrev pub WellKeyed : Container → Type 0
WellKeyed c = (typ : String) (pool : Mempool) → lookup typ c.impl ≡ some pool → pool_type pool ≡ typ

-- That each entry of the map is well keyed is enough.
pub new_container-WellKeyed :
    (pools : List (String × Mempool))
    → All (λ e. pool_type e.1 ≡ e.0) pools
    → WellKeyed (new_container pools)
unfolding lookup
new_container-WellKeyed [] h typ pool q = absurd (ground arith)
new_container-WellKeyed ((k, p) ∷ m) h typ pool q = elim (Bool-cases (k == typ)) [
  | inl e ↦ ground (arith, eq_iff k typ)
  | inr e ↦ new_container-WellKeyed m h.1 typ pool (ground arith)
]

get_every-type :
    (o : MapOrder) (typ : String) (r : Option Mempool)
    → ((pool : Mempool) → r ≡ some pool → pool_type pool ≡ typ)
    → All (λ p. type_of p ≡ typ) (get_every o r)
unfolding get_every
get_every-type o typ none k = tt
get_every-type o typ (some pool) k = elim (Bool-cases (pool_len pool == 0)) [
  | inl e ↦ rw e tt
  | inr e ↦ rw e (rw (k pool refl) at (pool_get-type o pool (pool_len pool)))
]

pub get_all-type :
    (o : MapOrder) (c : Container) (typ : String)
    → WellKeyed c
    → All (λ p. type_of p ≡ typ) (get_all o c typ)
unfolding get_all
get_all-type o c typ k = get_every-type o typ (lookup typ c.impl) (k typ)
