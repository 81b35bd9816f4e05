-- ===== src/Payload/PrivatePool.antt =====
-- internal/payload/private_v1/pool.go: the bounded, duplicate-free pool of private transactions.
-- The optional early share (`AEQUA_BEAST_EARLY_SHARE`) does not touch the pool and is left out.
use aequa_network.Base.{
  ℕ, ◌+◌, ◌≤◌, ◌≡◌, refl, not, ◌||◌, List, [], ◌∷◌, ◌++◌, ltb, leb, ◌==◌, if◌then◌else◌, bytes_eq,
  nat_eq, length, take, contains, add_key, Distinct, arith, length-append, contains-add_key_self,
}
use aequa_network.Payload.Types.{Digest, PrivateTx, private_valid, private_hash}

pub record PrivatePool : Type 0 where
  pub items : List PrivateTx
  pub seen : List (List ℕ)
  pub max : ℕ

abbrev pub new_private : PrivatePool
new_private = record { items = []; seen = []; max = 4096 }

pub data PrivateResult : Type 0 where
  invalid overflow dup ok : PrivateResult

-- `n ≤ 0` asks for everything.
unfoldable pub get_private : PrivatePool → ℕ → List PrivateTx
get_private p n = if n == 0 || ltb (length p.items) n then p.items else take n p.items

module _ ⦃d : Digest⦄ where
  unfoldable pub add_private : PrivatePool → PrivateTx → PrivatePool × PrivateResult
  add_private p tx =
      if not (private_valid tx)
      then (p, invalid)
      else if leb p.max (length p.items)
      then (p, overflow)
      else if contains p.seen (private_hash tx)
      then (p, dup)
      else (record p { items = p.items ++ tx ∷ []; seen = add_key (private_hash tx) p.seen }, ok)

  -- Newest first, as `seen` lists them.
  abbrev pub hashes_from : List (List ℕ) → List PrivateTx → List (List ℕ)
  hashes_from acc [] = acc
  hashes_from acc (t ∷ ts) = hashes_from (private_hash t ∷ acc) ts

  -- Within its capacity, and `seen` holds the hashes of the items, each once.
  pub record IsValid (p : PrivatePool) : Type 0 where
    pub bounded : length p.items ≤ p.max
    pub hashed : p.seen ≡ hashes_from [] p.items
    pub distinct : Distinct p.seen

  hashes_from-append :
      (acc : List (List ℕ)) (ts : List PrivateTx) (t : PrivateTx)
      → hashes_from acc (ts ++ t ∷ []) ≡ private_hash t ∷ hashes_from acc ts
  hashes_from-append acc [] t = refl
  hashes_from-append acc (u ∷ ts) t = hashes_from-append (private_hash u ∷ acc) ts t

  -- `Add` keeps the pool within its capacity and free of duplicates by hash, and `seen` in step
  -- with the items, whether it stores the transaction or refuses it.
  pub add_private-IsValid :
      (p : PrivatePool) (tx : PrivateTx) → IsValid p → IsValid (add_private p tx).0
  unfolding add_private add_key
  add_private-IsValid p tx v =
      ground (arith, hashes_from-append [] p.items tx, length-append p.items (tx ∷ []))

  -- A transaction that was stored is refused as a duplicate, or for want of room, when it comes
  -- again.
  pub add_private_again :
      (p : PrivatePool) (tx : PrivateTx)
      → (add_private p tx).1 ≡ ok
      → (add_private (add_private p tx).0 tx).1
        ≡ (if leb p.max (length p.items + 1) then overflow else dup)
  unfolding add_private
  add_private_again p tx h =
      ground
        (arith, contains-add_key_self (private_hash tx) p.seen, length-append p.items (tx ∷ []))
