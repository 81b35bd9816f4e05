-- ===== src/Payload/Container/Additions.antt =====
-- Runs of `Container.Add`, seen as independent pools and a record of arrivals.
use aequa_network.Base.{
  ℕ, ◌+◌, ◌%◌, ◌^◌, ◌≡◌, refl, ◌∙◌, ap, sym, subst, String, Bool, true, false, ◌&&◌, List, [], ◌∷◌,
  Option, none, some, ◌==◌, if◌then◌else◌, string_eq, bytes_eq, nat_eq, lookup, lookup-insert,
  arith, Bool-cases, Option-cases, inl, inr,
}
use aequa_network.Payload.Types.{Digest, Payload, type_of, hash_of}
use aequa_network.Payload.Container.{
  Mempool, AddResult, ignored, ArrivalMeta, Container, new_container, pool_add, route, add_payload,
  arrival,
}

-- A payload and the time of its addition. A log has the newest addition first.
abbrev pub Addition : Type 0
Addition = Payload × ℕ

-- Whether there is a pool for the type of a payload.
abbrev pub is_found : Option Mempool → Bool
is_found none = false
is_found (some pool) = true

abbrev pub is_pooled : List (String × Mempool) → Payload → Bool
is_pooled pools p = is_found (lookup (type_of p) pools)

-- How many additions of a log have a pool.
abbrev pub pooled_count : List (String × Mempool) → List Addition → ℕ
pooled_count pools [] = 0
pooled_count pools ((p, now) ∷ log) = (if is_pooled pools p then 1 else 0) + pooled_count pools log

count_step :
    (b b' : Bool) (seq n : ℕ)
    → b ≡ b'
    → seq ≡ n % 2 ^ 64
    → (if b then (seq + 1) % 2 ^ 64 else seq) ≡ ((if b' then 1 else 0) + n) % 2 ^ 64
count_step b true seq n h e = rw h (omega (arith, e))
count_step b false seq n h e = rw h (omega (arith, e))

module _ ⦃d : Digest⦄ where
  unfoldable pub add_all : Container → List Addition → Container
  add_all c [] = c
  add_all c ((p, now) ∷ log) = (add_payload (add_all c log) p now).0

  -- A pool that is handed the payloads of its type, and nothing else.
  abbrev pub alone : String → Mempool → List Addition → Mempool
  alone typ pool [] = pool
  alone typ pool ((p, now) ∷ log) =
      let before = alone typ pool log in if type_of p == typ then (pool_add before p).0 else before

  abbrev pub alone_of : String → Option Mempool → List Addition → Option Mempool
  alone_of typ none log = none
  alone_of typ (some pool) log = some (alone typ pool log)

  -- The date of the last addition with the hash of `p`, if a pool was there for it; its number is
  -- its place among the additions that have a pool.
  abbrev pub last_arrival : List (String × Mempool) → List Addition → Payload → Option ArrivalMeta
  last_arrival pools [] p = none
  last_arrival pools ((q, now) ∷ log) p =
      if is_pooled pools q && hash_of q == hash_of p
      then some (record { seq = (pooled_count pools log + 1) % 2 ^ 64; ts = now })
      else last_arrival pools log p

  -- A pool of the type `typ`, if there is one, is handed a payload of its own type.
  abbrev handed : String → Payload → Option Mempool → Option Mempool
  handed typ p none = none
  handed typ p (some pool) = some (if type_of p == typ then (pool_add pool p).0 else pool)

  handed-other :
      (typ : String) (p : Payload) (r : Option Mempool)
      → (type_of p == typ) ≡ false
      → handed typ p r ≡ r
  handed-other typ p none k = refl
  handed-other typ p (some pool) k = rw k refl

  handed-own :
      (typ : String) (p : Payload) (pool : Mempool)
      → (type_of p == typ) ≡ true
      → handed typ p (some pool) ≡ some (pool_add pool p).0
  handed-own typ p pool k = rw k refl

  add_payload-impl :
      (c : Container) (p : Payload) (now : ℕ) (typ : String)
      → lookup typ (add_payload c p now).0.impl ≡ handed typ p (lookup typ c.impl)
  unfolding add_payload route
  add_payload-impl c p now typ = elim (Option-cases (lookup (type_of p) c.impl)) [
    | inl o ↦ elim (Bool-cases (type_of p == typ)) [
      | inr k ↦ rw o (sym (handed-other typ p (lookup typ c.impl) k))
      | inl k ↦
          let missing : lookup typ c.impl ≡ none =
            subst (λ t. lookup t c.impl ≡ none) ((string_eq.same_iff (type_of p) typ).0 k) o in
          rw o (missing ∙ sym (ap (handed typ p) missing))
    ]
    | inr (pool, o) ↦ rw o (
        lookup-insert (type_of p) typ (pool_add pool p).0 c.impl
        ∙ elim (Bool-cases (type_of p == typ)) [
          | inr k ↦ rw k (sym (handed-other typ p (lookup typ c.impl) k))
          | inl k ↦
              let held : lookup typ c.impl ≡ some pool =
                subst (λ t. lookup t c.impl ≡ some pool) ((string_eq.same_iff (type_of p) typ).0 k)
                  o in
              ap (λ b. if b then some (pool_add pool p).0 else lookup typ c.impl) k
              ∙ sym (ap (handed typ p) held ∙ handed-own typ p pool k)
        ])
  ]

  add_payload-seq :
      (c : Container) (p : Payload) (now : ℕ)
      → (add_payload c p now).0.seq ≡ (if is_pooled c.impl p then (c.seq + 1) % 2 ^ 64 else c.seq)
  unfolding add_payload route
  add_payload-seq c p now = ground arith

  add_payload-meta :
      (c : Container) (p q : Payload) (now : ℕ)
      → arrival (add_payload c p now).0 q ≡ (
          if is_pooled c.impl p && hash_of p == hash_of q
          then some (record { seq = (c.seq + 1) % 2 ^ 64; ts = now })
          else arrival c q)
  unfolding add_payload route arrival
  add_payload-meta c p q now = elim (Option-cases (lookup (type_of p) c.impl)) [
    | inl o ↦ rw o refl
    | inr (pool, o) ↦ rw o (
        lookup-insert (hash_of p) (hash_of q) (record { seq = (c.seq + 1) % 2 ^ 64; ts = now })
          c.meta)
  ]

  alone_of-handed :
      (typ : String) (p : Payload) (now : ℕ) (log : List Addition) (r : Option Mempool)
      → handed typ p (alone_of typ r log) ≡ alone_of typ r ((p, now) ∷ log)
  alone_of-handed typ p now log none = refl
  alone_of-handed typ p now log (some pool) = refl

  add_all-impl :
      (pools : List (String × Mempool)) (log : List Addition) (typ : String)
      → lookup typ (add_all (new_container pools) log).impl ≡ alone_of typ (lookup typ pools) log
  unfolding add_all
  add_all-impl pools [] typ = elim (Option-cases (lookup typ pools)) [
    | inl o ↦ rw o refl
    | inr (pool, o) ↦ rw o refl
  ]
  add_all-impl pools ((p, now) ∷ log) typ =
      add_payload-impl (add_all (new_container pools) log) p now typ
      ∙ ap (handed typ p) (add_all-impl pools log typ)
      ∙ alone_of-handed typ p now log (lookup typ pools)

  is_found-alone_of :
      (typ : String) (r : Option Mempool) (log : List Addition)
      → is_found (alone_of typ r log) ≡ is_found r
  is_found-alone_of typ none log = refl
  is_found-alone_of typ (some pool) log = refl

  -- No addition brings a pool or takes one away.
  add_all-pooled :
      (pools : List (String × Mempool)) (log : List Addition) (p : Payload)
      → is_pooled (add_all (new_container pools) log).impl p ≡ is_pooled pools p
  add_all-pooled pools log p =
      ap is_found (add_all-impl pools log (type_of p))
      ∙ is_found-alone_of (type_of p) (lookup (type_of p) pools) log

  add_all-seq :
      (pools : List (String × Mempool)) (log : List Addition)
      → (add_all (new_container pools) log).seq ≡ pooled_count pools log % 2 ^ 64
  unfolding add_all
  add_all-seq pools [] = omega arith
  add_all-seq pools ((p, now) ∷ log) =
      add_payload-seq (add_all (new_container pools) log) p now
      ∙ count_step _ (is_pooled pools p) _ (pooled_count pools log) (add_all-pooled pools log p)
          (add_all-seq pools log)

  add_all-arrival :
      (pools : List (String × Mempool)) (log : List Addition) (p : Payload)
      → arrival (add_all (new_container pools) log) p ≡ last_arrival pools log p
  unfolding add_all arrival lookup
  add_all-arrival pools [] p = refl
  add_all-arrival pools ((q, now) ∷ log) p =
      let c = add_all (new_container pools) log in
      let number : (c.seq + 1) % 2 ^ 64 ≡ (pooled_count pools log + 1) % 2 ^ 64 =
        omega (arith, add_all-seq pools log) in
      add_payload-meta c q p now
      ∙ ap
          (λ b.
            if b && hash_of q == hash_of p
            then some (record { seq = (c.seq + 1) % 2 ^ 64; ts = now })
            else arrival c p)
          (add_all-pooled pools log q)
      ∙ ap
          (λ n.
            if is_pooled pools q && hash_of q == hash_of p
            then some (record { seq = n; ts = now })
            else arrival c p)
          number
      ∙ ap
          (λ old.
            if is_pooled pools q && hash_of q == hash_of p
            then some (record { seq = (pooled_count pools log + 1) % 2 ^ 64; ts = now })
            else old)
          (add_all-arrival pools log p)

  -- What a pool that may be missing answers to a payload.
  abbrev pub answer : Payload → Option Mempool → AddResult
  answer p none = ignored
  answer p (some pool) = (pool_add pool p).1

  add_payload-answer :
      (c : Container) (p : Payload) (now : ℕ)
      → (add_payload c p now).1 ≡ answer p (lookup (type_of p) c.impl)
  unfolding add_payload route
  add_payload-answer c p now = elim (Option-cases (lookup (type_of p) c.impl)) [
    | inl o ↦ rw o refl
    | inr (pool, o) ↦ rw o refl
  ]

  -- After any log of additions to a new container the pool of every type is what that pool becomes
  -- alone, from the payloads of its type in their order; the next payload gets the answer of that
  -- pool, or a nil error where there is no pool; and the arrival of a payload is that of the last
  -- addition with its hash for which there is a pool, taken or refused, numbered by its place among
  -- the additions for which there is one.
  pub container_splits :
      (pools : List (String × Mempool)) (log : List Addition) (typ : String) (p : Payload) (now : ℕ)
      → (lookup typ (add_all (new_container pools) log).impl ≡ alone_of typ (lookup typ pools) log)
        × ((add_payload (add_all (new_container pools) log) p now).1
            ≡ answer p (alone_of (type_of p) (lookup (type_of p) pools) log))
        × (arrival (add_all (new_container pools) log) p ≡ last_arrival pools log p)
  container_splits pools log typ p now = (
    add_all-impl pools log typ,
    add_payload-answer (add_all (new_container pools) log) p now
        ∙ ap (answer p) (add_all-impl pools log (type_of p)),
    add_all-arrival pools log p,
  )
