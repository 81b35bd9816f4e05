-- ===== src/Payload/NoncePool/Order.antt =====
-- Every sender's pending transactions carry the nonces 0, 1, 2, … in this order, up to the expected
-- one, and its futures lie beyond.
use aequa_network.Base.{
  ℕ, zero, suc, ◌+◌, ◌^◌, ◌≤◌, ◌<◌, ◌≡◌, refl, subst, String, List, [], ◌∷◌, ◌++◌, none, some, ltb,
  ◌==◌, string_eq, nat_eq, length, lookup, lookup_or, insert, remove_key, arith, eq_iff,
  length-remove_key_lt, lookup_of_length_zero, Option-cases, Bool-cases, inl, inr, All,
}
use aequa_network.Payload.NoncePool.{Pool, NonceTx, next_nonce, add, new}
use aequa_network.Payload.NoncePool.Lane.{
  Lane, view, lane_enqueue, lane_advance, lane_promote, lane_add, add-Lane,
}

module _ {T : Type 0} ⦃x : NonceTx T⦄ where
  -- The nonces of the list count up from `n`, and the next one is `e`.
  abbrev pub Consecutive : ℕ → List T → ℕ → Type 0
  Consecutive n [] e = n ≡ e
  Consecutive n (t ∷ ts) e = (x.nonce t ≡ n) × Consecutive (suc n) ts e

  -- Futures stand under their own nonce, at `e` or later, and below the largest uint64.
  abbrev pub Ahead : ℕ → List (ℕ × T) → Type 0
  Ahead e [] = Unit {0}
  Ahead e ((k, t) ∷ m) = (x.nonce t ≡ k) × (e ≤ k) × (k + 1 < 2 ^ 64) × Ahead e m

  pub record IsOrdered (l : Lane T) : Type 0 where
    pub counted : Consecutive 0 l.pending l.expect
    pub ahead : Ahead l.expect l.future
    pub settled : lookup l.expect l.future ≡ none

  Consecutive-append :
      (n e : ℕ) (ts : List T) (t : T)
      → Consecutive n ts e
      → x.nonce t ≡ e
      → Consecutive n (ts ++ t ∷ []) (suc e)
  Consecutive-append n e [] t h q = omega arith
  Consecutive-append n e (u ∷ ts) t h q = (h.0, Consecutive-append (suc n) e ts t h.1 q)

  -- What is left of the futures from `e` on, once the one at `e` is taken out.
  remove-Ahead : (e : ℕ) (m : List (ℕ × T)) → Ahead e m → Ahead (suc e) (remove_key e m)
  unfolding remove_key
  remove-Ahead e [] h = tt
  remove-Ahead e ((k, t) ∷ m) h = ground (arith, remove-Ahead e m)

  lookup-Ahead :
      (e k : ℕ) (m : List (ℕ × T)) (t : T)
      → Ahead e m
      → lookup k m ≡ some t
      → (x.nonce t ≡ k) × (e ≤ k) × (k + 1 < 2 ^ 64)
  unfolding lookup
  lookup-Ahead e k [] t h q = absurd (ground arith)
  lookup-Ahead e k ((j, u) ∷ m) t h q = ground (arith, lookup-Ahead e k m t h.3)

  Ahead-suc : (e : ℕ) (m : List (ℕ × T)) → Ahead e m → lookup e m ≡ none → Ahead (suc e) m
  unfolding lookup
  Ahead-suc e [] h q = tt
  Ahead-suc e ((j, u) ∷ m) h q = ground (arith, Ahead-suc e m h.3)

  insert-Ahead :
      (e k : ℕ) (m : List (ℕ × T)) (t : T)
      → Ahead e m
      → x.nonce t ≡ k
      → e ≤ k
      → k + 1 < 2 ^ 64
      → Ahead e (insert k t m)
  unfolding insert
  insert-Ahead e k [] t h q l b = ground arith
  insert-Ahead e k ((j, u) ∷ m) t h q l b = ground (arith, insert-Ahead e k m t h.3 q l b)

  -- The promotion loop ends by its own test within that many rounds, in an ordered lane.
  promote-IsOrdered :
      (fuel : ℕ) (l : Lane T)
      → length l.future ≤ fuel
      → Consecutive 0 l.pending l.expect
      → Ahead l.expect l.future
      → IsOrdered (lane_promote fuel l)
  unfolding lane_promote lane_advance
  promote-IsOrdered zero l b c a = record {
    counted = c;
    ahead = a;
    settled = lookup_of_length_zero l.expect l.future (omega arith);
  }
  promote-IsOrdered (suc fuel) l b c a = elim (Option-cases (lookup l.expect l.future)) [
    | inl e ↦ rw (e, lane_promote) (record { counted = c; ahead = a; settled = e })
    | inr (t, e) ↦
        let (q, _, w) = lookup-Ahead l.expect l.expect l.future t a e in
        let next : suc l.expect ≡ next_nonce l.expect = omega arith in
        rw (e, lane_promote)
          (promote-IsOrdered fuel (lane_advance l t l.expect)
            (omega (arith, length-remove_key_lt l.expect l.future t e))
            (subst (Consecutive 0 (l.pending ++ t ∷ [])) next
              (Consecutive-append 0 l.expect l.pending t c q))
            (subst (λ n. Ahead n (remove_key l.expect l.future)) next
              (remove-Ahead l.expect l.future a)))
  ]

  module _ (l : Lane T) (t : T) (bound : x.nonce t + 1 < 2 ^ 64) (o : IsOrdered l) where
    ready-IsOrdered :
        x.nonce t ≡ l.expect
        → IsOrdered (lane_promote (length l.future) (lane_enqueue l t (x.nonce t)))
    unfolding lane_enqueue
    ready-IsOrdered q =
        let next : suc l.expect ≡ next_nonce (x.nonce t) = omega arith in
        promote-IsOrdered (length l.future) (lane_enqueue l t (x.nonce t)) (omega arith)
          (subst (Consecutive 0 (l.pending ++ t ∷ [])) next
            (Consecutive-append 0 l.expect l.pending t o.counted q))
          (subst (λ n. Ahead n l.future) next (Ahead-suc l.expect l.future o.ahead o.settled))

    lookup-insert_ne :
        (k : ℕ) (m : List (ℕ × T))
        → k < x.nonce t
        → lookup k m ≡ none
        → lookup k (insert (x.nonce t) t m) ≡ none
    unfolding lookup insert
    lookup-insert_ne k [] h q = ground arith
    lookup-insert_ne k ((j, u) ∷ m) h q = ground (arith, lookup-insert_ne k m h)

    pub lane_add-IsOrdered : IsOrdered (lane_add l t).0
    unfolding lane_add
    lane_add-IsOrdered = elim (Bool-cases (x.is_valid t)) [
      | inr e ↦ rw (e, lane_add) o
      | inl e ↦ rw e (elim (Bool-cases (ltb (x.nonce t) l.expect)) [
        | inl lt ↦ rw lt o
        | inr lt ↦ rw lt (elim (Bool-cases (x.nonce t == l.expect)) [
          | inl q ↦ rw q (ready-IsOrdered (ground arith))
          | inr q ↦ rw q (elim (Option-cases (lookup (x.nonce t) l.future)) [
            | inr (u, d) ↦ rw d o
            | inl d ↦ rw d (record {
              counted = o.counted;
              ahead =
                  insert-Ahead l.expect (x.nonce t) l.future t o.ahead refl (ground arith) bound;
              settled = lookup-insert_ne l.expect l.future (ground arith) o.settled;
            })
          ])
        ])
      ])
    ]

  abbrev pub Ordered : Pool T → Type 0
  Ordered p = (f : String) → IsOrdered (view p f)

  -- `Add` keeps every sender's lane in order, for a nonce below the largest uint64.
  pub add-Ordered : (p : Pool T) (t : T) → x.nonce t + 1 < 2 ^ 64 → Ordered p → Ordered (add p t).0
  add-Ordered p t b o f =
      let (_, same, others) = add-Lane p t in
      elim (Bool-cases (x.sender t == f)) [
        | inl e ↦
            subst (λ g. IsOrdered (view (add p t).0 g)) ((eq_iff (x.sender t) f).0 e)
              (rw same (lane_add-IsOrdered (view p (x.sender t)) t b (o (x.sender t))))
        | inr e ↦ rw (others f e) (o f)
      ]

  unfoldable pub add_each : Pool T → List T → Pool T
  add_each p [] = p
  add_each p (t ∷ ts) = add_each (add p t).0 ts

  abbrev pub Bounded : List T → Type 0
  Bounded = All (λ t. x.nonce t + 1 < 2 ^ 64)

  add_each-Ordered : (p : Pool T) (ts : List T) → Bounded ts → Ordered p → Ordered (add_each p ts)
  unfolding add_each
  add_each-Ordered p [] b o = o
  add_each-Ordered p (t ∷ ts) b o = add_each-Ordered (add p t).0 ts b.1 (add-Ordered p t b.0 o)

  pub new-Ordered : Ordered new
  unfolding lookup_or lookup
  new-Ordered f = record { counted = refl; ahead = tt; settled = refl }

  -- After any run of additions of transactions with nonces below the largest uint64 to a new pool, in
  -- any order and with any errors on the way, each
  -- sender's pending transactions have the nonces 0, 1, 2, … in this order, the expected nonce
  -- follows the last of them, and no future transaction has that nonce or a lower one.
  pub pool_in_nonce_order :
      (ts : List T) (f : String) → Bounded ts → IsOrdered (view (add_each new ts) f)
  pool_in_nonce_order ts f b = add_each-Ordered new ts b new-Ordered f
