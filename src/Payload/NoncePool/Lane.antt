-- ===== src/Payload/NoncePool/Lane.antt =====
-- The pool seen from one sender: its expected nonce, pending list and futures. Each operation of
-- the pool is that operation on the sender's lane, and leaves the other lanes alone.
use aequa_network.Base.{
  ℕ, zero, suc, ◌≡◌, refl, ◌∙◌, ap, String, false, not, List, [], ◌∷◌, ◌++◌, none, some, ltb, ◌==◌,
  if◌then◌else◌, string_eq, nat_eq, length, lookup, lookup_or, insert, remove_key, lookup_or-insert,
  arith, ==_self, eq_iff, Option-cases, Bool-cases, inl, inr,
}
use aequa_network.Payload.NoncePool.{
  Pool, NonceTx, Result, invalid, old, dup, future, ok, next_nonce, enqueue, advance, promote,
  add_ready, add_future, add,
}

pub record Lane (T : Type 0) : Type 0 where
  pub expect : ℕ
  pub pending : List T
  pub future : List (ℕ × T)

module _ {T : Type 0} where
  abbrev pub view : Pool T → String → Lane T
  view p f = record {
    expect = lookup_or 0 f p.expect;
    pending = lookup_or [] f p.pend_by_sender;
    future = lookup_or [] f p.future;
  }

  unfoldable pub lane_enqueue : Lane T → T → ℕ → Lane T
  lane_enqueue l t nonce = record l { expect = next_nonce nonce; pending = l.pending ++ t ∷ [] }

  unfoldable pub lane_advance : Lane T → T → ℕ → Lane T
  unfolding lane_enqueue
  lane_advance l t nx = record (lane_enqueue l t nx) { future = remove_key nx l.future }

  unfoldable pub lane_promote : ℕ → Lane T → Lane T
  lane_promote zero l = l
  lane_promote (suc fuel) l = elim (lookup l.expect l.future) [
    | some t ↦ lane_promote fuel (lane_advance l t l.expect)
    | none ↦ l
  ]

  view-enqueue :
      (p : Pool T) (f g : String) (t : T) (n : ℕ)
      → view (enqueue p f t n) g ≡ (if f == g then lane_enqueue (view p g) t n else view p g)
  unfolding enqueue lane_enqueue
  view-enqueue p f g t n = ground (
    arith,
    eq_iff f g,
    lookup_or-insert 0 f g (next_nonce n) p.expect,
    lookup_or-insert [] f g (lookup_or [] f p.pend_by_sender ++ t ∷ []) p.pend_by_sender,
  )

  view-advance_self :
      (p : Pool T) (f : String) (t : T) (n : ℕ)
      → view (advance p f t n) f ≡ lane_advance (view p f) t n
  unfolding advance lane_advance
  view-advance_self p f t n = ground (
    arith,
    ==_self f,
    lookup_or-insert 0 f f (next_nonce n) p.expect,
    lookup_or-insert [] f f (lookup_or [] f p.pend_by_sender ++ t ∷ []) p.pend_by_sender,
    lookup_or-insert [] f f (remove_key n (lookup_or [] f p.future)) p.future,
  )

  view-advance_other :
      (p : Pool T) (f g : String) (t : T) (n : ℕ)
      → (f == g) ≡ false
      → view (advance p f t n) g ≡ view p g
  unfolding advance
  view-advance_other p f g t n h = ground (
    arith,
    lookup_or-insert 0 f g (next_nonce n) p.expect,
    lookup_or-insert [] f g (lookup_or [] f p.pend_by_sender ++ t ∷ []) p.pend_by_sender,
    lookup_or-insert [] f g (remove_key n (lookup_or [] f p.future)) p.future,
  )

  view-promote_self :
      (fuel : ℕ) (p : Pool T) (f : String)
      → view (promote fuel f p) f ≡ lane_promote fuel (view p f)
  unfolding promote lane_promote
  view-promote_self zero p f = refl
  view-promote_self (suc fuel) p f =
      elim (Option-cases (lookup (view p f).expect (view p f).future)) [
        | inl e ↦ rw (e, lane_promote) (rw (e, promote))
        | inr (t, e) ↦
            rw (e, lane_promote)
              (rw (e, promote)
                (view-promote_self fuel (advance p f t (lookup_or 0 f p.expect)) f
                  ∙ ap (lane_promote fuel) (view-advance_self p f t (lookup_or 0 f p.expect))))
      ]

  view-promote_other :
      (fuel : ℕ) (p : Pool T) (f g : String)
      → (f == g) ≡ false
      → view (promote fuel f p) g ≡ view p g
  unfolding promote
  view-promote_other zero p f g h = refl
  view-promote_other (suc fuel) p f g h =
      elim (Option-cases (lookup (lookup_or 0 f p.expect) (lookup_or [] f p.future))) [
        | inl e ↦ rw (e, promote)
        | inr (t, e) ↦
            rw (e, promote)
              (view-promote_other fuel (advance p f t (lookup_or 0 f p.expect)) f g h
                ∙ view-advance_other p f g t (lookup_or 0 f p.expect) h)
      ]

module _ {T : Type 0} ⦃x : NonceTx T⦄ where
  -- `Add` on one lane.
  unfoldable pub lane_add : Lane T → T → Lane T × Result
  unfolding lane_enqueue lane_promote
  lane_add l t =
      if not (x.is_valid t)
      then (l, invalid)
      else if ltb (x.nonce t) l.expect
      then (l, old)
      else if x.nonce t == l.expect
      then (lane_promote (length l.future) (lane_enqueue l t (x.nonce t)), ok)
      else elim (lookup (x.nonce t) l.future) [
        | some u ↦ (l, dup)
        | none ↦ (record l { future = insert (x.nonce t) t l.future }, future)
      ]

  abbrev pub AddsLane : Pool T → T → Pool T × Result → Lane T × Result → Type 0
  AddsLane p t r s =
      (r.1 ≡ s.1)
      × (view r.0 (x.sender t) ≡ s.0)
      × ((g : String) → (x.sender t == g) ≡ false → view r.0 g ≡ view p g)

  ready_lane :
      (p : Pool T) (t : T)
      → AddsLane p t (add_ready p t) (
        lane_promote
            (length (view p (x.sender t)).future)
            (lane_enqueue (view p (x.sender t)) t (x.nonce t)),
        ok,
      )
  unfolding add_ready
  ready_lane p t =
      let f = x.sender t in
      let q = enqueue p f t (x.nonce t) in
      let fuel = length (lookup_or [] f p.future) in
      (
        refl,
        view-promote_self fuel q f
            ∙ ap (lane_promote fuel) (view-enqueue p f f t (x.nonce t) ∙ rw (==_self f)),
        λ g h. view-promote_other fuel q f g h ∙ view-enqueue p f g t (x.nonce t) ∙ rw h,
      )

  future_lane :
      (p : Pool T) (t : T)
      → AddsLane p t (add_future p t) (elim (lookup (x.nonce t) (view p (x.sender t)).future) [
        | some u ↦ (view p (x.sender t), dup)
        | none ↦ (
          record (view p (x.sender t)) {
            future = insert (x.nonce t) t (view p (x.sender t)).future;
          },
          future,
        )
      ])
  unfolding add_future
  future_lane p t = (
    ground arith,
    ground (
      arith,
      ==_self (x.sender t),
      lookup_or-insert [] (x.sender t) (x.sender t)
          (insert (x.nonce t) t (lookup_or [] (x.sender t) p.future)) p.future,
    ),
    λ g h. ground (
      arith,
      lookup_or-insert [] (x.sender t) g (insert (x.nonce t) t (lookup_or [] (x.sender t) p.future))
          p.future,
    ),
  )

  -- `Add` is `Add` on the lane of the transaction's sender: same result, same new lane, and every
  -- other sender's lane is as it was.
  pub add-Lane : (p : Pool T) (t : T) → AddsLane p t (add p t) (lane_add (view p (x.sender t)) t)
  unfolding add lane_add
  add-Lane p t = elim (Bool-cases (x.is_valid t)) [
    | inr e ↦ rw (e, add) (refl, refl, λ g h. refl)
    | inl e ↦ rw e (elim (Bool-cases (ltb (x.nonce t) (view p (x.sender t)).expect)) [
      | inl l ↦ rw l (refl, refl, λ g h. refl)
      | inr l ↦ rw l (elim (Bool-cases (x.nonce t == (view p (x.sender t)).expect)) [
        | inl q ↦ rw q (ready_lane p t)
        | inr q ↦ rw q (future_lane p t)
      ])
    ])
  ]
