-- ===== src/Tss/Session/Runs.antt =====
-- What every run of a session keeps, and how it ends.
use aequa_network.Base.{
  ℕ, ◌≤◌, ◌<◌, ◌≡◌, ◌⊎◌, refl, String, true, false, List, [], ◌∷◌, arith, string_eq, length,
  contains, add_key, Distinct,
}
use aequa_network.Tss.Session.{
  Phase, init, gather, combine, done, Config, Manager, default_config, new_manager, start, stop,
  tick, on_share, finalize, Event, started, ticked, shared, finalized, stopped_by, step, run,
  expire, advance_share, enter, is_done, close,
}

-- The shares and the results that each phase stands for. A session that ended was closed with a
-- threshold of distinct shares, or timed out with fewer.
abbrev pub Fits : Phase → Manager → Type 0
Fits init m = (m.shares ≡ []) × (m.ended ≡ []) × (m.timed_out ≡ false)
Fits gather m =
    (1 ≤ length m.shares)
    × (length m.shares < m.cfg.threshold)
    × (m.ended ≡ [])
    × (m.timed_out ≡ false)
Fits combine m = (m.cfg.threshold ≤ length m.shares) × (m.ended ≡ []) × (m.timed_out ≡ false)
Fits done m =
    ((m.ended ≡ "ok" ∷ []) × (m.timed_out ≡ false) × (m.cfg.threshold ≤ length m.shares))
    ⊎ ((m.ended ≡ "timeout" ∷ []) × (m.timed_out ≡ true) × (length m.shares < m.cfg.threshold))

pub record IsValid (m : Manager) : Type 0 where
  pub quorum : 2 ≤ m.cfg.threshold
  pub distinct : Distinct m.shares
  pub fits : Fits m.phase m

new-IsValid : (c : Config) → IsValid (new_manager c)
unfolding new_manager default_config
new-IsValid c = record { quorum = ground arith; distinct = tt; fits = (refl, refl, refl) }

module _ (m : Manager) (v : IsValid m) where
  start-IsValid : (now : ℕ) → IsValid (start m now)
  unfolding start
  start-IsValid now = ground arith

  stop-IsValid : IsValid (stop m)
  unfolding stop
  stop-IsValid = ground arith

  tick-IsValid : (now : ℕ) → IsValid (tick m now)
  unfolding tick expire
  tick-IsValid now = ground arith

  finalize-IsValid : IsValid (finalize m)
  unfolding finalize close
  finalize-IsValid = ground arith

  on_share-IsValid : (from nonce : String) (now : ℕ) → IsValid (on_share m from nonce now).0
  unfolding on_share enter advance_share is_done add_key contains
  on_share-IsValid from nonce now = ground arith

  pub step-IsValid : (e : Event) → IsValid (step m e)
  unfolding step
  step-IsValid (started now) = start-IsValid now
  step-IsValid (ticked now) = tick-IsValid now
  step-IsValid (shared from nonce now) = on_share-IsValid from nonce now
  step-IsValid finalized = finalize-IsValid
  step-IsValid stopped_by = stop-IsValid

-- After any run, the phase tells what was collected: nothing at init, between one share and the
-- threshold at gather, the threshold at combine; and a session that is done was counted exactly
-- once, as ok with a threshold of distinct shares, or as a timeout with fewer.
pub run-IsValid : (c : Config) (es : List Event) → IsValid (run c es)
unfolding run
run-IsValid c [] = new-IsValid c
run-IsValid c (e ∷ es) = step-IsValid (run c es) (run-IsValid c es) e
