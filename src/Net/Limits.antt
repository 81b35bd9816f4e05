-- ===== src/Net/Limits.antt =====
-- internal/p2p/resources.go and internal/p2p/tss_limits.go: counters of what is open, with a limit.
-- The loops around `CompareAndSwap` make each operation one step. The gauge is the sum of what the
-- operations add to the metric of open connections or sessions.
use aequa_network.Base.{
  ℕ, ◌+◌, ◌-◌, ◌≤◌, ◌<◌, ◌≡◌, ◌↔◌, refl, Bool, true, false, List, [], ◌∷◌, leb, ◌==◌, if◌then◌else◌,
  nat_eq, arith, ◌⊎◌,
}

pub record Limiter : Type 0 where
  pub max : ℕ
  pub opened : ℕ
  pub gauge : ℕ

abbrev pub new_limiter : ℕ → Limiter
new_limiter max = record { max = max; opened = 0; gauge = 0 }

-- `ResourceManager.TryOpen`.
unfoldable pub try_open : Limiter → Limiter × Bool
try_open l =
    if leb l.max l.opened
    then (l, false)
    else (record l { opened = l.opened + 1; gauge = l.gauge + 1 }, true)

-- `ResourceManager.Close`.
unfoldable pub close : Limiter → Limiter
close l = if l.opened == 0 then l else record l { opened = l.opened - 1; gauge = l.gauge - 1 }

-- `TSSLimiter`: a limit that is not positive switches it off.
unfoldable pub try_open_session : Limiter → Limiter × Bool
unfolding try_open
try_open_session l = if l.max == 0 then (l, true) else try_open l

unfoldable pub close_session : Limiter → Limiter
unfolding close
close_session l = if l.max == 0 then l else close l

pub data Call : Type 0 where
  opens closes : Call

unfoldable pub sessions : ℕ → List Call → Limiter
sessions max [] = new_limiter max
sessions max (opens ∷ cs) = (try_open_session (sessions max cs)).0
sessions max (closes ∷ cs) = close_session (sessions max cs)

unfoldable pub connections : ℕ → List Call → Limiter
connections max [] = new_limiter max
connections max (opens ∷ cs) = (try_open (connections max cs)).0
connections max (closes ∷ cs) = close (connections max cs)

pub record Within (max : ℕ) (l : Limiter) : Type 0 where
  pub limit : l.max ≡ max
  pub bounded : l.opened ≤ max
  pub gauged : l.gauge ≡ l.opened

-- After any run of calls no more connections are open than the limit allows, and the gauge shows
-- their number.
pub connections-Within : (max : ℕ) (cs : List Call) → Within max (connections max cs)
unfolding connections try_open close
connections-Within max [] = record { limit = refl; bounded = omega arith; gauged = refl }
connections-Within max (opens ∷ cs) = let h = connections-Within max cs in ground arith
connections-Within max (closes ∷ cs) = let h = connections-Within max cs in ground arith

sessions-Within : (max : ℕ) (cs : List Call) → Within max (sessions max cs)
unfolding sessions try_open_session close_session
sessions-Within max [] = record { limit = refl; bounded = omega arith; gauged = refl }
sessions-Within max (opens ∷ cs) = let h = sessions-Within max cs in ground arith
sessions-Within max (closes ∷ cs) = let h = sessions-Within max cs in ground arith

-- After any run of calls the session limiter counts at most `max` open sessions and shows their number
-- in the gauge, and it opens another one exactly if it is switched off or below its limit.
pub session_limit :
    (max : ℕ) (cs : List Call)
    → Within max (sessions max cs)
      × (((try_open_session (sessions max cs)).1 ≡ true)
          ↔ ((max ≡ 0) ⊎ ((sessions max cs).opened < max)))
unfolding try_open_session try_open
session_limit max cs = let h = sessions-Within max cs in (h, ground arith)
