-- ===== src/Tss/Session.antt =====
-- internal/tss/session/manager.go: the session manager. Times are in milliseconds, and the clock is
-- an argument; the watchdog's ticker is a step `tick`. Metrics and log lines are left out, except
-- the result that `tss_sessions_total` counts.
pub mod Runs
use Prim.Native.String.{◌++◌ as str_append}
use aequa_network.Base.{
  ℕ, ◌+◌, ◌-◌, String, Bool, true, false, ◌&&◌, not, List, [], ◌∷◌, Option, none, some, ltb, leb,
  ◌==◌, if◌then◌else◌, string_eq, length, contains, add_key,
}

pub data Phase : Type 0 where
  init gather combine done : Phase

pub record Config : Type 0 where
  pub threshold : ℕ
  pub gather_timeout : ℕ
  pub combine_timeout : ℕ

-- An option that is too small or not positive is replaced.
unfoldable pub default_config : Config → Config
default_config c = record {
  threshold = if ltb c.threshold 2 then 2 else c.threshold;
  gather_timeout = if leb c.gather_timeout 0 then 2000 else c.gather_timeout;
  combine_timeout = if leb c.combine_timeout 0 then 2000 else c.combine_timeout;
}

-- `watched` is whether `Start` made the context, `stopped` whether it was cancelled; `ended` lists
-- the results that were counted, newest first.
pub record Manager : Type 0 where
  pub cfg : Config
  pub phase : Phase
  pub started_at : ℕ
  pub shares : List String
  pub timed_out : Bool
  pub watched : Bool
  pub stopped : Bool
  pub ended : List String

unfoldable pub new_manager : Config → Manager
unfolding default_config
new_manager c = record {
  cfg = default_config c;
  phase = init;
  started_at = 0;
  shares = [];
  timed_out = false;
  watched = false;
  stopped = false;
  ended = [];
}

unfoldable pub start : Manager → ℕ → Manager
start m now = if m.watched then m else record m { watched = true; started_at = now }

unfoldable pub stop : Manager → Manager
stop m = if m.watched then record m { stopped = true } else m

expire : Manager → ℕ → Phase → Manager
expire m now gather =
    if leb m.cfg.gather_timeout (now - m.started_at)
    then record m { timed_out = true; ended = "timeout" ∷ m.ended; phase = done }
    else m
expire m now _ = m

-- One tick of `watchdog`, which runs between `Start` and `Stop`.
unfoldable pub tick : Manager → ℕ → Manager
unfolding expire
tick m now = if m.watched && not m.stopped then expire m now m.phase else m

advance_share : Manager → String → Phase → Manager × Bool
advance_share m key gather =
    let shares' = add_key key m.shares in
    if contains m.shares key
    then (m, false)
    else if leb m.cfg.threshold (length shares')
    then (record m { shares = shares'; phase = combine }, true)
    else (record m { shares = shares' }, false)
advance_share m key _ =
    if contains m.shares key
    then (m, false)
    else (record m { shares = add_key key m.shares }, false)

enter : Manager → ℕ → Phase → Manager
enter m now init = record m { phase = gather; started_at = now }
enter m now _ = m

is_done : Phase → Bool
is_done done = true
is_done _ = false

unfoldable pub share_key : String → String → String
share_key from nonce = str_append from (str_append "|" nonce)

unfoldable pub on_share : Manager → String → String → ℕ → Manager × Bool
unfolding is_done enter advance_share share_key
on_share m from nonce now =
    if is_done m.phase
    then (m, false)
    else let e = enter m now m.phase in advance_share e (share_key from nonce) e.phase

close : Manager → Phase → Manager
close m combine = record m { ended = "ok" ∷ m.ended; phase = done }
close m _ = m

unfoldable pub finalize : Manager → Manager
unfolding close
finalize m = close m m.phase

-- What can happen to a session.
pub data Event : Type 0 where
  started ticked : ℕ → Event
  shared : String → String → ℕ → Event
  finalized stopped_by : Event

unfoldable pub step : Manager → Event → Manager
unfolding start tick on_share finalize stop
step m (started now) = start m now
step m (ticked now) = tick m now
step m (shared from nonce now) = (on_share m from nonce now).0
step m finalized = finalize m
step m stopped_by = stop m

-- The manager after a log of events, newest first.
unfoldable pub run : Config → List Event → Manager
unfolding new_manager step
run c [] = new_manager c
run c (e ∷ es) = step (run c es) e
