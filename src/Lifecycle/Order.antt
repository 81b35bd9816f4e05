-- ===== src/Lifecycle/Order.antt =====
-- Which services run after a start, and in which order they are stopped.
use aequa_network.Base.{
  ◌≡◌, refl, String, Bool, true, false, List, [], ◌∷◌, map, Option, none, some, ◌==◌, ==_self,
  if◌then◌else◌, string_eq,
}
use aequa_network.Lifecycle.{
  Service, Call, starts, fails, stops, Report, stop_each, begin, start_from, start_all, reversed,
  stop_all,
}

-- The services that run after some calls, the last one started first. Only the running service that
-- was started last may be stopped; `none` says that the calls were out of this order. A stop that
-- returns an error counts as a stop.
unfoldable pub running : List String → List Call → Option (List String)
running up [] = some up
running up (starts n ∷ cs) = running (n ∷ up) cs
running up (fails n ∷ cs) = running up cs
running [] (stops n ∷ cs) = none
running (u ∷ up) (stops n ∷ cs) = let rest = running up cs in if u == n then rest else none

abbrev pub names : List Service → List String
names = map (λ s. s.name)

abbrev pub no_errors : Report → Bool
no_errors r = elim r.errors [ [] ↦ true | e ∷ es ↦ false ]

stops_all : (ss : List Service) → running (names ss) (stop_each ss).calls ≡ some []
unfolding running stop_each
stops_all [] = refl
stops_all (s ∷ ss) = rw (==_self s.name) (stops_all ss)

begins :
    (name : String) (e : Option String) (rest back : Report) (up all : List String)
    → running (name ∷ up) rest.calls ≡ some (if no_errors rest then all else [])
    → running up back.calls ≡ some []
    → running up (begin name e rest back).calls
      ≡ some (if no_errors (begin name e rest back) then all else [])
unfolding running begin
begins name none rest back up all h k = h
begins name (some e) rest back up all h k = k

starts_all :
    (ss started : List Service)
    → running (names started) (start_from ss started).calls
      ≡ some (if no_errors (start_from ss started) then names (reversed ss started) else [])
unfolding running start_from reversed
starts_all [] started = refl
starts_all (s ∷ ss) started =
    begins s.name s.start_error (start_from ss (s ∷ started)) (stop_each started) (names started)
      (names (reversed ss (s ∷ started))) (starts_all ss (s ∷ started)) (stops_all started)

-- `StartAll` runs all services if it returns no error, and none if it returns one: those that were
-- started are stopped again, the last one first. `StopAll` stops all running services in that order.
pub start_all_or_none :
    (svcs : List Service)
    → (running [] (start_all svcs).calls
        ≡ some (if no_errors (start_all svcs) then names (reversed svcs []) else []))
      × (running (names (reversed svcs [])) (stop_all svcs).calls ≡ some [])
unfolding start_all stop_all
start_all_or_none svcs = (starts_all svcs [], stops_all (reversed svcs []))
