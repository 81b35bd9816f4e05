-- ===== src/Lifecycle.antt =====
-- pkg/lifecycle/manager.go: starting and stopping the services of a node. A service is what its calls
-- answer; a call is recorded in the order in which it is made. Joined errors are a list.
pub mod Order
use aequa_network.Base.{String, List, [], ◌∷◌, ◌++◌, Option, none, some}

-- What `Start` and `Stop` return; `none` is a nil error.
pub record Service : Type 0 where
  pub name : String
  pub start_error : Option String
  pub stop_error : Option String

-- A start that succeeds, a start that fails, and a stop.
pub data Call : Type 0 where
  starts fails stops : String → Call

-- The calls that were made, and the errors that are returned.
pub record Report : Type 0 where
  pub calls : List Call
  pub errors : List String

note : Option String → List String → List String
note none es = es
note (some e) es = e ∷ es

-- The loop that stops services, the last one first; the list is already reversed.
stop_each : List Service → Report
unfolding note
stop_each [] = record { calls = []; errors = [] }
stop_each (s ∷ ss) =
    let rest = stop_each ss in
    record { calls = stops s.name ∷ rest.calls; errors = note s.stop_error rest.errors }

-- One start: `rest` is what follows if it succeeds, `back` the stops that follow if it fails.
begin : String → Option String → Report → Report → Report
begin name none rest back = record { calls = starts name ∷ rest.calls; errors = rest.errors }
begin name (some e) rest back = record { calls = fails name ∷ back.calls; errors = e ∷ back.errors }

-- `started` is the list of the started services, the last one first.
start_from : List Service → List Service → Report
unfolding stop_each begin
start_from [] started = record { calls = []; errors = [] }
start_from (s ∷ ss) started =
    begin s.name s.start_error (start_from ss (s ∷ started)) (stop_each started)

unfoldable pub start_all : List Service → Report
unfolding start_from
start_all svcs = start_from svcs []

pub reversed : List Service → List Service → List Service
reversed [] acc = acc
reversed (s ∷ ss) acc = reversed ss (s ∷ acc)

unfoldable pub stop_all : List Service → Report
unfolding reversed stop_each
stop_all svcs = stop_each (reversed svcs [])
