-- ===== src/Tests/Startup.antt =====
-- Runs of pkg/lifecycle.
use aequa_network.Base.{◌≡◌, refl, String, List, [], ◌∷◌, none, some, if◌then◌else◌, string_eq}
use aequa_network.Lifecycle.{Service, starts, fails, stops, start_all, stop_all, reversed}
use aequa_network.Lifecycle.Order.{running, names, no_errors, start_all_or_none}

abbrev works : String → Service
works n = record { name = n; start_error = none; stop_error = none }

abbrev node_services : List Service
node_services =
    works "api" ∷ works "p2p" ∷ record (works "consensus") { start_error = some "no store" } ∷ []

rolled_back :
    (start_all node_services).calls
    ≡ starts "api" ∷ starts "p2p" ∷ fails "consensus" ∷ stops "p2p" ∷ stops "api" ∷ []
unfolding start_all
rolled_back = refl

start_all_or_none_example :
    (running [] (start_all node_services).calls
      ≡ some
          (if no_errors (start_all node_services) then names (reversed node_services []) else []))
    × (running (names (reversed node_services [])) (stop_all node_services).calls ≡ some [])
start_all_or_none_example = start_all_or_none node_services
