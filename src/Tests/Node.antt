-- ===== src/Tests/Node.antt =====
-- Runs of the peer-to-peer decisions, the wire forms, the state file and the signing sessions.
use aequa_network.Base.{
  ℕ, ◌<◌, ◌≡◌, ◌↔◌, ◌⊎◌, refl, true, List, [], ◌∷◌, none, some, arith, contains, add_key, string_eq,
  lookup,
}
use aequa_network.Net.Gates.{CombinedGate, allow_with_reason, admit}
use aequa_network.Net.Gates.Admission.{After, admit-After}
use aequa_network.Net.Limits.{opens, sessions, Within, session_limit, try_open_session}
use aequa_network.Net.Wire.{Qbft, from_internal, to_internal, from_internal-to_internal}
use aequa_network.Payload.Types.{Payload, auction}
use aequa_network.Store.{
  LastState, Checksum, Directory, loaded, read_file, file_of, write_file_atomic, load, keep, kept,
}
use aequa_network.Store.Crash.{read_file-file_of, save_survives_crash}
use aequa_network.Tss.Session.{Config, Event, started, shared, run, combine}
use aequa_network.Tss.Session.Runs
use aequa_network.Tss.Session.Runs.{run-IsValid}

abbrev gate : CombinedGate
gate = record {
  allow = some ("a" ∷ "b" ∷ []);
  rate = some 2;
  score = some (record { threshold = 5; scores = ("a", 3) ∷ ("b", 9) ∷ [] });
}

-- Two attempts of a peer with a low score spend the limit, and the good peer is turned away.
limit_spent : (admit gate ("b" ∷ "a" ∷ "a" ∷ [])).1 ≡ []
unfolding admit allow_with_reason contains lookup
limit_spent = refl

admit-After_example : After gate ("b" ∷ "c" ∷ "a" ∷ []) 2
admit-After_example = admit-After gate ("b" ∷ "c" ∷ "a" ∷ []) 2 refl

session_limit_example :
    Within 2 (sessions 2 (opens ∷ opens ∷ []))
    × (((try_open_session (sessions 2 (opens ∷ opens ∷ []))).1 ≡ true)
        ↔ ((◌≡◌ {A = ℕ} 2 0) ⊎ ((sessions 2 (opens ∷ opens ∷ [])).opened < 2)))
session_limit_example = session_limit 2 (opens ∷ opens ∷ [])

abbrev wired : Qbft
wired = record {
  id = "block";
  sender = "a";
  height = 1;
  round = 0;
  type = "prepare";
  payload = [];
  trace_id = "";
  sig = [];
}

from_internal-to_internal_example : from_internal (to_internal wired) ≡ wired
from_internal-to_internal_example = from_internal-to_internal wired

abbrev offer : Payload
offer = auction (record {
  sender = "carol";
  nonce = 0;
  gas = 1;
  bid = 3;
  fee_recipient = "pool";
  sig = [];
  h = some (1 ∷ []);
})

abbrev no_sum : Checksum
no_sum = record { crc32 = λ bytes. 7 }

no_sum_bound : (bytes : List ℕ) → no_sum.crc32 bytes < 4294967296
no_sum_bound bytes = omega arith

abbrev old_state : LastState
old_state = record { height = 300; round = 1 }

abbrev new_state : LastState
new_state = record { height = 70000; round = 0 }

abbrev disk : Directory
disk = record { main = some (file_of ⦃c = no_sum⦄ old_state); bak = none; tmp = none }

read_file-file_of_example :
    read_file ⦃c = no_sum⦄ (some (file_of ⦃c = no_sum⦄ old_state)) ≡ loaded old_state
read_file-file_of_example =
    read_file-file_of ⦃c = no_sum⦄ no_sum_bound old_state (omega arith) (omega arith)

old_readable : read_file ⦃c = no_sum⦄ disk.main ≡ loaded old_state
old_readable = read_file-file_of ⦃c = no_sum⦄ no_sum_bound old_state (omega arith) (omega arith)

-- Cut off between the two renames.
save_survives_crash_example :
    ((load ⦃c = no_sum⦄ (keep (record disk { tmp = some (file_of ⦃c = no_sum⦄ new_state) }))
        ≡ some old_state)
      ⊎ (load ⦃c = no_sum⦄ (keep (record disk { tmp = some (file_of ⦃c = no_sum⦄ new_state) }))
          ≡ some new_state))
    × (load ⦃c = no_sum⦄ (write_file_atomic ⦃c = no_sum⦄ disk new_state) ≡ some new_state)
save_survives_crash_example =
    save_survives_crash ⦃c = no_sum⦄ no_sum_bound disk old_state new_state (omega arith)
      (omega arith) old_readable kept

abbrev two_of : Config
two_of = record { threshold = 0; gather_timeout = 0; combine_timeout = 0 }

abbrev events : List Event
events = shared "b" "1" 20 ∷ shared "a" "1" 15 ∷ shared "a" "1" 10 ∷ started 0 ∷ []

combined : (run two_of events).phase ≡ combine
unfolding run contains add_key
combined = refl

run-IsValid_example : Runs.IsValid (run two_of events)
run-IsValid_example = run-IsValid two_of events
