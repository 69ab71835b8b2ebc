-- ===== src/Lifecycle/Tests.antt =====
-- Runs of the guard of src/lifecycle-log-guard.ts, and the theorems at them.
use borg_mcp_client.Prelude.{◌≡◌, refl, true, none, some, List, [], ◌∷◌}
use borg_mcp_client.Prelude.Result.{ok}
use borg_mcp_client.Text.{Text, lit, ◌==◌, member}
use borg_mcp_client.Lifecycle.{
  arrival, ready, known, unknown, StateEntry, signal_for_message, should_suppress, next_state,
  StateFile, entries, record_log, should_suppress_log,
}
use borg_mcp_client.Lifecycle.Recorded.{LoggedFor, record_all, arrival_once}

runs : Unit {0}
unfolding signal_for_message should_suppress next_state lit ◌==◌ member record_all record_log
    should_suppress_log
runs = tt

abbrev here : Text
here = lit "ARRIVAL: here"

abbrev idle : Text
idle = lit "READY: capacity clean, awaiting next dispatch"

abbrev entry : StateEntry
entry = record { arrived_session_ids = []; idle_ready = none }

signal_runs :
    (signal_for_message here ≡ some arrival)
    × (signal_for_message idle ≡ some ready)
    × (signal_for_message (lit "READY: capacity clean") ≡ none)
unfolding runs
signal_runs = (refl, refl, refl)

-- another session is ready, and a third arrives elsewhere
abbrev logs : List LoggedFor
logs =
    record { key = 5 ∷ []; message = idle; now = []; identity = unknown }
    ∷ record { key = 6 ∷ []; message = here; now = []; identity = known (2 ∷ []) }
    ∷ []

repeat_run :
    should_suppress_log
      (entries ((5 ∷ [], record entry { arrived_session_ids = (1 ∷ []) ∷ [] }) ∷ []))
      (5 ∷ [])
      here
      (known (1 ∷ []))
    ≡ ok (true, some arrival)
unfolding runs
repeat_run = refl

arrival_once_example :
    (after : StateFile) × (record_all
        (record { key = 5 ∷ []; message = here; now = []; identity = known (1 ∷ []) } ∷ logs)
        (entries ((5 ∷ [], entry) ∷ []))
      ≡ ok after)
    × (should_suppress_log after (5 ∷ []) here (known (1 ∷ [])) ≡ ok (true, some arrival))
unfolding runs
arrival_once_example =
    arrival_once (entries ((5 ∷ [], entry) ∷ [])) ((5 ∷ [], entry) ∷ []) (5 ∷ []) (1 ∷ []) [] here
      here logs refl refl refl
