-- ===== src/Lifecycle.antt =====
-- The suppression of repeated lifecycle announcements (src/lifecycle-log-guard.ts). The state file
-- is a map from subjects to entries; an absent `arrivedSessionIds` reads as the empty list.
pub mod Arrival
pub mod Recorded
pub mod Ready
mod Tests
use borg_mcp_client.Prelude.{
  Bool, true, false, ◌&&◌, ◌||◌, Option, none, some, List, [], ◌∷◌, ◌++◌, if◌then◌else◌,
}
use borg_mcp_client.Prelude.Result.{Result, ok, err}
use borg_mcp_client.Text.{Text, lit, ◌==◌, starts_with, includes, member}

pub data Signal : Type 0 where
  arrival ready : Signal

-- `AgentSessionIdentity` of src/agent-session-identity.ts, as far as the guard reads it
pub data Identity : Type 0 where
  known : Text → Identity
  unknown : Identity

pub record IdleReady : Type 0 where
  pub message : Text
  pub is_open : Bool
  pub at : Text

pub record StateEntry : Type 0 where
  pub arrived_session_ids : List Text
  pub idle_ready : Option IdleReady

unfoldable pub signal_for_message : Text → Option Signal
unfolding lit starts_with includes
signal_for_message message =
    if starts_with message (lit "ARRIVAL: ")
    then some arrival
    else if starts_with message (lit "READY: ")
        && includes message (lit "capacity clean")
        && includes message (lit "awaiting next dispatch")
    then some ready
    else none

-- `state ?? {}`
abbrev pub entry_or_empty : Option StateEntry → StateEntry
entry_or_empty none = record { arrived_session_ids = []; idle_ready = none }
entry_or_empty (some entry) = entry

abbrev pub is_open_with : Option IdleReady → Text → Bool
is_open_with none message = false
is_open_with (some idle) message = idle.is_open && idle.message == message

abbrev pub has_arrived : Identity → StateEntry → Bool
has_arrived unknown entry = false
has_arrived (known id) entry = member id entry.arrived_session_ids

abbrev pub suppressed_by : Option Signal → Text → StateEntry → Identity → Bool
suppressed_by none message entry identity = false
suppressed_by (some arrival) message entry identity = has_arrived identity entry
suppressed_by (some ready) message entry identity = is_open_with entry.idle_ready message

-- `shouldSuppressLifecycleLogFromState`
unfoldable pub should_suppress : Text → Option StateEntry → Identity → Bool × Option Signal
should_suppress message state identity =
    let signal = signal_for_message message in
    (suppressed_by signal message (entry_or_empty state) identity, signal)

abbrev pub after_arrival : StateEntry → Identity → StateEntry
after_arrival entry unknown = entry
after_arrival entry (known id) =
    if member id entry.arrived_session_ids
    then entry
    else record entry { arrived_session_ids = entry.arrived_session_ids ++ id ∷ [] }

abbrev pub closed : StateEntry → Text → Option IdleReady → StateEntry
closed entry now none = entry
closed entry now (some idle) =
    if idle.is_open
    then record entry { idle_ready = some (record idle { is_open = false; at = now }) }
    else entry

abbrev pub after_signal : Option Signal → Text → StateEntry → Text → Identity → StateEntry
after_signal (some arrival) message entry now identity = after_arrival entry identity
after_signal (some ready) message entry now identity = record entry {
  idle_ready = some (record { message = message; is_open = true; at = now });
}
after_signal none message entry now identity = closed entry now entry.idle_ready

-- `nextLifecycleStateAfterLog`
unfoldable pub next_state : Text → Option StateEntry → Text → Identity → StateEntry
next_state message current now identity =
    after_signal (signal_for_message message) message (entry_or_empty current) now identity

-- What the state file holds: no file, a file that cannot be read as a state, or its entries.
pub data StateFile : Type 0 where
  missing unreadable : StateFile
  entries : List (Text × StateEntry) → StateFile

pub data GuardError : Type 0 where
  unreadable_state : GuardError

abbrev pub lookup : Text → List (Text × StateEntry) → Option StateEntry
lookup key [] = none
lookup key ((k, e) ∷ rest) = if k == key then some e else lookup key rest

abbrev pub assign : Text → StateEntry → List (Text × StateEntry) → List (Text × StateEntry)
assign key entry [] = (key, entry) ∷ []
assign key entry ((k, e) ∷ rest) =
    let later = assign key entry rest in if k == key then (key, entry) ∷ rest else (k, e) ∷ later

-- `stateKey`
unfoldable pub state_key : Text → Text → Text
unfolding lit
state_key cube_id drone_id = cube_id ++ lit ":" ++ drone_id

abbrev pub read_entries : StateFile → Result GuardError (List (Text × StateEntry))
read_entries missing = ok []
read_entries unreadable = err unreadable_state
read_entries (entries es) = ok es

abbrev pub suppress_in :
    Text
    → Text
    → Identity
    → Result GuardError (List (Text × StateEntry))
    → Result GuardError (Bool × Option Signal)
suppress_in key message identity (err e) = err e
suppress_in key message identity (ok es) = ok (should_suppress message (lookup key es) identity)

-- `shouldSuppressLifecycleLog`
unfoldable pub should_suppress_log :
    StateFile → Text → Text → Identity → Result GuardError (Bool × Option Signal)
should_suppress_log file key message identity = suppress_in key message identity (read_entries file)

abbrev pub record_in :
    Text
    → Text
    → Text
    → Identity
    → Result GuardError (List (Text × StateEntry))
    → Result GuardError StateFile
record_in key message now identity (err e) = err e
record_in key message now identity (ok es) =
    ok (entries (assign key (next_state message (lookup key es) now identity) es))

-- `recordLifecycleLog`: the body that runs under the lock
unfoldable pub record_log : StateFile → Text → Text → Text → Identity → Result GuardError StateFile
record_log file key message now identity = record_in key message now identity (read_entries file)
