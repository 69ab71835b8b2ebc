-- ===== src/Lifecycle/Recorded.antt =====
-- A session announces its arrival once: the state file of src/lifecycle-log-guard.ts over a sequence
-- of logged messages.
use borg_mcp_client.Prelude.{
  ◌≡◌, refl, ap, ◌∙◌, true, false, some, List, [], ◌∷◌, arith, inl, inr, Bool-cases,
}
use borg_mcp_client.Prelude.Result.{Result, ok, ◌>>=◌}
use borg_mcp_client.Text.{Text, ◌==◌, eq_iff, eq_refl, member}
use borg_mcp_client.Lifecycle.{
  arrival, Identity, known, StateEntry, StateFile, entries, GuardError, lookup, assign,
  read_entries, signal_for_message, should_suppress, next_state, should_suppress_log, record_log,
}
use borg_mcp_client.Lifecycle.Arrival.{after_signal-member, arrival_recorded}

-- A message that was logged, with the key of its subject.
pub record LoggedFor : Type 0 where
  pub key : Text
  pub message : Text
  pub now : Text
  pub identity : Identity

-- Each message is recorded in the file that the one before it left.
unfoldable pub record_all : List LoggedFor → StateFile → Result GuardError StateFile
record_all [] file = ok file
record_all (log ∷ logs) file = do
  next ← record_log file log.key log.message log.now log.identity
  record_all logs next

abbrev Entries : Type 0
Entries = List (Text × StateEntry)

lookup-assign :
    (key : Text) (entry : StateEntry) (es : Entries) → lookup key (assign key entry es) ≡ some entry
lookup-assign key entry [] = rw (eq_refl key) refl
lookup-assign key entry ((k, e) ∷ es) = elim (Bool-cases (k == key)) [
  | inl same ↦ rw same (rw (eq_refl key) refl)
  | inr other ↦ rw other (rw other (lookup-assign key entry es))
]

lookup-assign_other :
    (key other : Text) (entry : StateEntry) (es : Entries)
    → (key == other) ≡ false
    → lookup other (assign key entry es) ≡ lookup other es
lookup-assign_other key other entry [] n = rw n refl
lookup-assign_other key other entry ((k, e) ∷ es) n = elim (Bool-cases (k == key)) [
  | inl same ↦
      let m : (k == other) ≡ false = ap (λ t. t == other) ((eq_iff k key).0 same) ∙ n in
      rw same (rw n (rw m refl))
  | inr apart ↦ ground (arith, apart, lookup-assign_other key other entry es n)
]

-- The entry of the key lists the session among those that have arrived.
record HasArrived (key id : Text) (es : Entries) : Type 0 where
  entry : StateEntry
  here : lookup key es ≡ some entry
  arrived : member id entry.arrived_session_ids ≡ true

record-HasArrived :
    (key id : Text) (log : LoggedFor) (es : Entries)
    → HasArrived key id es
    → HasArrived key id
        (assign log.key (next_state log.message (lookup log.key es) log.now log.identity) es)
unfolding next_state
record-HasArrived key id log es h = elim (Bool-cases (log.key == key)) [
  | inl same ↦
      let e : log.key ≡ key = (eq_iff log.key key).0 same in
      rw e (
        rw h.here (record {
          entry = next_state log.message (some h.entry) log.now log.identity;
          here = lookup-assign key _ es;
          arrived =
              after_signal-member id (signal_for_message log.message) log.message log.now
                log.identity h.entry h.arrived;
        }))
  | inr other ↦ record {
    entry = h.entry;
    here = lookup-assign_other log.key key _ es other ∙ h.here;
    arrived = h.arrived;
  }
]

record_all-HasArrived :
    (key id : Text) (logs : List LoggedFor) (es : Entries)
    → HasArrived key id es
    → (after : Entries) × (record_all logs (entries es) ≡ ok (entries after))
      × HasArrived key id after
unfolding record_all record_log
record_all-HasArrived key id [] es h = (es, refl, h)
record_all-HasArrived key id (log ∷ logs) es h =
    record_all-HasArrived key id logs _ (record-HasArrived key id log es h)

suppress-HasArrived :
    (key id again : Text) (es : Entries)
    → signal_for_message again ≡ some arrival
    → HasArrived key id es
    → should_suppress_log (entries es) key again (known id) ≡ ok (true, some arrival)
unfolding should_suppress_log should_suppress
suppress-HasArrived key id again es s h = rw (h.here, s, h.arrived) refl

record_first :
    (file : StateFile) (es : Entries) (key message now : Text) (identity : Identity)
    → read_entries file ≡ ok es
    → record_log file key message now identity
      ≡ ok (entries (assign key (next_state message (lookup key es) now identity) es))
unfolding record_log
record_first file es key message now identity r = rw r refl

-- In a state file that is absent or can be read, the arrival of a known session is recorded, and so is
-- whatever is logged after it, for this subject or others and by any session; a further arrival
-- message of that session for that subject is then suppressed. The lock is taken and the file system
-- does not fail.
pub arrival_once :
    (file : StateFile) (es : List (Text × StateEntry)) (key id now first again : Text)
    (logs : List LoggedFor)
    → read_entries file ≡ ok es
    → signal_for_message first ≡ some arrival
    → signal_for_message again ≡ some arrival
    → (after : StateFile) × (record_all
          (record { key = key; message = first; now = now; identity = known id } ∷ logs)
          file
        ≡ ok after)
      × (should_suppress_log after key again (known id) ≡ ok (true, some arrival))
unfolding record_all
arrival_once file es key id now first again logs r s k =
    let entry = next_state first (lookup key es) now (known id) in
    let (after, done, h) = record_all-HasArrived key id logs (assign key entry es) (record {
      entry = entry;
      here = lookup-assign key entry es;
      arrived = arrival_recorded id now first (lookup key es) s;
    }) in
    (
      entries after,
      rw (record_first file es key first now (known id) r) done,
      suppress-HasArrived key id again after k h,
    )
