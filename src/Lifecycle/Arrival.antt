-- ===== src/Lifecycle/Arrival.antt =====
-- What a logged message adds to the sessions that have arrived (src/lifecycle-log-guard.ts).
use borg_mcp_client.Prelude.{
  ◌≡◌, refl, true, false, ◌||◌, Option, none, some, List, [], ◌∷◌, ◌++◌, arith, if◌then◌else◌,
  Bool-cases, inl, inr,
}
use borg_mcp_client.Text.{Text, eq_iff, eq_refl, member}
use borg_mcp_client.Lifecycle.{
  Signal, arrival, ready, Identity, known, unknown, StateEntry, signal_for_message, next_state,
  after_signal, closed, entry_or_empty,
}

-- A message that was logged, when, and by which session.
pub record Logged : Type 0 where
  pub message : Text
  pub now : Text
  pub identity : Identity

-- the entry after a sequence of logged messages
unfoldable pub after_logs : List Logged → StateEntry → StateEntry
after_logs [] entry = entry
after_logs (log ∷ logs) entry =
    after_logs logs (next_state log.message (some entry) log.now log.identity)

member-append :
    (id : Text) (xs ys : List Text) → member id (xs ++ ys) ≡ (member id xs || member id ys)
unfolding member
member-append id [] ys = refl
member-append id (x ∷ xs) ys = ground (arith, member-append id xs ys)

member-single : (id : Text) → member id (id ∷ []) ≡ true
unfolding member
member-single id = rw (eq_refl id) refl

pub after_signal-member :
    (id : Text) (signal : Option Signal) (message now : Text) (identity : Identity)
    (entry : StateEntry)
    → member id entry.arrived_session_ids ≡ true
    → member id (after_signal signal message entry now identity).arrived_session_ids ≡ true
after_signal-member id none message now identity entry h = ground arith
after_signal-member id (some ready) message now identity entry h = h
after_signal-member id (some arrival) message now unknown entry h = h
after_signal-member id (some arrival) message now (known j) entry h =
    ground (arith, member-append id entry.arrived_session_ids (j ∷ []))

pub arrival_recorded :
    (id now message : Text) (current : Option StateEntry)
    → signal_for_message message ≡ some arrival
    → member id (next_state message current now (known id)).arrived_session_ids ≡ true
unfolding next_state
arrival_recorded id now message current h = rw h (
    ground (
      arith,
      member-append id (entry_or_empty current).arrived_session_ids (id ∷ []),
      member-single id,
    ))

-- An entry lists no session twice.
abbrev pub Distinct : List Text → Type 0
Distinct [] = Unit
Distinct (x ∷ xs) = (member x xs ≡ false) × Distinct xs

Distinct-append :
    (id : Text) (xs : List Text) → Distinct xs → member id xs ≡ false → Distinct (xs ++ id ∷ [])
Distinct-append id [] d h = (unfold member in refl, tt)
Distinct-append id (x ∷ xs) (n, d) h = (
  rw (member-append x xs (id ∷ []))
      (unfold member in ground (arith, h, n, eq_iff x id, eq_iff id x)),
  Distinct-append id xs d (unfold member in ground (arith, h)),
)

after_signal-Distinct :
    (signal : Option Signal) (message now : Text) (identity : Identity) (entry : StateEntry)
    → Distinct entry.arrived_session_ids
    → Distinct (after_signal signal message entry now identity).arrived_session_ids
after_signal-Distinct none message now identity entry d =
    elim entry.idle_ready as (λ idle. Distinct (closed entry now idle).arrived_session_ids) [
      | none ↦ d
      | some idle ↦
          elim idle.is_open
            as (λ b.
              Distinct
                (if b
                  then record entry {
                    idle_ready = some (record idle { is_open = false; at = now });
                  }
                  else entry).arrived_session_ids) [ true ↦ d | false ↦ d ]
    ]
after_signal-Distinct (some ready) message now identity entry d = d
after_signal-Distinct (some arrival) message now unknown entry d = d
after_signal-Distinct (some arrival) message now (known id) entry d =
    elim (Bool-cases (member id entry.arrived_session_ids)) [
      | inl old ↦ rw old d
      | inr new ↦ rw new (Distinct-append id entry.arrived_session_ids d new)
    ]

-- Whatever is logged, by sessions known or not, an entry keeps each session id once.
pub after_logs-Distinct :
    (logs : List Logged) (entry : StateEntry)
    → Distinct entry.arrived_session_ids
    → Distinct (after_logs logs entry).arrived_session_ids
unfolding after_logs next_state
after_logs-Distinct [] entry d = d
after_logs-Distinct (log ∷ logs) entry d = after_logs-Distinct logs _ (
    after_signal-Distinct (signal_for_message log.message) log.message log.now log.identity entry d)
