-- ===== src/Representative/Push/Tests.antt =====
-- Runs of the push engine (src/representative-push.ts), and the theorems at one.
use borg_mcp_client.Prelude.{
  ℕ, ◌≤◌, ◌≡◌, ◌↔◌, refl, true, false, none, some, List, [], ◌∷◌, is_some, arith, map, ◌&&◌,
}
use borg_mcp_client.Prelude.Lists.{any, find, length, filter}
use borg_mcp_client.Text.{◌==◌, member}
use borg_mcp_client.Text.Order.{text_lt}
use borg_mcp_client.Representative.Binding.{RepresentativeBinding}
use borg_mcp_client.Representative.Delivery.{StartKind, scan_start, is_passed}
use borg_mcp_client.Representative.Point.{Point, compare_points, later}
use borg_mcp_client.Representative.Read.{LogEntry, Page, is_addressed}
use borg_mcp_client.Representative.Push.{
  WakeRow, WakeReason, Wakes, empty_document, cohort_open, clamp, is_blocked, is_due, reason_of,
  attempted, rewake_backoff_ms, refusal_backoff_ms, emitted, tick,
}
use borg_mcp_client.Representative.Push.Timer.{next_due_at}
use borg_mcp_client.Representative.Push.Ack.{AckOutcome, ack, accept, refuse}
use borg_mcp_client.Representative.Push.Tick.{Free, tick-emits_iff}
use borg_mcp_client.Representative.Push.Due.{Progress, tick-Before_due, tick-at_due}
use borg_mcp_client.Representative.Push.Acks.{tally, refusal, ack-tick}
use borg_mcp_client.Representative.Push.Merge.{merge_page-keeps, merge_page_complete}
use borg_mcp_client.Representative.Push.Cohorts.{Read, total, merge_reads, merge_reads-closed_iff}
use borg_mcp_client.Representative.Push.Discovery.{
  Tables, Stored, merge_page, after_page, insert_entries, insert_or_ignore, insert_row, prune_rows,
  has_id, transact_wakes, discard_invalid_wake_state, load_document, on_wakes, wakes_for, row_point,
}
use borg_mcp_client.Representative.Push.Recovery.{Recovers, transact_wakes-Recovers}
use borg_mcp_client.Representative.Push.Trace.{Event, ticks, merges, step, run}
use borg_mcp_client.Representative.Push.Trace.Quiet.{run-after_tick}
use borg_mcp_client.Representative.Push.Trace.Startup.{is_startup, credit, run-startup_bound}
use borg_mcp_client.Representative.Push.Trace.Bounds.{run-Clamped}
use borg_mcp_client.Representative.Push.Due.{Clamped}

runs : Unit {0}
unfolding ◌==◌ member text_lt compare_points later is_addressed scan_start empty_document clamp
    is_blocked reason_of attempted rewake_backoff_ms refusal_backoff_ms emitted tick ack accept
    refuse next_due_at merge_page after_page insert_entries insert_or_ignore insert_row prune_rows
    transact_wakes discard_invalid_wake_state load_document step run
runs = tt

abbrev row : ℕ → ℕ → WakeRow
row attempts next_at = record {
  entry_id = 1 ∷ [];
  created_at = 5 ∷ [];
  attempts = attempts;
  next_at = next_at;
}

abbrev waiting : Wakes
unfolding empty_document
waiting = record { doc = empty_document; rows = row 0 100 ∷ [] }

abbrev bound : RepresentativeBinding
bound = record {
  cube_id = 10 ∷ [];
  representative_drone_id = 11 ∷ [];
  representative_label = [];
  coordinator_drone_id = 12 ∷ [];
  coordinator_label = [];
}

abbrev floor : Point
floor = record { id = []; created_at = 4 ∷ [] }

abbrev entry : ℕ → LogEntry
entry id = record {
  id = id ∷ [];
  drone_id = 12 ∷ [];
  message = [];
  is_direct = true;
  created_at = 5 ∷ [];
  recipient_drone_ids = (11 ∷ []) ∷ [];
  documents = [];
}

abbrev page : Page
page = record { entries = entry 1 ∷ entry 2 ∷ []; has_more = true }

abbrev opened : Wakes
unfolding empty_document
opened = record {
  doc = record empty_document { cohort = some (record { remaining = 2; is_open = true }) };
  rows = [];
}

abbrev broken : Tables
broken = record {
  bound = some (7 ∷ []);
  delivery = some (record {
    seat = [];
    start = floor;
    start_kind = StartKind.head;
    checkpoint = none;
    read_through = none;
    returned = [];
    wake_replies = [];
  });
  stored = Stored.invalid;
  rows = row 3 100 ∷ [];
  invalid_rows = 2;
}

early_run : (tick 99 (8 ∷ []) waiting).0 ≡ none
unfolding runs
early_run = refl

wake_run :
    (tick 100 (8 ∷ []) waiting).0
    ≡ some (record { wake_id = 8 ∷ []; reason = WakeReason.new_reply; count = 1 })
unfolding runs
wake_run = refl

due_run : next_due_at 0 waiting ≡ some 100
unfolding runs
due_run = refl

wakes_run : is_some (tick 100 (8 ∷ []) waiting).0 ≡ true
unfolding runs
wakes_run = refl

refused_run : (ack 200 (refusal (8 ∷ [])) (tick 100 (8 ∷ []) waiting).1).1.rows ≡ row 0 30200 ∷ []
unfolding runs
refused_run = refl

merged_run : (merge_page bound floor 50 page waiting).0 ≡ 1
unfolding runs
merged_run = refl

known_run : find (has_id (1 ∷ [])) waiting.rows ≡ some (row 0 100)
unfolding runs
known_run = refl

unknown_run : any (has_id (2 ∷ [])) waiting.rows ≡ false
unfolding runs
unknown_run = refl

named_run : any (λ e. e.id == (2 ∷ []) && wakes_for bound floor e) page.entries ≡ true
unfolding runs
named_run = refl

beyond_run : is_passed (some floor) (row_point (row 0 100)) ≡ false
unfolding runs
beyond_run = refl

abbrev events : List (ℕ × Event)
events = (100, merges bound floor page) ∷ (5000, ticks (9 ∷ [])) ∷ (60099, ticks (9 ∷ [])) ∷ []

startup_run :
    length (
      filter is_startup
        (run ((100, merges bound floor page) ∷ (5000, ticks (9 ∷ [])) ∷ []) opened).0)
    ≡ 1
unfolding runs
startup_run = refl

tick-emits_iff_example :
    (is_some (tick 100 (8 ∷ []) waiting).0 ≡ true)
    ↔ (Free 100 waiting.doc × (any (is_due 100) waiting.rows ≡ true))
tick-emits_iff_example = tick-emits_iff 100 (8 ∷ []) waiting

tick-Before_due_example : is_some (tick 99 (8 ∷ []) waiting).0 ≡ false
unfolding runs
tick-Before_due_example = tick-Before_due 0 99 (8 ∷ []) waiting (omega arith) (omega arith)

tick-at_due_example : Progress 0 150 waiting (tick 150 (8 ∷ []) waiting)
unfolding waiting
tick-at_due_example =
    tick-at_due 0 150 100 (8 ∷ []) waiting (tt, tt, tt, (omega arith, tt)) due_run (omega arith)
      (omega arith)

run-after_tick_example : (run events (tick 100 (8 ∷ []) waiting).1).0 ≡ []
run-after_tick_example = run-after_tick 100 (8 ∷ []) events waiting wakes_run (
  (omega arith, omega arith, tt),
  ((omega arith, omega arith, tt), ((omega arith, omega arith, tt), tt)),
)

run-startup_bound_example : length (filter is_startup (run events opened).0) ≤ credit opened.doc
run-startup_bound_example = run-startup_bound events opened (tt, (tt, (tt, tt)))

run-Clamped_example : Clamped 60099 (run events waiting).1
unfolding waiting
run-Clamped_example =
    run-Clamped 0 events waiting (omega arith, (omega arith, (omega arith, tt)))
      (tt, tt, tt, (omega arith, tt))

ack-tick_example :
    ((ack 200 (refusal (8 ∷ [])) (tick 100 (8 ∷ []) waiting).1).0 ≡ AckOutcome.refused)
    × (map tally (ack 200 (refusal (8 ∷ [])) (tick 100 (8 ∷ []) waiting).1).1.rows
        ≡ map tally waiting.rows)
unfolding waiting
ack-tick_example = ack-tick 100 200 (8 ∷ []) waiting wakes_run (omega arith) (refl, tt)

merge_page-keeps_example :
    find (has_id (1 ∷ [])) (merge_page bound floor 50 page waiting).1.rows ≡ some (row 0 100)
merge_page-keeps_example =
    merge_page-keeps bound floor 50 page waiting (row 0 100) known_run beyond_run

merge_page_complete_example :
    any (has_id (2 ∷ [])) (merge_page bound floor 50 page waiting).1.rows ≡ true
merge_page_complete_example =
    merge_page_complete bound floor 50 page waiting (2 ∷ []) unknown_run named_run

abbrev reads : List Read
reads = record { now = 50; floor = floor; page = page } ∷ []

merge_reads-closed_iff_example :
    (cohort_open (merge_reads bound reads opened).doc.cohort ≡ false) ↔ (2 ≤ total reads)
unfolding empty_document
merge_reads-closed_iff_example = merge_reads-closed_iff bound 1 reads opened (refl, tt) refl

transact_wakes-Recovers_example :
    Recovers broken (transact_wakes (7 ∷ []) (9 ∷ []) (on_wakes (tick 100 (8 ∷ []))) broken)
transact_wakes-Recovers_example =
    transact_wakes-Recovers (7 ∷ []) (9 ∷ []) (tick 100 (8 ∷ [])) broken refl refl
