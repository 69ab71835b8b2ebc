-- ===== src/Representative/Push/Discovery.antt =====
-- What discovery and the startup cohort do to the wake state, and the transaction around every
-- transition: `merge`, `captureCohort`, `scanOnce` and `transact` of src/representative-push.ts.
-- `Stored` is what the row of `wake_state` parses to.
use borg_mcp_client.Prelude.{
  ℕ, ◌+◌, ◌-◌, Bool, true, false, not, ◌&&◌, ◌||◌, Option, none, some, List, [], ◌∷◌, if◌then◌else◌,
  is_some,
}
use borg_mcp_client.Prelude.{◌==◌ as nat_eq}
use borg_mcp_client.Prelude.Result.{Result, ok, err, ◌>>=◌}
use borg_mcp_client.Prelude.Lists.{length, any, filter, last}
use borg_mcp_client.Text.{Text, ◌==◌}
use borg_mcp_client.Text.Order.{text_lt}
use borg_mcp_client.Representative.Binding.{RepresentativeBinding}
use borg_mcp_client.Representative.Delivery.{
  DeliveryState, DeliveryError, state_missing, load_delivery, scan_start, is_passed,
}
use borg_mcp_client.Representative.Point.{Point, compare_points, is_gt, later}
use borg_mcp_client.Representative.Read.{LogEntry, Page, Addressed, is_addressed}
use borg_mcp_client.Representative.Start.{is_current}
use borg_mcp_client.Representative.Push.{
  Cohort, WakeDocument, WakeRow, Wakes, WakeEmission, wake_debounce_ms, cohort_open, empty_document,
  tick,
}

pub data Stored : Type 0 where
  absent invalid : Stored
  document : WakeDocument → Stored

-- One generation's part of the tables; `bound` is the generation that the worktree is bound to.
pub record Tables : Type 0 where
  pub bound : Option Text
  pub delivery : Option DeliveryState
  pub stored : Stored
  pub rows : List WakeRow
  pub invalid_rows : ℕ

pub data PushError : Type 0 where
  stale_generation invalid_record : PushError
  undelivered : DeliveryError → PushError

abbrev pub is_invalid : Stored → Bool
is_invalid invalid = true
is_invalid _ = false

unfoldable pub load_document : Stored → Result PushError WakeDocument
load_document absent = ok empty_document
load_document invalid = err invalid_record
load_document (document doc) = ok doc

abbrev pub of_delivery :
    Result DeliveryError (Option Point × Point) → Result PushError (Option Point × Point)
of_delivery (err e) = err (undelivered e)
of_delivery (ok start) = ok start

abbrev pub rebuilt_frontier : Option DeliveryState → Result PushError (Option Point)
rebuilt_frontier none = ok none
rebuilt_frontier (some delivery) = do start ← of_delivery (scan_start delivery); ok start.0

-- `epoch` is the fresh id.
unfoldable pub discard_invalid_wake_state : Text → Tables → Result PushError Tables
discard_invalid_wake_state epoch t =
    if not (is_invalid t.stored) && nat_eq t.invalid_rows 0 then ok t else do
      frontier ← rebuilt_frontier (load_delivery t.delivery)
      ok (record t {
        stored = document (record empty_document { frontier = frontier; scan_epoch = some epoch });
        rows = [];
        invalid_rows = 0;
      })

unfoldable pub transact_wakes {ℓ} :
    {A : Type ℓ}
    → Text
    → Text
    → (Tables → Result PushError (A × Tables))
    → Tables
    → Result PushError (A × Tables)
unfolding discard_invalid_wake_state
transact_wakes own epoch body t =
    if not (is_current own t.bound)
    then err stale_generation
    else do valid ← discard_invalid_wake_state epoch t; body valid

abbrev pub save : Wakes → Tables → Tables
save w t = record t { stored = document w.doc; rows = w.rows }

-- A transaction that saves what it computes, and one that only reads.
abbrev pub on_wakes {ℓ} :
    {A : Type ℓ} → (Wakes → A × Wakes) → Tables → Result PushError (A × Tables)
on_wakes step t = do
  doc ← load_document t.stored
  let after = step (record { doc = doc; rows = t.rows })
  ok (after.0, save after.1 t)

abbrev pub reading {ℓ} : {A : Type ℓ} → (Wakes → A) → Tables → Result PushError (A × Tables)
reading query t = do
  doc ← load_document t.stored
  ok (query (record { doc = doc; rows = t.rows }), t)

unfoldable pub tick_tables :
    Text → Text → ℕ → Text → Tables → Result PushError (Option WakeEmission × Tables)
unfolding tick load_document transact_wakes
tick_tables own epoch now batch = transact_wakes own epoch (on_wakes (tick now batch))

abbrev pub row_point : WakeRow → Point
row_point row = record { id = row.entry_id; created_at = row.created_at }

-- `ORDER BY created_at, entry_id`
abbrev pub is_row_after : WakeRow → WakeRow → Bool
is_row_after a b =
    text_lt b.created_at a.created_at
    || (b.created_at == a.created_at && text_lt b.entry_id a.entry_id)

unfoldable pub insert_row : WakeRow → List WakeRow → List WakeRow
insert_row row [] = row ∷ []
insert_row row (r ∷ rows) =
    let rest = insert_row row rows in if is_row_after row r then r ∷ rest else row ∷ r ∷ rows

abbrev pub has_id : Text → WakeRow → Bool
has_id id row = row.entry_id == id

-- `INSERT OR IGNORE`, with the number of rows that it changes
unfoldable pub insert_or_ignore : WakeRow → List WakeRow → ℕ × List WakeRow
unfolding insert_row
insert_or_ignore row rows =
    if any (has_id row.entry_id) rows then (0, rows) else (1, insert_row row rows)

abbrev pub is_direct_from : Option Addressed → Bool
is_direct_from (some Addressed.direct) = true
is_direct_from _ = false

abbrev pub entry_point : LogEntry → Point
entry_point entry = record { id = entry.id; created_at = entry.created_at }

abbrev pub wakes_for : RepresentativeBinding → Point → LogEntry → Bool
wakes_for bound floor entry =
    is_direct_from (is_addressed bound entry)
    && is_gt (compare_points (entry_point entry) (some floor))

abbrev pub new_wake_row : ℕ → LogEntry → WakeRow
new_wake_row now entry = record {
  entry_id = entry.id;
  created_at = entry.created_at;
  attempts = 0;
  next_at = now;
}

unfoldable pub insert_entries :
    RepresentativeBinding → Point → ℕ → List LogEntry → List WakeRow → ℕ × List WakeRow
unfolding insert_or_ignore
insert_entries bound floor now [] rows = (0, rows)
insert_entries bound floor now (entry ∷ entries) rows =
    let inserted = insert_or_ignore (new_wake_row now entry) rows in
    let added = insert_entries bound floor now entries inserted.1 in
    let skipped = insert_entries bound floor now entries rows in
    if wakes_for bound floor entry then (inserted.0 + added.0, added.1) else skipped

unfoldable pub prune_rows : Point → List WakeRow → List WakeRow
prune_rows floor rows = filter (λ row. not (is_passed (some floor) (row_point row))) rows

abbrev pub scan_cohort : ℕ → Option Cohort → Option Cohort
scan_cohort n none = none
scan_cohort n (some c) = some (if c.is_open then record c { remaining = c.remaining - n } else c)

abbrev pub is_covered : Bool → Option Cohort → Bool
is_covered more none = false
is_covered more (some c) = c.is_open && (nat_eq c.remaining 0 || not more)

abbrev pub closed_cohort : Option Cohort → Option Cohort
closed_cohort none = none
closed_cohort (some c) = some (record c { is_open = false })

abbrev pub is_nonempty : List WakeRow → Bool
is_nonempty [] = false
is_nonempty (row ∷ rows) = true

unfoldable pub after_page : ℕ → ℕ → Bool → List WakeRow → WakeDocument → WakeDocument
after_page now inserted more rows doc =
    if is_covered more doc.cohort
    then record doc {
      cohort = closed_cohort doc.cohort;
      startup_pending = is_nonempty rows;
      debounce_at = none;
    }
    else if not (nat_eq inserted 0)
        && (not (cohort_open doc.cohort) && not (is_some doc.debounce_at))
    then record doc { debounce_at = some (now + wake_debounce_ms) }
    else doc

-- A page: its entries, and whether the log goes on after them.
abbrev pub tail_point : List LogEntry → Option Point
tail_point entries = elim (last entries) [ none ↦ none | some entry ↦ some (entry_point entry) ]

-- The number of new rows, and the wake state with the page merged.
unfoldable pub merge_page : RepresentativeBinding → Point → ℕ → Page → Wakes → ℕ × Wakes
unfolding insert_entries prune_rows later after_page
merge_page bound floor now page w =
    let added = insert_entries bound floor now page.entries w.rows in
    let rows = prune_rows floor added.1 in
    (
      added.0,
      record {
        doc = after_page now added.0 page.has_more rows (record w.doc {
          frontier = later w.doc.frontier (tail_point page.entries);
          cohort = scan_cohort (length page.entries) w.doc.cohort;
        });
        rows = rows;
      },
    )

abbrev pub is_epoch : Option Text → Option Text → Bool
is_epoch none none = true
is_epoch (some a) (some b) = a == b
is_epoch _ _ = false

abbrev pub present : Option DeliveryState → Result PushError DeliveryState
present none = err (undelivered state_missing)
present (some delivery) = ok delivery

-- `none` when the page was read under another scan epoch; then nothing is written.
unfoldable pub merge :
    RepresentativeBinding → ℕ → Option Text → Page → Tables → Result PushError (Option ℕ × Tables)
unfolding merge_page load_document
merge bound now epoch page t = do
  delivery ← present (load_delivery t.delivery)
  doc ← load_document t.stored
  if not (is_epoch doc.scan_epoch epoch) then ok (none, t) else (do
    start ← of_delivery (scan_start delivery)
    let merged = merge_page bound start.1 now page (record { doc = doc; rows = t.rows })
    ok (some merged.0, save merged.1 t))
