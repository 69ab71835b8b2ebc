-- ===== src/Representative/Push/Merge.antt =====
-- What a merged page does to the rows (`merge` of src/representative-push.ts): a row that is there
-- keeps its attempts, and an entry that addresses the representative gets a row.
use borg_mcp_client.Prelude.{
  ℕ, ◌≡◌, refl, ap, ◌∙◌, Bool, true, false, not, ◌||◌, ◌&&◌, some, List, [], ◌∷◌, arith, Bool-cases,
  inl, inr,
}
use borg_mcp_client.Prelude.Lists.{filter, any, find}
use borg_mcp_client.Text.{Text, ◌==◌, eq_iff}
use borg_mcp_client.Text.Order.{text_lt_asymm}
use borg_mcp_client.Representative.Binding.{RepresentativeBinding}
use borg_mcp_client.Representative.Delivery.{is_passed}
use borg_mcp_client.Representative.Point.{Point, compare_points}
use borg_mcp_client.Representative.Read.{LogEntry, Page}
use borg_mcp_client.Representative.Push.{WakeRow, Wakes}
use borg_mcp_client.Representative.Push.Acks.{Distinct}
use borg_mcp_client.Representative.Push.Discovery.{
  merge_page, prune_rows, insert_entries, insert_or_ignore, insert_row, new_wake_row, has_id,
  row_point, wakes_for,
}

any-insert_row :
    (id : Text) (row : WakeRow) (rows : List WakeRow)
    → any (has_id id) (insert_row row rows) ≡ (has_id id row || any (has_id id) rows)
unfolding insert_row
any-insert_row id row [] = refl
any-insert_row id row (r ∷ rows) = ground (arith, any-insert_row id row rows)

insert_row-Distinct :
    (row : WakeRow) (rows : List WakeRow)
    → any (has_id row.entry_id) rows ≡ false
    → Distinct rows
    → Distinct (insert_row row rows)
unfolding insert_row
insert_row-Distinct row [] h distinct = (refl, tt)
insert_row-Distinct row (r ∷ rows) h (k, distinct) = ground (
  arith,
  any-insert_row r.entry_id row rows,
  insert_row-Distinct row rows,
  eq_iff r.entry_id row.entry_id,
  eq_iff row.entry_id r.entry_id,
)

pub insert_entries-Distinct :
    (bound : RepresentativeBinding) (floor : Point) (now : ℕ) (entries : List LogEntry)
    (rows : List WakeRow)
    → Distinct rows
    → Distinct (insert_entries bound floor now entries rows).1
unfolding insert_entries insert_or_ignore
insert_entries-Distinct bound floor now [] rows distinct = distinct
insert_entries-Distinct bound floor now (entry ∷ entries) rows distinct = ground (
  arith,
  insert_row-Distinct (new_wake_row now entry) rows,
  insert_entries-Distinct bound floor now entries rows distinct,
  insert_entries-Distinct bound floor now entries (insert_row (new_wake_row now entry) rows),
)

any-filter_rows :
    (id : Text) (test : WakeRow → Bool) (rows : List WakeRow)
    → any (has_id id) rows ≡ false
    → any (has_id id) (filter test rows) ≡ false
any-filter_rows id test [] h = refl
any-filter_rows id test (row ∷ rows) h = ground (arith, any-filter_rows id test rows)

pub filter-Distinct :
    (test : WakeRow → Bool) (rows : List WakeRow) → Distinct rows → Distinct (filter test rows)
filter-Distinct test [] h = tt
filter-Distinct test (row ∷ rows) (h, hs) =
    ground (arith, filter-Distinct test rows hs, any-filter_rows row.entry_id test rows h)

other_id :
    (id other : Text) (r : WakeRow) (rows : List WakeRow)
    → find (has_id id) rows ≡ some r
    → any (has_id other) rows ≡ false
    → (other == id) ≡ false
other_id id other r [] h k = cc
other_id id other r (row ∷ rows) h k = ground (
  arith,
  other_id id other r rows,
  eq_iff row.entry_id id,
  eq_iff other id,
  eq_iff row.entry_id other,
)

find-insert_row :
    (id : Text) (row : WakeRow) (rows : List WakeRow)
    → has_id id row ≡ false
    → find (has_id id) (insert_row row rows) ≡ find (has_id id) rows
unfolding insert_row
find-insert_row id row [] h = rw h refl
find-insert_row id row (q ∷ rows) h = ground (arith, find-insert_row id row rows h)

find-insert_entries :
    (id : Text) (r : WakeRow) (bound : RepresentativeBinding) (floor : Point) (now : ℕ)
    (entries : List LogEntry) (rows : List WakeRow)
    → find (has_id id) rows ≡ some r
    → find (has_id id) (insert_entries bound floor now entries rows).1 ≡ some r
unfolding insert_entries insert_or_ignore
find-insert_entries id r bound floor now [] rows h = h
find-insert_entries id r bound floor now (entry ∷ entries) rows h = ground (
  arith,
  find-insert_entries id r bound floor now entries rows h,
  find-insert_row id (new_wake_row now entry) rows,
  other_id id entry.id r rows h,
  find-insert_entries id r bound floor now entries (insert_row (new_wake_row now entry) rows),
)

find-filter_rows :
    (id : Text) (r : WakeRow) (test : WakeRow → Bool) (rows : List WakeRow)
    → test r ≡ true
    → find (has_id id) rows ≡ some r
    → find (has_id id) (filter test rows) ≡ some r
find-filter_rows id r test [] t h = cc
find-filter_rows id r test (row ∷ rows) t h = elim (Bool-cases (has_id id row)) [
  | inl q ↦ let k : some row ≡ some r = rw q at h in let e : row ≡ r = cc in rw (ap test e ∙ t, q) k
  | inr q ↦ let rest = find-filter_rows id r test rows t (rw q at h) in ground (arith, rest)
]

-- A reply that has a row beyond the floor keeps it when a page is merged, with its attempts and
-- its next instant: a page that repeats the reply does not start its wakes anew.
pub merge_page-keeps :
    (bound : RepresentativeBinding) (floor : Point) (now : ℕ) (page : Page) (w : Wakes)
    (r : WakeRow)
    → find (has_id r.entry_id) w.rows ≡ some r
    → is_passed (some floor) (row_point r) ≡ false
    → find (has_id r.entry_id) (merge_page bound floor now page w).1.rows ≡ some r
unfolding merge_page prune_rows
merge_page-keeps bound floor now page w r h beyond =
    find-filter_rows r.entry_id r (λ row. not (is_passed (some floor) (row_point row))) _
      (rw beyond refl) (find-insert_entries r.entry_id r bound floor now page.entries w.rows h)

-- A row of the id that stands beyond the floor.
abbrev stays : Text → Point → WakeRow → Bool
stays id floor row = has_id id row && not (is_passed (some floor) (row_point row))

abbrev pub names : RepresentativeBinding → Point → Text → LogEntry → Bool
names bound floor id entry = entry.id == id && wakes_for bound floor entry

new_wake_row-stays :
    (bound : RepresentativeBinding) (floor : Point) (now : ℕ) (entry : LogEntry)
    → wakes_for bound floor entry ≡ true
    → is_passed (some floor) (row_point (new_wake_row now entry)) ≡ false
unfolding compare_points
new_wake_row-stays bound floor now entry h = ground (
  arith,
  eq_iff entry.created_at floor.created_at,
  eq_iff entry.id floor.id,
  text_lt_asymm entry.created_at floor.created_at,
  text_lt_asymm entry.id floor.id,
)

any-insert_row-stays :
    (id : Text) (floor : Point) (row : WakeRow) (rows : List WakeRow)
    → any (stays id floor) (insert_row row rows) ≡ (stays id floor row || any (stays id floor) rows)
unfolding insert_row
any-insert_row-stays id floor row [] = refl
any-insert_row-stays id floor row (r ∷ rows) =
    ground (arith, any-insert_row-stays id floor row rows)

insert_entries-stays :
    (id : Text) (bound : RepresentativeBinding) (floor : Point) (now : ℕ) (entries : List LogEntry)
    (rows : List WakeRow)
    → any (stays id floor) rows ≡ true
    → any (stays id floor) (insert_entries bound floor now entries rows).1 ≡ true
unfolding insert_entries insert_or_ignore
insert_entries-stays id bound floor now [] rows h = h
insert_entries-stays id bound floor now (entry ∷ entries) rows h = ground (
  arith,
  insert_entries-stays id bound floor now entries rows h,
  any-insert_row-stays id floor (new_wake_row now entry) rows,
  insert_entries-stays id bound floor now entries (insert_row (new_wake_row now entry) rows),
)

insert_entries-names :
    (id : Text) (bound : RepresentativeBinding) (floor : Point) (now : ℕ) (entries : List LogEntry)
    (rows : List WakeRow)
    → any (has_id id) rows ≡ false
    → any (names bound floor id) entries ≡ true
    → any (stays id floor) (insert_entries bound floor now entries rows).1 ≡ true
unfolding insert_entries insert_or_ignore
insert_entries-names id bound floor now [] rows h k = cc
insert_entries-names id bound floor now (entry ∷ entries) rows h k = ground (
  arith,
  eq_iff entry.id id,
  new_wake_row-stays bound floor now entry,
  any-insert_row-stays id floor (new_wake_row now entry) rows,
  any-insert_row id (new_wake_row now entry) rows,
  insert_entries-stays id bound floor now entries (insert_row (new_wake_row now entry) rows),
  insert_entries-names id bound floor now entries rows h,
  insert_entries-names id bound floor now entries (insert_row (new_wake_row now entry) rows),
)

any-filter-stays :
    (id : Text) (floor : Point) (rows : List WakeRow)
    → any (stays id floor) rows ≡ true
    → any (has_id id) (filter (λ row. not (is_passed (some floor) (row_point row))) rows) ≡ true
any-filter-stays id floor [] h = cc
any-filter-stays id floor (row ∷ rows) h = ground (arith, any-filter-stays id floor rows)

-- No reply is missed: if a page holds an entry that the Coordinator addressed to the representative
-- directly and that lies beyond the floor, then its id has a row once the page is merged, when it
-- had none.
pub merge_page_complete :
    (bound : RepresentativeBinding) (floor : Point) (now : ℕ) (page : Page) (w : Wakes) (id : Text)
    → any (has_id id) w.rows ≡ false
    → any (names bound floor id) page.entries ≡ true
    → any (has_id id) (merge_page bound floor now page w).1.rows ≡ true
unfolding merge_page prune_rows
merge_page_complete bound floor now page w id h k =
    any-filter-stays id floor (insert_entries bound floor now page.entries w.rows).1
      (insert_entries-names id bound floor now page.entries w.rows h k)
