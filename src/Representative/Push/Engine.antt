-- ===== src/Representative/Push/Engine.antt =====
-- The operations of the push engine (src/representative-push.ts) over the tables: an ack, one scan
-- and the capture of the startup cohort. `others` is what other transactions commit while the
-- engine waits for the network; `pages` are what the backend answers, in order, to the requests
-- of a scan. `stop` and the hooks are left out.
use borg_mcp_client.Prelude.{
  ℕ, zero, suc, ◌+◌, Bool, true, false, not, Option, none, some, if◌then◌else◌, is_some, ltb, leb,
  ◌||◌,
}
use borg_mcp_client.Prelude.Result.{Result, ok, ◌>>=◌}
use borg_mcp_client.Text.{Text, ◌==◌}
use borg_mcp_client.Representative.Binding.{RepresentativeBinding}
use borg_mcp_client.Representative.Delivery.{load_delivery, scan_start}
use borg_mcp_client.Representative.Point.{Point, later}
use borg_mcp_client.Representative.Read.{Page}
use borg_mcp_client.Representative.Push.{Outstanding, WakeDocument, WakeEmission, cohort_open}
use borg_mcp_client.Representative.Push.Timer.{next_due_at}
use borg_mcp_client.Representative.Push.Ack.{WakeSummary, Ack, AckOutcome, ack, summarize}
use borg_mcp_client.Representative.Push.Discovery.{
  Tables, PushError, load_document, transact_wakes, save, reading, present, of_delivery, merge,
  is_epoch, tail_point, tick_tables,
}

-- Whether an ack is written: the batch has timed out, or the ack is for it.
abbrev pub is_written : ℕ → Ack → Option Outstanding → Bool
is_written now a none = false
is_written now a (some o) = leb o.deadline now || o.batch == a.wake_id

-- A line that is no ack changes nothing.
unfoldable pub ack_tables :
    Text → Text → ℕ → Option Ack → Tables → Result PushError (AckOutcome × Tables)
unfolding ack load_document transact_wakes
ack_tables own epoch now none t = ok (AckOutcome.ignored, t)
ack_tables own epoch now (some a) t =
    transact_wakes own epoch
      (λ valid. do
        doc ← load_document valid.stored
        let after = ack now a (record { doc = doc; rows = valid.rows })
        ok (after.0, if is_written now a doc.outstanding then save after.1 valid else valid))
      t

unfoldable pub due_tables : Text → Text → ℕ → Tables → Result PushError (Option ℕ × Tables)
unfolding next_due_at load_document transact_wakes
due_tables own epoch now = transact_wakes own epoch (reading (next_due_at now))

-- The position and the scan epoch that a scan or a probe starts from.
pub record ScanStart : Type 0 where
  pub cursor : Option Point
  pub epoch : Option Text

unfoldable pub start_scan : Tables → Result PushError (ScanStart × Tables)
unfolding load_document later
start_scan t = do
  delivery ← present (load_delivery t.delivery)
  doc ← load_document t.stored
  start ← of_delivery (scan_start delivery)
  ok (record { cursor = later doc.frontier start.0; epoch = doc.scan_epoch }, t)

-- How a scan goes on after a page: at a cursor, never, or anew from the rebuilt position.
pub data Next : Type 0 where
  page_after : Option Point → Next
  done rescan : Next

abbrev pub next_of : Bool → Option Point → Next
next_of true (some p) = page_after (some p)
next_of _ _ = done

-- Where a scan gets its instants, fresh ids and pages: the n-th of each.
pub record World : Type 0 where
  pub now : ℕ → ℕ
  pub merge_id : ℕ → Text
  pub tick_id : ℕ → Text
  pub batch : ℕ → Text
  pub read_after : ℕ → Option Point → Page
  pub others : ℕ → Tables → Tables

-- A page merged, and the scheduler step after it.
unfoldable pub scan_page :
    RepresentativeBinding
    → Text
    → World
    → ℕ
    → Option Text
    → Page
    → Tables
    → Result PushError ((Next × Option WakeEmission) × Tables)
unfolding transact_wakes tick_tables
scan_page bound own world n epoch page t = do
  merged ← transact_wakes own (world.merge_id n) (merge bound (world.now n) epoch page) t
  if is_some merged.0
      then (do
        ticked ← tick_tables own (world.tick_id n) (world.now n) (world.batch n) merged.1
        ok ((next_of page.has_more (tail_point page.entries), ticked.0), ticked.1))
      else ok ((rescan, none), merged.1)

-- How a scan ended: all pages read, rebuilt on the way, or out of fuel.
pub data ScanEnd : Type 0 where
  covered rebuilt out_of_fuel : ScanEnd

-- The pages from a cursor on; `left` is the fuel and counts the requests down.
unfoldable pub scan_loop :
    ℕ
    → RepresentativeBinding
    → Text
    → World
    → Option Text
    → Option Point
    → Tables
    → Result PushError (ScanEnd × Tables)
unfolding scan_page
scan_loop zero bound own world epoch cursor t = ok (out_of_fuel, t)
scan_loop (suc left) bound own world epoch cursor t = do
  let read = world.others left t
  scanned ← scan_page bound own world left epoch (world.read_after left cursor) read
  elim scanned.0.0 [
    | page_after next ↦ scan_loop left bound own world epoch next scanned.1
    | done ↦ ok (covered, scanned.1)
    | rescan ↦ ok (rebuilt, scanned.1)
  ]

unfoldable pub scan_once :
    ℕ → RepresentativeBinding → Text → Text → World → Tables → Result PushError (ScanEnd × Tables)
unfolding scan_loop start_scan transact_wakes
scan_once fuel bound own epoch_id world t = do
  start ← transact_wakes own epoch_id start_scan t
  scan_loop fuel bound own world start.0.epoch start.0.cursor start.1

-- `captureCohort` persists its probe only in the epoch that it was read in.
abbrev pub captured : ℕ → WakeDocument → WakeDocument
captured count doc = record doc {
  cohort = some (record { remaining = count; is_open = ltb 0 count });
  startup_pending = false;
}

unfoldable pub start_capture : Tables → Result PushError (Option ScanStart × Tables)
unfolding start_scan load_document
start_capture t = do
  doc ← load_document t.stored
  if cohort_open doc.cohort then ok (none, t) else (do start ← start_scan t; ok (some start.0, t))

unfoldable pub persist_capture : ℕ → Option Text → Tables → Result PushError (Bool × Tables)
unfolding load_document
persist_capture count epoch t = do
  doc ← load_document t.stored
  if not (is_epoch doc.scan_epoch epoch)
      then ok (false, t)
      else if cohort_open doc.cohort
      then ok (true, t)
      else ok (true, save (record { doc = captured count doc; rows = t.rows }) t)

-- The backend's answer to a probe: how many entries it returned and how many lie behind them.
pub record Probe : Type 0 where
  pub entries : ℕ
  pub behind_by : Option ℕ

abbrev pub probed : Probe → ℕ
probed p = elim p.behind_by [ none ↦ 0 | some n ↦ p.entries + n ]

-- One attempt: whether the capture is settled.
unfoldable pub capture_attempt :
    Text
    → Text
    → (Option Point → Probe)
    → (Tables → Tables)
    → Tables
    → Result PushError (Bool × Tables)
unfolding start_capture persist_capture transact_wakes
capture_attempt own epoch_id probe others t = do
  start ← transact_wakes own epoch_id start_capture t
  elim start.0 [
    | none ↦ ok (true, start.1)
    | some s ↦
        transact_wakes own epoch_id (persist_capture (probed (probe s.cursor)) s.epoch)
          (others start.1)
  ]

-- `CAPTURE_ATTEMPTS`
abbrev pub capture_attempts : ℕ
capture_attempts = 3

unfoldable pub capture_loop :
    ℕ
    → Text
    → (ℕ → Text)
    → (Option Point → Probe)
    → (ℕ → Tables → Tables)
    → Tables
    → Result PushError Tables
unfolding capture_attempt
capture_loop zero own ids probe others t = ok t
capture_loop (suc left) own ids probe others t = do
  tried ← capture_attempt own (ids left) probe (others left) t
  if tried.0 then ok tried.1 else capture_loop left own ids probe others tried.1

unfoldable pub capture_cohort :
    Text
    → (ℕ → Text)
    → (Option Point → Probe)
    → (ℕ → Tables → Tables)
    → Tables
    → Result PushError (WakeSummary × Tables)
unfolding capture_loop transact_wakes load_document summarize
capture_cohort own ids probe others t = do
  after ← capture_loop capture_attempts own ids probe others t
  transact_wakes own (ids capture_attempts) (reading summarize) after
