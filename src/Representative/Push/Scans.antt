-- ===== src/Representative/Push/Scans.antt =====
-- A scan ends when the log does (`scanOnce` of src/representative-push.ts).
use borg_mcp_client.Prelude.{
  ℕ, zero, suc, ◌≡◌, Bool, true, false, Option, none, some, if◌then◌else◌, is_some,
}
use borg_mcp_client.Prelude.Result.{Result, ok, err, ◌>>=◌}
use borg_mcp_client.Text.{Text}
use borg_mcp_client.Representative.Binding.{RepresentativeBinding}
use borg_mcp_client.Representative.Point.{Point}
use borg_mcp_client.Representative.Push.{WakeEmission}
use borg_mcp_client.Representative.Read.{Page}
use borg_mcp_client.Representative.Push.Engine.{
  ScanEnd, out_of_fuel, covered, rebuilt, Next, done, rescan, page_after, next_of, World, scan_loop,
  scan_page,
}
use borg_mcp_client.Representative.Push.Discovery.{
  Tables, PushError, transact_wakes, tick_tables, merge, tail_point,
}

abbrev pub IsEnd : ScanEnd → Type 0
IsEnd out_of_fuel = ⊥
IsEnd _ = Unit

-- A result is an error, or the scan did not run out of fuel.
abbrev pub Ends : Result PushError (ScanEnd × Tables) → Type 0
Ends (err e) = Unit
Ends (ok (end, t)) = IsEnd end

-- The scan does not go on.
abbrev Stops : Result PushError ((Next × Option WakeEmission) × Tables) → Type 0
Stops (ok ((page_after next, wake), t)) = ⊥
Stops _ = Unit

Stops-ticked :
    (tail : Option Point) (more : Bool) (m : Result PushError (Option WakeEmission × Tables))
    → more ≡ false
    → Stops (m >>= (λ ticked. ok ((next_of more tail, ticked.0), ticked.1)))
Stops-ticked tail more (err e) h = tt
Stops-ticked tail true (ok (wake, t)) h = cc
Stops-ticked tail false (ok (wake, t)) h = tt

Stops-merged :
    (then_tick : Tables → Result PushError ((Next × Option WakeEmission) × Tables))
    (m : Result PushError (Option ℕ × Tables))
    → ((t : Tables) → Stops (then_tick t))
    → Stops (
        m >>= (λ merged.
          if is_some merged.0 then then_tick merged.1 else ok ((rescan, none), merged.1)))
Stops-merged then_tick (err e) h = tt
Stops-merged then_tick (ok (none, t)) h = tt
Stops-merged then_tick (ok (some n, t)) h = h t

abbrev continue :
    (Option Point → Tables → Result PushError (ScanEnd × Tables))
    → (Next × Option WakeEmission) × Tables
    → Result PushError (ScanEnd × Tables)
continue loop scanned = elim scanned.0.0 [
  | page_after next ↦ loop next scanned.1
  | done ↦ ok (covered, scanned.1)
  | rescan ↦ ok (rebuilt, scanned.1)
]

Ends-Stops :
    (loop : Option Point → Tables → Result PushError (ScanEnd × Tables))
    (m : Result PushError ((Next × Option WakeEmission) × Tables))
    → Stops m
    → Ends (m >>= continue loop)
Ends-Stops loop (err e) h = tt
Ends-Stops loop (ok ((page_after next, wake), t)) h = absurd h
Ends-Stops loop (ok ((done, wake), t)) h = tt
Ends-Stops loop (ok ((rescan, wake), t)) h = tt

Ends-continues :
    (loop : Option Point → Tables → Result PushError (ScanEnd × Tables))
    (m : Result PushError ((Next × Option WakeEmission) × Tables))
    → ((next : Option Point) (t : Tables) → Ends (loop next t))
    → Ends (m >>= continue loop)
Ends-continues loop (err e) h = tt
Ends-continues loop (ok ((page_after next, wake), t)) h = h next t
Ends-continues loop (ok ((done, wake), t)) h = tt
Ends-continues loop (ok ((rescan, wake), t)) h = tt

scan_page-Stops :
    (bound : RepresentativeBinding) (own : Text) (world : World) (n : ℕ) (epoch : Option Text)
    (page : Page) (t : Tables)
    → page.has_more ≡ false
    → Stops (scan_page bound own world n epoch page t)
unfolding scan_page
scan_page-Stops bound own world n epoch page t h =
    Stops-merged _ (transact_wakes own (world.merge_id n) (merge bound (world.now n) epoch page) t)
      (λ after.
        Stops-ticked (tail_point page.entries) page.has_more
          (tick_tables own (world.tick_id n) (world.now n) (world.batch n) after) h)

-- A scan ends: if the log does not go on after the last page that the fuel allows to be read, then
-- the scan does not run out of fuel, whatever the pages hold and others commit in between.
pub scan_loop-Ends :
    (left : ℕ) (bound : RepresentativeBinding) (own : Text) (world : World) (epoch : Option Text)
    (cursor : Option Point) (t : Tables)
    → ((at : Option Point) → (world.read_after 0 at).has_more ≡ false)
    → Ends (scan_loop (suc left) bound own world epoch cursor t)
unfolding scan_loop
scan_loop-Ends zero bound own world epoch cursor t h =
    Ends-Stops (scan_loop zero bound own world epoch)
      (scan_page bound own world 0 epoch (world.read_after 0 cursor) (world.others 0 t))
      (scan_page-Stops bound own world 0 epoch (world.read_after 0 cursor) (world.others 0 t)
        (h cursor))
scan_loop-Ends (suc left) bound own world epoch cursor t h =
    Ends-continues (scan_loop (suc left) bound own world epoch)
      (scan_page bound own world (suc left) epoch (world.read_after (suc left) cursor)
        (world.others (suc left) t))
      (λ next after. scan_loop-Ends left bound own world epoch next after h)
