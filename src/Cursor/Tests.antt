-- ===== src/Cursor/Tests.antt =====
-- Runs of src/local-server-cursor.ts, and the theorem at one.
use borg_mcp_client.Prelude.{◌≡◌, ◌⊎◌, refl, Bool, true, [], ◌∷◌}
use borg_mcp_client.Prelude.Result.{ok, err}
use borg_mcp_client.Text.{◌==◌}
use borg_mcp_client.Text.Order.{text_lt}
use borg_mcp_client.Representative.Point.{Point}
use borg_mcp_client.Cursor.{
  Cursors, CursorFile, CursorError, CursorStep, absent, passed, write_state, all_valid, read_state,
  find_cursor, set_cursor, delete_cursor, advance_local_server_cursor, clear_local_server_cursor,
  get_local_server_cursor,
}
use borg_mcp_client.Cursor.Advance.{HasMoved, IsRejected, advance_local_server_cursor-Moved}

runs : Unit {0}
unfolding ◌==◌ text_lt write_state all_valid read_state find_cursor set_cursor delete_cursor
    advance_local_server_cursor clear_local_server_cursor get_local_server_cursor
runs = tt

abbrev any_point : Point → Bool
any_point p = true

abbrev early : Point
early = record { id = 9 ∷ []; created_at = 1 ∷ [] }

abbrev late : Point
late = record { id = 1 ∷ []; created_at = 2 ∷ [] }

abbrev stored : Cursors
stored = (7 ∷ [], early) ∷ []

forward_run :
    advance_local_server_cursor any_point absent (7 ∷ []) late (CursorFile.cursors stored)
    ≡ (ok tt, CursorFile.cursors ((7 ∷ [], late) ∷ []))
unfolding runs
forward_run = refl

back_run :
    advance_local_server_cursor any_point
      (passed (ok tt) (err []))
      (7 ∷ [])
      early
      (CursorFile.cursors ((7 ∷ [], late) ∷ []))
    ≡ (ok tt, CursorFile.cursors ((7 ∷ [], late) ∷ []))
unfolding runs
back_run = refl

rejected_run :
    advance_local_server_cursor any_point
      (passed (ok tt) (err []))
      (7 ∷ [])
      late
      (CursorFile.cursors stored)
    ≡ (err (CursorError.guard_rejected []), CursorFile.cursors stored)
unfolding runs
rejected_run = refl

clear_run :
    clear_local_server_cursor any_point (7 ∷ []) (CursorFile.cursors stored)
    ≡ (ok tt, CursorFile.cursors [])
unfolding runs
clear_run = refl

get_run :
    get_local_server_cursor any_point (7 ∷ []) CursorFile.corrupt ≡ err CursorError.state_corrupt
unfolding runs
get_run = refl

abbrev moved : CursorStep
moved =
    advance_local_server_cursor any_point (passed (ok tt) (ok tt)) (7 ∷ []) late
      (CursorFile.cursors stored)

advance_local_server_cursor-Moved_example :
    HasMoved any_point (7 ∷ []) late stored moved
    ⊎ IsRejected (passed (ok tt) (ok tt)) (CursorFile.cursors stored) moved
unfolding runs
advance_local_server_cursor-Moved_example =
    advance_local_server_cursor-Moved any_point (passed (ok tt) (ok tt)) (7 ∷ []) late
      (CursorFile.cursors stored) stored refl refl
