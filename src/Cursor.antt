-- ===== src/Cursor.antt =====
-- The stored read positions of a seat (src/local-server-cursor.ts): reading, advancing and clearing
-- one. A key stands for the hash that `cursorKey` makes of a binding; `is_valid` is what
-- `validCursor` answers. The lock and the file system are left out: an operation is one function on
-- what the file holds, where an error leaves the file as it was.
pub mod Advance
mod Tests
use borg_mcp_client.Prelude.{
  Bool, true, false, not, ◌&&◌, ◌||◌, Option, none, some, List, [], ◌∷◌, if◌then◌else◌, is_some,
}
use borg_mcp_client.Prelude.Result.{Result, ok, err}
use borg_mcp_client.Text.{Text, ◌==◌}
use borg_mcp_client.Text.Order.{text_lt}
use borg_mcp_client.Representative.Point.{Point}

abbrev pub Cursors : Type 0
Cursors = List (Text × Point)

-- The state file: absent, with content that is no cursor file, or with cursors.
pub data CursorFile : Type 0 where
  missing corrupt : CursorFile
  cursors : Cursors → CursorFile

pub data CursorError : Type 0 where
  invalid_cursor state_corrupt : CursorError
  guard_rejected : Text → CursorError

-- `continuationGuard`: not passed, or what its call before the read and its call before the rename
-- of the new file answer, a throw by its code.
pub data ContinuationGuard : Type 0 where
  absent : ContinuationGuard
  passed : (first again : Result Text (Unit {0})) → ContinuationGuard

abbrev pub first_answer : ContinuationGuard → Result Text (Unit {0})
first_answer absent = ok tt
first_answer (passed first again) = first

abbrev pub second_answer : ContinuationGuard → Result Text (Unit {0})
second_answer absent = ok tt
second_answer (passed first again) = again

abbrev pub is_valid_entry : (Point → Bool) → (Text × Point) → Bool
is_valid_entry is_valid entry = is_valid entry.1

unfoldable pub all_valid : (Point → Bool) → Cursors → Bool
all_valid is_valid [] = true
all_valid is_valid (entry ∷ entries) = is_valid_entry is_valid entry && all_valid is_valid entries

unfoldable pub read_state : (Point → Bool) → CursorFile → Result CursorError Cursors
unfolding all_valid
read_state is_valid missing = ok []
read_state is_valid corrupt = err state_corrupt
read_state is_valid (cursors entries) =
    if all_valid is_valid entries then ok entries else err state_corrupt

unfoldable pub find_cursor : Text → Cursors → Option Point
find_cursor key [] = none
find_cursor key ((k, point) ∷ rest) =
    let found = find_cursor key rest in if k == key then some point else found

-- `state.cursors[key] = cursor`
unfoldable pub set_cursor : Text → Point → Cursors → Cursors
set_cursor key cursor [] = (key, cursor) ∷ []
set_cursor key cursor ((k, point) ∷ rest) =
    let next = set_cursor key cursor rest in
    if k == key then (k, cursor) ∷ rest else (k, point) ∷ next

-- `delete state.cursors[key]`
unfoldable pub delete_cursor : Text → Cursors → Cursors
delete_cursor key [] = []
delete_cursor key ((k, point) ∷ rest) =
    let next = delete_cursor key rest in if k == key then next else (k, point) ∷ next

-- whether the stored position is at or after the new one
abbrev pub is_reached : Option Point → Point → Bool
is_reached none cursor = false
is_reached (some prior) cursor =
    text_lt cursor.created_at prior.created_at
    || (prior.created_at == cursor.created_at
        && (text_lt cursor.id prior.id || prior.id == cursor.id))

-- what an operation answers, and what the file holds after it
abbrev pub CursorStep : Type 0
CursorStep = Result CursorError (Unit {0}) × CursorFile

abbrev pub write_after : Result Text (Unit {0}) → Cursors → CursorFile → CursorStep
write_after (err code) next file = (err (guard_rejected code), file)
write_after (ok u) next file = (ok tt, cursors next)

-- `writeState`: the guard is called once more, then the new file is renamed over the old one.
unfoldable pub write_state : ContinuationGuard → Cursors → CursorFile → CursorStep
write_state guard next file = write_after (second_answer guard) next file

-- The body under the lock, once the state is read.
abbrev pub advance_in :
    ContinuationGuard → Text → Point → CursorFile → Result CursorError Cursors → CursorStep
unfolding find_cursor set_cursor write_state
advance_in guard key cursor file (err e) = (err e, file)
advance_in guard key cursor file (ok entries) =
    if is_reached (find_cursor key entries) cursor
    then (ok tt, file)
    else write_state guard (set_cursor key cursor entries) file

abbrev pub advance_after :
    (Point → Bool)
    → ContinuationGuard
    → Text
    → Point
    → CursorFile
    → Result Text (Unit {0})
    → CursorStep
unfolding read_state find_cursor set_cursor write_state
advance_after is_valid guard key cursor file (err code) = (err (guard_rejected code), file)
advance_after is_valid guard key cursor file (ok u) =
    advance_in guard key cursor file (read_state is_valid file)

unfoldable pub advance_local_server_cursor :
    (Point → Bool) → ContinuationGuard → Text → Point → CursorFile → CursorStep
unfolding read_state find_cursor set_cursor write_state
advance_local_server_cursor is_valid guard key cursor file =
    if is_valid cursor
    then advance_after is_valid guard key cursor file (first_answer guard)
    else (err invalid_cursor, file)

abbrev pub clear_in : Text → CursorFile → Result CursorError Cursors → CursorStep
unfolding find_cursor delete_cursor write_state
clear_in key file (err e) = (err e, file)
clear_in key file (ok entries) =
    if is_some (find_cursor key entries)
    then write_state absent (delete_cursor key entries) file
    else (ok tt, file)

unfoldable pub clear_local_server_cursor : (Point → Bool) → Text → CursorFile → CursorStep
unfolding read_state clear_in
clear_local_server_cursor is_valid key file = clear_in key file (read_state is_valid file)

abbrev pub get_in : Text → Result CursorError Cursors → Result CursorError (Option Point)
get_in key (err e) = err e
get_in key (ok entries) = ok (find_cursor key entries)

unfoldable pub get_local_server_cursor :
    (Point → Bool) → Text → CursorFile → Result CursorError (Option Point)
unfolding read_state find_cursor
get_local_server_cursor is_valid key file = get_in key (read_state is_valid file)
