-- ===== src/Cursor/Advance.antt =====
-- The stored position only moves forward (src/local-server-cursor.ts), in the order of
-- src/representative-delivery-store.ts.
use borg_mcp_client.Prelude.{
  ◌≡◌, refl, sym, ap, ◌∙◌, Bool, true, false, Option, none, some, [], ◌∷◌, arith, inl, inr,
  Bool-cases, if◌then◌else◌, ◌⊎◌,
}
use borg_mcp_client.Prelude.Result.{Result, ok, err}
use borg_mcp_client.Text.{Text, ◌==◌, eq_iff, eq_refl}
use borg_mcp_client.Text.Order.{text_lt_asymm, text_lt_total}
use borg_mcp_client.Representative.Point.{Point, compare_points, is_ge, later}
use borg_mcp_client.Cursor.{
  Cursors, CursorFile, CursorError, CursorStep, ContinuationGuard, first_answer, second_answer,
  all_valid, read_state, find_cursor, set_cursor, is_reached, write_after, write_state, advance_in,
  advance_after, advance_local_server_cursor,
}

is_reached-is_ge : (a b : Point) → is_reached (some a) b ≡ is_ge (compare_points a (some b))
unfolding compare_points
is_reached-is_ge a b = ground (
  arith,
  eq_iff a.created_at b.created_at,
  eq_iff a.id b.id,
  text_lt_total a.created_at b.created_at,
  text_lt_total a.id b.id,
  text_lt_asymm a.created_at b.created_at,
  text_lt_asymm b.created_at a.created_at,
  text_lt_asymm a.id b.id,
  text_lt_asymm b.id a.id,
)

find_cursor-set_cursor :
    (key : Text) (cursor : Point) (entries : Cursors)
    → find_cursor key (set_cursor key cursor entries) ≡ some cursor
unfolding find_cursor set_cursor
find_cursor-set_cursor key cursor [] = rw (eq_refl key) refl
find_cursor-set_cursor key cursor ((k, point) ∷ rest) = elim (Bool-cases (k == key)) [
  | inl same ↦ rw same (rw same refl)
  | inr other ↦ rw other (rw other (find_cursor-set_cursor key cursor rest))
]

find_cursor-set_other :
    (key other : Text) (cursor : Point) (entries : Cursors)
    → (key == other) ≡ false
    → find_cursor other (set_cursor key cursor entries) ≡ find_cursor other entries
unfolding find_cursor set_cursor
find_cursor-set_other key other cursor [] n = rw n refl
find_cursor-set_other key other cursor ((k, point) ∷ rest) n = elim (Bool-cases (k == key)) [
  | inl same ↦
      let e : k ≡ key = (eq_iff k key).0 same in
      let m : (k == other) ≡ false = ap (λ t. t == other) e ∙ n in rw same (rw m refl)
  | inr apart ↦ ground (arith, apart, find_cursor-set_other key other cursor rest n)
]

abbrev pub Moved : Text → Point → Cursors → Cursors → Type 0
Moved key cursor before after =
    (find_cursor key after ≡ later (find_cursor key before) (some cursor))
    × ((other : Text) → (key == other) ≡ false → find_cursor other after ≡ find_cursor other before)

later_if :
    (prior : Option Point) (cursor : Point)
    → later prior (some cursor) ≡ (if is_reached prior cursor then prior else some cursor)
unfolding later
later_if none cursor = refl
later_if (some a) cursor = rw (is_reached-is_ge a cursor) (ground arith)

all_valid-set_cursor :
    (is_valid : Point → Bool) (key : Text) (cursor : Point) (entries : Cursors)
    → is_valid cursor ≡ true
    → all_valid is_valid entries ≡ true
    → all_valid is_valid (set_cursor key cursor entries) ≡ true
unfolding all_valid set_cursor
all_valid-set_cursor is_valid key cursor [] v h = ground (arith, v)
all_valid-set_cursor is_valid key cursor ((k, point) ∷ rest) v h =
    ground (arith, v, h, all_valid-set_cursor is_valid key cursor rest v)

read_state-all_valid :
    (is_valid : Point → Bool) (file : CursorFile) (entries : Cursors)
    → read_state is_valid file ≡ ok entries
    → all_valid is_valid entries ≡ true
unfolding read_state all_valid
read_state-all_valid is_valid CursorFile.missing entries h = ground arith
read_state-all_valid is_valid CursorFile.corrupt entries h = cc
read_state-all_valid is_valid (CursorFile.cursors es) entries h =
    elim (Bool-cases (all_valid is_valid es)) [
      | inl valid ↦ ground (arith, valid)
      | inr bad ↦ ground (arith, bad)
    ]

-- The operation succeeded, and the file can be read and holds the moved position.
pub record HasMoved (is_valid : Point → Bool) (key : Text) (cursor : Point) (before : Cursors)
    (step : CursorStep) : Type 0 where
  pub succeeded : step.0 ≡ ok tt
  pub after : Cursors
  pub stored : read_state is_valid step.1 ≡ ok after
  pub moved : Moved key cursor before after

-- One of the guard's calls threw, and the operation with it; the file is as it was.
abbrev pub IsRejected : ContinuationGuard → CursorFile → CursorStep → Type 0
IsRejected guard file step =
    (code : Text) × ((first_answer guard ≡ err code) ⊎ (second_answer guard ≡ err code))
    × (step ≡ (err (CursorError.guard_rejected code), file))

module _ (is_valid : Point → Bool) (guard : ContinuationGuard) (key : Text) (cursor : Point)
    (file : CursorFile) (before : Cursors) (v : is_valid cursor ≡ true)
    (r : read_state is_valid file ≡ ok before) where
  reached-HasMoved :
      is_reached (find_cursor key before) cursor ≡ true
      → HasMoved is_valid key cursor before (ok tt, file)
  reached-HasMoved h = record {
    succeeded = refl;
    after = before;
    stored = r;
    moved = (sym (later_if (find_cursor key before) cursor ∙ rw h refl), λ other n. refl);
  }

  written-HasMoved :
      is_reached (find_cursor key before) cursor ≡ false
      → HasMoved is_valid key cursor before
          (ok tt, CursorFile.cursors (set_cursor key cursor before))
  written-HasMoved h =
      let valid =
        all_valid-set_cursor is_valid key cursor before v
          (read_state-all_valid is_valid file before r) in
      record {
        succeeded = refl;
        after = set_cursor key cursor before;
        stored = unfold read_state in rw valid refl;
        moved = (
          find_cursor-set_cursor key cursor before
              ∙ sym (later_if (find_cursor key before) cursor ∙ rw h refl),
          λ other n. find_cursor-set_other key other cursor before n,
        );
      }

  write_after-HasMoved :
      (again : Result Text (Unit {0}))
      → second_answer guard ≡ again
      → is_reached (find_cursor key before) cursor ≡ false
      → HasMoved is_valid key cursor before (write_after again (set_cursor key cursor before) file)
        ⊎ IsRejected guard file (write_after again (set_cursor key cursor before) file)
  write_after-HasMoved (ok u) e h = inl (written-HasMoved h)
  write_after-HasMoved (err code) e h = inr (code, inr e, refl)

  advance_in-HasMoved :
      HasMoved is_valid key cursor before (advance_in guard key cursor file (ok before))
      ⊎ IsRejected guard file (advance_in guard key cursor file (ok before))
  unfolding write_state advance_in
  advance_in-HasMoved = elim (Bool-cases (is_reached (find_cursor key before) cursor)) [
    | inl h ↦ rw h (inl (reached-HasMoved h))
    | inr h ↦ rw h (write_after-HasMoved (second_answer guard) refl h)
  ]

  advance_after-HasMoved :
      (first : Result Text (Unit {0}))
      → first_answer guard ≡ first
      → HasMoved is_valid key cursor before (advance_after is_valid guard key cursor file first)
        ⊎ IsRejected guard file (advance_after is_valid guard key cursor file first)
  unfolding advance_after
  advance_after-HasMoved (ok u) e = rw r advance_in-HasMoved
  advance_after-HasMoved (err code) e = inr (code, inl e, refl)

-- If the lock is taken and the file system does not fail, advancing a valid position in a file that
-- can be read either succeeds, and the file then can be read and holds the later of the position that
-- was stored and the new one, so that it never moves back, and every other position as it was; or a
-- call of the continuation guard threw, and the operation throws the same and leaves the file as it
-- was.
pub advance_local_server_cursor-Moved :
    (is_valid : Point → Bool) (guard : ContinuationGuard) (key : Text) (cursor : Point)
    (file : CursorFile) (before : Cursors)
    → is_valid cursor ≡ true
    → read_state is_valid file ≡ ok before
    → HasMoved is_valid key cursor before
        (advance_local_server_cursor is_valid guard key cursor file)
      ⊎ IsRejected guard file (advance_local_server_cursor is_valid guard key cursor file)
unfolding advance_local_server_cursor
advance_local_server_cursor-Moved is_valid guard key cursor file before v r =
    rw v
      (advance_after-HasMoved is_valid guard key cursor file before v r (first_answer guard) refl)
