-- ===== src/Representative/Push/Recovery.antt =====
-- Invalid wake state never stops the engine and never touches the delivery state (`transact` and
-- `discardInvalidWakeState` of src/representative-push.ts).
use borg_mcp_client.Prelude.{
  ◌≡◌, refl, true, false, not, ◌&&◌, Option, none, some, arith, if◌then◌else◌, Bool-cases, inl, inr,
}
use borg_mcp_client.Prelude.{◌==◌ as nat_eq}
use borg_mcp_client.Prelude.Result.{Result, ok, err, ◌>>=◌}
use borg_mcp_client.Text.{Text, eq_refl}
use borg_mcp_client.Representative.Delivery.{
  DeliveryState, is_head_pending, is_binding, load_delivery, scan_start,
}
use borg_mcp_client.Representative.Point.{Point}
use borg_mcp_client.Representative.Start.{is_current}
use borg_mcp_client.Representative.Push.{Wakes}
use borg_mcp_client.Representative.Push.Discovery.{
  Tables, Stored, absent, invalid, document, PushError, transact_wakes, discard_invalid_wake_state,
  load_document, is_invalid, on_wakes, rebuilt_frontier,
}

-- The start of the delivery, if there is one, has been resolved.
abbrev pub IsResolved : Option DeliveryState → Type 0
IsResolved none = Unit
IsResolved (some delivery) = is_head_pending delivery.start_kind ≡ false

abbrev pub IsDocument : Stored → Type 0
IsDocument (document doc) = Unit
IsDocument _ = ⊥

-- The operation returns; the wake state that it leaves is readable, the delivery state and the
-- binding are as before.
abbrev pub Recovers {ℓ} : {A : Type ℓ} → Tables → Result PushError (A × Tables) → Type 0
Recovers t (err e) = ⊥
Recovers t (ok (answer, after)) =
    IsDocument after.stored
    × (after.invalid_rows ≡ 0)
    × (after.delivery ≡ t.delivery)
    × (after.bound ≡ t.bound)

-- Tables whose wake state is readable.
abbrev Readable : Tables → Tables → Type 0
Readable t valid =
    (is_invalid valid.stored ≡ false)
    × (valid.invalid_rows ≡ 0)
    × (valid.delivery ≡ t.delivery)
    × (valid.bound ≡ t.bound)

abbrev Readably : Tables → Result PushError Tables → Type 0
Readably t (err e) = ⊥
Readably t (ok valid) = Readable t valid

frontier_resolved :
    (d : Option DeliveryState)
    → IsResolved d
    → (f : Option Point) × (rebuilt_frontier (load_delivery d) ≡ ok f)
unfolding scan_start
frontier_resolved none h = (none, refl)
frontier_resolved (some d) h = (
  elim d.checkpoint [
    | some point ↦ some point
    | none ↦ if is_binding d.start_kind then none else some d.start
  ],
  rw h refl,
)

discard-Readably :
    (epoch : Text) (t : Tables)
    → IsResolved t.delivery
    → Readably t (discard_invalid_wake_state epoch t)
unfolding discard_invalid_wake_state
discard-Readably epoch t h =
    elim (Bool-cases (not (is_invalid t.stored) && nat_eq t.invalid_rows 0)) [
      | inl q ↦ rw q (ground arith, ground arith, refl, refl)
      | inr q ↦ rw (q, (frontier_resolved t.delivery h).1) (refl, refl, refl, refl)
    ]

on_wakes-Recovers {ℓ} :
    {A : Type ℓ} (step : Wakes → A × Wakes) (t valid : Tables) (stored : Stored)
    → valid.stored ≡ stored
    → Readable t valid
    → Recovers t (on_wakes step valid)
unfolding load_document
on_wakes-Recovers step t valid absent e (i, r, d, b) = rw e (tt, r, d, b)
on_wakes-Recovers step t valid invalid e (i, r, d, b) =
    let i' : true ≡ false = rw e at i in absurd (cc)
on_wakes-Recovers step t valid (document doc) e (i, r, d, b) = rw e (tt, r, d, b)

then_Recovers {ℓ} :
    {A : Type ℓ} (step : Wakes → A × Wakes) (t : Tables) (m : Result PushError Tables)
    → Readably t m
    → Recovers t (m >>= (λ valid. on_wakes step valid))
then_Recovers step t (err e) h = absurd h
then_Recovers step t (ok valid) h = on_wakes-Recovers step t valid valid.stored refl h

is_current_own : (own : Text) (bound : Option Text) → bound ≡ some own → is_current own bound ≡ true
is_current_own own bound e = rw e (eq_refl own)

-- Whatever the wake state holds, a document or a row that does not parse included, a transition
-- of the engine that saves its result, as a scheduler step does, returns while the worktree is bound
-- to the engine's generation and the start of the delivery is resolved: the state that it leaves is
-- readable, and the delivery state is unchanged.
pub transact_wakes-Recovers {ℓ} :
    {A : Type ℓ} (own epoch : Text) (step : Wakes → A × Wakes) (t : Tables)
    → t.bound ≡ some own
    → IsResolved t.delivery
    → Recovers t (transact_wakes own epoch (on_wakes step) t)
unfolding transact_wakes
transact_wakes-Recovers own epoch step t e h =
    rw (is_current_own own t.bound e)
      (then_Recovers step t (discard_invalid_wake_state epoch t) (discard-Readably epoch t h))
