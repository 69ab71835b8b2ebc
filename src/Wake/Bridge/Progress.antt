-- ===== src/Wake/Bridge/Progress.antt =====
-- What one attempt of the retry drain does with work that has no entry (src/codex-app-wake.ts).
use borg_mcp_client.Prelude.{
  ◌≡◌, inl, inr, refl, Bool, true, false, Option, none, some, if◌then◌else◌, arith, Bool-cases,
}
use borg_mcp_client.Prelude.Result.{Result, ok, err}
use borg_mcp_client.Prelude.Lists.{filter}
use borg_mcp_client.Text.{Text}
use borg_mcp_client.Wake.Bridge.{Bridge, Answers, mark_delivered, released}
use borg_mcp_client.Wake.Bridge.Drain.{
  is_unread, prune_again, is_done, drain_started, drain_idle, drain_connected, drain_target,
  drain_active, drain_attempt,
}

-- What others do takes no work of the drain away.
abbrev pub KeepsWork : (Bridge → Bridge) → Type 0
KeepsWork f = (b : Bridge) → b.has_unscoped_work ≡ true → (f b).has_unscoped_work ≡ true

-- The attempt started a turn in a thread that was loaded and idle, and noted when.
abbrev pub HasStarted : Answers → Bridge → Type 0
HasStarted a b =
    ((thread : Text) × (a.resolved ≡ ok (some thread)))
    × (a.is_mid_turn ≡ ok false)
    × (a.started ≡ ok tt)
    × (b.last_delivered_at ≡ some a.now)

-- An attempt that ends the drain has started a turn, one that does not has kept the work.
abbrev pub Progressed : Answers → Bool × Bridge → Type 0
Progressed a (true, b) = HasStarted a b
Progressed a (false, b) = b.has_unscoped_work ≡ true

working-is_done : (b : Bridge) → b.has_unscoped_work ≡ true → is_done b ≡ false
working-is_done b h = ground (arith, h)

module _ (a : Answers) (keeps : KeepsWork a.others) where
  if-Progressed :
      (done : Bool) (ended next : Bool × Bridge)
      → done ≡ false
      → Progressed a next
      → Progressed a (if done then ended else next)
  if-Progressed done ended next e p = rw e p

  started-Progressed :
      (thread : Text) (b : Bridge) (started : Result Text (Unit {0}))
      → b.has_unscoped_work ≡ true
      → a.resolved ≡ ok (some thread)
      → a.is_mid_turn ≡ ok false
      → a.started ≡ started
      → Progressed a (drain_started a b)
  unfolding drain_started mark_delivered
  started-Progressed thread b (err code) h r m s = rw s (keeps b h)
  started-Progressed thread b (ok tt) h r m s = rw s ((thread, r), m, refl, refl)

  drain_idle-Progressed :
      (thread : Text) (b : Bridge)
      → b.has_unscoped_work ≡ true
      → a.resolved ≡ ok (some thread)
      → a.is_mid_turn ≡ ok false
      → Progressed a (drain_idle a b)
  unfolding drain_idle
  drain_idle-Progressed thread b h r m =
      let left = prune_again a.pending_again b.source_entry_ids in
      let next = record b { source_entry_ids = left.1 } in
      elim (Bool-cases left.0) [
        | inl threw ↦ rw threw (keeps next h)
        | inr checked ↦ rw checked (
            if-Progressed (is_done next) _ _ (working-is_done next h)
              (started-Progressed thread next a.started h r m refl))
      ]

  connected-Progressed :
      (thread : Text) (b : Bridge) (busy : Result Text Bool)
      → b.has_unscoped_work ≡ true
      → a.resolved ≡ ok (some thread)
      → a.is_mid_turn ≡ busy
      → Progressed a (elim busy [
        | err code ↦ (false, a.others b)
        | ok true ↦ (false, a.others b)
        | ok false ↦ drain_idle a b
      ])
  connected-Progressed thread b (err code) h r m = keeps b h
  connected-Progressed thread b (ok true) h r m = keeps b h
  connected-Progressed thread b (ok false) h r m = drain_idle-Progressed thread b h r m

  drain_connected-Progressed :
      (thread : Text) (b : Bridge) (connected : Result Text (Unit {0}))
      → b.has_unscoped_work ≡ true
      → a.resolved ≡ ok (some thread)
      → a.connected ≡ connected
      → Progressed a (drain_connected a b)
  unfolding drain_connected
  drain_connected-Progressed thread b (err code) h r e = rw e (keeps b h)
  drain_connected-Progressed thread b (ok u) h r e =
      rw e (connected-Progressed thread b a.is_mid_turn h r refl)

  resolved-Progressed :
      (b : Bridge) (resolved : Result Text (Option Text))
      → b.has_unscoped_work ≡ true
      → a.resolved ≡ resolved
      → Progressed a (elim resolved [
        | err code ↦ (false, a.others b)
        | ok none ↦ (false, a.others b)
        | ok (some thread) ↦ drain_connected a b
      ])
  resolved-Progressed b (err code) h r = keeps b h
  resolved-Progressed b (ok none) h r = keeps b h
  resolved-Progressed b (ok (some thread)) h r =
      drain_connected-Progressed thread b a.connected h r refl

  drain_target-Progressed :
      (b : Bridge) → b.has_unscoped_work ≡ true → Progressed a (drain_target a b)
  unfolding drain_target
  drain_target-Progressed b h = resolved-Progressed b a.resolved h refl

  drain_active-Progressed :
      (b : Bridge) → b.has_unscoped_work ≡ true → Progressed a (drain_active a b)
  unfolding drain_active
  drain_active-Progressed b h =
      let next = record b { source_entry_ids = filter (is_unread a.pending) b.source_entry_ids } in
      if-Progressed (is_done next) _ _ (working-is_done next h) (drain_target-Progressed next h)

  active-Progressed :
      (b : Bridge) (active : Result Text Bool)
      → b.has_unscoped_work ≡ true
      → Progressed a (elim active [
        | err code ↦ (false, a.others b)
        | ok false ↦ (false, a.others b)
        | ok true ↦ drain_active a b
      ])
  active-Progressed b (err code) h = keeps b h
  active-Progressed b (ok false) h = keeps b h
  active-Progressed b (ok true) h = drain_active-Progressed b h

  released-Progressed :
      (tried : Bool × Bridge) → Progressed a tried → Progressed a (tried.0, released tried.1)
  released-Progressed (true, b) p = p
  released-Progressed (false, b) p = p

  pub drain_attempt-Progressed :
      (b : Bridge) → b.has_unscoped_work ≡ true → Progressed a (drain_attempt a b)
  unfolding drain_attempt
  drain_attempt-Progressed b h = elim (Bool-cases b.inject_in_flight) [
    | inl held ↦ rw held h
    | inr free ↦ rw free (
        released-Progressed _ (active-Progressed (record b { inject_in_flight = true }) a.active h))
  ]
