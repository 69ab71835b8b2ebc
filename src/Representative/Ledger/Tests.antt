-- ===== src/Representative/Ledger/Tests.antt =====
-- Runs of the ledger transactions of src/representative-core.ts, and the theorems at such runs.
use borg_mcp_client.Prelude.{
  ◌≡◌, ◌⊎◌, refl, inl, Bool, true, false, Option, none, some, [], ◌∷◌, arith, ◌≤◌,
}
use borg_mcp_client.Prelude.Lists.{length, filter}
use borg_mcp_client.Prelude.Result.{ok, err}
use borg_mcp_client.Text.{Text, lit, ◌==◌}
use borg_mcp_client.Representative.Ledger.{
  RequestState, pending, ambiguous, sent, rejected, RequestRecord, Ledger, ReserveInput,
  ambiguous_send_unresolved, already_sent, reserved, as_sent, as_ambiguous, as_rejected, reserve,
  settle, release, find_id, prune_settled, is_settled, update_id, reserve_again, new_record,
  settle_record,
}
use borg_mcp_client.Representative.Ledger.Prune.{IsExcess}
use borg_mcp_client.Representative.Ledger.Bounds.{transact_all_bound}
use borg_mcp_client.Representative.Ledger.Trace.{
  reserve_tx, settle_tx, release_tx, transact, transact_all,
}
use borg_mcp_client.Representative.Ledger.Terminal.{left_by, transact-sent}
use borg_mcp_client.Representative.Ledger.Blocking.{Blocks, transact_all-Blocks}
use borg_mcp_client.Representative.Ledger.Refusal.{IsTwin, reserve-after_ambiguous}
use borg_mcp_client.Representative.Ledger.Outcomes.{
  release-reserve, settle_lem, settle_missing_sent,
}

runs : Unit {0}
unfolding reserve settle release prune_settled transact transact_all lit ◌==◌ find_id update_id
    reserve_again new_record settle_record
runs = tt

-- a new request, a retry of it, and the same content under another id
abbrev first : ReserveInput
first = record {
  requested = none;
  candidate = 1 ∷ [];
  digest = 7 ∷ [];
  kind = lit "request";
  authorization = lit "model_advice";
  stamp = lit "2026-01-01T00:00:00.000Z";
}

abbrev retry : ReserveInput
retry = record first { requested = some (1 ∷ []) }

abbrev twin : ReserveInput
twin = record first { candidate = 2 ∷ [] }

abbrev row : RequestState → Bool → Option Text → RequestRecord
row state stored entry = record {
  request_id = 1 ∷ [];
  payload_digest = 7 ∷ [];
  kind = lit "request";
  authorization = lit "model_advice";
  state = state;
  entry_id = entry;
  maybe_stored = stored;
  created_at = lit "2026-01-01T00:00:00.000Z";
  updated_at = lit "2026-01-01T00:00:00.000Z";
}

-- a first reservation, an overlapping retry, and a twin that is refused
reserve_new_run : reserve first [] ≡ ok (reserved none, row pending false none ∷ [])
unfolding runs
reserve_new_run = refl

reserve-retry_run :
    reserve retry (row pending false none ∷ [])
    ≡ ok (reserved (some pending), row pending true none ∷ [])
unfolding runs
reserve-retry_run = refl

reserve-twin_run :
    reserve twin (row pending false none ∷ []) ≡ err (ambiguous_send_unresolved (1 ∷ []))
unfolding runs
reserve-twin_run = refl

reserve_sent_run :
    reserve retry (row sent false (some (9 ∷ [])) ∷ [])
    ≡ ok (already_sent (some (9 ∷ [])), row sent false (some (9 ∷ [])) ∷ [])
unfolding runs
reserve_sent_run = refl

settle_refused_run :
    settle first as_rejected (row pending true none ∷ [])
    ≡ (ambiguous, row ambiguous true none ∷ [])
unfolding runs
settle_refused_run = refl

release_run : release (1 ∷ []) none (row pending false none ∷ []) ≡ []
unfolding runs
release_run = refl

abbrev run_after : Ledger
run_after =
    transact_all (reserve_tx retry ∷ settle_tx first as_rejected ∷ [])
      (transact (settle_tx first as_ambiguous) (row pending false none ∷ []))

reserve-after_ambiguous_example :
    (other : RequestRecord) × IsTwin (7 ∷ []) (2 ∷ []) run_after other
    × (reserve twin run_after ≡ err (ambiguous_send_unresolved other.request_id))
unfolding runs
reserve-after_ambiguous_example =
    reserve-after_ambiguous first twin (reserve_tx retry ∷ settle_tx first as_rejected ∷ [])
      (row pending false none ∷ []) (row pending false none) (refl, tt) refl refl refl
      (inl refl, (tt, tt)) (tt, (tt, tt)) refl refl

transact_all-Blocks_example : Blocks (1 ∷ []) (7 ∷ []) (
    transact_all
      (settle_tx first as_rejected ∷ release_tx (1 ∷ []) none ∷ [])
      (row pending true none ∷ []))
unfolding runs
transact_all-Blocks_example =
    transact_all-Blocks (1 ∷ []) (7 ∷ [])
      (settle_tx first as_rejected ∷ release_tx (1 ∷ []) none ∷ []) (row pending true none ∷ [])
      (tt, (tt, tt)) (tt, (tt, tt)) (refl, tt)
      (record {
        row = row pending true none;
        here = refl;
        content = refl;
        unresolved = refl;
        stored = refl;
      })

transact-sent_example :
    let records = row sent false (some (9 ∷ [])) ∷ [] in
    let tx = settle_tx first as_ambiguous in
    (find_id (1 ∷ []) (left_by tx records) ≡ some (row sent false (some (9 ∷ []))))
    × ((find_id (1 ∷ []) (transact tx records) ≡ some (row sent false (some (9 ∷ []))))
        ⊎ ((find_id (1 ∷ []) (transact tx records) ≡ none)
            × IsExcess (1 ∷ []) (left_by tx records)))
unfolding runs
transact-sent_example =
    transact-sent (1 ∷ []) (row sent false (some (9 ∷ [])) ∷ []) (row sent false (some (9 ∷ [])))
      refl refl (settle_tx first as_ambiguous)

transact_all_bound_example :
    length (
      filter is_settled (
        transact_all
          (reserve_tx twin ∷ settle_tx twin as_rejected ∷ [])
          (row rejected false none ∷ [])))
    ≤ 200
transact_all_bound_example =
    transact_all_bound (reserve_tx twin ∷ settle_tx twin as_rejected ∷ [])
      (row rejected false none ∷ []) (omega arith)

release-reserve_example :
    transact (release_tx (2 ∷ []) none) (transact (reserve_tx twin) (row rejected false none ∷ []))
    ≡ row rejected false none ∷ []
unfolding runs
release-reserve_example =
    release-reserve twin (row rejected false none ∷ [])
      (row rejected false none ∷ record (row pending false none) { request_id = 2 ∷ [] } ∷ [])
      (reserved none) refl refl (omega arith) refl

settle_lem_example :
    let next = settle first as_rejected (row pending true none ∷ []) in
    (next.0 ≡ ambiguous)
    × ((after : RequestRecord) × (find_id (1 ∷ []) next.1 ≡ some after)
        × (after.state ≡ next.0)
        × (after.payload_digest ≡ 7 ∷ []))
    × ((j : Text)
        → ((1 ∷ []) == j) ≡ false
        → find_id j next.1 ≡ find_id j (row pending true none ∷ []))
unfolding runs
settle_lem_example =
    settle_lem first as_rejected (row pending true none ∷ []) (row pending true none) refl

settle_missing_sent_example :
    (after : RequestRecord) × (find_id (1 ∷ []) (settle first (as_sent (some (9 ∷ []))) []).1
      ≡ some after)
    × (after.state ≡ sent)
    × (after.entry_id ≡ none)
unfolding runs
settle_missing_sent_example = settle_missing_sent first (some (9 ∷ [])) [] refl
