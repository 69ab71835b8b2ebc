-- ===== src/Representative/Send/Ambiguous.antt =====
-- What the outcome of a send says of the backend, and what an unknown outcome leaves
-- (src/representative-core.ts).
use borg_mcp_client.Prelude.{◌≡◌, refl, ◌⊎◌, inl, inr, true, false, some, Bool-cases, Option-cases}
use borg_mcp_client.Prelude.Result.{ok}
use borg_mcp_client.Text.{Text, eq_refl}
use borg_mcp_client.Representative.Ledger.{
  RequestRecord, Ledger, ReserveInput, as_ambiguous, settle, prune_settled, find_id, is_sent,
  is_unresolved, settle_record, resettled_record,
}
use borg_mcp_client.Representative.Ledger.Find.{find_id-update_id, find_id-append}
use borg_mcp_client.Representative.Ledger.Unique.{Unique}
use borg_mcp_client.Representative.Ledger.Prune.{find_id-prune_settled_unresolved}
use borg_mcp_client.Representative.Ledger.Shapes.{
  settle_missing, settle_present, KeepsId-settle_record, request_id-resettled_record,
}
use borg_mcp_client.Representative.Ledger.Trace.{Unique-settle}
use borg_mcp_client.Representative.Send.{
  AppendFailure, failed, ambiguous, classify_append_failure, Call, settle_input, conclude,
}

-- The ledger holds the request as unresolved and possibly stored.
pub record IsMarked (id : Text) (records : Ledger) : Type 0 where
  pub row : RequestRecord
  pub here : find_id id records ≡ some row
  pub unresolved : is_unresolved row.state ≡ true
  pub stored : row.maybe_stored ≡ true

-- Another attempt under this id has been recorded as sent.
pub record IsSent (id : Text) (records : Ledger) : Type 0 where
  pub row : RequestRecord
  pub here : find_id id records ≡ some row
  pub done : is_sent row.state ≡ true

IsMarked-prune :
    (id : Text) (records : Ledger)
    → Unique records
    → IsMarked id records
    → IsMarked id (prune_settled records)
IsMarked-prune id records u m = record {
  row = m.row;
  here = find_id-prune_settled_unresolved id records m.row u m.here m.unresolved;
  unresolved = m.unresolved;
  stored = m.stored;
}

settle_ambiguous :
    (input : ReserveInput) (records : Ledger)
    → IsMarked input.candidate (settle input as_ambiguous records).1
      ⊎ IsSent input.candidate records
settle_ambiguous input records = elim (Option-cases (find_id input.candidate records)) [
  | inl gone ↦ inl (record {
    row = resettled_record input as_ambiguous;
    here = rw (settle_missing input as_ambiguous records gone) (
        rw (find_id-append input.candidate records (resettled_record input as_ambiguous)) (
          rw gone (
            rw (request_id-resettled_record input as_ambiguous)
              (rw (eq_refl input.candidate) refl))));
    unresolved = unfold resettled_record in refl;
    stored = unfold resettled_record in refl;
  })
  | inr (r, here) ↦ elim (Bool-cases (is_sent r.state)) [
    | inl done ↦ inr (record { row = r; here = here; done = done })
    | inr waiting ↦ inl (record {
      row = settle_record input.stamp as_ambiguous r;
      here = rw (settle_present input as_ambiguous records r here) (
          rw
            (find_id-update_id input.candidate input.candidate
              (settle_record input.stamp as_ambiguous) records
              (KeepsId-settle_record input.stamp as_ambiguous))
            (rw (eq_refl input.candidate) (rw here refl)));
      unresolved = unfold settle_record in rw waiting refl;
      stored = unfold settle_record in rw waiting refl;
    })
  ]
]

-- When the append failed in a way that may follow a committed write, the call reports an unknown
-- outcome, and the ledger then holds the request unresolved and marked, unless another attempt
-- under the same id had already been recorded as sent.
pub conclude-ambiguous :
    (call : Call) (failure : AppendFailure) (records : Ledger)
    → Unique records
    → (classify_append_failure failure).0 ≡ false
    → let after = conclude call (failed failure) records in
      (after.0 ≡ ok (ambiguous (classify_append_failure failure).1))
      × (IsMarked call.input.candidate after.1 ⊎ IsSent call.input.candidate records)
conclude-ambiguous call failure records u h = (
  unfold conclude in rw h refl,
  elim (settle_ambiguous (settle_input call) records) [
    | inr done ↦ inr done
    | inl marked ↦ inl (
        unfold conclude in
        rw h (
          IsMarked-prune call.input.candidate (settle (settle_input call) as_ambiguous records).1
            (Unique-settle (settle_input call) as_ambiguous records u) marked))
  ],
)
