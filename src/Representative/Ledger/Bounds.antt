-- ===== src/Representative/Ledger/Bounds.antt =====
-- How many settled records a run of transactions leaves (src/representative-store.ts).
use borg_mcp_client.Prelude.{◌≤◌, List, [], ◌∷◌}
use borg_mcp_client.Prelude.Lists.{length, filter}
use borg_mcp_client.Prelude.Result.{Result, ok, err}
use borg_mcp_client.Representative.Ledger.{
  Ledger, ReserveError, Reservation, reserve, settle, release, is_settled, settled_request_limit,
}
use borg_mcp_client.Representative.Ledger.Prune.{prune_settled_bound}
use borg_mcp_client.Representative.Ledger.Trace.{
  Tx, reserve_tx, settle_tx, release_tx, transact, transact_all, committed,
}

committed_bound :
    (records : Ledger) (out : Result ReserveError (Reservation × Ledger))
    → length (filter is_settled records) ≤ settled_request_limit
    → length (filter is_settled (committed records out)) ≤ settled_request_limit
unfolding committed
committed_bound records (ok (found, next)) h = prune_settled_bound next
committed_bound records (err e) h = h

transact_bound :
    (tx : Tx) (records : Ledger)
    → length (filter is_settled records) ≤ settled_request_limit
    → length (filter is_settled (transact tx records)) ≤ settled_request_limit
unfolding transact
transact_bound (reserve_tx input) records h = committed_bound records (reserve input records) h
transact_bound (settle_tx input outcome) records h =
    prune_settled_bound (settle input outcome records).1
transact_bound (release_tx id prior) records h = prune_settled_bound (release id prior records)

-- A ledger that holds at most 200 settled records holds at most 200 after any run of reservations,
-- settlements and releases, refused reservations included.
pub transact_all_bound :
    (txs : List Tx) (records : Ledger)
    → length (filter is_settled records) ≤ 200
    → length (filter is_settled (transact_all txs records)) ≤ 200
unfolding transact_all
transact_all_bound [] records h = h
transact_all_bound (tx ∷ txs) records h =
    transact_all_bound txs (transact tx records) (transact_bound tx records h)
