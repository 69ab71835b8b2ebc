-- ===== src/Representative/Start/Resolved.antt =====
-- What `ensureDeliveryState` (src/representative-delivery-store.ts) leaves.
use borg_mcp_client.Prelude.{
  ◌≡◌, refl, Bool, true, false, Option, none, some, [], ◌∷◌, arith, inl, inr, Bool-cases, is_some,
}
use borg_mcp_client.Prelude.Result.{ok, err}
use borg_mcp_client.Prelude.Lists.{any}
use borg_mcp_client.Text.{Text, ◌==◌, eq_refl}
use borg_mcp_client.Args.Loop.{Returns, Returns-if, Returns_lem}
use borg_mcp_client.Representative.Delivery.{DeliveryState, is_head_pending}
use borg_mcp_client.Representative.Start.{
  Rows, stale_generation, Head, position, EnsureContext, find_row, update_row, is_current, inserted,
  prepared, of_other, resolved, resolve, after_prepare, ensure_delivery_state,
}

-- the generation has a row whose start is resolved, so a scan may start
abbrev pub IsResolved : Option DeliveryState → Type 0
IsResolved none = ⊥
IsResolved (some row) = is_head_pending row.start_kind ≡ false

inserted-IsResolved :
    (ctx : EnsureContext) (rows : Rows)
    → IsResolved (find_row ctx.generation ((ctx.generation, inserted ctx) ∷ rows))
unfolding find_row inserted
inserted-IsResolved ctx rows = rw (eq_refl ctx.generation) refl

resolved_lem :
    (ctx : EnsureContext) (head : Head) (history : Bool) (row : DeliveryState)
    → is_head_pending (resolved ctx head history row).start_kind ≡ false
unfolding resolved
resolved_lem ctx (position point) true row = refl
resolved_lem ctx (position point) false row = refl
resolved_lem ctx Head.empty history row = refl
resolved_lem ctx Head.unbounded history row = refl

find_row-update_row :
    (generation : Text) (next : DeliveryState) (rows : Rows)
    → is_some (find_row generation rows) ≡ true
    → find_row generation (update_row generation next rows) ≡ some next
unfolding find_row update_row
find_row-update_row generation next [] h = cc
find_row-update_row generation next ((g, row) ∷ rows) h = elim (Bool-cases (g == generation)) [
  | inl same ↦ rw same (rw same refl)
  | inr other ↦
      let more : is_some (find_row generation rows) ≡ true = ground (arith, h, other) in
      rw other (rw other (find_row-update_row generation next rows more))
]

resolve-IsResolved :
    (ctx : EnsureContext) (head : Head) (rows : Rows) (found : Option DeliveryState)
    → find_row ctx.generation rows ≡ found
    → is_some found ≡ true
    → IsResolved (find_row ctx.generation (resolve ctx head rows found))
resolve-IsResolved ctx head rows none e h = cc
resolve-IsResolved ctx head rows (some row) e h =
    elim (Bool-cases (is_head_pending row.start_kind)) [
      | inl pending ↦
          let next = resolved ctx head (any (of_other ctx) rows) row in
          let present : is_some (find_row ctx.generation rows) ≡ true = rw e refl in
          rw pending (
            rw (find_row-update_row ctx.generation next rows present)
              (resolved_lem ctx head (any (of_other ctx) rows) row))
      | inr done ↦ rw done (rw e done)
    ]

abbrev pub HasRow : EnsureContext → Rows → Type 0
HasRow ctx rows = is_some (find_row ctx.generation rows) ≡ true

abbrev pub Resolves : EnsureContext → Rows → Type 0
Resolves ctx rows = IsResolved (find_row ctx.generation rows)

after_prepare-Resolves :
    (ctx : EnsureContext) (head : Head) (later : Option Text) (between : Rows → Rows) (rows : Rows)
    (found : Option DeliveryState)
    → ((rows : Rows) → HasRow ctx rows → HasRow ctx (between rows))
    → find_row ctx.generation rows ≡ found
    → Returns (Resolves ctx) (after_prepare ctx head later between (prepared ctx rows found))
after_prepare-Resolves ctx head later between rows none k e = inserted-IsResolved ctx rows
after_prepare-Resolves ctx head later between rows (some row) k e =
    pending (is_head_pending row.start_kind) refl
  where
    pending :
        (p : Bool)
        → is_head_pending row.start_kind ≡ p
        → Returns (Resolves ctx) (after_prepare ctx head later between (p, rows))
    pending false q = rw e q
    pending true q =
        Returns-if (Resolves ctx) (is_current ctx.generation later)
          (ok (resolve ctx head (between rows) (find_row ctx.generation (between rows))))
          (err stale_generation)
          (λ c. resolve-IsResolved ctx head (between rows) _ refl (k rows (rw e refl))) (λ c. tt)

-- Whatever the server's head is, and whatever others commit meanwhile that keeps the generation's
-- row, a successful call leaves the generation a row whose start is resolved.
pub ensure_delivery_state-Resolves :
    (ctx : EnsureContext) (head : Head) (current later : Option Text) (between : Rows → Rows)
    (rows next : Rows)
    → ((rows : Rows) → HasRow ctx rows → HasRow ctx (between rows))
    → ensure_delivery_state ctx head current later between rows ≡ ok next
    → Resolves ctx next
unfolding ensure_delivery_state
ensure_delivery_state-Resolves ctx head current later between rows next k e =
    Returns_lem (Resolves ctx) _ next
      (Returns-if (Resolves ctx) (is_current ctx.generation current)
        (after_prepare ctx head later between (prepared ctx rows (find_row ctx.generation rows)))
        (err stale_generation) (λ c. after_prepare-Resolves ctx head later between rows _ k refl)
        (λ c. tt))
      e
