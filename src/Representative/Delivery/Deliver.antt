-- ===== src/Representative/Delivery/Deliver.antt =====
-- What `deliver` accepts, and what it leaves (src/representative-core.ts and
-- src/representative-delivery-store.ts).
use borg_mcp_client.Prelude.{
  ◌≡◌, refl, sym, ◌∙◌, Bool, true, false, Option, none, some, List, [], ◌∷◌, arith, inl, inr,
  Bool-cases, ◌⊎◌,
}
use borg_mcp_client.Prelude.Result.{Result, ok, err}
use borg_mcp_client.Prelude.Lists.{All-of_filter, any, length-filter}
use borg_mcp_client.Representative.Point.{
  Point, compare_points, is_gt, later, insert_point, sort_points,
}
use borg_mcp_client.Representative.Point.Order.{After, compare_points-swap, compare_points_refl}
use borg_mcp_client.Representative.Delivery.{
  DeliveryState, unknown_entry, is_beyond, advanced, is_point, is_past, Delivered, deliver,
  deliver_at, deliver_forward, loaded, without_passed,
}
use borg_mcp_client.Representative.Delivery.Fence.{Fenced, write-Fenced, length-sort_points}

pub later-After : (a : Option Point) (p : Point) → After p a → later a (some p) ≡ some p
unfolding later
later-After none p h = refl
later-After (some a) p h = ground (arith, compare_points-swap p a)

any-insert_point :
    (test : Point → Bool) (p : Point) (ps : List Point)
    → any test (insert_point p ps) ≡ any test (p ∷ ps)
unfolding insert_point
any-insert_point test p [] = refl
any-insert_point test p (q ∷ qs) = ground (arith, any-insert_point test p qs)

pub any-sort_points :
    (test : Point → Bool) (ps : List Point) → any test (sort_points ps) ≡ any test ps
unfolding sort_points
any-sort_points test [] = refl
any-sort_points test (p ∷ ps) =
    ground (arith, any-insert_point test p (sort_points ps), any-sort_points test ps)

-- whether a read has returned this entry since the checkpoint moved, up to the fence
abbrev pub IsReturned : DeliveryState → Point → Type 0
IsReturned row p = (any (is_point p) row.returned ≡ true) × (is_past p row.read_through ≡ false)

advanced-Fenced :
    (row : DeliveryState) (p : Point)
    → Fenced row
    → After p row.checkpoint
    → is_past p row.read_through ≡ false
    → Fenced (advanced (loaded row) p)
unfolding advanced
advanced-Fenced row p f a h = record {
  within = rw (later-After row.checkpoint p a) h;
  undelivered =
      All-of_filter (λ entry. is_gt (compare_points entry (later row.checkpoint (some p))))
        (sort_points row.returned);
  capped = omega (
    arith,
    length-filter (λ entry. is_gt (compare_points entry (later row.checkpoint (some p))))
        (sort_points row.returned),
    length-sort_points row.returned,
    f.capped,
  );
}

deliver_forward_lem :
    (row : DeliveryState) (p : Point)
    → Fenced row
    → After p row.checkpoint
    → IsReturned row p
    → deliver_forward row p
      ≡ ok (record {
        checkpoint = some p;
        advanced = true;
        row = without_passed (advanced (loaded row) p);
      })
unfolding deliver_forward
deliver_forward_lem row p f a (m, h) =
    let reached : later row.checkpoint (some p) ≡ some p = later-After row.checkpoint p a in
    rw (any-sort_points (is_point p) row.returned) (
      rw m (
        rw h (
          rw (write-Fenced (advanced (loaded row) p) (advanced-Fenced row p f a h))
            (unfold advanced in rw reached (rw a refl)))))

deliver_at-After :
    (reached : Option Point) (row : DeliveryState) (p : Point)
    → After p reached
    → deliver_at reached row p ≡ deliver_forward row p
unfolding deliver_at
deliver_at-After none row p a = refl
deliver_at-After (some c) row p a = rw a refl

deliver-After :
    (row : DeliveryState) (p : Point)
    → After p row.checkpoint
    → deliver (some row) p ≡ deliver_forward row p
deliver-After row p a = unfold deliver in deliver_at-After row.checkpoint row p a

deliver_at-before :
    (reached : Option Point) (row : DeliveryState) (p : Point)
    → is_gt (compare_points p reached) ≡ false
    → deliver_at reached row p ≡ ok (record { checkpoint = reached; advanced = false; row = row })
unfolding deliver_at
deliver_at-before none row p b = unfold compare_points in cc
deliver_at-before (some c) row p b = rw b refl

deliver_before :
    (row : DeliveryState) (p : Point)
    → is_gt (compare_points p row.checkpoint) ≡ false
    → deliver (some row) p
      ≡ ok (record { checkpoint = row.checkpoint; advanced = false; row = row })
deliver_before row p b = unfold deliver in deliver_at-before row.checkpoint row p b

deliver_forward_refused :
    (row : DeliveryState) (p : Point)
    → ¬ (IsReturned row p)
    → deliver_forward row p ≡ err unknown_entry
unfolding deliver_forward
deliver_forward_refused row p n =
    rw (any-sort_points (is_point p) row.returned)
      (elim (Bool-cases (any (is_point p) row.returned)) [
        | inr gone ↦ rw gone refl
        | inl m ↦ elim (Bool-cases (is_past p row.read_through)) [
          | inl past ↦ rw m (rw past refl)
          | inr inside ↦ absurd (n (m, inside))
        ]
      ])

pub IsReturned-cases : (row : DeliveryState) (p : Point) → IsReturned row p ⊎ ¬ (IsReturned row p)
IsReturned-cases row p = elim (Bool-cases (any (is_point p) row.returned)) [
  | inr gone ↦ inr (λ h. cc (h.0))
  | inl m ↦ elim (Bool-cases (is_past p row.read_through)) [
    | inl past ↦ inr (λ h. cc (h.1))
    | inr inside ↦ inl (m, inside)
  ]
]

ok-injective : {E A : Type 0} {a b : A} → ◌≡◌ {A = Result E A} (ok a) (ok b) → a ≡ b
ok-injective h = cc

is_beyond_self : (a : Option Point) → is_beyond a a ≡ false
is_beyond_self none = refl
is_beyond_self (some a) = ground (arith, compare_points_refl a)

behind : (a : Option Point) (p : Point) → After p a → is_beyond a (some p) ≡ false
behind none p h = refl
behind (some a) p h = ground (arith, compare_points-swap p a)

-- What deliver returns, by whether the entry is after the checkpoint and was returned.
pub deliver_cases :
    (row : DeliveryState) (p : Point)
    → Fenced row
    → (After p row.checkpoint
        → IsReturned row p
        → deliver (some row) p
          ≡ ok (record {
            checkpoint = some p;
            advanced = true;
            row = without_passed (advanced (loaded row) p);
          }))
      × (is_gt (compare_points p row.checkpoint) ≡ false
          → deliver (some row) p
            ≡ ok (record { checkpoint = row.checkpoint; advanced = false; row = row }))
      × (After p row.checkpoint → ¬ (IsReturned row p) → deliver (some row) p ≡ err unknown_entry)
deliver_cases row p f = (
  λ a h. deliver-After row p a ∙ deliver_forward_lem row p f a h,
  λ b. deliver_before row p b,
  λ a n. deliver-After row p a ∙ deliver_forward_refused row p n,
)

deliver_of_Fenced :
    (row : DeliveryState) (p : Point) (d : Delivered)
    → Fenced row
    → deliver (some row) p ≡ ok d
    → (d ≡ record { checkpoint = row.checkpoint; advanced = false; row = row })
      ⊎ (After p row.checkpoint
          × IsReturned row p
          × (d ≡ record {
            checkpoint = some p;
            advanced = true;
            row = without_passed (advanced (loaded row) p);
          }))
deliver_of_Fenced row p d f e =
    let (forward, stay, refused) = deliver_cases row p f in
    elim (Bool-cases (is_gt (compare_points p row.checkpoint))) [
      | inr b ↦ inl (ok-injective (sym e ∙ stay b))
      | inl a ↦ elim (IsReturned-cases row p) [
        | inl h ↦ inr (a, h, ok-injective (sym e ∙ forward a h))
        | inr n ↦ let k = refused a n in cc
      ]
    ]

-- Every successful deliver keeps the state fenced, and never moves the checkpoint back.
pub deliver-Fenced :
    (row : DeliveryState) (p : Point) (d : Delivered)
    → Fenced row
    → deliver (some row) p ≡ ok d
    → Fenced d.row
      × (is_beyond row.checkpoint d.row.checkpoint ≡ false)
      × (d.row.checkpoint ≡ d.checkpoint)
deliver-Fenced row p d f e = elim (deliver_of_Fenced row p d f e) [
  | inl same ↦ rw same (f, is_beyond_self row.checkpoint, refl)
  | inr (a, h, moved) ↦
      let fenced = advanced-Fenced row p f a h.1 in
      rw moved (
        record { within = fenced.within; undelivered = fenced.undelivered; capped = fenced.capped },
        unfold advanced in rw (later-After row.checkpoint p a) (behind row.checkpoint p a),
        unfold advanced in later-After row.checkpoint p a,
      )
]
