-- ===== src/Representative/Push/Cohorts.antt =====
-- The startup cohort is gated by the number of entries that discovery has scanned (`merge` of
-- src/representative-push.ts).
use borg_mcp_client.Prelude.{
  ℕ, suc, ◌+◌, ◌-◌, ◌≤◌, ◌≡◌, ◌↔◌, true, false, Option, none, some, List, [], ◌∷◌, arith,
}
use borg_mcp_client.Prelude.{◌==◌ as nat_eq}
use mathlib.Core.Path.{subst}
use borg_mcp_client.Prelude.Lists.{length, All}
use borg_mcp_client.Representative.Binding.{RepresentativeBinding}
use borg_mcp_client.Representative.Point.{Point, later}
use borg_mcp_client.Representative.Read.{Page}
use borg_mcp_client.Representative.Push.{Cohort, WakeDocument, WakeRow, Wakes, cohort_open}
use borg_mcp_client.Representative.Push.Discovery.{
  merge_page, after_page, scan_cohort, insert_entries, prune_rows, tail_point,
}

-- A page merged at an instant above a floor.
pub record Read : Type 0 where
  pub now : ℕ
  pub floor : Point
  pub page : Page

abbrev pub merge_reads : RepresentativeBinding → List Read → Wakes → Wakes
merge_reads bound [] w = w
merge_reads bound (read ∷ reads) w =
    merge_reads bound reads (merge_page bound read.floor read.now read.page w).1

abbrev pub total : List Read → ℕ
total [] = 0
total (read ∷ reads) = length read.page.entries + total reads

-- The log goes on after the page.
abbrev pub GoesOn : Read → Type 0
GoesOn read = read.page.has_more ≡ true

-- The cohort is open with that many entries to scan, or closed when there are none.
abbrev Remains : ℕ → Option Cohort → Type 0
Remains n none = ⊥
Remains n (some c) = elim (nat_eq n 0) [
  | true ↦ c.is_open ≡ false
  | false ↦ (c.is_open ≡ true) × (c.remaining ≡ n)
]

Remains-eq : (a b : ℕ) (c : Option Cohort) → a ≡ b → Remains a c → Remains b c
Remains-eq a b c e h = subst (λ n. Remains n c) e h

Remains-open : (n : ℕ) → Remains (suc n) (some (record { remaining = suc n; is_open = true }))
Remains-open n = ground arith

after_page-Remains :
    (now inserted n k : ℕ) (rows : List WakeRow) (doc : WakeDocument) (c : Option Cohort)
    → Remains n c
    → Remains
        (n - k)
        (after_page now inserted true rows (record doc { cohort = scan_cohort k c })).cohort
unfolding after_page
after_page-Remains now inserted n k rows doc none h = absurd h
after_page-Remains now inserted n k rows doc (some c) h = ground arith

merge_reads-Remains :
    (bound : RepresentativeBinding) (n : ℕ) (reads : List Read) (w : Wakes)
    → All GoesOn reads
    → Remains n w.doc.cohort
    → Remains (n - total reads) (merge_reads bound reads w).doc.cohort
unfolding merge_page
merge_reads-Remains bound n [] w all h = Remains-eq n (n - 0) w.doc.cohort (omega arith) h
merge_reads-Remains bound n (read ∷ reads) w (more, all) h =
    let k = length read.page.entries in
    let added = insert_entries bound read.floor read.now read.page.entries w.rows in
    let next = (merge_page bound read.floor read.now read.page w).1 in
    Remains-eq (n - k - total reads) (n - (k + total reads))
      (merge_reads bound reads next).doc.cohort (omega arith)
      (merge_reads-Remains bound (n - k) reads next all (
        rw more (
          after_page-Remains read.now added.0 n k (prune_rows read.floor added.1)
            (record w.doc { frontier = later w.doc.frontier (tail_point read.page.entries) })
            w.doc.cohort h)))

closed_iff : (n : ℕ) (c : Option Cohort) → Remains n c → (cohort_open c ≡ false) ↔ (n ≡ 0)
closed_iff n none h = absurd h
closed_iff n (some c) h = ground arith

-- A cohort that was captured at a positive size is closed exactly when the pages merged since then
-- hold that many entries, while the log goes on: neither entries that were written later nor the
-- way the log is cut into pages moves the target.
pub merge_reads-closed_iff :
    (bound : RepresentativeBinding) (n : ℕ) (reads : List Read) (w : Wakes)
    → All GoesOn reads
    → w.doc.cohort ≡ some (record { remaining = suc n; is_open = true })
    → (cohort_open (merge_reads bound reads w).doc.cohort ≡ false) ↔ (suc n ≤ total reads)
merge_reads-closed_iff bound n reads w all h =
    let remains = merge_reads-Remains bound (suc n) reads w all (rw h (Remains-open n)) in
    ground (arith, closed_iff (suc n - total reads) (merge_reads bound reads w).doc.cohort remains)
