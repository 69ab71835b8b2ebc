-- ===== src/Representative/Read/Scan.antt =====
-- What the scan of `readRepresentativeReplies` (src/representative-core.ts) collects, and that it
-- ends.
use borg_mcp_client.Prelude.{
  ℕ, zero, suc, ◌<◌, ◌≡◌, refl, sym, Bool, true, false, Option, none, some, List, [], ◌∷◌, ◌++◌,
  arith, inl, inr, Bool-cases, is_some,
}
use borg_mcp_client.Prelude.Lists.{last}
use borg_mcp_client.Representative.Point.{Point, compare_points, is_gt}
use borg_mcp_client.Representative.Point.Order.{After, After-trans}
use borg_mcp_client.Representative.Read.{
  LogEntry, Page, Addressed, Candidate, Scanned, Request, point_of, wanted, is_addressed, consider,
  scan_entry, scan_entries, scan_pages, unless_full, follow, end_page,
}

-- each candidate comes strictly after the one before it, and the first after `floor`
abbrev pub Ascending : Point → List Candidate → Type 0
Ascending floor [] = Unit
Ascending floor (c ∷ cs) = After c.point (some floor) × Ascending c.point cs

Ascending-append :
    (floor : Point) (cs : List Candidate) (c d : Candidate)
    → Ascending floor (cs ++ c ∷ [])
    → After d.point (some c.point)
    → Ascending floor ((cs ++ c ∷ []) ++ d ∷ [])
Ascending-append floor [] c d (a, u) b = (a, (b, tt))
Ascending-append floor (e ∷ cs) c d (a, rest) b = (a, Ascending-append e.point cs c d rest b)

-- The candidates ascend from `floor`, and a candidate after the last position keeps it so.
pub record Ordered (floor : Point) (seen : Scanned) : Type 0 where
  pub ascending : Ascending floor seen.candidates
  pub open_end :
      (c : Candidate)
      → After c.point (some seen.last_seen)
      → Ascending floor (seen.candidates ++ c ∷ [])

consider-Ordered :
    (floor : Point) (request : Request) (entry : LogEntry) (addressed : Option Addressed)
    (seen : Scanned)
    → Ordered floor seen
    → After (point_of entry) (some seen.last_seen)
    → Ordered floor
        (consider request entry addressed (record seen { last_seen = point_of entry })).1
unfolding consider
consider-Ordered floor request entry none seen o a = record {
  ascending = o.ascending;
  open_end = λ c b. o.open_end c (After-trans c.point (point_of entry) (some seen.last_seen) b a);
}
consider-Ordered floor request entry (some addressed) seen o a =
    let added = o.open_end _ a in
    record {
      ascending = added;
      open_end = λ c b. Ascending-append floor seen.candidates _ c added b;
    }

scan_entry-Ordered :
    (floor : Point) (request : Request) (entry : LogEntry) (seen : Scanned)
    → Ordered floor seen
    → Ordered floor (scan_entry request entry seen).1
unfolding scan_entry
scan_entry-Ordered floor request entry seen o =
    elim (Bool-cases (is_gt (compare_points (point_of entry) (some seen.last_seen)))) [
      | inl a ↦ rw a (
          consider-Ordered floor request entry
            (wanted request.include_broadcast (is_addressed request.bound entry)) seen o a)
      | inr n ↦ rw n o
    ]

unless_full-Ordered :
    (floor : Point) (rest : Scanned → Bool × Scanned) (reached : Bool × Scanned)
    → ((seen : Scanned) → Ordered floor seen → Ordered floor (rest seen).1)
    → Ordered floor reached.1
    → Ordered floor (unless_full rest reached).1
unless_full-Ordered floor rest (true, seen) k o = o
unless_full-Ordered floor rest (false, seen) k o = k seen o

scan_entries-Ordered :
    (floor : Point) (request : Request) (entries : List LogEntry) (seen : Scanned)
    → Ordered floor seen
    → Ordered floor (scan_entries request entries seen).1
unfolding scan_entries
scan_entries-Ordered floor request [] seen o = o
scan_entries-Ordered floor request (entry ∷ entries) seen o =
    unless_full-Ordered floor (scan_entries request entries) (scan_entry request entry seen)
      (scan_entries-Ordered floor request entries) (scan_entry-Ordered floor request entry seen o)

some-Ordered :
    (floor : Point) (seen final : Scanned)
    → Ordered floor seen
    → some seen ≡ some final
    → Ordered floor final
some-Ordered floor seen final o e = let same : seen ≡ final = cc in rw (sym same) o

follow-Ordered :
    (floor : Point) (next_page : Option Point → Scanned → Option Scanned) (tail : Option LogEntry)
    (has_more : Bool) (seen final : Scanned)
    → ((cursor : Option Point) (seen : Scanned)
        → Ordered floor seen
        → next_page cursor seen ≡ some final
        → Ordered floor final)
    → Ordered floor seen
    → follow next_page tail has_more seen ≡ some final
    → Ordered floor final
follow-Ordered floor next_page none has_more seen final k o e = some-Ordered floor seen final o e
follow-Ordered floor next_page (some tail) false seen final k o e =
    some-Ordered floor seen final o e
follow-Ordered floor next_page (some tail) true seen final k o e = k (some (point_of tail)) seen o e

end_page-Ordered :
    (floor : Point) (next_page : Option Point → Scanned → Option Scanned) (page : Page)
    (reached : Bool × Scanned) (final : Scanned)
    → ((cursor : Option Point) (seen : Scanned)
        → Ordered floor seen
        → next_page cursor seen ≡ some final
        → Ordered floor final)
    → Ordered floor reached.1
    → end_page next_page page reached ≡ some final
    → Ordered floor final
end_page-Ordered floor next_page page (true, seen) final k o e = some-Ordered floor seen final o e
end_page-Ordered floor next_page page (false, seen) final k o e =
    follow-Ordered floor next_page (last page.entries) page.has_more seen final k o e

-- What the scan collects ascends strictly in the order of the log from where the scan started.
pub scan_pages-Ordered :
    (floor : Point) (request : Request) (read_after : Option Point → Page) (pages : ℕ)
    (cursor : Option Point) (seen final : Scanned)
    → Ordered floor seen
    → scan_pages request read_after pages cursor seen ≡ some final
    → Ordered floor final
unfolding scan_pages
scan_pages-Ordered floor request read_after zero cursor seen final o e = cc
scan_pages-Ordered floor request read_after (suc pages) cursor seen final o e =
    end_page-Ordered floor (scan_pages request read_after pages) (read_after cursor)
      (scan_entries request (read_after cursor).entries seen) final
      (λ next s o e. scan_pages-Ordered floor request read_after pages next s final o e)
      (scan_entries-Ordered floor request (read_after cursor).entries seen o) e

follow_ends :
    (next_page : Option Point → Scanned → Option Scanned) (tail : Option LogEntry) (has_more : Bool)
    (seen : Scanned)
    → ((entry : LogEntry)
        → tail ≡ some entry
        → has_more ≡ true
        → is_some (next_page (some (point_of entry)) seen) ≡ true)
    → is_some (follow next_page tail has_more seen) ≡ true
follow_ends next_page none has_more seen k = refl
follow_ends next_page (some tail) false seen k = refl
follow_ends next_page (some tail) true seen k = k tail refl refl

end_page_ends :
    (next_page : Option Point → Scanned → Option Scanned) (page : Page) (reached : Bool × Scanned)
    → ((entry : LogEntry) (seen : Scanned)
        → last page.entries ≡ some entry
        → page.has_more ≡ true
        → is_some (next_page (some (point_of entry)) seen) ≡ true)
    → is_some (end_page next_page page reached) ≡ true
end_page_ends next_page page (true, seen) k = refl
end_page_ends next_page page (false, seen) k =
    follow_ends next_page (last page.entries) page.has_more seen (λ entry. k entry seen)

-- The server's contract for a page: if there are more entries, fewer are left after its last one.
abbrev pub Advances : (Option Point → Page) → (Option Point → ℕ) → Type 0
Advances read_after left =
    (cursor : Option Point) (tail : LogEntry)
    → last (read_after cursor).entries ≡ some tail
    → (read_after cursor).has_more ≡ true
    → left (some (point_of tail)) < left cursor

pub scan_pages_ends :
    (request : Request) (read_after : Option Point → Page) (left : Option Point → ℕ)
    → Advances read_after left
    → (pages : ℕ) (cursor : Option Point) (seen : Scanned) → left cursor < pages
    → is_some (scan_pages request read_after pages cursor seen) ≡ true
unfolding scan_pages
scan_pages_ends request read_after left advances zero cursor seen h = absurd (omega arith)
scan_pages_ends request read_after left advances (suc pages) cursor seen h =
    end_page_ends (scan_pages request read_after pages) (read_after cursor)
      (scan_entries request (read_after cursor).entries seen)
      (λ entry next e m.
        scan_pages_ends request read_after left advances pages (some (point_of entry)) next
          (let fewer = advances cursor entry e m in omega arith))
