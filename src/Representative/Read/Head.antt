-- ===== src/Representative/Read/Head.antt =====
-- `serverHead` (src/representative-core.ts) finds the newest position of the log.
use borg_mcp_client.Prelude.{
  ℕ, zero, suc, ◌<◌, ◌≡◌, refl, ap, Bool, true, false, Option, none, some, arith,
}
use borg_mcp_client.Prelude.Result.{Result, ok}
use borg_mcp_client.Prelude.Lists.{last}
use borg_mcp_client.Representative.Point.{Point}
use borg_mcp_client.Representative.Read.{
  LogEntry, Page, point_of, HeadError, head_after, server_head,
}
use borg_mcp_client.Representative.Read.Scan.{Advances}

-- the cursors that a walk from the log's start asks for
pub data Handed (read_after : Option Point → Page) : Option Point → Type 0 where
  at_start : Handed read_after none
  at_tail :
      {cursor : Option Point} {tail : LogEntry}
      → Handed read_after cursor
      → last (read_after cursor).entries ≡ some tail
      → Handed read_after (some (point_of tail))

-- The server's contract: a page without entries is at the newest position, and a page that has no
-- more after it ends there.
pub record EndsAt (read_after : Option Point → Page) (newest : Option Point) : Type 0 where
  pub empty :
      (cursor : Option Point)
      → Handed read_after cursor
      → last (read_after cursor).entries ≡ none
      → cursor ≡ newest
  pub final :
      (cursor : Option Point) (tail : LogEntry)
      → Handed read_after cursor
      → last (read_after cursor).entries ≡ some tail
      → (read_after cursor).has_more ≡ false
      → some (point_of tail) ≡ newest

head_after_lem :
    (rest : LogEntry → Result HeadError (Option Point)) (cursor newest : Option Point)
    (tail : Option LogEntry) (has_more : Bool)
    → (tail ≡ none → cursor ≡ newest)
    → ((entry : LogEntry) → tail ≡ some entry → has_more ≡ false → some (point_of entry) ≡ newest)
    → ((entry : LogEntry) → tail ≡ some entry → has_more ≡ true → rest entry ≡ ok newest)
    → head_after rest cursor tail has_more ≡ ok newest
head_after_lem rest cursor newest none has_more e f k = ap (λ p. ok p) (e refl)
head_after_lem rest cursor newest (some tail) false e f k = ap (λ p. ok p) (f tail refl refl)
head_after_lem rest cursor newest (some tail) true e f k = k tail refl refl

-- If the server's pages advance, and end at its newest position, then a walk at any cursor that it
-- reaches from the log's start, and that may still ask for more pages than there are entries left,
-- finds exactly that position.
pub server_head_newest :
    (read_after : Option Point → Page) (left : Option Point → ℕ) (newest : Option Point) (pages : ℕ)
    (cursor : Option Point)
    → Advances read_after left
    → EndsAt read_after newest
    → Handed read_after cursor
    → left cursor < pages
    → server_head read_after pages cursor ≡ ok newest
unfolding server_head
server_head_newest read_after left newest zero cursor a c g h = absurd (omega arith)
server_head_newest read_after left newest (suc pages) cursor a c g h =
    head_after_lem _ cursor newest (last (read_after cursor).entries) (read_after cursor).has_more
      (c.empty cursor g) (λ entry e. c.final cursor entry g e)
      (λ entry e m.
        server_head_newest read_after left newest pages (some (point_of entry)) a c (at_tail g e)
          (let fewer = a cursor entry e m in omega arith))
