-- ===== src/Representative/Read/Ends.antt =====
-- `readRepresentativeReplies` (src/representative-core.ts) needs finitely many pages.
use borg_mcp_client.Prelude.{
  ℕ, zero, suc, ◌<◌, ◌≡◌, Bool, true, false, Option, none, some, List, [], ◌∷◌, is_some, ltb,
  if◌then◌else◌,
}
use borg_mcp_client.Prelude.Result.{Result, ok, err}
use borg_mcp_client.Representative.Point.{Point}
use borg_mcp_client.Representative.Delivery.{
  DeliveryState, DeliveryError, loaded, scan_start, widen_read_window,
}
use borg_mcp_client.Representative.Read.{
  Candidate, Page, Scanned, Request, ReadResult, ReadError, pages_exhausted, read_oversize,
  delivery, result, alone, bound_of, single_read, conclude_read, assemble, read_scanned,
  read_replies, scan_pages, scanned_from, widened_answer, after_assemble, read_from, window,
}
use borg_mcp_client.Representative.Read.Scan.{Advances, scan_pages_ends}

-- an answer other than that the pages did not suffice
abbrev pub IsAnswer {ℓ} : {A : Type ℓ} → Result ReadError A → Type 0
IsAnswer (ok a) = Unit
IsAnswer (err pages_exhausted) = ⊥
IsAnswer (err e) = Unit

IsAnswer-if :
    (larger : Bool) (measured bound : ℕ) (next : ReadResult)
    → IsAnswer (if larger then err (read_oversize measured bound) else ok next)
IsAnswer-if true measured bound next = tt
IsAnswer-if false measured bound next = tt

single_read-IsAnswer :
    (size : ReadResult → ℕ) (max_bytes : ℕ) (reached : Option Point) (seen : Scanned)
    (cs : List Candidate)
    → IsAnswer (single_read size max_bytes reached seen cs)
unfolding single_read
single_read-IsAnswer size max_bytes reached seen [] = tt
single_read-IsAnswer size max_bytes reached seen (c ∷ cs) =
    let next = alone size (bound_of max_bytes) (result reached seen 1 true) in
    IsAnswer-if (ltb (bound_of max_bytes) (size next)) (size next) (bound_of max_bytes) next

conclude_read-IsAnswer :
    (size : ReadResult → ℕ) (max_bytes : ℕ) (reached : Option Point) (seen : Scanned) (count : ℕ)
    → IsAnswer (conclude_read size max_bytes reached seen count)
unfolding conclude_read
conclude_read-IsAnswer size max_bytes reached seen (suc count) = tt
conclude_read-IsAnswer size max_bytes reached seen zero =
    single_read-IsAnswer size max_bytes reached seen seen.candidates

widen_for-IsAnswer :
    (row : Option DeliveryState) (seen : Scanned) (final : ReadResult)
    (next : Result DeliveryError (Option DeliveryState))
    → IsAnswer (widened_answer final next)
widen_for-IsAnswer row seen final (err e) = tt
widen_for-IsAnswer row seen final (ok next) = tt

after_assemble-IsAnswer :
    (row : Option DeliveryState) (seen : Scanned) (answer : Result ReadError ReadResult)
    → IsAnswer answer
    → IsAnswer (after_assemble row seen answer)
after_assemble-IsAnswer row seen (ok final) a =
    widen_for-IsAnswer row seen final (widen_read_window row (window seen final))
after_assemble-IsAnswer row seen (err (read_oversize measured bound)) a = tt
after_assemble-IsAnswer row seen (err (delivery e)) a = tt
after_assemble-IsAnswer row seen (err pages_exhausted) a = absurd a

read_scanned-IsAnswer :
    (size : ReadResult → ℕ) (request : Request) (reached : Option Point)
    (row : Option DeliveryState) (seen : Option Scanned)
    → is_some seen ≡ true
    → IsAnswer (read_scanned size request reached row seen)
unfolding read_scanned
read_scanned-IsAnswer size request reached row none h = cc
read_scanned-IsAnswer size request reached row (some seen) h =
    after_assemble-IsAnswer row seen (assemble size request reached seen)
      (unfold assemble in conclude_read-IsAnswer size request.max_bytes reached seen _)

from_start-IsAnswer :
    (size : ReadResult → ℕ) (request : Request) (read_after : Option Point → Page) (pages : ℕ)
    (reached : Option Point) (row : Option DeliveryState)
    (start : Result DeliveryError (Option Point × Point))
    → ((cursor : Option Point) (seen : Scanned)
        → is_some (scan_pages request read_after pages cursor seen) ≡ true)
    → IsAnswer (read_from size request read_after pages reached row start)
unfolding read_from
from_start-IsAnswer size request read_after pages reached row (err e) k = tt
from_start-IsAnswer size request read_after pages reached row (ok (cursor, floor)) k =
    read_scanned-IsAnswer size request reached row _ (k cursor (scanned_from floor))

-- If the server's pages advance, so that fewer entries are left after each page that has more, a
-- read that may ask for more pages than there are entries comes to an answer: it returns, or it is
-- refused for its size or by the delivery state.
pub read_replies_ends :
    (size : ReadResult → ℕ) (request : Request) (read_after : Option Point → Page)
    (left : Option Point → ℕ) (pages : ℕ) (before row : Option DeliveryState)
    → Advances read_after left
    → ((cursor : Option Point) → left cursor < pages)
    → IsAnswer (read_replies size request read_after pages before row)
unfolding read_replies
read_replies_ends size request read_after left pages none row a h = tt
read_replies_ends size request read_after left pages (some before) row a h =
    from_start-IsAnswer size request read_after pages before.checkpoint row
      (scan_start (loaded before))
      (λ cursor seen. scan_pages_ends request read_after left a pages cursor seen (h cursor))
