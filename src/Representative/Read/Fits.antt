-- ===== src/Representative/Read/Fits.antt =====
-- What one result of `readRepresentativeReplies` (src/representative-core.ts) may hold.
use borg_mcp_client.Prelude.{
  ℕ, zero, suc, ◌+◌, ◌≤◌, ◌≡◌, refl, sym, ap, ◌∙◌, Bool, true, false, Option, List, [], ◌∷◌, arith,
  inl, inr, ◌⊎◌, Bool-cases, leb, ltb, if◌then◌else◌, ◌&&◌, min, map,
}
use borg_mcp_client.Prelude.Result.{Result, ok, err}
use borg_mcp_client.Prelude.Lists.{length, take}
use borg_mcp_client.Text.{Text}
use borg_mcp_client.Representative.Point.{Point}
use borg_mcp_client.Representative.Read.{
  Candidate, Scanned, Request, Reply, ReadResult, ReadError, result, fit, alone, checked, bound_of,
  single_read, conclude_read, assemble, reply_of, cites,
}

-- the texts of the replies, and those of the candidates
abbrev pub texts : List Reply → List Text
texts [] = []
texts (reply ∷ replies) = reply.message ∷ texts replies

abbrev pub first_texts : ℕ → List Candidate → List Text
first_texts count cs = texts (map reply_of (take count cs))

pub record Fits (size : ReadResult → ℕ) (limit max_bytes : ℕ) (seen : Scanned) (final : ReadResult)
    : Type 0 where
  pub few : length final.replies ≤ limit
  pub whole : texts final.replies ≡ first_texts (length final.replies) seen.candidates
  pub sized : ((final.replies ≡ []) × (seen.candidates ≡ [])) ⊎ (size final ≤ bound_of max_bytes)
  pub empty : (seen.candidates ≡ []) ⊎ (1 ≤ length final.replies)

length-replies :
    (count : ℕ) (cs : List Candidate)
    → count ≤ length cs
    → length (map reply_of (take count cs)) ≡ count
length-replies zero cs h = refl
length-replies (suc count) [] h = omega arith
length-replies (suc count) (c ∷ cs) h = ap suc (length-replies count cs (omega arith))

-- The loop stops at a count that is in range and whose result, unless it is the first, fits.
fit_lem :
    (size : ReadResult → ℕ) (max_bytes : ℕ) (reached : Option Point) (seen : Scanned)
    (left count : ℕ)
    → (fit size max_bytes reached seen left count ≤ count + left)
      × ((fit size max_bytes reached seen left count ≡ count)
          ⊎ (size (result reached seen (fit size max_bytes reached seen left count) false)
              ≤ max_bytes))
unfolding fit
fit_lem size max_bytes reached seen zero count = (omega arith, inl refl)
fit_lem size max_bytes reached seen (suc left) count =
    let (low, fits) = fit_lem size max_bytes reached seen left (suc count) in
    elim (Bool-cases (leb (size (result reached seen (suc count) false)) max_bytes)) [
      | inr larger ↦ rw larger (omega arith, inl refl)
      | inl smaller ↦
          rw smaller
            (omega (arith, low), elim fits [ inr h ↦ inr h | inl e ↦ inr (rw e (ground arith)) ])
    ]

checked_if :
    (size : ReadResult → ℕ) (bound : ℕ) (next final : ReadResult) (error : ReadError)
    (larger : Bool)
    → ltb bound (size next) ≡ larger
    → ◌≡◌ {A = Result ReadError ReadResult} (if larger then err error else ok next) (ok final)
    → (next ≡ final) × (size next ≤ bound)
checked_if size bound next final error true h e = cc
checked_if size bound next final error false h e = (cc, ground arith)

checked_lem :
    (size : ReadResult → ℕ) (bound : ℕ) (next final : ReadResult)
    → checked size bound next ≡ ok final
    → (next ≡ final) × (size next ≤ bound)
checked_lem size bound next final e =
    checked_if size bound next final _ (ltb bound (size next)) refl e

-- One reply on its own, whether its citations were reduced or not.
alone_one :
    (size : ReadResult → ℕ) (bound : ℕ) (next : ReadResult) (reply : Reply)
    → next.replies ≡ reply ∷ []
    → texts (alone size bound next).replies ≡ reply.message ∷ []
unfolding alone
alone_one size bound next reply e =
    elim (Bool-cases (cites next.replies && ltb bound (size next))) [
      | inl reduced ↦ rw reduced (rw e refl)
      | inr kept ↦ rw kept (rw e refl)
    ]

length-texts : (replies : List Reply) → length (texts replies) ≡ length replies
length-texts [] = refl
length-texts (reply ∷ replies) = ap suc (length-texts replies)

single_read-Fits :
    (size : ReadResult → ℕ) (limit max_bytes : ℕ) (reached : Option Point) (seen : Scanned)
    (final : ReadResult) (cs : List Candidate)
    → 1 ≤ limit
    → seen.candidates ≡ cs
    → single_read size max_bytes reached seen cs ≡ ok final
    → Fits size limit max_bytes seen final
unfolding single_read result
single_read-Fits size limit max_bytes reached seen final [] one e h =
    let same : result reached seen 0 false ≡ final = unfold result in cc in
    rw (sym same) (record { few = omega arith; whole = refl; sized = inl (refl, e); empty = inl e })
single_read-Fits size limit max_bytes reached seen final (c ∷ cs) one e h =
    let next = alone size (bound_of max_bytes) (result reached seen 1 true) in
    let (same, small) = checked_lem size (bound_of max_bytes) next final h in
    let first : (result reached seen 1 true).replies ≡ (record c.reply { oversize = true }) ∷ [] =
      rw e refl in
    let message : texts next.replies ≡ c.reply.message ∷ [] =
      alone_one size (bound_of max_bytes) (result reached seen 1 true) _ first in
    let len : length next.replies ≡ 1 = sym (length-texts next.replies) ∙ ap length message in
    rw (sym same) (record {
      few = omega (arith, len);
      whole =
          message
          ∙ sym (ap (λ n. first_texts n seen.candidates) len ∙ ap (λ cs. first_texts 1 cs) e);
      sized = inr small;
      empty = inr (omega (arith, len));
    })

conclude_read-Fits :
    (size : ReadResult → ℕ) (limit max_bytes : ℕ) (reached : Option Point) (seen : Scanned)
    (final : ReadResult) (count : ℕ)
    → 1 ≤ limit
    → count ≤ limit
    → count ≤ length seen.candidates
    → (count ≡ 0) ⊎ (size (result reached seen count false) ≤ max_bytes)
    → conclude_read size max_bytes reached seen count ≡ ok final
    → Fits size limit max_bytes seen final
unfolding conclude_read
conclude_read-Fits size limit max_bytes reached seen final zero one l n s e =
    single_read-Fits size limit max_bytes reached seen final seen.candidates one refl e
conclude_read-Fits size limit max_bytes reached seen final (suc count) one l n s e =
    let next = result reached seen (suc count) false in
    let same : next ≡ final = cc in
    let len : length next.replies ≡ suc count =
      unfold result in length-replies (suc count) seen.candidates n in
    rw (sym same) (record {
      few = omega (arith, len, l);
      whole = unfold result in sym (ap (λ n. first_texts n seen.candidates) len);
      sized = elim s [ inl empty ↦ absurd (omega arith) | inr small ↦ inr (ground (arith, small)) ];
      empty = inr (omega (arith, len));
    })

-- A read whose limit is at least 1, if its result is not refused as too large, returns at most `limit`
-- replies, the first candidates in order and each with its whole message; it returns none only if
-- there is no candidate, and otherwise the result is no larger than the greater of `max_bytes` and
-- 16384.
pub assemble-Fits :
    (size : ReadResult → ℕ) (request : Request) (reached : Option Point) (seen : Scanned)
    (final : ReadResult)
    → 1 ≤ request.limit
    → assemble size request reached seen ≡ ok final
    → Fits size request.limit request.max_bytes seen final
unfolding assemble
assemble-Fits size request reached seen final one e =
    let most = min request.limit (length seen.candidates) in
    let (low, small) = fit_lem size request.max_bytes reached seen most 0 in
    let within : most ≤ request.limit = omega arith in
    let inside : most ≤ length seen.candidates = omega arith in
    conclude_read-Fits size request.limit request.max_bytes reached seen final
      (fit size request.max_bytes reached seen most 0) one (omega (arith, low, within))
      (omega (arith, low, inside)) small e
