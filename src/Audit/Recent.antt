-- ===== src/Audit/Recent.antt =====
-- What the scan of src/log-audit-core.ts answers.
use borg_mcp_client.Prelude.{
  ℕ, zero, suc, ◌+◌, ◌≤◌, ◌≡◌, refl, sym, ap, ◌∙◌, true, false, Option, none, some, List, [], ◌∷◌,
  ◌++◌, arith, leb, if◌then◌else◌, inl, inr, Bool-cases,
}
use borg_mcp_client.Text.{Text, member}
use borg_mcp_client.Audit.{
  Entry, Scan, going, ended, material_tools, log_tools, threshold, max_scan, entry_names, see,
  then_see, see_all, scan_back, answer_of, skip_prompt, reverse_onto, evaluate_log_audit,
}

-- The specification: the tools that the scanned entries call, the newest first; those of them since
-- the last log post; and how many of these are material.
unfoldable pub called : ℕ → List Entry → List Text
called zero entries = []
called (suc left) [] = []
called (suc left) (entry ∷ entries) = entry_names entry ++ called left entries

unfoldable pub since_log : List Text → List Text
since_log [] = []
since_log (name ∷ names) =
    let rest = since_log names in if member name log_tools then [] else name ∷ rest

unfoldable pub count_material : List Text → ℕ
count_material [] = 0
count_material (name ∷ names) =
    let rest = count_material names in if member name material_tools then suc rest else rest

abbrev pub nudge_at : ℕ → Option ℕ
nudge_at count = if leb threshold count then some threshold else none

then_see_ended :
    (f g : ℕ → Scan) (s : Scan) → then_see f (then_see g s) ≡ then_see (λ n. then_see f (g n)) s
then_see_ended f g (going n) = refl
then_see_ended f g (ended a) = refl

see_all-append :
    (xs ys : List Text) (n : ℕ) → see_all (xs ++ ys) n ≡ then_see (see_all ys) (see_all xs n)
unfolding see_all
see_all-append [] ys n = refl
see_all-append (x ∷ xs) ys n =
    ap (λ (f : ℕ → Scan). then_see f (see x n)) (λ i m. see_all-append xs ys m i)
    ∙ sym (then_see_ended (see_all ys) (see_all xs) (see x n))

scan_back-called :
    (left : ℕ) (entries : List Entry) (n : ℕ)
    → scan_back left entries n ≡ see_all (called left entries) n
unfolding scan_back called see_all
scan_back-called zero entries n = refl
scan_back-called (suc left) [] n = refl
scan_back-called (suc left) (entry ∷ entries) n =
    ap (λ (f : ℕ → Scan). then_see f (see_all (entry_names entry) n))
      (λ i m. scan_back-called left entries m i)
    ∙ sym (see_all-append (entry_names entry) (called left entries) n)

see-logged : (name : Text) (n : ℕ) → n ≤ 2 → member name log_tools ≡ true → see name n ≡ ended none
unfolding see
see-logged name n h logged = rw logged (ground arith)

see-plain :
    (name : Text) (n : ℕ)
    → n ≤ 2
    → member name log_tools ≡ false
    → member name material_tools ≡ false
    → see name n ≡ going n
unfolding see
see-plain name n h other plain = rw other (rw plain (ground arith))

see-material :
    (name : Text) (n : ℕ)
    → member name log_tools ≡ false
    → member name material_tools ≡ true
    → see name n ≡ (if leb threshold (suc n) then ended (some (suc n)) else going (suc n))
unfolding see
see-material name n other material = rw other (rw material refl)

since_log-logged :
    (name : Text) (names : List Text)
    → member name log_tools ≡ true
    → count_material (since_log (name ∷ names)) ≡ 0
unfolding since_log count_material
since_log-logged name names logged = rw logged refl

since_log-other :
    (name : Text) (names : List Text)
    → member name log_tools ≡ false
    → count_material (since_log (name ∷ names)) ≡ (
        if member name material_tools
        then suc (count_material (since_log names))
        else count_material (since_log names))
unfolding since_log count_material
since_log-other name names other = rw other refl

-- one call that counts, when two at most were counted before
material_step :
    (n rest : ℕ) (f : ℕ → Scan)
    → n ≤ 2
    → (suc n ≤ 2 → answer_of (f (suc n)) ≡ nudge_at (suc n + rest))
    → answer_of (then_see f (if leb threshold (suc n) then ended (some (suc n)) else going (suc n)))
      ≡ nudge_at (n + suc rest)
material_step n rest f h k = elim (Bool-cases (leb threshold (suc n))) [
  | inl full ↦
      let three : suc n ≡ 3 = ground arith in
      let reached : leb threshold (n + suc rest) ≡ true = ground arith in
      rw full (rw reached (ap (λ m. some m) three))
  | inr few ↦
      let same : suc n + rest ≡ n + suc rest = omega arith in
      rw few (k (ground arith) ∙ ap nudge_at same)
]

see_all_lem :
    (names : List Text) (n : ℕ)
    → n ≤ 2
    → answer_of (see_all names n) ≡ nudge_at (n + count_material (since_log names))
unfolding see_all
see_all_lem [] n h = unfold since_log count_material in ground arith
see_all_lem (name ∷ names) n h = elim (Bool-cases (member name log_tools)) [
  | inl logged ↦
      rw (see-logged name n h logged) (rw (since_log-logged name names logged) (ground arith))
  | inr other ↦ elim (Bool-cases (member name material_tools)) [
    | inl material ↦ rw (see-material name n other material) (
        rw (since_log-other name names other) (
          rw material (
            material_step n (count_material (since_log names)) (see_all names) h
              (see_all_lem names (suc n)))))
    | inr plain ↦
        rw (see-plain name n h other plain)
          (rw (since_log-other name names other) (rw plain (see_all_lem names n h)))
  ]
]

zero_plus : (n : ℕ) → 0 + n ≡ n
zero_plus n = omega arith

-- The audit nudges, naming three calls, exactly when at least three material tools were called
-- since the last log post, among the last 400 entries before the prompt that is being answered.
pub evaluate_log_audit_lem :
    (entries : List Entry)
    → evaluate_log_audit entries
      ≡ nudge_at
          (count_material (since_log (called max_scan (skip_prompt (reverse_onto entries [])))))
unfolding evaluate_log_audit
evaluate_log_audit_lem entries =
    let recent = skip_prompt (reverse_onto entries []) in
    ap answer_of (scan_back-called max_scan recent 0)
    ∙ see_all_lem (called max_scan recent) 0 (omega arith)
    ∙ ap nudge_at (zero_plus (count_material (since_log (called max_scan recent))))
