-- ===== src/Audit/Tests.antt =====
-- Runs of the audit of src/log-audit-core.ts, and the theorem at one.
use borg_mcp_client.Prelude.{◌≡◌, refl, some, none, List, [], ◌∷◌}
use borg_mcp_client.Text.{Text, lit, ◌==◌, member}
use borg_mcp_client.Audit.{
  Part, Content, Entry, material_tools, log_tools, max_scan, entry_names, see, see_all, scan_back,
  reverse_onto, skip_prompt, evaluate_log_audit,
}
use borg_mcp_client.Audit.Recent.{
  called, since_log, count_material, nudge_at, evaluate_log_audit_lem,
}

runs : Unit {0}
unfolding lit ◌==◌ member material_tools log_tools entry_names see see_all scan_back reverse_onto
    skip_prompt evaluate_log_audit
runs = tt

abbrev use_of : Text → Part
use_of name = record { kind = some (lit "tool_use"); name = some name; tool = none; text = none }

abbrev assistant : List Part → Entry
assistant parts = record {
  kind = some (lit "assistant");
  role = none;
  info_role = none;
  message_content = some (Content.array parts);
  content = none;
  parts = none;
  payload = none;
}

abbrev prompt : Entry
prompt = record {
  kind = some (lit "user");
  role = none;
  info_role = none;
  message_content = some (Content.string (lit "go on"));
  content = none;
  parts = none;
  payload = none;
}

abbrev worked : List Entry
worked =
    assistant (use_of (lit "Edit") ∷ use_of (lit "Bash") ∷ [])
    ∷ assistant (use_of (lit "Write") ∷ [])
    ∷ prompt
    ∷ []

nudge_run : evaluate_log_audit worked ≡ some 3
unfolding runs
nudge_run = refl

logged_run :
    evaluate_log_audit (
      assistant (use_of (lit "Edit") ∷ use_of (lit "Bash") ∷ use_of (lit "Edit") ∷ [])
      ∷ assistant (use_of (lit "mcp__borg__borg_log") ∷ use_of (lit "Write") ∷ [])
      ∷ [])
    ≡ none
unfolding runs
logged_run = refl

evaluate_log_audit_lem_example :
    evaluate_log_audit worked
    ≡ nudge_at (count_material (since_log (called max_scan (skip_prompt (reverse_onto worked [])))))
evaluate_log_audit_lem_example = evaluate_log_audit_lem worked
