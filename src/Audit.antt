-- ===== src/Audit.antt =====
-- The scan of a transcript for work that was not logged (src/log-audit-core.ts). An entry holds the
-- fields that the scan reads, none where they are absent or of another type; the answer is the
-- number that the nudge names.
pub mod Recent
mod Tests
use borg_mcp_client.Prelude.{
  ℕ, zero, suc, Bool, true, false, not, ◌&&◌, ◌||◌, Option, none, some, List, [], ◌∷◌, ◌++◌, leb,
  if◌then◌else◌,
}
use borg_mcp_client.Prelude.Lists.{any}
use borg_mcp_client.Text.{Text, lit, ◌==◌, member}
use borg_mcp_client.Args.Names.{all_of}
use borg_mcp_client.Roles.Slug.{is_space}

pub record Part : Type 0 where
  pub kind : Option Text
  pub name : Option Text
  pub tool : Option Text
  pub text : Option Text

-- `message.content`, `content` or `parts`: a string, an array, or something else
pub data Content : Type 0 where
  string : Text → Content
  array : List Part → Content
  other : Content

pub record Payload : Type 0 where
  pub kind : Option Text
  pub name : Option Text

pub record Entry : Type 0 where
  pub kind : Option Text
  pub role : Option Text
  pub info_role : Option Text
  pub message_content : Option Content
  pub content : Option Content
  pub parts : Option Content
  pub payload : Option Payload

unfoldable pub material_tools : List Text
unfolding lit
material_tools =
    lit "Edit"
    ∷ lit "Write"
    ∷ lit "MultiEdit"
    ∷ lit "NotebookEdit"
    ∷ lit "Bash"
    ∷ lit "edit"
    ∷ lit "write"
    ∷ lit "bash"
    ∷ lit "apply_patch"
    ∷ lit "exec_command"
    ∷ lit "functions.exec_command"
    ∷ lit "functions.apply_patch"
    ∷ []

unfoldable pub log_tools : List Text
unfolding lit
log_tools = lit "mcp__borg__borg_log" ∷ lit "borg_borg_log" ∷ []

abbrev pub threshold : ℕ
threshold = 3

abbrev pub max_scan : ℕ
max_scan = 400

-- `a ?? b`
abbrev pub first_of {ℓ} : {A : Type ℓ} → Option A → Option A → Option A
first_of none b = b
first_of (some a) b = some a

abbrev pub entry_role : Entry → Option Text
entry_role entry = first_of entry.kind (first_of entry.role entry.info_role)

abbrev pub entry_content : Entry → Option Content
entry_content entry = first_of entry.message_content (first_of entry.content entry.parts)

abbrev pub is_text : Option Text → Text → Bool
is_text none t = false
is_text (some s) t = s == t

-- `text.trim().length > 0`
abbrev pub is_not_blank : Option Text → Bool
is_not_blank none = false
is_not_blank (some s) = not (all_of is_space s)

abbrev pub is_text_part : Part → Bool
is_text_part part = is_text part.kind (lit "text") && is_not_blank part.text

abbrev pub has_prompt : Option Content → Bool
has_prompt (some (string s)) = is_not_blank (some s)
has_prompt (some (array parts)) = any is_text_part parts
has_prompt content = false

abbrev pub is_user_prompt : Entry → Bool
is_user_prompt entry = is_text (entry_role entry) (lit "user") && has_prompt (entry_content entry)

abbrev pub is_assistant : Entry → Bool
is_assistant entry =
    is_text (entry_role entry) (lit "assistant") || is_text (entry_role entry) (lit "response_item")

abbrev pub is_named : Option Text → Bool
is_named none = false
is_named (some name) = true

abbrev pub is_use : Part → Bool
is_use part = is_text part.kind (lit "tool_use") && is_named part.name

abbrev pub tool_name : Part → Option Text
tool_name part =
    if is_use part
    then part.name
    else if is_text part.kind (lit "tool") || is_text part.kind (lit "tool_call")
    then part.tool
    else none

abbrev pub as_list : Option Text → List Text
as_list none = []
as_list (some name) = name ∷ []

-- the names in an array of parts, the last part first
abbrev pub part_names : List Part → List Text
part_names [] = []
part_names (part ∷ parts) = part_names parts ++ as_list (tool_name part)

abbrev pub content_names : Option Content → List Text
content_names (some (array parts)) = part_names parts
content_names content = []

abbrev pub payload_name : Option Payload → Option Text
payload_name none = none
payload_name (some payload) =
    if is_text payload.kind (lit "function_call") || is_text payload.kind (lit "custom_tool_call")
    then payload.name
    else none

-- the tools that an entry calls, in the order of the scan
unfoldable pub entry_names : Entry → List Text
unfolding lit ◌==◌
entry_names entry =
    if is_assistant entry
    then as_list (payload_name entry.payload) ++ content_names (entry_content entry)
    else []

-- The scan goes on with a number of material calls, or has ended with its answer.
pub data Scan : Type 0 where
  going : ℕ → Scan
  ended : Option ℕ → Scan

abbrev pub at_threshold : ℕ → Option ℕ
at_threshold material = if leb threshold material then some material else none

abbrev pub unless_ended : ℕ → Scan
unless_ended material = if leb threshold material then ended (some material) else going material

unfoldable pub see : Text → ℕ → Scan
unfolding member log_tools material_tools
see name material =
    if member name log_tools
    then ended (at_threshold material)
    else unless_ended (if member name material_tools then suc material else material)

abbrev pub then_see : (ℕ → Scan) → Scan → Scan
then_see rest (going material) = rest material
then_see rest (ended answer) = ended answer

unfoldable pub see_all : List Text → ℕ → Scan
unfolding see
see_all [] material = going material
see_all (name ∷ names) material = then_see (see_all names) (see name material)

abbrev pub answer_of : Scan → Option ℕ
answer_of (going material) = none
answer_of (ended answer) = answer

-- at most so many entries, the last one first
unfoldable pub scan_back : ℕ → List Entry → ℕ → Scan
unfolding see_all entry_names
scan_back zero entries material = going material
scan_back (suc left) [] material = going material
scan_back (suc left) (entry ∷ entries) material =
    then_see (scan_back left entries) (see_all (entry_names entry) material)

unfoldable pub reverse_onto {ℓ} : {A : Type ℓ} → List A → List A → List A
reverse_onto [] ys = ys
reverse_onto (x ∷ xs) ys = reverse_onto xs (x ∷ ys)

-- the prompt that is being answered is not scanned
unfoldable pub skip_prompt : List Entry → List Entry
unfolding lit ◌==◌
skip_prompt [] = []
skip_prompt (entry ∷ entries) = if is_user_prompt entry then entries else entry ∷ entries

unfoldable pub evaluate_log_audit : List Entry → Option ℕ
unfolding scan_back reverse_onto skip_prompt
evaluate_log_audit entries =
    answer_of (scan_back max_scan (skip_prompt (reverse_onto entries [])) 0)
