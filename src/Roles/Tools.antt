-- ===== src/Roles/Tools.antt =====
-- Which tools a role sees natively (src/tool-scope.ts). An absent, null or empty role name is none.
use borg_mcp_client.Prelude.{
  ◌≡◌, refl, sym, ap, ◌∙◌, Bool, true, false, not, ◌&&◌, ◌||◌, Option, none, some, List, [], ◌∷◌,
  arith, if◌then◌else◌, inl, inr, Bool-cases, is_some,
}
use borg_mcp_client.Prelude.Lists.{filter, any}
use borg_mcp_client.Text.{Text, lit, ◌==◌, member, eq_iff}

unfoldable pub dispatcher_tools : List Text
unfolding lit
dispatcher_tools = lit "borg_tool" ∷ lit "borg_describe_tool" ∷ []

unfoldable pub universal_tools : List Text
unfolding lit dispatcher_tools
universal_tools =
    lit "borg_regen"
    ∷ lit "borg_log"
    ∷ lit "borg_read_log"
    ∷ lit "borg_read_entry"
    ∷ lit "borg_roster"
    ∷ lit "borg_stream_status"
    ∷ lit "borg_whoami"
    ∷ lit "borg_ack"
    ∷ lit "borg_ack_status"
    ∷ lit "borg_version"
    ∷ lit "borg_cube"
    ∷ lit "borg_role"
    ∷ lit "borg_role_rationale"
    ∷ lit "borg_assimilate"
    ∷ lit "borg_playbook"
    ∷ lit "borg_docs"
    ∷ dispatcher_tools

unfoldable pub management_tools : List Text
unfolding lit
management_tools =
    lit "borg_create_cube"
    ∷ lit "borg_update_cube"
    ∷ lit "borg_delete_cube"
    ∷ lit "borg_create_role"
    ∷ lit "borg_update_role"
    ∷ lit "borg_delete_role"
    ∷ lit "borg_patch_role_section"
    ∷ lit "borg_patch_taxonomy_class"
    ∷ lit "borg_reassign_drone"
    ∷ lit "borg_evict_drone"
    ∷ lit "borg_sync_roles"
    ∷ lit "borg_apply_template"
    ∷ lit "borg_list_cubes"
    ∷ lit "borg_list_drones"
    ∷ lit "borg_list_roles"
    ∷ lit "borg_list_templates"
    ∷ lit "borg_remove_decision"
    ∷ []

-- absent fields are false, and an absent or empty name is none
pub record RoleScope : Type 0 where
  pub role_name : Option Text
  pub is_queen : Bool
  pub is_human_seat : Bool

abbrev pub is_management_seat : RoleScope → Bool
is_management_seat scope = scope.is_human_seat || scope.is_queen

abbrev pub deferred_for : RoleScope → Option Text → List Text
deferred_for scope none = []
deferred_for scope (some name) = if is_management_seat scope then [] else management_tools

unfoldable pub deferred_tool_names : Option RoleScope → List Text
unfolding management_tools
deferred_tool_names none = []
deferred_tool_names (some scope) = deferred_for scope scope.role_name

-- a tool definition, of which the filter reads the name
pub record Tool : Type 0 where
  pub name : Text
  pub description : Text

abbrev pub is_shown : List Text → Tool → Bool
is_shown hidden tool = not (member tool.name hidden)

abbrev pub without : List Tool → List Text → List Tool
without tools [] = tools
without tools (name ∷ hidden) = filter (is_shown (name ∷ hidden)) tools

unfoldable pub filter_tools_for_role : List Tool → Option RoleScope → List Tool
unfolding deferred_tool_names member
filter_tools_for_role tools scope = without tools (deferred_tool_names scope)

abbrev pub is_known_worker : Option RoleScope → Bool
is_known_worker none = false
is_known_worker (some scope) = is_some scope.role_name && not (is_management_seat scope)

abbrev pub named : Text → Tool → Bool
named n tool = tool.name == n

-- no name of the first list is in the second
abbrev pub apart : List Text → List Text → Bool
apart [] ys = true
apart (x ∷ xs) ys = not (member x ys) && apart xs ys

member-apart :
    (n : Text) (xs ys : List Text) → apart xs ys ≡ true → member n xs ≡ true → member n ys ≡ false
unfolding member
member-apart n [] ys a m = cc
member-apart n (x ∷ xs) ys a m = elim (Bool-cases (x == n)) [
  | inl same ↦
      let e : x ≡ n = (eq_iff x n).0 same in
      let gone : member x ys ≡ false = ground arith in rw (sym e) gone
  | inr other ↦ member-apart n xs ys (ground arith) (ground arith)
]

universal-apart : apart universal_tools management_tools ≡ true
unfolding universal_tools dispatcher_tools management_tools member lit ◌==◌
universal-apart = refl

universal_native : (n : Text) → member n universal_tools ≡ true → member n management_tools ≡ false
universal_native n m = member-apart n universal_tools management_tools universal-apart m

any-shown :
    (hidden : List Text) (n : Text) (tools : List Tool)
    → member n hidden ≡ false
    → any (named n) (filter (is_shown hidden) tools) ≡ any (named n) tools
any-shown hidden n [] m = refl
any-shown hidden n (tool ∷ tools) m = elim (Bool-cases (tool.name == n)) [
  | inl same ↦
      let e : tool.name ≡ n = (eq_iff tool.name n).0 same in
      let here : member tool.name hidden ≡ false = ap (λ k. member k hidden) e ∙ m in
      rw here (rw same refl)
  | inr other ↦ ground (arith, other, any-shown hidden n tools m)
]

any-hidden :
    (hidden : List Text) (n : Text) (tools : List Tool)
    → member n hidden ≡ true
    → any (named n) (filter (is_shown hidden) tools) ≡ false
any-hidden hidden n [] m = refl
any-hidden hidden n (tool ∷ tools) m = elim (Bool-cases (tool.name == n)) [
  | inl same ↦
      let e : tool.name ≡ n = (eq_iff tool.name n).0 same in
      let here : member tool.name hidden ≡ true = ap (λ k. member k hidden) e ∙ m in
      rw here (any-hidden hidden n tools m)
  | inr other ↦ ground (arith, other, any-hidden hidden n tools m)
]

-- what the filter does with the names of one scope
deferred_lem :
    (tools : List Tool) (scope : RoleScope) (name : Option Text)
    → without tools (deferred_for scope name) ≡ (
        if is_some name && not (is_management_seat scope)
        then filter (is_shown management_tools) tools
        else tools)
deferred_lem tools scope none = refl
deferred_lem tools scope (some name) = elim (Bool-cases (is_management_seat scope)) [
  | inl seat ↦ rw seat refl
  | inr worker ↦ unfold management_tools in rw worker refl
]

filter_tools_if :
    (tools : List Tool) (scope : Option RoleScope)
    → filter_tools_for_role tools scope
      ≡ (if is_known_worker scope then filter (is_shown management_tools) tools else tools)
unfolding filter_tools_for_role deferred_tool_names
filter_tools_if tools none = refl
filter_tools_if tools (some scope) = deferred_lem tools scope scope.role_name

-- A tool that every role needs, the dispatcher included, stays for every scope; a known worker
-- role sees no management tool; and any other scope sees every tool.
pub filter_tools_for_role_lem :
    (tools : List Tool) (scope : Option RoleScope) (n : Text)
    → (member n universal_tools ≡ true
        → any (named n) (filter_tools_for_role tools scope) ≡ any (named n) tools)
      × (is_known_worker scope ≡ true
          → member n management_tools ≡ true
          → any (named n) (filter_tools_for_role tools scope) ≡ false)
      × (is_known_worker scope ≡ false → filter_tools_for_role tools scope ≡ tools)
filter_tools_for_role_lem tools scope n =
    rw (filter_tools_if tools scope) (elim (Bool-cases (is_known_worker scope)) [
      | inl worker ↦ rw worker (
        λ m. any-shown management_tools n tools (universal_native n m),
        λ w m. any-hidden management_tools n tools m,
        λ w. cc,
      )
      | inr other ↦ rw other (λ m. refl, λ w m. cc, λ w. refl)
    ])
