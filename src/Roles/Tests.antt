-- ===== src/Roles/Tests.antt =====
-- Runs of src/role-resolver.ts, src/cube-name.ts and src/tool-scope.ts, and the theorems at some.
use borg_mcp_client.Prelude.{◌≡◌, refl, Bool, true, false, Option, some, none, List, [], ◌∷◌}
use borg_mcp_client.Text.{Text, lit, ◌==◌, starts_with, member}
use borg_mcp_client.Roles.Slug.{
  Role, to_lower, hyphenate, role_slug, normalize_cube_name, match_role_by_name,
}
use borg_mcp_client.Roles.Cube.{
  drop_while, drop_end, trim, sanitize_remote_url, strip_protocol, strip_credentials, after_last,
  strip_git, parse_git_remote, basename, remote_name, derive_cube_name,
}
use borg_mcp_client.Roles.Pick.{
  Chosen, occupied_role_ids, pick_free, pick_default_role, pick_default_role-Chosen,
}
use borg_mcp_client.Roles.Tools.{Tool, RoleScope}

runs : Unit {0}
unfolding lit ◌==◌ starts_with member to_lower hyphenate role_slug normalize_cube_name
    match_role_by_name drop_while drop_end trim sanitize_remote_url strip_protocol strip_credentials
    after_last strip_git parse_git_remote basename remote_name derive_cube_name occupied_role_ids
    pick_free pick_default_role
runs = tt

slug_run : role_slug (lit "Code _Reviewer!") ≡ lit "code-reviewer"
unfolding runs
slug_run = refl

remote_run :
    derive_cube_name (lit "/home/me/work") (some (lit "https://me:pw@host/org/My_Repo.git"))
    ≡ some (lit "my-repo")
unfolding runs
remote_run = refl

root_run : derive_cube_name (lit "/home/me/Work Dir/") none ≡ some (lit "work-dir")
unfolding runs
root_run = refl

abbrev role : Text → Bool → Bool → Role
role id mandatory default = record {
  id = id;
  name = id;
  is_default = default;
  is_mandatory = mandatory;
  is_human_seat = false;
  is_queen = false;
}

abbrev roles : List Role
roles = role (lit "builder") false true ∷ role (lit "reviewer") true false ∷ []

pick_run : pick_default_role roles true [] ≡ some (role (lit "reviewer") true false)
unfolding runs
pick_run = refl

pick_occupied_run :
    pick_default_role roles false (lit "reviewer" ∷ []) ≡ some (role (lit "builder") false true)
unfolding runs
pick_occupied_run = refl

pick_default_role-Chosen_example : Chosen roles true [] (pick_default_role roles true [])
pick_default_role-Chosen_example = pick_default_role-Chosen roles true []

occupied_run :
    occupied_role_ids (
      record { role_id = lit "a"; presumed_abandoned = true }
      ∷ record { role_id = lit "b"; presumed_abandoned = false }
      ∷ [])
    ≡ lit "b" ∷ []
unfolding runs
occupied_run = refl

abbrev tools : List Tool
tools =
    record { name = lit "borg_tool"; description = [] }
    ∷ record { name = lit "borg_evict_drone"; description = [] }
    ∷ []

abbrev worker : Option RoleScope
worker = some (record { role_name = some (lit "builder"); is_queen = false; is_human_seat = false })
