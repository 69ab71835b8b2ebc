-- ===== src/Args/Names.antt =====
-- Character classes, and `validateName` of src/name-validator.ts.
use borg_mcp_client.Prelude.{ℕ, Bool, true, false, ◌&&◌, ◌||◌, [], ◌∷◌, leb}
use borg_mcp_client.Prelude.{◌==◌ as nat_eq}
use borg_mcp_client.Prelude.Lists.{length}
use borg_mcp_client.Text.{Text}

abbrev pub is_lower : ℕ → Bool
is_lower c = leb 0x61 c && leb c 0x7A

abbrev pub is_upper : ℕ → Bool
is_upper c = leb 0x41 c && leb c 0x5A

abbrev pub is_digit : ℕ → Bool
is_digit c = leb 0x30 c && leb c 0x39

abbrev pub all_of : (ℕ → Bool) → Text → Bool
all_of test [] = true
all_of test (c ∷ s) = test c && all_of test s

abbrev pub is_empty : Text → Bool
is_empty [] = true
is_empty (c ∷ s) = false

-- `[a-z0-9_]`, and with the hyphen
abbrev pub is_name_start : ℕ → Bool
is_name_start c = is_lower c || is_digit c || nat_eq c 0x5F

abbrev pub is_name_unit : ℕ → Bool
is_name_unit c = is_name_start c || nat_eq c 0x2D

-- `validateName(name).ok`
unfoldable pub validate_name : Text → Bool
validate_name [] = false
validate_name (c ∷ s) = is_name_start c && all_of is_name_unit s && leb (length s) 47
