-- ===== src/Roles.antt =====
-- Roles and names: the choice of a role for a new drone (src/role-resolver.ts), the slug of a role
-- (the same file) and of a cube (src/cube-name.ts), and which tools a role sees
-- (src/tool-scope.ts).
pub mod Slug
pub mod Pick
pub mod Tools
pub mod Cube
mod Tests
