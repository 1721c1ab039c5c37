-- ===== src/Roles.antt =====
-- Tests on the user's role that the services repeat.
use corporate_lawyers_backen.Prelude.{Bool, true, false}
use corporate_lawyers_backen.World.{UserRole, UserStatus}

-- `role === SUPER_ADMIN || role === ADMIN`
abbrev pub is_admin : UserRole → Bool
is_admin UserRole.super_admin = true
is_admin UserRole.admin = true
is_admin _ = false

-- `role === CLIENT`
abbrev pub is_client : UserRole → Bool
is_client UserRole.client = true
is_client _ = false

-- `status === ACTIVE`
abbrev pub is_active_user : UserStatus → Bool
is_active_user UserStatus.active = true
is_active_user _ = false
