-- ===== src/Users/Listing.antt =====
-- `findAll` of src/modules/user/user.service.ts.
use corporate_lawyers_backen.Prelude.{
  ℕ, Bool, true, Option, none, some, List, not, ◌&&◌, ◌==◌, is_some, select,
}
use corporate_lawyers_backen.World.{UserRole, UserStatus}
use corporate_lawyers_backen.Paging.{Meta, page}
use corporate_lawyers_backen.Auth.{Account}
use corporate_lawyers_backen.Users.{Store}

pub record UserQueryDto : Type 0 where
  pub role : Option UserRole
  pub status : Option UserStatus
  pub search : Option ℕ
  pub limit : Option ℕ
  pub offset : Option ℕ

-- The place of a role and of a status in its enumeration.
abbrev role_number : UserRole → ℕ
role_number UserRole.super_admin = 0
role_number UserRole.admin = 1
role_number UserRole.lawyer = 2
role_number UserRole.assistant = 3
role_number UserRole.client = 4

abbrev status_number : UserStatus → ℕ
status_number UserStatus.active = 0
status_number UserStatus.inactive = 1
status_number UserStatus.suspended = 2
status_number UserStatus.pending_verification = 3

abbrev pub has_role : Option UserRole → Account → Bool
has_role none u = true
has_role (some role) u = role_number u.role == role_number role

abbrev pub has_status : Option UserStatus → Account → Bool
has_status none u = true
has_status (some status) u = status_number u.status == status_number status

-- `hits` is the database's search in the names and the address of a user.
module _ (hits : ℕ → Account → Bool) (order_by : List Account → List Account) where
  abbrev pub is_hit : Option ℕ → Account → Bool
  is_hit none u = true
  is_hit (some search) u = hits search u

  unfoldable pub find_all : UserQueryDto → Store → List Account × Meta
  find_all q s = page q.limit q.offset (
      order_by (
        select
          (λ u.
            not (is_some u.deleted_at)
            && (has_role q.role u && (has_status q.status u && is_hit q.search u)))
          s.auth.users))
