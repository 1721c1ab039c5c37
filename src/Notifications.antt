-- ===== src/Notifications.antt =====
-- src/services/notification/notification.service.ts, on its own two tables and its queue.
pub mod Laws
use corporate_lawyers_backen.Prelude.{
  ℕ, ◌+◌, suc, Bool, true, false, Option, none, some, List, [], ◌∷◌, ◌++◌, not, ◌&&◌, ◌==◌,
  if◌then◌else◌, is_some, find, select, update_where, length, count_where,
}
use corporate_lawyers_backen.World.{NotificationType, HttpError}
use corporate_lawyers_backen.SoftDelete.{Model, find_unique}

pub record Row : Type 0 where
  pub id : ℕ
  pub user_id : ℕ
  pub kind : NotificationType
  pub read_at : Option ℕ

pub record Account : Type 0 where
  pub id : ℕ
  pub email : ℕ
  pub deleted_at : Option ℕ

pub record EmailJob : Type 0 where
  pub to : ℕ
  pub notification_id : ℕ

pub record Store : Type 0 where
  pub notifications : List Row
  pub users : List Account
  pub email_queue : List EmailJob

abbrev pub is_email : NotificationType → Bool
is_email NotificationType.email = true
is_email _ = false

-- `if (user) emailQueue.add(…)`
abbrev pub jobs : ℕ → Option Account → List EmailJob
jobs notification_id none = []
jobs notification_id (some user) =
    record { to = user.email; notification_id = notification_id } ∷ []

-- `user.findUnique({ where: { id }, select: { email: true } })`, through the extended client
abbrev pub find_recipient : ℕ → List Account → Option Account
find_recipient user_id = find_unique (λ u. u.deleted_at) Model.user false (λ u. u.id == user_id)

unfoldable pub send : (new_id : ℕ) → ℕ → NotificationType → Store → Store
send new_id user_id kind s =
    let row : Row = record { id = new_id; user_id = user_id; kind = kind; read_at = none } in
    record s {
      notifications = s.notifications ++ row ∷ [];
      email_queue =
          if is_email kind
          then s.email_queue ++ jobs new_id (find_recipient user_id s.users)
          else s.email_queue;
    }

pub data Marked : Type 0 where
  marked : Store → Marked
  refused : HttpError → Marked

abbrev pub mark : (now : ℕ) → Row → Row
mark now row = record row { read_at = some now }

abbrev pub mark_found : (now : ℕ) → ℕ → ℕ → Store → Option Row → Marked
mark_found now id user_id s none = refused HttpError.not_found
mark_found now id user_id s (some row) =
    if row.user_id == user_id
    then marked
        (record s { notifications = update_where (λ r. r.id == id) (mark now) s.notifications })
    else refused HttpError.forbidden

-- `markAsRead`
unfoldable pub mark_as_read : (now : ℕ) → ℕ → ℕ → Store → Marked
mark_as_read now id user_id s = mark_found now id user_id s (find (λ r. r.id == id) s.notifications)

-- `where: { userId, readAt: null }`
abbrev pub unread : ℕ → Row → Bool
unread user_id r = r.user_id == user_id && not (is_some r.read_at)

-- `markAllAsRead`, with the number of rows that Prisma reports.
unfoldable pub mark_all_as_read : (now : ℕ) → ℕ → Store → Store × ℕ
mark_all_as_read now user_id s = (
  record s { notifications = update_where (unread user_id) (mark now) s.notifications },
  count_where (unread user_id) s.notifications,
)

-- `getUnreadCount`
unfoldable pub get_unread_count : ℕ → Store → ℕ
get_unread_count user_id s = count_where (unread user_id) s.notifications
