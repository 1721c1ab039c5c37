-- ===== src/Messages.antt =====
-- src/modules/messaging/message.service.ts, on the tables that it reads and its own.
pub mod Sending
pub mod Unread
use corporate_lawyers_backen.Prelude.{
  ℕ, ◌+◌, Bool, true, false, Option, none, some, List, [], ◌∷◌, ◌++◌, not, ◌&&◌, ◌||◌, ◌==◌,
  if◌then◌else◌, is_some, find, select, any, update_where, includes, map, count_where, sort_desc,
}
use corporate_lawyers_backen.World.{
  UserRole, CaseAssignmentRole, User, ClientProfile, Case, CaseAssignment, Notification,
  NotificationType, HttpError, Ended, ◌>>=◌, ◌>>◌, pure, guard, need, when, get, modify,
}
use corporate_lawyers_backen.Roles.{is_admin, is_client}
use corporate_lawyers_backen.SoftDelete.{Model, find_unique}
use corporate_lawyers_backen.Cases.Access.{is_assigned}
use corporate_lawyers_backen.Paging.{Meta, page}

-- The content is the number of its text; attachments are left out.
pub record ClientMessage : Type 0 where
  pub id : ℕ
  pub case_id : ℕ
  pub sender_id : ℕ
  pub receiver_id : ℕ
  pub content : ℕ
  pub read_at : Option ℕ
  pub created_at : ℕ

-- `audit` has the users who sent a message and the message, in their order.
pub record Store : Type 0 where
  pub users : List User
  pub client_profiles : List ClientProfile
  pub cases : List Case
  pub assignments : List CaseAssignment
  pub messages : List ClientMessage
  pub notifications : List Notification
  pub audit : List (ℕ × ℕ)

pub record SendMessageDto : Type 0 where
  pub case_id : ℕ
  pub receiver_id : ℕ
  pub content : ℕ

-- `user.findUnique({ where: { id }, select: { role: true } })`, through the extended client
unfoldable pub find_role : ℕ → Store → Option User
find_role id s = find_unique (λ u. u.deleted_at) Model.user false (λ u. u.id == id) s.users

abbrev pub is_lead : CaseAssignmentRole → Bool
is_lead CaseAssignmentRole.lead_attorney = true
is_lead _ = false

-- `caseAssignment.findFirst({ where: { caseId, userId, role: 'LEAD_ATTORNEY', removedAt: null } })`
abbrev pub leads : (case_id user_id : ℕ) → CaseAssignment → Bool
leads case_id user_id a = is_assigned case_id user_id a && is_lead a.role

-- `case.findFirst({ where: { id } })`, through the extended client
abbrev pub find_case : ℕ → Store → Option Case
find_case id s = find (λ c. c.id == id && not (is_some c.deleted_at)) s.cases

-- `caseRecord.clientProfile?.userId === userId`
abbrev pub is_client_of : ℕ → Case → Store → Bool
is_client_of user_id c s =
    any (λ p. p.id == c.client_profile_id && p.user_id == user_id) s.client_profiles

abbrev pub notify : ℕ → NotificationType → Store → Ended Store (Unit {0})
notify user_id kind = modify λ s. record s {
  notifications = s.notifications ++ record { user_id = user_id; kind = kind } ∷ [];
}

abbrev pub message_of : (now new_id : ℕ) → SendMessageDto → (sender_id : ℕ) → ClientMessage
message_of now new_id dto sender_id = record {
  id = new_id;
  case_id = dto.case_id;
  sender_id = sender_id;
  receiver_id = dto.receiver_id;
  content = dto.content;
  read_at = none;
  created_at = now;
}

-- `where: { caseId, receiverId: userId, readAt: null }`
abbrev pub unread_in : (case_id user_id : ℕ) → ClientMessage → Bool
unread_in case_id user_id m =
    m.case_id == case_id && (m.receiver_id == user_id && not (is_some m.read_at))

abbrev pub read_now : (now : ℕ) → ClientMessage → ClientMessage
read_now now m = record m { read_at = some now }

abbrev pub mark_where : (now : ℕ) → (ClientMessage → Bool) → Store → Ended Store (Unit {0})
mark_where now p = modify λ s. record s { messages = update_where p (read_now now) s.messages }

unfoldable pub assert_message_access : (case_id user_id : ℕ) → Store → Ended Store (Unit {0})
assert_message_access case_id user_id = do
  s ← get
  user ← need (find_role user_id s) HttpError.not_found
  when (not (is_admin user.role || any (is_assigned case_id user_id) s.assignments)) do
    c ← need (find_case case_id s) HttpError.not_found
    guard (is_client_of user_id c s) HttpError.forbidden

-- `if (sender.role === CLIENT) { … }`
unfoldable pub check_receiver : (case_id receiver_id : ℕ) → User → Store → Ended Store (Unit {0})
check_receiver case_id receiver_id sender = when (is_client sender.role) do
  s ← get
  receiver ← need (find_role receiver_id s) HttpError.not_found
  guard (is_admin receiver.role || any (leads case_id receiver_id) s.assignments)
      HttpError.forbidden

unfoldable pub send :
    (now new_id : ℕ) → SendMessageDto → (sender_id : ℕ) → Store → Ended Store ClientMessage
send now new_id dto sender_id = do
  assert_message_access dto.case_id sender_id
  assert_message_access dto.case_id dto.receiver_id
  s ← get
  sender ← need (find_role sender_id s) HttpError.not_found
  check_receiver dto.case_id dto.receiver_id sender
  let message = message_of now new_id dto sender_id
  modify λ s. record s { messages = s.messages ++ message ∷ [] }
  notify dto.receiver_id NotificationType.in_app
  notify dto.receiver_id NotificationType.email
  modify λ s. record s { audit = s.audit ++ (sender_id, new_id) ∷ [] }
  pure message

unfoldable pub find_all :
    (order_by : List ClientMessage → List ClientMessage) (limit offset : Option ℕ) (now : ℕ)
    → (case_id user_id : ℕ) → Store
    → Ended Store (List ClientMessage × Meta)
find_all order_by limit offset now case_id user_id = do
  assert_message_access case_id user_id
  s ← get
  mark_where now (unread_in case_id user_id)
  pure (page limit offset (order_by (select (λ m. m.case_id == case_id) s.messages)))

unfoldable pub find_one : ℕ → (user_id : ℕ) → Store → Ended Store ClientMessage
find_one id user_id = do
  s ← get
  m ← need (find (λ m. m.id == id) s.messages) HttpError.not_found
  guard (m.sender_id == user_id || m.receiver_id == user_id) HttpError.forbidden
  pure m

-- `where: { id: { in: messageIds }, receiverId: userId, readAt: null }`
abbrev pub unread_among : List ℕ → (user_id : ℕ) → ClientMessage → Bool
unread_among ids user_id m =
    includes ids m.id && (m.receiver_id == user_id && not (is_some m.read_at))

-- With the number of rows that Prisma reports.
unfoldable pub mark_read : (now : ℕ) → List ℕ → (user_id : ℕ) → Store → Ended Store ℕ
mark_read now ids user_id = do
  s ← get
  mark_where now (unread_among ids user_id)
  pure (count_where (unread_among ids user_id) s.messages)

-- `counts[caseId] = (counts[caseId] || 0) + 1`, on an object with its keys in order
abbrev pub count_in : (case_id : ℕ) → List (ℕ × ℕ) → List (ℕ × ℕ)
count_in case_id [] = (case_id, 1) ∷ []
count_in case_id ((k, n) ∷ counts) =
    let rest = count_in case_id counts in
    if k == case_id then (k, n + 1) ∷ counts else (k, n) ∷ rest

abbrev pub count_all : List (ℕ × ℕ) → List ClientMessage → List (ℕ × ℕ)
count_all counts [] = counts
count_all counts (m ∷ ms) = count_all (count_in m.case_id counts) ms

unfoldable pub get_unread_counts : ℕ → Store → List (ℕ × ℕ)
get_unread_counts user_id s =
    count_all [] (select (λ m. m.receiver_id == user_id && not (is_some m.read_at)) s.messages)

unfoldable pub get_unread_count_for_case : (case_id user_id : ℕ) → Store → ℕ
get_unread_count_for_case case_id user_id s = count_where (unread_in case_id user_id) s.messages

-- The last message of a case, if it has one, and the user's unread ones.
pub record Conversation : Type 0 where
  pub case_id : ℕ
  pub last_message : ClientMessage
  pub unread_count : ℕ

-- `distinct`: the first of each.
abbrev pub distinct : List ℕ → List ℕ
distinct [] = []
distinct (i ∷ is) = i ∷ select (λ j. not (i == j)) (distinct is)

-- The cases that the user may see, by the user's role.
abbrev pub visible_cases : ℕ → UserRole → Store → List ℕ
visible_cases user_id role s =
    if is_admin role
    then distinct (map (λ m. m.case_id) s.messages)
    else if is_client role
    then elim (find (λ p. p.user_id == user_id) s.client_profiles) [
      | none ↦ []
      | some p ↦
          map (λ c. c.id)
            (select (λ c. c.client_profile_id == p.id && not (is_some c.deleted_at)) s.cases)
    ]
    else map (λ a. a.case_id)
        (select (λ a. a.user_id == user_id && not (is_some a.removed_at)) s.assignments)

-- `messages: { orderBy: { createdAt: 'desc' }, take: 1 }`
abbrev pub summaries : ℕ → List Case → Store → List Conversation
summaries user_id [] s = []
summaries user_id (c ∷ cs) s =
    let rest = summaries user_id cs s in
    elim (sort_desc (λ m. m.created_at) (select (λ m. m.case_id == c.id) s.messages)) [
      | [] ↦ rest
      | m ∷ ms ↦
          record {
            case_id = c.id;
            last_message = m;
            unread_count = get_unread_count_for_case c.id user_id s;
          }
          ∷ rest
    ]

unfoldable pub get_conversations : ℕ → UserRole → Store → List Conversation
get_conversations user_id role s =
    let ids = visible_cases user_id role s in
    sort_desc (λ c. c.last_message.created_at)
      (summaries user_id (select (λ c. includes ids c.id && not (is_some c.deleted_at)) s.cases) s)
