-- ===== src/Notifications/Laws.antt =====
-- What src/services/notification/notification.service.ts keeps of a user's notifications.
use corporate_lawyers_backen.Prelude.{
  ℕ, ◌+◌, false, none, some, List, [], ◌∷◌, ◌≡◌, refl, ◌∙◌, ◌⊎◌, inl, inr, ◌==◌, find, update_where,
  count_where, count_where-append, append-nil, Bool-cases, Option-cases, ==_refl, ==_eq, arith,
}
use corporate_lawyers_backen.World.{NotificationType, HttpError}
use corporate_lawyers_backen.SoftDelete.{Model, is_soft_delete_model}
use corporate_lawyers_backen.SoftDelete.Laws.{find_unique-select_finds_nothing}
use corporate_lawyers_backen.Notifications.{
  Row, Store, is_email, jobs, send, marked, refused, mark, mark_found, mark_as_read, unread,
  mark_all_as_read, get_unread_count,
}

-- No notification is ever mailed. Whatever its kind, and whoever it is for, `send` adds the row and
-- leaves the queue of emails as it is: the recipient is looked up by a `select` that leaves out
-- `deletedAt`, and so is not found.
pub send-queues_nothing :
    (new_id user_id : ℕ) (kind : NotificationType) (s : Store)
    → ((send new_id user_id kind s).email_queue ≡ s.email_queue)
      × (get_unread_count user_id (send new_id user_id kind s) ≡ get_unread_count user_id s + 1)
unfolding send get_unread_count is_soft_delete_model
send-queues_nothing new_id user_id kind s =
    let nobody =
      find_unique-select_finds_nothing (λ u. u.deleted_at) Model.user refl (λ u. u.id == user_id)
        s.users in
    let row : Row = record { id = new_id; user_id = user_id; kind = kind; read_at = none } in
    (
      elim (Bool-cases (is_email kind)) [
        | inl mail ↦ rw (mail, nobody, jobs, append-nil)
        | inr other ↦ rw other
      ],
      count_where-append (unread user_id) s.notifications (row ∷ [])
          ∙ ground (arith, ==_refl user_id),
    )

none_unread :
    (now user_id : ℕ) (rows : List Row)
    → count_where (unread user_id) (update_where (unread user_id) (mark now) rows) ≡ 0
none_unread now user_id [] = refl
none_unread now user_id (r ∷ rows) = ground (arith, none_unread now user_id rows)

others_kept :
    (now user_id j : ℕ) (rows : List Row)
    → (user_id == j) ≡ false
    → count_where (unread j) (update_where (unread user_id) (mark now) rows)
      ≡ count_where (unread j) rows
others_kept now user_id j [] ne = refl
others_kept now user_id j (r ∷ rows) ne = ground (arith, others_kept now user_id j rows ne)

-- Marking all as read reports the number of unread notifications that there were, and leaves the
-- user none, and everybody else as many as before.
pub mark_all_as_read_lem :
    (now user_id j : ℕ) (s : Store)
    → (user_id == j) ≡ false
    → let (s', updated) = mark_all_as_read now user_id s in
      (updated ≡ get_unread_count user_id s)
      × (get_unread_count user_id s' ≡ 0)
      × (get_unread_count j s' ≡ get_unread_count j s)
unfolding mark_all_as_read get_unread_count
mark_all_as_read_lem now user_id j s ne =
    (refl, none_unread now user_id s.notifications, others_kept now user_id j s.notifications ne)

find-mark :
    (now id : ℕ) (rows : List Row) (row : Row)
    → find (λ r. r.id == id) rows ≡ some row
    → find (λ r. r.id == id) (update_where (λ r. r.id == id) (mark now) rows) ≡ some (mark now row)
find-mark now id [] row e = ground arith
find-mark now id (r ∷ rows) row e = ground (arith, find-mark now id rows row)

-- A notification is marked as read by its own user alone: anybody else gets 403, and an unknown one
-- 404.
pub mark_as_read_lem :
    (now id user_id : ℕ) (s : Store)
    → ((find (λ r. r.id == id) s.notifications ≡ none)
        × (mark_as_read now id user_id s ≡ refused HttpError.not_found))
      ⊎ (row : Row) × (find (λ r. r.id == id) s.notifications ≡ some row)
        × ((((row.user_id == user_id) ≡ false)
              × (mark_as_read now id user_id s ≡ refused HttpError.forbidden))
            ⊎ (s' : Store) × (row.user_id ≡ user_id)
              × (mark_as_read now id user_id s ≡ marked s')
              × (find (λ r. r.id == id) s'.notifications ≡ some (mark now row)))
unfolding mark_as_read
mark_as_read_lem now id user_id s = elim (Option-cases (find (λ r. r.id == id) s.notifications)) [
  | inl unknown ↦ inl (unknown, rw unknown)
  | inr (row, found) ↦ elim (Bool-cases (row.user_id == user_id)) [
    | inr other ↦ inr (row, found, inl (other, rw (found, other, mark_found)))
    | inl own ↦ inr (
      row,
      found,
      inr (
        record s { notifications = update_where (λ r. r.id == id) (mark now) s.notifications },
        ==_eq row.user_id user_id own,
        rw (found, own, mark_found),
        find-mark now id s.notifications row found,
      ),
    )
  ]
]
