-- ===== src/Messages/Sending.antt =====
-- That no message can be sent: `send` and `findAll` of message.service.ts.
use corporate_lawyers_backen.Prelude.{ℕ, Option, none, List, ◌≡◌, refl, ◌==◌}
use corporate_lawyers_backen.World.{HttpError, err, ◌>>=◌, ◌>>◌}
use corporate_lawyers_backen.SoftDelete.{Model, is_soft_delete_model}
use corporate_lawyers_backen.SoftDelete.Laws.{find_unique-select_finds_nothing}
use corporate_lawyers_backen.Messages.{
  ClientMessage, Store, SendMessageDto, find_role, assert_message_access, send, find_all,
}

unknown_lem :
    (case_id user_id : ℕ) (s : Store)
    → find_role user_id s ≡ none
    → assert_message_access case_id user_id s ≡ err HttpError.not_found s
unfolding assert_message_access
unknown_lem case_id user_id s unknown = rw (unknown, ◌>>=◌, ◌>>◌) refl

-- Nobody is found by the lookup of the service: every message is refused with 404, and so is every
-- list of the messages of a case. Nothing is written.
pub send-fails :
    (now new_id : ℕ) (dto : SendMessageDto) (sender_id : ℕ) (s : Store)
    (order_by : List ClientMessage → List ClientMessage) (limit offset : Option ℕ)
    → (send now new_id dto sender_id s ≡ err HttpError.not_found s)
      × (find_all order_by limit offset now dto.case_id sender_id s ≡ err HttpError.not_found s)
unfolding send find_all find_role is_soft_delete_model
send-fails now new_id dto sender_id s order_by limit offset =
    let nobody =
      find_unique-select_finds_nothing (λ u. u.deleted_at) Model.user refl (λ u. u.id == sender_id)
        s.users in
    let refused = unknown_lem dto.case_id sender_id s nobody in
    (rw (refused, ◌>>=◌, ◌>>◌) refl, rw (refused, ◌>>=◌, ◌>>◌) refl)
