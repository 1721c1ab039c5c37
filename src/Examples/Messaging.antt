-- ===== src/Examples/Messaging.antt =====
-- The theorems on src/modules/messaging/message.service.ts at concrete rows.
use corporate_lawyers_backen.Prelude.{none, some, [], ◌∷◌, ◌≡◌}
use corporate_lawyers_backen.World.{User, UserRole, HttpError, err}
use corporate_lawyers_backen.Messages.{
  ClientMessage, SendMessageDto, Store, send, find_all, get_unread_counts,
  get_unread_count_for_case,
}
use corporate_lawyers_backen.Messages.Sending.{send-fails}
use corporate_lawyers_backen.Messages.Unread.{count_of, get_unread_counts_lem}
use corporate_lawyers_backen.Samples.{active_case, lead_assignment, lawyer_user}

-- The lead attorney of the case, and its client.
abbrev attorney : User
attorney = record lawyer_user { id = 7 }

abbrev client_user : User
client_user = record lawyer_user { id = 8; role = UserRole.client }

abbrev inbox : Store
inbox = record {
  users = attorney ∷ client_user ∷ [];
  client_profiles = record { id = 30; user_id = 8 } ∷ [];
  cases = active_case ∷ [];
  assignments = lead_assignment ∷ [];
  messages = [];
  notifications = [];
  audit = [];
}

abbrev message_dto : SendMessageDto
message_dto = record { case_id = 10; receiver_id = 7; content = 0 }

send-fails_example :
    (send 100 1 message_dto 8 inbox ≡ err HttpError.not_found inbox)
    × (find_all (λ ms. ms) none none 100 message_dto.case_id 8 inbox
        ≡ err HttpError.not_found inbox)
send-fails_example = send-fails 100 1 message_dto 8 inbox (λ ms. ms) none none

-- Two unread messages to the attorney in the case, and one that has been read.
abbrev letter : ClientMessage
letter = record {
  id = 100;
  case_id = 10;
  sender_id = 8;
  receiver_id = 7;
  content = 0;
  read_at = none;
  created_at = 1;
}

get_unread_counts_lem_example :
    let s = record inbox { messages = letter ∷ record letter { read_at = some 5 } ∷ letter ∷ [] } in
    count_of 10 (get_unread_counts 7 s) ≡ get_unread_count_for_case 10 7 s
get_unread_counts_lem_example =
    get_unread_counts_lem 10 7
      (record inbox { messages = letter ∷ record letter { read_at = some 5 } ∷ letter ∷ [] })
