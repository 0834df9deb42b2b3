-- ===== src/Support/Tests.antt =====
-- A chat of two users and one administrator, and the theorems on it.
use crypto_sim_backend.Common.{◌≤◌, ◌≡◌, refl, false, [], ◌∷◌, none, some, text, arith}
use crypto_sim_backend.Support.Rows.{Chat, ChatUser, ChatMessage, SenderType, MessageType}
use crypto_sim_backend.Support.Messages.{
  send_message, recall_message, store_message, without_message,
}
use crypto_sim_backend.Support.Conversations.{
  Server, Creation, new_conversation, get_or_create_user_conversation, insert_conversation, enter,
  check, insert, leave,
}
use crypto_sim_backend.Support.Queries.{ExportFilters, export_conversations}
use crypto_sim_backend.Support.Csv.{headers, export_rows, export_conversations_as_csv}
use crypto_sim_backend.Support.Csv.Reading.{Mode, read_csv}
use crypto_sim_backend.Support.Csv.RoundTrip.{read-export}
use crypto_sim_backend.Support.Unread.{IsCounted}
use crypto_sim_backend.Support.Runs.{Step, Steps, run-IsCounted}
use crypto_sim_backend.Support.Opening.{Move, Moves, open_count, Moves-single}
use crypto_sim_backend.Support.Paging.{scroll, scroll_all}

abbrev bob : ChatUser
bob = record {
  id = 7;
  email = some (text "bob@example.com");
  display_name = text "bob";
  phone_number = none;
}

abbrev quiet : Chat
quiet = record { users = bob ∷ []; conversations = []; messages = []; pushes = [] }

abbrev opened : Chat
opened = record quiet { conversations = new_conversation 100 1 7 (some (text "bob")) ∷ [] }

abbrev question : ChatMessage
question = record {
  id = 11;
  conversation_id = 1;
  sender_id = 7;
  sender_type = SenderType.user;
  sender_name = text "bob";
  message_type = MessageType.text;
  content = text "is it \"1,5\"?";
  metadata = none;
  is_read = false;
  read_at = none;
  created_at = 110;
}

abbrev answer : ChatMessage
answer = record {
  id = 12;
  conversation_id = 1;
  sender_id = 40;
  sender_type = SenderType.admin;
  sender_name = text "ann";
  message_type = MessageType.image;
  content = text "/a.png";
  metadata = none;
  is_read = false;
  read_at = none;
  created_at = 120;
}

abbrev asked : Chat
asked = store_message question opened

abbrev answered : Chat
answered = store_message answer asked

quiet-IsCounted : IsCounted quiet
quiet-IsCounted = record { admin_exact = λ k. refl; user_covers = λ k. omega arith }

run-IsCounted_example : IsCounted (without_message 12 answer answered)
unfolding get_or_create_user_conversation insert_conversation send_message recall_message
run-IsCounted_example =
    run-IsCounted
      (Steps.next
        (Steps.next
          (Steps.next
            (Steps.next Steps.done (
              Step.get_or_create {s = quiet}
                {r = (new_conversation 100 1 7 (some (text "bob")), opened)} 100 1 7
                (some (text "bob")) refl refl))
            (Step.send {s = opened} {r = (question, asked)} 110 11 1 7 SenderType.user (text "bob")
              MessageType.text (text "is it \"1,5\"?") none refl))
          (Step.send {s = asked} {r = (answer, answered)} 120 12 1 40 SenderType.admin (text "ann")
            MessageType.image (text "/a.png") none refl))
        (Step.recall {s = answered} {t = without_message 12 answer answered} 12 40 refl))
      quiet-IsCounted

abbrev idle_server : Server
idle_server = record { chat = quiet; creating = λ uid. Creation.idle }

-- Two calls of one user: both find nothing, the second meets the lock.
Moves-single_example :
    open_count 7 (leave 7 (insert 100 1 7 none (check 7 (enter 7 (enter 7 idle_server))))) ≤ 1
unfolding enter check insert leave insert_conversation
Moves-single_example =
    Moves-single {v = idle_server}
      (Moves.next
        (Moves.next
          (Moves.next (Moves.next (Moves.next Moves.done (Move.enters 7)) (Move.enters 7))
            (Move.checks 7 refl))
          (Move.inserts 100 1 7 none refl))
        (Move.leaves 7 refl))
      (λ uid. omega arith) 7

abbrev everything : ExportFilters
everything = record {
  status = none;
  start_date = none;
  end_date = none;
  user_id = none;
  admin_id = none;
}

read-export_example :
    read_csv Mode.before
      (export_conversations_as_csv (λ n. n ∷ []) (λ n. n ∷ []) everything answered)
    ≡ some (
        headers
        ∷ export_rows
            (λ n. n ∷ [])
            (λ n. n ∷ [])
            answered
            (export_conversations everything answered))
read-export_example = read-export (λ n. n ∷ []) (λ n. n ∷ []) everything answered

scroll_all_example : scroll 3 1 1 0 answered ≡ question ∷ answer ∷ []
scroll_all_example = scroll_all 1 1 answered (omega arith)
