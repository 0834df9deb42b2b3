-- ===== src/Support/Messages.antt =====
-- `sendMessage`, `markAsRead` and `recallMessage`. A new message stands at the front of its table.
use crypto_sim_backend.Common.{
  ℕ, ◌+◌, ◌==◌, Bool, true, false, not, ◌&&◌, ◌∷◌, Option, none, some, Text, text, Result, ok,
  ◌>>=◌, ◌>>◌, throw_if, or_throw,
}
use crypto_sim_backend.Common.Table.{find_unique, update, update_many, delete}
use crypto_sim_backend.Support.Rows.{
  Chat, ChatConversation, ChatMessage, conversation_key, message_key, SenderType, MessageType,
  Reader, Push, SupportError, same_sender,
}

-- `messageType === 'TEXT' ? content : '[图片]'`
abbrev pub preview : MessageType → Text → Text
preview MessageType.text content = content
preview MessageType.image content = text "[图片]"
preview MessageType.system content = text "[图片]"

abbrev pub count_unread : SenderType → ChatConversation → ChatConversation
count_unread SenderType.user c = record c { unread_admin_count = c.unread_admin_count + 1 }
count_unread SenderType.admin c = record c { unread_user_count = c.unread_user_count + 1 }
count_unread SenderType.system c = c

abbrev pub note_message : ChatMessage → ChatConversation → ChatConversation
note_message m c = record (count_unread m.sender_type c) {
  last_message_at = some m.created_at;
  last_message = some (preview m.message_type m.content);
  last_message_type = some m.message_type;
}

abbrev pub store_message : ChatMessage → Chat → Chat
store_message m s = record s {
  messages = m ∷ s.messages;
  conversations = update conversation_key m.conversation_id (note_message m) s.conversations;
  pushes =
      Push.sse_message m.conversation_id m ∷ Push.socket_message m.conversation_id m ∷ s.pushes;
}

-- A message of a conversation that is not there violates the table's foreign key.
unfoldable pub send_message :
    ℕ
    → ℕ
    → ℕ
    → ℕ
    → SenderType
    → Text
    → MessageType
    → Text
    → Option Text
    → Chat
    → Result SupportError (ChatMessage × Chat)
send_message now id conversation sender sender_type name type content metadata s = do
  c ← or_throw (find_unique conversation_key conversation s.conversations) SupportError.missing_row
  let m : ChatMessage = record {
    id = id;
    conversation_id = conversation;
    sender_id = sender;
    sender_type = sender_type;
    sender_name = name;
    message_type = type;
    content = content;
    metadata = metadata;
    is_read = false;
    read_at = none;
    created_at = now;
  }
  ok (m, store_message m s)

abbrev pub clear_unread : Reader → ChatConversation → ChatConversation
clear_unread Reader.user c = record c { unread_user_count = 0 }
clear_unread Reader.admin c = record c { unread_admin_count = 0 }

-- Whose messages a reader reads.
abbrev pub read_sender : Reader → SenderType
read_sender Reader.user = SenderType.admin
read_sender Reader.admin = SenderType.user

abbrev pub is_unread : ℕ → SenderType → ChatMessage → Bool
is_unread conversation sender m =
    (m.conversation_id == conversation) && same_sender m.sender_type sender && not m.is_read

abbrev pub read_message : ℕ → ChatMessage → ChatMessage
read_message now m = record m { is_read = true; read_at = some now }

abbrev pub read_by : ℕ → ℕ → Reader → Chat → Chat
read_by now conversation reader s = record s {
  conversations = update conversation_key conversation (clear_unread reader) s.conversations;
  messages =
      update_many (is_unread conversation (read_sender reader)) (read_message now) s.messages;
  pushes = Push.sse_read conversation reader ∷ s.pushes;
}

unfoldable pub mark_as_read : ℕ → ℕ → Reader → Chat → Result SupportError Chat
mark_as_read now conversation reader s = do
  c ←
      or_throw (find_unique conversation_key conversation s.conversations)
        SupportError.conversation_not_found
  ok (read_by now conversation reader s)

abbrev pub without_message : ℕ → ChatMessage → Chat → Chat
without_message id m s = record s {
  messages = delete message_key id s.messages;
  pushes =
      Push.sse_recalled m.conversation_id id ∷ Push.socket_recalled m.conversation_id id ∷ s.pushes;
}

unfoldable pub recall_message : ℕ → ℕ → Chat → Result SupportError Chat
recall_message id admin s = do
  m ← or_throw (find_unique message_key id s.messages) SupportError.message_not_found
  throw_if (not (same_sender m.sender_type SenderType.admin)) SupportError.not_an_admin_message
  throw_if (not (m.sender_id == admin)) SupportError.not_own_message
  ok (without_message id m s)
