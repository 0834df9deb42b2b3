-- ===== src/Support/Rows.antt =====
-- The rows of the chat (models ChatConversation and ChatMessage of backend/prisma/schema.prisma),
-- the columns of a user that the export reads, and what is pushed to the clients.
use crypto_sim_backend.Common.{ℕ, Bool, true, false, List, Option, Text}

pub data ConversationStatus : Type 0 where
  pending active closed : ConversationStatus

pub data SenderType : Type 0 where
  user admin system : SenderType

pub data MessageType : Type 0 where
  text image system : MessageType

pub record ChatConversation : Type 0 where
  pub id : ℕ
  pub user_id : ℕ
  pub user_name : Option Text
  pub admin_id : Option ℕ
  pub admin_name : Option Text
  pub status : ConversationStatus
  pub unread_user_count : ℕ
  pub unread_admin_count : ℕ
  pub last_message_at : Option ℕ
  pub last_message : Option Text
  pub last_message_type : Option MessageType
  pub created_at : ℕ
  pub closed_at : Option ℕ

pub record ChatMessage : Type 0 where
  pub id : ℕ
  pub conversation_id : ℕ
  pub sender_id : ℕ
  pub sender_type : SenderType
  pub sender_name : Text
  pub message_type : MessageType
  pub content : Text
  pub metadata : Option Text
  pub is_read : Bool
  pub read_at : Option ℕ
  pub created_at : ℕ

pub record ChatUser : Type 0 where
  pub id : ℕ
  pub email : Option Text
  pub display_name : Text
  pub phone_number : Option Text

pub data Reader : Type 0 where
  user admin : Reader

-- What the gateway emits to the room of a conversation, and what the SSE service sends.
pub data Push : Type 0 where
  socket_message : ℕ → ChatMessage → Push
  sse_message : ℕ → ChatMessage → Push
  sse_read : ℕ → Reader → Push
  socket_recalled : ℕ → ℕ → Push
  sse_recalled : ℕ → ℕ → Push

pub record Chat : Type 0 where
  pub users : List ChatUser
  pub conversations : List ChatConversation
  pub messages : List ChatMessage
  pub pushes : List Push

pub data SupportError : Type 0 where
  conversation_not_found no_access message_not_found : SupportError
  not_an_admin_message not_own_message missing_row : SupportError

abbrev pub conversation_key : ChatConversation → ℕ
conversation_key c = c.id

abbrev pub message_key : ChatMessage → ℕ
message_key m = m.id

abbrev pub chat_user_key : ChatUser → ℕ
chat_user_key u = u.id

-- `status: { in: ['PENDING', 'ACTIVE'] }`
abbrev pub is_open : ConversationStatus → Bool
is_open ConversationStatus.pending = true
is_open ConversationStatus.active = true
is_open ConversationStatus.closed = false

abbrev pub same_status : ConversationStatus → ConversationStatus → Bool
same_status ConversationStatus.pending ConversationStatus.pending = true
same_status ConversationStatus.active ConversationStatus.active = true
same_status ConversationStatus.closed ConversationStatus.closed = true
same_status _ _ = false

abbrev pub same_sender : SenderType → SenderType → Bool
same_sender SenderType.user SenderType.user = true
same_sender SenderType.admin SenderType.admin = true
same_sender SenderType.system SenderType.system = true
same_sender _ _ = false
