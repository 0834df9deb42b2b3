-- ===== src/Support/Csv.antt =====
-- `exportConversationsAsCSV`. The texts of identifiers and of times (`toISOString`) come from
-- elsewhere: the sections take them as parameters.
pub mod Reading
pub mod RoundTrip
use mathlib.Core.List.{reverse}
use crypto_sim_backend.Common.{
  ℕ, ◌==◌, if◌then◌else◌, Bool, true, false, List, [], ◌∷◌, ◌++◌, map, Option, none, some, get_or,
  Text, text,
}
use crypto_sim_backend.Common.Table.{find_unique}
use crypto_sim_backend.Support.Rows.{
  Chat, ChatConversation, ChatMessage, ChatUser, chat_user_key, ConversationStatus, SenderType,
  MessageType,
}
use crypto_sim_backend.Support.Queries.{ExportFilters, export_conversations}

abbrev pub headers : List Text
headers =
    text "对话ID"
    ∷ text "用户ID"
    ∷ text "用户邮箱"
    ∷ text "用户名称"
    ∷ text "管理员ID"
    ∷ text "管理员名称"
    ∷ text "对话状态"
    ∷ text "对话创建时间"
    ∷ text "消息ID"
    ∷ text "消息发送者类型"
    ∷ text "消息发送者ID"
    ∷ text "消息发送者名称"
    ∷ text "消息类型"
    ∷ text "消息内容"
    ∷ text "消息时间"
    ∷ text "是否已读"
    ∷ []

abbrev pub status_text : ConversationStatus → Text
status_text ConversationStatus.pending = text "PENDING"
status_text ConversationStatus.active = text "ACTIVE"
status_text ConversationStatus.closed = text "CLOSED"

abbrev pub sender_text : SenderType → Text
sender_text SenderType.user = text "USER"
sender_text SenderType.admin = text "ADMIN"
sender_text SenderType.system = text "SYSTEM"

abbrev pub message_type_text : MessageType → Text
message_type_text MessageType.text = text "TEXT"
message_type_text MessageType.image = text "IMAGE"
message_type_text MessageType.system = text "SYSTEM"

abbrev pub read_text : Bool → Text
read_text true = text "是"
read_text false = text "否"

-- `conv.user.email || ''` and `conv.user.displayName || ''`; the user of a conversation is there.
abbrev pub email_of : Option ChatUser → Text
email_of none = []
email_of (some u) = get_or u.email []

abbrev pub name_of : Option ChatUser → Text
name_of none = []
name_of (some u) = u.display_name

abbrev pub admin_id_text : (ℕ → Text) → Option ℕ → Text
admin_id_text id_text none = []
admin_id_text id_text (some id) = id_text id

abbrev pub join : Text → List Text → Text
join separator [] = []
join separator (x ∷ []) = x
join separator (x ∷ y ∷ rest) = x ++ (separator ++ join separator (y ∷ rest))

-- `String(cell).replace(/"/g, '""')`
unfoldable pub escape : Text → Text
escape [] = []
escape (c ∷ s) = if c == b'"' then b'"' ∷ b'"' ∷ escape s else c ∷ escape s

abbrev pub quoted : Text → Text
quoted cell = b'"' ∷ (escape cell ++ (b'"' ∷ []))

abbrev pub csv_line : List Text → Text
csv_line row = join (b',' ∷ []) (map quoted row)

module _ (id_text time_text : ℕ → Text) where
  -- The cells that all rows of a conversation begin with, and those of a message.
  abbrev pub conversation_cells : Option ChatUser → ChatConversation → List Text → List Text
  conversation_cells u c rest =
      id_text c.id
      ∷ id_text c.user_id
      ∷ email_of u
      ∷ name_of u
      ∷ admin_id_text id_text c.admin_id
      ∷ get_or c.admin_name []
      ∷ status_text c.status
      ∷ time_text c.created_at
      ∷ rest

  abbrev pub message_cells : ChatMessage → List Text
  message_cells m =
      id_text m.id
      ∷ sender_text m.sender_type
      ∷ id_text m.sender_id
      ∷ m.sender_name
      ∷ message_type_text m.message_type
      ∷ m.content
      ∷ time_text m.created_at
      ∷ read_text m.is_read
      ∷ []

  abbrev pub no_message_cells : List Text
  no_message_cells = [] ∷ [] ∷ [] ∷ [] ∷ [] ∷ text "(无消息)" ∷ [] ∷ [] ∷ []

  abbrev pub conversation_rows :
      Option ChatUser → ChatConversation → List ChatMessage → List (List Text)
  conversation_rows u c [] = conversation_cells u c no_message_cells ∷ []
  conversation_rows u c (m ∷ ms) = map (λ x. conversation_cells u c (message_cells x)) (m ∷ ms)

  abbrev pub export_rows : Chat → List (ChatConversation × List ChatMessage) → List (List Text)
  export_rows s [] = []
  export_rows s ((c, ms) ∷ rest) =
      conversation_rows (find_unique chat_user_key c.user_id s.users) c ms ++ export_rows s rest

  unfoldable pub export_conversations_as_csv : ExportFilters → Chat → Text
  export_conversations_as_csv f s =
      join (10 ∷ [])
        (join (b',' ∷ []) headers ∷ map csv_line (export_rows s (export_conversations f s)))
