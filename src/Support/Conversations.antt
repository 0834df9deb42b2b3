-- ===== src/Support/Conversations.antt =====
-- `getOrCreateUserConversation`, `closeConversation` and `assignConversation`.
--
-- The service runs on one thread and its calls interleave where they wait, so the first is cut there:
-- `look` is the answer of the first query; `enter` is what runs when it has come, up to the start of
-- the second query; `check` is the answer of that query; `insert` is the new row; `leave` is the
-- `finally` block. `creating` says which users have a promise in the map, and how far it is.
use crypto_sim_backend.Common.{
  ℕ, ◌==◌, if◌then◌else◌, Bool, ◌&&◌, ◌++◌, ◌∷◌, find?, Option, none, some, Text, text, Result, ok,
  err, ◌>>=◌, or_throw,
}
use crypto_sim_backend.Common.Table.{find_unique, update}
use crypto_sim_backend.Support.Rows.{
  Chat, ChatConversation, ChatMessage, conversation_key, chat_user_key, ConversationStatus,
  SenderType, MessageType, SupportError, is_open,
}
use crypto_sim_backend.Support.Messages.{send_message}

pub data Creation : Type 0 where
  idle checking absent inserted : Creation

pub record Server : Type 0 where
  pub chat : Chat
  pub creating : ℕ → Creation

abbrev pub is_open_of : ℕ → ChatConversation → Bool
is_open_of uid c = (c.user_id == uid) && is_open c.status

abbrev pub open_of : ℕ → Chat → Option ChatConversation
open_of uid s = find? (is_open_of uid) s.conversations

abbrev pub set_creation : ℕ → Creation → (ℕ → Creation) → ℕ → Creation
set_creation uid p creating k = if uid == k then p else creating k

abbrev pub set_chat : Chat → Server → Server
set_chat s v = record v { chat = s }

abbrev pub new_conversation : ℕ → ℕ → ℕ → Option Text → ChatConversation
new_conversation now id uid name = record {
  id = id;
  user_id = uid;
  user_name = name;
  admin_id = none;
  admin_name = none;
  status = ConversationStatus.pending;
  unread_user_count = 0;
  unread_admin_count = 0;
  last_message_at = none;
  last_message = none;
  last_message_type = none;
  created_at = now;
  closed_at = none;
}

-- The row of a user who is not there violates the table's foreign key.
unfoldable pub insert_conversation :
    ℕ → ℕ → ℕ → Option Text → Chat → Result SupportError (ChatConversation × Chat)
insert_conversation now id uid name s = do
  u ← or_throw (find_unique chat_user_key uid s.users) SupportError.missing_row
  let c = new_conversation now id uid name
  ok (c, record s { conversations = c ∷ s.conversations })

-- What a call does once its first query found nothing: it waits for the promise in the map, or
-- puts its own there.
unfoldable pub enter : ℕ → Server → Server
enter uid v = elim (v.creating uid) [
  | Creation.idle ↦ record v { creating = set_creation uid Creation.checking v.creating }
  | _ ↦ v
]

abbrev pub after_check : Option ChatConversation → Creation
after_check none = Creation.absent
after_check (some c) = Creation.inserted

unfoldable pub check : ℕ → Server → Server
check uid v = record v { creating = set_creation uid (after_check (open_of uid v.chat)) v.creating }

abbrev pub after_insert : ℕ → Server → Result SupportError (ChatConversation × Chat) → Server
after_insert uid v (ok r) = record v {
  chat = r.1;
  creating = set_creation uid Creation.inserted v.creating;
}
after_insert uid v (err e) = record v { creating = set_creation uid Creation.inserted v.creating }

unfoldable pub insert : ℕ → ℕ → ℕ → Option Text → Server → Server
insert now id uid name v = after_insert uid v (insert_conversation now id uid name v.chat)

unfoldable pub leave : ℕ → Server → Server
leave uid v = record v { creating = set_creation uid Creation.idle v.creating }

-- The call where nothing else runs between its parts.
unfoldable pub get_or_create_user_conversation :
    ℕ → ℕ → ℕ → Option Text → Chat → Result SupportError (ChatConversation × Chat)
get_or_create_user_conversation now id uid name s = elim (open_of uid s) [
  | some c ↦ ok (c, s)
  | none ↦ insert_conversation now id uid name s
]

abbrev pub close : ℕ → ChatConversation → ChatConversation
close now c = record c { status = ConversationStatus.closed; closed_at = some now }

unfoldable pub close_conversation : ℕ → ℕ → Chat → Result SupportError Chat
close_conversation now id s = do
  c ← or_throw (find_unique conversation_key id s.conversations) SupportError.missing_row
  ok (record s { conversations = update conversation_key id (close now) s.conversations })

abbrev pub take_over : ℕ → Text → ChatConversation → ChatConversation
take_over admin name c = record c {
  admin_id = some admin;
  admin_name = some name;
  status = ConversationStatus.active;
}

unfoldable pub assign_conversation :
    ℕ → ℕ → ℕ → ℕ → Text → Chat → Result SupportError (ChatMessage × Chat)
assign_conversation now message_id id admin name s = do
  c ← or_throw (find_unique conversation_key id s.conversations) SupportError.missing_row
  send_message now message_id id admin SenderType.system (text "System") MessageType.system
      (name ++ text " 已加入对话") none
      (record s {
        conversations = update conversation_key id (take_over admin name) s.conversations;
      })
