-- ===== src/Support/Queries.antt =====
-- The queries of the chat: pages of messages, the lists of conversations, the counts of unread
-- messages, and the rows that are exported. A page's rows are those of the table from the newest on,
-- and it shows them the oldest first.
use mathlib.Core.List.{reverse}
use crypto_sim_backend.Common.{
  ℕ, ◌+◌, ltb, leb, ◌==◌, Bool, true, false, not, ◌&&◌, ◌||◌, List, [], ◌∷◌, filter, map, take,
  drop, length, Option, none, some, Result, ok, ◌>>=◌, ◌>>◌, throw_if, or_throw,
}
use crypto_sim_backend.Common.Table.{find_unique}
use crypto_sim_backend.Common.Pages.{sort_by, is_later, Page, page_of}
use crypto_sim_backend.Support.Rows.{
  Chat, ChatConversation, ChatMessage, conversation_key, ConversationStatus, SupportError, is_open,
  same_status,
}

pub record MessagePage : Type 0 where
  pub messages : List ChatMessage
  pub total : ℕ
  pub has_more : Bool

abbrev pub belongs_to : ℕ → ChatMessage → Bool
belongs_to conversation m = m.conversation_id == conversation

abbrev pub messages_of : ℕ → Chat → List ChatMessage
messages_of conversation s = filter (belongs_to conversation) s.messages

unfoldable pub get_admin_messages : ℕ → ℕ → ℕ → Chat → MessagePage
get_admin_messages conversation limit offset s = record {
  messages = reverse (take limit (drop offset (messages_of conversation s)));
  total = length (messages_of conversation s);
  has_more = ltb (offset + limit) (length (messages_of conversation s));
}

unfoldable pub get_messages : ℕ → ℕ → ℕ → ℕ → Chat → Result SupportError MessagePage
get_messages conversation uid limit offset s = do
  c ←
      or_throw (find_unique conversation_key conversation s.conversations)
        SupportError.conversation_not_found
  throw_if (not (c.user_id == uid)) SupportError.no_access
  ok (get_admin_messages conversation limit offset s)

-- `[{ status: 'asc' }, { lastMessageAt: 'desc' }]`: the order of the enumeration, and a conversation
-- without messages before those with one.
abbrev pub status_rank : ConversationStatus → ℕ
status_rank ConversationStatus.pending = 0
status_rank ConversationStatus.active = 1
status_rank ConversationStatus.closed = 2

abbrev pub lists_before : ChatConversation → ChatConversation → Bool
lists_before a b =
    ltb (status_rank a.status) (status_rank b.status)
    || ((status_rank a.status == status_rank b.status)
        && is_later a.last_message_at b.last_message_at)

abbrev pub is_of_admin : Option ℕ → Option ℕ → Bool
is_of_admin none assigned = true
is_of_admin (some a) none = false
is_of_admin (some a) (some b) = a == b

abbrev pub has_status : Option ConversationStatus → ConversationStatus → Bool
has_status none status = is_open status
has_status (some wanted) status = same_status status wanted

unfoldable pub get_admin_conversations :
    Option ConversationStatus → Option ℕ → ℕ → ℕ → Chat → Page ChatConversation
get_admin_conversations status admin page limit s = page_of page limit (
    sort_by lists_before
      (filter (λ c. has_status status c.status && is_of_admin admin c.admin_id) s.conversations))

-- `where.OR = [{ adminId }, { adminId: null }]`
abbrev pub is_for : Option ℕ → Option ℕ → Bool
is_for none assigned = true
is_for (some a) none = true
is_for (some a) (some b) = a == b

abbrev pub has_unread_for : Option ℕ → ChatConversation → Bool
has_unread_for admin c = is_open c.status && ltb 0 c.unread_admin_count && is_for admin c.admin_id

abbrev pub total_unread : List ChatConversation → ℕ
total_unread [] = 0
total_unread (c ∷ cs) = c.unread_admin_count + total_unread cs

-- The sum of the counters, and the number of conversations.
unfoldable pub get_unread_count : Option ℕ → Chat → ℕ × ℕ
get_unread_count admin s = (
  total_unread (filter (has_unread_for admin) s.conversations),
  length (filter (has_unread_for admin) s.conversations),
)

unfoldable pub get_user_conversations : ℕ → ℕ → Chat → List ChatConversation
get_user_conversations uid limit s =
    take limit (sort_by lists_before (filter (λ c. c.user_id == uid) s.conversations))

pub record ExportFilters : Type 0 where
  pub status : Option ConversationStatus
  pub start_date : Option ℕ
  pub end_date : Option ℕ
  pub user_id : Option ℕ
  pub admin_id : Option ℕ

abbrev pub fits_status : Option ConversationStatus → ConversationStatus → Bool
fits_status none status = true
fits_status (some wanted) status = same_status status wanted

abbrev pub is_from : Option ℕ → ℕ → Bool
is_from none at = true
is_from (some t) at = leb t at

abbrev pub is_until : Option ℕ → ℕ → Bool
is_until none at = true
is_until (some t) at = leb at t

abbrev pub is_user : Option ℕ → ℕ → Bool
is_user none uid = true
is_user (some u) uid = uid == u

abbrev pub fits : ExportFilters → ChatConversation → Bool
fits f c =
    fits_status f.status c.status
    && is_from f.start_date c.created_at
    && is_until f.end_date c.created_at
    && is_user f.user_id c.user_id
    && is_of_admin f.admin_id c.admin_id

-- Each conversation with its messages, the oldest first.
unfoldable pub export_conversations :
    ExportFilters → Chat → List (ChatConversation × List ChatMessage)
export_conversations f s =
    map (λ c. (c, reverse (messages_of c.id s))) (filter (fits f) s.conversations)
