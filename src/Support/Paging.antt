-- ===== src/Support/Paging.antt =====
-- The history of a conversation, loaded page by page as `hasMore` says.
use mathlib.Core.List.{reverse, reverse-append}
use crypto_sim_backend.Common.{
  ℕ, zero, ◌∷◌, ◌∙◌, Bool, ◌&&◌, filter, count, Option, suc, ◌+◌, ◌-◌, ◌<◌, ◌≡◌, refl, sym, ap, ltb,
  if◌then◌else◌, Bool-cases, inl, inr, List, [], ◌++◌, length, take, drop, take-drop, drop-drop,
  drop_all, arith,
}
use crypto_sim_backend.Common.Pages.{
  first_pages, first_pages_all, sort_by, count-sort_by, total_pages, page_of,
}
use crypto_sim_backend.Support.Rows.{Chat, ChatMessage, ChatConversation, ConversationStatus}
use crypto_sim_backend.Support.Queries.{
  get_admin_messages, messages_of, get_admin_conversations, has_status, is_of_admin, lists_before,
}

-- What a client does that scrolls up to the start: it asks for the next page while there are more
-- messages, and puts it in front.
pub scroll : ℕ → ℕ → ℕ → ℕ → Chat → List ChatMessage
scroll zero conversation limit offset s = []
scroll (suc rounds) conversation limit offset s =
    let page = get_admin_messages conversation limit offset s in
    let older = scroll rounds conversation limit (offset + limit) s in
    (if page.has_more then older else []) ++ page.messages

scroll_lem :
    (rounds conversation limit offset : ℕ) (s : Chat)
    → 0 < limit
    → length (messages_of conversation s) - offset < rounds
    → scroll rounds conversation limit offset s ≡ reverse (drop offset (messages_of conversation s))
unfolding scroll get_admin_messages
scroll_lem zero conversation limit offset s h k = absurd (omega arith)
scroll_lem (suc rounds) conversation limit offset s h k =
    let rows = messages_of conversation s in
    let split : reverse (drop offset rows)
        ≡ reverse (drop (offset + limit) rows) ++ reverse (take limit (drop offset rows)) =
      ap reverse (
        sym (take-drop limit (drop offset rows))
        ∙ ap (λ l. take limit (drop offset rows) ++ l) (drop-drop limit offset rows))
      ∙ reverse-append (take limit (drop offset rows)) (drop (offset + limit) rows) in
    elim (Bool-cases (ltb (offset + limit) (length rows))) [
      | inl more ↦
          rw (more, split, scroll_lem rounds conversation limit (offset + limit) s h (ground arith))
            refl
      | inr last ↦ rw (last, split, drop_all (offset + limit) rows (ground arith))
    ]

-- A client that scrolls to the start has every message of the conversation once, the oldest first,
-- for any size of a page above 0.
pub scroll_all :
    (conversation limit : ℕ) (s : Chat)
    → 0 < limit
    → scroll (suc (length (messages_of conversation s))) conversation limit 0 s
      ≡ reverse (messages_of conversation s)
scroll_all conversation limit s h =
    scroll_lem (suc (length (messages_of conversation s))) conversation limit 0 s h (omega arith)
    ∙ ap reverse (drop_zero (messages_of conversation s))
  where
    drop_zero : (ms : List ChatMessage) → drop 0 ms ≡ ms
    drop_zero [] = refl
    drop_zero (m ∷ ms) = refl

-- The rows of the first pages of an administrator's list, one after the other.
pub walk : ℕ → Option ConversationStatus → Option ℕ → ℕ → Chat → List ChatConversation
walk zero status admin limit s = []
walk (suc n) status admin limit s =
    walk n status admin limit s ++ (get_admin_conversations status admin (suc n) limit s).rows

abbrev pub is_listed : Option ConversationStatus → Option ℕ → ChatConversation → Bool
is_listed status admin c = has_status status c.status && is_of_admin admin c.admin_id

walk_lem :
    (n : ℕ) (status : Option ConversationStatus) (admin : Option ℕ) (limit : ℕ) (s : Chat)
    → walk n status admin limit s
      ≡ first_pages n limit (sort_by lists_before (filter (is_listed status admin) s.conversations))
unfolding walk get_admin_conversations first_pages page_of
walk_lem zero status admin limit s = refl
walk_lem (suc n) status admin limit s = rw (walk_lem n status admin limit s)

-- The pages of an administrator's list, up to the number of pages that each of them tells, hold every
-- conversation that the filters let through as often as the table does, and no other, for any size of
-- a page above 0.
pub walk_all :
    (status : Option ConversationStatus) (admin : Option ℕ) (page limit : ℕ) (s : Chat)
    (p : ChatConversation → Bool)
    → 0 < limit
    → count p
        (walk (get_admin_conversations status admin page limit s).total_pages status admin limit s)
      ≡ count p (filter (is_listed status admin) s.conversations)
unfolding get_admin_conversations page_of
walk_all status admin page limit s p h =
    let rows = sort_by lists_before (filter (is_listed status admin) s.conversations) in
    ap (count p) (
      walk_lem (total_pages (length rows) limit) status admin limit s
      ∙ first_pages_all limit rows h)
    ∙ count-sort_by p lists_before (filter (is_listed status admin) s.conversations)
