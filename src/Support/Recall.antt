-- ===== src/Support/Recall.antt =====
-- What `recallMessage` refuses, and what it leaves of the counters.
use crypto_sim_backend.Common.{
  ℕ, suc, ◌≡◌, refl, true, false, count, some, ok, Option-cases, inl, inr, ◌+◌, Bool, arith,
}
use crypto_sim_backend.Common.Table.{find_unique, bit}
use crypto_sim_backend.Support.Rows.{Chat, ChatMessage, message_key, SenderType, same_sender}
use crypto_sim_backend.Support.Messages.{recall_message, is_unread, without_message}
use crypto_sim_backend.Support.Unread.{shown_to_user, count-delete}

-- A message is recalled by nobody but the administrator who sent it: if the call goes through, the
-- message is there, an administrator sent it, the caller is its sender, and afterwards one message is
-- missing from those of each kind that it is of.
pub recall-own :
    (id admin : ℕ) (s t : Chat)
    → recall_message id admin s ≡ ok t
    → (m : ChatMessage) × (find_unique message_key id s.messages ≡ some m)
      × (m.sender_type ≡ SenderType.admin)
      × (m.sender_id ≡ admin)
      × ((p : ChatMessage → Bool) → count p t.messages + bit (p m) ≡ count p s.messages)
unfolding recall_message
recall-own id admin s t h = elim (Option-cases (find_unique message_key id s.messages)) [
  | inl missing ↦ absurd (ground arith)
  | inr (m, found) ↦
      let e : t ≡ without_message id m s = ground arith in
      (
        m,
        found,
        ground (arith, sender m.sender_type),
        ground arith,
        λ p. rw e (count-delete message_key p id s.messages m found),
      )
]
  where
    sender : (x : SenderType) → same_sender x SenderType.admin ≡ true → x ≡ SenderType.admin
    sender SenderType.user e = cc
    sender SenderType.admin e = refl
    sender SenderType.system e = cc

-- A recalled message stays counted: where the user's counter is the number of administrators' messages
-- that are not read, and one of these is recalled, the counter is one above that number afterwards.
pub recall-stale :
    (id admin : ℕ) (s t : Chat) (m : ChatMessage)
    → find_unique message_key id s.messages ≡ some m
    → m.is_read ≡ false
    → shown_to_user m.conversation_id s
      ≡ count (is_unread m.conversation_id SenderType.admin) s.messages
    → recall_message id admin s ≡ ok t
    → shown_to_user m.conversation_id t
      ≡ suc (count (is_unread m.conversation_id SenderType.admin) t.messages)
unfolding recall_message
recall-stale id admin s t m found new exact h =
    let sent : same_sender m.sender_type SenderType.admin ≡ true = ground arith in
    let e : t ≡ without_message id m s = ground arith in
    rw e (
      ground (
        arith,
        count-delete message_key (is_unread m.conversation_id SenderType.admin) id s.messages m,
      ))
