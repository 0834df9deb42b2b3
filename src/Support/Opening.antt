-- ===== src/Support/Opening.antt =====
-- Interleaved calls of `getOrCreateUserConversation` on one server, with the lock in memory.
use crypto_sim_backend.Common.{
  ℕ, ◌≤◌, ◌≡◌, refl, Bool, true, List, [], ◌∷◌, ◌==◌, ◌&&◌, count, find?, Option, none, some, Text,
  text, ◌++◌, ok, Bool-cases, Option-cases, inl, inr, arith,
}
use crypto_sim_backend.Common.Table.{find_unique, update, count-update}
use crypto_sim_backend.Support.Rows.{
  Chat, ChatConversation, ChatMessage, SenderType, MessageType, conversation_key, chat_user_key,
  is_open,
}
use crypto_sim_backend.Support.Messages.{send_message, note_message, store_message, count_unread}
use crypto_sim_backend.Support.Conversations.{
  Server, Creation, is_open_of, open_of, set_chat, enter, check, insert, leave, insert_conversation,
  close_conversation, close, assign_conversation, take_over,
}

-- A step of some call: the first query found nothing and the call goes on; the second query; the
-- insert of the one that found nothing again; the end; from elsewhere, a conversation is closed, or one
-- that is open is taken over by an administrator.
pub data Move : Server → Server → Type 0 where
  enters : {v : Server} (uid : ℕ) → Move v (enter uid v)
  checks : {v : Server} (uid : ℕ) → v.creating uid ≡ Creation.checking → Move v (check uid v)
  inserts :
      {v : Server} (now id uid : ℕ) (name : Option Text)
      → v.creating uid ≡ Creation.absent
      → Move v (insert now id uid name v)
  leaves : {v : Server} (uid : ℕ) → v.creating uid ≡ Creation.inserted → Move v (leave uid v)
  closes :
      {v : Server} {s : Chat} (now id : ℕ)
      → close_conversation now id v.chat ≡ ok s
      → Move v (set_chat s v)
  assigns :
      {v : Server} {c : ChatConversation} {r : ChatMessage × Chat} (now message id admin : ℕ)
      (name : Text)
      → find_unique conversation_key id v.chat.conversations ≡ some c
      → is_open c.status ≡ true
      → assign_conversation now message id admin name v.chat ≡ ok r
      → Move v (set_chat r.1 v)

pub data Moves (v : Server) : Server → Type 0 where
  done : Moves v v
  next : {w x : Server} → Moves v w → Move w x → Moves v x

abbrev pub open_count : ℕ → Server → ℕ
open_count uid v = count (is_open_of uid) v.chat.conversations

-- How many conversations a user may have open, by how far the creation is.
abbrev pub open_limit : Creation → ℕ
open_limit Creation.idle = 1
open_limit Creation.checking = 1
open_limit Creation.absent = 0
open_limit Creation.inserted = 1

abbrev pub IsSingle : Server → Type 0
IsSingle v = (uid : ℕ) → open_count uid v ≤ open_limit (v.creating uid)

limit-le : (p : Creation) → open_limit p ≤ 1
limit-le Creation.idle = omega arith
limit-le Creation.checking = omega arith
limit-le Creation.absent = omega arith
limit-le Creation.inserted = omega arith

count-none :
    (uid : ℕ) (cs : List ChatConversation)
    → find? (is_open_of uid) cs ≡ none
    → count (is_open_of uid) cs ≡ 0
count-none uid [] h = refl
count-none uid (c ∷ cs) h = elim (Bool-cases (is_open_of uid c)) [
  | inl hit ↦ absurd (ground arith)
  | inr miss ↦ rw miss (count-none uid cs (rw miss at h))
]

enter-IsSingle : (uid : ℕ) (v : Server) → IsSingle v → IsSingle (enter uid v)
unfolding enter
enter-IsSingle uid v i k = entered (v.creating uid) refl
  where
    entered :
        (p : Creation)
        → v.creating uid ≡ p
        → open_count k (enter uid v) ≤ open_limit ((enter uid v).creating k)
    entered Creation.idle e = ground (arith, i k, e)
    entered Creation.checking e = rw (e, enter) (i k)
    entered Creation.absent e = rw (e, enter) (i k)
    entered Creation.inserted e = rw (e, enter) (i k)

check-IsSingle :
    (uid : ℕ) (v : Server)
    → v.creating uid ≡ Creation.checking
    → IsSingle v
    → IsSingle (check uid v)
unfolding check
check-IsSingle uid v at i k = elim (Bool-cases (uid == k)) [
  | inr miss ↦ rw miss (i k)
  | inl hit ↦ elim (Option-cases (open_of uid v.chat)) [
    | inl nothing ↦ rw (hit, nothing) (ground (arith, count-none uid v.chat.conversations))
    | inr (c, there) ↦ rw (hit, there) (ground (arith, i k, at))
  ]
]

insert-IsSingle :
    (now id uid : ℕ) (name : Option Text) (v : Server)
    → v.creating uid ≡ Creation.absent
    → IsSingle v
    → IsSingle (insert now id uid name v)
unfolding insert insert_conversation
insert-IsSingle now id uid name v at i k =
    elim (Option-cases (find_unique chat_user_key uid v.chat.users)) [
      | inl missing ↦ ground (arith, i k, at)
      | inr (u, found) ↦ ground (arith, i k, at)
    ]

leave-IsSingle :
    (uid : ℕ) (v : Server)
    → v.creating uid ≡ Creation.inserted
    → IsSingle v
    → IsSingle (leave uid v)
unfolding leave
leave-IsSingle uid v at i k = ground (arith, i k, at)

close-IsSingle :
    (now id : ℕ) (v : Server) (s : Chat)
    → close_conversation now id v.chat ≡ ok s
    → IsSingle v
    → IsSingle (set_chat s v)
unfolding close_conversation
close-IsSingle now id v s h i k =
    elim (Option-cases (find_unique conversation_key id v.chat.conversations)) [
      | inl missing ↦ absurd (ground arith)
      | inr (c, found) ↦ ground (
        arith,
        i k,
        count-update conversation_key (is_open_of k) id (close now) v.chat.conversations c,
      )
    ]

count-update_kept :
    (p : ChatConversation → Bool) (k : ℕ) (g : ChatConversation → ChatConversation)
    (cs : List ChatConversation)
    → ((c : ChatConversation) → p (g c) ≡ p c)
    → count p (update conversation_key k g cs) ≡ count p cs
count-update_kept p k g [] same = refl
count-update_kept p k g (c ∷ cs) same = ground (arith, same c, count-update_kept p k g cs same)

open-note :
    (uid : ℕ) (m : ChatMessage) (c : ChatConversation)
    → is_open_of uid (note_message m c) ≡ is_open_of uid c
open-note uid m c = by_sender m.sender_type
  where
    by_sender :
        (t : SenderType)
        → ((count_unread t c).user_id == uid) && is_open (count_unread t c).status
          ≡ is_open_of uid c
    by_sender SenderType.user = refl
    by_sender SenderType.admin = refl
    by_sender SenderType.system = refl

count-send :
    (uid now id conversation sender : ℕ) (who : SenderType) (name : Text) (type : MessageType)
    (content : Text) (s : Chat) (r : ChatMessage × Chat)
    → send_message now id conversation sender who name type content none s ≡ ok r
    → count (is_open_of uid) r.1.conversations ≡ count (is_open_of uid) s.conversations
unfolding send_message
count-send uid now id conversation sender who name type content s r h =
    elim (Option-cases (find_unique conversation_key conversation s.conversations)) [
      | inl missing ↦ absurd (ground arith)
      | inr (c, found) ↦
          let e : r.1 ≡ store_message r.0 s = ground arith in
          rw e (
            count-update_kept (is_open_of uid) r.0.conversation_id (note_message r.0)
              s.conversations (open-note uid r.0))
    ]

assign-IsSingle :
    (now message id admin : ℕ) (name : Text) (v : Server) (c : ChatConversation)
    (r : ChatMessage × Chat)
    → find_unique conversation_key id v.chat.conversations ≡ some c
    → is_open c.status ≡ true
    → assign_conversation now message id admin name v.chat ≡ ok r
    → IsSingle v
    → IsSingle (set_chat r.1 v)
unfolding assign_conversation
assign-IsSingle now message id admin name v c r found opened h i k =
    let s' : Chat = record v.chat {
      conversations = update conversation_key id (take_over admin name) v.chat.conversations;
    } in
    let sent : count (is_open_of k) r.1.conversations ≡ count (is_open_of k) s'.conversations =
      count-send k now message id admin SenderType.system (text "System") MessageType.system
        (name ++ text " 已加入对话") s' r (rw (found) at h) in
    ground (
      arith,
      i k,
      count-update conversation_key (is_open_of k) id (take_over admin name) v.chat.conversations c,
    )

Move-IsSingle : {v w : Server} → Move v w → IsSingle v → IsSingle w
Move-IsSingle (enters {v} uid) i = enter-IsSingle uid v i
Move-IsSingle (checks {v} uid at) i = check-IsSingle uid v at i
Move-IsSingle (inserts {v} now id uid name at) i = insert-IsSingle now id uid name v at i
Move-IsSingle (leaves {v} uid at) i = leave-IsSingle uid v at i
Move-IsSingle (closes {v} {s} now id h) i = close-IsSingle now id v s h i
Move-IsSingle (assigns {v} {c} {r} now message id admin name found opened h) i =
    assign-IsSingle now message id admin name v c r found opened h i

Moves-IsSingle : {v w : Server} → Moves v w → IsSingle v → IsSingle w
Moves-IsSingle done i = i
Moves-IsSingle (next r m) i = Move-IsSingle m (Moves-IsSingle r i)

-- On one server, however the parts of concurrent calls of `getOrCreateUserConversation` interleave
-- with one another, with closings and with administrators who take over open conversations, a user
-- has at most one open conversation, if at the start no creation is past its second query without
-- result with a conversation open, and every user has at most one open.
pub Moves-single : {v w : Server} → Moves v w → IsSingle v → (uid : ℕ) → open_count uid w ≤ 1
Moves-single {v} {w} r i uid = omega (arith, Moves-IsSingle r i uid, limit-le (w.creating uid))
