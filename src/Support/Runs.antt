-- ===== src/Support/Runs.antt =====
-- The operations of the chat as steps, and the counters along every sequence of them.
use crypto_sim_backend.Common.{
  ℕ, ◌≡◌, ◌∙◌, ◌++◌, ◌∷◌, refl, true, false, Option, none, some, Text, text, ok, Option-cases,
  Bool-cases, ◌==◌, inl, inr, arith,
}
use crypto_sim_backend.Common.Table.{find_unique, update}
use crypto_sim_backend.Support.Rows.{
  Chat, ChatConversation, ChatMessage, conversation_key, message_key, chat_user_key, SenderType,
  Reader, MessageType, same_sender,
}
use crypto_sim_backend.Support.Messages.{
  send_message, mark_as_read, recall_message, is_unread, read_by, without_message, store_message,
}
use crypto_sim_backend.Support.Conversations.{
  get_or_create_user_conversation, insert_conversation, close_conversation, assign_conversation,
  open_of, close, take_over, new_conversation,
}
use crypto_sim_backend.Support.Unread.{
  IsCounted, count-delete, counter-update_kept, store_message-IsCounted, read_by_admin-IsCounted,
  read_by_user-IsCounted,
}

-- A successful call. The identifier of a new conversation is one that no conversation has.
pub data Step : Chat → Chat → Type 0 where
  get_or_create :
      {s : Chat} {r : ChatConversation × Chat} (now id uid : ℕ) (name : Option Text)
      → find_unique conversation_key id s.conversations ≡ none
      → get_or_create_user_conversation now id uid name s ≡ ok r
      → Step s r.1
  send :
      {s : Chat} {r : ChatMessage × Chat} (now id conversation sender : ℕ) (who : SenderType)
      (name : Text) (type : MessageType) (content : Text) (metadata : Option Text)
      → send_message now id conversation sender who name type content metadata s ≡ ok r
      → Step s r.1
  read :
      {s t : Chat} (now conversation : ℕ) (reader : Reader)
      → mark_as_read now conversation reader s ≡ ok t
      → Step s t
  recall : {s t : Chat} (id admin : ℕ) → recall_message id admin s ≡ ok t → Step s t
  finish : {s t : Chat} (now id : ℕ) → close_conversation now id s ≡ ok t → Step s t
  assign :
      {s : Chat} {r : ChatMessage × Chat} (now message id admin : ℕ) (name : Text)
      → assign_conversation now message id admin name s ≡ ok r
      → Step s r.1

pub data Steps (s : Chat) : Chat → Type 0 where
  done : Steps s s
  next : {t u : Chat} → Steps s t → Step t u → Steps s u

insert-IsCounted :
    (now id uid : ℕ) (name : Option Text) (s : Chat) (r : ChatConversation × Chat)
    → find_unique conversation_key id s.conversations ≡ none
    → insert_conversation now id uid name s ≡ ok r
    → IsCounted s
    → IsCounted r.1
unfolding insert_conversation
insert-IsCounted now id uid name s r fresh h i =
    elim (Option-cases (find_unique chat_user_key uid s.users)) [
      | inl missing ↦ absurd (ground arith)
      | inr (u, found) ↦
          let e : r.1
              ≡ record s { conversations = new_conversation now id uid name ∷ s.conversations } =
            ground arith in
          rw e (record {
            admin_exact = λ k. elim (Bool-cases (id == k)) [
              | inl hit ↦ ground (arith, i.admin_exact k)
              | inr miss ↦ ground (arith, i.admin_exact k)
            ];
            user_covers = λ k. elim (Bool-cases (id == k)) [
              | inl hit ↦ ground (arith, i.user_covers k)
              | inr miss ↦ ground (arith, i.user_covers k)
            ];
          })
    ]

create-IsCounted :
    (now id uid : ℕ) (name : Option Text) (s : Chat) (r : ChatConversation × Chat)
    → find_unique conversation_key id s.conversations ≡ none
    → get_or_create_user_conversation now id uid name s ≡ ok r
    → IsCounted s
    → IsCounted r.1
unfolding get_or_create_user_conversation
create-IsCounted now id uid name s r fresh h i = elim (Option-cases (open_of uid s)) [
  | inl nothing ↦
      insert-IsCounted now id uid name s r fresh
        (rw (nothing, get_or_create_user_conversation) at h) i
  | inr (c, there) ↦ let e : r.1 ≡ s = ground arith in rw e i
]

send-IsCounted :
    (now id conversation sender : ℕ) (who : SenderType) (name : Text) (type : MessageType)
    (content : Text) (metadata : Option Text) (s : Chat) (r : ChatMessage × Chat)
    → send_message now id conversation sender who name type content metadata s ≡ ok r
    → IsCounted s
    → IsCounted r.1
unfolding send_message
send-IsCounted now id conversation sender who name type content metadata s r h i =
    elim (Option-cases (find_unique conversation_key conversation s.conversations)) [
      | inl missing ↦ absurd (ground arith)
      | inr (c, found) ↦
          let m : ChatMessage = record {
            id = id;
            conversation_id = conversation;
            sender_id = sender;
            sender_type = who;
            sender_name = name;
            message_type = type;
            content = content;
            metadata = metadata;
            is_read = false;
            read_at = none;
            created_at = now;
          } in
          let e : r.1 ≡ store_message m s = ground arith in
          rw e (store_message-IsCounted m s c found refl i)
    ]

read-IsCounted :
    (now conversation : ℕ) (reader : Reader) (s t : Chat)
    → mark_as_read now conversation reader s ≡ ok t
    → IsCounted s
    → IsCounted t
unfolding mark_as_read
read-IsCounted now conversation reader s t h i =
    elim (Option-cases (find_unique conversation_key conversation s.conversations)) [
      | inl missing ↦ absurd (ground arith)
      | inr (c, found) ↦
          let e : t ≡ read_by now conversation reader s = ground arith in
          rw e (by_reader reader c found)
    ]
  where
    by_reader :
        (reader : Reader) (c : ChatConversation)
        → find_unique conversation_key conversation s.conversations ≡ some c
        → IsCounted (read_by now conversation reader s)
    by_reader Reader.user c found = read_by_user-IsCounted now conversation s c found i
    by_reader Reader.admin c found = read_by_admin-IsCounted now conversation s c found i

recall-IsCounted :
    (id admin : ℕ) (s t : Chat) → recall_message id admin s ≡ ok t → IsCounted s → IsCounted t
unfolding recall_message
recall-IsCounted id admin s t h i = elim (Option-cases (find_unique message_key id s.messages)) [
  | inl missing ↦ absurd (ground arith)
  | inr (m, found) ↦
      let e : t ≡ without_message id m s = ground arith in
      let sent : same_sender m.sender_type SenderType.admin ≡ true = ground arith in
      rw e (record {
        admin_exact = λ k. ground (
          arith,
          i.admin_exact k,
          count-delete message_key (is_unread k SenderType.user) id s.messages m,
          not_user m.sender_type,
        );
        user_covers = λ k. ground (
          arith,
          i.user_covers k,
          count-delete message_key (is_unread k SenderType.admin) id s.messages m,
        );
      })
]
  where
    not_user :
        (x : SenderType)
        → same_sender x SenderType.admin ≡ true
        → same_sender x SenderType.user ≡ false
    not_user SenderType.user h = cc
    not_user SenderType.admin h = refl
    not_user SenderType.system h = refl

update-IsCounted :
    (g : ChatConversation → ChatConversation) (id : ℕ) (s : Chat)
    → ((x : ChatConversation) → conversation_key (g x) ≡ conversation_key x)
    → ((x : ChatConversation) → (g x).unread_admin_count ≡ x.unread_admin_count)
    → ((x : ChatConversation) → (g x).unread_user_count ≡ x.unread_user_count)
    → IsCounted s
    → IsCounted (record s { conversations = update conversation_key id g s.conversations })
update-IsCounted g id s same admin user i = record {
  admin_exact = λ k.
      counter-update_kept (λ c. c.unread_admin_count) g k id s.conversations same admin
      ∙ i.admin_exact k;
  user_covers = λ k.
      rw (counter-update_kept (λ c. c.unread_user_count) g k id s.conversations same user)
        (i.user_covers k);
}

close-IsCounted :
    (now id : ℕ) (s t : Chat) → close_conversation now id s ≡ ok t → IsCounted s → IsCounted t
unfolding close_conversation
close-IsCounted now id s t h i =
    elim (Option-cases (find_unique conversation_key id s.conversations)) [
      | inl missing ↦ absurd (ground arith)
      | inr (c, found) ↦
          let e : t ≡ record s {
            conversations = update conversation_key id (close now) s.conversations;
          } =
            ground arith in
          rw e (update-IsCounted (close now) id s (λ x. refl) (λ x. refl) (λ x. refl) i)
    ]

assign-IsCounted :
    (now message id admin : ℕ) (name : Text) (s : Chat) (r : ChatMessage × Chat)
    → assign_conversation now message id admin name s ≡ ok r
    → IsCounted s
    → IsCounted r.1
unfolding assign_conversation
assign-IsCounted now message id admin name s r h i =
    elim (Option-cases (find_unique conversation_key id s.conversations)) [
      | inl missing ↦ absurd (ground arith)
      | inr (c, found) ↦
          let s' = record s {
            conversations = update conversation_key id (take_over admin name) s.conversations;
          } in
          send-IsCounted now message id admin SenderType.system (text "System") MessageType.system
            (name ++ text " 已加入对话") none s' r (rw found at h)
            (update-IsCounted (take_over admin name) id s (λ x. refl) (λ x. refl) (λ x. refl) i)
    ]

Step-IsCounted : {s t : Chat} → Step s t → IsCounted s → IsCounted t
Step-IsCounted (get_or_create {s} {r} now id uid name fresh h) i =
    create-IsCounted now id uid name s r fresh h i
Step-IsCounted (send {s} {r} now id conversation sender who name type content metadata h) i =
    send-IsCounted now id conversation sender who name type content metadata s r h i
Step-IsCounted (read {s} {t} now conversation reader h) i =
    read-IsCounted now conversation reader s t h i
Step-IsCounted (recall {s} {t} id admin h) i = recall-IsCounted id admin s t h i
Step-IsCounted (finish {s} {t} now id h) i = close-IsCounted now id s t h i
Step-IsCounted (assign {s} {r} now message id admin name h) i =
    assign-IsCounted now message id admin name s r h i

-- Along every sequence of successful calls the counters stay true, if they are true at the start:
-- for every conversation, what is shown to administrators as unread is the number of the user's
-- messages that are not read, and what is shown to the user is at least the number of
-- administrators' messages that are not read. A conversation that is not there shows 0.
pub run-IsCounted : {s t : Chat} → Steps s t → IsCounted s → IsCounted t
run-IsCounted done i = i
run-IsCounted (next r st) i = Step-IsCounted st (run-IsCounted r i)
