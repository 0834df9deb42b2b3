-- ===== src/Support/Unread.antt =====
-- The counters of unread messages against the messages themselves.
use crypto_sim_backend.Common.{
  ℕ, ◌+◌, ◌≤◌, ◌≡◌, refl, Bool, false, ◌&&◌, List, [], ◌∷◌, ◌==◌, if◌then◌else◌, count, Option,
  none, some, Bool-cases, ==_iff, inl, inr, arith,
}
use crypto_sim_backend.Common.Table.{find_unique, update, update_many, delete, bit}
use crypto_sim_backend.Support.Rows.{
  Chat, ChatConversation, ChatMessage, conversation_key, SenderType, Reader, same_sender,
}
use crypto_sim_backend.Support.Messages.{
  is_unread, count_unread, note_message, store_message, clear_unread, read_by, read_message,
}

abbrev pub counter_of : (ChatConversation → ℕ) → Option ChatConversation → ℕ
counter_of f none = 0
counter_of f (some c) = f c

abbrev pub shown_to_admin : ℕ → Chat → ℕ
shown_to_admin k s =
    counter_of (λ c. c.unread_admin_count) (find_unique conversation_key k s.conversations)

abbrev pub shown_to_user : ℕ → Chat → ℕ
shown_to_user k s =
    counter_of (λ c. c.unread_user_count) (find_unique conversation_key k s.conversations)

-- The administrator's counter is the number of the user's messages not read yet; the user's counter
-- is at least the number of administrators' messages not read yet.
pub record IsCounted (s : Chat) : Type 0 where
  pub admin_exact : (k : ℕ) → shown_to_admin k s ≡ count (is_unread k SenderType.user) s.messages
  pub user_covers : (k : ℕ) → count (is_unread k SenderType.admin) s.messages ≤ shown_to_user k s

module _ {ℓ} {A : Type ℓ} where
  pub count-delete :
      (key : A → ℕ) (p : A → Bool) (k : ℕ) (xs : List A) (x : A)
      → find_unique key k xs ≡ some x
      → count p (delete key k xs) + bit (p x) ≡ count p xs
  count-delete key p k [] x h = cc
  count-delete key p k (y ∷ xs) x h = ground (arith, count-delete key p k xs x)

-- An update that keeps a column keeps what is read of it.
pub counter-update_kept :
    (f : ChatConversation → ℕ) (g : ChatConversation → ChatConversation) (j k : ℕ)
    (cs : List ChatConversation)
    → ((x : ChatConversation) → conversation_key (g x) ≡ conversation_key x)
    → ((x : ChatConversation) → f (g x) ≡ f x)
    → counter_of f (find_unique conversation_key j (update conversation_key k g cs))
      ≡ counter_of f (find_unique conversation_key j cs)
counter-update_kept f g j k [] same kept = refl
counter-update_kept f g j k (x ∷ cs) same kept = elim (Bool-cases (x.id == k)) [
  | inl hit ↦ ground (arith, same x, kept x)
  | inr miss ↦ ground (arith, counter-update_kept f g j k cs same kept)
]

counter-update :
    (f : ChatConversation → ℕ) (g : ChatConversation → ChatConversation) (j k : ℕ)
    (cs : List ChatConversation) (c : ChatConversation)
    → ((x : ChatConversation) → conversation_key (g x) ≡ conversation_key x)
    → find_unique conversation_key k cs ≡ some c
    → counter_of f (find_unique conversation_key j (update conversation_key k g cs))
      ≡ (if k == j then f (g c) else counter_of f (find_unique conversation_key j cs))
counter-update f g j k [] c same h = cc
counter-update f g j k (x ∷ cs) c same h = elim (Bool-cases (x.id == k)) [
  | inl hit ↦ ground (arith, same x)
  | inr miss ↦ ground (arith, counter-update f g j k cs c same)
]

admin-count_unread :
    (t : SenderType) (c : ChatConversation)
    → (count_unread t c).unread_admin_count
      ≡ c.unread_admin_count + bit (same_sender t SenderType.user)
admin-count_unread SenderType.user c = refl
admin-count_unread SenderType.admin c = omega arith
admin-count_unread SenderType.system c = omega arith

user-count_unread :
    (t : SenderType) (c : ChatConversation)
    → (count_unread t c).unread_user_count
      ≡ c.unread_user_count + bit (same_sender t SenderType.admin)
user-count_unread SenderType.user c = omega arith
user-count_unread SenderType.admin c = refl
user-count_unread SenderType.system c = omega arith

key-count_unread : (t : SenderType) (c : ChatConversation) → (count_unread t c).id ≡ c.id
key-count_unread SenderType.user c = refl
key-count_unread SenderType.admin c = refl
key-count_unread SenderType.system c = refl

-- The counters after a message is stored.
module _ (m : ChatMessage) (s : Chat) (c : ChatConversation)
    (found : find_unique conversation_key m.conversation_id s.conversations ≡ some c) where
  shown_to_admin-store :
      (k : ℕ)
      → shown_to_admin k (store_message m s)
        ≡ shown_to_admin k s
          + bit ((m.conversation_id == k) && same_sender m.sender_type SenderType.user)
  shown_to_admin-store k =
      rw
        (counter-update (λ c. c.unread_admin_count) (note_message m) k m.conversation_id
          s.conversations c (λ x. key-count_unread m.sender_type x) found)
        (ground (arith, admin-count_unread m.sender_type c))

  shown_to_user-store :
      (k : ℕ)
      → shown_to_user k (store_message m s)
        ≡ shown_to_user k s
          + bit ((m.conversation_id == k) && same_sender m.sender_type SenderType.admin)
  shown_to_user-store k =
      rw
        (counter-update (λ c. c.unread_user_count) (note_message m) k m.conversation_id
          s.conversations c (λ x. key-count_unread m.sender_type x) found)
        (ground (arith, user-count_unread m.sender_type c))

  pub store_message-IsCounted : m.is_read ≡ false → IsCounted s → IsCounted (store_message m s)
  store_message-IsCounted new i = record {
    admin_exact = λ k. rw (shown_to_admin-store k) (ground (arith, i.admin_exact k));
    user_covers = λ k. rw (shown_to_user-store k) (ground (arith, i.user_covers k));
  }

read_self :
    (t : SenderType) (now k id : ℕ) (m : ChatMessage)
    → is_unread k t (if is_unread id t m then read_message now m else m)
      ≡ (if id == k then false else is_unread k t m)
read_self t now k id m = elim (Bool-cases (id == k)) [
  | inl same ↦ elim (Bool-cases (is_unread id t m)) [
    | inl hit ↦ rw (hit, same) (ground arith)
    | inr miss ↦ rw (miss, same) (rw ((==_iff id k).0 same) at miss)
  ]
  | inr other ↦ elim (Bool-cases (is_unread id t m)) [
    | inl hit ↦ rw (hit, other) (ground arith)
    | inr miss ↦ rw (miss, other)
  ]
]

count-read_self :
    (t : SenderType) (now k id : ℕ) (ms : List ChatMessage)
    → count (is_unread k t) (update_many (is_unread id t) (read_message now) ms)
      ≡ (if id == k then 0 else count (is_unread k t) ms)
count-read_self t now k id [] = ground arith
count-read_self t now k id (m ∷ ms) =
    rw (read_self t now k id m, count-read_self t now k id ms)
      (elim (Bool-cases (id == k)) [ inl same ↦ rw same | inr other ↦ rw other ])

count-read_ne :
    (t u : SenderType) (now k id : ℕ) (ms : List ChatMessage)
    → ((x : SenderType) → (same_sender x t && same_sender x u) ≡ false)
    → count (is_unread k u) (update_many (is_unread id t) (read_message now) ms)
      ≡ count (is_unread k u) ms
count-read_ne t u now k id [] apart = refl
count-read_ne t u now k id (m ∷ ms) apart =
    ground (arith, count-read_ne t u now k id ms apart, apart m.sender_type)

user_or_admin :
    (x : SenderType) → (same_sender x SenderType.user && same_sender x SenderType.admin) ≡ false
user_or_admin SenderType.user = refl
user_or_admin SenderType.admin = refl
user_or_admin SenderType.system = refl

admin_or_user :
    (x : SenderType) → (same_sender x SenderType.admin && same_sender x SenderType.user) ≡ false
admin_or_user SenderType.user = refl
admin_or_user SenderType.admin = refl
admin_or_user SenderType.system = refl

-- Reading clears one counter and the messages that it counts, and leaves the others.
module _ (now id : ℕ) (s : Chat) (c : ChatConversation)
    (found : find_unique conversation_key id s.conversations ≡ some c) where
  pub read_by_admin-IsCounted : IsCounted s → IsCounted (read_by now id Reader.admin s)
  read_by_admin-IsCounted i = record {
    admin_exact = λ k. rw (
      counter-update (λ x. x.unread_admin_count) (clear_unread Reader.admin) k id s.conversations c
          (λ x. refl) found,
      count-read_self SenderType.user now k id s.messages,
      i.admin_exact k,
    );
    user_covers = λ k.
        rw
          (
            counter-update (λ x. x.unread_user_count) (clear_unread Reader.admin) k id
                s.conversations c (λ x. refl) found,
            count-read_ne SenderType.user SenderType.admin now k id s.messages user_or_admin,
          )
          (ground (arith, i.user_covers k));
  }

  pub read_by_user-IsCounted : IsCounted s → IsCounted (read_by now id Reader.user s)
  read_by_user-IsCounted i = record {
    admin_exact = λ k.
        rw
          (
            counter-update (λ x. x.unread_admin_count) (clear_unread Reader.user) k id
                s.conversations c (λ x. refl) found,
            count-read_ne SenderType.admin SenderType.user now k id s.messages admin_or_user,
          )
          (ground (arith, i.admin_exact k));
    user_covers = λ k.
        rw
          (
            counter-update (λ x. x.unread_user_count) (clear_unread Reader.user) k id
                s.conversations c (λ x. refl) found,
            count-read_self SenderType.admin now k id s.messages,
          )
          (ground (arith, i.user_covers k));
  }
