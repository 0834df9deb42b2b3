-- ===== src/Support/Csv/RoundTrip.antt =====
-- The export as CSV, read back.
use mathlib.Core.List.{append-nil}
use crypto_sim_backend.Common.{
  ℕ, ◌≡◌, refl, sym, true, List, [], ◌∷◌, ◌++◌, map, Option, some, Text, text, All, All-append,
}
use crypto_sim_backend.Support.Rows.{Chat, ChatConversation, ChatMessage, ChatUser, chat_user_key}
use crypto_sim_backend.Common.Table.{find_unique}
use crypto_sim_backend.Support.Queries.{ExportFilters, export_conversations}
use crypto_sim_backend.Support.Csv.{
  headers, join, csv_line, conversation_rows, export_rows, export_conversations_as_csv,
}
use crypto_sim_backend.Support.Csv.Reading.{
  Mode, Rows, read_csv, is_bare, IsFilled, read-csv_line, read-header_line, line_end-read,
}

abbrev lines_behind : List Text → Text
lines_behind [] = []
lines_behind (line ∷ lines) = 10 ∷ join (10 ∷ []) (line ∷ lines)

join-lines :
    (line : Text) (lines : List Text) → join (10 ∷ []) (line ∷ lines) ≡ line ++ lines_behind lines
join-lines line [] = sym (append-nil line)
join-lines line (next ∷ lines) = refl

read-behind :
    (rows : Rows)
    → All IsFilled rows
    → (read_csv Mode.quote_seen (lines_behind (map csv_line rows)) ≡ some (([] ∷ []) ∷ rows))
      × (read_csv Mode.bare (lines_behind (map csv_line rows)) ≡ some (([] ∷ []) ∷ rows))
read-behind [] f = unfold read_csv in (refl, refl)
read-behind (row ∷ rows) ((x, r, e), f) =
    line_end-read (join (10 ∷ []) (map csv_line (row ∷ rows))) (row ∷ rows) (
      rw (join-lines (csv_line row) (map csv_line rows), e)
        (read-csv_line x r (lines_behind (map csv_line rows)) rows (read-behind rows f).0))

module _ (id_text time_text : ℕ → Text) where
  conversation_rows-IsFilled :
      (u : Option ChatUser) (c : ChatConversation) (ms : List ChatMessage)
      → All IsFilled (conversation_rows id_text time_text u c ms)
  conversation_rows-IsFilled u c [] = ((id_text c.id, _, refl), tt)
  conversation_rows-IsFilled u c (m ∷ []) = ((id_text c.id, _, refl), tt)
  conversation_rows-IsFilled u c (m ∷ n ∷ ms) =
      ((id_text c.id, _, refl), conversation_rows-IsFilled u c (n ∷ ms))

  export_rows-IsFilled :
      (s : Chat) (cs : List (ChatConversation × List ChatMessage))
      → All IsFilled (export_rows id_text time_text s cs)
  export_rows-IsFilled s [] = tt
  export_rows-IsFilled s ((c, ms) ∷ cs) =
      All-append IsFilled
        (conversation_rows id_text time_text (find_unique chat_user_key c.user_id s.users) c ms)
        (export_rows id_text time_text s cs)
        (conversation_rows-IsFilled (find_unique chat_user_key c.user_id s.users) c ms)
        (export_rows-IsFilled s cs)

headers-are_bare : All (λ cell. is_bare cell ≡ true) headers
headers-are_bare = (
  refl,
  (
    refl,
    (
      refl,
      (
        refl,
        (
          refl,
          (
            refl,
            (refl, (refl, (refl, (refl, (refl, (refl, (refl, (refl, (refl, (refl, tt)))))))))),
          ),
        ),
      ),
    ),
  ),
)

-- The export is read back to its rows: whatever the cells hold, quotes, commas and line ends included,
-- the reader gets the header and then the row of every message.
pub read-export :
    (id_text time_text : ℕ → Text) (f : ExportFilters) (s : Chat)
    → read_csv Mode.before (export_conversations_as_csv id_text time_text f s)
      ≡ some (headers ∷ export_rows id_text time_text s (export_conversations f s))
unfolding export_conversations_as_csv
read-export id_text time_text f s =
    let rows = export_rows id_text time_text s (export_conversations f s) in
    rw (join-lines (join (b',' ∷ []) headers) (map csv_line rows)) (
      read-header_line (text "对话ID") _ (lines_behind (map csv_line rows)) rows headers-are_bare
        (read-behind rows (export_rows-IsFilled id_text time_text s (export_conversations f s))).1)
