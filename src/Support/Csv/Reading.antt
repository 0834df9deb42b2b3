-- ===== src/Support/Csv/Reading.antt =====
-- A reader of comma-separated values, written from the format and not from the export, and what it
-- gives back of a line: a cell in quotes, where two quotes stand for one, or a cell without.
use mathlib.Core.Option
use mathlib.Core.List.{append_assoc}
use crypto_sim_backend.Common.{
  ℕ, ◌≡◌, refl, ◌==◌, if◌then◌else◌, Bool, true, false, List, [], ◌∷◌, ◌++◌, Option, none, some,
  Text, All, Bool-cases, inl, inr, arith,
}
use crypto_sim_backend.Support.Csv.{join, escape, quoted, csv_line}

-- Where the reader is: before a cell, in one without quotes, in one with quotes, behind a quote there.
pub data Mode : Type 0 where
  before bare inside quote_seen : Mode

-- What a code point does to the table read from what follows it.
pub data Edit : Type 0 where
  keep : Edit
  put : ℕ → Edit
  end_cell end_row : Edit

abbrev pub Rows : Type 0
Rows = List (List Text)

abbrev pub put_char : ℕ → Rows → Rows
put_char c ((x ∷ row) ∷ rows) = ((c ∷ x) ∷ row) ∷ rows
put_char c rows = rows

abbrev pub open_cell : Rows → Rows
open_cell (row ∷ rows) = ([] ∷ row) ∷ rows
open_cell [] = []

abbrev pub edit : Edit → Rows → Rows
edit Edit.keep rows = rows
edit (Edit.put c) rows = put_char c rows
edit Edit.end_cell rows = open_cell rows
edit Edit.end_row rows = ([] ∷ []) ∷ rows

abbrev pub end_or : ℕ → Option (Mode × Edit) → Option (Mode × Edit)
end_or c other =
    if c == b','
    then some (Mode.before, Edit.end_cell)
    else (if c == 10 then some (Mode.before, Edit.end_row) else other)

abbrev pub move : Mode → ℕ → Option (Mode × Edit)
move Mode.before c =
    if c == b'"' then some (Mode.inside, Edit.keep) else end_or c (some (Mode.bare, Edit.put c))
move Mode.bare c = if c == b'"' then none else end_or c (some (Mode.bare, Edit.put c))
move Mode.inside c =
    if c == b'"' then some (Mode.quote_seen, Edit.keep) else some (Mode.inside, Edit.put c)
move Mode.quote_seen c = if c == b'"' then some (Mode.inside, Edit.put c) else end_or c none

-- The table read, its first cell what is left of the cell that the reader is in.
unfoldable pub read_csv : Mode → Text → Option Rows
read_csv Mode.inside [] = none
read_csv Mode.before [] = some (([] ∷ []) ∷ [])
read_csv Mode.bare [] = some (([] ∷ []) ∷ [])
read_csv Mode.quote_seen [] = some (([] ∷ []) ∷ [])
read_csv mode (c ∷ s) = elim (move mode c) [
  | none ↦ none
  | some (next, e) ↦ Option.map (edit e) (read_csv next s)
]

-- What a read cell adds to the table behind it.
abbrev put_text : Text → Rows → Rows
put_text [] rows = rows
put_text (c ∷ s) rows = put_char c (put_text s rows)

read-escape :
    (cell rest : Text) (rows : Rows)
    → read_csv Mode.quote_seen rest ≡ some rows
    → read_csv Mode.inside (escape cell ++ (b'"' ∷ rest)) ≡ some (put_text cell rows)
unfolding read_csv escape
read-escape [] rest rows h = rw h
read-escape (c ∷ cell) rest rows h = elim (Bool-cases (c == b'"')) [
  | inl quote ↦ rw quote (ground (arith, read-escape cell rest rows))
  | inr other ↦ rw other (ground (arith, read-escape cell rest rows))
]

put_text_lem :
    (cell : Text) (row : List Text) (rows : Rows)
    → put_text cell (([] ∷ row) ∷ rows) ≡ (cell ∷ row) ∷ rows
put_text_lem [] row rows = refl
put_text_lem (c ∷ cell) row rows = rw (put_text_lem cell row rows)

read-quoted :
    (cell rest : Text) (row : List Text) (rows : Rows)
    → read_csv Mode.quote_seen rest ≡ some (([] ∷ row) ∷ rows)
    → read_csv Mode.before (quoted cell ++ rest) ≡ some ((cell ∷ row) ∷ rows)
unfolding read_csv
read-quoted cell rest row rows h = rw (
  append_assoc (escape cell) (b'"' ∷ []) rest,
  read-escape cell rest (([] ∷ row) ∷ rows) h,
  put_text_lem cell row rows,
)

-- A cell without quotes: not empty, and with none of the three signs.
abbrev pub is_plain : ℕ → Bool
is_plain c =
    if c == b'"' then false else (if c == b',' then false else (if c == 10 then false else true))

abbrev pub all_plain : Text → Bool
all_plain [] = true
all_plain (c ∷ s) = if is_plain c then all_plain s else false

abbrev pub is_bare : Text → Bool
is_bare [] = false
is_bare (c ∷ s) = all_plain (c ∷ s)

read-bare :
    (cell rest : Text) (rows : Rows)
    → all_plain cell ≡ true
    → read_csv Mode.bare rest ≡ some rows
    → read_csv Mode.bare (cell ++ rest) ≡ some (put_text cell rows)
unfolding read_csv
read-bare [] rest rows p h = h
read-bare (c ∷ cell) rest rows p h = ground (arith, read-bare cell rest rows)

read-bare_cell :
    (cell rest : Text) (row : List Text) (rows : Rows)
    → is_bare cell ≡ true
    → read_csv Mode.bare rest ≡ some (([] ∷ row) ∷ rows)
    → read_csv Mode.before (cell ++ rest) ≡ some ((cell ∷ row) ∷ rows)
unfolding read_csv
read-bare_cell [] rest row rows p h = cc
read-bare_cell (c ∷ cell) rest row rows p h =
    ground (arith, read-bare cell rest (([] ∷ row) ∷ rows), put_text_lem cell row rows)

abbrev pub IsFilled : List Text → Type 0
IsFilled row = (x : Text) × (r : List Text) × (row ≡ x ∷ r)

comma-read :
    (s : Text) (row : List Text) (rows : Rows)
    → read_csv Mode.before s ≡ some (row ∷ rows)
    → (read_csv Mode.quote_seen (b',' ∷ s) ≡ some (([] ∷ row) ∷ rows))
      × (read_csv Mode.bare (b',' ∷ s) ≡ some (([] ∷ row) ∷ rows))
unfolding read_csv
comma-read s row rows h = (rw h, rw h)

pub line_end-read :
    (s : Text) (rows : Rows)
    → read_csv Mode.before s ≡ some rows
    → (read_csv Mode.quote_seen (10 ∷ s) ≡ some (([] ∷ []) ∷ rows))
      × (read_csv Mode.bare (10 ∷ s) ≡ some (([] ∷ []) ∷ rows))
unfolding read_csv
line_end-read s rows h = (rw h, rw h)

-- A line is read back, before the end of the text or of the line.
pub read-csv_line :
    (x : Text) (row : List Text) (rest : Text) (rows : Rows)
    → read_csv Mode.quote_seen rest ≡ some (([] ∷ []) ∷ rows)
    → read_csv Mode.before (csv_line (x ∷ row) ++ rest) ≡ some ((x ∷ row) ∷ rows)
read-csv_line x [] rest rows h = read-quoted x rest [] rows h
read-csv_line x (y ∷ row) rest rows h =
    rw (append_assoc (quoted x) (b',' ∷ csv_line (y ∷ row)) rest) (
      read-quoted x (b',' ∷ (csv_line (y ∷ row) ++ rest)) (y ∷ row) rows
        (comma-read (csv_line (y ∷ row) ++ rest) (y ∷ row) rows
          (read-csv_line y row rest rows h)).0)

pub read-header_line :
    (x : Text) (row : List Text) (rest : Text) (rows : Rows)
    → All (λ cell. is_bare cell ≡ true) (x ∷ row)
    → read_csv Mode.bare rest ≡ some (([] ∷ []) ∷ rows)
    → read_csv Mode.before (join (b',' ∷ []) (x ∷ row) ++ rest) ≡ some ((x ∷ row) ∷ rows)
read-header_line x [] rest rows p h = read-bare_cell x rest [] rows p.0 h
read-header_line x (y ∷ row) rest rows p h =
    rw (append_assoc x (b',' ∷ join (b',' ∷ []) (y ∷ row)) rest) (
      read-bare_cell x (b',' ∷ (join (b',' ∷ []) (y ∷ row) ++ rest)) (y ∷ row) rows p.0
        (comma-read (join (b',' ∷ []) (y ∷ row) ++ rest) (y ∷ row) rows
          (read-header_line y row rest rows p.1 h)).1)
