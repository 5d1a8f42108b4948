-- ===== src/Report/Reader.antt =====
-- A reader of CSV files with quoted cells, against which the files of MemoryLatencyAnalyzer_linux/src/reporter.cpp are
-- held: a quote at the start of a cell opens it, and two quotes inside stand for one.
use memory_latency_analyzer.Base.{
  ℕ, ◌≡◌, refl, Bool, true, false, ◌&&◌, ◌||◌, not, List, [], ◌∷◌, ◌++◌, arith, ◌==◌, if◌then◌else◌,
  All, ap,
}
use memory_latency_analyzer.Base.Text.{Bytes}

-- Where the reader stands: at the start of a cell, in one without quotes, in quotes, or behind a quote in quotes.
pub data Place : Type 0 where
  fresh : Place
  plain : Place
  quoted : Place
  closed : Place

abbrev pub Row : Type 0
Row = List Bytes

-- What is left of the cell, the cells behind it, the rows behind its row.
abbrev pub Parsed : Type 0
Parsed = Bytes × Row × List Row

abbrev pub unquoted : ℕ → Place
unquoted c = if c == b',' || c == 10 then fresh else plain

unfoldable pub next : Place → ℕ → Place
next fresh c = if c == b'"' then quoted else unquoted c
next plain c = unquoted c
next quoted c = if c == b'"' then closed else quoted
next closed c = if c == b'"' then quoted else unquoted c

-- Whether the character belongs to the cell.
abbrev pub is_content : Place → ℕ → Bool
is_content fresh c = not (c == b'"')
is_content plain c = true
is_content quoted c = not (c == b'"')
is_content closed c = true

abbrev pub in_quotes : Place → Bool
in_quotes quoted = true
in_quotes _ = false

abbrev pub push_char : ℕ → Parsed → Parsed
push_char c (cell, cells, rows) = (c ∷ cell, cells, rows)

abbrev pub new_cell : Parsed → Parsed
new_cell (cell, cells, rows) = ([], cell ∷ cells, rows)

-- The rows of a text and what its first cell was read as: an empty text has none.
abbrev pub rows_of : Bytes → Parsed → List Row
rows_of [] p = []
rows_of (c ∷ s) (cell, cells, rows) = (cell ∷ cells) ∷ rows

abbrev pub take_char : Place → ℕ → Bytes → Parsed → Parsed
take_char place c s p =
    if not (in_quotes place) && (c == b',')
    then new_cell p
    else if not (in_quotes place) && (c == 10)
    then ([], [], rows_of s p)
    else if is_content place c
    then push_char c p
    else p

unfoldable pub read_from : Place → Bytes → Parsed
unfolding next
read_from place [] = ([], [], [])
read_from place (c ∷ s) = take_char place c s (read_from (next place c) s)

unfoldable pub read_csv : Bytes → List Row
unfolding read_from
read_csv s = rows_of s (read_from fresh s)

abbrev pub push_all : Bytes → Parsed → Parsed
push_all [] p = p
push_all (c ∷ cs) p = push_char c (push_all cs p)

-- A cell that needs no quotes.
abbrev pub is_bare : ℕ → Bool
is_bare c = not (c == b',') && not (c == b'"') && not (c == 10)

abbrev pub IsBare : Bytes → Type 0
IsBare s = All (λ c. is_bare c ≡ true) s

-- A cell that is safe in quotes.
abbrev pub HasNoQuote : Bytes → Type 0
HasNoQuote s = All (λ c. (c == b'"') ≡ false) s

pub read_bare_char :
    (c : ℕ) (s : Bytes)
    → is_bare c ≡ true
    → read_from plain (c ∷ s) ≡ push_char c (read_from plain s)
unfolding read_from next
read_bare_char c s h = ground arith

read_first_char :
    (c : ℕ) (s : Bytes)
    → is_bare c ≡ true
    → read_from fresh (c ∷ s) ≡ push_char c (read_from plain s)
unfolding read_from next
read_first_char c s h = ground arith

read_quoted_char :
    (c : ℕ) (s : Bytes)
    → (c == b'"') ≡ false
    → read_from quoted (c ∷ s) ≡ push_char c (read_from quoted s)
unfolding read_from next
read_quoted_char c s h = ground arith

read_plain :
    (cell s : Bytes) → IsBare cell → read_from plain (cell ++ s) ≡ push_all cell (read_from plain s)
read_plain [] s h = refl
read_plain (c ∷ cell) s h = rw (read_bare_char c (cell ++ s) h.0, read_plain cell s h.1)

read_fresh :
    (cell s : Bytes)
    → IsBare cell
    → read_from plain s ≡ read_from fresh s
    → read_from fresh (cell ++ s) ≡ push_all cell (read_from fresh s)
read_fresh [] s h same = refl
read_fresh (c ∷ cell) s h same = rw (read_first_char c (cell ++ s) h.0, read_plain cell s h.1, same)

read_inside :
    (cell s : Bytes)
    → HasNoQuote cell
    → read_from quoted (cell ++ s) ≡ push_all cell (read_from quoted s)
read_inside [] s h = refl
read_inside (c ∷ cell) s h = rw (read_quoted_char c (cell ++ s) h.0, read_inside cell s h.1)

push_all_lem :
    (cell : Bytes) (cells : Row) (rows : List Row)
    → push_all cell ([], cells, rows) ≡ (cell, cells, rows)
push_all_lem [] cells rows = refl
push_all_lem (c ∷ cell) cells rows = ap (push_char c) (push_all_lem cell cells rows)

-- A bare cell with a comma behind it.
pub read_comma :
    (cell s : Bytes) {c : Bytes} {cells : Row} {rows : List Row}
    → IsBare cell
    → read_from fresh s ≡ (c, cells, rows)
    → read_from fresh (cell ++ b',' ∷ s) ≡ (cell, c ∷ cells, rows)
unfolding read_from next
read_comma cell s {c} {cells} {rows} h e =
    let start : read_from fresh (b',' ∷ s) ≡ ([], c ∷ cells, rows) = ap new_cell e in
    rw (read_fresh cell (b',' ∷ s) h refl, start) (push_all_lem cell (c ∷ cells) rows)

-- A cell in quotes with a comma behind it.
pub read_quotes :
    (cell s : Bytes) {c : Bytes} {cells : Row} {rows : List Row}
    → HasNoQuote cell
    → read_from fresh s ≡ (c, cells, rows)
    → read_from fresh (b'"' ∷ (cell ++ b'"' ∷ b',' ∷ s)) ≡ (cell, c ∷ cells, rows)
unfolding read_from next
read_quotes cell s {c} {cells} {rows} h e =
    let start : read_from quoted (b'"' ∷ b',' ∷ s) ≡ ([], c ∷ cells, rows) = ap new_cell e in
    rw (read_inside cell (b'"' ∷ b',' ∷ s) h, start) (push_all_lem cell (c ∷ cells) rows)

-- A bare cell at the end of its row.
pub read_line :
    (cell s : Bytes) → IsBare cell → read_from fresh (cell ++ 10 ∷ s) ≡ (cell, [], read_csv s)
unfolding read_from next
read_line cell s h =
    rw (read_fresh cell (10 ∷ s) h refl) (unfold read_csv in push_all_lem cell [] _)

-- The first row of a text that is not empty.
pub read_csv-row :
    (d : ℕ) (s : Bytes) {c : Bytes} {cells : Row} {rows : List Row}
    → read_from fresh (d ∷ s) ≡ (c, cells, rows)
    → read_csv (d ∷ s) ≡ (c ∷ cells) ∷ rows
read_csv-row d s e = unfold read_csv in ap (rows_of (d ∷ s)) e
