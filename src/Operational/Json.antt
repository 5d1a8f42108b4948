-- ===== src/Operational/Json.antt =====
-- `json_escape` and the loop over the objects of a report, of MemoryLatencyAnalyzer_linux/src/operational_lab.cpp,
-- defensive_lab.cpp and evaluation_lab.cpp beside it, the same code in each, and a reader of what `json_escape`
-- writes.
use memory_latency_analyzer.Base.{
  suc, Bool, List, ℕ, ◌≡◌, refl, false, Option, none, some, [], ◌∷◌, ◌++◌, arith, ◌==◌,
  if◌then◌else◌, Bool-cases, inl, inr,
}
use memory_latency_analyzer.Base.Text.{Bytes, codes}

-- The branch of the switch for a character.
unfoldable pub escape_char : ℕ → Bytes
escape_char c =
    if c == b'\\'
    then b'\\' ∷ b'\\' ∷ []
    else if c == b'"'
    then b'\\' ∷ b'"' ∷ []
    else if c == 10
    then b'\\' ∷ b'n' ∷ []
    else if c == 13
    then b'\\' ∷ b'r' ∷ []
    else if c == 9
    then b'\\' ∷ b't' ∷ []
    else c ∷ []

unfoldable pub json_escape : Bytes → Bytes
unfolding escape_char
json_escape [] = []
json_escape (c ∷ s) = escape_char c ++ json_escape s

-- `(b ? "true" : "false")`.
abbrev pub bool_word : Bool → Bytes
bool_word b = if b then codes "true" else codes "false"

-- The comma behind each object of a list but the last.
abbrev pub separator : (total i : ℕ) → Bytes
separator total i = if suc i == total then [] else codes ","

module _ {A : Type 0} (pieces : A → List Bytes → List Bytes) where
  -- The loop that writes the objects of a list of `total`, from index `i` on: what the stream gets.
  unfoldable pub members_from : (total i : ℕ) → List A → List Bytes → List Bytes
  members_from total i [] rest = rest
  members_from total i (x ∷ xs) rest =
      pieces x (separator total i ∷ codes "\n" ∷ members_from total (suc i) xs rest)

-- The character that JSON reads behind a backslash, as far as `json_escape` writes it.
abbrev pub unescape_char : ℕ → ℕ
unescape_char c = if c == b'n' then 10 else if c == b'r' then 13 else if c == b't' then 9 else c

-- A JSON reader of the inside of a string literal: `none` is a quote that ends it, or a lone backslash.
unfoldable pub read_literal : Bytes → Option Bytes
read_literal [] = some []
read_literal (c ∷ []) = if c == b'\\' then none else if c == b'"' then none else some (c ∷ [])
read_literal (c ∷ d ∷ s) =
    let escaped = read_literal s in
    let plain = read_literal (d ∷ s) in
    if c == b'\\'
    then elim escaped [ none ↦ none | some t ↦ some (unescape_char d ∷ t) ]
    else if c == b'"'
    then none
    else elim plain [ none ↦ none | some t ↦ some (c ∷ t) ]

abbrev pub push : ℕ → Option Bytes → Option Bytes
push c none = none
push c (some t) = some (c ∷ t)

read_plain :
    (c : ℕ) (s : Bytes)
    → (c == b'\\') ≡ false
    → (c == b'"') ≡ false
    → read_literal (c ∷ s) ≡ push c (read_literal s)
unfolding read_literal
read_plain c [] h k = rw (h, k) refl
read_plain c (d ∷ s) h k = ground (arith, h, k)

read_escaped :
    (d : ℕ) (s : Bytes) → read_literal (b'\\' ∷ d ∷ s) ≡ push (unescape_char d) (read_literal s)
unfolding read_literal
read_escaped d s = ground arith

read_char : (c : ℕ) (s : Bytes) → read_literal (escape_char c ++ s) ≡ push c (read_literal s)
read_char c s =
    unfold escape_char in
    elim (Bool-cases (c == b'\\')) [
      | inl e ↦ let same : c ≡ b'\\' = ground arith in rw same (read_escaped b'\\' s)
      | inr e1 ↦ elim (Bool-cases (c == b'"')) [
        | inl e ↦ let same : c ≡ b'"' = ground arith in rw same (read_escaped b'"' s)
        | inr e2 ↦ elim (Bool-cases (c == 10)) [
          | inl e ↦ let same : c ≡ 10 = ground arith in rw same (read_escaped b'n' s)
          | inr e3 ↦ elim (Bool-cases (c == 13)) [
            | inl e ↦ let same : c ≡ 13 = ground arith in rw same (read_escaped b'r' s)
            | inr e4 ↦ elim (Bool-cases (c == 9)) [
              | inl e ↦ let same : c ≡ 9 = ground arith in rw same (read_escaped b't' s)
              | inr e5 ↦ rw (e1, e2, e3, e4, e5) (read_plain c s e1 e2)
            ]
          ]
        ]
      ]
    ]

-- Every text comes back when a reader of JSON string literals reads what `json_escape` has written: no quote or
-- backslash of the text ends the literal or is lost.
pub read_literal-json_escape : (s : Bytes) → read_literal (json_escape s) ≡ some s
unfolding json_escape
read_literal-json_escape [] = unfold read_literal in refl
read_literal-json_escape (c ∷ s) = rw (read_char c (json_escape s), read_literal-json_escape s) refl
