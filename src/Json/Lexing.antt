-- ===== src/Json/Lexing.antt =====
-- How the pieces of a report are read: texts behind `json_escape`, words, and the lines of the reports.
use memory_latency_analyzer.Base.{
  ℕ, zero, suc, ◌≡◌, refl, ap, ◌∙◌, ◌⊎◌, Bool, not, true, false, ◌&&◌, ◌||◌, some, List, [], ◌∷◌,
  ◌++◌, arith, ltb, ◌==◌, if◌then◌else◌, All, replicate, Bool-cases, inl, inr,
}
use mathlib.Core.List.{append_assoc}
use memory_latency_analyzer.Base.Text.{Bytes}
use memory_latency_analyzer.Operational.Json.{escape_char, json_escape}
use memory_latency_analyzer.Json.Tokens.{
  Token, colon, text, outside, in_text, Lexed, is_delimiter, next, act, unescape, push_char,
  push_token, is_blank, end_text, punctuation, lex_from,
}

-- The characters that `json_escape` makes fit for JSON: all but the control characters that it does not know.
abbrev pub is_plain : ℕ → Bool
is_plain c = if ltb c 32 then (c == 9 || c == 10 || c == 13) else true

abbrev pub IsPlain : Bytes → Type 0
IsPlain s = All (λ c. is_plain c ≡ true) s

lex_escaped :
    (c d : ℕ) (s : Bytes)
    → unescape d ≡ some c
    → lex_from in_text (b'\\' ∷ d ∷ s) ≡ push_char c (lex_from in_text s)
unfolding lex_from next act
lex_escaped c d s h = rw h refl

lex_char :
    (c : ℕ) (s : Bytes)
    → (c == b'"' || c == b'\\') ≡ false
    → ltb c 32 ≡ false
    → lex_from in_text (c ∷ s) ≡ push_char c (lex_from in_text s)
unfolding lex_from next act
lex_char c s h k = ground (arith, h, k)

-- What `json_escape` writes for a character: an escape that stands for it, or the character, which needs none.
abbrev EscapeOf : ℕ → Type 0
EscapeOf c =
    ((d : ℕ) × (escape_char c ≡ b'\\' ∷ d ∷ []) × (unescape d ≡ some c))
    ⊎ (escape_char c ≡ c ∷ [])
      × ((c == b'"' || c == b'\\') ≡ false)
      × ((c == 9 || c == 10 || c == 13) ≡ false)

escape_of :
    (c d : ℕ) → unescape d ≡ some d → (c == d) ≡ true → escape_char d ≡ b'\\' ∷ d ∷ [] → EscapeOf c
escape_of c d h e w = let same : c ≡ d = ground arith in rw same (inl (d, w, h))

escape_cases : (c : ℕ) → EscapeOf c
unfolding escape_char unescape
escape_cases c = elim (Bool-cases (c == b'\\')) [
  | inl e ↦ escape_of c b'\\' refl e refl
  | inr e1 ↦ elim (Bool-cases (c == b'"')) [
    | inl e ↦ escape_of c b'"' refl e refl
    | inr e2 ↦ elim (Bool-cases (c == 10)) [
      | inl e ↦ let same : c ≡ 10 = ground arith in rw same (inl (b'n', refl, refl))
      | inr e3 ↦ elim (Bool-cases (c == 13)) [
        | inl e ↦ let same : c ≡ 13 = ground arith in rw same (inl (b'r', refl, refl))
        | inr e4 ↦ elim (Bool-cases (c == 9)) [
          | inl e ↦ let same : c ≡ 9 = ground arith in rw same (inl (b't', refl, refl))
          | inr e5 ↦ inr (rw (e1, e2, e3, e4, e5) (refl, refl, refl))
        ]
      ]
    ]
  ]
]

lex_escape_char :
    (c : ℕ) (s : Bytes)
    → is_plain c ≡ true
    → lex_from in_text (escape_char c ++ s) ≡ push_char c (lex_from in_text s)
lex_escape_char c s h = elim (escape_cases c) [
  | inl (d, w, e) ↦ rw w (lex_escaped c d s e)
  | inr (w, e, k) ↦ let large : ltb c 32 ≡ false = ground arith in rw w (lex_char c s e large)
]

abbrev pub push_all : Bytes → Lexed → Lexed
push_all [] p = p
push_all (c ∷ s) p = push_char c (push_all s p)

pub push_all_lem : (t : Bytes) (ts : List Token) → push_all t (some ([], ts)) ≡ some (t, ts)
push_all_lem [] ts = refl
push_all_lem (c ∷ t) ts = ap (push_char c) (push_all_lem t ts)

lex_json_escape :
    (t s : Bytes)
    → IsPlain t
    → lex_from in_text (json_escape t ++ s) ≡ push_all t (lex_from in_text s)
unfolding json_escape
lex_json_escape [] s h = refl
lex_json_escape (c ∷ t) s h =
    rw (append_assoc (escape_char c) (json_escape t) s)
      (lex_escape_char c (json_escape t ++ s) h.0 ∙ ap (push_char c) (lex_json_escape t s h.1))

-- A text is read as tokens.
abbrev pub Reads : Bytes → List Token → Type 0
Reads s ts = lex_from outside s ≡ some ([], ts)

-- A string in quotes.
pub Reads-text :
    (t s : Bytes) {ts : List Token}
    → IsPlain t
    → Reads s ts
    → Reads (b'"' ∷ (json_escape t ++ b'"' ∷ s)) (text t ∷ ts)
unfolding lex_from next act
Reads-text t s {ts} h e =
    let inside : lex_from in_text (json_escape t ++ b'"' ∷ s) ≡ some (t, ts) =
      lex_json_escape t (b'"' ∷ s) h ∙ ap (push_all t) e ∙ push_all_lem t ts in
    ap end_text inside

-- A text that needs no escapes.
abbrev pub is_simple : Bytes → Bool
is_simple [] = true
is_simple (c ∷ s) = (not (c == b'"' || c == b'\\') && not (ltb c 32)) && is_simple s

abbrev pub IsSimple : Bytes → Type 0
IsSimple s = is_simple s ≡ true

IsSimple-head :
    (c : ℕ) (s : Bytes)
    → IsSimple (c ∷ s)
    → ((c == b'"' || c == b'\\') ≡ false) × (ltb c 32 ≡ false) × IsSimple s
IsSimple-head c s h = ground arith

lex_simple :
    (t s : Bytes) → IsSimple t → lex_from in_text (t ++ s) ≡ push_all t (lex_from in_text s)
lex_simple [] s h = refl
lex_simple (c ∷ t) s h =
    let (a, b, rest) = IsSimple-head c t h in
    lex_char c (t ++ s) a b ∙ ap (push_char c) (lex_simple t s rest)

-- A name and the colon behind it.
pub Reads-key :
    (name s : Bytes) {ts : List Token}
    → IsSimple name
    → Reads s ts
    → Reads (b'"' ∷ (name ++ b'"' ∷ b':' ∷ b' ' ∷ s)) (text name ∷ colon ∷ ts)
unfolding lex_from next act
Reads-key name s {ts} h e =
    let behind : lex_from in_text (b'"' ∷ b':' ∷ b' ' ∷ s) ≡ some ([], colon ∷ ts) =
      ap (push_token (some colon)) e in
    let inside : lex_from in_text (name ++ b'"' ∷ b':' ∷ b' ' ∷ s) ≡ some (name, colon ∷ ts) =
      lex_simple name (b'"' ∷ b':' ∷ b' ' ∷ s) h
      ∙ ap (push_all name) behind
      ∙ push_all_lem name (colon ∷ ts) in
    ap end_text inside

-- A string of the program in quotes.
pub Reads-constant :
    (t s : Bytes) {ts : List Token}
    → IsSimple t
    → Reads s ts
    → Reads (b'"' ∷ (t ++ b'"' ∷ s)) (text t ∷ ts)
unfolding lex_from next act
Reads-constant t s {ts} h e =
    let inside : lex_from in_text (t ++ b'"' ∷ s) ≡ some (t, ts) =
      lex_simple t (b'"' ∷ s) h ∙ ap (push_all t) e ∙ push_all_lem t ts in
    ap end_text inside

pub Reads-spaces :
    (n : ℕ) (s : Bytes) {ts : List Token} → Reads s ts → Reads (replicate n b' ' ++ s) ts
unfolding lex_from next act
Reads-spaces zero s e = e
Reads-spaces (suc n) s e = Reads-spaces n s e

pub Reads-newline : (s : Bytes) {ts : List Token} → Reads s ts → Reads (10 ∷ s) ts
unfolding lex_from next act
Reads-newline s e = e

-- The punctuation of JSON.
pub Reads-mark :
    (c : ℕ) (s : Bytes) {t : Token} {ts : List Token}
    → punctuation c ≡ some t
    → (c == b'"') ≡ false
    → Reads s ts
    → Reads (c ∷ s) (t ∷ ts)
unfolding lex_from next act is_delimiter
Reads-mark c s {t} {ts} known other e = elim (Bool-cases (is_blank c)) [
  | inl blank ↦ rw (other, known, blank) (ap (push_token (some t)) e)
  | inr solid ↦ rw (other, known, solid) (ap (push_token (some t)) e)
]
