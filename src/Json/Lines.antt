-- ===== src/Json/Lines.antt =====
-- How the lines of a report are read, indented, with the pieces between their constants.
use memory_latency_analyzer.Base.{
  ℕ, ◌≡◌, refl, Bool, true, false, List, [], ◌∷◌, ◌++◌, replicate, some, ◌==◌, if◌then◌else◌,
}
use memory_latency_analyzer.Base.Text.{Bytes, codes}
use memory_latency_analyzer.Operational.Json.{json_escape}
use memory_latency_analyzer.Json.Tokens.{
  Token, colon, comma, text, word, lex_from, next, act, is_number, punctuation,
}
use memory_latency_analyzer.Json.Lexing.{
  IsPlain, IsSimple, Reads, Reads-text, Reads-key, Reads-constant, Reads-spaces, Reads-newline,
  Reads-mark,
}
use memory_latency_analyzer.Json.Words.{Reads-number, Reads-word}

-- `(b ? "true" : "false")`.
abbrev pub bool_text : Bool → Bytes
bool_text b = if b then codes "true" else codes "false"

-- A name at its indentation.
abbrev pub key : ℕ → Bytes → Bytes → Bytes
key n name s = replicate n b' ' ++ b'"' ∷ (name ++ b'"' ∷ b':' ∷ b' ' ∷ s)

pub Reads-named :
    (n : ℕ) (name s : Bytes) {ts : List Token}
    → IsSimple name
    → Reads s ts
    → Reads (key n name s) (text name ∷ colon ∷ ts)
Reads-named n name s simple rest = Reads-spaces n _ (Reads-key name s simple rest)

pub Reads-end : Reads [] []
unfolding lex_from
Reads-end = refl

-- The ends of a line: a comma, or nothing.
pub Reads-comma : (s : Bytes) {ts : List Token} → Reads s ts → Reads (b',' ∷ 10 ∷ s) (comma ∷ ts)
Reads-comma s rest = Reads-mark b',' (10 ∷ s) refl refl (Reads-newline s rest)

module _ (s : Bytes) {ts : List Token} where
  pub number_comma :
      (w : Bytes)
      → is_number w ≡ true
      → Reads s ts
      → Reads (w ++ b',' ∷ 10 ∷ s) (word w ∷ comma ∷ ts)
  unfolding lex_from next act
  number_comma w h rest = Reads-number w (b',' ∷ 10 ∷ s) h refl (Reads-comma s rest)

  pub number_last :
      (w : Bytes) → is_number w ≡ true → Reads s ts → Reads (w ++ 10 ∷ s) (word w ∷ ts)
  unfolding lex_from next act
  number_last w h rest = Reads-number w (10 ∷ s) h refl (Reads-newline s rest)

  pub bool_comma :
      (b : Bool)
      → Reads s ts
      → Reads (bool_text b ++ b',' ∷ 10 ∷ s) (word (bool_text b) ∷ comma ∷ ts)
  unfolding lex_from next act
  bool_comma true rest =
      Reads-word b't' (codes "rue") (b',' ∷ 10 ∷ s) (refl, (refl, (refl, (refl, tt)))) refl
        (Reads-comma s rest)
  bool_comma false rest =
      Reads-word b'f' (codes "alse") (b',' ∷ 10 ∷ s) (refl, (refl, (refl, (refl, (refl, tt))))) refl
        (Reads-comma s rest)

  pub bool_last : (b : Bool) → Reads s ts → Reads (bool_text b ++ 10 ∷ s) (word (bool_text b) ∷ ts)
  unfolding lex_from next act
  bool_last true rest =
      Reads-word b't' (codes "rue") (10 ∷ s) (refl, (refl, (refl, (refl, tt)))) refl
        (Reads-newline s rest)
  bool_last false rest =
      Reads-word b'f' (codes "alse") (10 ∷ s) (refl, (refl, (refl, (refl, (refl, tt))))) refl
        (Reads-newline s rest)

  pub text_comma :
      (t : Bytes)
      → IsPlain t
      → Reads s ts
      → Reads (b'"' ∷ (json_escape t ++ b'"' ∷ b',' ∷ 10 ∷ s)) (text t ∷ comma ∷ ts)
  text_comma t h rest = Reads-text t (b',' ∷ 10 ∷ s) h (Reads-comma s rest)

  pub text_last :
      (t : Bytes)
      → IsPlain t
      → Reads s ts
      → Reads (b'"' ∷ (json_escape t ++ b'"' ∷ 10 ∷ s)) (text t ∷ ts)
  text_last t h rest = Reads-text t (10 ∷ s) h (Reads-newline s rest)

  pub constant_comma :
      (t : Bytes)
      → IsSimple t
      → Reads s ts
      → Reads (b'"' ∷ (t ++ b'"' ∷ b',' ∷ 10 ∷ s)) (text t ∷ comma ∷ ts)
  constant_comma t h rest = Reads-constant t (b',' ∷ 10 ∷ s) h (Reads-comma s rest)

  -- An opening mark at the end of its line, and a closing one at its indentation.
  pub mark_line :
      (c : ℕ) {t : Token}
      → punctuation c ≡ some t
      → (c == b'"') ≡ false
      → Reads s ts
      → Reads (c ∷ 10 ∷ s) (t ∷ ts)
  mark_line c known other rest = Reads-mark c (10 ∷ s) known other (Reads-newline s rest)

  pub mark_comma_line :
      (c : ℕ) {t : Token}
      → punctuation c ≡ some t
      → (c == b'"') ≡ false
      → Reads s ts
      → Reads (c ∷ b',' ∷ 10 ∷ s) (t ∷ comma ∷ ts)
  mark_comma_line c known other rest = Reads-mark c (b',' ∷ 10 ∷ s) known other (Reads-comma s rest)

  -- A whole line of an object: a name and its value.
  pub number_line :
      (n : ℕ) (name w : Bytes)
      → IsSimple name
      → is_number w ≡ true
      → Reads s ts
      → Reads (key n name (w ++ b',' ∷ 10 ∷ s)) (text name ∷ colon ∷ word w ∷ comma ∷ ts)
  number_line n name w simple h rest =
      Reads-named n name (w ++ b',' ∷ 10 ∷ s) simple (number_comma w h rest)

  pub bool_line :
      (n : ℕ) (name : Bytes) (b : Bool)
      → IsSimple name
      → Reads s ts
      → Reads
          (key n name (bool_text b ++ b',' ∷ 10 ∷ s))
          (text name ∷ colon ∷ word (bool_text b) ∷ comma ∷ ts)
  bool_line n name b simple rest =
      Reads-named n name (bool_text b ++ b',' ∷ 10 ∷ s) simple (bool_comma b rest)

  pub text_line :
      (n : ℕ) (name t : Bytes)
      → IsSimple name
      → IsPlain t
      → Reads s ts
      → Reads
          (key n name (b'"' ∷ (json_escape t ++ b'"' ∷ b',' ∷ 10 ∷ s)))
          (text name ∷ colon ∷ text t ∷ comma ∷ ts)
  text_line n name t simple h rest =
      Reads-named n name (b'"' ∷ (json_escape t ++ b'"' ∷ b',' ∷ 10 ∷ s)) simple
        (text_comma t h rest)

  pub constant_line :
      (n : ℕ) (name t : Bytes)
      → IsSimple name
      → IsSimple t
      → Reads s ts
      → Reads
          (key n name (b'"' ∷ (t ++ b'"' ∷ b',' ∷ 10 ∷ s)))
          (text name ∷ colon ∷ text t ∷ comma ∷ ts)
  constant_line n name t simple h rest =
      Reads-named n name (b'"' ∷ (t ++ b'"' ∷ b',' ∷ 10 ∷ s)) simple (constant_comma t h rest)
