-- ===== src/Json/Tokens.antt =====
-- The tokens of a JSON text, read in one pass.
use memory_latency_analyzer.Base.{
  ℕ, Bool, true, false, ◌&&◌, ◌||◌, Option, none, some, List, [], ◌∷◌, ltb, ◌==◌, if◌then◌else◌,
}
use memory_latency_analyzer.Base.Text.{Bytes, is_digit}

pub data Token : Type 0 where
  lbrace rbrace lbrack rbrack colon comma : Token
  text : Bytes → Token
  word : Bytes → Token

pub data Mode : Type 0 where
  outside in_text escaped in_word : Mode

abbrev pub is_blank : ℕ → Bool
is_blank c = c == b' ' || c == 10 || c == 13 || c == 9

abbrev pub punctuation : ℕ → Option Token
punctuation c =
    if c == b'{'
    then some lbrace
    else if c == b'}'
    then some rbrace
    else if c == b'['
    then some lbrack
    else if c == b']'
    then some rbrack
    else if c == b':'
    then some colon
    else if c == b','
    then some comma
    else none

abbrev pub is_some : Option Token → Bool
is_some none = false
is_some (some t) = true

-- What a word does not have.
unfoldable pub is_delimiter : ℕ → Bool
is_delimiter c = is_blank c || is_some (punctuation c) || c == b'"'

abbrev pub from_outside : ℕ → Mode
from_outside c = if c == b'"' then in_text else if is_delimiter c then outside else in_word

unfoldable pub next : Mode → ℕ → Mode
unfolding is_delimiter
next outside c = from_outside c
next in_word c = from_outside c
next in_text c = if c == b'"' then outside else if c == b'\\' then escaped else in_text
next escaped c = in_text

-- The character that a backslash and `c` stand for; `\u` is not read.
unfoldable pub unescape : ℕ → Option ℕ
unescape c =
    if c == b'"' || c == b'\\' || c == b'/'
    then some c
    else if c == b'n'
    then some 10
    else if c == b'r'
    then some 13
    else if c == b't'
    then some 9
    else if c == b'b'
    then some 8
    else if c == b'f'
    then some 12
    else none

-- What is left of the text or word that is being read, and the tokens behind it; `none` is an error.
abbrev pub Lexed : Type 0
Lexed = Option (Bytes × List Token)

abbrev pub push_char : ℕ → Lexed → Lexed
push_char c none = none
push_char c (some (part, ts)) = some (c ∷ part, ts)

abbrev pub push_escaped : Option ℕ → Lexed → Lexed
push_escaped none p = none
push_escaped (some c) p = push_char c p

abbrev pub end_text : Lexed → Lexed
end_text none = none
end_text (some (part, ts)) = some ([], text part ∷ ts)

abbrev pub end_word : ℕ → Lexed → Lexed
end_word c none = none
end_word c (some (part, ts)) = some ([], word (c ∷ part) ∷ ts)

abbrev pub push_token : Option Token → Lexed → Lexed
push_token none p = p
push_token (some t) none = none
push_token (some t) (some (part, ts)) = some (part, t ∷ ts)

abbrev pub act_outside : ℕ → Lexed → Lexed
act_outside c p =
    if c == b'"'
    then end_text p
    else if is_delimiter c
    then push_token (punctuation c) p
    else end_word c p

unfoldable pub act : Mode → ℕ → Lexed → Lexed
unfolding is_delimiter unescape
act outside c p = act_outside c p
act in_word c p = if is_delimiter c then act_outside c p else push_char c p
act in_text c p = if c == b'"' || c == b'\\' then p else if ltb c 32 then none else push_char c p
act escaped c p = push_escaped (unescape c) p

abbrev pub at_end : Mode → Lexed
at_end outside = some ([], [])
at_end in_word = some ([], [])
at_end in_text = none
at_end escaped = none

unfoldable pub lex_from : Mode → Bytes → Lexed
unfolding next act
lex_from mode [] = at_end mode
lex_from mode (c ∷ s) = act mode c (lex_from (next mode c) s)

-- A number: a sign, digits without a leading zero, and digits behind a point.
abbrev pub all_digits : Bytes → Bool
all_digits [] = true
all_digits (c ∷ s) = is_digit c && all_digits s

abbrev pub is_fraction : Bytes → Bool
is_fraction [] = true
is_fraction (c ∷ []) = false
is_fraction (c ∷ d ∷ s) = c == b'.' && is_digit d && all_digits s

abbrev pub is_tail : Bytes → Bool
is_tail [] = true
is_tail (c ∷ s) = (is_digit c && is_tail s) || is_fraction (c ∷ s)

abbrev pub is_unsigned : Bytes → Bool
is_unsigned [] = false
is_unsigned (c ∷ s) = if c == b'0' then is_fraction s else is_digit c && is_tail s

unfoldable pub is_number : Bytes → Bool
is_number [] = false
is_number (c ∷ s) = if c == b'-' then is_unsigned s else is_unsigned (c ∷ s)
