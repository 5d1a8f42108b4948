-- ===== src/Json/Words.antt =====
-- How the words of JSON are read, and its numbers.
use memory_latency_analyzer.Base.{
  ℕ, ◌≡◌, refl, ap, ◌∙◌, true, false, ◌&&◌, some, List, [], ◌∷◌, ◌++◌, arith, ◌==◌, All, Bool-cases,
  inl, inr,
}
use memory_latency_analyzer.Base.Text.{Bytes, is_digit}
use memory_latency_analyzer.Json.Tokens.{
  Token, word, outside, in_word, is_delimiter, next, act, push_char, end_word, lex_from, is_number,
  is_unsigned, is_tail, is_fraction, all_digits,
}
use memory_latency_analyzer.Json.Lexing.{Reads, push_all, push_all_lem}

abbrev pub IsWordText : Bytes → Type 0
IsWordText w = All (λ c. is_delimiter c ≡ false) w

not_quote : (c : ℕ) → is_delimiter c ≡ false → (c == b'"') ≡ false
unfolding is_delimiter
not_quote c h = ground arith

lex_word :
    (w s : Bytes) → IsWordText w → lex_from in_word (w ++ s) ≡ push_all w (lex_from in_word s)
unfolding lex_from next act
lex_word [] s h = refl
lex_word (c ∷ w) s h = rw (h.0, not_quote c h.0) (ap (push_char c) (lex_word w s h.1))

-- A word that ends before a delimiter or at the end.
pub Reads-word :
    (c : ℕ) (w s : Bytes) {ts : List Token}
    → IsWordText (c ∷ w)
    → lex_from in_word s ≡ lex_from outside s
    → Reads s ts
    → Reads (c ∷ (w ++ s)) (word (c ∷ w) ∷ ts)
unfolding lex_from next act
Reads-word c w s {ts} h ends e =
    let inside : lex_from in_word (w ++ s) ≡ some (w, ts) =
      lex_word w s h.1 ∙ ap (push_all w) (ends ∙ e) ∙ push_all_lem w ts in
    rw (h.0, not_quote c h.0) (ap (end_word c) inside)

delimiter_of_digit : (c : ℕ) → is_digit c ≡ true → is_delimiter c ≡ false
unfolding is_delimiter
delimiter_of_digit c h = ground arith

IsWordText-digits : (s : Bytes) → all_digits s ≡ true → IsWordText s
IsWordText-digits [] h = tt
IsWordText-digits (c ∷ s) h =
    (delimiter_of_digit c (ground arith), IsWordText-digits s (ground arith))

IsWordText-fraction : (s : Bytes) → is_fraction s ≡ true → IsWordText s
unfolding is_delimiter
IsWordText-fraction [] h = tt
IsWordText-fraction (c ∷ []) h = cc
IsWordText-fraction (c ∷ d ∷ s) h =
    let point : c ≡ b'.' = ground arith in
    (rw point refl, (delimiter_of_digit d (ground arith), IsWordText-digits s (ground arith)))

IsWordText-tail : (s : Bytes) → is_tail s ≡ true → IsWordText s
IsWordText-tail [] h = tt
IsWordText-tail (c ∷ s) h = elim (Bool-cases (is_digit c && is_tail s)) [
  | inl more ↦ (delimiter_of_digit c (ground arith), IsWordText-tail s (ground arith))
  | inr last ↦ IsWordText-fraction (c ∷ s) (ground arith)
]

IsWordText-unsigned : (s : Bytes) → is_unsigned s ≡ true → IsWordText s
IsWordText-unsigned [] h = tt
IsWordText-unsigned (c ∷ s) h = elim (Bool-cases (c == b'0')) [
  | inl zero_first ↦ (delimiter_of_digit c (ground arith), IsWordText-fraction s (ground arith))
  | inr other ↦ (delimiter_of_digit c (ground arith), IsWordText-tail s (ground arith))
]

IsWordText-number : (s : Bytes) → is_number s ≡ true → IsWordText s
unfolding is_number is_delimiter
IsWordText-number [] h = tt
IsWordText-number (c ∷ s) h = elim (Bool-cases (c == b'-')) [
  | inl minus ↦
      let same : c ≡ b'-' = ground arith in (rw same refl, IsWordText-unsigned s (ground arith))
  | inr other ↦ IsWordText-unsigned (c ∷ s) (ground arith)
]

-- A number that ends before a delimiter or at the end.
pub Reads-number :
    (w s : Bytes) {ts : List Token}
    → is_number w ≡ true
    → lex_from in_word s ≡ lex_from outside s
    → Reads s ts
    → Reads (w ++ s) (word w ∷ ts)
Reads-number [] s h ends e = unfold is_number in cc
Reads-number (c ∷ w) s h ends e = Reads-word c w s (IsWordText-number (c ∷ w) h) ends e
