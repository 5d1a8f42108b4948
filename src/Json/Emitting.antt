-- ===== src/Json/Emitting.antt =====
-- The tokens of a value, and that the reader gives the value back.
use memory_latency_analyzer.Base.{
  ℕ, zero, suc, ◌+◌, ◌*◌, ◌≤◌, ◌<◌, ◌≡◌, refl, ap, ◌∙◌, true, Option, none, some, List, [], ◌∷◌,
  arith, length,
}
use memory_latency_analyzer.Base.Text.{Bytes}
use memory_latency_analyzer.Json.Tokens.{
  Token, lbrace, rbrace, lbrack, rbrack, colon, comma, text, word, outside, lex_from,
}
use memory_latency_analyzer.Json.Lexing.{Reads}
use memory_latency_analyzer.Json.Values.{
  Value, string, literal, array, object, Items, no_items, item, Fields, no_fields, field,
  is_literal, finish_item, finish_field, parse_value, parse_items, more_items, parse_fields,
  more_fields,
}

-- The tokens of a value in front of `ts`; those of the members that an array or object still has.
unfoldable mutual
  pub emit : Value → List Token → List Token
  emit (string s) ts = text s ∷ ts
  emit (literal w) ts = word w ∷ ts
  emit (array is) ts = lbrack ∷ emit_items is ts
  emit (object fs) ts = lbrace ∷ emit_fields fs ts

  pub emit_items : Items → List Token → List Token
  emit_items no_items ts = rbrack ∷ ts
  emit_items (item v is) ts = emit v (emit_more is ts)

  pub emit_more : Items → List Token → List Token
  emit_more no_items ts = rbrack ∷ ts
  emit_more (item v is) ts = comma ∷ emit v (emit_more is ts)

  pub emit_fields : Fields → List Token → List Token
  emit_fields no_fields ts = rbrace ∷ ts
  emit_fields (field name v fs) ts = text name ∷ colon ∷ emit v (emit_more_fields fs ts)

  pub emit_more_fields : Fields → List Token → List Token
  emit_more_fields no_fields ts = rbrace ∷ ts
  emit_more_fields (field name v fs) ts =
      comma ∷ text name ∷ colon ∷ emit v (emit_more_fields fs ts)

-- Every literal is a number or one of the three words.
unfoldable mutual
  pub HasLiterals : Value → Type 0
  HasLiterals (string s) = Unit
  HasLiterals (literal w) = is_literal w ≡ true
  HasLiterals (array is) = HasLiteralsItems is
  HasLiterals (object fs) = HasLiteralsFields fs

  pub HasLiteralsItems : Items → Type 0
  HasLiteralsItems no_items = Unit
  HasLiteralsItems (item v is) = HasLiterals v × HasLiteralsItems is

  pub HasLiteralsFields : Fields → Type 0
  HasLiteralsFields no_fields = Unit
  HasLiteralsFields (field name v fs) = HasLiterals v × HasLiteralsFields fs

mutual
  fuel_of : Value → ℕ
  fuel_of (string s) = 1
  fuel_of (literal w) = 1
  fuel_of (array is) = suc (fuel_items is)
  fuel_of (object fs) = suc (fuel_fields fs)

  fuel_items : Items → ℕ
  fuel_items no_items = 1
  fuel_items (item v is) = suc (fuel_of v + fuel_items is)

  fuel_fields : Fields → ℕ
  fuel_fields no_fields = 1
  fuel_fields (field name v fs) = suc (fuel_of v + fuel_fields fs)

mutual
  unfolding emit emit_items emit_more emit_fields emit_more_fields fuel_of fuel_items fuel_fields

  fuel-emit :
      (v : Value) (ts : List Token) → suc (fuel_of v) + 2 * length ts ≤ 2 * length (emit v ts)
  fuel-emit (string s) ts = omega arith
  fuel-emit (literal w) ts = omega arith
  fuel-emit (array is) ts = omega (arith, fuel-emit_items is ts)
  fuel-emit (object fs) ts = omega (arith, fuel-emit_fields fs ts)

  fuel-emit_items :
      (is : Items) (ts : List Token) → fuel_items is + 2 * length ts ≤ 2 * length (emit_items is ts)
  fuel-emit_items no_items ts = omega arith
  fuel-emit_items (item v is) ts =
      omega (arith, fuel-emit v (emit_more is ts), fuel-emit_more is ts)

  fuel-emit_more :
      (is : Items) (ts : List Token) → fuel_items is + 2 * length ts ≤ 2 * length (emit_more is ts)
  fuel-emit_more no_items ts = omega arith
  fuel-emit_more (item v is) ts = omega (arith, fuel-emit v (emit_more is ts), fuel-emit_more is ts)

  fuel-emit_fields :
      (fs : Fields) (ts : List Token)
      → fuel_fields fs + 2 * length ts ≤ 2 * length (emit_fields fs ts)
  fuel-emit_fields no_fields ts = omega arith
  fuel-emit_fields (field name v fs) ts =
      omega (arith, fuel-emit v (emit_more_fields fs ts), fuel-emit_more_fields fs ts)

  fuel-emit_more_fields :
      (fs : Fields) (ts : List Token)
      → fuel_fields fs + 2 * length ts ≤ 2 * length (emit_more_fields fs ts)
  fuel-emit_more_fields no_fields ts = omega arith
  fuel-emit_more_fields (field name v fs) ts =
      omega (arith, fuel-emit v (emit_more_fields fs ts), fuel-emit_more_fields fs ts)

fuel_pos : (v : Value) → 0 < fuel_of v
unfolding fuel_of
fuel_pos (string s) = omega arith
fuel_pos (literal w) = omega arith
fuel_pos (array is) = omega arith
fuel_pos (object fs) = omega arith

fuel_items_pos : (is : Items) → 0 < fuel_items is
unfolding fuel_items
fuel_items_pos no_items = omega arith
fuel_items_pos (item v is) = omega arith

fuel_fields_pos : (fs : Fields) → 0 < fuel_fields fs
unfolding fuel_fields
fuel_fields_pos no_fields = omega arith
fuel_fields_pos (field name v fs) = omega arith

-- No value starts with a closing bracket.
parse_items-emit_first :
    (f : ℕ) (v : Value) (ts left : List Token)
    → parse_value f (emit v ts) ≡ some (v, left)
    → parse_items (suc f) (emit v ts) ≡ finish_item v (more_items f left)
unfolding emit parse_items
parse_items-emit_first f (string s) ts left e = rw e refl
parse_items-emit_first f (literal w) ts left e = rw e refl
parse_items-emit_first f (array is) ts left e = rw e refl
parse_items-emit_first f (object fs) ts left e = rw e refl

mutual
  unfolding emit emit_items emit_more emit_fields emit_more_fields fuel_of fuel_items fuel_fields
      HasLiterals HasLiteralsItems HasLiteralsFields parse_value more_items parse_fields more_fields

  parse_value-emit :
      (v : Value) (ts : List Token) (f : ℕ)
      → HasLiterals v
      → fuel_of v ≤ f
      → parse_value f (emit v ts) ≡ some (v, ts)
  parse_value-emit v ts zero h few = absurd (omega (arith, fuel_pos v))
  parse_value-emit (string s) ts (suc f) h few = refl
  parse_value-emit (literal w) ts (suc f) h few = rw h refl
  parse_value-emit (array is) ts (suc f) h few = rw (parse_items-emit is ts f h (omega arith)) refl
  parse_value-emit (object fs) ts (suc f) h few =
      rw (parse_fields-emit fs ts f h (omega arith)) refl

  parse_items-emit :
      (is : Items) (ts : List Token) (f : ℕ)
      → HasLiteralsItems is
      → fuel_items is ≤ f
      → parse_items f (emit_items is ts) ≡ some (is, ts)
  parse_items-emit is ts zero h few = absurd (omega (arith, fuel_items_pos is))
  parse_items-emit no_items ts (suc f) h few = refl
  parse_items-emit (item v is) ts (suc f) h few =
      parse_items-emit_first f v (emit_more is ts) (emit_more is ts)
        (parse_value-emit v (emit_more is ts) f h.0 (omega arith))
      ∙ ap (finish_item v) (more_items-emit is ts f h.1 (omega arith))

  more_items-emit :
      (is : Items) (ts : List Token) (f : ℕ)
      → HasLiteralsItems is
      → fuel_items is ≤ f
      → more_items f (emit_more is ts) ≡ some (is, ts)
  more_items-emit is ts zero h few = absurd (omega (arith, fuel_items_pos is))
  more_items-emit no_items ts (suc f) h few = refl
  more_items-emit (item v is) ts (suc f) h few =
      rw (parse_value-emit v (emit_more is ts) f h.0 (omega arith))
        (ap (finish_item v) (more_items-emit is ts f h.1 (omega arith)))

  parse_fields-emit :
      (fs : Fields) (ts : List Token) (f : ℕ)
      → HasLiteralsFields fs
      → fuel_fields fs ≤ f
      → parse_fields f (emit_fields fs ts) ≡ some (fs, ts)
  parse_fields-emit fs ts zero h few = absurd (omega (arith, fuel_fields_pos fs))
  parse_fields-emit no_fields ts (suc f) h few = refl
  parse_fields-emit (field name v fs) ts (suc f) h few =
      rw (parse_value-emit v (emit_more_fields fs ts) f h.0 (omega arith))
        (ap (finish_field name v) (more_fields-emit fs ts f h.1 (omega arith)))

  more_fields-emit :
      (fs : Fields) (ts : List Token) (f : ℕ)
      → HasLiteralsFields fs
      → fuel_fields fs ≤ f
      → more_fields f (emit_more_fields fs ts) ≡ some (fs, ts)
  more_fields-emit fs ts zero h few = absurd (omega (arith, fuel_fields_pos fs))
  more_fields-emit no_fields ts (suc f) h few = refl
  more_fields-emit (field name v fs) ts (suc f) h few =
      rw (parse_value-emit v (emit_more_fields fs ts) f h.0 (omega arith))
        (ap (finish_field name v) (more_fields-emit fs ts f h.1 (omega arith)))

abbrev whole : Option (Value × List Token) → Option Value
whole none = none
whole (some (v, [])) = some v
whole (some (v, t ∷ ts)) = none

abbrev parse_tokens : Option (Bytes × List Token) → Option Value
parse_tokens none = none
parse_tokens (some (part, ts)) = whole (parse_value (2 * length ts) ts)

-- A JSON text: one value, with blanks around its tokens. Twice as much fuel as tokens is enough.
unfoldable pub read_json : Bytes → Option Value
unfolding lex_from parse_value
read_json s = parse_tokens (lex_from outside s)

-- A text whose tokens are those of a value is read as this value.
pub read_json-Reads :
    (v : Value) (s : Bytes) → HasLiterals v → Reads s (emit v []) → read_json s ≡ some v
unfolding read_json
read_json-Reads v s h e =
    rw (e, parse_value-emit v [] (2 * length (emit v [])) h (omega (arith, fuel-emit v []))) refl
