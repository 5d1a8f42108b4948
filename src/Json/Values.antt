-- ===== src/Json/Values.antt =====
-- JSON values, and the reader of tokens. A number and the words `true`, `false` and `null` are kept as they are spelled.
use memory_latency_analyzer.Base.{
  ℕ, zero, suc, Bool, ◌||◌, Option, none, some, List, [], ◌∷◌, if◌then◌else◌,
}
use memory_latency_analyzer.Base.Text.{Bytes, codes}
use memory_latency_analyzer.Bandwidth.Buffers.{eq_bytes}
use memory_latency_analyzer.Json.Tokens.{
  Token, lbrace, rbrace, lbrack, rbrack, colon, comma, text, word, is_number,
}

mutual
  pub data Value : Type 0 where
    string : Bytes → Value
    literal : Bytes → Value
    array : Items → Value
    object : Fields → Value

  pub data Items : Type 0 where
    no_items : Items
    item : Value → Items → Items

  pub data Fields : Type 0 where
    no_fields : Fields
    field : Bytes → Value → Fields → Fields

unfoldable pub is_literal : Bytes → Bool
unfolding is_number eq_bytes
is_literal w =
    is_number w
    || eq_bytes w (codes "true")
    || eq_bytes w (codes "false")
    || eq_bytes w (codes "null")

abbrev pub finish_item : Value → Option (Items × List Token) → Option (Items × List Token)
finish_item v none = none
finish_item v (some (is, ts)) = some (item v is, ts)

abbrev pub finish_field :
    Bytes → Value → Option (Fields × List Token) → Option (Fields × List Token)
finish_field name v none = none
finish_field name v (some (fs, ts)) = some (field name v fs, ts)

abbrev pub as_array : Option (Items × List Token) → Option (Value × List Token)
as_array none = none
as_array (some (is, ts)) = some (array is, ts)

abbrev pub as_object : Option (Fields × List Token) → Option (Value × List Token)
as_object none = none
as_object (some (fs, ts)) = some (object fs, ts)

-- A value off the front of the tokens, on fuel; the members of an array or object that is open.
unfoldable mutual
  unfolding is_literal

  pub parse_value : ℕ → List Token → Option (Value × List Token)
  parse_value zero ts = none
  parse_value (suc f) [] = none
  parse_value (suc f) (text s ∷ ts) = some (string s, ts)
  parse_value (suc f) (word w ∷ ts) = if is_literal w then some (literal w, ts) else none
  parse_value (suc f) (lbrack ∷ ts) = as_array (parse_items f ts)
  parse_value (suc f) (lbrace ∷ ts) = as_object (parse_fields f ts)
  parse_value (suc f) (t ∷ ts) = none

  pub parse_items : ℕ → List Token → Option (Items × List Token)
  parse_items zero ts = none
  parse_items (suc f) (rbrack ∷ ts) = some (no_items, ts)
  parse_items (suc f) ts = elim (parse_value f ts) [
    | none ↦ none
    | some (v, left) ↦ finish_item v (more_items f left)
  ]

  pub more_items : ℕ → List Token → Option (Items × List Token)
  more_items zero ts = none
  more_items (suc f) (rbrack ∷ ts) = some (no_items, ts)
  more_items (suc f) (comma ∷ ts) = elim (parse_value f ts) [
    | none ↦ none
    | some (v, left) ↦ finish_item v (more_items f left)
  ]
  more_items (suc f) ts = none

  pub parse_fields : ℕ → List Token → Option (Fields × List Token)
  parse_fields zero ts = none
  parse_fields (suc f) (rbrace ∷ ts) = some (no_fields, ts)
  parse_fields (suc f) (text name ∷ colon ∷ ts) = elim (parse_value f ts) [
    | none ↦ none
    | some (v, left) ↦ finish_field name v (more_fields f left)
  ]
  parse_fields (suc f) ts = none

  pub more_fields : ℕ → List Token → Option (Fields × List Token)
  more_fields zero ts = none
  more_fields (suc f) (rbrace ∷ ts) = some (no_fields, ts)
  more_fields (suc f) (comma ∷ text name ∷ colon ∷ ts) = elim (parse_value f ts) [
    | none ↦ none
    | some (v, left) ↦ finish_field name v (more_fields f left)
  ]
  more_fields (suc f) ts = none
