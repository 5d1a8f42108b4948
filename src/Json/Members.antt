-- ===== src/Json/Members.antt =====
-- How the list of objects in a report is read, and its Booleans.
use memory_latency_analyzer.Base.{
  ℕ, suc, ◌+◌, ◌≡◌, refl, Bool, true, false, List, [], ◌∷◌, length, ◌==◌, All, arith,
}
use memory_latency_analyzer.Base.Text.{Bytes, codes}
use memory_latency_analyzer.Operational.Json.{bool_word, separator, members_from}
use memory_latency_analyzer.Report.Rows.{stream}
use memory_latency_analyzer.Json.Tokens.{Token, rbrack, is_number}
use memory_latency_analyzer.Json.Lexing.{Reads, Reads-newline}
use memory_latency_analyzer.Json.Values.{Value, Items, no_items, item, is_literal}
use memory_latency_analyzer.Json.Emitting.{emit, emit_items, emit_more}
use memory_latency_analyzer.Json.Lines.{Reads-comma}

pub is_literal-number : (w : Bytes) → is_number w ≡ true → is_literal w ≡ true
unfolding is_literal
is_literal-number w h = rw h refl

pub is_literal-bool : (b : Bool) → is_literal (bool_word b) ≡ true
unfolding is_literal is_number
is_literal-bool true = unfold is_number in refl
is_literal-bool false = refl

module _ {A : Type 0} (value : A → Value) where
  abbrev pub items_of : List A → Items
  items_of [] = no_items
  items_of (x ∷ xs) = item (value x) (items_of xs)

-- The objects of a list whose members are read one by one.
module _ {A : Type 0} (pieces : A → List Bytes → List Bytes) (value : A → Value)
    (IsFit : A → Type 0)
    (reads : (x : A) (rest : List Bytes) (ts : List Token)
      → IsFit x
      → Reads (stream rest) ts
      → Reads (stream (pieces x rest)) (emit (value x) ts)) where
  Reads-members_from :
      (total i : ℕ) (x : A) (xs : List A) (rest : List Bytes) {ts : List Token}
      → total ≡ suc (i + length xs)
      → All IsFit (x ∷ xs)
      → Reads (stream rest) (rbrack ∷ ts)
      → Reads
          (stream (members_from pieces total i (x ∷ xs) rest))
          (emit (value x) (emit_more (items_of value xs) ts))
  unfolding stream members_from emit_more
  Reads-members_from total i x [] rest counted fit behind =
      let last : (suc i == total) ≡ true = ground arith in
      reads x (separator total i ∷ codes "\n" ∷ rest) _ fit.0
        (rw last (Reads-newline (stream rest) behind))
  Reads-members_from total i x (y ∷ ys) rest counted fit behind =
      let more : (suc i == total) ≡ false = ground arith in
      let next = Reads-members_from total (suc i) y ys rest (omega arith) fit.1 behind in
      reads x (separator total i ∷ codes "\n" ∷ members_from pieces total (suc i) (y ∷ ys) rest) _
        fit.0 (rw more (Reads-comma _ next))

  pub Reads-members :
      (xs : List A) (rest : List Bytes) {ts : List Token}
      → All IsFit xs
      → Reads (stream rest) (rbrack ∷ ts)
      → Reads
          (stream (members_from pieces (length xs) 0 xs rest))
          (emit_items (items_of value xs) ts)
  unfolding members_from emit_items
  Reads-members [] rest fit behind = behind
  Reads-members (x ∷ xs) rest fit behind =
      Reads-members_from (length (x ∷ xs)) 0 x xs rest (omega arith) fit behind
