-- ===== src/Defensive/Events.antt =====
-- The events in the report of the defensive lab (MemoryLatencyAnalyzer_linux/src/defensive_lab.cpp), to a reader of JSON.
use memory_latency_analyzer.Base.{refl, List, [], ◌∷◌, length, All}
use memory_latency_analyzer.Base.Text.{Bytes, codes}
use memory_latency_analyzer.Json.Tokens.{Token, rbrack, rbrace, is_number}
use memory_latency_analyzer.Json.Lexing.{IsPlain, Reads, Reads-spaces, Reads-mark}
use memory_latency_analyzer.Json.Values.{
  Value, string, literal, object, Items, no_fields, field, is_literal,
}
use memory_latency_analyzer.Json.Emitting.{
  emit, emit_items, emit_fields, emit_more_fields, HasLiterals, HasLiteralsItems, HasLiteralsFields,
}
use memory_latency_analyzer.Json.Lines.{Reads-named, bool_last, mark_line, bool_line, text_line}
use memory_latency_analyzer.Report.Rows.{stream}
use memory_latency_analyzer.Operational.Json.{bool_word, members_from}
use memory_latency_analyzer.Json.Members.{items_of, Reads-members, is_literal-bool}
use memory_latency_analyzer.Defensive.Lab.{LabEvent, event_pieces}

-- An event as a JSON object.
abbrev pub event_value : LabEvent → Value
event_value e = object (
    field (codes "name") (string e.name) (
      field (codes "action") (string e.action) (
        field (codes "disposition") (string e.disposition) (
          field (codes "alert") (literal (bool_word e.alert))
            (field (codes "confirmed") (literal (bool_word e.confirmed)) no_fields)))))

abbrev pub event_items : List LabEvent → Items
event_items = items_of event_value

unfoldable pub IsPlainEvent : LabEvent → Type 0
IsPlainEvent e = IsPlain e.name × IsPlain e.action × IsPlain e.disposition

Reads-event :
    (e : LabEvent) (rest : List Bytes) (ts : List Token)
    → IsPlainEvent e
    → Reads (stream rest) ts
    → Reads (stream (event_pieces e rest)) (emit (event_value e) ts)
unfolding stream emit emit_fields emit_more_fields IsPlainEvent
Reads-event e rest ts (plain_name, plain_action, plain_disposition) behind =
    let close : Reads (stream (codes "    }" ∷ rest)) (rbrace ∷ ts) =
      Reads-spaces 4 _ (Reads-mark b'}' _ refl refl behind) in
    let confirmed = Reads-named 6 (codes "confirmed") _ refl (bool_last _ e.confirmed close) in
    let alert = bool_line _ 6 (codes "alert") e.alert refl confirmed in
    let disposition =
      text_line _ 6 (codes "disposition") e.disposition refl plain_disposition alert in
    let action = text_line _ 6 (codes "action") e.action refl plain_action disposition in
    let name = text_line _ 6 (codes "name") e.name refl plain_name action in
    Reads-spaces 4 _ (mark_line _ b'{' refl refl name)

pub HasLiterals-events : (events : List LabEvent) → HasLiteralsItems (event_items events)
unfolding HasLiterals HasLiteralsItems HasLiteralsFields is_literal is_number
HasLiterals-events [] = tt
HasLiterals-events (e ∷ es) = (
  (tt, (tt, (tt, (is_literal-bool e.alert, (is_literal-bool e.confirmed, tt))))),
  HasLiterals-events es,
)

pub Reads-events :
    (events : List LabEvent) (rest : List Bytes) {ts : List Token}
    → All IsPlainEvent events
    → Reads (stream rest) (rbrack ∷ ts)
    → Reads
        (stream (members_from event_pieces (length events) 0 events rest))
        (emit_items (event_items events) ts)
Reads-events = Reads-members event_pieces event_value IsPlainEvent Reads-event
