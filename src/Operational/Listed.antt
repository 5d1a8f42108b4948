-- ===== src/Operational/Listed.antt =====
-- The scenarios in the report of the operational lab (MemoryLatencyAnalyzer_linux/src/operational_lab.cpp), to a reader of JSON.
use memory_latency_analyzer.Base.{refl, List, [], ◌∷◌}
use memory_latency_analyzer.Base.Text.{Bytes, codes}
use memory_latency_analyzer.Operational.Json.{bool_word}
use memory_latency_analyzer.Operational.Scenarios.{ScenarioResult}
use memory_latency_analyzer.Operational.Run.{scenario_pieces}
use memory_latency_analyzer.Report.Rows.{stream}
use memory_latency_analyzer.Json.Tokens.{Token, rbrace}
use memory_latency_analyzer.Json.Lexing.{IsPlain, Reads, Reads-spaces, Reads-mark}
use memory_latency_analyzer.Json.Values.{Value, string, literal, object, no_fields, field}
use memory_latency_analyzer.Json.Emitting.{
  emit, emit_fields, emit_more_fields, HasLiterals, HasLiteralsItems, HasLiteralsFields,
}
use memory_latency_analyzer.Json.Lines.{Reads-named, bool_last, mark_line, bool_line, text_line}
use memory_latency_analyzer.Json.Members.{items_of, is_literal-bool}

-- A scenario as a JSON object.
abbrev pub scenario_value : ScenarioResult → Value
scenario_value e = object (
    field (codes "name") (string e.name) (
      field (codes "stage") (string e.stage) (
        field (codes "expected_control") (string e.expected_control) (
          field (codes "detected") (literal (bool_word e.detected))
            (field (codes "recovered") (literal (bool_word e.recovered)) no_fields)))))

unfoldable pub IsPlainScenario : ScenarioResult → Type 0
IsPlainScenario e = IsPlain e.name × IsPlain e.stage × IsPlain e.expected_control

pub Reads-scenario :
    (e : ScenarioResult) (rest : List Bytes) (ts : List Token)
    → IsPlainScenario e
    → Reads (stream rest) ts
    → Reads (stream (scenario_pieces e rest)) (emit (scenario_value e) ts)
unfolding stream emit emit_fields emit_more_fields IsPlainScenario
Reads-scenario e rest ts (plain_name, plain_stage, plain_control) behind =
    let close : Reads (stream (codes "    }" ∷ rest)) (rbrace ∷ ts) =
      Reads-spaces 4 _ (Reads-mark b'}' _ refl refl behind) in
    let recovered = Reads-named 6 (codes "recovered") _ refl (bool_last _ e.recovered close) in
    let detected = bool_line _ 6 (codes "detected") e.detected refl recovered in
    let control =
      text_line _ 6 (codes "expected_control") e.expected_control refl plain_control detected in
    let stage = text_line _ 6 (codes "stage") e.stage refl plain_stage control in
    let name = text_line _ 6 (codes "name") e.name refl plain_name stage in
    Reads-spaces 4 _ (mark_line _ b'{' refl refl name)

pub HasLiterals-scenarios :
    (es : List ScenarioResult) → HasLiteralsItems (items_of scenario_value es)
unfolding HasLiterals HasLiteralsItems HasLiteralsFields
HasLiterals-scenarios [] = tt
HasLiterals-scenarios (e ∷ es) = (
  (tt, (tt, (tt, (is_literal-bool e.detected, (is_literal-bool e.recovered, tt))))),
  HasLiterals-scenarios es,
)
