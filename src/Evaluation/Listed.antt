-- ===== src/Evaluation/Listed.antt =====
-- The controls, the platform and the medians in the report of the evaluation lab
-- (MemoryLatencyAnalyzer_linux/src/evaluation_lab.cpp), to a reader of JSON.
use memory_latency_analyzer.Base.{◌≡◌, refl, true, List, [], ◌∷◌, ◌++◌, All, arith}
use memory_latency_analyzer.Base.Text.{Bytes, codes, to_string}
use memory_latency_analyzer.Evaluation.Real.{Real}
use memory_latency_analyzer.Evaluation.Run.{Bench}
use memory_latency_analyzer.Operational.Json.{bool_word}
use memory_latency_analyzer.Report.Rows.{stream}
use memory_latency_analyzer.Json.Tokens.{
  Token, rbrack, rbrace, comma, colon, text, lex_from, next, act, is_number,
}
use memory_latency_analyzer.Json.Lexing.{IsPlain, Reads, Reads-spaces, Reads-mark}
use memory_latency_analyzer.Json.Words.{Reads-number}
use memory_latency_analyzer.Json.Values.{
  Value, string, literal, object, Items, no_items, item, no_fields, field, is_literal,
}
use memory_latency_analyzer.Json.Emitting.{
  emit, emit_items, emit_more, emit_fields, emit_more_fields, HasLiterals, HasLiteralsItems,
  HasLiteralsFields,
}
use memory_latency_analyzer.Json.Lines.{
  Reads-named, bool_last, text_last, mark_line, mark_comma_line, number_line, bool_line, text_line,
}
use memory_latency_analyzer.Json.Numbers.{is_number-to_string}
use memory_latency_analyzer.Json.Members.{items_of, is_literal-bool, is_literal-number}
use memory_latency_analyzer.Evaluation.Layout.{
  PlatformSignature, ControlEvaluation, control_matrix, control_pieces, medians_from, median_pieces,
  platform_pieces,
}

-- A control as a JSON object.
abbrev pub control_value : ControlEvaluation → Value
control_value c = object (
    field (codes "control") (string c.control) (
      field (codes "scenario") (string c.scenario) (
        field (codes "expected_action") (string c.expected_action) (
          field (codes "executed") (literal (bool_word c.executed))
            (field (codes "evidence") (string c.evidence) no_fields)))))

unfoldable pub IsPlainControl : ControlEvaluation → Type 0
IsPlainControl c =
    IsPlain c.control × IsPlain c.scenario × IsPlain c.expected_action × IsPlain c.evidence

pub Reads-control :
    (c : ControlEvaluation) (rest : List Bytes) (ts : List Token)
    → IsPlainControl c
    → Reads (stream rest) ts
    → Reads (stream (control_pieces c rest)) (emit (control_value c) ts)
unfolding stream emit emit_fields emit_more_fields IsPlainControl
Reads-control c rest ts (plain_control, plain_scenario, plain_action, plain_evidence) behind =
    let close : Reads (stream (codes "    }" ∷ rest)) (rbrace ∷ ts) =
      Reads-spaces 4 _ (Reads-mark b'}' _ refl refl behind) in
    let evidence =
      Reads-named 6 (codes "evidence") _ refl (text_last _ c.evidence plain_evidence close) in
    let executed = bool_line _ 6 (codes "executed") c.executed refl evidence in
    let action =
      text_line _ 6 (codes "expected_action") c.expected_action refl plain_action executed in
    let scenario = text_line _ 6 (codes "scenario") c.scenario refl plain_scenario action in
    let control = text_line _ 6 (codes "control") c.control refl plain_control scenario in
    Reads-spaces 4 _ (mark_line _ b'{' refl refl control)

pub HasLiterals-controls :
    (cs : List ControlEvaluation) → HasLiteralsItems (items_of control_value cs)
unfolding HasLiterals HasLiteralsItems HasLiteralsFields
HasLiterals-controls [] = tt
HasLiterals-controls (c ∷ cs) =
    ((tt, (tt, (tt, (is_literal-bool c.executed, (tt, tt))))), HasLiterals-controls cs)

abbrev pub platform_value : PlatformSignature → Value
platform_value platform = object (
    field (codes "vendor") (string platform.vendor) (
      field (codes "brand") (string platform.brand) (
        field (codes "os_release") (string platform.os_release) (
          field (codes "machine") (string platform.machine) (
            field (codes "physical_cores") (literal (to_string platform.physical_cores)) (
              field (codes "logical_cpus") (literal (to_string platform.logical_cpus)) (
                field (codes "packages") (literal (to_string platform.packages)) (
                  field (codes "smt_active") (literal (bool_word platform.smt_active))
                    no_fields))))))))

pub HasLiterals-platform : (p : PlatformSignature) → HasLiterals (platform_value p)
unfolding HasLiterals HasLiteralsFields is_literal is_number
HasLiterals-platform p = (
  tt,
  (
    tt,
    (
      tt,
      (
        tt,
        (
          is_literal-number (to_string p.physical_cores) (is_number-to_string p.physical_cores),
          (
            is_literal-number (to_string p.logical_cpus) (is_number-to_string p.logical_cpus),
            (
              is_literal-number (to_string p.packages) (is_number-to_string p.packages),
              (is_literal-bool p.smt_active, tt),
            ),
          ),
        ),
      ),
    ),
  ),
)

unfoldable pub IsPlainPlatform : PlatformSignature → Type 0
IsPlainPlatform p = IsPlain p.vendor × IsPlain p.brand × IsPlain p.os_release × IsPlain p.machine

pub Reads-platform :
    (r : Real) (b : Bench) (show : Real.D r → Bytes) (p : PlatformSignature) (rest : List Bytes)
    {ts : List Token}
    → IsPlainPlatform p
    → Reads (stream rest) ts
    → Reads
        (stream (platform_pieces r b show p rest))
        (text (codes "platform") ∷ colon ∷ emit (platform_value p) (comma ∷ ts))
unfolding stream emit emit_fields emit_more_fields IsPlainPlatform
Reads-platform r b show p rest {ts} (plain_vendor, plain_brand, plain_release, plain_machine)
      behind =
    let close : Reads (stream (codes "  },\n" ∷ rest)) (rbrace ∷ comma ∷ ts) =
      Reads-spaces 2 _ (mark_comma_line _ b'}' refl refl behind) in
    let smt = Reads-named 4 (codes "smt_active") _ refl (bool_last _ p.smt_active close) in
    let packages =
      number_line _ 4 (codes "packages") (to_string p.packages) refl
        (is_number-to_string p.packages) smt in
    let logical =
      number_line _ 4 (codes "logical_cpus") (to_string p.logical_cpus) refl
        (is_number-to_string p.logical_cpus) packages in
    let physical =
      number_line _ 4 (codes "physical_cores") (to_string p.physical_cores) refl
        (is_number-to_string p.physical_cores) logical in
    let machine = text_line _ 4 (codes "machine") p.machine refl plain_machine physical in
    let release = text_line _ 4 (codes "os_release") p.os_release refl plain_release machine in
    let brand = text_line _ 4 (codes "brand") p.brand refl plain_brand release in
    let vendor = text_line _ 4 (codes "vendor") p.vendor refl plain_vendor brand in
    Reads-named 2 (codes "platform") _ refl (mark_line _ b'{' refl refl vendor)

module _ (r : Real) (b : Bench) (show : Real.D r → Bytes) where
  open r use {D}

  abbrev pub median_items : List D → Items
  median_items [] = no_items
  median_items (m ∷ ms) = item (literal (show m)) (median_items ms)

  abbrev pub AreShown : List D → Type 0
  AreShown ms = All (λ m. is_number (show m) ≡ true) ms

  Reads-medians_from :
      (m : D) (ms : List D) (rest : List Bytes) {ts : List Token}
      → AreShown (m ∷ ms)
      → Reads (stream (codes "],\n" ∷ rest)) (rbrack ∷ ts)
      → Reads
          (show m ++ stream (medians_from r b show ms (codes "],\n" ∷ rest)))
          (emit (literal (show m)) (emit_more (median_items ms) ts))
  unfolding stream medians_from emit emit_more lex_from next act
  Reads-medians_from m [] rest shown behind =
      Reads-number (show m) (stream (codes "],\n" ∷ rest)) shown.0 refl behind
  Reads-medians_from m (n ∷ ns) rest shown behind =
      let tail = stream (medians_from r b show ns (codes "],\n" ∷ rest)) in
      let left = Reads-medians_from n ns rest shown.1 behind in
      Reads-number (show m) _ shown.0 refl
        (Reads-mark b',' (b' ' ∷ (show n ++ tail)) refl refl (Reads-spaces 1 (show n ++ tail) left))

  pub Reads-medians :
      (ms : List D) (rest : List Bytes) {ts : List Token}
      → AreShown ms
      → Reads (stream (codes "],\n" ∷ rest)) (rbrack ∷ ts)
      → Reads
          (stream (median_pieces r b show ms (codes "],\n" ∷ rest)))
          (emit_items (median_items ms) ts)
  unfolding stream emit_items
  Reads-medians [] rest shown behind = behind
  Reads-medians (m ∷ ms) rest shown behind = Reads-medians_from m ms rest shown behind

  pub HasLiterals-medians : (ms : List D) → AreShown ms → HasLiteralsItems (median_items ms)
  unfolding HasLiterals HasLiteralsItems
  HasLiterals-medians [] shown = tt
  HasLiterals-medians (m ∷ ms) shown =
      (is_literal-number (show m) shown.0, HasLiterals-medians ms shown.1)

-- The controls and a platform of usual names need no escapes.
pub control_matrix-IsPlain : All IsPlainControl control_matrix
unfolding control_matrix IsPlainControl
control_matrix-IsPlain = ground arith
