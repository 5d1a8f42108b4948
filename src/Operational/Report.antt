-- ===== src/Operational/Report.antt =====
-- What the report of `OperationalLab::run` (MemoryLatencyAnalyzer_linux/src/operational_lab.cpp) says to a reader of JSON.
use mathlib.Core.Option
use memory_latency_analyzer.Base.{
  ℕ, ◌*◌, ◌^◌, ◌≤◌, ◌<◌, ◌≡◌, refl, ap, ◌∙◌, Bool, true, false, some, List, [], ◌∷◌, ltb, ◌-◌, ◌++◌,
  length, map, ◌==◌, All, arith, if◌then◌else◌,
}
use memory_latency_analyzer.Base.Int.{pos, negsuc, leb_ℤ}
use memory_latency_analyzer.Base.Text.{Bytes, codes, print_nat, to_string}
use memory_latency_analyzer.Operational.Scenarios.{
  Rate, ScenarioResult, scenario_result, LabResult, tally_all, scenarios, word,
}
use memory_latency_analyzer.Operational.Run.{
  int_text, scenario_pieces, report_pieces, write_report, count_runs, run,
}
use memory_latency_analyzer.Report.Rows.{stream}
use memory_latency_analyzer.Json.Tokens.{
  Token, rbrack, rbrace, colon, comma, text, word as word_token, is_number,
}
use memory_latency_analyzer.Json.Lexing.{IsSimple, Reads, Reads-spaces, Reads-newline, Reads-mark}
use memory_latency_analyzer.Json.Values.{
  Value, string, literal, array, object, no_fields, field, is_literal,
}
use memory_latency_analyzer.Json.Emitting.{
  emit, emit_fields, emit_more_fields, HasLiterals, HasLiteralsItems, HasLiteralsFields, read_json,
  read_json-Reads,
}
use memory_latency_analyzer.Json.Lines.{
  key, Reads-named, Reads-end, mark_line, number_line, bool_line, constant_line,
}
use memory_latency_analyzer.Json.Numbers.{is_number-to_string}
use memory_latency_analyzer.Json.Members.{is_literal-number, items_of, Reads-members}
use memory_latency_analyzer.Operational.Listed.{
  scenario_value, IsPlainScenario, Reads-scenario, HasLiterals-scenarios,
}

-- The number of runs and the six counters, the three rates, and the scenarios, in JSON.
abbrev pub report_value :
    (runs events detected missed wrong attempts recovered detection false_positive recovery : Bytes)
    → List ScenarioResult
    → Value
report_value runs events detected missed wrong attempts recovered detection false_positive recovery
      es =
    object (
      field (codes "lab") (string (codes "operational_defensive_simulation")) (
        field (codes "reference_boundary") (string (codes "in_memory_synthetic_state_machine")) (
          field (codes "runs") (literal runs) (
            field (codes "events_generated") (literal events) (
              field (codes "detected_events") (literal detected) (
                field (codes "missed_events") (literal missed) (
                  field (codes "false_positive_events") (literal wrong) (
                    field (codes "recovery_attempts") (literal attempts) (
                      field (codes "recovered_events") (literal recovered) (
                        field (codes "detection_rate_percent") (literal detection) (
                          field (codes "false_positive_rate_percent") (literal false_positive) (
                            field (codes "recovery_rate_percent") (literal recovery) (
                              field (codes "real_network_activity") (literal (codes "false")) (
                                field (codes "real_persistence") (literal (codes "false")) (
                                  field (codes "real_privilege_change") (literal (codes "false")) (
                                    field (codes "external_process_access")
                                      (literal (codes "false"))
                                      (field (codes "scenarios")
                                        (array (items_of scenario_value es))
                                        no_fields)))))))))))))))))

int_line :
    (s name : Bytes) (w : ℕ) {ts : List Token}
    → IsSimple name
    → Reads s ts
    → Reads
        (key 2 name (int_text w ++ b',' ∷ 10 ∷ s))
        (text name ∷ colon ∷ word_token (int_text w) ∷ comma ∷ ts)
int_line s name w simple rest =
    number_line s 2 name (int_text w) simple
      (is_number-to_string (if ltb w (2 ^ 31) then pos w else negsuc (2 ^ 32 - 1 - w))) rest

module _ (show : Rate → Bytes) where
  abbrev value_of : LabResult → Value
  value_of r =
      report_value (to_string r.runs) (int_text r.events_generated) (int_text r.detected_events)
        (int_text r.missed_events) (int_text r.false_positive_events) (int_text r.recovery_attempts)
        (int_text r.recovered_events) (show r.detection_rate) (show r.false_positive_rate)
        (show r.recovery_rate) r.scenarios

  abbrev pub IsShown : LabResult → Type 0
  IsShown r =
      (is_number (show r.detection_rate) ≡ true)
      × (is_number (show r.false_positive_rate) ≡ true)
      × (is_number (show r.recovery_rate) ≡ true)

  Reads-report :
      (r : LabResult)
      → IsShown r
      → All IsPlainScenario r.scenarios
      → Reads (stream (report_pieces show r)) (emit (value_of r) [])
  unfolding stream report_pieces emit emit_fields emit_more_fields
  Reads-report r (shown_detection, shown_wrong, shown_recovery) plain =
      let tail : Reads (codes "}\n") (rbrace ∷ []) =
        Reads-mark b'}' (10 ∷ []) refl refl (Reads-newline [] Reads-end) in
      let close : Reads (stream (codes "  ]\n" ∷ codes "}\n" ∷ [])) (rbrack ∷ rbrace ∷ []) =
        Reads-spaces 2 _ (Reads-mark b']' _ refl refl (Reads-newline _ tail)) in
      let listed =
        Reads-members scenario_pieces scenario_value IsPlainScenario Reads-scenario r.scenarios
          (codes "  ]\n" ∷ codes "}\n" ∷ []) plain close in
      let l17 = Reads-named 2 (codes "scenarios") _ refl (mark_line _ b'[' refl refl listed) in
      let l16 = bool_line _ 2 (codes "external_process_access") false refl l17 in
      let l15 = bool_line _ 2 (codes "real_privilege_change") false refl l16 in
      let l14 = bool_line _ 2 (codes "real_persistence") false refl l15 in
      let l13 = bool_line _ 2 (codes "real_network_activity") false refl l14 in
      let l12 =
        number_line _ 2 (codes "recovery_rate_percent") (show r.recovery_rate) refl shown_recovery
          l13 in
      let l11 =
        number_line _ 2 (codes "false_positive_rate_percent") (show r.false_positive_rate) refl
          shown_wrong l12 in
      let l10 =
        number_line _ 2 (codes "detection_rate_percent") (show r.detection_rate) refl
          shown_detection l11 in
      let l9 = int_line _ (codes "recovered_events") r.recovered_events refl l10 in
      let l8 = int_line _ (codes "recovery_attempts") r.recovery_attempts refl l9 in
      let l7 = int_line _ (codes "false_positive_events") r.false_positive_events refl l8 in
      let l6 = int_line _ (codes "missed_events") r.missed_events refl l7 in
      let l5 = int_line _ (codes "detected_events") r.detected_events refl l6 in
      let l4 = int_line _ (codes "events_generated") r.events_generated refl l5 in
      let l3 =
        number_line _ 2 (codes "runs") (to_string r.runs) refl (is_number-to_string r.runs) l4 in
      let l2 =
        constant_line _ 2 (codes "reference_boundary") (codes "in_memory_synthetic_state_machine")
          refl refl l3 in
      let l1 =
        constant_line _ 2 (codes "lab") (codes "operational_defensive_simulation") refl refl l2 in
      mark_line _ b'{' refl refl l1

  is_literal-int : (w : ℕ) → is_literal (int_text w) ≡ true
  is_literal-int w =
      is_literal-number (int_text w)
        (is_number-to_string (if ltb w (2 ^ 31) then pos w else negsuc (2 ^ 32 - 1 - w)))

  HasLiterals-value_of : (r : LabResult) → IsShown r → HasLiterals (value_of r)
  unfolding HasLiterals HasLiteralsItems HasLiteralsFields is_literal is_number
  HasLiterals-value_of r (shown_detection, shown_wrong, shown_recovery) = (
    tt,
    (
      tt,
      (
        is_literal-number (to_string r.runs) (is_number-to_string r.runs),
        (
          is_literal-int r.events_generated,
          (
            is_literal-int r.detected_events,
            (
              is_literal-int r.missed_events,
              (
                is_literal-int r.false_positive_events,
                (
                  is_literal-int r.recovery_attempts,
                  (
                    is_literal-int r.recovered_events,
                    (
                      is_literal-number (show r.detection_rate) shown_detection,
                      (
                        is_literal-number (show r.false_positive_rate) shown_wrong,
                        (
                          is_literal-number (show r.recovery_rate) shown_recovery,
                          (refl, (refl, (refl, (refl, (HasLiterals-scenarios r.scenarios, tt))))),
                        ),
                      ),
                    ),
                  ),
                ),
              ),
            ),
          ),
        ),
      ),
    ),
  )

  read_json-report :
      (r : LabResult)
      → IsShown r
      → All IsPlainScenario r.scenarios
      → read_json (stream (report_pieces show r)) ≡ some (value_of r)
  read_json-report r shown plain =
      read_json-Reads (value_of r) (stream (report_pieces show r)) (HasLiterals-value_of r shown)
        (Reads-report r shown plain)

int_text_small : (w : ℕ) → w < 2 ^ 31 → int_text w ≡ print_nat w
unfolding to_string
int_text_small w h = let small : ltb w (2 ^ 31) ≡ true = ground arith in rw small refl

scenarios-IsPlain : All IsPlainScenario (map scenario_result scenarios)
unfolding scenarios IsPlainScenario
scenarios-IsPlain = ground arith

-- What the report of `n` runs should say; the rates are printed.
abbrev pub expected_value : (Rate → Bytes) → ℕ → LabResult → Value
expected_value show n result =
    report_value (print_nat n) (print_nat (9 * n)) (print_nat (9 * n)) (print_nat 0) (print_nat n)
      (print_nat (9 * n)) (print_nat (9 * n)) (show result.detection_rate)
      (show result.false_positive_rate) (show result.recovery_rate) (map scenario_result scenarios)

value_of-count_runs :
    (show : Rate → Bytes) (n : ℕ)
    → n ≤ 107374182
    → let r = count_runs scenarios (pos n) in value_of show r ≡ expected_value show n r
unfolding count_runs tally_all scenarios
value_of-count_runs show n less =
    let small : word (9 * n) ≡ 9 * n = omega arith in
    let nine : int_text (word (9 * n)) ≡ print_nat (9 * n) =
      ap int_text small ∙ int_text_small (9 * n) (omega arith) in
    let zeros : word (0 * n) ≡ 0 = omega arith in
    let no : int_text (word (0 * n)) ≡ print_nat 0 =
      ap int_text zeros ∙ int_text_small 0 (omega arith) in
    let once : int_text n ≡ print_nat n = int_text_small n (omega arith) in
    let runs : to_string (pos n) ≡ print_nat n = unfold to_string in refl in
    rw (runs, nine, no, once) refl

-- For up to 107374182 runs and a path, where the file opens, what is in it is read as a JSON object that says how
-- many runs were asked for, that nine events a run were generated, detected and recovered and none was missed,
-- that one event a run was a false positive, the three rates as the stream prints them, and the nine scenarios;
-- the result says that the report is written where the stream is good at the end. Asked of the stream is that it
-- prints the rates as JSON numbers.
pub run_report_counts :
    (show : Rate → Bytes) (writes : Bool) (n : ℕ) (path : Bytes)
    → 0 < n
    → n ≤ 107374182
    → 0 < length path
    → let (result, file) = run show scenarios true writes (pos n) path in
      IsShown show result
      → (Option.map read_json file ≡ some (some (expected_value show n result)))
        × (result.report_written ≡ writes)
unfolding run write_report
run_report_counts show writes n path more less named =
    let positive : leb_ℤ (pos n) (pos 0) ≡ false = ground arith in
    let some_path : (length path == 0) ≡ false = ground arith in
    let r = count_runs scenarios (pos n) in
    rw (positive, some_path)
      (λ shown. (
        ap some (
            read_json-report show r shown scenarios-IsPlain
            ∙ ap some (value_of-count_runs show n less)),
        refl,
      ))
