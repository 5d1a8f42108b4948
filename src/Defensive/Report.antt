-- ===== src/Defensive/Report.antt =====
-- What the report of `DefensiveLab::run` (MemoryLatencyAnalyzer_linux/src/defensive_lab.cpp) says to a reader of JSON.
use mathlib.Core.Option
use memory_latency_analyzer.Base.{
  ℕ, zero, suc, ◌<◌, ◌≡◌, refl, sym, ap, Bool, true, false, some, List, [], ◌∷◌, length, ◌==◌, All,
  arith,
}
use memory_latency_analyzer.Base.Int.{ℤ, pos, leb_ℤ}
use memory_latency_analyzer.Base.Text.{Bytes, codes, print_nat, to_string}
use memory_latency_analyzer.Evaluation.Real.{Real}
use memory_latency_analyzer.Spectre.Machine.{Machine, architectural_size}
use memory_latency_analyzer.Spectre.Reader.{
  LabResult, lab_from, lab_start, tally, read_string, run_reliability_lab, secret,
}
use memory_latency_analyzer.Json.Tokens.{rbrack, rbrace, is_number}
use memory_latency_analyzer.Json.Lexing.{Reads, Reads-spaces, Reads-newline, Reads-mark}
use memory_latency_analyzer.Json.Values.{
  Value, string, literal, array, object, no_fields, field, is_literal,
}
use memory_latency_analyzer.Json.Emitting.{
  emit, emit_fields, emit_more_fields, HasLiterals, HasLiteralsItems, HasLiteralsFields, read_json,
  read_json-Reads,
}
use memory_latency_analyzer.Json.Lines.{
  Reads-named, Reads-end, mark_line, number_line, bool_line, constant_line,
}
use memory_latency_analyzer.Json.Numbers.{is_number-print_nat, is_number-to_string}
use memory_latency_analyzer.Report.Rows.{stream}
use memory_latency_analyzer.Defensive.Events.{
  event_items, IsPlainEvent, Reads-events, HasLiterals-events,
}
use memory_latency_analyzer.Json.Members.{is_literal-number}
use memory_latency_analyzer.Defensive.Lab.{
  LabEvent, DefensiveLabResult, make_events, no_alerts, count_events, report_pieces, write_report,
  count_event, byte_accuracy_of, exact_rate_of, lab_report, run,
}

-- What a report should say of a result and of the events, in JSON.
abbrev pub report_value :
    (show_accuracy show_rate runs tries alerts confirmed wrong : Bytes) → List LabEvent → Value
report_value show_accuracy show_rate runs tries alerts confirmed wrong events = object (
    field (codes "lab") (string (codes "phase5_defensive_lab")) (
      field (codes "scope") (string (codes "self_contained_local_fixture")) (
        field (codes "runs") (literal runs) (
          field (codes "tries_per_byte") (literal tries) (
            field (codes "byte_accuracy_percent") (literal show_accuracy) (
              field (codes "exact_recovery_rate_percent") (literal show_rate) (
                field (codes "simulated_alerts") (literal alerts) (
                  field (codes "simulated_confirmed_alerts") (literal confirmed) (
                    field (codes "simulated_false_positives") (literal wrong) (
                      field (codes "network_access_performed") (literal (codes "false")) (
                        field (codes "persistence_performed") (literal (codes "false")) (
                          field (codes "external_process_access") (literal (codes "false")) (
                            field (codes "events") (array (event_items events))
                              no_fields)))))))))))))

All-is_literal :
    (ws : List Bytes) → All (λ w. is_number w ≡ true) ws → All (λ w. is_literal w ≡ true) ws
All-is_literal [] h = tt
All-is_literal (w ∷ ws) h = (is_literal-number w h.0, All-is_literal ws h.1)

HasLiterals-report :
    (accuracy rate runs tries alerts confirmed wrong : Bytes) (events : List LabEvent)
    → All
        (λ w. is_number w ≡ true)
        (runs ∷ tries ∷ accuracy ∷ rate ∷ alerts ∷ confirmed ∷ wrong ∷ [])
    → HasLiterals (report_value accuracy rate runs tries alerts confirmed wrong events)
unfolding HasLiterals HasLiteralsItems HasLiteralsFields is_literal is_number
HasLiterals-report accuracy rate runs tries alerts confirmed wrong events numbers =
    let n =
      All-is_literal (runs ∷ tries ∷ accuracy ∷ rate ∷ alerts ∷ confirmed ∷ wrong ∷ []) numbers in
    (
      tt,
      (
        tt,
        (
          n.0,
          (
            n.1.0,
            (
              n.1.1.0,
              (
                n.1.1.1.0,
                (
                  n.1.1.1.1.0,
                  (
                    n.1.1.1.1.1.0,
                    (n.1.1.1.1.1.1.0, (refl, (refl, (refl, (HasLiterals-events events, tt))))),
                  ),
                ),
              ),
            ),
          ),
        ),
      ),
    )

-- The lab keeps the numbers of runs and of tries.
lab_from_keeps :
    (m : Machine) (expected : Bytes) (array1 : List ℕ) (tries : ℤ) (left : ℕ) (l : LabResult)
    (s : m.State)
    → let l' = (lab_from m expected array1 tries left l s).0 in
      (l'.runs ≡ l.runs) × (l'.tries_per_byte ≡ l.tries_per_byte)
unfolding lab_from tally
lab_from_keeps m expected array1 tries zero l s = (refl, refl)
lab_from_keeps m expected array1 tries (suc left) l s =
    let step = read_string m array1 architectural_size l.secret_length tries s in
    lab_from_keeps m expected array1 tries left (tally expected step.0 l) step.1

make_events-IsPlain : All IsPlainEvent make_events
unfolding IsPlainEvent
make_events-IsPlain = ground arith

module _ (r : Real) (show : Real.D r → Bytes) where
  open r use {D}

  abbrev spectre_value : LabResult → D → D → List LabEvent → Value
  spectre_value spectre accuracy rate events =
      let counted = count_events events no_alerts in
      report_value (show accuracy) (show rate) (to_string spectre.runs)
        (to_string spectre.tries_per_byte) (print_nat counted.alerts)
        (print_nat counted.confirmed_alerts) (print_nat counted.false_positives) events

  Reads-report :
      (spectre : LabResult) (accuracy rate : D) (events : List LabEvent)
      → is_number (show accuracy) ≡ true
      → is_number (show rate) ≡ true
      → All IsPlainEvent events
      → Reads
          (stream (report_pieces r show spectre accuracy rate events))
          (emit (spectre_value spectre accuracy rate events) [])
  unfolding stream report_pieces emit emit_fields emit_more_fields
  Reads-report spectre accuracy rate events shown_accuracy shown_rate plain =
      let counted = count_events events no_alerts in
      let tail : Reads (codes "}\n") (rbrace ∷ []) =
        Reads-mark b'}' (10 ∷ []) refl refl (Reads-newline [] Reads-end) in
      let close : Reads (stream (codes "  ]\n" ∷ codes "}\n" ∷ [])) (rbrack ∷ rbrace ∷ []) =
        Reads-spaces 2 _ (Reads-mark b']' _ refl refl (Reads-newline _ tail)) in
      let listed = Reads-events events (codes "  ]\n" ∷ codes "}\n" ∷ []) plain close in
      let l13 = Reads-named 2 (codes "events") _ refl (mark_line _ b'[' refl refl listed) in
      let l12 = bool_line _ 2 (codes "external_process_access") false refl l13 in
      let l11 = bool_line _ 2 (codes "persistence_performed") false refl l12 in
      let l10 = bool_line _ 2 (codes "network_access_performed") false refl l11 in
      let l9 =
        number_line _ 2 (codes "simulated_false_positives") (print_nat counted.false_positives) refl
          (is_number-print_nat counted.false_positives) l10 in
      let l8 =
        number_line _ 2 (codes "simulated_confirmed_alerts") (print_nat counted.confirmed_alerts)
          refl (is_number-print_nat counted.confirmed_alerts) l9 in
      let l7 =
        number_line _ 2 (codes "simulated_alerts") (print_nat counted.alerts) refl
          (is_number-print_nat counted.alerts) l8 in
      let l6 =
        number_line _ 2 (codes "exact_recovery_rate_percent") (show rate) refl shown_rate l7 in
      let l5 =
        number_line _ 2 (codes "byte_accuracy_percent") (show accuracy) refl shown_accuracy l6 in
      let l4 =
        number_line _ 2 (codes "tries_per_byte") (to_string spectre.tries_per_byte) refl
          (is_number-to_string spectre.tries_per_byte) l5 in
      let l3 =
        number_line _ 2 (codes "runs") (to_string spectre.runs) refl
          (is_number-to_string spectre.runs) l4 in
      let l2 =
        constant_line _ 2 (codes "scope") (codes "self_contained_local_fixture") refl refl l3 in
      let l1 = constant_line _ 2 (codes "lab") (codes "phase5_defensive_lab") refl refl l2 in
      mark_line _ b'{' refl refl l1

  -- What the report says of a result.
  abbrev pub result_value : DefensiveLabResult D → Value
  result_value result =
      report_value (show result.byte_accuracy_percent) (show result.exact_recovery_rate_percent)
        (to_string result.runs) (to_string result.tries_per_byte)
        (print_nat result.simulated_alerts) (print_nat result.simulated_confirmed_alerts)
        (print_nat result.simulated_false_positives) make_events

  read_json-lab_report :
      (writes : Bool) (path : Bytes) (spectre : LabResult)
      → let (result, file) =
          lab_report r show true writes spectre.runs spectre.tries_per_byte path spectre in
        is_number (show result.byte_accuracy_percent) ≡ true
        → is_number (show result.exact_recovery_rate_percent) ≡ true
        → Option.map read_json file ≡ some (some (result_value result))
  unfolding lab_report write_report
  read_json-lab_report writes path spectre shown_accuracy shown_rate = ap some (
      read_json-Reads _ _
        (HasLiterals-report _ _ _ _ _ _ _ make_events (
          is_number-to_string spectre.runs,
          (
            is_number-to_string spectre.tries_per_byte,
            (
              shown_accuracy,
              (
                shown_rate,
                (is_number-print_nat 3, (is_number-print_nat 3, (is_number-print_nat 0, tt))),
              ),
            ),
          ),
        ))
        (Reads-report spectre (byte_accuracy_of r show spectre) (exact_rate_of r show spectre)
          make_events shown_accuracy shown_rate make_events-IsPlain))

  read_json-lab_report_of :
      (writes : Bool) (path : Bytes) (spectre : LabResult) (runs tries : ℤ)
      → spectre.runs ≡ runs
      → spectre.tries_per_byte ≡ tries
      → let (result, file) = lab_report r show true writes runs tries path spectre in
        is_number (show result.byte_accuracy_percent) ≡ true
        → is_number (show result.exact_recovery_rate_percent) ≡ true
        → (Option.map read_json file ≡ some (some (result_value result)))
          × (result.report_written ≡ writes)
          × (result.simulated_alerts ≡ 3)
          × (result.simulated_confirmed_alerts ≡ 3)
          × (result.simulated_false_positives ≡ 0)
  unfolding lab_report write_report count_events count_event
  read_json-lab_report_of writes path spectre runs tries same_runs same_tries =
      rw (sym same_runs, sym same_tries)
        (λ shown_accuracy shown_rate. (
          read_json-lab_report writes path spectre shown_accuracy shown_rate,
          refl,
          refl,
          refl,
          refl,
        ))

-- Given positive runs and tries and a path, where the file opens, what is in it is read as a JSON object that has
-- the numbers of the result and the events, and says that there was no network, no persistence and no other
-- process; the result has 3 simulated alerts, all confirmed, and says that the report is written where the
-- stream is good at the end. Asked of the stream is that it prints the two percentages as JSON numbers.
pub run_report :
    (r : Real) (show : Real.D r → Bytes) (m : Machine) (array1 : List ℕ) (writes : Bool)
    (runs tries : ℕ) (path : Bytes) (s : m.State)
    → 0 < runs
    → 0 < tries
    → 0 < length path
    → let (result, file, s') = run r show m array1 true writes (pos runs) (pos tries) path s in
      is_number (show result.byte_accuracy_percent) ≡ true
      → is_number (show result.exact_recovery_rate_percent) ≡ true
      → (Option.map read_json file ≡ some (some (result_value r show result)))
        × (result.report_written ≡ writes)
        × (result.simulated_alerts ≡ 3)
        × (result.simulated_confirmed_alerts ≡ 3)
        × (result.simulated_false_positives ≡ 0)
unfolding run run_reliability_lab
run_report r show m array1 writes runs tries path s some_runs some_tries some_path =
    let e1 : leb_ℤ (pos runs) (pos 0) ≡ false = ground arith in
    let e2 : leb_ℤ (pos tries) (pos 0) ≡ false = ground arith in
    let e3 : (length path == 0) ≡ false = ground arith in
    let start = lab_start secret (pos runs) (pos tries) in
    let spectre = (lab_from m secret array1 (pos tries) runs start s).0 in
    let (same_runs, same_tries) = lab_from_keeps m secret array1 (pos tries) runs start s in
    rw (e1, e2, e3)
      (read_json-lab_report_of r show writes path spectre (pos runs) (pos tries) same_runs
        same_tries)
