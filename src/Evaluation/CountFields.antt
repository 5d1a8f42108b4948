-- ===== src/Evaluation/CountFields.antt =====
-- The counts in the report of the evaluation lab (MemoryLatencyAnalyzer_linux/src/evaluation_lab.cpp), to a reader of
-- JSON.
use memory_latency_analyzer.Base.{ℕ, ◌≡◌, refl, List, [], ◌∷◌, ◌++◌}
use memory_latency_analyzer.Base.Int.{ℤ}
use memory_latency_analyzer.Base.Text.{Bytes, codes, print_nat, to_string}
use memory_latency_analyzer.Evaluation.Real.{Real}
use memory_latency_analyzer.Evaluation.Run.{Bench, LabResult}
use memory_latency_analyzer.Report.Rows.{stream}
use memory_latency_analyzer.Json.Tokens.{Token, comma, colon, text, word}
use memory_latency_analyzer.Json.Lexing.{IsSimple, Reads}
use memory_latency_analyzer.Json.Values.{string, literal, Fields, field}
use memory_latency_analyzer.Json.Emitting.{
  emit, emit_fields, emit_more_fields, HasLiterals, HasLiteralsFields,
}
use memory_latency_analyzer.Json.Lines.{key, number_line, constant_line}
use memory_latency_analyzer.Json.Numbers.{is_number-print_nat, is_number-to_string}
use memory_latency_analyzer.Json.Members.{is_literal-number}
use memory_latency_analyzer.Evaluation.Layout.{count_pieces}
use memory_latency_analyzer.Evaluation.Listed.{AreShown}

nat_line :
    (s name : Bytes) (n : ℕ) {ts : List Token}
    → IsSimple name
    → Reads s ts
    → Reads
        (key 2 name (print_nat n ++ b',' ∷ 10 ∷ s))
        (text name ∷ colon ∷ word (print_nat n) ∷ comma ∷ ts)
nat_line s name n simple rest =
    number_line s 2 name (print_nat n) simple (is_number-print_nat n) rest

module _ (r : Real) (b : Bench) (show : Real.D r → Bytes) where
  open r use {D}

  -- The counts as members of an object, in front of `fs`, and those that are numbers with a fraction.
  abbrev pub count_fields : LabResult r b → ℤ → Fields → Fields
  count_fields e window fs =
      (field (codes "lab") (string (codes "evaluation_validation_lab")) (
        field (codes "scope") (string (codes "local_synthetic_reference_fixture")) (
          field (codes "runs") (literal (to_string e.runs)) (
            field (codes "trace_samples") (literal (to_string e.trace_samples)) (
              field (codes "averaging_window") (literal (to_string window)) (
                field (codes "simulated_capture_faults")
                  (literal (print_nat e.simulated_capture_faults))
                  (field (codes "recovered_captures") (literal (print_nat e.recovered_captures)) (
                    field (codes "recovery_rate_percent") (literal (show e.recovery_rate_percent)) (
                      field (codes "aligned_samples") (literal (print_nat e.aligned_samples)) (
                        field (codes "alignment_loss_percent")
                          (literal (show e.alignment_loss_percent))
                          (field (codes "fixed_input_count")
                            (literal (print_nat e.fixed_metrics.input_count))
                            (field (codes "fixed_kept_count")
                              (literal (print_nat e.fixed_metrics.kept_count))
                              (field (codes "fixed_rejected_count")
                                (literal (print_nat e.fixed_metrics.rejected_count))
                                (field (codes "random_input_count")
                                  (literal (print_nat e.random_metrics.input_count))
                                  (field (codes "random_kept_count")
                                    (literal (print_nat e.random_metrics.kept_count))
                                    (field (codes "random_rejected_count")
                                      (literal (print_nat e.random_metrics.rejected_count))
                                      fs))))))))))))))))

  abbrev pub counts_printed : LabResult r b → ℤ → List D
  counts_printed e window = e.recovery_rate_percent ∷ e.alignment_loss_percent ∷ []

  pub HasLiterals-counts :
      (e : LabResult r b) (window : ℤ) (fs : Fields)
      → AreShown r b show (counts_printed e window)
      → HasLiteralsFields fs
      → HasLiteralsFields (count_fields e window fs)
  unfolding HasLiterals HasLiteralsFields
  HasLiterals-counts e window fs shown h = (
    tt,
    (
      tt,
      (
        is_literal-number (to_string e.runs) (is_number-to_string e.runs),
        (
          is_literal-number (to_string e.trace_samples) (is_number-to_string e.trace_samples),
          (
            is_literal-number (to_string window) (is_number-to_string window),
            (
              is_literal-number (print_nat e.simulated_capture_faults)
                  (is_number-print_nat e.simulated_capture_faults),
              (
                is_literal-number (print_nat e.recovered_captures)
                    (is_number-print_nat e.recovered_captures),
                (
                  is_literal-number (show e.recovery_rate_percent) shown.0,
                  (
                    is_literal-number (print_nat e.aligned_samples)
                        (is_number-print_nat e.aligned_samples),
                    (
                      is_literal-number (show e.alignment_loss_percent) shown.1.0,
                      (
                        is_literal-number (print_nat e.fixed_metrics.input_count)
                            (is_number-print_nat e.fixed_metrics.input_count),
                        (
                          is_literal-number (print_nat e.fixed_metrics.kept_count)
                              (is_number-print_nat e.fixed_metrics.kept_count),
                          (
                            is_literal-number (print_nat e.fixed_metrics.rejected_count)
                                (is_number-print_nat e.fixed_metrics.rejected_count),
                            (
                              is_literal-number (print_nat e.random_metrics.input_count)
                                  (is_number-print_nat e.random_metrics.input_count),
                              (
                                is_literal-number (print_nat e.random_metrics.kept_count)
                                    (is_number-print_nat e.random_metrics.kept_count),
                                (
                                  is_literal-number (print_nat e.random_metrics.rejected_count)
                                      (is_number-print_nat e.random_metrics.rejected_count),
                                  h,
                                ),
                              ),
                            ),
                          ),
                        ),
                      ),
                    ),
                  ),
                ),
              ),
            ),
          ),
        ),
      ),
    ),
  )

  pub Reads-counts :
      (e : LabResult r b) (window : ℤ) (rest : List Bytes) (fs : Fields) (ts : List Token)
      {left : List Token}
      → AreShown r b show (counts_printed e window)
      → emit_more_fields fs ts ≡ comma ∷ left
      → Reads (stream rest) left
      → Reads
          (stream (count_pieces r b show e window rest))
          (emit_fields (count_fields e window fs) ts)
  unfolding stream emit emit_fields emit_more_fields
  Reads-counts e window rest fs ts shown joined behind =
      let l16 =
        nat_line _ (codes "random_rejected_count") e.random_metrics.rejected_count refl behind in
      let l15 = nat_line _ (codes "random_kept_count") e.random_metrics.kept_count refl l16 in
      let l14 = nat_line _ (codes "random_input_count") e.random_metrics.input_count refl l15 in
      let l13 = nat_line _ (codes "fixed_rejected_count") e.fixed_metrics.rejected_count refl l14 in
      let l12 = nat_line _ (codes "fixed_kept_count") e.fixed_metrics.kept_count refl l13 in
      let l11 = nat_line _ (codes "fixed_input_count") e.fixed_metrics.input_count refl l12 in
      let l10 =
        number_line _ 2 (codes "alignment_loss_percent") (show e.alignment_loss_percent) refl
          shown.1.0 l11 in
      let l9 = nat_line _ (codes "aligned_samples") e.aligned_samples refl l10 in
      let l8 =
        number_line _ 2 (codes "recovery_rate_percent") (show e.recovery_rate_percent) refl shown.0
          l9 in
      let l7 = nat_line _ (codes "recovered_captures") e.recovered_captures refl l8 in
      let l6 = nat_line _ (codes "simulated_capture_faults") e.simulated_capture_faults refl l7 in
      let l5 =
        number_line _ 2 (codes "averaging_window") (to_string window) refl
          (is_number-to_string window) l6 in
      let l4 =
        number_line _ 2 (codes "trace_samples") (to_string e.trace_samples) refl
          (is_number-to_string e.trace_samples) l5 in
      let l3 =
        number_line _ 2 (codes "runs") (to_string e.runs) refl (is_number-to_string e.runs) l4 in
      let l2 =
        constant_line _ 2 (codes "scope") (codes "local_synthetic_reference_fixture") refl refl
          l3 in
      rw joined (constant_line _ 2 (codes "lab") (codes "evaluation_validation_lab") refl refl l2)
