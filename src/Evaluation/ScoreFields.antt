-- ===== src/Evaluation/ScoreFields.antt =====
-- The scores in the report of the evaluation lab (MemoryLatencyAnalyzer_linux/src/evaluation_lab.cpp), to a reader of
-- JSON.
use memory_latency_analyzer.Base.{◌≡◌, refl, List, [], ◌∷◌}
use memory_latency_analyzer.Base.Text.{Bytes, codes}
use memory_latency_analyzer.Evaluation.Real.{Real}
use memory_latency_analyzer.Evaluation.Metrics.{TvlaResult}
use memory_latency_analyzer.Evaluation.Run.{Bench, LabResult}
use memory_latency_analyzer.Operational.Json.{bool_word}
use memory_latency_analyzer.Report.Rows.{stream}
use memory_latency_analyzer.Json.Tokens.{Token, comma}
use memory_latency_analyzer.Json.Lexing.{Reads}
use memory_latency_analyzer.Json.Values.{literal, Fields, field}
use memory_latency_analyzer.Json.Emitting.{
  emit, emit_fields, emit_more_fields, HasLiterals, HasLiteralsFields,
}
use memory_latency_analyzer.Json.Lines.{number_line, bool_line}
use memory_latency_analyzer.Json.Members.{is_literal-bool, is_literal-number}
use memory_latency_analyzer.Evaluation.Layout.{score_pieces}
use memory_latency_analyzer.Evaluation.Listed.{AreShown}

module _ (r : Real) (b : Bench) (show : Real.D r → Bytes) where
  open r use {D}

  -- The scores as members of an object, in front of `fs`, and those that are numbers with a fraction.
  abbrev pub score_fields : LabResult r b → TvlaResult D → Fields → Fields
  score_fields e tvla_clean fs =
      (field (codes "snr_linear") (literal (show e.snr_linear)) (
        field (codes "snr_db") (literal (show e.snr_db)) (
          field (codes "classification_error_percent")
            (literal (show e.classification_error_percent))
            (field (codes "repeatability_cv_percent") (literal (show e.repeatability_cv_percent)) (
              field (codes "tvla_raw_t") (literal (show e.tvla.t_statistic)) (
                field (codes "tvla_clean_t") (literal (show tvla_clean.t_statistic)) (
                  field (codes "tvla_threshold") (literal (show e.tvla.threshold)) (
                    field (codes "tvla_raw_threshold_exceeded")
                      (literal (bool_word e.tvla.threshold_exceeded))
                      (field (codes "tvla_clean_threshold_exceeded")
                        (literal (bool_word tvla_clean.threshold_exceeded))
                        (field (codes "repeatability_ok") (literal (bool_word e.repeatability_ok)) (
                          field (codes "leakage_detected") (literal (bool_word e.leakage_detected))
                            fs)))))))))))

  abbrev pub scores_printed : LabResult r b → TvlaResult D → List D
  scores_printed e tvla_clean =
      e.snr_linear ∷ e.snr_db ∷ e.classification_error_percent ∷ e.repeatability_cv_percent
      ∷ e.tvla.t_statistic ∷ tvla_clean.t_statistic ∷ e.tvla.threshold ∷ []

  pub HasLiterals-scores :
      (e : LabResult r b) (tvla_clean : TvlaResult D) (fs : Fields)
      → AreShown r b show (scores_printed e tvla_clean)
      → HasLiteralsFields fs
      → HasLiteralsFields (score_fields e tvla_clean fs)
  unfolding HasLiterals HasLiteralsFields
  HasLiterals-scores e tvla_clean fs shown h = (
    is_literal-number (show e.snr_linear) shown.0,
    (
      is_literal-number (show e.snr_db) shown.1.0,
      (
        is_literal-number (show e.classification_error_percent) shown.1.1.0,
        (
          is_literal-number (show e.repeatability_cv_percent) shown.1.1.1.0,
          (
            is_literal-number (show e.tvla.t_statistic) shown.1.1.1.1.0,
            (
              is_literal-number (show tvla_clean.t_statistic) shown.1.1.1.1.1.0,
              (
                is_literal-number (show e.tvla.threshold) shown.1.1.1.1.1.1.0,
                (
                  is_literal-bool e.tvla.threshold_exceeded,
                  (
                    is_literal-bool tvla_clean.threshold_exceeded,
                    (is_literal-bool e.repeatability_ok, (is_literal-bool e.leakage_detected, h)),
                  ),
                ),
              ),
            ),
          ),
        ),
      ),
    ),
  )

  pub Reads-scores :
      (e : LabResult r b) (tvla_clean : TvlaResult D) (rest : List Bytes) (fs : Fields)
      (ts : List Token) {left : List Token}
      → AreShown r b show (scores_printed e tvla_clean)
      → emit_more_fields fs ts ≡ comma ∷ left
      → Reads (stream rest) left
      → Reads
          (stream (score_pieces r b show e tvla_clean rest))
          (emit_fields (score_fields e tvla_clean fs) ts)
  unfolding stream emit emit_fields emit_more_fields
  Reads-scores e tvla_clean rest fs ts shown joined behind =
      let l11 = bool_line _ 2 (codes "leakage_detected") e.leakage_detected refl behind in
      let l10 = bool_line _ 2 (codes "repeatability_ok") e.repeatability_ok refl l11 in
      let l9 =
        bool_line _ 2 (codes "tvla_clean_threshold_exceeded") tvla_clean.threshold_exceeded refl
          l10 in
      let l8 =
        bool_line _ 2 (codes "tvla_raw_threshold_exceeded") e.tvla.threshold_exceeded refl l9 in
      let l7 =
        number_line _ 2 (codes "tvla_threshold") (show e.tvla.threshold) refl shown.1.1.1.1.1.1.0
          l8 in
      let l6 =
        number_line _ 2 (codes "tvla_clean_t") (show tvla_clean.t_statistic) refl shown.1.1.1.1.1.0
          l7 in
      let l5 =
        number_line _ 2 (codes "tvla_raw_t") (show e.tvla.t_statistic) refl shown.1.1.1.1.0 l6 in
      let l4 =
        number_line _ 2 (codes "repeatability_cv_percent") (show e.repeatability_cv_percent) refl
          shown.1.1.1.0 l5 in
      let l3 =
        number_line _ 2 (codes "classification_error_percent") (show e.classification_error_percent)
          refl shown.1.1.0 l4 in
      let l2 = number_line _ 2 (codes "snr_db") (show e.snr_db) refl shown.1.0 l3 in
      rw joined (number_line _ 2 (codes "snr_linear") (show e.snr_linear) refl shown.0 l2)
