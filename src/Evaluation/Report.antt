-- ===== src/Evaluation/Report.antt =====
-- What the report of the evaluation lab (MemoryLatencyAnalyzer_linux/src/evaluation_lab.cpp) says to a reader of JSON.
use mathlib.Core.Option
use memory_latency_analyzer.Base.{◌≡◌, refl, ap, Bool, true, some, List, [], ◌∷◌, length, All}
use memory_latency_analyzer.Base.Int.{ℤ}
use memory_latency_analyzer.Base.Text.{Bytes, codes}
use memory_latency_analyzer.Evaluation.Real.{Real}
use memory_latency_analyzer.Evaluation.Metrics.{TvlaResult}
use memory_latency_analyzer.Evaluation.Run.{Bench, LabResult}
use memory_latency_analyzer.Operational.Json.{members_from}
use memory_latency_analyzer.Report.Rows.{stream}
use memory_latency_analyzer.Json.Tokens.{Token, rbrack, rbrace, comma, colon, text, is_number}
use memory_latency_analyzer.Json.Lexing.{Reads, Reads-spaces, Reads-newline, Reads-mark}
use memory_latency_analyzer.Json.Values.{
  Value, literal, array, object, Fields, no_fields, field, is_literal,
}
use memory_latency_analyzer.Json.Emitting.{
  emit, emit_fields, emit_more_fields, HasLiterals, HasLiteralsItems, HasLiteralsFields, read_json,
  read_json-Reads,
}
use memory_latency_analyzer.Json.Lines.{
  Reads-named, Reads-end, number_last, mark_line, mark_comma_line, number_line,
}
use memory_latency_analyzer.Json.Members.{items_of, Reads-members}
use memory_latency_analyzer.Evaluation.Layout.{
  PlatformSignature, ControlEvaluation, control_pieces, list_pieces, platform_pieces,
  criteria_pieces, score_pieces, report_pieces, write_report,
}
use memory_latency_analyzer.Evaluation.CountFields.{
  count_fields, counts_printed, HasLiterals-counts, Reads-counts,
}
use memory_latency_analyzer.Evaluation.ScoreFields.{
  score_fields, scores_printed, HasLiterals-scores, Reads-scores,
}
use memory_latency_analyzer.Evaluation.Listed.{
  control_value, IsPlainControl, Reads-control, HasLiterals-controls, platform_value,
  IsPlainPlatform, Reads-platform, HasLiterals-platform, median_items, AreShown, Reads-medians,
  HasLiterals-medians,
}

abbrev criteria_value : Value
criteria_value = object (
    field (codes "repeatability_cv_percent_max") (literal (codes "10.0")) (
      field (codes "classification_error_percent_max") (literal (codes "5.0"))
        (field (codes "tvla_reference_threshold") (literal (codes "4.5")) no_fields)))

module _ (r : Real) (b : Bench) (show : Real.D r → Bytes) where
  open r use {D}

  Reads-criteria :
      (rest : List Bytes) {ts : List Token}
      → Reads (stream rest) ts
      → Reads
          (stream (criteria_pieces r b show rest))
          (text (codes "acceptance_criteria") ∷ colon ∷ emit criteria_value (comma ∷ ts))
  unfolding stream emit emit_fields emit_more_fields is_number
  Reads-criteria rest {ts} behind =
      let close : Reads (stream (codes "  },\n" ∷ rest)) (rbrace ∷ comma ∷ ts) =
        Reads-spaces 2 _ (mark_comma_line _ b'}' refl refl behind) in
      let l3 =
        Reads-named 4 (codes "tvla_reference_threshold") _ refl
          (number_last _ (codes "4.5") refl close) in
      let l2 =
        number_line _ 4 (codes "classification_error_percent_max") (codes "5.0") refl refl l3 in
      let l1 = number_line _ 4 (codes "repeatability_cv_percent_max") (codes "10.0") refl refl l2 in
      Reads-named 2 (codes "acceptance_criteria") _ refl (mark_line _ b'{' refl refl l1)

  Reads-lists :
      (ms : List D) (controls : List ControlEvaluation)
      → AreShown r b show ms
      → All IsPlainControl controls
      → Reads (stream (list_pieces r b show ms controls)) (
          text (codes "run_medians")
          ∷ colon
          ∷ emit (array (median_items r b show ms)) (
              comma
              ∷ text (codes "control_evaluation")
              ∷ colon
              ∷ emit (array (items_of control_value controls)) (rbrace ∷ [])))
  unfolding stream emit
  Reads-lists ms controls shown plain =
      let tail : Reads (codes "}\n") (rbrace ∷ []) =
        Reads-mark b'}' (10 ∷ []) refl refl (Reads-newline [] Reads-end) in
      let close : Reads (stream (codes "  ]\n" ∷ codes "}\n" ∷ [])) (rbrack ∷ rbrace ∷ []) =
        Reads-spaces 2 _ (Reads-mark b']' _ refl refl (Reads-newline _ tail)) in
      let listed =
        Reads-members control_pieces control_value IsPlainControl Reads-control controls
          (codes "  ]\n" ∷ codes "}\n" ∷ []) plain close in
      let named =
        Reads-named 2 (codes "control_evaluation") _ refl (mark_line _ b'[' refl refl listed) in
      let rest =
        codes "  \"control_evaluation\": [\n"
        ∷ members_from control_pieces (length controls) 0 controls
            (codes "  ]\n" ∷ codes "}\n" ∷ []) in
      let medians =
        Reads-medians r b show ms rest shown (mark_comma_line (stream rest) b']' refl refl named) in
      Reads-named 2 (codes "run_medians") _ refl (Reads-mark b'[' _ refl refl medians)

  module _ (e : LabResult r b) (window : ℤ) (platform : PlatformSignature)
      (controls : List ControlEvaluation) (tvla_clean : TvlaResult D) (run_medians : List D) where
    abbrev last_fields : Fields
    last_fields =
        (field (codes "acceptance_criteria") criteria_value (
          field (codes "platform") (platform_value platform) (
            field (codes "run_medians") (array (median_items r b show run_medians)) (
              field (codes "control_evaluation") (array (items_of control_value controls))
                no_fields))))

    -- What the report should say, in JSON.
    abbrev pub evaluation_value : Value
    evaluation_value =
        object (count_fields r b show e window (score_fields r b show e tvla_clean last_fields))

    -- The numbers with a fraction that the report has.
    abbrev pub AllShown : Type 0
    AllShown =
        AreShown r b show (counts_printed r b show e window)
        × AreShown r b show (scores_printed r b show e tvla_clean)
        × AreShown r b show run_medians

    HasLiterals-evaluation : AllShown → HasLiterals evaluation_value
    unfolding HasLiterals HasLiteralsItems HasLiteralsFields is_literal is_number
    HasLiterals-evaluation (counts_shown, scores_shown, medians_shown) =
        let last : HasLiteralsFields last_fields = (
          (refl, (refl, (refl, tt))),
          (
            HasLiterals-platform platform,
            (
              HasLiterals-medians r b show run_medians medians_shown,
              (HasLiterals-controls controls, tt),
            ),
          ),
        ) in
        HasLiterals-counts r b show e window (score_fields r b show e tvla_clean last_fields)
          counts_shown (HasLiterals-scores r b show e tvla_clean last_fields scores_shown last)

    Reads-report :
        AllShown
        → IsPlainPlatform platform
        → All IsPlainControl controls
        → Reads
            (stream (report_pieces r b show e window platform controls tvla_clean run_medians))
            (emit evaluation_value [])
    unfolding stream report_pieces emit emit_fields emit_more_fields
    Reads-report (counts_shown, scores_shown, medians_shown) plain_platform plain =
        let lists = list_pieces r b show run_medians controls in
        let platform_on = platform_pieces r b show platform lists in
        let criteria_on = criteria_pieces r b show platform_on in
        let l_lists = Reads-lists run_medians controls medians_shown plain in
        let l_platform = Reads-platform r b show platform lists plain_platform l_lists in
        let l_criteria = Reads-criteria platform_on l_platform in
        let l_scores =
          Reads-scores r b show e tvla_clean criteria_on last_fields [] scores_shown refl
            l_criteria in
        mark_line _ b'{' refl refl (
          Reads-counts r b show e window (score_pieces r b show e tvla_clean criteria_on)
            (score_fields r b show e tvla_clean last_fields) [] counts_shown refl l_scores)

    -- Where the file opens, a reader of JSON finds in the report exactly this object, each under its name: the counts
    -- of runs, samples and faults, the counts of the robust metrics, the rates and scores in percent, both ratios of
    -- signal and noise, both t statistics with their threshold and whether they exceed it, the flags on repeatability
    -- and leakage, the criteria, the platform, the medians of the runs in order, and the controls. The means, medians
    -- and deviations of the metrics and of the t tests, the counts and absolute values of these tests,
    -- `criteria_documented`, `report_written` and `report_path` are not in it.
    -- Asked of the stream is that it prints the numbers with a fraction as JSON numbers, and of the strings that
    -- they have no control character but tab, line feed and carriage return; quotes and backslashes may stand in
    -- them. The result is the state of the stream.
    pub read_json-write_report :
        (writes : Bool)
        → AllShown
        → IsPlainPlatform platform
        → All IsPlainControl controls
        → let (written, file) =
            write_report r b show true writes e window platform controls tvla_clean run_medians in
          (written ≡ writes) × (Option.map read_json file ≡ some (some evaluation_value))
    unfolding write_report
    read_json-write_report writes shown plain_platform plain = (
      refl,
      ap some (
          read_json-Reads evaluation_value _ (HasLiterals-evaluation shown)
            (Reads-report shown plain_platform plain)),
    )
