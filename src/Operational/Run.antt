-- ===== src/Operational/Run.antt =====
-- `write_report` and `OperationalLab::run` of MemoryLatencyAnalyzer_linux/src/operational_lab.cpp.
use memory_latency_analyzer.Base.{
  ℕ, ◌*◌, ◌^◌, Bool, false, ltb, ◌-◌, Option, none, some, map, ◌||◌, List, [], ◌∷◌, length, ◌==◌,
  if◌then◌else◌,
}
use memory_latency_analyzer.Base.Int.{ℤ, pos, negsuc, leb_ℤ, pos_part}
use memory_latency_analyzer.Base.Text.{Bytes, codes, to_string}
use memory_latency_analyzer.Report.Rows.{stream}
use memory_latency_analyzer.Operational.Json.{json_escape, bool_word, members_from}
use memory_latency_analyzer.Operational.Scenarios.{
  SyntheticEvent, Rate, ScenarioResult, scenario_result, LabResult, word, tally_all, rate,
}

-- An `int` of which the word is kept, as the stream prints it.
abbrev pub int_text : ℕ → Bytes
int_text w = to_string (if ltb w (2 ^ 31) then pos w else negsuc (2 ^ 32 - 1 - w))

-- What the stream gets for one scenario, up to its closing brace.
abbrev pub scenario_pieces : ScenarioResult → List Bytes → List Bytes
scenario_pieces scenario rest =
    codes "    {\n"
    ∷ codes "      \"name\": \""
    ∷ json_escape scenario.name
    ∷ codes "\",\n"
    ∷ codes "      \"stage\": \""
    ∷ json_escape scenario.stage
    ∷ codes "\",\n"
    ∷ codes "      \"expected_control\": \""
    ∷ json_escape scenario.expected_control
    ∷ codes "\",\n"
    ∷ codes "      \"detected\": "
    ∷ bool_word scenario.detected
    ∷ codes ",\n"
    ∷ codes "      \"recovered\": "
    ∷ bool_word scenario.recovered
    ∷ codes "\n"
    ∷ codes "    }"
    ∷ rest

-- `show` is how the stream prints a rate, rounded to a `double`.
unfoldable pub report_pieces : (Rate → Bytes) → LabResult → List Bytes
unfolding members_from
report_pieces show result =
    codes "{\n"
    ∷ codes "  \"lab\": \"operational_defensive_simulation\",\n"
    ∷ codes "  \"reference_boundary\": \"in_memory_synthetic_state_machine\",\n"
    ∷ codes "  \"runs\": "
    ∷ to_string result.runs
    ∷ codes ",\n"
    ∷ codes "  \"events_generated\": "
    ∷ int_text result.events_generated
    ∷ codes ",\n"
    ∷ codes "  \"detected_events\": "
    ∷ int_text result.detected_events
    ∷ codes ",\n"
    ∷ codes "  \"missed_events\": "
    ∷ int_text result.missed_events
    ∷ codes ",\n"
    ∷ codes "  \"false_positive_events\": "
    ∷ int_text result.false_positive_events
    ∷ codes ",\n"
    ∷ codes "  \"recovery_attempts\": "
    ∷ int_text result.recovery_attempts
    ∷ codes ",\n"
    ∷ codes "  \"recovered_events\": "
    ∷ int_text result.recovered_events
    ∷ codes ",\n"
    ∷ codes "  \"detection_rate_percent\": "
    ∷ show result.detection_rate
    ∷ codes ",\n"
    ∷ codes "  \"false_positive_rate_percent\": "
    ∷ show result.false_positive_rate
    ∷ codes ",\n"
    ∷ codes "  \"recovery_rate_percent\": "
    ∷ show result.recovery_rate
    ∷ codes ",\n"
    ∷ codes "  \"real_network_activity\": false,\n"
    ∷ codes "  \"real_persistence\": false,\n"
    ∷ codes "  \"real_privilege_change\": false,\n"
    ∷ codes "  \"external_process_access\": false,\n"
    ∷ codes "  \"scenarios\": [\n"
    ∷ members_from scenario_pieces (length result.scenarios) 0 result.scenarios
        (codes "  ]\n" ∷ codes "}\n" ∷ [])

-- `opens`: whether the file is opened, `writes`: whether the stream is good at the end. The answer, and what the
-- stream was given.
unfoldable pub write_report :
    (Rate → Bytes) → (opens writes : Bool) → LabResult → Bool × Option Bytes
unfolding stream report_pieces
write_report show opens writes result =
    if opens then (writes, some (stream (report_pieces show result))) else (false, none)

abbrev pub refused_result : ℤ → LabResult
refused_result runs =
    let empty : Rate = record { numerator = 0; denominator = 1 } in
    record {
      runs = runs;
      events_generated = 0;
      detected_events = 0;
      missed_events = 0;
      false_positive_events = 0;
      recovery_attempts = 0;
      recovered_events = 0;
      detection_rate = empty;
      false_positive_rate = empty;
      recovery_rate = empty;
      scenarios = [];
      report_written = false;
    }

-- The result before the report is written.
unfoldable pub count_runs : List SyntheticEvent → ℤ → LabResult
unfolding tally_all
count_runs base runs =
    let n = pos_part runs in
    let c = tally_all base in
    let events = word (length base * n) in
    let detected = word (c.detected * n) in
    let attempts = word (c.attempts * n) in
    let recovered = word (c.recovered * n) in
    record {
      runs = runs;
      events_generated = events;
      detected_events = detected;
      missed_events = word (c.missed * n);
      false_positive_events = n;
      recovery_attempts = attempts;
      recovered_events = recovered;
      detection_rate = rate 0 detected events;
      false_positive_rate = rate 0 n (word (n * 20));
      recovery_rate = rate 100 recovered attempts;
      scenarios = map scenario_result base;
      report_written = false;
    }

unfoldable pub run :
    (Rate → Bytes)
    → List SyntheticEvent
    → (opens writes : Bool) → ℤ
    → Bytes
    → LabResult × Option Bytes
unfolding count_runs write_report
run show base opens writes runs report_path =
    if leb_ℤ runs (pos 0) || length report_path == 0
    then (refused_result runs, none)
    else let result = count_runs base runs in
      let (written, file) = write_report show opens writes result in
      (record result { report_written = written }, file)
