-- ===== src/Defensive/Lab.antt =====
-- `make_events`, `write_report` and `DefensiveLab::run` of MemoryLatencyAnalyzer_linux/src/defensive_lab.cpp. The
-- processor, the arithmetic of `double` and how a stream prints one are parameters, as are the answers of
-- the file: `opens`, and `writes` for the state of the stream at the end.
use memory_latency_analyzer.Base.{
  ℕ, suc, Bool, true, false, ◌||◌, Option, none, some, List, [], ◌∷◌, length, ◌==◌, if◌then◌else◌,
}
use memory_latency_analyzer.Base.Int.{ℤ, pos, pos_part, leb_ℤ, eq_ℤ}
use memory_latency_analyzer.Base.Text.{Bytes, codes, print_nat, to_string}
use memory_latency_analyzer.Evaluation.Real.{Real}
use memory_latency_analyzer.Spectre.Machine.{Machine}
use memory_latency_analyzer.Spectre.Reader.{LabResult, run_reliability_lab}
use memory_latency_analyzer.Operational.Json.{json_escape, bool_word, members_from}
use memory_latency_analyzer.Report.Rows.{stream}

pub record LabEvent : Type 0 where
  pub name : Bytes
  pub action : Bytes
  pub disposition : Bytes
  pub alert : Bool
  pub confirmed : Bool

abbrev lab_event : Bytes → Bytes → Bytes → Bool → Bool → LabEvent
lab_event name action disposition alert confirmed = record {
  name = name;
  action = action;
  disposition = disposition;
  alert = alert;
  confirmed = confirmed;
}

abbrev pub make_events : List LabEvent
make_events =
    lab_event (codes "spectre_reliability_fixture") (codes "observe")
      (codes "allowed_local_fixture") true true
    ∷ lab_event (codes "simulated_local_collection") (codes "simulate") (codes "no_secret_export")
        true true
    ∷ lab_event (codes "simulated_export") (codes "simulate") (codes "metrics_only_local_file") true
        true
    ∷ lab_event (codes "network_egress") (codes "simulate") (codes "blocked_not_performed") false
        false
    ∷ lab_event (codes "persistence") (codes "simulate") (codes "blocked_not_performed") false false
    ∷ []

-- The counters that the loops over the events keep, in `run` and in `write_report`.
pub record Alerts : Type 0 where
  pub alerts : ℕ
  pub confirmed_alerts : ℕ
  pub false_positives : ℕ

abbrev pub no_alerts : Alerts
no_alerts = record { alerts = 0; confirmed_alerts = 0; false_positives = 0 }

unfoldable pub count_event : LabEvent → Alerts → Alerts
count_event e a =
    if e.alert
    then if e.confirmed
      then record {
        alerts = suc a.alerts;
        confirmed_alerts = suc a.confirmed_alerts;
        false_positives = a.false_positives;
      }
      else record {
        alerts = suc a.alerts;
        confirmed_alerts = a.confirmed_alerts;
        false_positives = suc a.false_positives;
      }
    else a

unfoldable pub count_events : List LabEvent → Alerts → Alerts
unfolding count_event
count_events [] a = a
count_events (e ∷ es) a = count_events es (count_event e a)

-- What the stream gets for one event, up to its closing brace.
abbrev pub event_pieces : LabEvent → List Bytes → List Bytes
event_pieces e rest =
    codes "    {\n"
    ∷ codes "      \"name\": \""
    ∷ json_escape e.name
    ∷ codes "\",\n"
    ∷ codes "      \"action\": \""
    ∷ json_escape e.action
    ∷ codes "\",\n"
    ∷ codes "      \"disposition\": \""
    ∷ json_escape e.disposition
    ∷ codes "\",\n"
    ∷ codes "      \"alert\": "
    ∷ bool_word e.alert
    ∷ codes ",\n"
    ∷ codes "      \"confirmed\": "
    ∷ bool_word e.confirmed
    ∷ codes "\n"
    ∷ codes "    }"
    ∷ rest

pub record DefensiveLabResult (D : Type 0) : Type 0 where
  pub runs : ℤ
  pub tries_per_byte : ℤ
  pub byte_accuracy_percent : D
  pub exact_recovery_rate_percent : D
  pub simulated_alerts : ℕ
  pub simulated_confirmed_alerts : ℕ
  pub simulated_false_positives : ℕ
  pub report_written : Bool
  pub report_path : Bytes

module _ (r : Real) (show : Real.D r → Bytes) where
  open r use {D, of_nat, mul, div}

  unfoldable pub report_pieces :
      LabResult → (byte_accuracy exact_rate : D) → List LabEvent → List Bytes
  unfolding count_events members_from
  report_pieces spectre byte_accuracy exact_rate events =
      let counted = count_events events no_alerts in
      codes "{\n"
      ∷ codes "  \"lab\": \"phase5_defensive_lab\",\n"
      ∷ codes "  \"scope\": \"self_contained_local_fixture\",\n"
      ∷ codes "  \"runs\": "
      ∷ to_string spectre.runs
      ∷ codes ",\n"
      ∷ codes "  \"tries_per_byte\": "
      ∷ to_string spectre.tries_per_byte
      ∷ codes ",\n"
      ∷ codes "  \"byte_accuracy_percent\": "
      ∷ show byte_accuracy
      ∷ codes ",\n"
      ∷ codes "  \"exact_recovery_rate_percent\": "
      ∷ show exact_rate
      ∷ codes ",\n"
      ∷ codes "  \"simulated_alerts\": "
      ∷ print_nat counted.alerts
      ∷ codes ",\n"
      ∷ codes "  \"simulated_confirmed_alerts\": "
      ∷ print_nat counted.confirmed_alerts
      ∷ codes ",\n"
      ∷ codes "  \"simulated_false_positives\": "
      ∷ print_nat counted.false_positives
      ∷ codes ",\n"
      ∷ codes "  \"network_access_performed\": false,\n"
      ∷ codes "  \"persistence_performed\": false,\n"
      ∷ codes "  \"external_process_access\": false,\n"
      ∷ codes "  \"events\": [\n"
      ∷ members_from event_pieces (length events) 0 events (codes "  ]\n" ∷ codes "}\n" ∷ [])

  -- The result, and what the stream was given where the file was opened.
  unfoldable pub write_report :
      (opens writes : Bool)
      → LabResult
      → (byte_accuracy exact_rate : D) → List LabEvent
      → Bool × Option Bytes
  unfolding stream report_pieces
  write_report opens writes spectre byte_accuracy exact_rate events =
      if opens
      then (writes, some (stream (report_pieces spectre byte_accuracy exact_rate events)))
      else (false, none)

  unfoldable pub byte_accuracy_of : LabResult → D
  byte_accuracy_of spectre =
      if spectre.total_bytes == 0
      then of_nat 0
      else div (mul (of_nat 100) (of_nat spectre.correct_bytes)) (of_nat spectre.total_bytes)

  -- The runs are positive where `run` computes this.
  unfoldable pub exact_rate_of : LabResult → D
  exact_rate_of spectre =
      if eq_ℤ spectre.runs (pos 0)
      then of_nat 0
      else div (mul (of_nat 100) (of_nat spectre.exact_matches)) (of_nat (pos_part spectre.runs))

  abbrev pub refused_result : ℤ → ℤ → Bytes → DefensiveLabResult D
  refused_result runs tries report_path = record {
    runs = runs;
    tries_per_byte = tries;
    byte_accuracy_percent = of_nat 0;
    exact_recovery_rate_percent = of_nat 0;
    simulated_alerts = 0;
    simulated_confirmed_alerts = 0;
    simulated_false_positives = 0;
    report_written = false;
    report_path = report_path;
  }

  -- What `run` makes of the reliability lab: the result, and the file.
  unfoldable pub lab_report :
      (opens writes : Bool) → ℤ → ℤ → Bytes → LabResult → DefensiveLabResult D × Option Bytes
  unfolding count_events write_report byte_accuracy_of exact_rate_of
  lab_report opens writes runs tries report_path spectre =
      let counted = count_events make_events no_alerts in
      let (written, file) =
        write_report opens writes spectre (byte_accuracy_of spectre) (exact_rate_of spectre)
          make_events in
      (
        record {
          runs = runs;
          tries_per_byte = tries;
          byte_accuracy_percent = byte_accuracy_of spectre;
          exact_recovery_rate_percent = exact_rate_of spectre;
          simulated_alerts = counted.alerts;
          simulated_confirmed_alerts = counted.confirmed_alerts;
          simulated_false_positives = counted.false_positives;
          report_written = written;
          report_path = report_path;
        },
        file,
      )

  -- `array1` is the memory of the reliability lab; its state comes back too.
  unfoldable pub run :
      (m : Machine)
      → List ℕ
      → (opens writes : Bool) → ℤ
      → ℤ
      → Bytes
      → m.State
      → DefensiveLabResult D × Option Bytes × m.State
  unfolding lab_report
  run m array1 opens writes runs tries report_path s =
      if leb_ℤ runs (pos 0) || leb_ℤ tries (pos 0) || length report_path == 0
      then (refused_result runs tries report_path, none, s)
      else let (spectre, s') = run_reliability_lab m array1 runs tries s in
        let (result, file) = lab_report opens writes runs tries report_path spectre in
        (result, file, s')
