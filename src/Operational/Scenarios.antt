-- ===== src/Operational/Scenarios.antt =====
-- The scenarios of MemoryLatencyAnalyzer_linux/src/operational_lab.cpp, its result and its counters. A counter is an
-- `int`, kept as its 32-bit word; a rate is the exact quotient that the source rounds.
use Prim.Native.String.{String}
use memory_latency_analyzer.Base.{
  ℕ, ◌+◌, ◌*◌, ◌%◌, ◌^◌, Bool, true, ◌&&◌, List, [], ◌∷◌, ◌==◌, if◌then◌else◌,
}
use memory_latency_analyzer.Base.Int.{ℤ}
use memory_latency_analyzer.Base.Text.{Bytes, codes}

pub record SyntheticEvent : Type 0 where
  pub name : String
  pub stage : String
  pub control : String
  pub detectable : Bool
  pub recoverable : Bool

abbrev pub event : String → String → String → SyntheticEvent
event name stage control = record {
  name = name;
  stage = stage;
  control = control;
  detectable = true;
  recoverable = true;
}

unfoldable pub scenarios : List SyntheticEvent
scenarios =
    event "synthetic_target_access" "target_access" "EDR + least privilege"
    ∷ event "synthetic_privilege_change" "privilege_attempt" "least privilege"
    ∷ event "synthetic_persistence" "persistence" "persistence monitoring"
    ∷ event "synthetic_defense_evasion" "evasion" "EDR"
    ∷ event "synthetic_command_channel" "command_and_control" "network monitoring"
    ∷ event "synthetic_sensitive_collection" "collection" "DLP + data-flow monitoring"
    ∷ event "synthetic_data_staging" "staging" "DLP + EDR"
    ∷ event "synthetic_data_transfer" "exfiltration" "DLP + microsegmentation"
    ∷ event "synthetic_cleanup" "recovery" "incident response"
    ∷ []

pub record Rate : Type 0 where
  pub numerator : ℕ
  pub denominator : ℕ

pub record ScenarioResult : Type 0 where
  pub name : Bytes
  pub stage : Bytes
  pub expected_control : Bytes
  pub detected : Bool
  pub recovered : Bool

abbrev pub scenario_result : SyntheticEvent → ScenarioResult
scenario_result e = record {
  name = codes e.name;
  stage = codes e.stage;
  expected_control = codes e.control;
  detected = e.detectable;
  recovered = e.recoverable;
}

pub record LabResult : Type 0 where
  pub runs : ℤ
  pub events_generated : ℕ
  pub detected_events : ℕ
  pub missed_events : ℕ
  pub false_positive_events : ℕ
  pub recovery_attempts : ℕ
  pub recovered_events : ℕ
  pub detection_rate : Rate
  pub false_positive_rate : Rate
  pub recovery_rate : Rate
  pub scenarios : List ScenarioResult
  pub report_written : Bool

pub record Counters : Type 0 where
  pub detected : ℕ
  pub missed : ℕ
  pub attempts : ℕ
  pub recovered : ℕ

abbrev pub word : ℕ → ℕ
word n = n % 2 ^ 32

-- The counters of one scenario.
abbrev pub tally : SyntheticEvent → Counters → Counters
tally e c = record {
  detected = (if e.detectable then 1 else 0) + c.detected;
  missed = (if e.detectable then 0 else 1) + c.missed;
  attempts = (if e.detectable && e.recoverable then 1 else 0) + c.attempts;
  recovered = (if e.detectable && e.recoverable then 1 else 0) + c.recovered;
}

-- The loop over the scenarios; the order does not matter to a sum.
unfoldable pub tally_all : List SyntheticEvent → Counters
tally_all [] = record { detected = 0; missed = 0; attempts = 0; recovered = 0 }
tally_all (e ∷ es) = tally e (tally_all es)

-- `otherwise` percent where the denominator is 0.
abbrev pub rate : ℕ → ℕ → ℕ → Rate
rate otherwise numerator denominator =
    if denominator == 0
    then record { numerator = otherwise; denominator = 1 }
    else record { numerator = 100 * numerator; denominator = denominator }
