-- ===== src/Operational/Counts.antt =====
-- What the counters of MemoryLatencyAnalyzer_linux/src/operational_lab.cpp add up to.
use memory_latency_analyzer.Base.{
  ℕ, ◌+◌, ◌*◌, ◌≤◌, ◌<◌, ◌≡◌, refl, Bool, true, false, ◌&&◌, ◌==◌, List, [], ◌∷◌, length, arith,
}
use memory_latency_analyzer.Base.Int.{pos, leb_ℤ}
use memory_latency_analyzer.Base.Text.{Bytes}
use memory_latency_analyzer.Operational.Scenarios.{
  SyntheticEvent, Rate, LabResult, tally_all, scenarios,
}
use memory_latency_analyzer.Operational.Run.{run, count_runs, write_report}

tally_all_lem :
    (es : List SyntheticEvent)
    → let c = tally_all es in
      (c.detected + c.missed ≡ length es) × (c.recovered ≡ c.attempts) × (c.attempts ≤ c.detected)
unfolding tally_all
tally_all_lem [] = (refl, refl, omega arith)
tally_all_lem (e ∷ es) = ground (arith, tally_all_lem es)

write_report_lem :
    (show : Rate → Bytes) (opens writes : Bool) (result : LabResult)
    → (write_report show opens writes result).0 ≡ (opens && writes)
unfolding write_report
write_report_lem show true writes result = refl
write_report_lem show false writes result = refl

-- For up to 107374182 runs and a path no counter of the nine scenarios wraps around: every event is detected
-- and recovered, none is missed, and of the twenty benign events of a run one is a false positive; the report
-- is written where the file opens and the stream is good at the end.
pub run_counts_exact :
    (show : Rate → Bytes) (opens writes : Bool) (n : ℕ) (path : Bytes)
    → 0 < n
    → n ≤ 107374182
    → 0 < length path
    → let result = (run show scenarios opens writes (pos n) path).0 in
      (result.events_generated ≡ 9 * n)
      × (result.detected_events ≡ result.events_generated)
      × (result.missed_events ≡ 0)
      × (result.recovered_events ≡ result.recovery_attempts)
      × (result.recovery_attempts ≡ result.detected_events)
      × (result.false_positive_rate ≡ record { numerator = 100 * n; denominator = 20 * n })
      × (result.report_written ≡ (opens && writes))
unfolding run count_runs write_report scenarios
run_counts_exact show opens writes n path more less named =
    let positive : leb_ℤ (pos n) (pos 0) ≡ false = ground arith in
    let some_path : (length path == 0) ≡ false = ground arith in
    rw (positive, some_path)
      (
        omega arith,
        omega arith,
        omega arith,
        omega arith,
        omega arith,
        ground arith,
        write_report_lem show opens writes (count_runs scenarios (pos n)),
      )
