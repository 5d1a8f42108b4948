-- ===== src/Session/Exit.antt =====
-- When the mode of the measurements in `main` of MemoryLatencyAnalyzer_linux/src/main.cpp returns 0, and what its file says.
use Prim.Native.String.{String}
use memory_latency_analyzer.Base.{
  ℕ, ◌≤◌, ◌≡◌, refl, ◌⊎◌, inl, inr, Bool, true, false, not, ◌&&◌, ◌||◌, Option, none, some, List,
  [], ◌∷◌, if◌then◌else◌, Bool-cases,
}
use memory_latency_analyzer.Base.Int.{ℤ}
use memory_latency_analyzer.Base.Text.{Bytes, codes}
use memory_latency_analyzer.Cli.Options.{Options}
use memory_latency_analyzer.Cli.Plan.{is_set, launch, start, measure as measure_mode}
use memory_latency_analyzer.Cli.Launch.{launch-IsRunnable}
use memory_latency_analyzer.Evaluation.Real.{Real}
use memory_latency_analyzer.Statistics.Summary.{Indexing}
use memory_latency_analyzer.Statistics.Timer.{Calibrated, rate, thrown}
use memory_latency_analyzer.Latency.Measure.{Cpu, Measurer, construct, is_valid}
use memory_latency_analyzer.Report.Rows.{
  MeasurementResult, BandwidthResult, SharedMemoryResult, write_csv,
}
use memory_latency_analyzer.Session.Sequence.{
  Machine, Ended, is_none, half_int, at_least_one, built, failed, report, with_buffer, with_shared,
  with_rate, with_cpus, run_measurements, bandwidth_results, shared_result,
}
use memory_latency_analyzer.Session.Latencies.{
  halves_valid, construct-ready, construct-none, measure_latency-counts, measure_latency-none,
  has_rooms,
}

module _ (r : Real) (x : Indexing r) (nano beyond : Real.D r) where
  open r use {D}

  module _ (c : Cpu) (shuffle : List ℕ → List ℕ) (w : Machine D) where
    open c use {State}

    abbrev pub has_cpus : List ℤ → Bool
    has_cpus [] = false
    has_cpus (cpu ∷ cpus) = true

    abbrev pub is_rate : Calibrated D → Bool
    is_rate (rate hz) = true
    is_rate (thrown e) = false

    abbrev pub is_some : Option Bytes → Bool
    is_some none = false
    is_some (some text) = true

    abbrev pub has_returned : Option (SharedMemoryResult D) → Bool
    has_returned none = false
    has_returned (some shared) = true

    -- The test of the shared memory, from the first allowed CPU, does not throw where it is made.
    abbrev pub shared_returns : Options → List ℤ → Bool
    shared_returns o [] = false
    shared_returns o (primary ∷ rest) =
        has_returned (shared_result r x nano beyond c shuffle w o primary)

    -- Behind the allocation of the buffer: there is room for the samples, and the shared-memory test returns.
    abbrev pub can_finish : Options → List ℤ → Bool
    can_finish o cpus = has_rooms r x nano beyond c shuffle w o && shared_returns o cpus

    -- Whether there is a CPU, a rate of the clock, memory for the buffer, room for the samples of each measurement, and
    -- no exception in the shared-memory test.
    abbrev pub can_measure : Options → Bool
    can_measure o =
        has_cpus w.allowed_cpus
        && is_rate w.tsc_hz
        && w.buffer_allocated
        && can_finish o w.allowed_cpus

    module _ (show : D → Bytes) where
      -- What the mode ends with, where the measurements are made and where not.
      abbrev pub EndsRight : Options → Bool → Ended → Type 0
      EndsRight o measured e =
          let unnamed = is_none (codes o.csv_file) in
          (e.code ≡ (if measured && (unnamed || w.csv_opens) then 0 else 1))
          × (is_some e.csv ≡ (measured && not unnamed && w.csv_opens))
          × ((is_some e.csv ≡ true) ⊎ (e.history_after ≡ w.history))

      report-EndsRight :
          (o : Options) (hz : D) (latency : List (MeasurementResult D))
          (bandwidth : List (BandwidthResult D)) (shared : SharedMemoryResult D)
          → EndsRight o true (report r x nano beyond c shuffle w show o hz latency bandwidth shared)
      unfolding report write_csv
      report-EndsRight o hz latency bandwidth shared =
          elim (Bool-cases (is_none (codes o.csv_file))) [
            | inl unnamed ↦ rw unnamed (refl, refl, inr refl)
            | inr named ↦ elim (Bool-cases w.csv_opens) [
              | inl opens ↦ rw (named, opens) (refl, refl, inl refl)
              | inr closed ↦ rw (named, closed) (refl, refl, inr refl)
            ]
          ]

      failed-EndsRight : (o : Options) → EndsRight o false (failed r x nano beyond c shuffle w)
      failed-EndsRight o = (refl, refl, inr refl)

      -- The numbers of the measurements are valid, and the node is supported.
      IsMeasurable : Options → Type 0
      IsMeasurable o =
          ((is_set o.numa_node ≡ false) ⊎ (w.numa_available ≡ true))
          × (is_valid o.iterations o.warmup o.rounds ≡ true)
          × (is_valid (at_least_one (half_int o.iterations)) (half_int o.warmup) o.rounds ≡ true)

      with_shared-EndsRight :
          (o : Options) (hz : D) (latency : List (MeasurementResult D))
          (bandwidth : List (BandwidthResult D)) (shared : Option (SharedMemoryResult D))
          → EndsRight o
              (has_returned shared)
              (with_shared r x nano beyond c shuffle w show o hz latency bandwidth shared)
      with_shared-EndsRight o hz latency bandwidth none = failed-EndsRight o
      with_shared-EndsRight o hz latency bandwidth (some shared) =
          report-EndsRight o hz latency bandwidth shared

      some_buffer-EndsRight :
          (o : Options) (primary : ℤ) (rest : List ℤ) (hz : D) (s : State) (m : Measurer)
          → IsMeasurable o
          → 64 ≤ m.count
          → EndsRight o
              (can_finish o (primary ∷ rest))
              (with_buffer r x nano beyond c shuffle w show o primary hz s (some m))
      unfolding IsMeasurable
      some_buffer-EndsRight o primary rest hz s m (_, ok, half_ok) large =
          elim (Bool-cases (has_rooms r x nano beyond c shuffle w o)) [
            | inl rooms ↦
                let (latency, e, _, _) =
                  measure_latency-counts r x nano beyond c shuffle w o m s ok half_ok large rooms in
                rw (e, rooms)
                  (with_shared-EndsRight o hz latency
                    (bandwidth_results r x nano beyond c shuffle w o)
                    (shared_result r x nano beyond c shuffle w o primary))
            | inr full ↦
                rw (measure_latency-none r x nano beyond c shuffle w o m s ok large full, full)
                  (failed-EndsRight o)
          ]

      with_buffer-EndsRight :
          (allocated : Bool) (o : Options) (primary : ℤ) (rest : List ℤ) (hz : D) (s : State)
          → IsMeasurable o
          → EndsRight o (allocated && can_finish o (primary ∷ rest)) (
              with_buffer r x nano beyond c shuffle w show o primary hz s (
                built (
                  construct w.numa_available allocated w.timer_overhead o.buffer_size w.line_size
                    o.numa_node)))
      unfolding IsMeasurable
      with_buffer-EndsRight true o primary rest hz s h =
          let (m, e, large) =
            construct-ready w.numa_available w.timer_overhead o.buffer_size w.line_size o.numa_node
              h.0 in
          rw e (some_buffer-EndsRight o primary rest hz s m h large)
      with_buffer-EndsRight false o primary rest hz s h =
          rw
            (construct-none w.numa_available w.timer_overhead o.buffer_size w.line_size o.numa_node)
            (failed-EndsRight o)

      with_rate-EndsRight :
          (o : Options) (s : State) (primary : ℤ) (rest : List ℤ) (hz : Calibrated D)
          → IsMeasurable o
          → EndsRight o
              (is_rate hz && w.buffer_allocated && can_finish o (primary ∷ rest))
              (with_rate r x nano beyond c shuffle w show o primary s hz)
      with_rate-EndsRight o s primary rest (thrown e) h = failed-EndsRight o
      with_rate-EndsRight o s primary rest (rate hz) h =
          with_buffer-EndsRight w.buffer_allocated o primary rest hz s h

      run-EndsRight :
          (o : Options) (s : State) (cpus : List ℤ)
          → IsMeasurable o
          → EndsRight o
              (has_cpus cpus && is_rate w.tsc_hz && w.buffer_allocated && can_finish o cpus)
              (with_cpus r x nano beyond c shuffle w show o s cpus)
      run-EndsRight o s [] h = failed-EndsRight o
      run-EndsRight o s (primary ∷ rest) h = with_rate-EndsRight o s primary rest w.tsc_hz h

      -- The mode of the measurements, started from any command line, is exact about its end. It returns 0 where there
      -- is an allowed CPU, the clock's rate is found, the buffer is allocated, `samples.reserve` gives room for the
      -- product of iterations and rounds and for that of half the iterations and rounds, the test of the shared memory
      -- does not throw where it is made, and the file of `--csv`, if one is named, can be opened; and 1 otherwise. The
      -- file is written exactly where all of this holds and it is named, and the history is not touched otherwise.
      pub run_measurements_exact :
          (args : List String) (o : Options) (s : State)
          → launch w.numa_available args ≡ start (measure_mode o)
          → EndsRight o (can_measure o) (run_measurements r x nano beyond c shuffle w show o s)
      unfolding run_measurements IsMeasurable
      run_measurements_exact args o s h =
          let (placed, _, _, _, more, warm, again, _) = launch-IsRunnable w.numa_available args h in
          let valid = halves_valid o.iterations o.warmup o.rounds more warm again in
          run-EndsRight o s w.allowed_cpus (placed, valid.0, valid.1)
