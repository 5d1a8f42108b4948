-- ===== src/Session/Table.antt =====
-- What the file of `--csv` says behind the measurements of `main` in MemoryLatencyAnalyzer_linux/src/main.cpp.
use Prim.Native.String.{String}
use mathlib.Core.Option
use memory_latency_analyzer.Base.{
  All, ℕ, ◌≡◌, ◌∙◌, ap, true, false, not, Option, none, some, List, ◌∷◌, if◌then◌else◌, arith,
}
use memory_latency_analyzer.Base.Int.{ℤ}
use memory_latency_analyzer.Base.Text.{Bytes, codes}
use memory_latency_analyzer.Cli.Options.{Options}
use memory_latency_analyzer.Cli.Plan.{launch, start, measure as measure_mode}
use memory_latency_analyzer.Cli.Launch.{launch-IsRunnable}
use memory_latency_analyzer.Evaluation.Real.{Real}
use memory_latency_analyzer.Statistics.Summary.{Indexing}
use memory_latency_analyzer.Statistics.Timer.{rate}
use memory_latency_analyzer.Latency.Measure.{Cpu, construct}
use memory_latency_analyzer.Report.Rows.{BandwidthResult, SharedMemoryResult, MeasurementResult}
use memory_latency_analyzer.Report.Reader.{read_csv, HasNoQuote, IsBare}
use memory_latency_analyzer.Report.Csv.{table, write_csv-read_csv}
use memory_latency_analyzer.Session.Sequence.{
  Machine, is_none, built, report, with_latency, with_shared, with_buffer, with_rate, with_cpus,
  Ended, run_measurements, bandwidth_results, shared_result,
}
use memory_latency_analyzer.Session.SharedRow.{IsSharedRow, shared_result-row}
use memory_latency_analyzer.Session.Rows.{
  names_of, names-NoQuote, bandwidth_names, names_of-bandwidth_results, HasNoQuote-bandwidth_names,
}
use memory_latency_analyzer.Session.Latencies.{
  expected_counts, counts, has_rooms, halves_valid, construct-ready, measure_latency-counts,
}

module _ (r : Real) (x : Indexing r) (nano beyond : Real.D r) where
  open r use {D}

  module _ (c : Cpu) (shuffle : List ℕ → List ℕ) (w : Machine D) where
    open c use {State}

    module _ (show : D → Bytes) (bare : (d : D) → IsBare (show d)) where
      report_csv :
          (o : Options) (hz : D) (latency : List (MeasurementResult D))
          (bandwidth : List (BandwidthResult D)) (shared : SharedMemoryResult D)
          → All (λ m. HasNoQuote m.label) latency
          → All (λ b. HasNoQuote b.allocator) bandwidth
          → w.csv_opens ≡ true
          → is_none (codes o.csv_file) ≡ false
          → Option.map read_csv
              (report r x nano beyond c shuffle w show o hz latency bandwidth shared).csv
            ≡ some (
                table r show hz latency bandwidth
                  (if o.run_shared_memory then some shared else none))
      unfolding report
      report_csv o hz latency bandwidth shared h k opens named =
          let given = if o.run_shared_memory then some shared else none in
          let (written, file, _) =
            write_csv-read_csv r show bare w.csv_opens latency bandwidth given hz h k in
          let wrote : not w.csv_opens ≡ false = ground arith in
          rw (named, written, wrote)
            (file
              ∙ ap (λ b. if b then some (table r show hz latency bandwidth given) else none) opens)

      -- Where the mode of the measurements, started from any command line, finds a CPU, the clock's rate, memory for
      -- the buffer and the samples, no exception in the shared-memory test, and the file of `--csv`, which is named, can
      -- be opened, a reader of CSV finds in this file the table of its results. The hit, miss and store results count one
      -- sample for each iteration of each round, and the five strides one for half the iterations, at least one. The
      -- bandwidths are, in order, those of the methods that are asked for and whose two buffers and clock are given. The
      -- row of the shared memory is there where it is asked for, with the success and the number of samples of its
      -- measurement, and no success where there are fewer than two CPUs.
      pub run_measurements_csv :
          (args : List String) (o : Options) (s : State) (primary : ℤ) (rest : List ℤ) (hz : D)
          (given : SharedMemoryResult D)
          → launch w.numa_available args ≡ start (measure_mode o)
          → w.allowed_cpus ≡ primary ∷ rest
          → w.tsc_hz ≡ rate hz
          → w.buffer_allocated ≡ true
          → has_rooms r x nano beyond c shuffle w o ≡ true
          → shared_result r x nano beyond c shuffle w o primary ≡ some given
          → w.csv_opens ≡ true
          → is_none (codes o.csv_file) ≡ false
          → let e = run_measurements r x nano beyond c shuffle w show o s in
            (latency : List (MeasurementResult D)) × (bandwidth : List (BandwidthResult D))
            × (shared : Option (SharedMemoryResult D)) × (Option.map read_csv e.csv
                ≡ some (table r show hz latency bandwidth shared))
            × (counts r x nano beyond latency ≡ expected_counts o)
            × (names_of r x nano beyond bandwidth ≡ bandwidth_names r x nano beyond c shuffle w o)
            × IsSharedRow r x nano beyond c shuffle w o primary shared
      unfolding run_measurements
      run_measurements_csv args o s primary rest hz given h cpus found allocated rooms tested opens
            named =
          let (placed, _, sized, _, more, warm, again, _) =
            launch-IsRunnable w.numa_available args h in
          let (ok, half_ok) = halves_valid o.iterations o.warmup o.rounds more warm again in
          let (m, made, large) =
            construct-ready w.numa_available w.timer_overhead o.buffer_size w.line_size o.numa_node
              placed in
          let (latency, e, n, labels) =
            measure_latency-counts r x nano beyond c shuffle w o m s ok half_ok large rooms in
          let bandwidth = bandwidth_results r x nano beyond c shuffle w o in
          let steps =
            ap (with_cpus r x nano beyond c shuffle w show o s) cpus
            ∙ ap (with_rate r x nano beyond c shuffle w show o primary s) found
            ∙ ap
                (λ b. with_buffer r x nano beyond c shuffle w show o primary hz s (
                  built (
                    construct w.numa_available b w.timer_overhead o.buffer_size w.line_size
                      o.numa_node)))
                allocated
            ∙ ap (with_buffer r x nano beyond c shuffle w show o primary hz s) made
            ∙ ap (with_latency r x nano beyond c shuffle w show o primary hz) e
            ∙ ap (with_shared r x nano beyond c shuffle w show o hz latency bandwidth) tested in
          let names = names_of-bandwidth_results r x nano beyond c shuffle w o placed sized in
          let quotes =
            names-NoQuote r x nano beyond bandwidth
              (rw names (HasNoQuote-bandwidth_names r x nano beyond c shuffle w o)) in
          let read = report_csv o hz latency bandwidth given labels quotes opens named in
          (
            latency,
            bandwidth,
            (if o.run_shared_memory then some given else none),
            ap (λ (ended : Ended). Option.map read_csv ended.csv) steps ∙ read,
            n,
            names,
            shared_result-row r x nano beyond c shuffle w o primary given tested,
          )
