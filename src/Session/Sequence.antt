-- ===== src/Session/Sequence.antt =====
-- The measurements at the end of `main` in MemoryLatencyAnalyzer_linux/src/main.cpp, from the pinning to the files: the
-- components one behind the other, and the code that is returned. What is printed is not modelled.
use memory_latency_analyzer.Base.{
  ℕ, ◌+◌, ◌/◌, Bool, true, false, not, Option, none, some, List, [], ◌∷◌, ◌++◌, map, length, ltb,
  if◌then◌else◌, ◌>>=◌,
}
use memory_latency_analyzer.Base.Int.{ℤ, pos, negsuc, signed, leb_ℤ}
use memory_latency_analyzer.Base.Text.{Bytes, codes, print_nat}
use memory_latency_analyzer.Cli.Options.{Options}
use memory_latency_analyzer.Cli.Plan.{is_set}
use memory_latency_analyzer.Evaluation.Real.{Real}
use memory_latency_analyzer.Statistics.Summary.{
  Indexing, empty_summary, summarize_impl, summarize_cycles,
}
use memory_latency_analyzer.Statistics.Timer.{Calibrated, rate, thrown}
use memory_latency_analyzer.Topology.Cores.{Sysfs, choose_distinct_cpu}
use memory_latency_analyzer.Latency.Sizes.{latency_batch, store_batch}
use memory_latency_analyzer.Latency.Measure.{
  Cpu, Measurer, Constructed, ready, thrown as construct_thrown, construct, measure_hit,
  measure_store, measure_forced_miss, measure_strides,
}
use memory_latency_analyzer.Bandwidth.Buffers.{measure}
use memory_latency_analyzer.Bandwidth.Rates.{bandwidth_result}
use memory_latency_analyzer.Shared.Measure.{World, Result, measure_cross_process}
use memory_latency_analyzer.Report.Rows.{
  MeasurementResult, BandwidthResult, SharedMemoryResult, write_csv, append_history,
}

-- What the system and the clock answer during the run.
pub record Machine (D : Type 0) : Type 0 where
  pub allowed_cpus : List ℤ
  pub tsc_hz : Calibrated D
  pub line_size : ℕ
  pub numa_available : Bool
  pub buffer_allocated : Bool
  pub timer_overhead : ℕ
  -- For each method of the bandwidth: whether the two buffers are given, and the times of a repeat,
  -- `none` where the clock throws.
  pub gives_src : Bytes → Bool
  pub gives_dst : Bytes → Bool
  pub times : Bytes → ℕ → Option (ℕ × ℕ × ℕ)
  pub sysfs : Sysfs
  pub shared : World
  pub csv_opens : Bool
  pub history_opens : Bool
  pub timestamp : Bytes
  pub history : Bytes

-- What the mode ends with: the code, the file of `--csv` and the history.
pub record Ended : Type 0 where
  pub code : ℕ
  pub csv : Option Bytes
  pub history_after : Bytes

abbrev pub is_none : Bytes → Bool
is_none [] = true
is_none (c ∷ s) = false

-- `iterations / 2`, which C++ rounds towards 0, and `std::max(1, …)`.
abbrev pub half_int : ℤ → ℤ
half_int (pos n) = pos (n / 2)
half_int (negsuc n) = signed true ((n + 1) / 2)

abbrev pub at_least_one : ℤ → ℤ
at_least_one z = if leb_ℤ z (pos 1) then pos 1 else z

abbrev pub stride_list : List ℕ
stride_list = 64 ∷ 256 ∷ 1024 ∷ 4096 ∷ 16384 ∷ []

-- `Config::BANDWIDTH_REPEATS` and `Config::DEFAULT_SHM_WARMUP`.
abbrev pub bandwidth_repeats : ℤ
bandwidth_repeats = pos 5

abbrev pub shm_warmup : ℤ
shm_warmup = pos 200

abbrev pub built : Constructed → Option Measurer
built (ready m) = some m
built (construct_thrown e) = none

module _ (r : Real) (x : Indexing r) (nano beyond : Real.D r) where
  open r use {D, of_nat, div}

  -- The net cycles of the batches as cycles of an access, summarized.
  abbrev pub per_access : ℕ → List ℕ → List D
  per_access batch samples = map (λ net. div (of_nat net) (of_nat batch)) samples

  abbrev pub result_of : Bytes → ℕ → List ℕ → MeasurementResult D
  result_of label batch samples = record {
    label = label;
    stats = summarize_impl r x beyond (per_access batch samples);
  }

  abbrev pub stride_result : ℕ × List ℕ → MeasurementResult D
  stride_result (stride, samples) =
      result_of (codes "Stride " ++ (print_nat stride ++ codes " B (dependent pointer chase)"))
        latency_batch samples

  module _ (c : Cpu) (shuffle : List ℕ → List ℕ) (w : Machine D) where
    open c use {State}

    -- `none` is an exception.
    unfoldable pub measure_latency :
        Options → Measurer → State → Option (List (MeasurementResult D))
    measure_latency o m s = do
      (hits, m1, s1) ← measure_hit c m o.iterations o.warmup o.rounds s
      (misses, m2, s2) ← measure_forced_miss c shuffle m1 o.iterations o.warmup o.rounds s1
      (stores, m3, s3) ← measure_store c m2 o.iterations o.warmup o.rounds s2
      (strides, _) ←
          measure_strides c m3 stride_list (at_least_one (half_int o.iterations))
            (half_int o.warmup) o.rounds s3
      some (
          result_of (codes "Cache Hit (L1 pointer-chasing latency)") latency_batch hits
          ∷ result_of (codes "Forced Cache Miss (random pointer chase + CLFLUSH)") latency_batch
              misses
          ∷ result_of (codes "Store (hot lines; issue throughput per store)") store_batch stores
          ∷ map stride_result strides)

    abbrev pub none_node : ℤ
    none_node = negsuc 0

    -- One call of `BandwidthMeasurer::measure`; `none` is an exception, which is caught.
    abbrev pub bandwidth_of : Options → ℤ → Bytes → Option (BandwidthResult D)
    bandwidth_of o node method =
        bandwidth_result r nano
          (measure w.numa_available (w.gives_src method) (w.gives_dst method) (w.times method)
            o.bandwidth_size method bandwidth_repeats node).0

    abbrev pub keep :
        Option (BandwidthResult D) → List (BandwidthResult D) → List (BandwidthResult D)
    keep none results = results
    keep (some b) results = b ∷ results

    unfoldable pub gather : Options → ℤ → List Bytes → List (BandwidthResult D)
    gather o node [] = []
    gather o node (method ∷ methods) = keep (bandwidth_of o node method) (gather o node methods)

    unfoldable pub bandwidth_results : Options → List (BandwidthResult D)
    unfolding gather
    bandwidth_results o =
        if not o.run_bandwidth
        then []
        else if is_set o.numa_node
        then gather o o.numa_node (codes "numa" ∷ [])
        else gather o none_node (codes "mmap" ∷ codes "malloc" ∷ codes "LargePage" ∷ [])

    abbrev pub no_shared_result : SharedMemoryResult D
    no_shared_result = record { stats = empty_summary r x; success = false }

    abbrev pub summarized : Option Result → Option (SharedMemoryResult D)
    summarized none = none
    summarized (some result) =
        some
          (record { stats = summarize_cycles r x beyond result.samples; success = result.success })

    -- The round trips, where there are two CPUs for them; `none` is an exception.
    unfoldable pub shared_result : Options → ℤ → Option (SharedMemoryResult D)
    shared_result o primary =
        let secondary = choose_distinct_cpu w.sysfs primary w.allowed_cpus in
        if not o.run_shared_memory
        then some no_shared_result
        else if ltb (length w.allowed_cpus) 2
        then some no_shared_result
        else summarized
            (measure_cross_process w.shared o.shm_iterations shm_warmup primary secondary).0

    abbrev pub failed : Ended
    failed = record { code = 1; csv = none; history_after = w.history }

    module _ (show : D → Bytes) where
      -- The reporting.
      unfoldable pub report :
          Options
          → D
          → List (MeasurementResult D)
          → List (BandwidthResult D)
          → SharedMemoryResult D
          → Ended
      report o hz latency bandwidth shared =
          let (written, file) =
            write_csv r show w.csv_opens latency bandwidth
              (if o.run_shared_memory then some shared else none) hz in
          let (_, history) =
            append_history r show w.history_opens w.timestamp w.history latency bandwidth in
          if is_none (codes o.csv_file)
          then record { code = 0; csv = none; history_after = w.history }
          else if not written
          then record { code = 1; csv = file; history_after = w.history }
          else record { code = 0; csv = file; history_after = history }

      abbrev pub with_shared :
          Options
          → D
          → List (MeasurementResult D)
          → List (BandwidthResult D)
          → Option (SharedMemoryResult D)
          → Ended
      with_shared o hz latency bandwidth none = failed
      with_shared o hz latency bandwidth (some shared) = report o hz latency bandwidth shared

      abbrev pub with_latency : Options → ℤ → D → Option (List (MeasurementResult D)) → Ended
      with_latency o primary hz none = failed
      with_latency o primary hz (some latency) =
          with_shared o hz latency (bandwidth_results o) (shared_result o primary)

      abbrev pub with_buffer : Options → ℤ → D → State → Option Measurer → Ended
      with_buffer o primary hz s none = failed
      with_buffer o primary hz s (some m) = with_latency o primary hz (measure_latency o m s)

      abbrev pub with_rate : Options → ℤ → State → Calibrated D → Ended
      with_rate o primary s (thrown e) = failed
      with_rate o primary s (rate hz) = with_buffer o primary hz s (
          built (
            construct w.numa_available w.buffer_allocated w.timer_overhead o.buffer_size w.line_size
              o.numa_node))

      abbrev pub with_cpus : Options → State → List ℤ → Ended
      with_cpus o s [] = failed
      with_cpus o s (primary ∷ rest) = with_rate o primary s w.tsc_hz

      -- The pinning and the priority are asked for; what they answer changes no result.
      unfoldable pub run_measurements : Options → State → Ended
      unfolding measure_latency bandwidth_results shared_result report
      run_measurements o s = with_cpus o s w.allowed_cpus
