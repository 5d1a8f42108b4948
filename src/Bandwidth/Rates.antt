-- ===== src/Bandwidth/Rates.antt =====
-- The rates of MemoryLatencyAnalyzer_linux/src/bandwidth_measurer.cpp: what `measure` makes of the times of its repeats.
use memory_latency_analyzer.Base.{
  ℕ, ◌*◌, ◌/◌, Option, none, some, List, [], ◌∷◌, map, length, get_or, ◌==◌, if◌then◌else◌,
}
use memory_latency_analyzer.Base.Sort.{sort_by}
use memory_latency_analyzer.Evaluation.Real.{Real}
use memory_latency_analyzer.Bandwidth.Buffers.{
  Outcome, invalid_argument, allocation_failed, clock_failed, measured,
}
use memory_latency_analyzer.Report.Rows.{BandwidthResult}

-- `nano` is the literal 1e-9.
module _ (r : Real) (nano : Real.D r) where
  open r use {D, of_nat, mul, div, lt}

  unfoldable pub median : List D → D
  median [] = of_nat 0
  median (v ∷ vs) = get_or (sort_by lt (v ∷ vs)) (length (v ∷ vs) / 2) (of_nat 0)

  unfoldable pub gib_per_second : ℕ → ℕ → D
  gib_per_second bytes elapsed_ns =
      if elapsed_ns == 0
      then of_nat 0
      else div (div (of_nat bytes) (of_nat (1024 * 1024 * 1024))) (mul (of_nat elapsed_ns) nano)

  -- `none` is an exception.
  unfoldable pub bandwidth_result : Outcome → Option (BandwidthResult D)
  unfolding median gib_per_second
  bandwidth_result invalid_argument = none
  bandwidth_result allocation_failed = none
  bandwidth_result clock_failed = none
  bandwidth_result (measured allocator size times) = some (record {
    allocator = allocator;
    size_bytes = size;
    read_gb_s = median (map (λ t. gib_per_second size t.0) times);
    write_gb_s = median (map (λ t. gib_per_second size t.1) times);
    copy_gb_s = median (map (λ t. gib_per_second size t.2) times);
  })
