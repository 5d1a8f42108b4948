-- ===== src/Latency/Examples.antt =====
-- Tests and examples of the model of MemoryLatencyAnalyzer_linux/src/latency_measurer.cpp.
use memory_latency_analyzer.Base.{
  ◌⊎◌, ltb, ℕ, zero, suc, ◌+◌, ◌*◌, ◌%◌, ◌≤◌, ◌<◌, ◌≡◌, ◌≢◌, refl, List, [], ◌∷◌, get_or, replicate,
  arith,
}
use memory_latency_analyzer.Base.Int.{negsuc}
use memory_latency_analyzer.Latency.Rings.{
  count_from, build_random_ring, build_stride_ring, chase_path, chase_end, flush_path, whole_stride,
}
use memory_latency_analyzer.Latency.RandomRing.{
  IsOrder, random_ring-flush_path, random_ring_distinct,
}
use memory_latency_analyzer.Latency.StrideRing.{stride_ring_exact}
use memory_latency_analyzer.Latency.Measure.{Cpu, Measurer, sample_miss, timed}
use memory_latency_analyzer.Latency.Samples.{sample_miss_exact, load_all, flush_all}

-- A processor that only counts what it does.
abbrev counter : Cpu
counter = record {
  State = ℕ;
  load = λ k s. s + 3;
  store = λ k s. s + 2;
  flush = λ k s. s + 1;
  fence = λ s. s;
  stamp_start = λ s. (s, s);
  stamp_end = λ s. (s, s);
  reserves = λ n. ltb n 1000000;
}

abbrev turned : List ℕ → List ℕ
turned xs = 2 ∷ 0 ∷ 1 ∷ []

turned_lt : (i : ℕ) → i < 3 → get_or (turned []) i 0 < 3
turned_lt zero h = omega arith
turned_lt (suc zero) h = omega arith
turned_lt (suc (suc zero)) h = omega arith
turned_lt (suc (suc (suc i))) h = absurd (omega arith)

turned_ne : (i j : ℕ) → i < j → j < 3 → get_or (turned []) i 0 ≢ get_or (turned []) j 0
turned_ne zero (suc zero) h k e = omega arith
turned_ne zero (suc (suc zero)) h k e = omega arith
turned_ne (suc zero) (suc (suc zero)) h k e = omega arith
turned_ne (suc zero) (suc zero) h k e = omega arith
turned_ne (suc (suc i)) (suc zero) h k e = omega arith
turned_ne (suc (suc i)) (suc (suc zero)) h k e = omega arith
turned_ne i zero h k e = omega arith
turned_ne i (suc (suc (suc j))) h k e = omega arith

turned-IsOrder : IsOrder 3 (turned (count_from 3 0))
turned-IsOrder = record { order_length = refl; order_lt = turned_lt; order_ne = turned_ne }

random_ring-flush_path_example :
    chase_path (build_random_ring turned 3 (replicate 3 0)).1 0 5
    ≡ flush_path (build_random_ring turned 3 (replicate 3 0)).0 1 5 0
unfolding build_random_ring
random_ring-flush_path_example =
    random_ring-flush_path turned 3 turned-IsOrder (replicate 3 0) 1 5 refl (omega arith)

random_ring_distinct_example :
    get_or (chase_path (build_random_ring turned 3 (replicate 3 0)).1 0 3) 0 0
    ≢ get_or (chase_path (build_random_ring turned 3 (replicate 3 0)).1 0 3) 2 0
unfolding build_random_ring
random_ring_distinct_example =
    random_ring_distinct turned 3 turned-IsOrder (replicate 3 0) 1 3 0 2 refl (omega arith)
      (omega arith) (omega arith) (omega arith)

-- The path itself.
path_run : chase_path (build_random_ring turned 3 (replicate 3 0)).1 0 5 ≡ 0 ∷ 1 ∷ 2 ∷ 0 ∷ 1 ∷ []
unfolding chase_path build_random_ring
path_run = refl

abbrev small : Measurer
small = record {
  size = 192;
  count = 3;
  line_size = 64;
  numa_node = negsuc 0;
  overhead = 4;
  nodes = 0 ∷ 0 ∷ 0 ∷ [];
  random_order = [];
}

sample_miss_exact_example :
    sample_miss counter small
      (build_random_ring turned 3 small.nodes).0
      (build_random_ring turned 3 small.nodes).1
      1
      7
    ≡ timed counter 4
        (load_all counter (flush_path (build_random_ring turned 3 small.nodes).0 1 128 0))
        (flush_all counter (flush_path (build_random_ring turned 3 small.nodes).0 1 128 0) 7)
sample_miss_exact_example =
    sample_miss_exact counter turned 3 turned-IsOrder small 1 7 refl (omega arith)

stride_ring_exact_example :
    (lines : ℕ) × (whole_stride 200 ≡ lines * 64)
    × (1 ≤ lines)
    × ((lines * 64 ≤ 200) ⊎ ((lines ≡ 1) × (200 < 64)))
    × (200 < (lines + 1) * 64)
    × (chase_end (build_stride_ring 8 (whole_stride 200) (replicate 8 0)) 2 5 ≡ (2 + 5 * lines) % 8)
stride_ring_exact_example = stride_ring_exact 8 200 (replicate 8 0) 2 5 refl (omega arith)
