-- ===== src/Session/Matrix.antt =====
-- `run_numa_matrix` of MemoryLatencyAnalyzer_linux/src/main.cpp: for each node that has an allowed CPU a row, for each node
-- a cell of its memory, with a latency and a bandwidth. `none` is the NaN that the matrices are filled with.
use memory_latency_analyzer.Base.{ℕ, Bool, Option, none, some, List, [], ◌∷◌, if◌then◌else◌}
use memory_latency_analyzer.Base.Int.{ℤ, pos, ltb_ℤ}
use memory_latency_analyzer.Base.Text.{codes}
use memory_latency_analyzer.Evaluation.Real.{Real}
use memory_latency_analyzer.Statistics.Summary.{Indexing, summarize_impl}
use memory_latency_analyzer.Statistics.Timer.{Calibrated, rate, thrown}
use memory_latency_analyzer.Topology.Nodes.{Entry, NodeInfo, nodes, first_allowed_cpu_for_node}
use memory_latency_analyzer.Latency.Sizes.{latency_batch}
use memory_latency_analyzer.Latency.Measure.{Cpu, Measurer, construct, measure_forced_miss}
use memory_latency_analyzer.Bandwidth.Buffers.{measure}
use memory_latency_analyzer.Bandwidth.Rates.{bandwidth_result}
use memory_latency_analyzer.Report.Rows.{BandwidthResult}
use memory_latency_analyzer.Session.Sequence.{
  half_int, at_least_one, built, per_access, bandwidth_repeats,
}

pub record Initiator : Type 0 where
  pub node : ℤ
  pub cpu : ℤ

pub record Cell (D : Type 0) : Type 0 where
  pub latency_ns : Option D
  pub bandwidth_gibs : Option D

pub record MatrixRow (D : Type 0) : Type 0 where
  pub initiator : Initiator
  pub cells : List (Cell D)

-- What the system answers while a cell is measured.
pub record Answers (D : Type 0) : Type 0 where
  pub allocated : Bool
  pub timer_overhead : ℕ
  pub tsc_hz : Calibrated D
  pub gives_src : Bool
  pub gives_dst : Bool
  pub times : ℕ → Option (ℕ × ℕ × ℕ)

-- The arguments of the mode.
pub record MatrixArgs : Type 0 where
  pub requested_buffer_size : ℕ
  pub bandwidth_size : ℕ
  pub iterations : ℤ
  pub warmup : ℤ
  pub rounds : ℤ

abbrev pub matrix_args : (buffer bandwidth : ℕ) → (iterations warmup rounds : ℤ) → MatrixArgs
matrix_args buffer bandwidth iterations warmup rounds = record {
  requested_buffer_size = buffer;
  bandwidth_size = bandwidth;
  iterations = iterations;
  warmup = warmup;
  rounds = rounds;
}

abbrev pub add_initiator : ℤ → ℤ → List Initiator → List Initiator
add_initiator node cpu rest =
    if ltb_ℤ cpu (pos 0) then rest else record { node = node; cpu = cpu } ∷ rest

unfoldable pub initiators : Option (List Entry) → List ℤ → List NodeInfo → List Initiator
initiators root allowed_cpus [] = []
initiators root allowed_cpus (n ∷ ns) =
    add_initiator n.id (first_allowed_cpu_for_node root n.id allowed_cpus)
      (initiators root allowed_cpus ns)

module _ (r : Real) (x : Indexing r) (nano beyond : Real.D r) where
  open r use {D, of_nat, mul, div}

  module _ (c : Cpu) (shuffle : List ℕ → List ℕ) where
    open c use {State}

    abbrev pub forced_samples : Option (List ℕ × Measurer × State) → Option (List ℕ)
    forced_samples none = none
    forced_samples (some (samples, _, _)) = some samples

    -- `none` is an exception.
    unfoldable pub cell_samples :
        (available allocated : Bool)
        → (timer_overhead : ℕ) → MatrixArgs
        → ℤ
        → State
        → Option (List ℕ)
    cell_samples available allocated timer_overhead a memory_node s =
        elim (built
          (construct available allocated timer_overhead a.requested_buffer_size 64 memory_node)) [
            | none ↦ none
            | some m ↦ forced_samples (
                measure_forced_miss c shuffle m (at_least_one (half_int a.iterations))
                  (half_int a.warmup) (at_least_one a.rounds) s)
          ]

    abbrev pub latency_of : D → List ℕ → D
    latency_of hz samples =
        div
          (mul (summarize_impl r x beyond (per_access r x nano beyond latency_batch samples)).median
            (of_nat 1000000000))
          hz

    abbrev pub read_rate : Option (BandwidthResult D) → Option D
    read_rate none = none
    read_rate (some b) = some b.read_gb_s

    -- The `try` of a cell: what is stored before an exception stays.
    abbrev pub fill : Option (List ℕ) → Calibrated D → Option (BandwidthResult D) → Cell D
    fill none hz bandwidth = record { latency_ns = none; bandwidth_gibs = none }
    fill (some samples) (thrown e) bandwidth = record { latency_ns = none; bandwidth_gibs = none }
    fill (some samples) (rate hz) bandwidth = record {
      latency_ns = some (latency_of hz samples);
      bandwidth_gibs = read_rate bandwidth;
    }

    unfoldable pub measure_cell : Bool → MatrixArgs → Answers D → ℤ → State → Cell D
    unfolding cell_samples
    measure_cell available a w memory_node s =
        fill (cell_samples available w.allocated w.timer_overhead a memory_node s) w.tsc_hz (
          bandwidth_result r nano
            (measure available w.gives_src w.gives_dst w.times a.bandwidth_size (codes "numa")
              bandwidth_repeats memory_node).0)

    -- `answers` and `states`: what the system answers at an initiator's CPU and a node, and the processor's state.
    unfoldable pub measure_row :
        Bool
        → MatrixArgs
        → (ℤ → ℤ → Answers D)
        → (ℤ → ℤ → State)
        → Initiator
        → List NodeInfo
        → List (Cell D)
    unfolding measure_cell
    measure_row available a answers states i [] = []
    measure_row available a answers states i (n ∷ ns) =
        measure_cell available a (answers i.cpu n.id) n.id (states i.cpu n.id)
        ∷ measure_row available a answers states i ns

    unfoldable pub measure_rows :
        Bool
        → MatrixArgs
        → (ℤ → ℤ → Answers D)
        → (ℤ → ℤ → State)
        → List NodeInfo
        → List Initiator
        → List (MatrixRow D)
    unfolding measure_row
    measure_rows available a answers states ns [] = []
    measure_rows available a answers states ns (i ∷ is) =
        record { initiator = i; cells = measure_row available a answers states i ns }
        ∷ measure_rows available a answers states ns is

    -- The matrix; `latency_ns` is taken as not const, since its cells are assigned. It is empty where there is no node, no allowed CPU or none of these on a node. The code is 0.
    unfoldable pub run_numa_matrix :
        Option (List Entry)
        → List ℤ
        → Bool
        → MatrixArgs
        → (ℤ → ℤ → Answers D)
        → (ℤ → ℤ → State)
        → List (MatrixRow D)
    unfolding initiators measure_rows
    run_numa_matrix root allowed_cpus available a answers states =
        measure_rows available a answers states (nodes root)
          (initiators root allowed_cpus (nodes root))
