-- ===== src/Session/Examples.antt =====
-- Tests and examples of the sequence of measurements, on a machine that counts.
use Prim.Native.String.{String}
use mathlib.Core.Option
use memory_latency_analyzer.Base.{
  ℕ, ◌+◌, ◌*◌, ◌≡◌, refl, true, some, List, [], ◌∷◌, ltb, map, arith, All,
}
use memory_latency_analyzer.Base.Int.{ℤ, pos, eq_ℤ}
use memory_latency_analyzer.Base.Text.{codes, print_nat}
use memory_latency_analyzer.Cli.Options.{Options, defaults, flag_of}
use memory_latency_analyzer.Cli.Parse.{round, handle}
use memory_latency_analyzer.Cli.Plan.{launch, start, measure, numa_matrix}
use memory_latency_analyzer.Statistics.Hundredths.{hundredths, places}
use memory_latency_analyzer.Statistics.Timer.{rate}
use memory_latency_analyzer.Latency.Measure.{Cpu}
use memory_latency_analyzer.Topology.Nodes.{Entry, nodes}
use memory_latency_analyzer.Topology.Cores.{choose_distinct_cpu, cpu_topology_pair}
use memory_latency_analyzer.Session.Matrix.{Answers, matrix_args, run_numa_matrix}
use memory_latency_analyzer.Session.Initiators.{IsPlaced, inhabited}
use memory_latency_analyzer.Session.Cells.{AreExactCells, has_cell_room, run_numa_matrix_exact}
use memory_latency_analyzer.Shared.Measure.{World, measure_cross_process}
use memory_latency_analyzer.Report.Rows.{MeasurementResult, BandwidthResult, SharedMemoryResult}
use memory_latency_analyzer.Report.Reader.{read_csv}
use memory_latency_analyzer.Report.Csv.{table, IsBare-print_nat}
use memory_latency_analyzer.Session.Sequence.{Machine, shared_result, run_measurements}
use memory_latency_analyzer.Session.Latencies.{counts, expected_counts}
use memory_latency_analyzer.Session.Exit.{EndsRight, can_measure, run_measurements_exact}
use memory_latency_analyzer.Session.SharedRow.{IsSharedRow}
use memory_latency_analyzer.Session.Rows.{names_of, bandwidth_names}
use memory_latency_analyzer.Session.Table.{run_measurements_csv}

abbrev counter : Cpu
counter = record {
  State = ℕ;
  load = λ k s. s + 3;
  store = λ k s. s + 2;
  flush = λ k s. s + 1;
  fence = λ s. s;
  stamp_start = λ s. (s, s);
  stamp_end = λ s. (s, s);
  reserves = λ n. ltb n 1000000000;
}

abbrev unshuffled : List ℕ → List ℕ
unshuffled order = order

abbrev world : World
world = record {
  named = true;
  shm_opens = true;
  truncates = true;
  maps = true;
  forks = true;
  becomes_ready = some true;
  warmup_answers = λ i. some true;
  answers = λ i. some (ltb i 2);
  reserves = true;
  starts = λ i. 100 * i;
  ends = λ i. 100 * i + 40;
}

abbrev machine : Machine ℕ
machine = record {
  allowed_cpus = pos 0 ∷ pos 1 ∷ [];
  tsc_hz = rate 300;
  line_size = 64;
  numa_available = true;
  buffer_allocated = true;
  timer_overhead = 20;
  gives_src = λ method. true;
  gives_dst = λ method. true;
  times = λ method r. some (10, 20, 30);
  sysfs = record { package_id = λ cpu. some (pos 0); core_id = λ cpu. some cpu };
  shared = world;
  csv_opens = true;
  history_opens = true;
  timestamp = codes "2024-01-01 00:00:00";
  history = [];
}

abbrev csv_args : List String
csv_args = "--csv" ∷ "out.csv" ∷ []

abbrev with_csv : Options
with_csv = record defaults { csv_file = "out.csv" }

launch_csv : launch true csv_args ≡ start (measure with_csv)
unfolding launch round flag_of handle
launch_csv = refl

run_measurements_exact_example :
    EndsRight hundredths places 1 0 counter unshuffled machine print_nat with_csv
      (can_measure hundredths places 1 0 counter unshuffled machine with_csv)
      (run_measurements hundredths places 1 0 counter unshuffled machine print_nat with_csv 0)
run_measurements_exact_example =
    run_measurements_exact hundredths places 1 0 counter unshuffled machine print_nat csv_args
      with_csv 0 launch_csv

-- The two samples of the shared-memory test.
tested :
    (given : SharedMemoryResult ℕ) × (shared_result hundredths places 1 0 counter unshuffled machine
        with_csv
        (pos 0)
      ≡ some given)
unfolding shared_result measure_cross_process choose_distinct_cpu cpu_topology_pair
tested = (_, refl)

run_measurements_csv_example :
    let e =
      run_measurements hundredths places 1 0 counter unshuffled machine print_nat with_csv 0 in
    (latency : List (MeasurementResult ℕ)) × (bandwidth : List (BandwidthResult ℕ))
    × (shared : Option.Option (SharedMemoryResult ℕ)) × (Option.map read_csv e.csv
        ≡ some (table hundredths print_nat 300 latency bandwidth shared))
    × (counts hundredths places 1 0 latency ≡ expected_counts with_csv)
    × (names_of hundredths places 1 0 bandwidth
        ≡ bandwidth_names hundredths places 1 0 counter unshuffled machine with_csv)
    × IsSharedRow hundredths places 1 0 counter unshuffled machine with_csv (pos 0) shared
run_measurements_csv_example =
    run_measurements_csv hundredths places 1 0 counter unshuffled machine print_nat IsBare-print_nat
      csv_args with_csv 0 (pos 0) (pos 1 ∷ []) 300 tested.0 launch_csv refl refl refl refl tested.1
      refl refl

abbrev matrix_flag : List String
matrix_flag = "--numa-matrix" ∷ []

launch_matrix :
    launch true matrix_flag ≡ start (numa_matrix 0 (64 * 1024 * 1024) (pos 1000) (pos 150) (pos 5))
unfolding launch round flag_of handle
launch_matrix = refl

-- One node with two CPUs.
abbrev root : List Entry
root = record { name = codes "node0"; is_directory = true; cpulist = codes "0-1" } ∷ []

-- The second CPU gets no memory.
abbrev answers : ℤ → ℤ → Answers ℕ
answers cpu node = record {
  allocated = eq_ℤ cpu (pos 0);
  timer_overhead = 20;
  tsc_hz = rate 300;
  gives_src = true;
  gives_dst = true;
  times = λ r. some (10, 20, 30);
}

run_numa_matrix_exact_example :
    let a = matrix_args 0 (64 * 1024 * 1024) (pos 1000) (pos 150) (pos 5) in
    let rows =
      run_numa_matrix hundredths places 1 0 counter unshuffled
        (some root)
        (pos 0 ∷ pos 1 ∷ [])
        true
        a
        answers
        (λ cpu node. 0) in
    (map (λ row. row.initiator.node) rows
      ≡ inhabited (some root) (pos 0 ∷ pos 1 ∷ []) (nodes (some root)))
    × All
        (λ row.
          IsPlaced (some root) (pos 0 ∷ pos 1 ∷ []) row.initiator
          × AreExactCells hundredths places 1 0
              (has_cell_room hundredths places 1 0 counter unshuffled a)
              answers
              row.initiator
              (nodes (some root))
              row.cells)
        rows
run_numa_matrix_exact_example =
    run_numa_matrix_exact hundredths places 1 0 counter unshuffled matrix_flag true 0
      (64 * 1024 * 1024) (pos 1000) (pos 150) (pos 5) (some root) (pos 0 ∷ pos 1 ∷ []) answers
      (λ cpu node. 0) launch_matrix (omega arith)
