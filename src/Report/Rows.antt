-- ===== src/Report/Rows.antt =====
-- `write_csv` and `append_history` of MemoryLatencyAnalyzer_linux/src/reporter.cpp: a file is the list of the pieces that
-- `<<` gets. How the stream prints a `double` is a parameter.
use memory_latency_analyzer.Base.{
  ℕ, Bool, true, false, Option, none, some, List, [], ◌∷◌, ◌++◌, if◌then◌else◌,
}
use memory_latency_analyzer.Base.Text.{Bytes, codes, print_nat}
use memory_latency_analyzer.Evaluation.Real.{Real}
use memory_latency_analyzer.Statistics.Summary.{Summary}

pub record MeasurementResult (D : Type 0) : Type 0 where
  pub label : Bytes
  pub stats : Summary D

pub record BandwidthResult (D : Type 0) : Type 0 where
  pub allocator : Bytes
  pub size_bytes : ℕ
  pub read_gb_s : D
  pub write_gb_s : D
  pub copy_gb_s : D

pub record SharedMemoryResult (D : Type 0) : Type 0 where
  pub stats : Summary D
  pub success : Bool

unfoldable pub stream : List Bytes → Bytes
stream [] = []
stream (piece ∷ pieces) = piece ++ stream pieces

abbrev pub comma : Bytes
comma = codes ","

abbrev pub header : Bytes
header =
    codes "Type,Label,Samples,MeanCycles,MedianCycles,P95Cycles,"
    ++ codes "P99Cycles,StdDevCycles,MinCycles,MaxCycles,MeanNanoseconds,"
    ++ codes "ReadGiBps,WriteGiBps,CopyGiBps,Allocator,Bytes\n"

module _ (r : Real) (show : Real.D r → Bytes) where
  open r use {D, of_nat, mul, div, le}

  unfoldable pub cycles_to_ns : D → D → D
  cycles_to_ns cycles tsc_hz =
      if le tsc_hz (of_nat 0) then of_nat 0 else div (mul cycles (of_nat 1000000000)) tsc_hz

  -- The cells of a summary, and the end of their row.
  abbrev pub summary_pieces : D → Summary D → List Bytes → List Bytes
  summary_pieces tsc_hz s rest =
      print_nat s.count
      ∷ comma
      ∷ show s.mean
      ∷ comma
      ∷ show s.median
      ∷ comma
      ∷ show s.p95
      ∷ comma
      ∷ show s.p99
      ∷ comma
      ∷ show s.stddev
      ∷ comma
      ∷ show s.min
      ∷ comma
      ∷ show s.max
      ∷ comma
      ∷ show (cycles_to_ns s.mean tsc_hz)
      ∷ codes ",,,,,\n"
      ∷ rest

  unfoldable pub latency_pieces : D → List (MeasurementResult D) → List Bytes → List Bytes
  latency_pieces tsc_hz [] rest = rest
  latency_pieces tsc_hz (m ∷ ms) rest =
      codes "latency,\""
      ∷ m.label
      ∷ codes "\","
      ∷ summary_pieces tsc_hz m.stats (latency_pieces tsc_hz ms rest)

  unfoldable pub bandwidth_pieces : List (BandwidthResult D) → List Bytes → List Bytes
  bandwidth_pieces [] rest = rest
  bandwidth_pieces (b ∷ bs) rest =
      codes "bandwidth,\""
      ∷ b.allocator
      ∷ codes "\",,,,,,,,,,"
      ∷ show b.read_gb_s
      ∷ comma
      ∷ show b.write_gb_s
      ∷ comma
      ∷ show b.copy_gb_s
      ∷ codes ",\""
      ∷ b.allocator
      ∷ codes "\","
      ∷ print_nat b.size_bytes
      ∷ codes "\n"
      ∷ bandwidth_pieces bs rest

  -- `none` is the null pointer.
  unfoldable pub shared_pieces : D → Option (SharedMemoryResult D) → List Bytes
  shared_pieces tsc_hz none = []
  shared_pieces tsc_hz (some m) =
      if m.success
      then codes "shared_memory,\"Cross-process round trip\"," ∷ summary_pieces tsc_hz m.stats []
      else []

  -- `opens` says whether the file can be opened. The result, and what the file holds then.
  unfoldable pub write_csv :
      (opens : Bool)
      → List (MeasurementResult D)
      → List (BandwidthResult D)
      → Option (SharedMemoryResult D)
      → D
      → Bool × Option Bytes
  unfolding stream latency_pieces bandwidth_pieces shared_pieces
  write_csv opens latency bandwidth shared_memory tsc_hz =
      if opens
      then (
        true,
        some (
            stream (
              header
              ∷ latency_pieces tsc_hz latency
                  (bandwidth_pieces bandwidth (shared_pieces tsc_hz shared_memory)))),
      )
      else (false, none)

  unfoldable pub history_latency : List (MeasurementResult D) → List Bytes → List Bytes
  history_latency [] rest = rest
  history_latency (m ∷ ms) rest =
      codes "latency,\""
      ∷ m.label
      ∷ codes "\","
      ∷ show m.stats.median
      ∷ codes "\n"
      ∷ history_latency ms rest

  unfoldable pub history_bandwidth : List (BandwidthResult D) → List Bytes → List Bytes
  history_bandwidth [] rest = rest
  history_bandwidth (b ∷ bs) rest =
      codes "bandwidth,"
      ∷ b.allocator
      ∷ comma
      ∷ show b.read_gb_s
      ∷ comma
      ∷ show b.write_gb_s
      ∷ comma
      ∷ show b.copy_gb_s
      ∷ codes "\n"
      ∷ history_bandwidth bs rest

  -- `old` is what the file held; the time is the caller's.
  unfoldable pub append_history :
      (opens : Bool)
      → (timestamp old : Bytes) → List (MeasurementResult D)
      → List (BandwidthResult D)
      → Bool × Bytes
  unfolding stream history_latency history_bandwidth
  append_history opens timestamp old latency bandwidth =
      if opens
      then (
        true,
        old
            ++ stream (
                timestamp
                ∷ codes "\n"
                ∷ history_latency latency (history_bandwidth bandwidth (codes "----\n" ∷ []))),
      )
      else (false, old)
