-- ===== src/Report/Examples.antt =====
-- Tests and examples of the files that are written.
use mathlib.Core.Option
use memory_latency_analyzer.Base.{ℕ, ◌≡◌, true, some, [], ◌∷◌, length, All, arith}
use memory_latency_analyzer.Base.Text.{codes, print_nat}
use memory_latency_analyzer.Statistics.Summary.{Summary}
use memory_latency_analyzer.Statistics.Hundredths.{hundredths}
use memory_latency_analyzer.Report.Rows.{
  MeasurementResult, BandwidthResult, SharedMemoryResult, write_csv,
}
use memory_latency_analyzer.Report.Reader.{read_csv}
use memory_latency_analyzer.Report.Csv.{table, write_csv-read_csv, IsBare-print_nat}

abbrev summary : Summary ℕ
summary = record {
  count = 3;
  mean = 200;
  median = 200;
  p95 = 300;
  p99 = 300;
  stddev = 100;
  min = 100;
  max = 300;
}

abbrev hit : MeasurementResult ℕ
hit = record { label = codes "L1, hit"; stats = summary }

abbrev heap : BandwidthResult ℕ
heap = record {
  allocator = codes "malloc";
  size_bytes = 4096;
  read_gb_s = 7;
  write_gb_s = 8;
  copy_gb_s = 9;
}

abbrev trip : SharedMemoryResult ℕ
trip = record { stats = summary; success = true }

write_csv-read_csv_example :
    ((write_csv hundredths print_nat true (hit ∷ []) (heap ∷ []) (some trip) 100).0 ≡ true)
    × (Option.map read_csv
          (write_csv hundredths print_nat true (hit ∷ []) (heap ∷ []) (some trip) 100).1
        ≡ some (table hundredths print_nat 100 (hit ∷ []) (heap ∷ []) (some trip)))
    × All
        (λ row. length row ≡ 16)
        (table hundredths print_nat 100 (hit ∷ []) (heap ∷ []) (some trip))
write_csv-read_csv_example =
    write_csv-read_csv hundredths print_nat IsBare-print_nat true (hit ∷ []) (heap ∷ []) (some trip)
      100 (ground arith) (ground arith)
