-- ===== src/Report/Csv.antt =====
-- The file of `write_csv` in MemoryLatencyAnalyzer_linux/src/reporter.cpp, read back.
use memory_latency_analyzer.Base.{
  ℕ, ◌≡◌, refl, Bool, true, false, Option, none, some, List, [], ◌∷◌, ◌++◌, map, arith, length, All,
  if◌then◌else◌, Bool-cases, inl, inr, ap, ◌∙◌, All-append, All-map,
}
use mathlib.Core.Option
use memory_latency_analyzer.Base.Text.{Bytes, codes, print_nat, is_digit, All-is_digit-print_nat}
use memory_latency_analyzer.Evaluation.Real.{Real}
use memory_latency_analyzer.Statistics.Summary.{Summary}
use memory_latency_analyzer.Report.Rows.{
  MeasurementResult, BandwidthResult, SharedMemoryResult, stream, cycles_to_ns, summary_pieces,
  latency_pieces, bandwidth_pieces, shared_pieces, header, write_csv,
}
use memory_latency_analyzer.Report.Reader.{
  Row, fresh, read_from, next, read_csv, IsBare, HasNoQuote, read_comma, read_quotes, read_line,
  read_csv-row,
}

IsBare-digits : (s : Bytes) → All (λ c. is_digit c ≡ true) s → IsBare s
IsBare-digits [] h = tt
IsBare-digits (c ∷ s) h = (ground (arith, h.0), IsBare-digits s h.1)

pub IsBare-print_nat : (n : ℕ) → IsBare (print_nat n)
IsBare-print_nat n = IsBare-digits (print_nat n) (All-is_digit-print_nat n)

-- The names of the columns.
abbrev pub columns : Row
columns =
    codes "Type"
    ∷ codes "Label"
    ∷ codes "Samples"
    ∷ codes "MeanCycles"
    ∷ codes "MedianCycles"
    ∷ codes "P95Cycles"
    ∷ codes "P99Cycles"
    ∷ codes "StdDevCycles"
    ∷ codes "MinCycles"
    ∷ codes "MaxCycles"
    ∷ codes "MeanNanoseconds"
    ∷ codes "ReadGiBps"
    ∷ codes "WriteGiBps"
    ∷ codes "CopyGiBps"
    ∷ codes "Allocator"
    ∷ codes "Bytes"
    ∷ []

module _ (r : Real) (show : Real.D r → Bytes) where
  open r use {D}

  -- The columns from `Samples` to `MeanNanoseconds`, and the five that a latency has not.
  abbrev pub summary_cells : D → Summary D → Row
  summary_cells tsc_hz s =
      print_nat s.count
      ∷ show s.mean
      ∷ show s.median
      ∷ show s.p95
      ∷ show s.p99
      ∷ show s.stddev
      ∷ show s.min
      ∷ show s.max
      ∷ show (cycles_to_ns r show s.mean tsc_hz)
      ∷ []
      ∷ []
      ∷ []
      ∷ []
      ∷ []
      ∷ []

  abbrev pub latency_row : D → MeasurementResult D → Row
  latency_row tsc_hz m = codes "latency" ∷ m.label ∷ summary_cells tsc_hz m.stats

  abbrev pub bandwidth_row : BandwidthResult D → Row
  bandwidth_row b =
      codes "bandwidth"
      ∷ b.allocator
      ∷ []
      ∷ []
      ∷ []
      ∷ []
      ∷ []
      ∷ []
      ∷ []
      ∷ []
      ∷ []
      ∷ show b.read_gb_s
      ∷ show b.write_gb_s
      ∷ show b.copy_gb_s
      ∷ b.allocator
      ∷ print_nat b.size_bytes
      ∷ []

  abbrev pub shared_rows : D → Option (SharedMemoryResult D) → List Row
  shared_rows tsc_hz none = []
  shared_rows tsc_hz (some m) =
      if m.success
      then (codes "shared_memory" ∷ codes "Cross-process round trip" ∷ summary_cells tsc_hz m.stats)
        ∷ []
      else []

  abbrev pub table :
      D
      → List (MeasurementResult D)
      → List (BandwidthResult D)
      → Option (SharedMemoryResult D)
      → List Row
  table tsc_hz latency bandwidth shared_memory =
      columns
      ∷ (map (latency_row tsc_hz) latency
          ++ (map bandwidth_row bandwidth ++ shared_rows tsc_hz shared_memory))

  module _ (bare : (d : D) → IsBare (show d)) where
    read_summary :
        (tsc_hz : D) (s : Summary D) (rest : List Bytes)
        → read_from fresh (stream (summary_pieces r show tsc_hz s rest)) ≡ (
          print_nat s.count,
          show s.mean
              ∷ show s.median
              ∷ show s.p95
              ∷ show s.p99
              ∷ show s.stddev
              ∷ show s.min
              ∷ show s.max
              ∷ show (cycles_to_ns r show s.mean tsc_hz)
              ∷ []
              ∷ []
              ∷ []
              ∷ []
              ∷ []
              ∷ [],
          read_csv (stream rest),
        )
    unfolding stream
    read_summary tsc_hz s rest = read_comma _ _ (IsBare-print_nat s.count) (
        read_comma _ _ (bare s.mean) (
          read_comma _ _ (bare s.median) (
            read_comma _ _ (bare s.p95) (
              read_comma _ _ (bare s.p99) (
                read_comma _ _ (bare s.stddev) (
                  read_comma _ _ (bare s.min) (
                    read_comma _ _ (bare s.max) (
                      read_comma _ _ (bare (cycles_to_ns r show s.mean tsc_hz)) (
                        read_comma [] _ tt (
                          read_comma [] _ tt
                            (read_comma [] _ tt (read_comma [] _ tt (read_line [] _ tt)))))))))))))

    read_latency :
        (tsc_hz : D) (m : MeasurementResult D) (rest : List Bytes)
        → HasNoQuote m.label
        → read_csv (
            stream (
              codes "latency,\""
              ∷ m.label
              ∷ codes "\","
              ∷ summary_pieces r show tsc_hz m.stats rest))
          ≡ latency_row tsc_hz m ∷ read_csv (stream rest)
    unfolding stream
    read_latency tsc_hz m rest h = read_csv-row b'l' _ (
        read_comma (codes "latency") _ (ground arith)
          (read_quotes m.label _ h (read_summary tsc_hz m.stats rest)))

    read_latencies :
        (tsc_hz : D) (ms : List (MeasurementResult D)) (rest : List Bytes)
        → All (λ m. HasNoQuote m.label) ms
        → read_csv (stream (latency_pieces r show tsc_hz ms rest))
          ≡ map (latency_row tsc_hz) ms ++ read_csv (stream rest)
    unfolding latency_pieces
    read_latencies tsc_hz [] rest h = refl
    read_latencies tsc_hz (m ∷ ms) rest h =
        rw (read_latency tsc_hz m (latency_pieces r show tsc_hz ms rest) h.0)
          (ap (◌∷◌ (latency_row tsc_hz m)) (read_latencies tsc_hz ms rest h.1))

    read_bandwidths :
        (bs : List (BandwidthResult D)) (rest : List Bytes)
        → All (λ b. HasNoQuote b.allocator) bs
        → read_csv (stream (bandwidth_pieces r show bs rest))
          ≡ map bandwidth_row bs ++ read_csv (stream rest)
    unfolding bandwidth_pieces stream
    read_bandwidths [] rest h = refl
    read_bandwidths (b ∷ bs) rest h =
        let others = read_bandwidths bs rest h.1 in
        let end = read_line (print_nat b.size_bytes) _ (IsBare-print_nat b.size_bytes) in
        let rates = read_comma _ _ (bare b.read_gb_s) (
          read_comma _ _ (bare b.write_gb_s)
            (read_comma _ _ (bare b.copy_gb_s) (read_quotes b.allocator _ h.0 end))) in
        let gap = read_comma [] _ tt (
          read_comma [] _ tt (
            read_comma [] _ tt (
              read_comma [] _ tt (
                read_comma [] _ tt (
                  read_comma [] _ tt
                    (read_comma [] _ tt (read_comma [] _ tt (read_comma [] _ tt rates)))))))) in
        read_csv-row b'b' _
          (read_comma (codes "bandwidth") _ (ground arith) (read_quotes b.allocator _ h.0 gap))
        ∙ ap (◌∷◌ (bandwidth_row b)) others

    read_shared_row :
        (tsc_hz : D) (s : Summary D)
        → read_csv (
            stream (
              codes "shared_memory,\"Cross-process round trip\","
              ∷ summary_pieces r show tsc_hz s []))
          ≡ (codes "shared_memory" ∷ codes "Cross-process round trip" ∷ summary_cells tsc_hz s)
            ∷ read_csv (stream [])
    unfolding stream
    read_shared_row tsc_hz s = read_csv-row b's' _ (
        read_comma (codes "shared_memory") _ (ground arith) (
          read_quotes (codes "Cross-process round trip") _ (ground arith)
            (read_summary tsc_hz s [])))

    read_end : read_csv (stream []) ≡ []
    unfolding stream read_csv
    read_end = refl

    read_shared :
        (tsc_hz : D) (m : Option (SharedMemoryResult D))
        → read_csv (stream (shared_pieces r show tsc_hz m)) ≡ shared_rows tsc_hz m
    unfolding shared_pieces
    read_shared tsc_hz none = read_end
    read_shared tsc_hz (some m) = elim (Bool-cases m.success) [
      | inl e ↦ rw (e, read_shared_row tsc_hz m.stats, read_end) refl
      | inr e ↦ rw e read_end
    ]

    read_header :
        (rest : List Bytes) → read_csv (stream (header ∷ rest)) ≡ columns ∷ read_csv (stream rest)
    unfolding stream read_csv read_from next
    read_header rest = refl

    table_width :
        (tsc_hz : D) (latency : List (MeasurementResult D)) (bandwidth : List (BandwidthResult D))
        (shared_memory : Option (SharedMemoryResult D))
        → All (λ row. length row ≡ 16) (table tsc_hz latency bandwidth shared_memory)
    table_width tsc_hz latency bandwidth shared_memory = (
      refl,
      All-append _ (map (latency_row tsc_hz) latency) _ (All-map _ _ (λ m. refl) latency) (
          All-append _ (map bandwidth_row bandwidth) _ (All-map _ _ (λ b. refl) bandwidth)
            (width_shared shared_memory)),
    )
      where
        width_shared :
            (m : Option (SharedMemoryResult D))
            → All (λ row. length row ≡ 16) (shared_rows tsc_hz m)
        width_shared none = tt
        width_shared (some m) = elim (Bool-cases m.success) [
          | inl e ↦ rw e (refl, tt)
          | inr e ↦ rw e tt
        ]

    -- Where no label and no allocator's name has a quote, and a printed number has no comma, quote or line end, a
    -- reader of CSV gets back from the file of `write_csv` exactly this table: the column names, a row for each latency
    -- and each bandwidth in order, and one for the shared memory where it was a success. Every row has sixteen cells,
    -- each value in the column of its name. The file is written, and `true` returned, exactly where it can be opened.
    pub write_csv-read_csv :
        (opens : Bool) (latency : List (MeasurementResult D)) (bandwidth : List (BandwidthResult D))
        (shared_memory : Option (SharedMemoryResult D)) (tsc_hz : D)
        → All (λ m. HasNoQuote m.label) latency
        → All (λ b. HasNoQuote b.allocator) bandwidth
        → let (written, file) = write_csv r show opens latency bandwidth shared_memory tsc_hz in
          let expected = table tsc_hz latency bandwidth shared_memory in
          (written ≡ opens)
          × (Option.map read_csv file ≡ (if opens then some expected else none))
          × All (λ row. length row ≡ 16) expected
    unfolding write_csv
    write_csv-read_csv false latency bandwidth shared_memory tsc_hz h k =
        (refl, refl, table_width tsc_hz latency bandwidth shared_memory)
    write_csv-read_csv true latency bandwidth shared_memory tsc_hz h k =
        let shared = shared_pieces r show tsc_hz shared_memory in
        let rates = bandwidth_pieces r show bandwidth shared in
        let all =
          read_header (latency_pieces r show tsc_hz latency rates)
          ∙ ap (◌∷◌ columns) (
              read_latencies tsc_hz latency rates h
              ∙ ap (◌++◌ (map (latency_row tsc_hz) latency)) (
                  read_bandwidths bandwidth shared k
                  ∙ ap (◌++◌ (map bandwidth_row bandwidth)) (read_shared tsc_hz shared_memory))) in
        (refl, ap some all, table_width tsc_hz latency bandwidth shared_memory)
