-- ===== src/Session/Cells.antt =====
-- The rows and cells of the NUMA matrix of MemoryLatencyAnalyzer_linux/src/main.cpp.
use Prim.Native.String.{String}
use memory_latency_analyzer.Base.{
  All, ℕ, ◌≡◌, refl, ◌⊎◌, inl, inr, Bool, true, false, ◌&&◌, map, ap, ◌∙◌, Option, none, some, List,
  [], ◌∷◌, arith, Bool-cases,
}
use memory_latency_analyzer.Base.Int.{ℤ, pos, negsuc, ◌≤ℤ◌}
use memory_latency_analyzer.Cli.Plan.{launch, start, numa_matrix}
use memory_latency_analyzer.Cli.Launch.{launch-IsRunnable}
use memory_latency_analyzer.Evaluation.Real.{Real}
use memory_latency_analyzer.Statistics.Summary.{Indexing}
use memory_latency_analyzer.Statistics.Timer.{Calibrated, rate, thrown}
use memory_latency_analyzer.Topology.Nodes.{Entry, NodeInfo, nodes}
use memory_latency_analyzer.Latency.Measure.{Cpu, is_valid, has_room}
use memory_latency_analyzer.Latency.Valid.{measure_forced_miss-Returned, measure_forced_miss-none}
use memory_latency_analyzer.Report.Rows.{BandwidthResult}
use memory_latency_analyzer.Session.Sequence.{half_int, at_least_one}
use memory_latency_analyzer.Session.Latencies.{construct-ready, construct-none}
use memory_latency_analyzer.Session.Matrix.{
  Initiator, Cell, Answers, MatrixArgs, matrix_args, initiators, cell_samples, fill, measure_cell,
  measure_row, measure_rows, run_numa_matrix,
}
use memory_latency_analyzer.Session.Initiators.{
  IsPlaced, initiators-IsPlaced, inhabited, initiators-inhabited,
}

-- `iterations / 2`, at least 1, and the other numbers of a cell are valid.
cell_valid :
    (iterations warmup rounds : ℤ)
    → pos 0 ≤ℤ warmup
    → is_valid (at_least_one (half_int iterations)) (half_int warmup) (at_least_one rounds) ≡ true
unfolding is_valid
cell_valid iterations (pos w) rounds h = ground arith
cell_valid iterations (negsuc w) rounds h = absurd (omega arith)

module _ (r : Real) (x : Indexing r) (nano beyond : Real.D r) where
  open r use {D}

  abbrev pub is_there : Option D → Bool
  is_there none = false
  is_there (some v) = true

  abbrev pub has_rate : Calibrated D → Bool
  has_rate (rate hz) = true
  has_rate (thrown e) = false

  -- A cell has a latency exactly where its buffer is allocated, there is room for its samples and the clock's rate is
  -- found, and a bandwidth only beside a latency.
  abbrev pub IsExactCell : Bool → Answers D → Cell D → Type 0
  IsExactCell room w cell =
      (is_there cell.latency_ns ≡ ((w.allocated && room) && has_rate w.tsc_hz))
      × ((cell.bandwidth_gibs ≡ none) ⊎ (is_there cell.latency_ns ≡ true))

  -- A cell for each node, in their order.
  abbrev pub AreExactCells :
      Bool → (ℤ → ℤ → Answers D) → Initiator → List NodeInfo → List (Cell D) → Type 0
  AreExactCells room answers i [] [] = Unit
  AreExactCells room answers i [] (cell ∷ cells) = ⊥
  AreExactCells room answers i (n ∷ ns) [] = ⊥
  AreExactCells room answers i (n ∷ ns) (cell ∷ cells) =
      IsExactCell room (answers i.cpu n.id) cell × AreExactCells room answers i ns cells

  module _ (c : Cpu) (shuffle : List ℕ → List ℕ) where
    open c use {State}

    fill-exact :
        (samples : Option (List ℕ)) (allocated : Bool) (w : Answers D) (hz : Calibrated D)
        (bandwidth : Option (BandwidthResult D))
        → (samples ≡ none) × (allocated ≡ false)
          ⊎ (found : List ℕ) × (samples ≡ some found) × (allocated ≡ true)
        → let cell = fill r x nano beyond c shuffle samples hz bandwidth in
          (is_there cell.latency_ns ≡ (allocated && has_rate hz))
          × ((cell.bandwidth_gibs ≡ none) ⊎ (is_there cell.latency_ns ≡ true))
    fill-exact samples allocated w hz bandwidth (inl (e, missing)) =
        rw (e, missing) (refl, inl refl)
    fill-exact samples allocated w (rate hz) bandwidth (inr (found, e, there)) =
        rw (e, there) (refl, inr refl)
    fill-exact samples allocated w (thrown err) bandwidth (inr (found, e, there)) =
        rw (e, there) (refl, inl refl)

    -- The samples of a cell: half the iterations, at least one, in at least one round.
    abbrev pub has_cell_room : MatrixArgs → Bool
    has_cell_room a = has_room c (at_least_one (half_int a.iterations)) (at_least_one a.rounds)

    cell_samples-cases :
        (available allocated : Bool) (overhead : ℕ) (a : MatrixArgs) (node : ℤ) (s : State)
        → available ≡ true
        → pos 0 ≤ℤ a.warmup
        → let samples =
            cell_samples r x nano beyond c shuffle available allocated overhead a node s in
          (samples ≡ none) × ((allocated && has_cell_room a) ≡ false)
          ⊎ (found : List ℕ) × (samples ≡ some found) × ((allocated && has_cell_room a) ≡ true)
    unfolding cell_samples
    cell_samples-cases available true overhead a node s support warm =
        let (m, e, large) =
          construct-ready available overhead a.requested_buffer_size 64 node (inr support) in
        elim (Bool-cases (has_cell_room a)) [
          | inl room ↦
              let (found, m', s', e', _, _) =
                measure_forced_miss-Returned c m (at_least_one (half_int a.iterations))
                  (half_int a.warmup) (at_least_one a.rounds) s
                  (cell_valid a.iterations a.warmup a.rounds warm) room shuffle large in
              inr (found, rw (cell_samples, e, e') refl, room)
          | inr full ↦
              let e' =
                measure_forced_miss-none c m (at_least_one (half_int a.iterations))
                  (half_int a.warmup) (at_least_one a.rounds) s full shuffle in
              inl (rw (cell_samples, e, e') refl, full)
        ]
    cell_samples-cases available false overhead a node s support warm = inl (
      rw (cell_samples, construct-none available overhead a.requested_buffer_size 64 node) refl,
      refl,
    )

    module _ (available : Bool) (a : MatrixArgs) (answers : ℤ → ℤ → Answers D)
        (states : ℤ → ℤ → State) (support : available ≡ true) (warm : pos 0 ≤ℤ a.warmup) where
      measure_cell-exact :
          (w : Answers D) (node : ℤ) (s : State)
          → IsExactCell
              (has_cell_room a)
              w
              (measure_cell r x nano beyond c shuffle available a w node s)
      unfolding measure_cell
      measure_cell-exact w node s =
          fill-exact
            (cell_samples r x nano beyond c shuffle available w.allocated w.timer_overhead a node s)
            (w.allocated && has_cell_room a) w w.tsc_hz _
            (cell_samples-cases available w.allocated w.timer_overhead a node s support warm)

      measure_row-exact :
          (i : Initiator) (ns : List NodeInfo)
          → AreExactCells
              (has_cell_room a)
              answers
              i
              ns
              (measure_row r x nano beyond c shuffle available a answers states i ns)
      unfolding measure_row
      measure_row-exact i [] = tt
      measure_row-exact i (n ∷ ns) =
          (measure_cell-exact (answers i.cpu n.id) n.id (states i.cpu n.id), measure_row-exact i ns)

      measure_rows-exact :
          (root : Option (List Entry)) (allowed_cpus : List ℤ) (ns : List NodeInfo)
          (is : List Initiator)
          → All (IsPlaced root allowed_cpus) is
          → All
              (λ row.
                IsPlaced root allowed_cpus row.initiator
                × AreExactCells (has_cell_room a) answers row.initiator ns row.cells)
              (measure_rows r x nano beyond c shuffle available a answers states ns is)
      unfolding measure_rows
      measure_rows-exact root allowed_cpus ns [] h = tt
      measure_rows-exact root allowed_cpus ns (i ∷ is) h =
          ((h.0, measure_row-exact i ns), measure_rows-exact root allowed_cpus ns is h.1)

    rows-nodes :
        (available : Bool) (a : MatrixArgs) (answers : ℤ → ℤ → Answers D) (states : ℤ → ℤ → State)
        (ns : List NodeInfo) (is : List Initiator)
        → map
            (λ row. row.initiator.node)
            (measure_rows r x nano beyond c shuffle available a answers states ns is)
          ≡ map (λ i. i.node) is
    unfolding measure_rows
    rows-nodes available a answers states ns [] = refl
    rows-nodes available a answers states ns (i ∷ is) =
        ap (λ k. i.node ∷ k) (rows-nodes available a answers states ns is)

    -- In the NUMA matrix, started from any command line with allowed CPUs that are not negative, the rows are for
    -- exactly the nodes on which an allowed CPU lies, in their order. The CPU of each row is an allowed one on the row's
    -- node, and the row has a cell for each node in order: with a latency exactly where the buffer of the cell is
    -- allocated, there is room for its samples and the clock's rate is found, and with a bandwidth only beside a
    -- latency.
    pub run_numa_matrix_exact :
        (args : List String) (available : Bool) (buffer bandwidth : ℕ)
        (iterations warmup rounds : ℤ) (root : Option (List Entry)) (allowed_cpus : List ℤ)
        (answers : ℤ → ℤ → Answers D) (states : ℤ → ℤ → State)
        → launch available args ≡ start (numa_matrix buffer bandwidth iterations warmup rounds)
        → All (λ cpu. pos 0 ≤ℤ cpu) allowed_cpus
        → let a = matrix_args buffer bandwidth iterations warmup rounds in
          let rows =
            run_numa_matrix r x nano beyond c shuffle root allowed_cpus available a answers
              states in
          (map (λ row. row.initiator.node) rows ≡ inhabited root allowed_cpus (nodes root))
          × All
              (λ row.
                IsPlaced root allowed_cpus row.initiator
                × AreExactCells (has_cell_room a) answers row.initiator (nodes root) row.cells)
              rows
    unfolding run_numa_matrix
    run_numa_matrix_exact args available buffer bandwidth iterations warmup rounds root allowed_cpus
          answers states h signs =
        let (support, _, _, _, _, warm, _) = launch-IsRunnable available args h in
        let a = matrix_args buffer bandwidth iterations warmup rounds in
        (
          rows-nodes available a answers states (nodes root)
                (initiators root allowed_cpus (nodes root))
              ∙ initiators-inhabited root allowed_cpus signs (nodes root),
          measure_rows-exact available a answers states support warm root allowed_cpus (nodes root)
              (initiators root allowed_cpus (nodes root))
              (initiators-IsPlaced root allowed_cpus (nodes root)),
        )
