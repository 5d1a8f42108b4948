-- ===== src/Latency/Measure.antt =====
-- `LatencyMeasurer` of MemoryLatencyAnalyzer_linux/src/latency_measurer.cpp: its constructor and its
-- measurements, over an abstract processor. A sample is the net number of cycles of a batch; the source divides
-- it by the length of the batch. An `int` that the guards let through is a natural number.
use memory_latency_analyzer.Base.{
  ℕ, zero, suc, ◌+◌, ◌*◌, ◌%◌, Bool, true, false, not, ◌&&◌, ◌||◌, Option, none, some, List, [],
  ◌∷◌, ◌++◌, length, get_or, set, ltb, if◌then◌else◌,
}
use memory_latency_analyzer.Base.Int.{ℤ, pos, leb_ℤ, ltb_ℤ, pos_part}
use memory_latency_analyzer.Latency.Sizes.{
  latency_batch, store_batch, cache_line_size, buffer_size, node_count, elapsed, subtract_overhead,
}
use memory_latency_analyzer.Latency.Rings.{
  next_of, build_self_loop, count_from, build_random_ring, build_stride_ring, whole_stride,
}

-- What the code uses of the processor; a line is the index of a node.
pub record Cpu : Type 1 where
  pub State : Type 0
  pub load : ℕ → State → State
  pub store : ℕ → State → State
  pub flush : ℕ → State → State
  pub fence : State → State
  pub stamp_start : State → ℕ × State
  pub stamp_end : State → ℕ × State
  -- Whether `samples.reserve(n)` gives memory; otherwise it throws `std::length_error` or `std::bad_alloc`.
  pub reserves : ℕ → Bool

-- The members that the measurements use.
pub record Measurer : Type 0 where
  pub size : ℕ
  pub count : ℕ
  pub line_size : ℕ
  pub numa_node : ℤ
  pub overhead : ℕ
  pub nodes : List ℕ
  pub random_order : List ℕ

pub data ConstructError : Type 0 where
  numa_unavailable : ConstructError
  numa_failed : ℤ → ConstructError
  mmap_failed : ConstructError

pub data Constructed : Type 0 where
  ready : Measurer → Constructed
  thrown : ConstructError → Constructed

-- The last loop of the constructor: node `i`, `i + 512`, … again points to itself. A round for each node is
-- fuel enough.
unfoldable pub touch_from : ℕ → ℕ → List ℕ → List ℕ
touch_from zero i nodes = nodes
touch_from (suc left) i nodes =
    if ltb i (length nodes) then touch_from left (i + 512) (set nodes i i) else nodes

-- `available` is `NumaSupport::available()`, `allocated` says whether the allocation that is tried gives
-- memory, and `overhead` is `Timer::measure_overhead_cycles(2000)`.
unfoldable pub construct :
    (available allocated : Bool) → (overhead requested asked_line : ℕ) → ℤ → Constructed
unfolding buffer_size node_count cache_line_size count_from build_self_loop touch_from
construct available allocated overhead requested asked_line numa_node =
    let n = node_count requested in
    let made = ready (record {
      size = buffer_size requested;
      count = n;
      line_size = cache_line_size asked_line;
      numa_node = numa_node;
      overhead = overhead;
      nodes = touch_from n 0 (build_self_loop (count_from n 0));
      random_order = [];
    }) in
    if not (ltb_ℤ numa_node (pos 0))
    then if not available
      then thrown ConstructError.numa_unavailable
      else if not allocated
      then thrown (ConstructError.numa_failed numa_node)
      else made
    else if not allocated
    then thrown ConstructError.mmap_failed
    else made

-- The guard of each measurement.
unfoldable pub is_valid : ℤ → ℤ → ℤ → Bool
is_valid iterations warmup rounds =
    not (leb_ℤ iterations (pos 0) || ltb_ℤ warmup (pos 0) || leb_ℤ rounds (pos 0))

module _ {ℓ} {S : Type ℓ} where
  -- `warmup` rounds of a step that knows its round.
  unfoldable pub warm_from : (ℕ → S → S) → ℕ → ℕ → S → S
  warm_from step zero i s = s
  warm_from step (suc left) i s = warm_from step left (i + 1) (step i s)

  -- The samples of one round, from iteration `i`.
  unfoldable pub iterate_from : (ℕ → S → ℕ × S) → ℕ → ℕ → S → List ℕ × S
  iterate_from sample zero i s = ([], s)
  iterate_from sample (suc left) i s =
      let (value, s1) = sample i s in
      let (rest, s2) = iterate_from sample left (i + 1) s1 in (value ∷ rest, s2)

  -- The samples of the rounds `round`, `round + 1`, ….
  unfoldable pub rounds_from : (ℕ → ℕ → S → ℕ × S) → ℕ → ℕ → ℕ → S → List ℕ × S
  unfolding iterate_from
  rounds_from sample iterations zero round s = ([], s)
  rounds_from sample iterations (suc left) round s =
      let (first, s1) = iterate_from (sample round) iterations 0 s in
      let (rest, s2) = rounds_from sample iterations left (round + 1) s1 in (first ++ rest, s2)

module _ (c : Cpu) where
  open c use {State, load, store, flush, fence, stamp_start, stamp_end, reserves}

  -- The loads of a chase.
  unfoldable pub chase : List ℕ → ℕ → ℕ → State → State
  chase nodes current zero s = s
  chase nodes current (suc steps) s = chase nodes (next_of nodes current) steps (load current s)

  -- The stores of a batch, from its store `i`; `i & 15` is the slot.
  unfoldable pub stores_from : ℕ → ℕ → State → State
  stores_from zero i s = s
  stores_from (suc left) i s = stores_from left (i + 1) (store (i % 16) s)

  -- The two time stamps around some work.
  unfoldable pub timed : ℕ → (State → State) → State → ℕ × State
  unfolding elapsed subtract_overhead
  timed overhead work s =
      let (t0, s1) = stamp_start s in
      let (t1, s2) = stamp_end (work s1) in (subtract_overhead (elapsed t0 t1) overhead, s2)

  unfoldable pub timed_pointer_chase : Measurer → List ℕ → ℕ → State → ℕ × State
  unfolding timed chase
  timed_pointer_chase m nodes start s = timed m.overhead (chase nodes start latency_batch) s

  unfoldable pub timed_store_batch : Measurer → State → ℕ × State
  unfolding timed stores_from
  timed_store_batch m s = timed m.overhead (stores_from store_batch 0) s

  -- The rounds `i`, `i + 1`, … of `flush_random_path`.
  unfoldable pub flush_from : List ℕ → ℕ → ℕ → ℕ → State → State
  flush_from order start zero i s = s
  flush_from order start (suc left) i s =
      flush_from order start left (i + 1) (flush (get_or order ((start + i) % length order) 0) s)

  unfoldable pub flush_random_path : List ℕ → ℕ → State → State
  unfolding flush_from
  flush_random_path order start s = fence (flush_from order start latency_batch 0 s)

  -- One flush and one timed chase, from a position of the order.
  unfoldable pub sample_miss : Measurer → List ℕ → List ℕ → ℕ → State → ℕ × State
  unfolding timed_pointer_chase flush_random_path
  sample_miss m order nodes position s =
      timed_pointer_chase m nodes (get_or order position 0) (flush_random_path order position s)

  -- The samples of all rounds, which are reserved at once.
  abbrev pub has_room : ℤ → ℤ → Bool
  has_room iterations rounds = reserves (pos_part iterations * pos_part rounds)

  -- `none` is an exception: `std::invalid_argument` or that of `reserve`.
  unfoldable pub measure_hit : Measurer → ℤ → ℤ → ℤ → State → Option (List ℕ × Measurer × State)
  unfolding is_valid warm_from rounds_from
  measure_hit m iterations warmup rounds s =
      let nodes = build_self_loop m.nodes in
      let warmed = warm_from (λ i s'. (timed_pointer_chase m nodes 0 s').1) (pos_part warmup) 0 s in
      let (samples, left) =
        rounds_from (λ round i. timed_pointer_chase m nodes 0) (pos_part iterations)
          (pos_part rounds) 0 warmed in
      if is_valid iterations warmup rounds && has_room iterations rounds
      then some (samples, record m { nodes = nodes }, left)
      else none

  unfoldable pub measure_store : Measurer → ℤ → ℤ → ℤ → State → Option (List ℕ × Measurer × State)
  unfolding is_valid warm_from rounds_from timed_store_batch
  measure_store m iterations warmup rounds s =
      let warmed = warm_from (λ i s'. (timed_store_batch m s').1) (pos_part warmup) 0 s in
      let (samples, left) =
        rounds_from (λ round i. timed_store_batch m) (pos_part iterations) (pos_part rounds) 0
          warmed in
      if is_valid iterations warmup rounds && has_room iterations rounds
      then some (samples, m, left)
      else none

  -- The product of a round and the iterations is below 2^62, so `std::size_t` holds it.
  unfoldable pub measure_forced_miss :
      (List ℕ → List ℕ) → Measurer → ℤ → ℤ → ℤ → State → Option (List ℕ × Measurer × State)
  unfolding is_valid warm_from rounds_from sample_miss build_random_ring
  measure_forced_miss shuffle m iterations warmup rounds s =
      let (order, nodes) = build_random_ring shuffle m.count m.nodes in
      let warmed =
        warm_from (λ i s'. (sample_miss m order nodes (i % length order) s').1) (pos_part warmup) 0
          s in
      let (samples, left) =
        rounds_from
          (λ round i. sample_miss m order nodes ((round * pos_part iterations + i) % length order))
          (pos_part iterations) (pos_part rounds) 0 warmed in
      if is_valid iterations warmup rounds && not (ltb m.count 64) && has_room iterations rounds
      then some (samples, record m { nodes = nodes; random_order = order }, left)
      else none

  -- One step of `measure_strides`: a timed chase from the current node, which then moves on.
  unfoldable pub stride_step : Measurer → List ℕ → ℕ × State → ℕ × (ℕ × State)
  stride_step m nodes (current, s) =
      let (value, s') = timed_pointer_chase m nodes current s in
      (value, (next_of nodes current, s'))

  unfoldable pub stride_rounds : Measurer → List ℕ → ℕ → ℕ → ℕ → State → List ℕ × State
  unfolding iterate_from stride_step
  stride_rounds m nodes iterations zero round s = ([], s)
  stride_rounds m nodes iterations (suc left) round s =
      let (first, (current, s1)) =
        iterate_from (λ i. stride_step m nodes) iterations 0 (round % m.count, s) in
      let (rest, s2) = stride_rounds m nodes iterations left (round + 1) s1 in (first ++ rest, s2)

  -- The measurement of one requested stride: the stride that is used, and its samples.
  unfoldable pub measure_stride :
      Measurer → ℕ → ℕ → ℕ → ℕ → State → (ℕ × List ℕ) × (Measurer × State)
  unfolding warm_from stride_rounds
  measure_stride m raw iterations warmup rounds s =
      let nodes = build_stride_ring m.count (whole_stride raw) m.nodes in
      let (start, warmed) = warm_from (λ i p. (stride_step m nodes p).1) warmup 0 (0, s) in
      let (samples, left) = stride_rounds m nodes iterations rounds 0 warmed in
      ((whole_stride raw, samples), (record m { nodes = nodes }, left))

  unfoldable pub strides_from :
      Measurer → List ℕ → ℕ → ℕ → ℕ → State → List (ℕ × List ℕ) × (Measurer × State)
  unfolding measure_stride
  strides_from m [] iterations warmup rounds s = ([], (m, s))
  strides_from m (raw ∷ strides) iterations warmup rounds s =
      let (first, (m1, s1)) = measure_stride m raw iterations warmup rounds s in
      let (rest, last) = strides_from m1 strides iterations warmup rounds s1 in (first ∷ rest, last)

  abbrev pub is_nil : List ℕ → Bool
  is_nil [] = true
  is_nil (raw ∷ strides) = false

  -- Each stride reserves the same number of samples.
  unfoldable pub measure_strides :
      Measurer → List ℕ → ℤ → ℤ → ℤ → State → Option (List (ℕ × List ℕ) × (Measurer × State))
  unfolding is_valid strides_from
  measure_strides m strides iterations warmup rounds s =
      if is_valid iterations warmup rounds && (is_nil strides || has_room iterations rounds)
      then some (strides_from m strides (pos_part iterations) (pos_part warmup) (pos_part rounds) s)
      else none
