-- ===== src/Latency/Samples.antt =====
-- What the measurements of MemoryLatencyAnalyzer_linux/src/latency_measurer.cpp return: how many samples, and
-- what a sample of the forced-miss benchmark times.
use memory_latency_analyzer.Base.{
  ℕ, zero, suc, ◌+◌, ◌*◌, ◌%◌, ◌≤◌, ◌<◌, ◌≡◌, ◌∙◌, refl, ap, Bool, List, [], ◌∷◌, length,
  length-append, get_or, arith,
}
use memory_latency_analyzer.Base.Int.{ℤ}
use memory_latency_analyzer.Latency.Sizes.{latency_batch, node_count, buffer_size_exact}
use memory_latency_analyzer.Latency.Rings.{
  next_of, count_from, build_random_ring, chase_path, flush_path,
}
use memory_latency_analyzer.Latency.RandomRing.{IsOrder, random_ring-flush_path}
use memory_latency_analyzer.Latency.Measure.{
  Cpu, Measurer, ready, construct, iterate_from, rounds_from, chase, timed, flush_from,
  flush_random_path, timed_pointer_chase, sample_miss,
}

module _ {ℓ} {S : Type ℓ} where
  pub length-iterate_from :
      (sample : ℕ → S → ℕ × S) (left i : ℕ) (s : S) → length (iterate_from sample left i s).0 ≡ left
  unfolding iterate_from
  length-iterate_from sample zero i s = refl
  length-iterate_from sample (suc left) i s =
      ap suc (length-iterate_from sample left (i + 1) (sample i s).1)

  pub length-rounds_from :
      (sample : ℕ → ℕ → S → ℕ × S) (iterations left round : ℕ) (s : S)
      → length (rounds_from sample iterations left round s).0 ≡ left * iterations
  unfolding rounds_from
  length-rounds_from sample iterations zero round s = omega arith
  length-rounds_from sample iterations (suc left) round s =
      let (first, s1) = iterate_from (sample round) iterations 0 s in
      let rest = (rounds_from sample iterations left (round + 1) s1).0 in
      let a : length first ≡ iterations = length-iterate_from (sample round) iterations 0 s in
      let b = length-rounds_from sample iterations left (round + 1) s1 in
      length-append first rest ∙ omega arith

-- What the constructor leaves is large enough for every measurement.
construct-count :
    (available allocated : Bool) (overhead requested asked_line : ℕ) (numa_node : ℤ) {m : Measurer}
    → construct available allocated overhead requested asked_line numa_node ≡ ready m
    → m.count ≡ node_count requested
unfolding construct
construct-count available allocated overhead requested asked_line numa_node h = ground arith

pub construct-large :
    (available allocated : Bool) (overhead requested asked_line : ℕ) (numa_node : ℤ) {m : Measurer}
    → construct available allocated overhead requested asked_line numa_node ≡ ready m
    → 524288 ≤ m.count
construct-large available allocated overhead requested asked_line numa_node h =
    let (_, _, _, _, large, _) = buffer_size_exact requested asked_line in
    let same = construct-count available allocated overhead requested asked_line numa_node h in
    omega arith

module _ (c : Cpu) where
  open c use {State, load, flush, fence}

  unfoldable pub load_all : List ℕ → State → State
  load_all [] s = s
  load_all (x ∷ xs) s = load_all xs (load x s)

  unfoldable pub flush_all : List ℕ → State → State
  flush_all [] s = s
  flush_all (x ∷ xs) s = flush_all xs (flush x s)

  chase-load_all :
      (nodes : List ℕ) (current steps : ℕ) (s : State)
      → chase c nodes current steps s ≡ load_all (chase_path nodes current steps) s
  unfolding chase chase_path load_all
  chase-load_all nodes current zero s = refl
  chase-load_all nodes current (suc steps) s =
      chase-load_all nodes (next_of nodes current) steps (load current s)

  flush_from-flush_all :
      (order : List ℕ) (start left i : ℕ) (s : State)
      → flush_from c order start left i s ≡ flush_all (flush_path order start left i) s
  unfolding flush_from flush_path flush_all
  flush_from-flush_all order start zero i s = refl
  flush_from-flush_all order start (suc left) i s =
      flush_from-flush_all order start left (i + 1)
        (flush (get_or order ((start + i) % length order) 0) s)

  -- On any processor and for any shuffle, a sample of the forced-miss benchmark flushes 128 lines, waits for
  -- the fence, and times the loads of exactly these lines in the same order.
  pub sample_miss_exact :
      (shuffle : List ℕ → List ℕ) (n : ℕ)
      → IsOrder n (shuffle (count_from n 0))
      → (m : Measurer) (position : ℕ) (s : State) → length m.nodes ≡ n
      → position < n
      → let (order, ring) = build_random_ring shuffle n m.nodes in
        let lines = flush_path order position 128 0 in
        sample_miss c m order ring position s
        ≡ timed c m.overhead (load_all lines) (fence (flush_all lines s))
  unfolding sample_miss timed_pointer_chase flush_random_path timed build_random_ring load_all
      flush_all flush_path
  sample_miss_exact shuffle n shuffled m position s len less =
      let (order, ring) = build_random_ring shuffle n m.nodes in
      let same =
        random_ring-flush_path shuffle n shuffled m.nodes position latency_batch len less in
      let flushed = flush_from-flush_all order position latency_batch 0 s in
      rw (flushed, chase-load_all ring (get_or order position 0) latency_batch, same) refl
