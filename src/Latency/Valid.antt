-- ===== src/Latency/Valid.antt =====
-- The measurements of MemoryLatencyAnalyzer_linux/src/latency_measurer.cpp on valid numbers: they return, with their
-- number of samples, and leave the size of the buffer as it is, where there is room for the samples.
use memory_latency_analyzer.Base.{
  ℕ, zero, suc, ◌+◌, ◌*◌, ◌%◌, ◌≤◌, ◌≡◌, ◌∙◌, refl, ap, true, false, not, ◌&&◌, ◌||◌, Option, none,
  some, Bool-cases, inl, inr, List, [], ◌∷◌, length, length-append, ltb, map, arith,
}
use memory_latency_analyzer.Base.Int.{ℤ, pos_part}
use memory_latency_analyzer.Latency.Measure.{
  Cpu, Measurer, is_valid, iterate_from, measure_hit, measure_store, measure_forced_miss,
  measure_stride, stride_rounds, stride_step, strides_from, measure_strides, has_room, is_nil,
}
use memory_latency_analyzer.Latency.Samples.{length-iterate_from, length-rounds_from}

module _ (c : Cpu) where
  open c use {State}

  -- A result with its number of samples, from a buffer of `n` nodes.
  abbrev pub Returned : ℕ → ℕ → Option (List ℕ × Measurer × State) → Type 0
  Returned n count result =
      (samples : List ℕ) × (m : Measurer) × (s : State) × (result ≡ some (samples, m, s))
      × (m.count ≡ n)
      × (length samples ≡ count)

  module _ (m : Measurer) (iterations warmup rounds : ℤ) (s : State)
      (ok : is_valid iterations warmup rounds ≡ true)
      (room : has_room c iterations rounds ≡ true) where
    pub measure_hit-Returned :
        Returned m.count
          (pos_part rounds * pos_part iterations)
          (measure_hit c m iterations warmup rounds s)
    unfolding measure_hit
    measure_hit-Returned = rw (ok, room) (_, _, _, refl, refl, length-rounds_from _ _ _ _ _)

    pub measure_store-Returned :
        Returned m.count
          (pos_part rounds * pos_part iterations)
          (measure_store c m iterations warmup rounds s)
    unfolding measure_store
    measure_store-Returned = rw (ok, room) (_, _, _, refl, refl, length-rounds_from _ _ _ _ _)

    pub measure_forced_miss-Returned :
        (shuffle : List ℕ → List ℕ)
        → 64 ≤ m.count
        → Returned m.count
            (pos_part rounds * pos_part iterations)
            (measure_forced_miss c shuffle m iterations warmup rounds s)
    unfolding measure_forced_miss
    measure_forced_miss-Returned shuffle large =
        let enough : not (ltb m.count 64) ≡ true = ground arith in
        rw (ok, enough, room) (_, _, _, refl, refl, length-rounds_from _ _ _ _ _)

  module _ (m : Measurer) (iterations warmup rounds : ℤ) (s : State)
      (full : has_room c iterations rounds ≡ false) where
    pub measure_hit-none : measure_hit c m iterations warmup rounds s ≡ none
    unfolding measure_hit
    measure_hit-none = elim (Bool-cases (is_valid iterations warmup rounds)) [
      | inl ok ↦ rw (ok, full) refl
      | inr bad ↦ rw bad refl
    ]

    pub measure_forced_miss-none :
        (shuffle : List ℕ → List ℕ)
        → measure_forced_miss c shuffle m iterations warmup rounds s ≡ none
    unfolding measure_forced_miss
    measure_forced_miss-none shuffle =
        elim (Bool-cases (is_valid iterations warmup rounds && not (ltb m.count 64))) [
          | inl ok ↦ ground (arith, full)
          | inr bad ↦ ground arith
        ]

    pub measure_strides-none :
        (raw : ℕ) (strides : List ℕ)
        → measure_strides c m (raw ∷ strides) iterations warmup rounds s ≡ none
    unfolding measure_strides
    measure_strides-none raw strides = elim (Bool-cases (is_valid iterations warmup rounds)) [
      | inl ok ↦ rw (ok, full) refl
      | inr bad ↦ rw bad refl
    ]

  length-stride_rounds :
      (m : Measurer) (nodes : List ℕ) (iterations left round : ℕ) (s : State)
      → length (stride_rounds c m nodes iterations left round s).0 ≡ left * iterations
  unfolding stride_rounds
  length-stride_rounds m nodes iterations zero round s = omega arith
  length-stride_rounds m nodes iterations (suc left) round s =
      let (first, (current, s1)) =
        iterate_from (λ i. stride_step c m nodes) iterations 0 (round % m.count, s) in
      let rest = (stride_rounds c m nodes iterations left (round + 1) s1).0 in
      let a = length-iterate_from (λ i. stride_step c m nodes) iterations 0 (round % m.count, s) in
      let b = length-stride_rounds m nodes iterations left (round + 1) s1 in
      length-append first rest ∙ omega (arith, a, b)

  -- How many samples each stride has.
  abbrev pub stride_counts : List (ℕ × List ℕ) → List ℕ
  stride_counts results = map (λ p. length p.1) results

  length-measure_stride :
      (m : Measurer) (raw iterations warmup rounds : ℕ) (s : State)
      → length (measure_stride c m raw iterations warmup rounds s).0.1 ≡ rounds * iterations
  unfolding measure_stride
  length-measure_stride m raw iterations warmup rounds s =
      length-stride_rounds _ _ iterations rounds 0 _

  stride_counts_lem :
      (m : Measurer) (strides : List ℕ) (iterations warmup rounds : ℕ) (s : State)
      → stride_counts (strides_from c m strides iterations warmup rounds s).0
        ≡ map (λ _. rounds * iterations) strides
  unfolding strides_from
  stride_counts_lem m [] iterations warmup rounds s = refl
  stride_counts_lem m (raw ∷ strides) iterations warmup rounds s =
      let (m1, s1) = (measure_stride c m raw iterations warmup rounds s).1 in
      let rest = stride_counts_lem m1 strides iterations warmup rounds s1 in
      ap (λ n. n ∷ stride_counts (strides_from c m1 strides iterations warmup rounds s1).0)
        (length-measure_stride m raw iterations warmup rounds s)
      ∙ ap (◌∷◌ (rounds * iterations)) rest

  pub measure_strides-Returned :
      (m : Measurer) (strides : List ℕ) (iterations warmup rounds : ℤ) (s : State)
      → is_valid iterations warmup rounds ≡ true
      → has_room c iterations rounds ≡ true
      → (results : List (ℕ × List ℕ)) × (left : Measurer × State) × (measure_strides c m strides
            iterations warmup rounds s
          ≡ some (results, left))
        × (stride_counts results ≡ map (λ _. pos_part rounds * pos_part iterations) strides)
  unfolding measure_strides
  measure_strides-Returned m strides iterations warmup rounds s ok room =
      let enough : (is_nil c strides || true) ≡ true = ground arith in
      rw (ok, room, enough)
        (
          _,
          _,
          refl,
          stride_counts_lem m strides (pos_part iterations) (pos_part warmup) (pos_part rounds) s,
        )
