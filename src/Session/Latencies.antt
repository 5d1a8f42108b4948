-- ===== src/Session/Latencies.antt =====
-- The latency measurements of the mode in `main` of MemoryLatencyAnalyzer_linux/src/main.cpp: when they throw, and how many
-- samples they have.
use memory_latency_analyzer.Base.{
  All, All-append, ℕ, ◌*◌, ◌≤◌, ◌≡◌, ◌∙◌, refl, ap, ◌⊎◌, ◌&&◌, drop, inl, inr, Bool, true, false,
  none, some, List, [], ◌∷◌, map, length, length-map, arith, Bool-cases,
}
use memory_latency_analyzer.Base.Int.{ℤ, pos, negsuc, ◌≤ℤ◌, ◌<ℤ◌, pos_part}
use memory_latency_analyzer.Base.Text.{Bytes, codes, print_nat, is_digit, All-is_digit-print_nat}
use memory_latency_analyzer.Report.Reader.{HasNoQuote}
use memory_latency_analyzer.Cli.Options.{Options}
use memory_latency_analyzer.Cli.Plan.{is_set}
use memory_latency_analyzer.Evaluation.Real.{Real}
use memory_latency_analyzer.Statistics.Summary.{Indexing}
use memory_latency_analyzer.Statistics.Quantiles.{count-summarize_impl}
use memory_latency_analyzer.Latency.Sizes.{latency_batch, store_batch}
use memory_latency_analyzer.Latency.Measure.{Cpu, Measurer, ready, construct, is_valid, has_room}
use memory_latency_analyzer.Latency.Samples.{construct-large}
use memory_latency_analyzer.Latency.Valid.{
  measure_hit-Returned, measure_store-Returned, measure_forced_miss-Returned,
  measure_strides-Returned, measure_hit-none, measure_strides-none,
}
use memory_latency_analyzer.Report.Rows.{MeasurementResult}
use memory_latency_analyzer.Session.Sequence.{
  Machine, half_int, at_least_one, stride_list, built, per_access, result_of, stride_result,
  measure_latency,
}

-- How many samples the results have: the product of rounds and iterations three times, and of half the iterations for
-- each stride.
abbrev pub expected_counts : Options → List ℕ
expected_counts o =
    let all = pos_part o.rounds * pos_part o.iterations in
    all
    ∷ all
    ∷ all
    ∷ map (λ _. pos_part o.rounds * pos_part (at_least_one (half_int o.iterations))) stride_list

cons_three :
    {a a' b b' d d' : ℕ} {l l' : List ℕ}
    → a ≡ a'
    → b ≡ b'
    → d ≡ d'
    → l ≡ l'
    → ◌≡◌ {A = List ℕ} (a ∷ b ∷ d ∷ l) (a' ∷ b' ∷ d' ∷ l')
cons_three p q t e = cc

-- The numbers that the mode gets from the command line are valid, and so are their halves.
pub halves_valid :
    (iterations warmup rounds : ℤ)
    → pos 0 <ℤ iterations
    → pos 0 ≤ℤ warmup
    → pos 0 <ℤ rounds
    → (is_valid iterations warmup rounds ≡ true)
      × (is_valid (at_least_one (half_int iterations)) (half_int warmup) rounds ≡ true)
unfolding is_valid
halves_valid (pos i) (pos w) (pos n) a b d = ground arith
halves_valid (pos i) (pos w) (negsuc n) a b d = absurd (omega arith)
halves_valid (pos i) (negsuc w) n a b d = absurd (omega arith)
halves_valid (negsuc i) w n a b d = absurd (omega arith)

pub HasNoQuote-digits : (s : Bytes) → All (λ c. is_digit c ≡ true) s → HasNoQuote s
HasNoQuote-digits [] h = tt
HasNoQuote-digits (c ∷ s) h = (ground (arith, h.0), HasNoQuote-digits s h.1)

construct-made :
    (available : Bool) (overhead requested line : ℕ) (node : ℤ)
    → (is_set node ≡ false) ⊎ (available ≡ true)
    → (m : Measurer) × (construct available true overhead requested line node ≡ ready m)
unfolding construct
construct-made available overhead requested line node placed = elim (Bool-cases (is_set node)) [
  | inl placing ↦ let there : available ≡ true = ground arith in rw (placing, there) (_, refl)
  | inr anywhere ↦ rw anywhere (_, refl)
]

pub construct-ready :
    (available : Bool) (overhead requested line : ℕ) (node : ℤ)
    → (is_set node ≡ false) ⊎ (available ≡ true)
    → (m : Measurer) × (built (construct available true overhead requested line node) ≡ some m)
      × (64 ≤ m.count)
construct-ready available overhead requested line node placed =
    let (m, e) = construct-made available overhead requested line node placed in
    let large : 524288 ≤ m.count = construct-large available true overhead requested line node e in
    (m, ap built e, omega arith)

pub construct-none :
    (available : Bool) (overhead requested line : ℕ) (node : ℤ)
    → built (construct available false overhead requested line node) ≡ none
unfolding construct
construct-none available overhead requested line node = ground arith

hit_label : HasNoQuote (codes "Cache Hit (L1 pointer-chasing latency)")
hit_label = ground arith

miss_label : HasNoQuote (codes "Forced Cache Miss (random pointer chase + CLFLUSH)")
miss_label = ground arith

store_label : HasNoQuote (codes "Store (hot lines; issue throughput per store)")
store_label = ground arith

module _ (r : Real) (x : Indexing r) (nano beyond : Real.D r) where
  open r use {D}

  abbrev pub counts : List (MeasurementResult D) → List ℕ
  counts results = map (λ m. m.stats.count) results

  count-result_of :
      (label : Bytes) (batch : ℕ) (samples : List ℕ)
      → (result_of r x nano beyond label batch samples).stats.count ≡ length samples
  count-result_of label batch samples =
      count-summarize_impl r x beyond (per_access r x nano beyond batch samples)
      ∙ length-map samples _

  counts-stride_result :
      (results : List (ℕ × List ℕ))
      → counts (map (stride_result r x nano beyond) results) ≡ map (λ p. length p.1) results
  counts-stride_result [] = refl
  counts-stride_result ((stride, samples) ∷ results) =
      ap (λ n. n ∷ counts (map (stride_result r x nano beyond) results))
        (count-result_of [] latency_batch samples)
      ∙ ap (◌∷◌ (length samples)) (counts-stride_result results)

  stride_label :
      (stride : ℕ) (samples : List ℕ)
      → HasNoQuote (stride_result r x nano beyond (stride, samples)).label
  stride_label stride samples = All-append _ (codes "Stride ") _ (ground arith) (
      All-append _ (print_nat stride) _ (HasNoQuote-digits _ (All-is_digit-print_nat stride))
        (ground arith))

  stride_labels :
      (results : List (ℕ × List ℕ))
      → All (λ m. HasNoQuote m.label) (map (stride_result r x nano beyond) results)
  stride_labels [] = tt
  stride_labels ((stride, samples) ∷ results) = (stride_label stride samples, stride_labels results)

  module _ (c : Cpu) (shuffle : List ℕ → List ℕ) (w : Machine D) where
    open c use {State}

    -- There is room for the samples of the first three measurements, and for those of each stride.
    abbrev pub has_rooms : Options → Bool
    has_rooms o =
        has_room c o.iterations o.rounds
        && has_room c (at_least_one (half_int o.iterations)) o.rounds

    pub measure_latency-counts :
        (o : Options) (m : Measurer) (s : State)
        → is_valid o.iterations o.warmup o.rounds ≡ true
        → is_valid (at_least_one (half_int o.iterations)) (half_int o.warmup) o.rounds ≡ true
        → 64 ≤ m.count
        → has_rooms o ≡ true
        → (latency : List (MeasurementResult D)) × (measure_latency r x nano beyond c shuffle w o m
              s
            ≡ some latency)
          × (counts latency ≡ expected_counts o)
          × All (λ m. HasNoQuote m.label) latency
    unfolding measure_latency
    measure_latency-counts o m s ok half_ok large rooms =
        let (room, half_room) : (has_room c o.iterations o.rounds ≡ true)
            × (has_room c (at_least_one (half_int o.iterations)) o.rounds ≡ true) =
          (ground arith, ground arith) in
        let (hits, m1, s1, e1, c1, n1) =
          measure_hit-Returned c m o.iterations o.warmup o.rounds s ok room in
        let (misses, m2, s2, e2, c2, n2) =
          measure_forced_miss-Returned c m1 o.iterations o.warmup o.rounds s1 ok room shuffle
            (omega arith) in
        let (stores, m3, s3, e3, c3, n3) =
          measure_store-Returned c m2 o.iterations o.warmup o.rounds s2 ok room in
        let (strides, left, e4, n4) =
          measure_strides-Returned c m3 stride_list (at_least_one (half_int o.iterations))
            (half_int o.warmup) o.rounds s3 half_ok half_room in
        rw (e1, e2, e3, e4)
          (
            _,
            refl,
            cons_three (count-result_of [] latency_batch hits ∙ n1)
                (count-result_of [] latency_batch misses ∙ n2)
                (count-result_of [] store_batch stores ∙ n3) (counts-stride_result strides ∙ n4),
            (hit_label, (miss_label, (store_label, stride_labels strides))),
          )

    pub measure_latency-none :
        (o : Options) (m : Measurer) (s : State)
        → is_valid o.iterations o.warmup o.rounds ≡ true
        → 64 ≤ m.count
        → has_rooms o ≡ false
        → measure_latency r x nano beyond c shuffle w o m s ≡ none
    unfolding measure_latency
    measure_latency-none o m s ok large full =
        elim (Bool-cases (has_room c o.iterations o.rounds)) [
          | inr e ↦ rw (measure_hit-none c m o.iterations o.warmup o.rounds s e) refl
          | inl room ↦
              let half_full : has_room c (at_least_one (half_int o.iterations)) o.rounds ≡ false =
                ground arith in
              let (hits, m1, s1, e1, c1, _) =
                measure_hit-Returned c m o.iterations o.warmup o.rounds s ok room in
              let (misses, m2, s2, e2, _, _) =
                measure_forced_miss-Returned c m1 o.iterations o.warmup o.rounds s1 ok room shuffle
                  (omega arith) in
              let (stores, m3, s3, e3, _, _) =
                measure_store-Returned c m2 o.iterations o.warmup o.rounds s2 ok room in
              let e4 =
                measure_strides-none c m3 (at_least_one (half_int o.iterations)) (half_int o.warmup)
                  o.rounds s3 half_full 64 (drop 1 stride_list) in
              rw (e1, e2, e3, e4) refl
        ]
