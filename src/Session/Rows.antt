-- ===== src/Session/Rows.antt =====
-- The bandwidths among the results of `main` in MemoryLatencyAnalyzer_linux/src/main.cpp.
use memory_latency_analyzer.Base.{
  All, All-append, ℕ, ◌<◌, map, ◌&&◌, ◌⊎◌, ◌≡◌, ◌∙◌, refl, ap, inl, inr, Bool, true, false, not,
  Option, none, some, List, [], ◌∷◌, if◌then◌else◌, arith, Bool-cases,
}
use memory_latency_analyzer.Base.Int.{ℤ, negsuc}
use memory_latency_analyzer.Base.Text.{Bytes, codes}
use memory_latency_analyzer.Cli.Options.{Options}
use memory_latency_analyzer.Cli.Plan.{is_set}
use memory_latency_analyzer.Evaluation.Real.{Real}
use memory_latency_analyzer.Statistics.Summary.{Indexing}
use memory_latency_analyzer.Latency.Measure.{Cpu}
use memory_latency_analyzer.Bandwidth.Buffers.{
  Outcome, invalid_argument, allocation_failed, clock_failed, measured, prefix, measure,
}
use memory_latency_analyzer.Bandwidth.Rates.{bandwidth_result}
use memory_latency_analyzer.Report.Rows.{BandwidthResult}
use memory_latency_analyzer.Report.Reader.{HasNoQuote}
use memory_latency_analyzer.Session.Sequence.{
  Machine, keep, gather, bandwidth_results, bandwidth_repeats,
}
use memory_latency_analyzer.Session.Names.{
  HasNoQuote-to_string, answers_all, outcome_name, method_name, IsAsked, measure-name,
}

module _ (r : Real) (x : Indexing r) (nano beyond : Real.D r) where
  open r use {D}

  abbrev pub names_of : List (BandwidthResult D) → List Bytes
  names_of results = map (λ b. b.allocator) results

  abbrev pub add_name : Option Bytes → List Bytes → List Bytes
  add_name none names = names
  add_name (some name) names = name ∷ names

  abbrev NamesHaveNoQuote : List (BandwidthResult D) → Type 0
  NamesHaveNoQuote results = All (λ b. HasNoQuote b.allocator) results

  pub names-NoQuote :
      (results : List (BandwidthResult D))
      → All HasNoQuote (names_of results)
      → NamesHaveNoQuote results
  names-NoQuote [] h = tt
  names-NoQuote (b ∷ results) h = (h.0, names-NoQuote results h.1)

  module _ (c : Cpu) (shuffle : List ℕ → List ℕ) (w : Machine D) where
    open c use {State}

    -- Both buffers are given for the method, and the clock does not throw in its five repeats.
    abbrev pub is_served : Bytes → Bool
    is_served method =
        (w.gives_src method && w.gives_dst method) && answers_all (w.times method) 5 0

    unfoldable pub served_names : ℤ → List Bytes → List Bytes
    served_names node [] = []
    served_names node (method ∷ methods) =
        add_name (if is_served method then some (method_name node method) else none)
          (served_names node methods)

    -- The names of the bandwidths that are measured: of the node that is asked for, or of the three methods.
    unfoldable pub bandwidth_names : Options → List Bytes
    bandwidth_names o =
        if not o.run_bandwidth
        then []
        else if is_set o.numa_node
        then served_names o.numa_node (codes "numa" ∷ [])
        else served_names (negsuc 0) (codes "mmap" ∷ codes "malloc" ∷ codes "LargePage" ∷ [])

    names_of-keep :
        (out : Outcome) (rest : List (BandwidthResult D))
        → names_of (keep r x nano beyond c shuffle w (bandwidth_result r nano out) rest)
          ≡ add_name (outcome_name out) (names_of rest)
    unfolding bandwidth_result
    names_of-keep invalid_argument rest = refl
    names_of-keep allocation_failed rest = refl
    names_of-keep clock_failed rest = refl
    names_of-keep (measured name size times) rest = refl

    names_of-gather :
        (o : Options) (node : ℤ) (methods : List Bytes)
        → 0 < o.bandwidth_size
        → All (IsAsked w.numa_available node) methods
        → names_of (gather r x nano beyond c shuffle w o node methods) ≡ served_names node methods
    unfolding gather served_names
    names_of-gather o node [] more h = refl
    names_of-gather o node (method ∷ methods) more h =
        names_of-keep
          (measure w.numa_available (w.gives_src method) (w.gives_dst method) (w.times method)
            o.bandwidth_size method bandwidth_repeats node).0
          (gather r x nano beyond c shuffle w o node methods)
        ∙ ap (λ n. add_name n (names_of (gather r x nano beyond c shuffle w o node methods)))
            (measure-name w.numa_available (w.gives_src method) (w.gives_dst method)
              (w.times method) o.bandwidth_size method node more h.0)
        ∙ ap (add_name _) (names_of-gather o node methods more h.1)

    pub names_of-bandwidth_results :
        (o : Options)
        → (is_set o.numa_node ≡ false) ⊎ (w.numa_available ≡ true)
        → 0 < o.bandwidth_size
        → names_of (bandwidth_results r x nano beyond c shuffle w o) ≡ bandwidth_names o
    unfolding bandwidth_results bandwidth_names
    names_of-bandwidth_results o placed more = elim (Bool-cases (not o.run_bandwidth)) [
      | inl off ↦ rw off refl
      | inr on ↦ elim (Bool-cases (is_set o.numa_node)) [
        | inl there ↦
            let support : w.numa_available ≡ true = ground arith in
            rw (on, there)
              (names_of-gather o o.numa_node (codes "numa" ∷ []) more (inl (there, support), tt))
        | inr anywhere ↦
            rw (on, anywhere)
              (names_of-gather o (negsuc 0) (codes "mmap" ∷ codes "malloc" ∷ codes "LargePage" ∷ [])
                more
                (
                  inr (ground arith, inl refl),
                  (inr (ground arith, inr (inl refl)), (inr (ground arith, inr (inr refl)), tt)),
                ))
      ]
    ]

    HasNoQuote-method_name :
        (node : ℤ) (method : Bytes) → HasNoQuote method → HasNoQuote (method_name node method)
    HasNoQuote-method_name node method h = elim (Bool-cases (is_set node)) [
      | inl placed ↦ rw placed (All-append _ prefix _ (ground arith) (HasNoQuote-to_string node))
      | inr anywhere ↦ rw anywhere h
    ]

    HasNoQuote-served_names :
        (node : ℤ) (methods : List Bytes)
        → All HasNoQuote methods
        → All HasNoQuote (served_names node methods)
    unfolding served_names
    HasNoQuote-served_names node [] h = tt
    HasNoQuote-served_names node (method ∷ methods) h =
        let rest = HasNoQuote-served_names node methods h.1 in
        elim (Bool-cases (is_served method)) [
          | inl given ↦ rw given (HasNoQuote-method_name node method h.0, rest)
          | inr refused ↦ rw refused rest
        ]

    pub HasNoQuote-bandwidth_names : (o : Options) → All HasNoQuote (bandwidth_names o)
    unfolding bandwidth_names
    HasNoQuote-bandwidth_names o = elim (Bool-cases (not o.run_bandwidth)) [
      | inl off ↦ rw off tt
      | inr on ↦ elim (Bool-cases (is_set o.numa_node)) [
        | inl there ↦
            rw (on, there)
              (HasNoQuote-served_names o.numa_node (codes "numa" ∷ []) (ground arith, tt))
        | inr anywhere ↦
            rw (on, anywhere)
              (HasNoQuote-served_names (negsuc 0)
                (codes "mmap" ∷ codes "malloc" ∷ codes "LargePage" ∷ [])
                (ground arith, (ground arith, (ground arith, tt))))
      ]
    ]
