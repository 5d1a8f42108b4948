-- ===== src/Session/SharedRow.antt =====
-- The row of the shared memory among the results of `main` in MemoryLatencyAnalyzer_linux/src/main.cpp.
use memory_latency_analyzer.Base.{
  ℕ, ◌<◌, ltb, sym, ◌⊎◌, ◌≤◌, ◌≡◌, ◌∙◌, refl, ap, inl, inr, true, false, Option, none, some, List,
  length, if◌then◌else◌, arith, Bool-cases,
}
use memory_latency_analyzer.Base.Int.{ℤ, pos}
use memory_latency_analyzer.Cli.Options.{Options}
use memory_latency_analyzer.Evaluation.Real.{Real}
use memory_latency_analyzer.Statistics.Summary.{Indexing, summarize_cycles}
use memory_latency_analyzer.Latency.Measure.{Cpu}
use memory_latency_analyzer.Statistics.Quantiles.{count-summarize_cycles}
use memory_latency_analyzer.Shared.Measure.{Result, measure_cross_process}
use memory_latency_analyzer.Topology.Cores.{choose_distinct_cpu}
use memory_latency_analyzer.Report.Rows.{SharedMemoryResult}
use memory_latency_analyzer.Session.Sequence.{Machine, summarized, no_shared_result, shared_result}

module _ (r : Real) (x : Indexing r) (nano beyond : Real.D r) where
  open r use {D}

  module _ (c : Cpu) (shuffle : List ℕ → List ℕ) (w : Machine D) where
    open c use {State}

    -- The row of the shared memory: there is one where it is asked for. With fewer than two allowed CPUs it is not a
    -- success; otherwise it has the success and the number of samples of the measurement from the first allowed CPU to
    -- the chosen one, with 200 warmups.
    abbrev pub IsSharedRow : Options → ℤ → Option (SharedMemoryResult D) → Type 0
    IsSharedRow o primary none = o.run_shared_memory ≡ false
    IsSharedRow o primary (some given) =
        (o.run_shared_memory ≡ true)
        × (((length w.allowed_cpus < 2) × (given.success ≡ false))
            ⊎ (2 ≤ length w.allowed_cpus)
              × (result : Result) × ((measure_cross_process w.shared o.shm_iterations (pos 200)
                    primary (choose_distinct_cpu w.sysfs primary w.allowed_cpus)).0
                  ≡ some result)
              × (given.success ≡ result.success)
              × (given.stats.count ≡ length result.samples))

    summarized-row :
        (result : Option Result) (given : SharedMemoryResult D)
        → summarized r x nano beyond c shuffle w result ≡ some given
        → (found : Result) × (result ≡ some found)
          × (given.success ≡ found.success)
          × (given.stats.count ≡ length found.samples)
    summarized-row none given h = absurd (ground arith)
    summarized-row (some found) given h =
        let same : record {
          stats = summarize_cycles r x beyond found.samples;
          success = found.success;
        }
            ≡ given =
          ground arith in
        (
          found,
          refl,
          ap (λ (g : SharedMemoryResult D). g.success) (sym same),
          ap (λ (g : SharedMemoryResult D). g.stats.count) (sym same)
              ∙ count-summarize_cycles r x beyond found.samples,
        )

    pub shared_result-row :
        (o : Options) (primary : ℤ) (given : SharedMemoryResult D)
        → shared_result r x nano beyond c shuffle w o primary ≡ some given
        → IsSharedRow o primary (if o.run_shared_memory then some given else none)
    unfolding shared_result
    shared_result-row o primary given h = elim (Bool-cases o.run_shared_memory) [
      | inr off ↦ rw off refl
      | inl on ↦ elim (Bool-cases (ltb (length w.allowed_cpus) 2)) [
        | inl few ↦
            let same : no_shared_result r x nano beyond c shuffle w ≡ given = ground arith in
            rw on
              (refl, inl (ground arith, ap (λ (g : SharedMemoryResult D). g.success) (sym same)))
        | inr enough ↦
            let ran : summarized r x nano beyond c shuffle w
                  (measure_cross_process w.shared o.shm_iterations (pos 200) primary
                    (choose_distinct_cpu w.sysfs primary w.allowed_cpus)).0
                ≡ some given =
              ground arith in
            let enough_cpus : 2 ≤ length w.allowed_cpus = ground arith in
            let (found, e, success, counted) = summarized-row _ given ran in
            rw on (refl, inr (enough_cpus, found, e, success, counted))
      ]
    ]
