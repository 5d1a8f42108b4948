-- ===== src/Shared/Results.antt =====
-- The results of `measure_cross_process` of MemoryLatencyAnalyzer_linux/src/shared_memory_measurer.cpp.
use Prim.Native.String.{String}
use mathlib.Core.Path.{subst}
use memory_latency_analyzer.Base.{
  ℕ, zero, suc, ◌+◌, ◌≤◌, ◌<◌, ◌≡◌, ◌≢◌, ◌↔◌, refl, sym, ◌-◌, ◌%◌, ◌^◌, inl, inr, Option-cases,
  Bool, true, false, Option, none, some, List, [], ◌∷◌, length, arith, if◌then◌else◌, ap,
}
use memory_latency_analyzer.Base.Int.{ℤ, pos, ◌≤ℤ◌}
use memory_latency_analyzer.Shared.Measure.{
  World, no_message, text, Result, failed, warmup_from, iterate_from, finish, add_sample,
}

pub warmup_from-none :
    (answers : ℕ → Option Bool) (left i : ℕ)
    → warmup_from answers left i ≡ none
    → (j : ℕ) × (answers j ≡ none)
unfolding warmup_from
warmup_from-none answers zero i h = absurd (ground arith)
warmup_from-none answers (suc left) i h = elim (Option-cases (answers i)) [
  | inl e ↦ (i, e)
  | inr (false, e) ↦ absurd (ground arith)
  | inr (true, e) ↦ warmup_from-none answers left (i + 1) (rw (warmup_from, e) at h)
]

pub iterate_from-none :
    (w : World) (left i : ℕ) → iterate_from w left i ≡ none → (j : ℕ) × (w.answers j ≡ none)
unfolding iterate_from
iterate_from-none w zero i h = absurd (ground arith)
iterate_from-none w (suc left) i h = elim (Option-cases (w.answers i)) [
  | inl e ↦ (i, e)
  | inr (false, e) ↦ absurd (ground arith)
  | inr (true, e) ↦ elim (Option-cases (iterate_from w left (i + 1))) [
    | inl q ↦ iterate_from-none w left (i + 1) q
    | inr (x, q) ↦ absurd (ground arith)
  ]
]

-- The samples of the iterations, where no wait throws.
abbrev pub IsIterated : ℕ → Option (List ℕ × Bool) → Type 0
IsIterated left none = Unit
IsIterated left (some (samples, left_early)) =
    (length samples ≤ left) × ((left_early ≡ false) ↔ (length samples ≡ left))

add_sample-IsIterated :
    (sample left : ℕ) (rest : Option (List ℕ × Bool))
    → IsIterated left rest
    → IsIterated (suc left) (add_sample sample rest)
add_sample-IsIterated sample left none h = tt
add_sample-IsIterated sample left (some (samples, left_early)) h = ground (arith, h)

pub iterate_from-IsIterated : (w : World) (left i : ℕ) → IsIterated left (iterate_from w left i)
unfolding iterate_from
iterate_from-IsIterated w zero i = (omega arith, ground arith)
iterate_from-IsIterated w (suc left) i = elim (Option-cases (w.answers i)) [
  | inl e ↦
      let same : iterate_from w (suc left) i ≡ none = rw (e, iterate_from) refl in
      subst (IsIterated (suc left)) (sym same) tt
  | inr (false, e) ↦
      let same : iterate_from w (suc left) i ≡ some ([], true) = rw (e, iterate_from) refl in
      subst (IsIterated (suc left)) (sym same) (omega arith, ground arith)
  | inr (true, e) ↦
      let sample = (w.ends i + 2 ^ 64 - w.starts i) % 2 ^ 64 in
      let same : iterate_from w (suc left) i ≡ add_sample sample (iterate_from w left (i + 1)) =
        rw (e, iterate_from) refl in
      subst (IsIterated (suc left)) (sym same)
        (add_sample-IsIterated sample left _ (iterate_from-IsIterated w left (i + 1)))
]

-- What a result promises of the iterations that were asked for.
abbrev pub IsHonest : ℤ → Result → Type 0
IsHonest iterations r =
    if r.success
    then (r.iterations ≡ pos (length r.samples))
      × (0 < length r.samples)
      × (r.iterations ≤ℤ iterations)
      × ((r.error_message ≡ no_message) ↔ (r.iterations ≡ iterations))
    else (r.samples ≡ []) × (r.error_message ≢ no_message)

text_ne : (s : String) → text s ≢ no_message
text_ne s e = absurd (ground arith)

pub finish-IsHonest :
    (n : ℕ) (producer_cpu consumer_cpu : ℤ) (samples : List ℕ) (left_early : Bool)
    → length samples ≤ n
    → (left_early ≡ false) ↔ (length samples ≡ n)
    → 0 < n
    → IsHonest (pos n) (finish (pos n) producer_cpu consumer_cpu samples left_early)
unfolding finish
finish-IsHonest n producer_cpu consumer_cpu [] true h early more =
    (refl, text_ne "Consumer stopped during measurement")
finish-IsHonest n producer_cpu consumer_cpu [] false h early more =
    (refl, text_ne "No successful shared-memory samples")
finish-IsHonest n producer_cpu consumer_cpu (x ∷ xs) true h early more = (
  refl,
  omega arith,
  omega arith,
  (
    (λ e. absurd (text_ne "Consumer stopped during measurement" e)),
    (λ e. absurd (ground (arith, early.1))),
  ),
)
finish-IsHonest n producer_cpu consumer_cpu (x ∷ xs) false h early more =
    (refl, omega arith, omega arith, ((λ e. ap pos (early.0 refl)), (λ e. refl)))

pub failed-IsHonest :
    (iterations producer_cpu consumer_cpu : ℤ) (s : String)
    → IsHonest iterations (failed iterations producer_cpu consumer_cpu s)
failed-IsHonest iterations producer_cpu consumer_cpu s = (refl, text_ne s)
