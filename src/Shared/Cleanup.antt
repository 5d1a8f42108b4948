-- ===== src/Shared/Cleanup.antt =====
-- What `measure_cross_process` of MemoryLatencyAnalyzer_linux/src/shared_memory_measurer.cpp releases and returns.
use memory_latency_analyzer.Base.{
  ℕ, ◌+◌, ◌<◌, ◌≡◌, refl, ◌⊎◌, inl, inr, Bool-cases, Bool, true, false, not, ◌||◌, Option, none,
  some, List, [], ◌∷◌, arith, if◌then◌else◌,
}
use memory_latency_analyzer.Base.Int.{ℤ, pos, leb_ℤ, ltb_ℤ, pos_part, negsuc}
use memory_latency_analyzer.Shared.Measure.{
  World, Call, shm_open, close, shm_unlink, map, unmap, fork, set_stop, wait_or_kill, Result,
  warmup_from, iterate_from, measure_cross_process, after_iterations, after_warmup, after_ready,
}
use memory_latency_analyzer.Shared.Results.{
  warmup_from-none, iterate_from-none, IsIterated, iterate_from-IsIterated, IsHonest,
  finish-IsHonest, failed-IsHonest,
}

-- How often a list has a call.
abbrev pub is_call : Call → Call → ℕ
is_call shm_open shm_open = 1
is_call close close = 1
is_call shm_unlink shm_unlink = 1
is_call map map = 1
is_call unmap unmap = 1
is_call fork fork = 1
is_call set_stop set_stop = 1
is_call wait_or_kill wait_or_kill = 1
is_call _ _ = 0

abbrev pub count : Call → List Call → ℕ
count c [] = 0
count c (d ∷ ds) = is_call c d + count c ds

-- Everything that is acquired is released: the object is closed and unlinked, the view unmapped, and a consumer
-- is told to stop and waited for.
abbrev pub IsReleased : List Call → Type 0
IsReleased calls =
    (count shm_open calls ≡ count close calls)
    × (count shm_open calls ≡ count shm_unlink calls)
    × (count map calls ≡ count unmap calls)
    × (count fork calls ≡ count set_stop calls)
    × (count fork calls ≡ count wait_or_kill calls)

-- What an exception leaves: nothing is acquired, or the consumer runs on, and the view and the object stay.
abbrev pub IsLeft : List Call → Type 0
IsLeft calls = (calls ≡ []) ⊎ (calls ≡ shm_open ∷ map ∷ close ∷ fork ∷ [])

abbrev pub IsCleaned : Option Result × List Call → Type 0
IsCleaned (none, calls) = IsLeft calls
IsCleaned (some r, calls) = IsReleased calls

-- Something has thrown: the clock at the name or in a wait, or `samples.reserve`.
abbrev pub HasThrown : World → Type 0
HasThrown w =
    (w.named ≡ false)
    ⊎ (w.becomes_ready ≡ none)
    ⊎ ((i : ℕ) × (w.warmup_answers i ≡ none))
    ⊎ (w.reserves ≡ false)
    ⊎ ((i : ℕ) × (w.answers i ≡ none))

-- What an end promises of its calls and of its result.
abbrev pub IsSound : World → ℤ → Option Result × List Call → Type 0
IsSound w iterations (none, calls) = IsLeft calls × HasThrown w
IsSound w iterations (some r, calls) = IsReleased calls × IsHonest iterations r

if_IsSound :
    (w : World) (iterations : ℤ) (b : Bool) (x y : Option Result × List Call)
    → (b ≡ true → IsSound w iterations x)
    → (b ≡ false → IsSound w iterations y)
    → IsSound w iterations (if b then x else y)
if_IsSound w iterations true x y h k = h refl
if_IsSound w iterations false x y h k = k refl

module _ (w : World) (n : ℕ) (producer_cpu consumer_cpu : ℤ) (more : 0 < n) where
  after_iterations-IsSound :
      (run : Option (List ℕ × Bool))
      → iterate_from w n 0 ≡ run
      → IsIterated n run
      → IsSound w (pos n) (after_iterations (pos n) producer_cpu consumer_cpu run)
  after_iterations-IsSound none e h = (inr refl, inr (inr (inr (inr (iterate_from-none w n 0 e)))))
  after_iterations-IsSound (some (samples, left_early)) e (less, early) = (
    (refl, refl, refl, refl, refl),
    finish-IsHonest n producer_cpu consumer_cpu samples left_early less early more,
  )

  after_warmup-IsSound :
      (left : ℕ) (run : Option Bool)
      → warmup_from w.warmup_answers left 0 ≡ run
      → IsSound w (pos n) (after_warmup (pos n) producer_cpu consumer_cpu w run)
  after_warmup-IsSound left none e =
      (inr refl, inr (inr (inl (warmup_from-none w.warmup_answers left 0 e))))
  after_warmup-IsSound left (some false) e =
      ((refl, refl, refl, refl, refl), failed-IsHonest (pos n) producer_cpu consumer_cpu _)
  after_warmup-IsSound left (some true) e =
      if_IsSound w (pos n) w.reserves _ _
        (λ _. after_iterations-IsSound (iterate_from w n 0) refl (iterate_from-IsIterated w n 0))
        (λ full. (inr refl, inr (inr (inr (inl full)))))

  after_ready-IsSound :
      (warmup : ℤ) (ready : Option Bool)
      → w.becomes_ready ≡ ready
      → IsSound w (pos n) (after_ready (pos n) producer_cpu consumer_cpu w warmup ready)
  after_ready-IsSound warmup none e = (inr refl, inr (inl e))
  after_ready-IsSound warmup (some false) e =
      ((refl, refl, refl, refl, refl), failed-IsHonest (pos n) producer_cpu consumer_cpu _)
  after_ready-IsSound warmup (some true) e = after_warmup-IsSound (pos_part warmup) _ refl

  -- Behind the guard of the numbers.
  guarded-IsSound :
      (warmup : ℤ)
      → leb_ℤ (pos n) (pos 0) || ltb_ℤ warmup (pos 0) ≡ false
      → IsSound w (pos n) (measure_cross_process w (pos n) warmup producer_cpu consumer_cpu)
  unfolding measure_cross_process
  guarded-IsSound warmup good =
      let fail = failed-IsHonest (pos n) producer_cpu consumer_cpu in
      rw good (
        if_IsSound w (pos n) (ltb_ℤ producer_cpu (pos 0) || ltb_ℤ consumer_cpu (pos 0)) _ _
          (λ _. ((refl, refl, refl, refl, refl), fail _))
          (λ _.
            if_IsSound w (pos n) (not w.named) _ _ (λ e. (inl refl, inl (ground arith)))
              (λ _.
                if_IsSound w (pos n) (not w.shm_opens) _ _
                  (λ _. ((refl, refl, refl, refl, refl), fail _))
                  (λ _.
                    if_IsSound w (pos n) (not w.truncates) _ _
                      (λ _. ((refl, refl, refl, refl, refl), fail _))
                      (λ _.
                        if_IsSound w (pos n) (not w.maps) _ _
                          (λ _. ((refl, refl, refl, refl, refl), fail _))
                          (λ _.
                            if_IsSound w (pos n) (not w.forks) _ _
                              (λ _. ((refl, refl, refl, refl, refl), fail _))
                              (λ _. after_ready-IsSound warmup w.becomes_ready refl)))))))

measure_cross_process-IsSound :
    (w : World) (iterations warmup producer_cpu consumer_cpu : ℤ)
    → IsSound w iterations (measure_cross_process w iterations warmup producer_cpu consumer_cpu)
measure_cross_process-IsSound w iterations warmup producer_cpu consumer_cpu =
    elim (Bool-cases (leb_ℤ iterations (pos 0) || ltb_ℤ warmup (pos 0))) [
      | inl bad ↦
          unfold measure_cross_process in
          rw bad
            ((refl, refl, refl, refl, refl), failed-IsHonest iterations producer_cpu consumer_cpu _)
      | inr good ↦ valid-IsSound iterations good
    ]
  where
    valid-IsSound :
        (z : ℤ)
        → leb_ℤ z (pos 0) || ltb_ℤ warmup (pos 0) ≡ false
        → IsSound w z (measure_cross_process w z warmup producer_cpu consumer_cpu)
    valid-IsSound (pos n) good =
        guarded-IsSound w n producer_cpu consumer_cpu (ground arith) warmup good
    valid-IsSound (negsuc n) good = absurd (ground arith)

IsSound-IsCleaned :
    (w : World) (iterations : ℤ) (e : Option Result × List Call)
    → IsSound w iterations e
    → IsCleaned e
IsSound-IsCleaned w iterations (none, calls) h = h.0
IsSound-IsCleaned w iterations (some r, calls) h = h.0

-- Whatever fails, each return of `measure_cross_process` has released all that was acquired: the object is closed
-- and unlinked, the view unmapped, and a consumer is told to stop and waited for. An exception comes before
-- anything is acquired, or it leaves the view, the object and the consumer as they are.
pub measure_cross_process-IsCleaned :
    (w : World) (iterations warmup producer_cpu consumer_cpu : ℤ)
    → IsCleaned (measure_cross_process w iterations warmup producer_cpu consumer_cpu)
measure_cross_process-IsCleaned w iterations warmup producer_cpu consumer_cpu =
    IsSound-IsCleaned w iterations _
      (measure_cross_process-IsSound w iterations warmup producer_cpu consumer_cpu)

-- What an end says: an honest result, or an exception that something has thrown.
abbrev pub IsHonestEnd : World → ℤ → Option Result → Type 0
IsHonestEnd w iterations none = HasThrown w
IsHonestEnd w iterations (some r) = IsHonest iterations r

IsSound-IsHonestEnd :
    (w : World) (iterations : ℤ) (e : Option Result × List Call)
    → IsSound w iterations e
    → IsHonestEnd w iterations e.0
IsSound-IsHonestEnd w iterations (none, calls) h = h.1
IsSound-IsHonestEnd w iterations (some r, calls) h = h.1

-- Where neither the clock nor `samples.reserve` throws, there is a result, and every result is honest: a success has
-- one sample for each iteration that it reports, at least one and no more than were asked for, and comes without a
-- message exactly where all of them were measured; a failure has no sample and a message.
pub measure_cross_process-IsHonest :
    (w : World) (iterations warmup producer_cpu consumer_cpu : ℤ)
    → IsHonestEnd w iterations
        (measure_cross_process w iterations warmup producer_cpu consumer_cpu).0
measure_cross_process-IsHonest w iterations warmup producer_cpu consumer_cpu =
    IsSound-IsHonestEnd w iterations _
      (measure_cross_process-IsSound w iterations warmup producer_cpu consumer_cpu)
