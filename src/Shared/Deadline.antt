-- ===== src/Shared/Deadline.antt =====
-- Proofs about `wait_for_value` of MemoryLatencyAnalyzer_linux/src/shared_memory_measurer.cpp.
use memory_latency_analyzer.Base.{ℕ, ◌≤◌, ◌<◌, ◌≡◌, ◌≢◌, ◌⊎◌, Bool, true, false}
use memory_latency_analyzer.Shared.Wait.{Views, spin_iterations}

module _ (v : Views) (has_stop : Bool) (expected deadline : ℕ) where
  -- A round goes on: it reads another value, no stop flag that is set, and, behind the spin loop, a clock below the
  -- deadline.
  abbrev pub GoesOn : ℕ → Type 0
  GoesOn j =
      (v.flag j ≢ expected)
      × (has_stop ≡ true → v.stop j ≡ 0)
      × (spin_iterations < j → v.clock j < deadline)

  -- All rounds before this one go on; the one behind the spin loop only sets the deadline.
  abbrev pub IsFirst : ℕ → Type 0
  IsFirst i = (j : ℕ) → j < i → j ≢ spin_iterations → GoesOn j

  -- What an answer means: of the first round that does not go on, it is yes where this one reads the expected value
  -- in time, and no where it reads the stop flag set, or a clock that has reached the deadline.
  abbrev pub IsAnswer : Bool → Type 0
  IsAnswer true =
      (i : ℕ) × IsFirst i
      × (i ≢ spin_iterations)
      × (v.flag i ≡ expected)
      × (spin_iterations < i → v.clock i < deadline)
  IsAnswer false =
      (i : ℕ) × IsFirst i
      × (i ≢ spin_iterations)
      × ((v.flag i ≢ expected) × (has_stop ≡ true) × (v.stop i ≢ 0)
          ⊎ (spin_iterations < i) × (deadline ≤ v.clock i))
