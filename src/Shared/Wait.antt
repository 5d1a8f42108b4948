-- ===== src/Shared/Wait.antt =====
-- `wait_for_value` and `wait_or_kill` of MemoryLatencyAnalyzer_linux/src/shared_memory_measurer.cpp. What a
-- round of a loop observes is a parameter.
use memory_latency_analyzer.Base.{
  ℕ, zero, suc, ◌+◌, ◌*◌, ◌/◌, Bool, true, false, not, ◌&&◌, Option, none, some, ltb, ◌==◌,
  if◌then◌else◌,
}

-- What the rounds read: the flag, the stop flag, and the clock in nanoseconds, where it can be read; its exception is
-- an answer of the waits in `Measure`.
pub record Views : Type 0 where
  pub flag : ℕ → ℕ
  pub stop : ℕ → ℕ
  pub clock : ℕ → ℕ

-- The test of a round: `some` is a return.
unfoldable pub poll : Views → Bool → ℕ → ℕ → Option Bool
poll v has_stop expected i =
    if v.flag i == expected
    then some true
    else if has_stop && not (v.stop i == 0)
    then some false
    else none

-- The rounds of the spin loop from `i` on; `none` is its end.
unfoldable pub spin_from : Views → Bool → ℕ → ℕ → ℕ → Option Bool
unfolding poll
spin_from v has_stop expected zero i = none
spin_from v has_stop expected (suc left) i = elim (poll v has_stop expected i) [
  | some answer ↦ some answer
  | none ↦ spin_from v has_stop expected left (i + 1)
]

-- The sleeping loop; `none` is the end of the fuel, not of the loop.
unfoldable pub sleep_from : Views → Bool → ℕ → ℕ → ℕ → ℕ → Option Bool
unfolding poll
sleep_from v has_stop expected deadline zero i = none
sleep_from v has_stop expected deadline (suc fuel) i = elim (ltb (v.clock i) deadline) [
  | false ↦ some false
  | true ↦ elim (poll v has_stop expected i) [
    | some answer ↦ some answer
    | none ↦ sleep_from v has_stop expected deadline fuel (i + 1)
  ]
]

abbrev pub spin_iterations : ℕ
spin_iterations = 2000000

abbrev pub timeout_ms : ℕ
timeout_ms = 1000

-- The rounds of both loops are counted on; the clock of the round behind the spin loop sets the deadline.
unfoldable pub wait_for_value : Views → Bool → ℕ → ℕ → Option Bool
unfolding spin_from sleep_from
wait_for_value v has_stop expected fuel = elim (spin_from v has_stop expected spin_iterations 0) [
  | some answer ↦ some answer
  | none ↦
      sleep_from v has_stop expected (v.clock spin_iterations + timeout_ms * 1000000) fuel
        (spin_iterations + 1)
]

-- What `waitpid` returns without hanging.
pub data Status : Type 0 where
  exited : Status
  running : Status
  failed : Status

-- The rounds of the loop of `wait_or_kill` that are left, then the kill and the last `waitpid`.
unfoldable pub reap_from : (ℕ → Status) → Bool → Bool → ℕ → ℕ → Bool
reap_from status killed reaped zero i = killed && reaped
reap_from status killed reaped (suc left) i = elim (status i) [
  | Status.exited ↦ true
  | Status.failed ↦ false
  | Status.running ↦ reap_from status killed reaped left (i + 1)
]

-- A step takes 10 ms.
unfoldable pub wait_or_kill : (ℕ → Status) → Bool → Bool → ℕ → Bool
unfolding reap_from
wait_or_kill status killed reaped timeout = reap_from status killed reaped ((timeout + 9) / 10) 0
