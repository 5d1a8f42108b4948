-- ===== src/Shared/Measure.antt =====
-- `measure_cross_process` of MemoryLatencyAnalyzer_linux/src/shared_memory_measurer.cpp. What the calls of the
-- system, the clock and the waits answer is a parameter; the calls that are made are recorded. The strings and the
-- vectors but the samples' are taken to get their memory.
use Prim.Native.String.{String}
use memory_latency_analyzer.Base.{
  ℕ, zero, suc, ◌+◌, ◌-◌, ◌%◌, ◌^◌, Bool, true, false, not, ◌||◌, Option, none, some, List, [], ◌∷◌,
  ◌++◌, length, if◌then◌else◌,
}
use memory_latency_analyzer.Base.Int.{ℤ, pos, leb_ℤ, ltb_ℤ, pos_part}

pub record World : Type 0 where
  -- Whether the clock is read for the name of the object; otherwise it throws.
  pub named : Bool
  pub shm_opens : Bool
  pub truncates : Bool
  pub maps : Bool
  pub forks : Bool
  -- What the wait for the consumer, the wait of warmup `i` and the wait of iteration `i` answer; `none` is an
  -- exception of the clock.
  pub becomes_ready : Option Bool
  pub warmup_answers : ℕ → Option Bool
  pub answers : ℕ → Option Bool
  -- Whether `samples.reserve` gives memory; otherwise it throws.
  pub reserves : Bool
  -- The time stamps of iteration `i`.
  pub starts : ℕ → ℕ
  pub ends : ℕ → ℕ

-- The calls that acquire or release something, and the two that end the consumer.
pub data Call : Type 0 where
  shm_open close shm_unlink map unmap fork set_stop wait_or_kill : Call

pub data Message : Type 0 where
  no_message : Message
  text : String → Message

pub record Result : Type 0 where
  pub success : Bool
  pub iterations : ℤ
  pub producer_cpu : ℤ
  pub consumer_cpu : ℤ
  pub samples : List ℕ
  pub error_message : Message

-- The warmups `i`, `i + 1`, …; `some false` is a return, `none` an exception.
unfoldable pub warmup_from : (ℕ → Option Bool) → ℕ → ℕ → Option Bool
warmup_from answers zero i = some true
warmup_from answers (suc left) i = elim (answers i) [
  | none ↦ none
  | some false ↦ some false
  | some true ↦ warmup_from answers left (i + 1)
]

abbrev pub add_sample : ℕ → Option (List ℕ × Bool) → Option (List ℕ × Bool)
add_sample sample none = none
add_sample sample (some (rest, left_early)) = some (sample ∷ rest, left_early)

-- The iterations `i`, `i + 1`, …: the samples, and whether the loop was left by its `break`; `none` is an exception.
unfoldable pub iterate_from : World → ℕ → ℕ → Option (List ℕ × Bool)
iterate_from w zero i = some ([], false)
iterate_from w (suc left) i = elim (w.answers i) [
  | none ↦ none
  | some false ↦ some ([], true)
  | some true ↦ add_sample ((w.ends i + 2 ^ 64 - w.starts i) % 2 ^ 64) (iterate_from w left (i + 1))
]

-- The fields that are set first, with a message.
abbrev pub failed : ℤ → ℤ → ℤ → String → Result
failed iterations producer_cpu consumer_cpu message = record {
  success = false;
  iterations = iterations;
  producer_cpu = producer_cpu;
  consumer_cpu = consumer_cpu;
  samples = [];
  error_message = text message;
}

abbrev pub is_empty : List ℕ → Bool
is_empty [] = true
is_empty (x ∷ xs) = false

-- What is returned behind the loop of the iterations.
unfoldable pub finish : ℤ → ℤ → ℤ → List ℕ → Bool → Result
finish iterations producer_cpu consumer_cpu samples left_early =
    let message = if left_early then text "Consumer stopped during measurement" else no_message in
    if is_empty samples
    then record {
      success = false;
      iterations = iterations;
      producer_cpu = producer_cpu;
      consumer_cpu = consumer_cpu;
      samples = [];
      error_message = if left_early then message else text "No successful shared-memory samples";
    }
    else record {
      success = true;
      iterations = pos (length samples);
      producer_cpu = producer_cpu;
      consumer_cpu = consumer_cpu;
      samples = samples;
      error_message = message;
    }

abbrev pub started : List Call
started = shm_open ∷ map ∷ close ∷ fork ∷ []

abbrev pub shut_down : List Call
shut_down = set_stop ∷ wait_or_kill ∷ unmap ∷ shm_unlink ∷ []

module _ (iterations producer_cpu consumer_cpu : ℤ) where
  -- A return behind the fork, which ends the consumer first.
  abbrev pub ended : Result → Option Result × List Call
  ended r = (some r, started ++ shut_down)

  abbrev pub after_iterations : Option (List ℕ × Bool) → Option Result × List Call
  after_iterations none = (none, started)
  after_iterations (some (samples, left_early)) =
      ended (finish iterations producer_cpu consumer_cpu samples left_early)

  abbrev pub after_warmup : World → Option Bool → Option Result × List Call
  after_warmup w none = (none, started)
  after_warmup w (some false) =
      ended (failed iterations producer_cpu consumer_cpu "Consumer stopped during warmup")
  after_warmup w (some true) =
      if w.reserves
      then after_iterations (iterate_from w (pos_part iterations) 0)
      else (none, started)

  abbrev pub after_ready : World → ℤ → Option Bool → Option Result × List Call
  after_ready w warmup none = (none, started)
  after_ready w warmup (some false) =
      ended (failed iterations producer_cpu consumer_cpu "Consumer did not become ready")
  after_ready w warmup (some true) =
      after_warmup w (warmup_from w.warmup_answers (pos_part warmup) 0)

-- The result, `none` for an exception, and the calls that are made.
unfoldable pub measure_cross_process : World → ℤ → ℤ → ℤ → ℤ → Option Result × List Call
unfolding warmup_from iterate_from finish
measure_cross_process w iterations warmup producer_cpu consumer_cpu =
    let fail = failed iterations producer_cpu consumer_cpu in
    if leb_ℤ iterations (pos 0) || ltb_ℤ warmup (pos 0)
    then (some (fail "Invalid shared-memory iteration configuration"), [])
    else if ltb_ℤ producer_cpu (pos 0) || ltb_ℤ consumer_cpu (pos 0)
    then (some (fail "Invalid CPU affinity selection"), [])
    else if not w.named
    then (none, [])
    else if not w.shm_opens
    then (some (fail "shm_open failed"), [])
    else if not w.truncates
    then (some (fail "ftruncate failed"), shm_open ∷ close ∷ shm_unlink ∷ [])
    else if not w.maps
    then (some (fail "mmap failed"), shm_open ∷ close ∷ shm_unlink ∷ [])
    else if not w.forks
    then (some (fail "fork failed"), shm_open ∷ map ∷ close ∷ unmap ∷ shm_unlink ∷ [])
    else after_ready iterations producer_cpu consumer_cpu w warmup w.becomes_ready
