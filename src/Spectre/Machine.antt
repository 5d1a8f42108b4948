-- ===== src/Spectre/Machine.antt =====
-- The attack loop of MemoryLatencyAnalyzer_linux/src/spectre_v1.cpp over an abstract processor: the cache,
-- the branch predictor and the clock are not code of the repository.
use memory_latency_analyzer.Base.{
  ℕ, zero, suc, ◌+◌, ◌-◌, ◌*◌, ◌/◌, ◌%◌, ◌^◌, Bool, List, get_or, set, ltb, leb, ◌==◌,
  if◌then◌else◌,
}
use memory_latency_analyzer.Base.Int.{ℤ, pos, negsuc, pos_part}
use memory_latency_analyzer.Spectre.Scores.{
  probe_values, score_at, no_scores, SpectreResult, analyze_scores,
}

-- What the code uses of the processor. A probe line is `array2[i * kProbeStride]`.
pub record Machine : Type 1 where
  pub State : Type 0
  pub flush_probe : ℕ → State → State
  -- `clflush` of `array1_size`, with the fence behind it and the empty loop of `kSpeculationDelay` rounds.
  pub flush_bound : State → State
  pub fence : State → State
  pub load_probe : ℕ → State → State
  -- What a mispredicted bounds check does: the line is the one that the byte out of bounds selects.
  pub speculate : ℕ → State → State
  -- `read_tsc_start`, the load of a line, `read_tsc_end`: the two time stamps.
  pub time_load : ℕ → State → ℕ × ℕ × State
  -- The p99 of the hits and the median of the misses that `calibrate_threshold` summarises, as integers.
  pub calibrate : State → ℕ × ℕ × State

abbrev pub architectural_size : ℕ
architectural_size = 16

abbrev pub array_storage : ℕ
array_storage = 160

-- `t1 - t0` in `std::uint64_t`.
unfoldable pub elapsed : ℕ → ℕ → ℕ
elapsed t0 t1 = (t1 + 2 ^ 64 - t0) % 2 ^ 64

-- The end of `calibrate_threshold`, in `std::uint64_t`.
unfoldable pub choose_threshold : ℕ → ℕ → ℕ
choose_threshold hit_p99 miss_median =
    if ltb ((hit_p99 + 10) % 2 ^ 64) miss_median
    then (hit_p99 + miss_median) % 2 ^ 64 / 2
    else (hit_p99 + 20) % 2 ^ 64

-- The order in which `score_reload` visits the lines; `& 255` keeps the low byte.
unfoldable pub mixed : ℕ → ℕ
mixed i = (i * 167 + 13) % 256

unfoldable pub bump : List ℕ → ℕ → List ℕ
bump scores i = set scores i (score_at scores i + 1)

unfoldable pub training_index : ℕ → ℕ
training_index attempt = attempt % architectural_size

-- `j % kTrainingEvery == kTrainingEvery - 1`.
abbrev pub is_attack_slot : ℕ → Bool
is_attack_slot j = j % 6 == 5

-- `std::min(tries * 3, 5000)` for positive `tries`; the product wraps around to a signed value.
unfoldable pub retry_tries : ℕ → ℤ
retry_tries tries =
    let product = tries * 3 % 2 ^ 32 in
    if ltb product (2 ^ 31)
    then pos (if ltb product 5000 then product else 5000)
    else negsuc (2 ^ 32 - product - 1)

module _ (m : Machine) where
  open m use {State, flush_probe, flush_bound, fence, load_probe, speculate, time_load, calibrate}

  unfoldable pub calibrate_threshold : State → ℕ × State
  unfolding choose_threshold
  calibrate_threshold s =
      let (hit_p99, miss_median, s') = calibrate s in (choose_threshold hit_p99 miss_median, s')

  -- `array1` is the memory that the toy victim owns.
  unfoldable pub victim_function : List ℕ → ℕ → State → State
  victim_function array1 x s =
      if ltb x architectural_size
      then load_probe (get_or array1 x 0) s
      else speculate (get_or array1 x 0) s

  -- The rounds `j`, `j + 1`, … of `train_and_attack`.
  unfoldable pub train_from : List ℕ → ℕ → ℕ → ℕ → ℕ → State → State
  train_from array1 malicious training zero j s = s
  train_from array1 malicious training (suc left) j s =
      train_from array1 malicious training left (j + 1)
        (victim_function array1 (if is_attack_slot j then malicious else training) (flush_bound s))

  unfoldable pub train_and_attack : List ℕ → ℕ → ℕ → State → State
  unfolding train_from victim_function training_index
  train_and_attack array1 malicious attempt s =
      train_from array1 malicious (training_index attempt) 30 0 s

  -- The rounds `i`, `i + 1`, … of `score_reload`.
  unfoldable pub reload_from : ℕ → ℕ → ℕ → List ℕ → State → List ℕ × State
  reload_from threshold zero i scores s = (scores, s)
  reload_from threshold (suc left) i scores s =
      let (t0, t1, s') = time_load (mixed i) s in
      reload_from threshold left (i + 1)
        (if leb (elapsed t0 t1) threshold then bump scores (mixed i) else scores) s'

  unfoldable pub score_reload : List ℕ → ℕ → State → List ℕ × State
  unfolding reload_from mixed bump elapsed
  score_reload scores threshold s = reload_from threshold probe_values 0 scores s

  unfoldable pub flush_from : ℕ → ℕ → State → State
  flush_from zero i s = s
  flush_from (suc left) i s = flush_from left (i + 1) (flush_probe i s)

  -- One round of `read_byte_with_threshold`.
  unfoldable pub attempt_once : List ℕ → ℕ → ℕ → ℕ → List ℕ → State → List ℕ × State
  unfolding flush_from train_and_attack score_reload
  attempt_once array1 malicious threshold attempt scores s =
      score_reload scores threshold
        (train_and_attack array1 malicious attempt (fence (flush_from probe_values 0 s)))

  unfoldable pub attempts_from : List ℕ → ℕ → ℕ → ℕ → ℕ → List ℕ → State → List ℕ × State
  attempts_from array1 malicious threshold zero attempt scores s = (scores, s)
  attempts_from array1 malicious threshold (suc left) attempt scores s =
      let (scores', s') = attempt_once array1 malicious threshold attempt scores s in
      attempts_from array1 malicious threshold left (attempt + 1) scores' s'

  -- A negative number of tries makes no round.
  unfoldable pub read_byte_with_threshold : List ℕ → ℕ → ℤ → ℕ → State → SpectreResult × State
  unfolding attempts_from attempt_once
  read_byte_with_threshold array1 malicious tries threshold s =
      let (scores, s') = attempts_from array1 malicious threshold (pos_part tries) 0 no_scores s in
      (analyze_scores scores threshold tries, s')

  unfoldable pub retry_if_uncertain : List ℕ → ℕ → ℕ → ℕ → State → SpectreResult × State
  unfolding retry_tries
  retry_if_uncertain array1 malicious tries threshold s =
      let (first, s1) = read_byte_with_threshold array1 malicious (pos tries) threshold s in
      let (second, s2) =
        read_byte_with_threshold array1 malicious (retry_tries tries) threshold s1 in
      if first.success
      then (first, s1)
      else (if ltb first.score second.score then second else first, s2)
