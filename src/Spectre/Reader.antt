-- ===== src/Spectre/Reader.antt =====
-- The entry points of `SpectreV1` in MemoryLatencyAnalyzer_linux/src/spectre_v1.cpp: reading a byte, reading a
-- string, the demo and the reliability lab. `secret` is `kSecret`; the numbers of tries that are not positive
-- are refused before any attempt.
use memory_latency_analyzer.Base.{
  ℕ, zero, suc, ◌+◌, ◌-◌, ◌*◌, ◌%◌, Bool, true, false, not, Option, none, some, ◌&&◌, ◌||◌, List,
  [], ◌∷◌, ◌++◌, length, set, replicate, ltb, leb, ◌==◌, if◌then◌else◌,
}
use memory_latency_analyzer.Base.Int.{ℤ, pos, pos_part, leb_ℤ}
use memory_latency_analyzer.Base.Text.{Bytes, codes}
use memory_latency_analyzer.Spectre.Scores.{SpectreResult, probe_values}
use memory_latency_analyzer.Spectre.Machine.{
  Machine, architectural_size, array_storage, calibrate_threshold, retry_if_uncertain, flush_from,
}

abbrev pub secret : Bytes
secret = codes "The Magic Words are Squeamish Ossifrage."

-- `array1` before any code of the demo has run: static storage is zero.
abbrev pub initial_array : List ℕ
initial_array = replicate array_storage 0

-- A default `SpectreResult`.
abbrev pub no_result : SpectreResult
no_result = record {
  guessed_value = 0;
  score = 0;
  second_score = 0;
  threshold_cycles = 0;
  confidence = record { numerator = 0; denominator = 1 };
  attempts = pos 0;
  success = false;
}

-- The character that stands for a read.
unfoldable pub shown : SpectreResult → ℕ
shown r = if r.success then r.guessed_value else b'?'

-- The guards of `read_string_impl`.
unfoldable pub is_readable : ℕ → ℕ → ℤ → Bool
is_readable start len tries = not (
    leb_ℤ tries (pos 0)
    || ltb start architectural_size
    || ltb array_storage start
    || ltb (array_storage - start) len)

module _ (m : Machine) where
  open m use {State}

  unfoldable pub read_byte : List ℕ → ℕ → ℤ → State → SpectreResult × State
  unfolding retry_if_uncertain
  read_byte array1 malicious tries s =
      if leb_ℤ tries (pos 0) || ltb malicious architectural_size || leb array_storage malicious
      then (no_result, s)
      else let (threshold, s') = calibrate_threshold m s in
        retry_if_uncertain m array1 malicious (pos_part tries) threshold s'

  -- The rounds of `read_string_impl` at the offsets `x`, `x + 1`, ….
  unfoldable pub read_from : List ℕ → ℕ → ℕ → ℕ → ℕ → State → Bytes × State
  read_from array1 tries threshold zero x s = ([], s)
  read_from array1 tries threshold (suc left) x s =
      let (value, s1) = retry_if_uncertain m array1 x tries threshold s in
      let (rest, s2) = read_from array1 tries threshold left (x + 1) s1 in (shown value ∷ rest, s2)

  unfoldable pub read_string : List ℕ → ℕ → ℕ → ℤ → State → Bytes × State
  unfolding read_from shown
  read_string array1 start len tries s =
      if is_readable start len tries
      then (let (threshold, s') = calibrate_threshold m s in
          read_from array1 (pos_part tries) threshold len start s')
      else ([], s)

-- Bytes written at `i`, `i + 1`, ….
unfoldable pub write_from : List ℕ → ℕ → Bytes → List ℕ
write_from array1 i [] = array1
write_from array1 i (c ∷ cs) = write_from (set array1 i c) (i + 1) cs

-- `(i + 1) & 0xFF` for `i`, `i + 1`, ….
unfoldable pub training_bytes : ℕ → ℕ → Bytes
training_bytes zero i = []
training_bytes (suc left) i = ((i + 1) % 256) ∷ training_bytes left (i + 1)

-- The two writes of `run_demo`: the training values, then the secret with its final zero.
unfoldable pub fill_demo : List ℕ → List ℕ
unfolding write_from training_bytes
fill_demo array1 =
    write_from (write_from array1 0 (training_bytes architectural_size 0)) architectural_size
      (secret ++ 0 ∷ [])

module _ (m : Machine) where
  open m use {State, load_probe, fence}

  unfoldable pub load_from : ℕ → ℕ → State → State
  load_from zero i s = s
  load_from (suc left) i s = load_from left (i + 1) (load_probe i s)

  -- The text that is printed as leaked, and the memory that is left; `none` is the refusal.
  unfoldable pub run_demo : List ℕ → ℤ → State → Option (Bytes × List ℕ × State)
  unfolding load_from
  run_demo array1 tries s =
      if leb_ℤ tries (pos 0)
      then none
      else let filled = fill_demo array1 in
        let ready = fence (flush_from m probe_values 0 (load_from probe_values 0 s)) in
        let (leaked, s') = read_string m filled architectural_size (length secret) tries ready in
        some (leaked, filled, s')

pub record LabResult : Type 0 where
  pub runs : ℤ
  pub tries_per_byte : ℤ
  pub secret_length : ℕ
  pub exact_matches : ℕ
  pub correct_bytes : ℕ
  pub total_bytes : ℕ
  pub per_byte_correct_runs : List ℕ

-- Where a recovered byte stands at its place and is the right one.
unfoldable pub byte_hits : Bytes → Bytes → List Bool
byte_hits recovered [] = []
byte_hits [] (c ∷ cs) = false ∷ byte_hits [] cs
byte_hits (d ∷ ds) (c ∷ cs) = (d == c) ∷ byte_hits ds cs

unfoldable pub count_true : List Bool → ℕ
count_true [] = 0
count_true (b ∷ bs) = (if b then 1 else 0) + count_true bs

-- `++per_byte_correct_runs[i]` at each hit.
unfoldable pub add_hits : List ℕ → List Bool → List ℕ
add_hits [] bs = []
add_hits (n ∷ ns) [] = n ∷ ns
add_hits (n ∷ ns) (b ∷ bs) = ((if b then 1 else 0) + n) ∷ add_hits ns bs

unfoldable pub all_true : List Bool → Bool
all_true [] = true
all_true (b ∷ bs) = b && all_true bs

-- The per-byte counters, set up anew where they have not the secret's length.
unfoldable pub counts_of : LabResult → List ℕ
counts_of r =
    if length r.per_byte_correct_runs == r.secret_length
    then r.per_byte_correct_runs
    else replicate r.secret_length 0

-- One run of `run_reliability_lab`, given the text that it has recovered; `expected` is `kSecret`.
unfoldable pub tally : Bytes → Bytes → LabResult → LabResult
tally expected recovered r =
    let hits = byte_hits recovered expected in
    record r {
      exact_matches =
          (if (length recovered == r.secret_length) && all_true hits then 1 else 0)
          + r.exact_matches;
      correct_bytes = count_true hits + r.correct_bytes;
      per_byte_correct_runs = add_hits (counts_of r) hits;
    }

abbrev pub lab_start : Bytes → ℤ → ℤ → LabResult
lab_start expected runs tries = record {
  runs = runs;
  tries_per_byte = tries;
  secret_length = length expected;
  exact_matches = 0;
  correct_bytes = 0;
  total_bytes = length expected * pos_part runs;
  per_byte_correct_runs = [];
}

module _ (m : Machine) where
  open m use {State}

  unfoldable pub lab_from : Bytes → List ℕ → ℤ → ℕ → LabResult → State → LabResult × State
  lab_from expected array1 tries zero r s = (r, s)
  lab_from expected array1 tries (suc left) r s =
      let (recovered, s') = read_string m array1 architectural_size r.secret_length tries s in
      lab_from expected array1 tries left (tally expected recovered r) s'

  unfoldable pub run_reliability_lab : List ℕ → ℤ → ℤ → State → LabResult × State
  unfolding lab_from
  run_reliability_lab array1 runs tries s =
      if leb_ℤ runs (pos 0) || leb_ℤ tries (pos 0)
      then (lab_start secret runs tries, s)
      else lab_from secret array1 tries (pos_part runs) (lab_start secret runs tries) s
