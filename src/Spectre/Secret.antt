-- ===== src/Spectre/Secret.antt =====
-- The reliability lab and the demo of MemoryLatencyAnalyzer_linux/src/spectre_v1.cpp over a channel without noise.
use memory_latency_analyzer.Base.{
  ℕ, zero, suc, ◌+◌, ◌*◌, ◌≤◌, ◌<◌, ◌≡◌, ◌∙◌, refl, true, false, ◌&&◌, List, map, length, replicate,
  ◌==◌, arith, if◌then◌else◌, All,
}
use memory_latency_analyzer.Base.Int.{ℤ, pos, leb_ℤ}
use memory_latency_analyzer.Base.Text.{Bytes}
use memory_latency_analyzer.Spectre.Machine.{Machine, architectural_size}
use memory_latency_analyzer.Spectre.Reader.{
  secret, initial_array, is_readable, read_string, LabResult, byte_hits, count_true, all_true,
  tally, lab_start, lab_from, run_reliability_lab,
}
use memory_latency_analyzer.Spectre.Clean.{IsClean}
use memory_latency_analyzer.Spectre.Recover.{display, slice, tries_limit, read_string_clean}

exact_of : Bytes → Bytes → ℕ
exact_of expected recovered =
    if (length recovered == length expected) && all_true (byte_hits recovered expected)
    then 1
    else 0

tally_same :
    (expected recovered text : Bytes) (r : LabResult)
    → recovered ≡ text
    → r.secret_length ≡ length expected
    → ((tally expected recovered r).correct_bytes
        ≡ count_true (byte_hits text expected) + r.correct_bytes)
      × ((tally expected recovered r).exact_matches ≡ exact_of expected text + r.exact_matches)
unfolding tally exact_of
tally_same expected recovered text r same e = rw (same, e) (refl, refl)

tally-secret_length :
    (expected recovered : Bytes) (r : LabResult)
    → (tally expected recovered r).secret_length ≡ r.secret_length
unfolding tally
tally-secret_length expected recovered r = refl

-- Where every run recovers the same text, the counters are multiples of the number of runs.
module _ (m : Machine) (expected : Bytes) where
  lab_from_same :
      (array1 : List ℕ) (tries : ℤ) (text : Bytes)
      → ((s : m.State)
          → (read_string m array1 architectural_size (length expected) tries s).0 ≡ text)
      → (left : ℕ) (r : LabResult) (s : m.State) → r.secret_length ≡ length expected
      → let r' = (lab_from m expected array1 tries left r s).0 in
        (r'.correct_bytes ≡ left * count_true (byte_hits text expected) + r.correct_bytes)
        × (r'.exact_matches ≡ left * exact_of expected text + r.exact_matches)
  unfolding lab_from
  lab_from_same array1 tries text h zero r s e = (omega arith, omega arith)
  lab_from_same array1 tries text h (suc left) r s e =
      let (recovered, s') = read_string m array1 architectural_size r.secret_length tries s in
      let (correct, exact) =
        lab_from_same array1 tries text h left (tally expected recovered r) s'
          (tally-secret_length expected recovered r ∙ e) in
      let same : recovered ≡ text = rw e (h s) in
      let (more, hit) = tally_same expected recovered text r same e in (omega arith, omega arith)

-- What the lab reports where every run recovers the same text.
lab_same :
    (m : Machine) (array1 : List ℕ) (runs tries : ℕ) (text : Bytes) (s : m.State)
    → 0 < runs
    → 0 < tries
    → ((s' : m.State)
        → (read_string m array1 architectural_size (length secret) (pos tries) s').0 ≡ text)
    → let r = (run_reliability_lab m array1 (pos runs) (pos tries) s).0 in
      (r.correct_bytes ≡ runs * count_true (byte_hits text secret))
      × (r.exact_matches ≡ runs * exact_of secret text)
unfolding run_reliability_lab
lab_same m array1 runs tries text s some_runs some_tries h =
    let e1 : leb_ℤ (pos runs) (pos 0) ≡ false = ground arith in
    let e2 : leb_ℤ (pos tries) (pos 0) ≡ false = ground arith in
    let (correct, exact) =
      lab_from_same m secret array1 (pos tries) text h runs
        (lab_start secret (pos runs) (pos tries)) s refl in
    rw (e1, e2) (omega arith, omega arith)

readable :
    (tries : ℕ) → 0 < tries → is_readable architectural_size (length secret) (pos tries) ≡ true
unfolding is_readable
readable tries h = ground arith

module _ {m : Machine} {threshold : ℕ} (channel : IsClean m threshold) where
  secret_read :
      (array1 : List ℕ) (tries : ℕ) (s : m.State)
      → 5 ≤ tries
      → tries ≤ tries_limit
      → All (λ c. c < 256) (slice array1 architectural_size (length secret))
      → (read_string m array1 architectural_size (length secret) (pos tries) s).0
        ≡ map display (slice array1 architectural_size (length secret))
  secret_read array1 tries s enough bound bytes =
      read_string_clean channel array1 architectural_size (length secret) (pos tries) s
        (readable tries (omega arith)) (omega arith) bytes enough bound

  -- On the memory that the program starts with, the reliability lab finds nothing even over a channel
  -- without noise: no byte is correct and no run is exact, whatever the number of runs is, with 5 to
  -- 715827882 tries.
  pub run_reliability_lab_unfilled :
      (runs tries : ℕ) (s : m.State)
      → 0 < runs
      → 5 ≤ tries
      → tries ≤ tries_limit
      → let r = (run_reliability_lab m initial_array (pos runs) (pos tries) s).0 in
        (r.correct_bytes ≡ 0) × (r.exact_matches ≡ 0)
  unfolding display byte_hits count_true exact_of all_true
  run_reliability_lab_unfilled runs tries s some_runs enough bound =
      let (correct, exact) =
        lab_same m initial_array runs tries (replicate (length secret) b'?') s some_runs
          (omega arith) (λ s'. secret_read initial_array tries s' enough bound (omega arith)) in
      (omega arith, omega arith)
