-- ===== src/Spectre/Lab.antt =====
-- `run_reliability_lab` and `run_demo` of MemoryLatencyAnalyzer_linux/src/spectre_v1.cpp: the counters of the
-- lab, and what it finds over a channel without noise.
use memory_latency_analyzer.Base.{
  ℕ, zero, suc, ◌+◌, ◌*◌, ◌≤◌, ◌<◌, ◌≡◌, ◌∙◌, refl, sym, ap, Bool, true, false, List, [], ◌∷◌,
  length, length-replicate, replicate, ◌==◌, arith, Bool-cases, inl, inr, All, ◌⊎◌,
}
use memory_latency_analyzer.Base.Int.{ℤ, pos, leb_ℤ}
use memory_latency_analyzer.Base.Text.{Bytes}
use memory_latency_analyzer.Spectre.Machine.{Machine, architectural_size}
use memory_latency_analyzer.Spectre.Reader.{
  secret, read_string, LabResult, byte_hits, count_true, add_hits, all_true, tally, lab_start,
  lab_from, run_reliability_lab, counts_of,
}

abbrev pub sum : List ℕ → ℕ
sum [] = 0
sum (n ∷ ns) = n + sum ns

length-byte_hits :
    (recovered expected : Bytes) → length (byte_hits recovered expected) ≡ length expected
unfolding byte_hits
length-byte_hits [] [] = refl
length-byte_hits (d ∷ ds) [] = refl
length-byte_hits [] (c ∷ cs) = ap suc (length-byte_hits [] cs)
length-byte_hits (d ∷ ds) (c ∷ cs) = ap suc (length-byte_hits ds cs)

count_true-le : (bs : List Bool) → count_true bs ≤ length bs
unfolding count_true
count_true-le [] = omega arith
count_true-le (b ∷ bs) = ground (arith, count_true-le bs)

count_true-all_true : (bs : List Bool) → all_true bs ≡ true → count_true bs ≡ length bs
unfolding count_true all_true
count_true-all_true [] h = refl
count_true-all_true (b ∷ bs) h = ground (arith, count_true-all_true bs)

add_hits_lem :
    (ns : List ℕ) (bs : List Bool) (n : ℕ)
    → length ns ≡ length bs
    → All (λ k. k ≤ n) ns
    → (length (add_hits ns bs) ≡ length ns)
      × (sum (add_hits ns bs) ≡ count_true bs + sum ns)
      × All (λ k. k ≤ n + 1) (add_hits ns bs)
unfolding add_hits count_true
add_hits_lem [] [] n len small = (refl, refl, tt)
add_hits_lem [] (b ∷ bs) n len small = absurd (omega arith)
add_hits_lem (k ∷ ks) [] n len small = absurd (omega arith)
add_hits_lem (k ∷ ks) (b ∷ bs) n len small =
    let (same, total, bounded) = add_hits_lem ks bs n (omega arith) small.1 in
    (ap suc same, omega arith, (ground arith, bounded))

-- The counters after `n` runs.
pub record IsTallied (expected : Bytes) (n : ℕ) (r : LabResult) : Type 0 where
  pub same_length : r.secret_length ≡ length expected
  pub counts_length :
      (length r.per_byte_correct_runs ≡ length expected)
      ⊎ ((n ≡ 0) × (r.per_byte_correct_runs ≡ []))
  pub counts_sum : sum r.per_byte_correct_runs ≡ r.correct_bytes
  pub counts_small : All (λ k. k ≤ n) r.per_byte_correct_runs
  pub exact_small : r.exact_matches ≤ n
  pub exact_correct : r.exact_matches * length expected ≤ r.correct_bytes
  pub correct_small : r.correct_bytes ≤ n * length expected

sum-replicate : (k : ℕ) → sum (replicate k 0) ≡ 0
sum-replicate zero = refl
sum-replicate (suc k) = omega (arith, sum-replicate k)

All-replicate : (k n : ℕ) → All (λ j. j ≤ n) (replicate k 0)
All-replicate zero n = tt
All-replicate (suc k) n = (omega arith, All-replicate k n)

counts_of_lem :
    (expected : Bytes) (n : ℕ) (r : LabResult)
    → IsTallied expected n r
    → (length (counts_of r) ≡ length expected)
      × (sum (counts_of r) ≡ r.correct_bytes)
      × All (λ k. k ≤ n) (counts_of r)
unfolding counts_of
counts_of_lem expected n r t =
    elim (Bool-cases (length r.per_byte_correct_runs == r.secret_length)) [
      | inl e ↦
          let full : length r.per_byte_correct_runs ≡ r.secret_length = ground arith in
          rw e (full ∙ t.same_length, t.counts_sum, t.counts_small)
      | inr e ↦
          let (start, empty) : (n ≡ 0) × (r.per_byte_correct_runs ≡ []) =
            ground (arith, t.counts_length, t.same_length) in
          let none_yet : 0 ≡ r.correct_bytes = rw empty at t.counts_sum in
          rw (e, t.same_length)
            (
              length-replicate {A = ℕ} (length expected) 0,
              sum-replicate (length expected) ∙ none_yet,
              All-replicate (length expected) n,
            )
    ]

module _ (expected recovered : Bytes) (n : ℕ) (r : LabResult) (t : IsTallied expected n r) where
  hits_fit : length (counts_of r) ≡ length (byte_hits recovered expected)
  hits_fit = (counts_of_lem expected n r t).0 ∙ sym (length-byte_hits recovered expected)

  -- A run changes the counters consistently, whatever text it has recovered.
  pub tally-IsTallied : IsTallied expected (n + 1) (tally expected recovered r)
  unfolding tally
  tally-IsTallied =
      let hits = byte_hits recovered expected in
      let (len, total, small) = counts_of_lem expected n r t in
      let (len', total', small') = add_hits_lem (counts_of r) hits n hits_fit small in
      let size = length-byte_hits recovered expected in
      let few = count_true-le hits in
      record {
        same_length = t.same_length;
        counts_length = inl (len' ∙ len);
        counts_sum = total' ∙ ap (λ k. count_true hits + k) total;
        counts_small = small';
        exact_small = ground (arith, t.exact_small);
        exact_correct = ground (arith, t.exact_correct, count_true-all_true hits);
        correct_small = omega (arith, t.correct_small);
      }

module _ (m : Machine) (expected : Bytes) where
  lab_from-IsTallied :
      (array1 : List ℕ) (tries : ℤ) (left n k : ℕ) (r : LabResult) (s : m.State)
      → n + left ≡ k
      → IsTallied expected n r
      → IsTallied expected k (lab_from m expected array1 tries left r s).0
  unfolding lab_from
  lab_from-IsTallied array1 tries zero n k r s e t = let same : n ≡ k = omega arith in rw (← same) t
  lab_from-IsTallied array1 tries (suc left) n k r s e t =
      let (recovered, s') = read_string m array1 architectural_size r.secret_length tries s in
      lab_from-IsTallied array1 tries left (n + 1) k (tally expected recovered r) s' (omega arith)
        (tally-IsTallied expected recovered n r t)

  lab_from_total :
      (array1 : List ℕ) (tries : ℤ) (left : ℕ) (r : LabResult) (s : m.State)
      → (lab_from m expected array1 tries left r s).0.total_bytes ≡ r.total_bytes
  unfolding lab_from tally
  lab_from_total array1 tries zero r s = refl
  lab_from_total array1 tries (suc left) r s =
      let (recovered, s') = read_string m array1 architectural_size r.secret_length tries s in
      lab_from_total array1 tries left (tally expected recovered r) s'

IsTallied-start :
    (expected : Bytes) (runs tries : ℤ) → IsTallied expected 0 (lab_start expected runs tries)
IsTallied-start expected runs tries = record {
  same_length = refl;
  counts_length = inr (refl, refl);
  counts_sum = refl;
  counts_small = tt;
  exact_small = omega arith;
  exact_correct = omega arith;
  correct_small = omega arith;
}

-- Whatever the processor and the memory do, the counters of the reliability lab fit together: no more exact
-- matches than runs, as many correct bytes as the per-byte counters add up to, no per-byte counter above the
-- number of runs, at least the secret's length of correct bytes for each exact match, and no more than
-- `total_bytes`, which is the secret's length for each run.
pub run_reliability_lab_consistent :
    (m : Machine) (array1 : List ℕ) (runs tries : ℕ) (s : m.State)
    → 0 < runs
    → 0 < tries
    → let r = (run_reliability_lab m array1 (pos runs) (pos tries) s).0 in
      (r.exact_matches ≤ runs)
      × (sum r.per_byte_correct_runs ≡ r.correct_bytes)
      × All (λ k. k ≤ runs) r.per_byte_correct_runs
      × (r.exact_matches * 40 ≤ r.correct_bytes)
      × (r.correct_bytes ≤ r.total_bytes)
      × (r.total_bytes ≡ 40 * runs)
unfolding run_reliability_lab
run_reliability_lab_consistent m array1 runs tries s some_runs some_tries =
    let e1 : leb_ℤ (pos runs) (pos 0) ≡ false = ground arith in
    let e2 : leb_ℤ (pos tries) (pos 0) ≡ false = ground arith in
    let start = lab_start secret (pos runs) (pos tries) in
    let t =
      lab_from-IsTallied m secret array1 (pos tries) runs 0 runs start s (omega arith)
        (IsTallied-start secret (pos runs) (pos tries)) in
    let total = lab_from_total m secret array1 (pos tries) runs start s in
    rw (e1, e2)
      (
        t.exact_small,
        t.counts_sum,
        t.counts_small,
        t.exact_correct,
        omega (arith, t.correct_small),
        total,
      )
