-- ===== src/Spectre/Perfect.antt =====
-- A processor whose probe cache holds the line that was speculated last: a channel without noise, at which
-- the theorems about such channels can be run.
use mathlib.Core.Path.{subst}
use memory_latency_analyzer.Base.{
  ℕ, zero, suc, ◌+◌, ◌≤◌, ◌<◌, ◌≡◌, ◌≢◌, ◌∙◌, refl, sym, ap, List, length, get_or, ltb, leb, ◌==◌,
  arith, if◌then◌else◌, Bool-cases, inl, inr, ◌&&◌, ◌⊎◌,
}
use memory_latency_analyzer.Spectre.Scores.{probe_values, score_at}
use memory_latency_analyzer.Spectre.Machine.{
  Machine, architectural_size, calibrate_threshold, elapsed, mixed, bump, training_index,
  victim_function, train_and_attack, reload_from, flush_from, attempt_once,
}
use memory_latency_analyzer.Spectre.Reload.{
  turn, turn-mixed, bump_self, bump_ne, length-bump, mixed-lt, mixed-turn,
}
use memory_latency_analyzer.Spectre.Clean.{IsClean}

abbrev pub perfect : Machine
perfect = record {
  State = ℕ;
  flush_probe = λ i s. s;
  flush_bound = λ s. s;
  fence = λ s. s;
  load_probe = λ i s. s;
  speculate = λ i s. i;
  time_load = λ i s. (1000, if i == s then 1050 else 1300, s);
  calibrate = λ s. (60, 300, s);
}

abbrev pub perfect_threshold : ℕ
perfect_threshold = 180

victim_training :
    (array1 : List ℕ) (attempt s : ℕ)
    → victim_function perfect array1 (training_index attempt) s ≡ s
unfolding victim_function training_index
victim_training array1 attempt s = ground arith

victim_attack :
    (array1 : List ℕ) (x s : ℕ)
    → architectural_size ≤ x
    → victim_function perfect array1 x s ≡ get_or array1 x 0
unfolding victim_function
victim_attack array1 x s h = ground arith

-- The last of the 30 rounds is an attack.
train_perfect :
    (array1 : List ℕ) (x attempt s : ℕ)
    → architectural_size ≤ x
    → train_and_attack perfect array1 x attempt s ≡ get_or array1 x 0
unfolding train_and_attack
train_perfect array1 x attempt s out = victim_attack array1 x _ out

-- The time that a line takes decides whether it counts as a hit.
hit_perfect :
    (v i : ℕ) → leb (elapsed 1000 (if i == v then 1050 else 1300)) perfect_threshold ≡ (i == v)
unfolding elapsed
hit_perfect v i = ground arith

-- The sum of a round's hit and the later ones; `t` is the line's turn and `l` the line of round `i`.
combine :
    (k v t i left l a b c : ℕ)
    → (l ≡ k) ⊎ (l ≢ k)
    → (l ≡ k → t ≡ i)
    → (t ≡ i → l ≡ k)
    → b ≡ a + (if (l == v) && (l == k) then 1 else 0)
    → c ≡ b + (if (k == v) && leb (i + 1) t && ltb t (i + 1 + left) then 1 else 0)
    → c ≡ a + (if (k == v) && leb i t && ltb t (i + suc left) then 1 else 0)
combine k v t i left l a b c (inl now) to back hb hc = ground (arith, to now)
combine k v t i left l a b c (inr other) to back hb hc =
    let ne : t ≢ i = λ e. other (back e) in ground arith

same_line : (i k : ℕ) → (mixed i ≡ k) ⊎ (mixed i ≢ k)
same_line i k = elim (Bool-cases (mixed i == k)) [
  | inl e ↦ inl (ground arith)
  | inr e ↦ inr (λ q. ground arith)
]

-- A round's scores.
round_perfect :
    (scores : List ℕ) (l v k : ℕ)
    → length scores ≡ 256
    → l < 256
    → let after = if l == v then bump scores l else scores in
      (length after ≡ 256)
      × (score_at after k ≡ score_at scores k + (if (l == v) && (l == k) then 1 else 0))
round_perfect scores l v k len less = elim (Bool-cases (l == v)) [
  | inl hit ↦ elim (Bool-cases (l == k)) [
    | inl e ↦
        let same : l ≡ k = ground arith in
        let more = bump_self scores l (omega arith) in
        rw (hit, e)
          (
            length-bump scores l ∙ len,
            subst (λ x. score_at (bump scores l) x ≡ score_at scores x + 1) same more,
          )
    | inr e ↦
        let kept = bump_ne scores l k (λ q. ground arith) in
        rw (hit, e) (length-bump scores l ∙ len, kept ∙ omega arith)
  ]
  | inr miss ↦ rw miss (len, omega arith)
]

reload_perfect :
    (left i v : ℕ) (scores : List ℕ) (k : ℕ)
    → i + left ≤ 256
    → length scores ≡ 256
    → k < 256
    → score_at (reload_from perfect perfect_threshold left i scores v).0 k
      ≡ score_at scores k + (if (k == v) && leb i (turn k) && ltb (turn k) (i + left) then 1 else 0)
unfolding reload_from
reload_perfect zero i v scores k within len less = ground arith
reload_perfect (suc left) i v scores k within len less =
    let after = if mixed i == v then bump scores (mixed i) else scores in
    let (len', once) = round_perfect scores (mixed i) v k len (mixed-lt i) in
    rw (hit_perfect v (mixed i), reload_from)
      (combine k v (turn k) i left (mixed i) (score_at scores k) (score_at after k) _
        (same_line i k) (λ e. rw (← e) (turn-mixed i (omega arith)))
        (λ e. ap mixed (sym e) ∙ mixed-turn k less) once
        (reload_perfect left (i + 1) v after k (omega arith) len' less))

whole_turn : (k v : ℕ) → ((k == v) && leb 0 (turn k) && ltb (turn k) (0 + 256)) ≡ (k == v)
whole_turn k v = ground arith

attempt_perfect :
    (array1 : List ℕ) (x attempt : ℕ) (scores : List ℕ) (s k : ℕ)
    → architectural_size ≤ x
    → length scores ≡ probe_values
    → k < probe_values
    → score_at (attempt_once perfect array1 x perfect_threshold attempt scores s).0 k
      ≡ score_at scores k + (if k == get_or array1 x 0 then 1 else 0)
unfolding attempt_once
attempt_perfect array1 x attempt scores s k out len less =
    let v = get_or array1 x 0 in
    rw (train_perfect array1 x attempt (flush_from perfect probe_values 0 s) out) (
      reload_perfect 256 0 v scores k (omega arith) len less
      ∙ ap (λ b. score_at scores k + (if b then 1 else 0)) (whole_turn k v))

-- It meets the assumptions on a channel without noise.
pub perfect-IsClean : IsClean perfect perfect_threshold
unfolding calibrate_threshold
perfect-IsClean = record { steady = λ s. refl; clean = attempt_perfect }
