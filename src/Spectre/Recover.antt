-- ===== src/Spectre/Recover.antt =====
-- The strings that MemoryLatencyAnalyzer_linux/src/spectre_v1.cpp reads over a channel without noise, byte by
-- byte.
use memory_latency_analyzer.Base.{
  ℕ, zero, suc, ◌+◌, ◌≤◌, ◌<◌, ◌≡◌, refl, true, false, List, [], ◌∷◌, map, get_or, ◌==◌, arith,
  if◌then◌else◌, Bool-cases, inl, inr, All,
}
use memory_latency_analyzer.Base.Int.{ℤ, pos, pos_part}
use memory_latency_analyzer.Base.Text.{Bytes}
use memory_latency_analyzer.Spectre.Machine.{
  Machine, architectural_size, calibrate_threshold, read_byte_with_threshold, retry_if_uncertain,
  retry_tries,
}
use memory_latency_analyzer.Spectre.Reader.{shown, is_readable, read_from, read_string}
use memory_latency_analyzer.Spectre.Scores.{score_limit}
use memory_latency_analyzer.Spectre.Clean.{IsClean, read_byte_clean, read_byte_zero}

-- What stands for a byte in a recovered text: a zero byte is never a success.
unfoldable pub display : ℕ → ℕ
display c = if c == 0 then b'?' else c

abbrev pub slice : List ℕ → ℕ → ℕ → Bytes
slice array1 x zero = []
slice array1 x (suc n) = get_or array1 x 0 ∷ slice array1 (x + 1) n

-- The greatest number of tries whose triple is an `int`.
abbrev pub tries_limit : ℕ
tries_limit = 715_827_882

retry_tries-le : (tries : ℕ) → pos_part (retry_tries tries) ≤ score_limit
unfolding retry_tries
retry_tries-le tries = ground arith

module _ {m : Machine} {threshold : ℕ} (channel : IsClean m threshold) where
  retry_zero :
      (array1 : List ℕ) (x tries : ℕ) (s : m.State)
      → architectural_size ≤ x
      → get_or array1 x 0 ≡ 0
      → tries ≤ tries_limit
      → (retry_if_uncertain m array1 x tries threshold s).0.success ≡ false
  unfolding retry_if_uncertain
  retry_zero array1 x tries s out here bound =
      let s1 = (read_byte_with_threshold m array1 x (pos tries) threshold s).1 in
      let first = read_byte_zero channel array1 x (pos tries) s out here (omega arith) in
      let second =
        read_byte_zero channel array1 x (retry_tries tries) s1 out here (retry_tries-le tries) in
      ground (arith, first, second)

  retry_clean :
      (array1 : List ℕ) (x tries v : ℕ) (s : m.State)
      → architectural_size ≤ x
      → get_or array1 x 0 ≡ v
      → 0 < v
      → v < 256
      → 5 ≤ tries
      → tries ≤ tries_limit
      → ((retry_if_uncertain m array1 x tries threshold s).0.guessed_value ≡ v)
        × ((retry_if_uncertain m array1 x tries threshold s).0.success ≡ true)
  unfolding retry_if_uncertain
  retry_clean array1 x tries v s out here more less enough bound =
      let (value, good) =
        read_byte_clean channel array1 x tries v s out here more less enough (omega arith) in
      rw good (value, good)

  retry_shown :
      (array1 : List ℕ) (x tries : ℕ) (s : m.State)
      → architectural_size ≤ x
      → get_or array1 x 0 < 256
      → 5 ≤ tries
      → tries ≤ tries_limit
      → shown (retry_if_uncertain m array1 x tries threshold s).0 ≡ display (get_or array1 x 0)
  unfolding shown display
  retry_shown array1 x tries s out less enough bound = elim (Bool-cases (get_or array1 x 0 == 0)) [
    | inl e ↦
        let here : get_or array1 x 0 ≡ 0 = ground arith in
        rw (e, retry_zero array1 x tries s out here bound)
    | inr e ↦
        let (value, good) =
          retry_clean array1 x tries (get_or array1 x 0) s out refl (ground arith) less enough
            bound in
        rw (e, good) value
  ]

  read_from_clean :
      (array1 : List ℕ) (tries left x : ℕ) (s : m.State)
      → architectural_size ≤ x
      → All (λ c. c < 256) (slice array1 x left)
      → 5 ≤ tries
      → tries ≤ tries_limit
      → (read_from m array1 tries threshold left x s).0 ≡ map display (slice array1 x left)
  unfolding read_from
  read_from_clean array1 tries zero x s out bytes enough bound = refl
  read_from_clean array1 tries (suc left) x s out bytes enough bound =
      let s1 = (retry_if_uncertain m array1 x tries threshold s).1 in
      let rest = read_from_clean array1 tries left (x + 1) s1 (omega arith) bytes.1 enough bound in
      let first = retry_shown array1 x tries s out bytes.0 enough bound in cc

  -- Over a channel without noise, with 5 to 715827882 tries, a string of bytes out of bounds that passes the
  -- guards is read exactly, but for zero bytes, each of which comes out as a question mark.
  pub read_string_clean :
      (array1 : List ℕ) (start len : ℕ) (tries : ℤ) (s : m.State)
      → is_readable start len tries ≡ true
      → architectural_size ≤ start
      → All (λ c. c < 256) (slice array1 start len)
      → 5 ≤ pos_part tries
      → pos_part tries ≤ tries_limit
      → (read_string m array1 start len tries s).0 ≡ map display (slice array1 start len)
  unfolding read_string
  read_string_clean array1 start len tries s ok out bytes enough bound =
      let s' = (calibrate_threshold m s).1 in
      rw (ok, channel.steady s)
        (read_from_clean array1 (pos_part tries) len start s' out bytes enough bound)
