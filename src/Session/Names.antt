-- ===== src/Session/Names.antt =====
-- The names of the bandwidths that MemoryLatencyAnalyzer_linux/src/main.cpp measures: which calls of `measure` give a result.
use memory_latency_analyzer.Base.{
  ℕ, zero, suc, ◌+◌, ◌<◌, ◌++◌, ◌&&◌, ◌⊎◌, ◌≡◌, ◌∙◌, refl, ap, inl, inr, Bool, true, false, not,
  ◌||◌, Option, none, some, List, if◌then◌else◌, arith, ◌==◌,
}
use memory_latency_analyzer.Base.Int.{ℤ, pos, negsuc, leb_ℤ}
use memory_latency_analyzer.Base.Text.{Bytes, codes, to_string, All-is_digit-print_nat}
use memory_latency_analyzer.Cli.Plan.{is_set}
use memory_latency_analyzer.Bandwidth.Buffers.{
  Outcome, invalid_argument, allocation_failed, clock_failed, measured, Allocation, run_measure,
  prefix, measure, times_then, repeat_from, end_measure, got, allocate_buffer, eq_bytes, is_null,
}
use memory_latency_analyzer.Bandwidth.Buffers as Buffers
use memory_latency_analyzer.Report.Reader.{HasNoQuote}
use memory_latency_analyzer.Session.Sequence.{bandwidth_repeats}
use memory_latency_analyzer.Session.Latencies.{HasNoQuote-digits}

pub HasNoQuote-to_string : (z : ℤ) → HasNoQuote (to_string z)
unfolding to_string
HasNoQuote-to_string (pos n) = HasNoQuote-digits _ (All-is_digit-print_nat n)
HasNoQuote-to_string (negsuc n) = (refl, HasNoQuote-digits _ (All-is_digit-print_nat (suc n)))

abbrev pub is_given : {A : Type 0} → Option A → Bool
is_given none = false
is_given (some a) = true

-- The clock does not throw in the repeats `r`, `r + 1`, ….
abbrev pub answers_all : (ℕ → Option (ℕ × ℕ × ℕ)) → ℕ → ℕ → Bool
answers_all times zero r = true
answers_all times (suc left) r = is_given (times r) && answers_all times left (r + 1)

-- The name that a measurement has in the results.
abbrev pub outcome_name : Outcome → Option Bytes
outcome_name invalid_argument = none
outcome_name allocation_failed = none
outcome_name clock_failed = none
outcome_name (measured name size times) = some name

abbrev pub method_name : ℤ → Bytes → Bytes
method_name node method = if is_set node then prefix ++ to_string node else method

-- The buffers are asked for on a node, where there is support, or by one of the three methods.
abbrev pub IsAsked : Bool → ℤ → Bytes → Type 0
IsAsked available node method =
    ((is_set node ≡ true) × (available ≡ true))
    ⊎ ((is_set node ≡ false)
        × ((method ≡ codes "mmap") ⊎ (method ≡ codes "malloc") ⊎ (method ≡ codes "LargePage")))

times_then-given :
    (t : Option (ℕ × ℕ × ℕ)) (rest : Option (List (ℕ × ℕ × ℕ)))
    → is_given (times_then t rest) ≡ (is_given t && is_given rest)
times_then-given none rest = refl
times_then-given (some t) none = refl
times_then-given (some t) (some rest) = refl

repeat_from-answers_all :
    (times : ℕ → Option (ℕ × ℕ × ℕ)) (n r : ℕ)
    → is_given (repeat_from times n r) ≡ answers_all times n r
unfolding repeat_from
repeat_from-answers_all times zero r = refl
repeat_from-answers_all times (suc n) r =
    times_then-given (times r) (repeat_from times n (r + 1))
    ∙ ap (λ b. is_given (times r) && b) (repeat_from-answers_all times n (r + 1))

end_measure-name :
    (name : Bytes) (size : ℕ) (acquired released : List Buffers.Call)
    (times : Option (List (ℕ × ℕ × ℕ)))
    → outcome_name (end_measure name size acquired released times).0
      ≡ (if is_given times then some name else none)
end_measure-name name size acquired released none = refl
end_measure-name name size acquired released (some times) = refl

got-is_null :
    (gives : Bool) (source : Buffers.Source) (size : ℕ) (method : Bytes)
    → is_null (got gives source size method).0.ptr ≡ not gives
got-is_null true source size method = refl
got-is_null false source size method = refl

allocate-is_null :
    (available gives : Bool) (size : ℕ) (method : Bytes) (node : ℤ)
    → IsAsked available node method
    → (a : Allocation × List Buffers.Call) × (allocate_buffer available gives size method node
        ≡ some a)
      × (is_null a.0.ptr ≡ not gives)
unfolding allocate_buffer eq_bytes
allocate-is_null available gives size method node (inl (placed, support)) =
    rw (placed, support) (_, refl, got-is_null gives _ _ _)
allocate-is_null available gives size method node (inr (anywhere, inl same)) =
    rw (anywhere, same) (_, refl, got-is_null gives _ _ _)
allocate-is_null available gives size method node (inr (anywhere, inr (inl same))) =
    rw (anywhere, same) (_, refl, got-is_null gives _ _ _)
allocate-is_null available gives size method node (inr (anywhere, inr (inr same))) =
    rw (anywhere, same) (_, refl, got-is_null gives _ _ _)

run_measure-name :
    (method : Bytes) (node : ℤ) (size n : ℕ) (times : ℕ → Option (ℕ × ℕ × ℕ))
    (gives_src gives_dst : Bool) (x y : Allocation × List Buffers.Call)
    → is_null x.0.ptr ≡ not gives_src
    → is_null y.0.ptr ≡ not gives_dst
    → outcome_name (run_measure method node size n times (some x) (some y)).0 ≡ (
        if (gives_src && gives_dst) && answers_all times n 0
        then some (method_name node method)
        else none)
run_measure-name method node size n times true true x y h k =
    rw (h, k)
      (end_measure-name _ size _ _ (repeat_from times n 0)
        ∙ ap (λ b. if b then some (method_name node method) else none)
            (repeat_from-answers_all times n 0))
run_measure-name method node size n times true false x y h k = rw (h, k) refl
run_measure-name method node size n times false gives_dst x y h k = rw h refl

pub measure-name :
    (available gives_src gives_dst : Bool) (times : ℕ → Option (ℕ × ℕ × ℕ)) (size : ℕ)
    (method : Bytes) (node : ℤ)
    → 0 < size
    → IsAsked available node method
    → outcome_name
        (measure available gives_src gives_dst times size method bandwidth_repeats node).0
      ≡ (if (gives_src && gives_dst) && answers_all times 5 0
          then some (method_name node method)
          else none)
unfolding measure
measure-name available gives_src gives_dst times size method node more asked =
    let good : (size == 0 || leb_ℤ (pos 5) (pos 0)) ≡ false = ground arith in
    let (x, e, h) = allocate-is_null available gives_src size method node asked in
    let (y, q, k) = allocate-is_null available gives_dst size method node asked in
    rw (good, e, q) (run_measure-name method node size 5 times gives_src gives_dst x y h k)
