-- ===== src/Bandwidth/Buffers.antt =====
-- `allocate_buffer`, `release_buffer` and `measure` of MemoryLatencyAnalyzer_linux/src/bandwidth_measurer.cpp. What the
-- allocators and the clock answer is a parameter, the failure of either included; the calls that allocate and free
-- are recorded. The names and the vectors of the rates are taken to get their memory.
use memory_latency_analyzer.Base.{
  ℕ, zero, suc, ◌+◌, ◌-◌, ◌*◌, ◌%◌, ◌^◌, Bool, true, false, not, ◌&&◌, ◌||◌, Option, none, some,
  List, [], ◌∷◌, ◌++◌, drop, leb, ◌==◌, if◌then◌else◌,
}
use memory_latency_analyzer.Base.Int.{ℤ, pos, leb_ℤ, ltb_ℤ, pos_part}
use memory_latency_analyzer.Base.Text.{Bytes, codes, to_string, stoi}
use memory_latency_analyzer.Topology.Nodes.{starts_with}

-- A pointer: who gave it. `none` in an allocation is the null pointer.
pub data Source : Type 0 where
  heap : Source
  mapping : Source
  node_memory : Source

pub data Call : Type 0 where
  acquire : Source → ℕ → Call
  free_heap : Call
  unmap : ℕ → Call
  free_on_node : ℕ → Call

pub record Allocation : Type 0 where
  pub ptr : Option Source
  pub size : ℕ
  pub method : Bytes

unfoldable pub eq_bytes : Bytes → Bytes → Bool
eq_bytes [] [] = true
eq_bytes [] (c ∷ cs) = false
eq_bytes (d ∷ ds) [] = false
eq_bytes (d ∷ ds) (c ∷ cs) = leb c d && leb d c && eq_bytes ds cs

abbrev pub prefix : Bytes
prefix = codes "numa-node-"

abbrev pub large_page_size : ℕ
large_page_size = 2 * 1024 * 1024

-- Rounding up to whole large pages, in `std::size_t`; the mask clears the low bits.
unfoldable pub large_size : ℕ → ℕ
large_size requested =
    let sum = (requested + large_page_size - 1) % 2 ^ 64 in sum - sum % large_page_size

abbrev pub got : Bool → Source → ℕ → Bytes → Allocation × List Call
got true source size method =
    (record { ptr = some source; size = size; method = method }, acquire source size ∷ [])
got false source size method = (record { ptr = none; size = size; method = method }, [])

-- `gives` is what the allocator answers; `none` is `std::invalid_argument`.
unfoldable pub allocate_buffer :
    (available gives : Bool) → ℕ → Bytes → ℤ → Option (Allocation × List Call)
unfolding large_size eq_bytes
allocate_buffer available gives requested method numa_node =
    if not (ltb_ℤ numa_node (pos 0))
    then if not available
      then some (record { ptr = none; size = requested; method = method }, [])
      else some (got gives node_memory requested (prefix ++ to_string numa_node))
    else if eq_bytes method (codes "malloc")
    then some (got gives heap requested method)
    else if eq_bytes method (codes "LargePage")
    then some (got gives mapping (large_size requested) method)
    else if eq_bytes method (codes "mmap")
    then some (got gives mapping requested method)
    else none

abbrev pub is_node : Option ℤ → Bool
is_node none = false
is_node (some node) = not (ltb_ℤ node (pos 0))

-- The calls that `release_buffer` makes.
unfoldable pub release_buffer : Allocation → List Call
unfolding eq_bytes starts_with
release_buffer a = elim (a.ptr) [
  | none ↦ []
  | some source ↦
      if starts_with a.method prefix
      then (if is_node (stoi (drop 10 a.method)) then free_on_node a.size ∷ [] else [])
      else if eq_bytes a.method (codes "malloc")
      then free_heap ∷ []
      else unmap a.size ∷ []
]

-- What `measure` ends with; the rates are the measured times, of reading, writing and copying. `clock_failed` is
-- the exception of `Timer::monotonic_raw_ns`.
pub data Outcome : Type 0 where
  invalid_argument : Outcome
  allocation_failed : Outcome
  clock_failed : Outcome
  measured : Bytes → ℕ → List (ℕ × ℕ × ℕ) → Outcome

abbrev pub add_times : ℕ × ℕ × ℕ → Option (List (ℕ × ℕ × ℕ)) → Option (List (ℕ × ℕ × ℕ))
add_times t none = none
add_times t (some rest) = some (t ∷ rest)

abbrev pub times_then : Option (ℕ × ℕ × ℕ) → Option (List (ℕ × ℕ × ℕ)) → Option (List (ℕ × ℕ × ℕ))
times_then none rest = none
times_then (some t) rest = add_times t rest

-- The repeats `r`, `r + 1`, …, each with its three times; `none` is an exception of the clock.
unfoldable pub repeat_from : (ℕ → Option (ℕ × ℕ × ℕ)) → ℕ → ℕ → Option (List (ℕ × ℕ × ℕ))
repeat_from times zero r = some []
repeat_from times (suc left) r = times_then (times r) (repeat_from times left (r + 1))

abbrev pub is_null : Option Source → Bool
is_null none = true
is_null (some source) = false

-- Behind the loop both buffers are released; an exception of the clock passes this by.
abbrev pub end_measure :
    Bytes → ℕ → (acquired released : List Call) → Option (List (ℕ × ℕ × ℕ)) → Outcome × List Call
end_measure name size acquired released none = (clock_failed, acquired)
end_measure name size acquired released (some times) =
    (measured name size times, acquired ++ released)

abbrev pub run_measure :
    Bytes
    → ℤ
    → ℕ
    → ℕ
    → (ℕ → Option (ℕ × ℕ × ℕ))
    → Option (Allocation × List Call)
    → Option (Allocation × List Call)
    → Outcome × List Call
run_measure method numa_node size repeats times none dst = (invalid_argument, [])
run_measure method numa_node size repeats times (some (src, calls)) none = (invalid_argument, calls)
run_measure method numa_node size repeats times (some (src, calls)) (some (dst, more)) =
    let released = release_buffer src ++ release_buffer dst in
    if is_null src.ptr || is_null dst.ptr
    then (allocation_failed, (calls ++ more) ++ released)
    else end_measure
        (if not (ltb_ℤ numa_node (pos 0)) then prefix ++ to_string numa_node else method) size
        (calls ++ more) released (repeat_from times repeats 0)

-- `gives_src` and `gives_dst` are the answers to the two allocations.
unfoldable pub measure :
    (available gives_src gives_dst : Bool)
    → (ℕ → Option (ℕ × ℕ × ℕ))
    → ℕ
    → Bytes
    → ℤ
    → ℤ
    → Outcome × List Call
unfolding allocate_buffer release_buffer repeat_from
measure available gives_src gives_dst times size method repeats numa_node =
    if size == 0 || leb_ℤ repeats (pos 0)
    then (invalid_argument, [])
    else run_measure method numa_node size (pos_part repeats) times
        (allocate_buffer available gives_src size method numa_node)
        (allocate_buffer available gives_dst size method numa_node)
