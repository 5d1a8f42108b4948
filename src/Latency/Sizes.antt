-- ===== src/Latency/Sizes.antt =====
-- The sizes that the constructor of `LatencyMeasurer` chooses
-- (MemoryLatencyAnalyzer_linux/src/latency_measurer.cpp), and `subtract_overhead`.
use Prim.Native.Nat.{max}
use memory_latency_analyzer.Base.{
  ℕ, ◌+◌, ◌-◌, ◌*◌, ◌/◌, ◌%◌, ◌^◌, ◌≤◌, ◌<◌, ◌≡◌, ltb, ◌==◌, if◌then◌else◌, arith,
}

-- The size of a `Node`, and of the lines that are flushed.
abbrev pub line : ℕ
line = 64

abbrev pub min_buffer_size : ℕ
min_buffer_size = 32 * 1024 * 1024

abbrev pub latency_batch : ℕ
latency_batch = 128

abbrev pub store_batch : ℕ
store_batch = 256

-- `cache_line_size_`: both assignments of the constructor.
unfoldable pub cache_line_size : ℕ → ℕ
cache_line_size requested =
    let chosen = if requested == 0 then 64 else requested in if chosen == line then chosen else line

-- `buffer_size_`.
unfoldable pub buffer_size : ℕ → ℕ
buffer_size requested =
    let wanted = if requested == 0 then min_buffer_size else max requested min_buffer_size in
    let whole = wanted / line * line in if ltb whole min_buffer_size then min_buffer_size else whole

unfoldable pub node_count : ℕ → ℕ
unfolding buffer_size
node_count requested = buffer_size requested / line

-- The buffer is at least as large as the minimum, at most 63 bytes smaller than what is asked for, and no
-- larger than the greater of the two; it is a whole number of nodes, of which there are 524288 at least; and the line size is 64 whatever is asked
-- for. So the test `node_count_ < 64` of the forced-miss benchmark never fires.
pub buffer_size_exact :
    (requested asked_line : ℕ)
    → (min_buffer_size ≤ buffer_size requested)
      × (requested ≤ buffer_size requested + 63)
      × (buffer_size requested ≤ max requested min_buffer_size)
      × (node_count requested * line ≡ buffer_size requested)
      × (524288 ≤ node_count requested)
      × (cache_line_size asked_line ≡ line)
unfolding buffer_size node_count cache_line_size
buffer_size_exact requested asked_line =
    (ground arith, ground arith, ground arith, ground arith, ground arith, ground arith)

-- `std::uint64_t` differences of two time stamps.
unfoldable pub elapsed : ℕ → ℕ → ℕ
elapsed t0 t1 = (t1 + 2 ^ 64 - t0) % 2 ^ 64

unfoldable pub subtract_overhead : ℕ → ℕ → ℕ
subtract_overhead spent overhead = if ltb overhead spent then spent - overhead else 0

-- Where the clock has not gone back, the net time of a batch is the time between the stamps less the
-- overhead, and 0 where the overhead is larger.
pub subtract_overhead_exact :
    (t0 t1 overhead : ℕ)
    → t0 ≤ t1
    → t1 < 2 ^ 64
    → subtract_overhead (elapsed t0 t1) overhead ≡ t1 - t0 - overhead
unfolding subtract_overhead elapsed
subtract_overhead_exact t0 t1 overhead h k = ground arith
