-- ===== src/Bandwidth/Examples.antt =====
-- Tests and examples of the bandwidth measurement.
use memory_latency_analyzer.Base.{
  ◌≡◌, refl, true, false, none, some, ltb, if◌then◌else◌, [], ◌∷◌, arith,
}
use memory_latency_analyzer.Base.Int.{pos, negsuc}
use memory_latency_analyzer.Base.Text.{codes}
use memory_latency_analyzer.Bandwidth.Buffers.{acquire, mapping, unmap, clock_failed, measure}
use memory_latency_analyzer.Bandwidth.Release.{IsAccounted, measure-IsAccounted}

measure-IsAccounted_example :
    IsAccounted (measure true true true (λ r. some (r, r, r)) 4096 (codes "malloc") (pos 2) (pos 3))
measure-IsAccounted_example =
    measure-IsAccounted true true true (λ r. some (r, r, r)) 4096 (codes "malloc") (pos 2) (pos 3)
      (omega arith, omega arith)

-- The second buffer fails: the first one is given back with its rounded size.
large_run :
    (measure false true false
      (λ r. some (r, r, r))
      5000000
      (codes "LargePage")
      (pos 2)
      (negsuc 0)).1
    ≡ acquire mapping 6291456 ∷ unmap 6291456 ∷ []
unfolding measure
large_run = refl

-- The clock fails in the second repeat: both mappings stay.
clock_run :
    measure false true true
      (λ r. if ltb r 1 then some (r, r, r) else none)
      4096
      (codes "mmap")
      (pos 2)
      (negsuc 0)
    ≡ (clock_failed, acquire mapping 4096 ∷ acquire mapping 4096 ∷ [])
unfolding measure
clock_run = refl
