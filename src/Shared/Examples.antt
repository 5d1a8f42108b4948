-- ===== src/Shared/Examples.antt =====
-- Tests and examples of the shared-memory measurement.
use mathlib.Core.Option
use memory_latency_analyzer.Base.{
  ℕ, ◌+◌, ◌*◌, ◌≡◌, refl, true, some, [], ◌∷◌, arith, ltb, if◌then◌else◌,
}
use memory_latency_analyzer.Base.Int.{pos}
use memory_latency_analyzer.Shared.Wait.{Views}
use memory_latency_analyzer.Shared.Protocol.{
  Producer, Consumer, Flags, System, begin_rounds, post, read_response, be_ready, go_on,
  see_request, take_request, answer, Reach, start, step,
}
use memory_latency_analyzer.Shared.Calls.{IsSimulated, Step-IsSimulated}
use memory_latency_analyzer.Shared.Handshake.{IsOrderly, Reach-IsOrderly}
use memory_latency_analyzer.Shared.Progress.{IsEnabled, handshake_progress}
use memory_latency_analyzer.Shared.Measure.{World, Result, measure_cross_process}
use memory_latency_analyzer.Shared.Cleanup.{
  IsCleaned, IsHonestEnd, measure_cross_process-IsCleaned, measure_cross_process-IsHonest,
}

-- The flag is set by the second round.
abbrev views : Views
views = record { flag = λ i. if ltb i 1 then 0 else 1; stop = λ i. 0; clock = λ i. 5 + 1000000 * i }

-- One round trip, up to the read of the response.
abbrev flags_after : ℕ → ℕ → ℕ → Flags
flags_after request response answers = record {
  request = request;
  response = response;
  ready = 1;
  stop = 0;
  answers = answers;
}

abbrev waiting_posted : System
waiting_posted = record {
  producer = Producer.posted 0;
  consumer = Consumer.waiting;
  flags = flags_after 1 0 0;
}

waiting_posted-Reach : Reach 3 waiting_posted
waiting_posted-Reach =
    step (step (step (step start be_ready) (go_on refl)) (begin_rounds refl)) (post (omega arith))

abbrev round_trip : System
round_trip = record {
  producer = Producer.answered 0;
  consumer = Consumer.checking;
  flags = flags_after 0 1 1;
}

-- The consumer has taken the request back and is about to write its answer.
abbrev answering_first : System
answering_first = record {
  producer = Producer.posted 0;
  consumer = Consumer.answering;
  flags = flags_after 0 0 0;
}

answering_first-Reach : Reach 3 answering_first
answering_first-Reach = step (step waiting_posted-Reach (see_request refl)) take_request

round_trip-Reach : Reach 3 round_trip
round_trip-Reach = step (step answering_first-Reach answer) (read_response refl)

Reach-IsOrderly_example : IsOrderly 3 round_trip
Reach-IsOrderly_example = Reach-IsOrderly 3 round_trip-Reach

Step-IsSimulated_example :
    IsSimulated 3 answering_first
      (record answering_first { consumer = Consumer.checking; flags = flags_after 0 1 1 })
Step-IsSimulated_example = Step-IsSimulated 3 answering_first-Reach answer

handshake_progress_example : IsEnabled 3 waiting_posted
handshake_progress_example =
    handshake_progress 3 (Producer.posted 0) Consumer.waiting (flags_after 1 0 0)
      waiting_posted-Reach tt

-- The consumer answers two iterations and then stops.
abbrev world : World
world = record {
  named = true;
  shm_opens = true;
  truncates = true;
  maps = true;
  forks = true;
  becomes_ready = some true;
  warmup_answers = λ i. some true;
  answers = λ i. some (ltb i 2);
  reserves = true;
  starts = λ i. 100 * i;
  ends = λ i. 100 * i + 40;
}

measure_cross_process-IsCleaned_example :
    IsCleaned (measure_cross_process world (pos 5) (pos 1) (pos 0) (pos 1))
measure_cross_process-IsCleaned_example =
    measure_cross_process-IsCleaned world (pos 5) (pos 1) (pos 0) (pos 1)

measure_cross_process-IsHonest_example :
    IsHonestEnd world (pos 5) (measure_cross_process world (pos 5) (pos 1) (pos 0) (pos 1)).0
measure_cross_process-IsHonest_example =
    measure_cross_process-IsHonest world (pos 5) (pos 1) (pos 0) (pos 1)

partial_run :
    Option.map
      (λ (r : Result). r.samples)
      (measure_cross_process world (pos 5) (pos 1) (pos 0) (pos 1)).0
    ≡ some (40 ∷ 40 ∷ [])
unfolding measure_cross_process
partial_run = refl
