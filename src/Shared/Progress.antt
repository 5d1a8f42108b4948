-- ===== src/Shared/Progress.antt =====
-- Proofs about the steps that the two processes of MemoryLatencyAnalyzer_linux/src/shared_memory_measurer.cpp
-- can take.
use memory_latency_analyzer.Base.{ℕ, ◌≤◌, ◌≡◌, arith, inl, inr, Bool-cases, ltb}
use memory_latency_analyzer.Shared.Protocol.{
  Producer, Consumer, Flags, System, Step, begin_rounds, post, read_response, clear_response,
  finish, be_ready, go_on, see_request, take_request, answer, Reach,
}
use memory_latency_analyzer.Shared.Handshake.{IsOrdered, IsNormal, Reach-IsOrderly}

abbrev pub IsRunning : Producer → Consumer → Type 0
IsRunning Producer.over c = ⊥
IsRunning p Consumer.gone = ⊥
IsRunning p c = Unit

abbrev pub IsEnabled : ℕ → System → Type 0
IsEnabled rounds s = (t : System) × (h : Step rounds s t) × IsNormal h

idle-IsEnabled :
    (rounds i : ℕ) (c : Consumer) (f : Flags)
    → i ≤ rounds
    → IsEnabled rounds (record { producer = Producer.idle i; consumer = c; flags = f })
idle-IsEnabled rounds i c f h = elim (Bool-cases (ltb i rounds)) [
  | inl e ↦ (_, post (ground arith), tt)
  | inr e ↦ let last : i ≡ rounds = ground arith in rw last (_, finish, tt)
]

posted-IsEnabled :
    (rounds i : ℕ) (f : Flags)
    → IsOrdered rounds (Producer.posted i) Consumer.waiting f
    → IsEnabled rounds
        (record { producer = Producer.posted i; consumer = Consumer.waiting; flags = f })
posted-IsEnabled rounds i f (a, b, inl asked) = (_, see_request asked.0, tt)
posted-IsEnabled rounds i f (a, b, inr replied) = (_, read_response replied.1, tt)

ordered-IsEnabled :
    (rounds : ℕ) (p : Producer) (c : Consumer) (f : Flags)
    → IsOrdered rounds p c f
    → IsRunning p c
    → IsEnabled rounds (record { producer = p; consumer = c; flags = f })
ordered-IsEnabled rounds Producer.over c f h r = absurd r
ordered-IsEnabled rounds Producer.waiting_ready Consumer.gone f h r = absurd r
ordered-IsEnabled rounds (Producer.idle i) Consumer.gone f h r = absurd r
ordered-IsEnabled rounds (Producer.posted i) Consumer.gone f h r = absurd r
ordered-IsEnabled rounds (Producer.answered i) Consumer.gone f h r = absurd r
ordered-IsEnabled rounds Producer.waiting_ready Consumer.starting f h r = (_, be_ready, tt)
ordered-IsEnabled rounds Producer.waiting_ready Consumer.checking f h r = (_, go_on h.0, tt)
ordered-IsEnabled rounds Producer.waiting_ready Consumer.waiting f h r = (_, begin_rounds h.1.0, tt)
ordered-IsEnabled rounds Producer.waiting_ready Consumer.taken f h r = absurd h.1
ordered-IsEnabled rounds Producer.waiting_ready Consumer.answering f h r = absurd h.1
ordered-IsEnabled rounds (Producer.idle i) Consumer.starting f h r = absurd h.2
ordered-IsEnabled rounds (Producer.idle i) Consumer.checking f h r = (_, go_on h.0, tt)
ordered-IsEnabled rounds (Producer.idle i) Consumer.waiting f h r =
    idle-IsEnabled rounds i Consumer.waiting f h.1
ordered-IsEnabled rounds (Producer.idle i) Consumer.taken f h r = absurd h.2
ordered-IsEnabled rounds (Producer.idle i) Consumer.answering f h r = absurd h.2
ordered-IsEnabled rounds (Producer.posted i) Consumer.starting f h r = absurd h.2
ordered-IsEnabled rounds (Producer.posted i) Consumer.checking f h r = (_, go_on h.0, tt)
ordered-IsEnabled rounds (Producer.posted i) Consumer.waiting f h r = posted-IsEnabled rounds i f h
ordered-IsEnabled rounds (Producer.posted i) Consumer.taken f h r = (_, take_request, tt)
ordered-IsEnabled rounds (Producer.posted i) Consumer.answering f h r = (_, answer, tt)
ordered-IsEnabled rounds (Producer.answered i) c f h r = (_, clear_response, tt)

-- While both processes run and the producer has not ended, one of them can take a step other than giving up a
-- wait or leaving: the handshake does not deadlock.
pub handshake_progress :
    (rounds : ℕ) (p : Producer) (c : Consumer) (f : Flags)
    → Reach rounds (record { producer = p; consumer = c; flags = f })
    → IsRunning p c
    → IsEnabled rounds (record { producer = p; consumer = c; flags = f })
handshake_progress rounds p c f r h = ordered-IsEnabled rounds p c f (Reach-IsOrderly rounds r) h
