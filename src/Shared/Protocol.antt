-- ===== src/Shared/Protocol.antt =====
-- The flags of MemoryLatencyAnalyzer_linux/src/shared_memory_measurer.cpp as a transition system: the producer is
-- the loop of `measure_cross_process`, the consumer is `consumer_loop`. A step is one access to the flags.
use memory_latency_analyzer.Base.{ℕ, suc, ◌<◌, ◌≡◌, ◌≢◌}

-- Where the producer stands: it waits for the consumer, is about to post the request of round `i`, has posted
-- it, has read the response, or has set the stop flag.
pub data Producer : Type 0 where
  waiting_ready : Producer
  idle : ℕ → Producer
  posted : ℕ → Producer
  answered : ℕ → Producer
  over : Producer

-- Where the consumer stands: before it is ready, at the test of the stop flag, in the wait for a request, before
-- and behind the write that takes the request back, or behind its loop.
pub data Consumer : Type 0 where
  starting : Consumer
  checking : Consumer
  waiting : Consumer
  taken : Consumer
  answering : Consumer
  gone : Consumer

-- The flags, and how many responses the consumer has written.
pub record Flags : Type 0 where
  pub request : ℕ
  pub response : ℕ
  pub ready : ℕ
  pub stop : ℕ
  pub answers : ℕ

pub record System : Type 0 where
  pub producer : Producer
  pub consumer : Consumer
  pub flags : Flags

-- Behind the stores of 0 and the `fork`.
abbrev pub initial : System
initial = record {
  producer = Producer.waiting_ready;
  consumer = Consumer.starting;
  flags = record { request = 0; response = 0; ready = 0; stop = 0; answers = 0 };
}

-- `rounds` is the number of warmups and iterations. The steps `…_gives_up` and `…_leaves` are those of a wait
-- that ends without its value, or of a consumer that cannot be pinned.
pub data Step (rounds : ℕ) : System → System → Type 0 where
  begin_rounds :
      {c : Consumer} {f : Flags}
      → f.ready ≡ 1
      → Step rounds
          (record { producer = Producer.waiting_ready; consumer = c; flags = f })
          (record { producer = Producer.idle 0; consumer = c; flags = f })
  post :
      {c : Consumer} {f : Flags} {i : ℕ}
      → i < rounds
      → Step rounds
          (record { producer = Producer.idle i; consumer = c; flags = f })
          (record { producer = Producer.posted i; consumer = c; flags = record f { request = 1 } })
  read_response :
      {c : Consumer} {f : Flags} {i : ℕ}
      → f.response ≡ 1
      → Step rounds
          (record { producer = Producer.posted i; consumer = c; flags = f })
          (record { producer = Producer.answered i; consumer = c; flags = f })
  clear_response :
      {c : Consumer} {f : Flags} {i : ℕ}
      → Step rounds
          (record { producer = Producer.answered i; consumer = c; flags = f })
          (record {
            producer = Producer.idle (suc i);
            consumer = c;
            flags = record f { response = 0 };
          })
  finish :
      {c : Consumer} {f : Flags}
      → Step rounds
          (record { producer = Producer.idle rounds; consumer = c; flags = f })
          (record { producer = Producer.over; consumer = c; flags = record f { stop = 1 } })
  ready_gives_up :
      {c : Consumer} {f : Flags}
      → Step rounds
          (record { producer = Producer.waiting_ready; consumer = c; flags = f })
          (record { producer = Producer.over; consumer = c; flags = record f { stop = 1 } })
  response_gives_up :
      {c : Consumer} {f : Flags} {i : ℕ}
      → Step rounds
          (record { producer = Producer.posted i; consumer = c; flags = f })
          (record { producer = Producer.over; consumer = c; flags = record f { stop = 1 } })
  be_ready :
      {p : Producer} {f : Flags}
      → Step rounds
          (record { producer = p; consumer = Consumer.starting; flags = f })
          (record { producer = p; consumer = Consumer.checking; flags = record f { ready = 1 } })
  cannot_pin :
      {p : Producer} {f : Flags}
      → Step rounds
          (record { producer = p; consumer = Consumer.starting; flags = f })
          (record { producer = p; consumer = Consumer.gone; flags = f })
  see_stop :
      {p : Producer} {f : Flags}
      → f.stop ≢ 0
      → Step rounds
          (record { producer = p; consumer = Consumer.checking; flags = f })
          (record { producer = p; consumer = Consumer.gone; flags = f })
  go_on :
      {p : Producer} {f : Flags}
      → f.stop ≡ 0
      → Step rounds
          (record { producer = p; consumer = Consumer.checking; flags = f })
          (record { producer = p; consumer = Consumer.waiting; flags = f })
  see_request :
      {p : Producer} {f : Flags}
      → f.request ≡ 1
      → Step rounds
          (record { producer = p; consumer = Consumer.waiting; flags = f })
          (record { producer = p; consumer = Consumer.taken; flags = f })
  wait_leaves :
      {p : Producer} {f : Flags}
      → Step rounds
          (record { producer = p; consumer = Consumer.waiting; flags = f })
          (record { producer = p; consumer = Consumer.gone; flags = f })
  take_request :
      {p : Producer} {f : Flags}
      → Step rounds
          (record { producer = p; consumer = Consumer.taken; flags = f })
          (record { producer = p; consumer = Consumer.answering; flags = record f { request = 0 } })
  answer :
      {p : Producer} {f : Flags}
      → Step rounds
          (record { producer = p; consumer = Consumer.answering; flags = f })
          (record {
            producer = p;
            consumer = Consumer.checking;
            flags = record f { response = 1; answers = suc f.answers };
          })

-- The states that are reached.
pub data Reach (rounds : ℕ) : System → Type 0 where
  start : Reach rounds initial
  step : {s t : System} → Reach rounds s → Step rounds s t → Reach rounds t
