-- ===== src/Shared/Handshake.antt =====
-- The invariant of the handshake of MemoryLatencyAnalyzer_linux/src/shared_memory_measurer.cpp.
use memory_latency_analyzer.Base.{ℕ, suc, ◌≤◌, ◌<◌, ◌≡◌, ◌⊎◌, refl, ap, ◌∙◌, arith, inl, inr}
use memory_latency_analyzer.Shared.Protocol.{
  Producer, Consumer, Flags, System, Step, begin_rounds, post, read_response, clear_response,
  finish, ready_gives_up, response_gives_up, be_ready, cannot_pin, see_stop, go_on, see_request,
  wait_leaves, take_request, answer, Reach, start, step,
}

-- Neither flag is up, and `n` responses have been written.
abbrev pub IsQuiet : Flags → ℕ → Type 0
IsQuiet f n = (f.request ≡ 0) × (f.response ≡ 0) × (f.answers ≡ n)

abbrev pub IsAsked : Flags → ℕ → Type 0
IsAsked f n = (f.request ≡ 1) × (f.response ≡ 0) × (f.answers ≡ n)

abbrev pub IsReplied : Flags → ℕ → Type 0
IsReplied f n = (f.request ≡ 0) × (f.response ≡ 1) × (f.answers ≡ suc n)

-- The consumer holds no request.
abbrev pub IsResting : Consumer → Type 0
IsResting Consumer.starting = ⊥
IsResting Consumer.checking = Unit
IsResting Consumer.waiting = Unit
IsResting Consumer.taken = ⊥
IsResting Consumer.answering = ⊥
IsResting Consumer.gone = Unit

-- The flags while the request of round `i` is posted.
abbrev pub IsPosted : Consumer → Flags → ℕ → Type 0
IsPosted Consumer.starting f i = ⊥
IsPosted Consumer.checking f i = IsAsked f i ⊎ IsReplied f i
IsPosted Consumer.waiting f i = IsAsked f i ⊎ IsReplied f i
IsPosted Consumer.taken f i = IsAsked f i
IsPosted Consumer.answering f i = IsQuiet f i
IsPosted Consumer.gone f i = IsAsked f i ⊎ IsReplied f i

-- The flags while the producer waits for the consumer.
abbrev pub IsEarly : Consumer → Flags → Type 0
IsEarly Consumer.starting f = (f.ready ≡ 0) × IsQuiet f 0
IsEarly Consumer.checking f = (f.ready ≡ 1) × IsQuiet f 0
IsEarly Consumer.waiting f = (f.ready ≡ 1) × IsQuiet f 0
IsEarly Consumer.taken f = ⊥
IsEarly Consumer.answering f = ⊥
IsEarly Consumer.gone f = IsQuiet f 0

abbrev pub IsOrdered : ℕ → Producer → Consumer → Flags → Type 0
IsOrdered rounds Producer.waiting_ready c f = (f.stop ≡ 0) × IsEarly c f
IsOrdered rounds (Producer.idle i) c f = (f.stop ≡ 0) × (i ≤ rounds) × IsResting c × IsQuiet f i
IsOrdered rounds (Producer.posted i) c f = (f.stop ≡ 0) × (i < rounds) × IsPosted c f i
IsOrdered rounds (Producer.answered i) c f =
    (f.stop ≡ 0) × (i < rounds) × IsResting c × IsReplied f i
IsOrdered rounds Producer.over c f = f.stop ≡ 1

abbrev pub IsOrderly : ℕ → System → Type 0
IsOrderly rounds s = IsOrdered rounds s.producer s.consumer s.flags

early-ready : (c : Consumer) (f : Flags) → f.ready ≡ 1 → IsEarly c f → IsResting c × IsQuiet f 0
early-ready Consumer.starting f h e = absurd (ground arith)
early-ready Consumer.checking f h e = (tt, e.1)
early-ready Consumer.waiting f h e = (tt, e.1)
early-ready Consumer.taken f h e = absurd e
early-ready Consumer.answering f h e = absurd e
early-ready Consumer.gone f h e = (tt, e)

resting-IsPosted :
    (c : Consumer) (f : Flags) (i : ℕ)
    → IsResting c
    → IsQuiet f i
    → IsPosted c (record f { request = 1 }) i
resting-IsPosted Consumer.starting f i h q = absurd h
resting-IsPosted Consumer.checking f i h q = inl (refl, q.1, q.2)
resting-IsPosted Consumer.waiting f i h q = inl (refl, q.1, q.2)
resting-IsPosted Consumer.taken f i h q = absurd h
resting-IsPosted Consumer.answering f i h q = absurd h
resting-IsPosted Consumer.gone f i h q = inl (refl, q.1, q.2)

replied : (f : Flags) (i : ℕ) → f.response ≡ 1 → IsAsked f i ⊎ IsReplied f i → IsReplied f i
replied f i h (inl a) = absurd (ground arith)
replied f i h (inr r) = r

posted-IsReplied :
    (c : Consumer) (f : Flags) (i : ℕ)
    → f.response ≡ 1
    → IsPosted c f i
    → IsResting c × IsReplied f i
posted-IsReplied Consumer.starting f i h p = absurd p
posted-IsReplied Consumer.checking f i h p = (tt, replied f i h p)
posted-IsReplied Consumer.waiting f i h p = (tt, replied f i h p)
posted-IsReplied Consumer.taken f i h p = absurd (ground arith)
posted-IsReplied Consumer.answering f i h p = absurd (ground arith)
posted-IsReplied Consumer.gone f i h p = (tt, replied f i h p)

-- A step of the consumer, whatever the producer does.
consumer-IsOrdered :
    (rounds : ℕ) (p : Producer) (c c' : Consumer) {f f' : Flags}
    → f'.stop ≡ f.stop
    → (IsEarly c f → IsEarly c' f')
    → (IsResting c → f.request ≡ 0 → IsResting c' × (f ≡ f'))
    → ((i : ℕ) → IsPosted c f i → IsPosted c' f' i)
    → IsOrdered rounds p c f
    → IsOrdered rounds p c' f'
consumer-IsOrdered rounds Producer.waiting_ready c c' same early rest held h =
    (same ∙ h.0, early h.1)
consumer-IsOrdered rounds (Producer.idle i) c c' same early rest held h =
    let (a, e) = rest h.2 h.3.0 in rw (← e) (h.0, h.1, a, h.3)
consumer-IsOrdered rounds (Producer.posted i) c c' same early rest held h =
    (same ∙ h.0, h.1, held i h.2)
consumer-IsOrdered rounds (Producer.answered i) c c' same early rest held h =
    let (a, e) = rest h.2 h.3.0 in rw (← e) (h.0, h.1, a, h.3)
consumer-IsOrdered rounds Producer.over c c' same early rest held h = same ∙ h

IsAsked-taken : (f : Flags) (i : ℕ) → f.request ≡ 1 → IsAsked f i ⊎ IsReplied f i → IsAsked f i
IsAsked-taken f i h (inl a) = a
IsAsked-taken f i h (inr r) = absurd (ground arith)

step-IsOrderly :
    (rounds : ℕ) {s t : System} → Step rounds s t → IsOrderly rounds s → IsOrderly rounds t
step-IsOrderly rounds (begin_rounds {c = c} {f = f} e) h =
    let (a, b) = early-ready c f e h.1 in (h.0, omega arith, a, b)
step-IsOrderly rounds (post {c = c} {f = f} {i = i} less) h =
    (h.0, less, resting-IsPosted c f i h.2 h.3)
step-IsOrderly rounds (read_response {c = c} {f = f} {i = i} e) h =
    let (a, b) = posted-IsReplied c f i e h.2 in (h.0, h.1, a, b)
step-IsOrderly rounds (clear_response {c = c} {f = f} {i = i}) h =
    (h.0, omega (arith, h.1), h.2, (h.3.0, refl, h.3.2))
step-IsOrderly rounds finish h = refl
step-IsOrderly rounds ready_gives_up h = refl
step-IsOrderly rounds response_gives_up h = refl
step-IsOrderly rounds (be_ready {p = p}) h =
    consumer-IsOrdered rounds p Consumer.starting Consumer.checking refl (λ e. (refl, e.1))
      (λ r q. absurd r) (λ i q. absurd q) h
step-IsOrderly rounds (cannot_pin {p = p}) h =
    consumer-IsOrdered rounds p Consumer.starting Consumer.gone refl (λ e. e.1) (λ r q. absurd r)
      (λ i q. absurd q) h
step-IsOrderly rounds (see_stop {p = p} e) h =
    consumer-IsOrdered rounds p Consumer.checking Consumer.gone refl (λ e. e.1) (λ r q. (tt, refl))
      (λ i q. q) h
step-IsOrderly rounds (go_on {p = p} e) h =
    consumer-IsOrdered rounds p Consumer.checking Consumer.waiting refl (λ e. e) (λ r q. (tt, refl))
      (λ i q. q) h
step-IsOrderly rounds (see_request {p = p} {f = f} e) h =
    consumer-IsOrdered rounds p Consumer.waiting Consumer.taken refl (λ q. absurd (ground arith))
      (λ r q. absurd (ground arith)) (λ i q. IsAsked-taken f i e q) h
step-IsOrderly rounds (wait_leaves {p = p}) h =
    consumer-IsOrdered rounds p Consumer.waiting Consumer.gone refl (λ e. e.1) (λ r q. (tt, refl))
      (λ i q. q) h
step-IsOrderly rounds (take_request {p = p}) h =
    consumer-IsOrdered rounds p Consumer.taken Consumer.answering refl (λ e. absurd e)
      (λ r q. absurd r) (λ i q. (refl, q.1, q.2)) h
step-IsOrderly rounds (answer {p = p}) h =
    consumer-IsOrdered rounds p Consumer.answering Consumer.checking refl (λ e. absurd e)
      (λ r q. absurd r) (λ i q. inr (q.0, refl, ap suc q.2)) h

-- In every state that is reached, however the accesses of the two processes interleave and whichever waits give
-- up, the flags are in order until the producer sets the stop flag: no request and no response is up between
-- two rounds, the request and the response are never up together, the consumer holds a request only while one is
-- posted, and each request that the producer has seen answered has exactly one answer.
pub Reach-IsOrderly : (rounds : ℕ) {s : System} → Reach rounds s → IsOrderly rounds s
Reach-IsOrderly rounds start = (refl, (refl, (refl, refl, refl)))
Reach-IsOrderly rounds (step r h) = step-IsOrderly rounds h (Reach-IsOrderly rounds r)

-- The steps other than giving up.
abbrev pub IsNormal : {rounds : ℕ} {s t : System} → Step rounds s t → Type 0
IsNormal ready_gives_up = ⊥
IsNormal response_gives_up = ⊥
IsNormal cannot_pin = ⊥
IsNormal wait_leaves = ⊥
IsNormal _ = Unit
