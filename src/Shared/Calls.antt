-- ===== src/Shared/Calls.antt =====
-- The handshake of MemoryLatencyAnalyzer_linux/src/shared_memory_measurer.cpp as what it is for: a sequence of calls
-- that the steps of the two processes simulate.
use memory_latency_analyzer.Base.{
  ℕ, suc, ◌<◌, ◌≡◌, ◌⊎◌, refl, ◌==◌, if◌then◌else◌, inl, inr, Bool-cases,
}
use memory_latency_analyzer.Shared.Protocol.{
  Producer, Consumer, Flags, System, Step, begin_rounds, post, read_response, clear_response,
  finish, ready_gives_up, response_gives_up, be_ready, cannot_pin, see_stop, go_on, see_request,
  wait_leaves, take_request, answer, Reach,
}
use memory_latency_analyzer.Shared.Handshake.{IsOrdered, IsOrderly, Reach-IsOrderly}

-- Where the calls stand: not begun, `n` done and none open, call `n` asked, call `n` served, or ended.
pub data Phase : Type 0 where
  before : Phase
  between : ℕ → Phase
  asked : ℕ → Phase
  served : ℕ → Phase
  ended : Phase

-- Where the calls stand, and how many times the consumer has answered.
pub record Account : Type 0 where
  pub phase : Phase
  pub answers : ℕ

abbrev pub account : Phase → ℕ → Account
account p n = record { phase = p; answers = n }

-- The calls one after another. A call is answered once, when it is asked; after the end the consumer may write
-- an answer that nobody reads.
pub data Move (rounds : ℕ) : Account → Account → Type 0 where
  open_calls : {k : ℕ} → Move rounds (account before k) (account (between 0) k)
  ask : {n k : ℕ} → n < rounds → Move rounds (account (between n) k) (account (asked n) k)
  serve : {n : ℕ} → Move rounds (account (asked n) n) (account (served n) (suc n))
  close_call : {n k : ℕ} → Move rounds (account (served n) k) (account (between (suc n)) k)
  all_done : {k : ℕ} → Move rounds (account (between rounds) k) (account ended k)
  not_begun : {k : ℕ} → Move rounds (account before k) (account ended k)
  not_served : {n k : ℕ} → Move rounds (account (asked n) k) (account ended k)
  not_seen : {n k : ℕ} → Move rounds (account (served n) k) (account ended k)
  late : {k : ℕ} → Move rounds (account ended k) (account ended (suc k))

-- The phase that a producer and the response flag stand for.
unfoldable pub phase_of : Producer → ℕ → Phase
phase_of Producer.waiting_ready response = before
phase_of (Producer.idle i) response = between i
phase_of (Producer.posted i) response = if response == 1 then served i else asked i
phase_of (Producer.answered i) response = served i
phase_of Producer.over response = ended

-- What a state of the two processes stands for.
abbrev pub account_of : Producer → Flags → Account
account_of p f = account (phase_of p f.response) f.answers

abbrev pub abstract_of : System → Account
abstract_of s = account_of s.producer s.flags

-- The abstract view stays as it is or makes one move of the calls.
abbrev pub IsSimulated : ℕ → System → System → Type 0
IsSimulated rounds s t =
    (abstract_of s ≡ abstract_of t) ⊎ Move rounds (abstract_of s) (abstract_of t)

phase_of_unanswered :
    (i response : ℕ) → response ≡ 0 → phase_of (Producer.posted i) response ≡ asked i
unfolding phase_of
phase_of_unanswered i response h = rw h refl

phase_of_answered :
    (i response : ℕ) → response ≡ 1 → phase_of (Producer.posted i) response ≡ served i
unfolding phase_of
phase_of_answered i response h = rw h refl

posted-Move :
    (rounds i response k : ℕ)
    → Move rounds (account (phase_of (Producer.posted i) response) k) (account ended k)
unfolding phase_of
posted-Move rounds i response k = elim (Bool-cases (response == 1)) [
  | inl up ↦ rw up not_seen
  | inr down ↦ rw down not_served
]

-- The consumer's answer serves the call that is asked, or comes after the end.
answer-Move :
    (rounds : ℕ) (p : Producer) (f : Flags)
    → IsOrdered rounds p Consumer.answering f
    → Move rounds (account_of p f) (account (phase_of p 1) (suc f.answers))
unfolding phase_of
answer-Move rounds Producer.waiting_ready f h = absurd h.1
answer-Move rounds (Producer.idle i) f h = absurd h.2
answer-Move rounds (Producer.posted i) f h =
    rw (phase_of_unanswered i f.response h.2.1) (rw h.2.2 serve)
answer-Move rounds (Producer.answered i) f h = absurd h.2
answer-Move rounds Producer.over f h = late

step-IsSimulated :
    (rounds : ℕ) {s t : System} → IsOrderly rounds s → Step rounds s t → IsSimulated rounds s t
unfolding phase_of
step-IsSimulated rounds h (begin_rounds e) = inr open_calls
step-IsSimulated rounds h (post {f = f} {i = i} less) =
    rw (phase_of_unanswered i f.response h.3.1) (inr (ask less))
step-IsSimulated rounds h (read_response {f = f} {i = i} e) =
    rw (phase_of_answered i f.response e) (inl refl)
step-IsSimulated rounds h clear_response = inr close_call
step-IsSimulated rounds h finish = inr all_done
step-IsSimulated rounds h ready_gives_up = inr not_begun
step-IsSimulated rounds h (response_gives_up {f = f} {i = i}) =
    inr (posted-Move rounds i f.response f.answers)
step-IsSimulated rounds h be_ready = inl refl
step-IsSimulated rounds h cannot_pin = inl refl
step-IsSimulated rounds h (see_stop e) = inl refl
step-IsSimulated rounds h (go_on e) = inl refl
step-IsSimulated rounds h (see_request e) = inl refl
step-IsSimulated rounds h wait_leaves = inl refl
step-IsSimulated rounds h take_request = inl refl
step-IsSimulated rounds h (answer {p = p} {f = f}) = inr (answer-Move rounds p f h)

-- The two processes implement a sequence of calls: from every state that is reached, however the accesses of the
-- two interleave and whichever waits give up, each step of either process leaves the phase of the calls and the
-- number of answers as they are or makes one move of `Move`. There a call `n` is asked only below `rounds` and
-- when the call before it is done; the consumer's answer is the `n + 1`st and turns call `n` from asked to
-- served, so that no call is answered unasked or twice before the end; a call is done only after it is served.
pub Step-IsSimulated :
    (rounds : ℕ) {s t : System} → Reach rounds s → Step rounds s t → IsSimulated rounds s t
Step-IsSimulated rounds r h = step-IsSimulated rounds (Reach-IsOrderly rounds r) h
