-- ===== src/Mqtt/CircuitBreaker.antt =====
-- RateLimitsCircuitBreaker.ts: it opens when too many events have come in the last interval.
use redstone_oracles_monorep.Prelude.{
  ℕ, ◌+◌, ◌≤◌, Bool, List, [], ◌∷◌, ◌++◌, append_assoc, append-nil, filter, length, leb, ltb, All,
  ◌≡◌, refl, ap, sym, ◌∙◌, arith, Bool-cases, inl, inr,
}

pub record RateLimitsCircuitBreaker : Type 0 where
  pub interval : ℕ
  pub max_events_count : ℕ
  pub events : List ℕ

unfoldable pub record_event : RateLimitsCircuitBreaker → ℕ → RateLimitsCircuitBreaker
record_event b now = record b { events = b.events ++ now ∷ [] }

-- `occurredAt >= now - this.interval`, the difference written as a sum
abbrev pub is_recent : ℕ → ℕ → ℕ → Bool
is_recent interval now occurred_at = leb now (occurred_at + interval)

-- The answer, and the breaker without the old events.
unfoldable pub should_break_circuit : RateLimitsCircuitBreaker → ℕ → Bool × RateLimitsCircuitBreaker
should_break_circuit b now =
    let recent = filter (is_recent b.interval now) b.events in
    (ltb b.max_events_count (length recent), record b { events = recent })

-- The calls of a breaker, each with the time that it reads from the clock.
pub data BreakerCall : Type 0 where
  record_call check_call : ℕ → BreakerCall

abbrev pub time_of : BreakerCall → ℕ
time_of (record_call now) = now
time_of (check_call now) = now

abbrev pub run_calls : RateLimitsCircuitBreaker → List BreakerCall → RateLimitsCircuitBreaker
run_calls b [] = b
run_calls b (record_call now ∷ calls) = run_calls (record_event b now) calls
run_calls b (check_call now ∷ calls) = run_calls (should_break_circuit b now).1 calls

-- All events that the calls have recorded, old or not.
abbrev pub recorded : List BreakerCall → List ℕ
recorded [] = []
recorded (record_call now ∷ calls) = now ∷ recorded calls
recorded (check_call now ∷ calls) = recorded calls

filter-append : (p : ℕ → Bool) (xs ys : List ℕ) → filter p (xs ++ ys) ≡ filter p xs ++ filter p ys
filter-append p [] ys = refl
filter-append p (x ∷ xs) ys = elim (Bool-cases (p x)) [
  | inl kept ↦ rw (kept, filter-append p xs ys)
  | inr dropped ↦ rw (dropped, filter-append p xs ys)
]

-- What an earlier check drops a later one drops too.
filter-filter :
    (interval earlier now : ℕ) (xs : List ℕ)
    → earlier ≤ now
    → filter (is_recent interval now) (filter (is_recent interval earlier) xs)
      ≡ filter (is_recent interval now) xs
filter-filter interval earlier now [] h = refl
filter-filter interval earlier now (x ∷ xs) h =
    ground (arith, filter-filter interval earlier now xs h)

run_calls-filter :
    (b : RateLimitsCircuitBreaker) (calls : List BreakerCall) (now : ℕ)
    → All (λ c. time_of c ≤ now) calls
    → filter (is_recent b.interval now) (run_calls b calls).events
      ≡ filter (is_recent b.interval now) (b.events ++ recorded calls)
unfolding record_event should_break_circuit
run_calls-filter b [] now h = ap (filter (is_recent b.interval now)) (sym (append-nil b.events))
run_calls-filter b (record_call t ∷ calls) now h =
    run_calls-filter (record_event b t) calls now h.1
    ∙ ap (filter (is_recent b.interval now)) (simp append_assoc)
run_calls-filter b (check_call t ∷ calls) now h =
    run_calls-filter (should_break_circuit b t).1 calls now h.1
    ∙ filter-append (is_recent b.interval now) (filter (is_recent b.interval t) b.events)
        (recorded calls)
    ∙ ap (λ xs. xs ++ filter (is_recent b.interval now) (recorded calls))
        (filter-filter b.interval t now b.events h.0)
    ∙ sym (filter-append (is_recent b.interval now) b.events (recorded calls))

run_calls-limits :
    (b : RateLimitsCircuitBreaker) (calls : List BreakerCall)
    → ((run_calls b calls).interval ≡ b.interval)
      × ((run_calls b calls).max_events_count ≡ b.max_events_count)
unfolding record_event should_break_circuit
run_calls-limits b [] = (refl, refl)
run_calls-limits b (record_call t ∷ calls) = run_calls-limits (record_event b t) calls
run_calls-limits b (check_call t ∷ calls) = run_calls-limits (should_break_circuit b t).1 calls

-- Though every check forgets the events that are old then, the answer after any calls of the past
-- counts all events recorded: the circuit is broken exactly if more than the maximum of them are not
-- older than the interval.
pub should_break_circuit-recorded :
    (interval max_count : ℕ) (calls : List BreakerCall) (now : ℕ)
    → All (λ c. time_of c ≤ now) calls
    → (should_break_circuit
        (run_calls
          (record { interval = interval; max_events_count = max_count; events = [] })
          calls)
        now).0
      ≡ ltb max_count (length (filter (is_recent interval now) (recorded calls)))
unfolding should_break_circuit
should_break_circuit-recorded interval max_count calls now h =
    let empty : RateLimitsCircuitBreaker = record {
      interval = interval;
      max_events_count = max_count;
      events = [];
    } in
    let (same_interval, same_count) = run_calls-limits empty calls in
    rw (same_interval, same_count, run_calls-filter empty calls now h)
