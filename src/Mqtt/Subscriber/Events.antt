-- ===== src/Mqtt/Subscriber/Events.antt =====
-- DataPackageSubscriber.ts: the handlers that the broker's client, the timers and `subscribe` call,
-- and the runs of a subscriber.
use redstone_oracles_monorep.Prelude.{
  ℕ, zero, suc, Bool, true, false, Option, none, some, List, [], ◌∷◌, Result, err, ok, leb,
  if◌then◌else◌,
}
use redstone_oracles_monorep.Relayer.Config.{Numbers, SignedDataPackage}
use redstone_oracles_monorep.Mqtt.CircuitBreaker.{
  RateLimitsCircuitBreaker, record_event, should_break_circuit,
}
use redstone_oracles_monorep.Mqtt.Subscriber.State.{
  DataPackageSubscriber, Outcome, SubscriberError, Timer,
}
use redstone_oracles_monorep.Mqtt.Subscriber.Publishing.{publish_packages}
use redstone_oracles_monorep.Mqtt.Subscriber.Receiving.{process_new_package}

module _ (N : Numbers) where
  abbrev pub break_circuit :
      DataPackageSubscriber N → Option RateLimitsCircuitBreaker → ℕ → DataPackageSubscriber N
  break_circuit s none now = s
  break_circuit s (some breaker) now =
      let (breaks, checked) = should_break_circuit (record_event breaker now) now in
      record s {
        circuit_breaker = some checked;
        unsubscribe_calls = if breaks then suc s.unsubscribe_calls else s.unsubscribe_calls;
      }

  unfoldable pub handle_circuit_breaker : DataPackageSubscriber N → ℕ → DataPackageSubscriber N
  handle_circuit_breaker s now = break_circuit s s.circuit_breaker now

  -- What the broker's client passes to the handler: an error, or a payload.
  pub data Message : Type 0 where
    broken : Message
    payload : Option (SignedDataPackage N) → Message

  -- The handler that `subscribe` installs; it catches what is thrown.
  unfoldable pub on_message : DataPackageSubscriber N → Message → ℕ → DataPackageSubscriber N
  on_message s broken now = handle_circuit_breaker s now
  on_message s (payload content) now =
      (process_new_package N (handle_circuit_breaker s now) content now).0

  abbrev pub timer_at : List Timer → ℕ → Option Timer
  timer_at [] i = none
  timer_at (timer ∷ timers) zero = some timer
  timer_at (timer ∷ timers) (suc i) = timer_at timers i

  abbrev pub without_timer : List Timer → ℕ → List Timer
  without_timer [] i = []
  without_timer (timer ∷ timers) zero = timers
  without_timer (timer ∷ timers) (suc i) = timer ∷ without_timer timers i

  abbrev pub run_timer : DataPackageSubscriber N → ℕ → Option Timer → ℕ → DataPackageSubscriber N
  run_timer s i none now = s
  run_timer s i (some timer) now =
      let fired = record s { timers = without_timer s.timers i } in
      if leb timer.due now then (publish_packages N fired timer.entry timer.timestamp now).0 else s

  -- The pending timer at a position is called, if its time has come.
  unfoldable pub fire_timer : DataPackageSubscriber N → ℕ → ℕ → DataPackageSubscriber N
  fire_timer s i now = run_timer s i (timer_at s.timers i) now

  -- `subscribe`, with whether the client's `subscribe` has thrown and whether there is a fallback.
  unfoldable pub subscribe_to_topics :
      DataPackageSubscriber N → Result SubscriberError (Unit {0}) → Bool → Outcome N
  subscribe_to_topics s answer has_fallback =
      if s.has_callback
      then (s, none)
      else (record s { has_callback = true }, thrown_unless_fallback answer has_fallback)
    where
      thrown_unless_fallback : Result SubscriberError (Unit {0}) → Bool → Option SubscriberError
      thrown_unless_fallback (ok _) has_fallback = none
      thrown_unless_fallback (err thrown) true = none
      thrown_unless_fallback (err thrown) false = some thrown

  -- What happens to a subscriber without a fallback.
  pub data Event : Type 0 where
    subscribed : Result SubscriberError (Unit {0}) → Event
    received : Message → ℕ → Event
    timer_fired : ℕ → ℕ → Event

  unfoldable pub step : DataPackageSubscriber N → Event → DataPackageSubscriber N
  step s (subscribed answer) = (subscribe_to_topics s answer false).0
  step s (received message now) = on_message s message now
  step s (timer_fired i now) = fire_timer s i now

  abbrev pub run : DataPackageSubscriber N → List Event → DataPackageSubscriber N
  run s [] = s
  run s (event ∷ events) = run (step s event) events
