-- ===== src/Mqtt/Subscriber/Refinement.antt =====
-- DataPackageSubscriber.ts: a subscriber without a fallback implements the contract.
use redstone_oracles_monorep.Prelude.{
  ℕ, zero, suc, ◌-◌, true, Option, none, some, List, [], ◌∷◌, ok, ◌>>◌, >>=-eq-ok, ok_injective,
  guard, leb, not, ◌==◌, if_both, length, All, ◌≡◌, refl, arith,
}
use redstone_oracles_monorep.Relayer.Config.{Numbers, DataPackagesResponse}
use redstone_oracles_monorep.Mqtt.FeedState.{LastPublishedFeedState, last_published_feed_state}
use redstone_oracles_monorep.Mqtt.CircuitBreaker.{RateLimitsCircuitBreaker}
use redstone_oracles_monorep.Mqtt.Subscriber.State.{
  initial_state, Outcome, DataPackageSubscriber, DataPackageSubscriberParams, Timer, new_subscriber,
  max_package_staleness, no_authorized_signer, too_few_authorized_signers, unique_above_minimal,
}
use redstone_oracles_monorep.Mqtt.Subscriber.Events.{
  Event, Message, broken, payload, subscribed, received, timer_fired, on_message,
  handle_circuit_breaker, break_circuit, timer_at, without_timer, run_timer, fire_timer,
  subscribe_to_topics, step, run,
}
use redstone_oracles_monorep.Mqtt.Subscriber.Contract.{Allowed, nothing}
use redstone_oracles_monorep.Mqtt.Subscriber.Soundness.{Meaning, IsEntry, IsSound, Sound}
use redstone_oracles_monorep.Mqtt.Subscriber.SoundPublish.{publish_packages-Sound}
use redstone_oracles_monorep.Mqtt.Subscriber.SoundReceive.{process_new_package-Sound}

module _ (N : Numbers) (params : DataPackageSubscriberParams)
    (initial : LastPublishedFeedState) where
  add_callback-IsSound :
      (s : DataPackageSubscriber N) (m : Meaning)
      → IsSound N params initial s m
      → IsSound N params initial (record s { has_callback = true }) m
  add_callback-IsSound s m sound = record {
    same = sound.same;
    accepted = sound.accepted;
    distinct = sound.distinct;
    typed = sound.typed;
    mapped = sound.mapped;
    waiting = sound.waiting;
    allowed = sound.allowed;
  }

  handle_circuit_breaker-IsSound :
      (s : DataPackageSubscriber N) (m : Meaning) (breaker : Option RateLimitsCircuitBreaker)
      (now : ℕ)
      → IsSound N params initial s m
      → IsSound N params initial (break_circuit N s breaker now) m
  handle_circuit_breaker-IsSound s m none now sound = sound
  handle_circuit_breaker-IsSound s m (some breaker) now sound = record {
    same = sound.same;
    accepted = sound.accepted;
    distinct = sound.distinct;
    typed = sound.typed;
    mapped = sound.mapped;
    waiting = sound.waiting;
    allowed = sound.allowed;
  }

  on_message-Sound :
      (s : DataPackageSubscriber N) (m : Meaning) (message : Message N) (now : ℕ)
      → IsSound N params initial s m
      → Sound N params initial (on_message N s message now)
  unfolding on_message handle_circuit_breaker
  on_message-Sound s m broken now sound =
      (m, handle_circuit_breaker-IsSound s m s.circuit_breaker now sound)
  on_message-Sound s m (payload content) now sound =
      process_new_package-Sound N params initial (break_circuit N s s.circuit_breaker now) m content
        now (handle_circuit_breaker-IsSound s m s.circuit_breaker now sound)

  module _ (s : DataPackageSubscriber N) (m : Meaning) where
    All-without_timer :
        (timers : List Timer) (i : ℕ)
        → All (λ timer. IsEntry N s m timer.timestamp timer.entry) timers
        → All (λ timer. IsEntry N s m timer.timestamp timer.entry) (without_timer N timers i)
    All-without_timer [] i all = tt
    All-without_timer (timer ∷ timers) zero all = all.1
    All-without_timer (timer ∷ timers) (suc i) all = (all.0, All-without_timer timers i all.1)

    timer_at-IsEntry :
        (timers : List Timer) (i : ℕ) (timer : Timer)
        → timer_at N timers i ≡ some timer
        → All (λ timer. IsEntry N s m timer.timestamp timer.entry) timers
        → IsEntry N s m timer.timestamp timer.entry
    timer_at-IsEntry [] i timer h all = cc
    timer_at-IsEntry (first ∷ timers) zero timer h all =
        let e : first ≡ timer = cc in rw (← e) all.0
    timer_at-IsEntry (first ∷ timers) (suc i) timer h all = timer_at-IsEntry timers i timer h all.1

    run_timer-Sound :
        (i : ℕ) (found : Option Timer) (now : ℕ)
        → timer_at N s.timers i ≡ found
        → IsSound N params initial s m
        → Sound N params initial (run_timer N s i found now)
    run_timer-Sound i none now h sound = (m, sound)
    run_timer-Sound i (some timer) now h sound =
        let fired : IsSound N params initial (record s { timers = without_timer N s.timers i }) m =
          record {
            same = sound.same;
            accepted = sound.accepted;
            distinct = sound.distinct;
            typed = sound.typed;
            mapped = sound.mapped;
            waiting = All-without_timer s.timers i sound.waiting;
            allowed = sound.allowed;
          } in
        if_both (Sound N params initial) (leb timer.due now) _ _
          (publish_packages-Sound N params initial
            (record s { timers = without_timer N s.timers i }) m timer.entry timer.timestamp now
            fired (timer_at-IsEntry s.timers i timer h sound.waiting))
          (m, sound)

  -- Each event keeps the invariant.
  step-Sound :
      (s : DataPackageSubscriber N) (event : Event N)
      → Sound N params initial s
      → Sound N params initial (step N s event)
  unfolding step subscribe_to_topics fire_timer
  step-Sound s (subscribed answer) (m, sound) =
      if_both (λ (outcome : Outcome N). Sound N params initial outcome.0) s.has_callback _ _
        (m, sound) (m, add_callback-IsSound s m sound)
  step-Sound s (received message now) (m, sound) = on_message-Sound s m message now sound
  step-Sound s (timer_fired i now) (m, sound) =
      run_timer-Sound s m i (timer_at N s.timers i) now refl sound

  run-Sound :
      (s : DataPackageSubscriber N) (events : List (Event N))
      → Sound N params initial s
      → Sound N params initial (run N s events)
  run-Sound s [] sound = sound
  run-Sound s (event ∷ events) sound = run-Sound (step N s event) events (step-Sound s event sound)

Allowed-params :
    (N : Numbers) (initial : LastPublishedFeedState) {last : LastPublishedFeedState}
    {log : List (DataPackagesResponse N)} (params params1 : DataPackageSubscriberParams)
    → params ≡ params1
    → Allowed N params initial last log
    → Allowed N params1 initial last log
Allowed-params N initial params params1 same allowed = rw (← same) allowed

module _ (N : Numbers) where
  new_subscriber-Sound :
      (params : DataPackageSubscriberParams) (now : ℕ) (s : DataPackageSubscriber N)
      → new_subscriber N params now ≡ ok s
      → Sound N params
          (last_published_feed_state params.data_package_ids (now - max_package_staleness))
          s
  unfolding new_subscriber
  new_subscriber-Sound params now s h =
      let (_, _, h1) =
        >>=-eq-ok
          (guard (not (length params.authorized_signers == 0)) no_authorized_signer
            >> guard (leb params.unique_signers_count (length params.authorized_signers))
                too_few_authorized_signers
            >> guard (leb params.unique_signers_count params.minimal_off_chain_signers_count)
                unique_above_minimal)
          (λ _. ok (initial_state N params now)) h in
      let e : initial_state N params now ≡ s = ok_injective h1 in
      rw (← e) (
        record { entry_time = λ _. 0; array_time = λ _. 0; array_feed = λ _. "" },
        record {
          same = refl;
          accepted = λ a. tt;
          distinct = λ a signer. omega arith;
          typed = λ e. tt;
          mapped = tt;
          waiting = tt;
          allowed = nothing;
        },
      )

  -- A subscriber refines the contract: whatever messages come, in any order, and whatever timers are
  -- called, the calls of the callback since the constructor, and the times noted for the feeds, are
  -- those of a run of the contract's machine. It publishes only responses in which each feed has as
  -- many packages as configured, all of one time and newer than the last publication of the feed,
  -- each of another authorized signer, and chosen by `pickDataFeedPackagesClosestToMedian` from at
  -- least `minimalOffChainSignersCount` packages of that feed and time, each of another authorized
  -- signer. There is no fallback, and the callback returns.
  pub run-Allowed :
      (params : DataPackageSubscriberParams) (now : ℕ) (s : DataPackageSubscriber N)
      (events : List (Event N))
      → new_subscriber N params now ≡ ok s
      → Allowed N params
          (last_published_feed_state params.data_package_ids (now - max_package_staleness))
          (run N s events).last_published_state
          (run N s events).published
  run-Allowed params now s events h =
      let initial =
        last_published_feed_state params.data_package_ids (now - max_package_staleness) in
      let (m, sound) = run-Sound N params initial s events (new_subscriber-Sound params now s h) in
      Allowed-params N initial (run N s events).params params sound.same sound.allowed
