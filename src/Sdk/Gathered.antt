-- ===== src/Sdk/Gathered.antt =====
-- request-data-packages.ts: how `getTheMostRecentDataPackages` settles its promise.
use redstone_oracles_monorep.Prelude.{
  ℕ, ◌+◌, ◌≤◌, String, true, Option, none, some, List, [], ◌∷◌, ◌++◌, Result, ok, err, if_cases,
  length, ◌==◌, ◌&&◌, ◌||◌, not, ◌≡◌, ◌≢◌, ◌⊎◌, refl, ap, arith, Bool-cases, inl, inr,
}
use redstone_oracles_monorep.Sdk.Gateways.{
  Gathering, newest_of, settle_results, check_unsettled, check_results, GatewayEvent, responded,
  refused, settled, timed_out, gather, get_the_most_recent_data_packages,
}
use redstone_oracles_monorep.Sdk.MostRecent.{
  newest_of_lem, responses_in, errors_of, IsReason, IsSettledBy, state_at-rest,
}

module _ {A : Type 0} (time_of : A → ℕ) (no_feeds : A) (promises_count wait : ℕ) where
  abbrev HasReason : Gathering time_of no_feeds → Result (List String) A → Type 0
  HasReason s settlement =
      IsReason time_of no_feeds promises_count wait s.collected_responses s.collected_errors
        s.is_timed_out settlement

  when_ready :
      (s : Gathering time_of no_feeds)
      → ((length s.collected_responses + length s.collected_errors == promises_count)
          || (s.is_timed_out && not (length s.collected_responses == 0)))
        ≡ true
      → (length s.collected_responses + length s.collected_errors ≡ promises_count)
        ⊎ ((s.is_timed_out ≡ true) × (1 ≤ length s.collected_responses))
  when_ready s ready =
      elim (Bool-cases
        (length s.collected_responses + length s.collected_errors == promises_count)) [
          | inl all ↦ inl (ground (arith, all))
          | inr some_left ↦ inr (ground (arith, ready, some_left), ground (arith, ready, some_left))
        ]

  settle_results-IsReason :
      (s : Gathering time_of no_feeds) (settlement : Result (List String) A)
      → s.settlement ≡ none
      → (settle_results time_of no_feeds promises_count s).settlement ≡ some settlement
      → HasReason s settlement
  settle_results-IsReason s settlement unsettled h =
      if_cases
        (λ (after : Gathering time_of no_feeds).
          after.settlement ≡ some settlement → HasReason s settlement)
        (length s.collected_errors == promises_count) _ _
        (λ all_failed e.
          let same : ◌≡◌ {A = Result (List String) A} (err s.collected_errors) settlement = cc in
          rw (← same) (ground (arith, all_failed), refl))
        (λ some_left e.
          if_cases
            (λ (after : Gathering time_of no_feeds).
              after.settlement ≡ some settlement → HasReason s settlement)
            ((length s.collected_responses + length s.collected_errors == promises_count)
              || (s.is_timed_out && not (length s.collected_responses == 0)))
            _ _
            (λ ready e.
              let same : ok (newest_of time_of no_feeds s.collected_responses no_feeds)
                  ≡ settlement =
                cc in
              let (above, all, found) =
                newest_of_lem time_of no_feeds s.collected_responses no_feeds in
              rw (← same) ((all, found), when_ready s ready))
            (λ waiting e. cc) e)
        h

  check_results-HasReason :
      (s : Gathering time_of no_feeds) (settlement : Result (List String) A)
      → (check_results time_of no_feeds promises_count s).settlement ≡ some settlement
      → (s.settlement ≡ some settlement) ⊎ HasReason s settlement
  unfolding check_results
  check_results-HasReason s settlement h = by_settlement s.settlement refl h
    where
      by_settlement :
          (o : Option (Result (List String) A))
          → s.settlement ≡ o
          → (check_unsettled time_of no_feeds promises_count o s).settlement ≡ some settlement
          → (s.settlement ≡ some settlement) ⊎ HasReason s settlement
      by_settlement none e h = inr (settle_results-IsReason s settlement e h)
      by_settlement (some y) e h = inl h

  step-IsSettledBy :
      (event : GatewayEvent time_of no_feeds promises_count)
      (events : List (GatewayEvent time_of no_feeds promises_count))
      (settlement : Result (List String) A)
      → (get_the_most_recent_data_packages time_of no_feeds promises_count wait
          (event ∷ events)).settlement
        ≡ some settlement
      → ((get_the_most_recent_data_packages time_of no_feeds promises_count wait events).settlement
          ≡ some settlement)
        ⊎ IsSettledBy time_of no_feeds promises_count wait (event ∷ events) settlement
  unfolding gather
  step-IsSettledBy (responded response) events settlement h = inl h
  step-IsSettledBy (refused error) events settlement h = inl h
  step-IsSettledBy settled events settlement h =
      let (rs, es, late) = state_at-rest time_of no_feeds promises_count wait events in
      elim (check_results-HasReason _ settlement h) [
        | inl before ↦ inl before
        | inr why ↦ inr (rw (← rs, ← es, ← late) why)
      ]
  step-IsSettledBy timed_out events settlement h =
      let (rs, es, late) = state_at-rest time_of no_feeds promises_count wait events in
      elim (check_results-HasReason _ settlement h) [
        | inl before ↦ inl before
        | inr why ↦ inr (rw (← rs, ← es) why)
      ]

  -- Whatever the order of answers, errors, checks and the timer: the promise is resolved with a newest
  -- response, none of those collected being newer, and only when all gateways are done or when the time
  -- is over and there is a response; it is rejected, with all their errors, only when all have failed.
  pub get_the_most_recent_data_packages-IsSettledBy :
      (events : List (GatewayEvent time_of no_feeds promises_count))
      (settlement : Result (List String) A)
      → (get_the_most_recent_data_packages time_of no_feeds promises_count wait events).settlement
        ≡ some settlement
      → (later : List (GatewayEvent time_of no_feeds promises_count)) × (earlier : List
          (GatewayEvent time_of no_feeds promises_count))
        × (later ++ earlier ≡ events)
        × IsSettledBy time_of no_feeds promises_count wait earlier settlement
  get_the_most_recent_data_packages-IsSettledBy [] settlement h = cc
  get_the_most_recent_data_packages-IsSettledBy (event ∷ events) settlement h =
      elim (step-IsSettledBy event events settlement h) [
        | inl before ↦
            let (later, earlier, whole, why) =
              get_the_most_recent_data_packages-IsSettledBy events settlement before in
            (event ∷ later, earlier, ap (λ es. event ∷ es) whole, why)
        | inr now ↦ ([], event ∷ events, refl, now)
      ]

  settle_results-done :
      (s : Gathering time_of no_feeds)
      → length s.collected_responses + length s.collected_errors ≡ promises_count
      → (settle_results time_of no_feeds promises_count s).settlement ≢ none
  settle_results-done s total =
      if_cases (λ (after : Gathering time_of no_feeds). after.settlement ≢ none)
        (length s.collected_errors == promises_count) _ _ (λ all_failed e. cc)
        (λ some_left.
          if_cases (λ (after : Gathering time_of no_feeds). after.settlement ≢ none)
            ((length s.collected_responses + length s.collected_errors == promises_count)
              || (s.is_timed_out && not (length s.collected_responses == 0)))
            _ _ (λ ready e. cc) (λ waiting. absurd (ground (arith, waiting, total))))

  check_results-done :
      (s : Gathering time_of no_feeds)
      → length s.collected_responses + length s.collected_errors ≡ promises_count
      → (check_results time_of no_feeds promises_count s).settlement ≢ none
  unfolding check_results
  check_results-done s total = by_settlement s.settlement refl
    where
      by_settlement :
          (o : Option (Result (List String) A))
          → s.settlement ≡ o
          → (check_unsettled time_of no_feeds promises_count o s).settlement ≢ none
      by_settlement none e h = settle_results-done s total h
      by_settlement (some y) e h = let k : some y ≡ none = rw (← h) (rw e refl) in cc

  -- When all gateways have answered or failed, the check that follows has the promise settled.
  pub get_the_most_recent_data_packages_settles :
      (events : List (GatewayEvent time_of no_feeds promises_count))
      → length (responses_in time_of no_feeds promises_count wait events)
          + length (errors_of time_of no_feeds promises_count wait events)
        ≡ promises_count
      → (get_the_most_recent_data_packages time_of no_feeds promises_count wait
          (settled ∷ events)).settlement
        ≢ none
  unfolding gather
  get_the_most_recent_data_packages_settles events total =
      let (rs, es, late) = state_at-rest time_of no_feeds promises_count wait events in
      check_results-done
        (get_the_most_recent_data_packages time_of no_feeds promises_count wait events)
        (rw (rs, es) total)
