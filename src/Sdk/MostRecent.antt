-- ===== src/Sdk/MostRecent.antt =====
-- request-data-packages.ts: the newest of the responses, and the state after any events.
use redstone_oracles_monorep.Prelude.{
  ℕ, ◌+◌, ◌≤◌, String, Bool, true, Option, none, some, List, [], ◌∷◌, ◌++◌, Result, ok, err,
  if_cases, length, ltb, ◌==◌, ◌&&◌, ◌||◌, not, All, ◌≡◌, ◌⊎◌, refl, ap, ◌∙◌, arith, inl, inr,
}
use redstone_oracles_monorep.Sdk.Gateways.{
  Gathering, newest_of, settle_results, check_unsettled, check_results, GatewayEvent, responded,
  refused, settled, timed_out, gather, get_the_most_recent_data_packages,
}

module _ {A : Type 0} (time_of : A → ℕ) (no_feeds : A) where
  -- The result is one of the responses, or there was none with a time above that of `{}`.
  abbrev pub IsOneOf : A → List A → Type 0
  IsOneOf response [] = ⊥
  IsOneOf response (first ∷ responses) = (response ≡ first) ⊎ IsOneOf response responses

  abbrev pub IsNewest : List A → A → Type 0
  IsNewest responses newest =
      All (λ r. time_of r ≤ time_of newest) responses
      × ((newest ≡ no_feeds) ⊎ IsOneOf newest responses)

  pub newest_of_lem :
      (responses : List A) (start : A)
      → (time_of start ≤ time_of (newest_of time_of no_feeds responses start))
        × All (λ r. time_of r ≤ time_of (newest_of time_of no_feeds responses start)) responses
        × ((newest_of time_of no_feeds responses start ≡ start)
            ⊎ IsOneOf (newest_of time_of no_feeds responses start) responses)
  newest_of_lem [] start = (omega arith, tt, inl refl)
  newest_of_lem (response ∷ responses) start =
      if_cases
        (λ (next : A).
          (time_of start ≤ time_of (newest_of time_of no_feeds responses next))
          × All (λ r. time_of r ≤ time_of (newest_of time_of no_feeds responses next))
              (response ∷ responses)
          × ((newest_of time_of no_feeds responses next ≡ start)
              ⊎ IsOneOf (newest_of time_of no_feeds responses next) (response ∷ responses)))
        (ltb (time_of start) (time_of response)) response start
        (λ newer.
          let (above, all, found) = newest_of_lem responses response in
          (ground (arith, newer, above), (above, all), inr found))
        (λ older.
          let (above, all, found) = newest_of_lem responses start in
          (
            above,
            (ground (arith, older, above), all),
            elim found [ inl same ↦ inl same | inr later ↦ inr (inr later) ],
          ))

  module _ (promises_count wait : ℕ) where
    abbrev pub state_at :
        List (GatewayEvent time_of no_feeds promises_count) → Gathering time_of no_feeds
    state_at events = get_the_most_recent_data_packages time_of no_feeds promises_count wait events

    -- The responses and the errors so far, in their order.
    abbrev pub responses_in : List (GatewayEvent time_of no_feeds promises_count) → List A
    responses_in [] = []
    responses_in (responded response ∷ events) = responses_in events ++ response ∷ []
    responses_in (refused error ∷ events) = responses_in events
    responses_in (settled ∷ events) = responses_in events
    responses_in (timed_out ∷ events) = responses_in events

    abbrev pub errors_of : List (GatewayEvent time_of no_feeds promises_count) → List String
    errors_of [] = []
    errors_of (responded response ∷ events) = errors_of events
    errors_of (refused error ∷ events) = errors_of events ++ error ∷ []
    errors_of (settled ∷ events) = errors_of events
    errors_of (timed_out ∷ events) = errors_of events

    -- The timer has fired, or there is nothing to wait for.
    abbrev pub is_timed_out_in : List (GatewayEvent time_of no_feeds promises_count) → Bool
    is_timed_out_in [] = wait == 0
    is_timed_out_in (responded response ∷ events) = is_timed_out_in events
    is_timed_out_in (refused error ∷ events) = is_timed_out_in events
    is_timed_out_in (settled ∷ events) = is_timed_out_in events
    is_timed_out_in (timed_out ∷ events) = true

    -- Why a promise is settled when responses and errors are such.
    abbrev pub IsReason : List A → List String → Bool → Result (List String) A → Type 0
    IsReason responses errors late (err thrown) =
        (length errors ≡ promises_count) × (thrown ≡ errors)
    IsReason responses errors late (ok newest) =
        IsNewest responses newest
        × ((length responses + length errors ≡ promises_count)
            ⊎ ((late ≡ true) × (1 ≤ length responses)))

    abbrev pub IsSettledBy :
        List (GatewayEvent time_of no_feeds promises_count) → Result (List String) A → Type 0
    IsSettledBy events settlement =
        IsReason (responses_in events) (errors_of events) (is_timed_out_in events) settlement

    -- What a check leaves as it was.
    abbrev SameRest : Gathering time_of no_feeds → Gathering time_of no_feeds → Type 0
    SameRest s after =
        (after.collected_responses ≡ s.collected_responses)
        × (after.collected_errors ≡ s.collected_errors)
        × (after.is_timed_out ≡ s.is_timed_out)

    settle_results-SameRest :
        (s : Gathering time_of no_feeds)
        → SameRest s (settle_results time_of no_feeds promises_count s)
    settle_results-SameRest s =
        if_cases (SameRest s) (length s.collected_errors == promises_count) _ _
          (λ _. (refl, refl, refl))
          (λ _.
            if_cases (SameRest s)
              ((length s.collected_responses + length s.collected_errors == promises_count)
                || (s.is_timed_out && not (length s.collected_responses == 0)))
              _ _ (λ _. (refl, refl, refl)) (λ _. (refl, refl, refl)))

    check_results-SameRest :
        (s : Gathering time_of no_feeds)
        → SameRest s (check_results time_of no_feeds promises_count s)
    unfolding check_results
    check_results-SameRest s = by_settlement s.settlement
      where
        by_settlement :
            (o : Option (Result (List String) A))
            → SameRest s (check_unsettled time_of no_feeds promises_count o s)
        by_settlement none = settle_results-SameRest s
        by_settlement (some settlement) = (refl, refl, refl)

    pub state_at-rest :
        (events : List (GatewayEvent time_of no_feeds promises_count))
        → ((state_at events).collected_responses ≡ responses_in events)
          × ((state_at events).collected_errors ≡ errors_of events)
          × ((state_at events).is_timed_out ≡ is_timed_out_in events)
    unfolding gather
    state_at-rest [] = (refl, refl, refl)
    state_at-rest (responded response ∷ events) =
        let (rs, es, late) = state_at-rest events in (ap (λ xs. xs ++ response ∷ []) rs, es, late)
    state_at-rest (refused error ∷ events) =
        let (rs, es, late) = state_at-rest events in (rs, ap (λ xs. xs ++ error ∷ []) es, late)
    state_at-rest (settled ∷ events) =
        let (rs, es, late) = state_at-rest events in
        let (rs1, es1, late1) = check_results-SameRest (state_at events) in
        (rs1 ∙ rs, es1 ∙ es, late1 ∙ late)
    state_at-rest (timed_out ∷ events) =
        let (rs, es, late) = state_at-rest events in
        let (rs1, es1, late1) =
          check_results-SameRest (record (state_at events) { is_timed_out = true }) in
        (rs1 ∙ rs, es1 ∙ es, late1)
