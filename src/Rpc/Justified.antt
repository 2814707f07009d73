-- ===== src/Rpc/Justified.antt =====
-- ProviderWithAgreement.ts: the promise of `executeWithAgreement` is settled for a reason, and is settled
-- once all providers are finished.
use redstone_oracles_monorep.Prelude.{
  suc, ◌+◌, String, true, false, some, List, [], ◌∷◌, ◌++◌, leb, ◌&&◌, str_eq, ◌≡◌, ◌⊎◌, refl, sym,
  ap, ◌∙◌, arith, eq_iff, Bool-cases, inl, inr,
}
use redstone_oracles_monorep.Rpc.Agreement.{
  AgreementConfig, Voting, Settlement, resolved, rejected, ProviderEvent, answered, completed,
  failed, handle_provider_result, vote_step, execute_with_agreement, pick_response_with_most_votes,
}
use redstone_oracles_monorep.Rpc.Votes.{votes_for, finished_in, errors_in}
use redstone_oracles_monorep.Rpc.MostVotes.{IsMostVoted, pick_response-IsMostVoted}
use redstone_oracles_monorep.Rpc.Outcome.{IsJustified, settle_if, finished_count, errors_count}
use redstone_oracles_monorep.Rpc.Settled.{
  finish-eq-some, settlement-finish, is_last, takes_most_votes, votes-unsettled, no_votes-votes_for,
  settlement-answered,
}

module _ (config : AgreementConfig) where
  -- What a finished provider adds to the state, and what settling then says of the votes.
  handle-IsJustified :
      (events : List (ProviderEvent config)) (event : ProviderEvent config) (s : Voting)
      (settlement : Settlement)
      → s.results ≡ (execute_with_agreement config events).results
      → s.settlement ≡ (execute_with_agreement config events).settlement
      → s.finished_providers_count ≡ finished_in config events
      → s.errors ≡ errors_in config (event ∷ events)
      → finished_in config (event ∷ events) ≡ suc (finished_in config events)
      → ((result : String)
          → votes_for config result (event ∷ events) ≡ votes_for config result events)
      → (handle_provider_result config s).settlement ≡ some settlement
      → ((execute_with_agreement config events).settlement ≡ some settlement)
        ⊎ IsJustified config (event ∷ events) settlement
  handle-IsJustified events event s settlement results before finished errors counted votes h =
      elim (finish-eq-some (is_last config s) (takes_most_votes config s) s.settlement
        (pick_response_with_most_votes s.results) (rejected s.errors) settlement
        (sym (settlement-finish config s) ∙ h)) [
          | inl earlier ↦ inl (sym before ∙ earlier)
          | inr (last, unsettled, inl (lenient, result, picked, named)) ↦ inr (
              rw (← named) (
                inr (
                  ground (arith, lenient),
                  ground (arith, last, finished, counted),
                  most_voted result
                      (pick_response-IsMostVoted config events result (rw (← results) picked)),
                )))
          | inr (last, unsettled, inr (strict, named)) ↦ inr (
              rw (← named) (
                ground (arith, last, finished, counted),
                errors,
                lenient_or_empty strict,
                (λ result.
                    rw (votes result)
                      (votes-unsettled config events result (sym before ∙ unsettled))),
              ))
        ]
    where
      most_voted :
          (result : String)
          → IsMostVoted config events result
          → IsMostVoted config (event ∷ events) result
      most_voted result (some_vote, most) =
          (rw (votes result) some_vote, (λ other. rw (votes other, votes result) (most other)))

      lenient_or_empty :
          takes_most_votes config s ≡ false
          → (config.ignore_agreement_on_insufficient_responses ≡ false)
            ⊎ ((result : String) → votes_for config result (event ∷ events) ≡ 0)
      lenient_or_empty strict =
          elim (Bool-cases config.ignore_agreement_on_insufficient_responses) [
            | inl lenient ↦ inr (λ result.
                votes result
                ∙ no_votes-votes_for config events s.results result (sym results)
                    (ground (arith, strict, lenient)))
            | inr never ↦ inl never
          ]

  answered-IsJustified :
      (identifier result : String) (events : List (ProviderEvent config)) (settlement : Settlement)
      → (execute_with_agreement config (answered identifier result ∷ events)).settlement
        ≡ some settlement
      → ((execute_with_agreement config events).settlement ≡ some settlement)
        ⊎ IsJustified config (answered identifier result ∷ events) settlement
  answered-IsJustified identifier result events settlement h =
      elim (settle_if
        (leb 1 (votes_for config result events)
          && leb config.number_of_providers_that_have_to_agree (votes_for config result events + 1))
        (execute_with_agreement config events).settlement (resolved result) settlement
        (sym (settlement-answered config identifier result events) ∙ h)) [
          | inl earlier ↦ inl earlier
          | inr (enough, unsettled, named) ↦
              let again : str_eq result result ≡ true = ground (arith, eq_iff result result) in
              inr (rw (← named) (inl (rw again (ground (arith, enough)))))
        ]

  step-IsJustified :
      (event : ProviderEvent config) (events : List (ProviderEvent config))
      (settlement : Settlement)
      → (execute_with_agreement config (event ∷ events)).settlement ≡ some settlement
      → ((execute_with_agreement config events).settlement ≡ some settlement)
        ⊎ IsJustified config (event ∷ events) settlement
  unfolding vote_step
  step-IsJustified (answered identifier result) events settlement h =
      answered-IsJustified identifier result events settlement h
  step-IsJustified (completed identifier) events settlement h =
      handle-IsJustified events (completed identifier) _ settlement refl refl
        (finished_count config events) (errors_count config events) refl (λ _. refl) h
  step-IsJustified (failed identifier error) events settlement h =
      handle-IsJustified events (failed identifier error) _ settlement refl refl
        (finished_count config events) (ap (λ es. es ++ error ∷ []) (errors_count config events))
        refl (λ _. refl) h

  -- A promise is settled for a reason that held at some moment, in any interleaving of the providers.
  -- It is resolved with a result that at least as many providers have given as have to agree, and at
  -- least two; or, if the option allows it and all providers have finished, with a result that no
  -- other one has more votes than. It is rejected, with the errors of the providers, when all have
  -- finished and no result has that many votes, and only if the option is off or nobody has
  -- answered.
  pub execute_with_agreement-IsJustified :
      (events : List (ProviderEvent config)) (settlement : Settlement)
      → (execute_with_agreement config events).settlement ≡ some settlement
      → (later : List (ProviderEvent config)) × (earlier : List (ProviderEvent config)) × (later
            ++ earlier
          ≡ events)
        × IsJustified config earlier settlement
  execute_with_agreement-IsJustified [] settlement h = cc
  execute_with_agreement-IsJustified (event ∷ events) settlement h =
      elim (step-IsJustified event events settlement h) [
        | inl before ↦
            let (later, earlier, whole, justified) =
              execute_with_agreement-IsJustified events settlement before in
            (event ∷ later, earlier, ap (λ es. event ∷ es) whole, justified)
        | inr now ↦ ([], event ∷ events, refl, now)
      ]
