-- ===== src/Rpc/Finished.antt =====
-- ProviderWithAgreement.ts: the promise of `executeWithAgreement` is settled once all providers are
-- finished.
use redstone_oracles_monorep.Prelude.{
  ℕ, suc, ◌+◌, ◌≤◌, String, Bool, true, false, Option, none, some, List, [], ◌∷◌, leb, ltb, ◌&&◌,
  length, ◌≡◌, ◌≢◌, refl, sym, ◌∙◌, arith, Bool-cases, inl, inr,
}
use redstone_oracles_monorep.Prelude.Dict.{Dict}
use redstone_oracles_monorep.Rpc.Agreement.{
  AgreementConfig, Voting, Settlement, resolved, rejected, ProviderEvent, answered, completed,
  failed, handle_provider_result, vote_step, execute_with_agreement, pick_response_with_most_votes,
}
use redstone_oracles_monorep.Rpc.Votes.{votes_for, finished_in}
use redstone_oracles_monorep.Rpc.Outcome.{finished_count}
use redstone_oracles_monorep.Rpc.Settled.{
  settlement-finish, is_last, takes_most_votes, settlement-answered, finish, handle-unsettled,
  settle_if-eq-none,
}

-- The last provider leaves the promise open only if there is nothing to pick.
finish-last :
    (last ignores : Bool) (o : Option Settlement) (picked : Option String) (x : Settlement)
    → last ≡ true
    → o ≡ none
    → finish last ignores o picked x ≡ none
    → (ignores ≡ true) × (picked ≡ none)
finish-last false ignores o picked x l e h = cc
finish-last true ignores (some y) picked x l e h = cc
finish-last true false none picked x l e h = cc
finish-last true true none none x l e h = (refl, refl)
finish-last true true none (some r) x l e h = cc

pick-nonempty : (d : Dict ℕ) → ltb 0 (length d) ≡ true → pick_response_with_most_votes d ≢ none
unfolding pick_response_with_most_votes
pick-nonempty [] h k = absurd (ground (arith, h))
pick-nonempty (entry ∷ d) h k = cc

module _ (config : AgreementConfig) where
  handle-last :
      (s : Voting)
      → is_last config s ≡ true
      → s.settlement ≡ none
      → (handle_provider_result config s).settlement ≢ none
  handle-last s last unsettled h =
      let (takes, nothing_picked) =
        finish-last (is_last config s) (takes_most_votes config s) s.settlement
          (pick_response_with_most_votes s.results) (rejected s.errors) last unsettled
          (sym (settlement-finish config s) ∙ h) in
      pick-nonempty s.results (ground (arith, takes)) nothing_picked

  -- One more finished provider, if the claim holds before it.
  handle_settles :
      (s : Voting) (finished : ℕ)
      → s.finished_providers_count ≡ finished
      → config.healthy_providers_count ≤ suc finished
      → (config.healthy_providers_count ≤ finished → s.settlement ≢ none)
      → (handle_provider_result config s).settlement ≢ none
  handle_settles s finished counted enough before h =
      let unsettled = handle-unsettled config s h in
      elim (Bool-cases (leb config.healthy_providers_count finished)) [
        | inl already ↦ before (ground (arith, already)) unsettled
        | inr last ↦ handle-last s (ground (arith, last, counted, enough)) unsettled h
      ]

  -- Once all providers have finished, if there is one, the promise is settled, in any interleaving.
  pub execute_with_agreement_settles :
      (events : List (ProviderEvent config))
      → 1 ≤ config.healthy_providers_count
      → config.healthy_providers_count ≤ finished_in config events
      → (execute_with_agreement config events).settlement ≢ none
  unfolding vote_step
  execute_with_agreement_settles [] some_provider enough h = absurd (omega arith)
  execute_with_agreement_settles (answered identifier result ∷ events) some_provider enough h =
      execute_with_agreement_settles events some_provider enough
        (settle_if-eq-none
          (leb 1 (votes_for config result events)
            && leb config.number_of_providers_that_have_to_agree
                (votes_for config result events + 1))
          (execute_with_agreement config events).settlement (resolved result)
          (sym (settlement-answered config identifier result events) ∙ h)).1
  execute_with_agreement_settles (completed identifier ∷ events) some_provider enough h =
      handle_settles _ (finished_in config events) (finished_count config events) enough
        (λ k. execute_with_agreement_settles events some_provider k) h
  execute_with_agreement_settles (failed identifier error ∷ events) some_provider enough h =
      handle_settles _ (finished_in config events) (finished_count config events) enough
        (λ k. execute_with_agreement_settles events some_provider k) h
