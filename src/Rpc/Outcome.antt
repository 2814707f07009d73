-- ===== src/Rpc/Outcome.antt =====
-- ProviderWithAgreement.ts: how `executeWithAgreement` settles its promise.
use redstone_oracles_monorep.Prelude.{
  ℕ, zero, suc, ◌+◌, ◌≤◌, ◌<◌, max, String, Bool, true, false, Option, none, some, List, [], ◌∷◌,
  ◌++◌, if◌then◌else◌, leb, ◌==◌, ◌&&◌, ◌≡◌, ◌⊎◌, refl, ap, ◌∙◌, arith, Bool-cases, inl, inr,
}
use redstone_oracles_monorep.Rpc.Agreement.{
  AgreementConfig, Voting, Settlement, resolved, rejected, ProviderEvent, answered, completed,
  failed, settle, settle_insufficient, count_vote, handle_provider_result, vote_step,
  execute_with_agreement,
}
use redstone_oracles_monorep.Rpc.Votes.{as_entry, votes_for, finished_in, errors_in, get-results}
use redstone_oracles_monorep.Rpc.MostVotes.{IsMostVoted}

-- A promise that is settled, perhaps by this call.
pub settle_if :
    (b : Bool) (o : Option Settlement) (x y : Settlement)
    → (if b then settle o x else o) ≡ some y
    → (o ≡ some y) ⊎ ((b ≡ true) × (o ≡ none) × (x ≡ y))
settle_if false o x y h = inl h
settle_if true (some z) x y h = inl h
settle_if true none x y h = inr (refl, refl, (let e : x ≡ y = cc in e))

module _ (config : AgreementConfig) where
  -- At least as many equal answers as configured, and never fewer than two.
  abbrev pub IsAgreed : List (ProviderEvent config) → String → Type 0
  IsAgreed events result =
      max config.number_of_providers_that_have_to_agree 2 ≤ votes_for config result events

  -- Why a promise may be settled when the last of the events happens.
  abbrev pub IsJustified : List (ProviderEvent config) → Settlement → Type 0
  IsJustified events (resolved result) =
      IsAgreed events result
      ⊎ ((config.ignore_agreement_on_insufficient_responses ≡ true)
          × (finished_in config events ≡ config.healthy_providers_count)
          × IsMostVoted config events result)
  IsJustified events (rejected errors) =
      (finished_in config events ≡ config.healthy_providers_count)
      × (errors ≡ errors_in config events)
      × ((config.ignore_agreement_on_insufficient_responses ≡ false)
          ⊎ ((result : String) → votes_for config result events ≡ 0))
      × ((result : String)
          → votes_for config result events < max config.number_of_providers_that_have_to_agree 2)

  pub settlement-count_vote :
      (s : Voting) (result : String) (n : ℕ)
      → (count_vote config s result (as_entry config n)).settlement ≡ (
          if leb 1 n && leb config.number_of_providers_that_have_to_agree (n + 1)
          then settle s.settlement (resolved result)
          else s.settlement)
  settlement-count_vote s result zero = refl
  settlement-count_vote s result (suc n) =
      elim (Bool-cases (leb config.number_of_providers_that_have_to_agree (suc n + 1))) [
        | inl enough ↦ rw enough (let e : leb 1 (suc n) ≡ true = ground arith in rw e refl)
        | inr few ↦ rw few (let e : leb 1 (suc n) && false ≡ false = ground arith in rw e refl)
      ]

  pub settlement-handle :
      (s : Voting)
      → (handle_provider_result config s).settlement ≡ (
          if s.finished_providers_count + 1 == config.healthy_providers_count
          then settle_insufficient config s
          else s.settlement)
  unfolding handle_provider_result
  settlement-handle s =
      elim (Bool-cases (s.finished_providers_count + 1 == config.healthy_providers_count)) [
        | inl last ↦ rw last refl
        | inr more ↦ rw more refl
      ]

  finished-handle :
      (s : Voting)
      → (handle_provider_result config s).finished_providers_count ≡ s.finished_providers_count + 1
  unfolding handle_provider_result
  finished-handle s =
      elim (Bool-cases (s.finished_providers_count + 1 == config.healthy_providers_count)) [
        | inl last ↦ rw last refl
        | inr more ↦ rw more refl
      ]

  errors-handle : (s : Voting) → (handle_provider_result config s).errors ≡ s.errors
  unfolding handle_provider_result
  errors-handle s =
      elim (Bool-cases (s.finished_providers_count + 1 == config.healthy_providers_count)) [
        | inl last ↦ rw last refl
        | inr more ↦ rw more refl
      ]

  rest-count_vote :
      (s : Voting) (result : String) (n : ℕ)
      → ((count_vote config s result (as_entry config n)).finished_providers_count
          ≡ s.finished_providers_count)
        × ((count_vote config s result (as_entry config n)).errors ≡ s.errors)
  rest-count_vote s result zero = (refl, refl)
  rest-count_vote s result (suc n) =
      elim (Bool-cases (leb config.number_of_providers_that_have_to_agree (suc n + 1))) [
        | inl enough ↦ rw enough (refl, refl)
        | inr few ↦ rw few (refl, refl)
      ]

  pub finished_count :
      (events : List (ProviderEvent config))
      → (execute_with_agreement config events).finished_providers_count ≡ finished_in config events
  unfolding vote_step
  finished_count [] = refl
  finished_count (answered identifier other ∷ events) =
      rw (get-results config events other)
        ((rest-count_vote (execute_with_agreement config events) other _).0 ∙ finished_count events)
  finished_count (completed identifier ∷ events) =
      finished-handle _ ∙ omega (arith, finished_count events)
  finished_count (failed identifier error ∷ events) =
      finished-handle _ ∙ omega (arith, finished_count events)

  pub errors_count :
      (events : List (ProviderEvent config))
      → (execute_with_agreement config events).errors ≡ errors_in config events
  unfolding vote_step
  errors_count [] = refl
  errors_count (answered identifier other ∷ events) =
      rw (get-results config events other)
        ((rest-count_vote (execute_with_agreement config events) other _).1 ∙ errors_count events)
  errors_count (completed identifier ∷ events) = errors-handle _ ∙ errors_count events
  errors_count (failed identifier error ∷ events) =
      errors-handle _ ∙ ap (λ es. es ++ error ∷ []) (errors_count events)
