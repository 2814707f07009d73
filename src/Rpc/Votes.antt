-- ===== src/Rpc/Votes.antt =====
-- ProviderWithAgreement.ts: the map of votes counts the answers of the providers.
use redstone_oracles_monorep.Prelude.{
  ℕ, zero, suc, ◌+◌, String, Option, none, some, List, [], ◌∷◌, ◌++◌, if◌then◌else◌, leb, ◌==◌,
  str_eq, ◌≡◌, refl, ap, arith, eq_iff, Bool-cases, inl, inr,
}
use redstone_oracles_monorep.Prelude.Dict.{Dict, get, put, get-put}
use redstone_oracles_monorep.Rpc.Agreement.{
  AgreementConfig, Voting, ProviderEvent, answered, completed, failed, count_vote,
  handle_provider_result, vote_step, execute_with_agreement,
}

module _ (config : AgreementConfig) where
  -- How many providers have answered with a result.
  abbrev pub votes_for : String → List (ProviderEvent config) → ℕ
  votes_for result [] = 0
  votes_for result (answered identifier other ∷ events) =
      let votes = votes_for result events in if str_eq other result then suc votes else votes
  votes_for result (completed identifier ∷ events) = votes_for result events
  votes_for result (failed identifier error ∷ events) = votes_for result events

  -- How many providers are finished.
  abbrev pub finished_in : List (ProviderEvent config) → ℕ
  finished_in [] = 0
  finished_in (answered identifier other ∷ events) = finished_in events
  finished_in (completed identifier ∷ events) = suc (finished_in events)
  finished_in (failed identifier error ∷ events) = suc (finished_in events)

  -- The errors of the providers that failed, in the order of their failures.
  abbrev pub errors_in : List (ProviderEvent config) → List String
  errors_in [] = []
  errors_in (answered identifier other ∷ events) = errors_in events
  errors_in (completed identifier ∷ events) = errors_in events
  errors_in (failed identifier error ∷ events) = errors_in events ++ error ∷ []

  -- A result that nobody voted for has no entry.
  abbrev pub as_entry : ℕ → Option ℕ
  as_entry zero = none
  as_entry (suc n) = some (suc n)

  results-count_vote :
      (s : Voting) (result : String) (n : ℕ)
      → (count_vote config s result (as_entry n)).results ≡ put s.results result (suc n)
  results-count_vote s result zero = refl
  results-count_vote s result (suc n) =
      elim (Bool-cases (leb config.number_of_providers_that_have_to_agree (suc n + 1))) [
        | inl enough ↦ rw enough (ap (put s.results result) (omega arith))
        | inr few ↦ rw few (ap (put s.results result) (omega arith))
      ]

  results-handle_provider_result :
      (s : Voting) → (handle_provider_result config s).results ≡ s.results
  unfolding handle_provider_result
  results-handle_provider_result s =
      elim (Bool-cases (s.finished_providers_count + 1 == config.healthy_providers_count)) [
        | inl last ↦ rw last refl
        | inr more ↦ rw more refl
      ]

  -- Each object has a key once.
  abbrev pub Unique : Dict ℕ → Type 0
  Unique [] = Unit {0}
  Unique ((k, n) ∷ d) = (get d k ≡ none) × Unique d

  put-Unique : (d : Dict ℕ) (key : String) (n : ℕ) → Unique d → Unique (put d key n)
  unfolding put get
  put-Unique [] key n unique = (refl, tt)
  put-Unique ((k, m) ∷ d) key n unique = elim (Bool-cases (str_eq k key)) [
    | inl here ↦ rw here unique
    | inr there ↦ rw there (
      ground (arith, get-put d key k n, eq_iff k key, eq_iff key k, unique.0),
      put-Unique d key n unique.1,
    )
  ]

  -- The map of votes, after any events.
  pub get-results :
      (events : List (ProviderEvent config)) (result : String)
      → get (execute_with_agreement config events).results result
        ≡ as_entry (votes_for result events)
  unfolding vote_step get
  get-results [] result = refl
  get-results (answered identifier other ∷ events) result =
      let s = execute_with_agreement config events in
      rw
        (
          get-results events other,
          results-count_vote s other (votes_for other events),
          get-put s.results other result (suc (votes_for other events)),
        )
        (elim (Bool-cases (str_eq other result)) [
          | inl same ↦
              rw same (let e : other ≡ result = ground (arith, eq_iff other result) in rw e refl)
          | inr differs ↦ rw differs (get-results events result)
        ])
  get-results (completed identifier ∷ events) result =
      rw (results-handle_provider_result _) (get-results events result)
  get-results (failed identifier error ∷ events) result =
      rw (results-handle_provider_result _) (get-results events result)

  count_vote-Unique :
      (s : Voting) (result : String) (n : ℕ)
      → Unique s.results
      → Unique (count_vote config s result (as_entry n)).results
  count_vote-Unique s result n unique =
      rw (results-count_vote s result n) (put-Unique s.results result (suc n) unique)

  pub results-Unique :
      (events : List (ProviderEvent config)) → Unique (execute_with_agreement config events).results
  unfolding vote_step
  results-Unique [] = tt
  results-Unique (answered identifier other ∷ events) = rw (get-results events other) (
      count_vote-Unique (execute_with_agreement config events) other (votes_for other events)
        (results-Unique events))
  results-Unique (completed identifier ∷ events) =
      rw (results-handle_provider_result _) (results-Unique events)
  results-Unique (failed identifier error ∷ events) =
      rw (results-handle_provider_result _) (results-Unique events)
