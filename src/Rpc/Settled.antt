-- ===== src/Rpc/Settled.antt =====
-- ProviderWithAgreement.ts: when a step settles the promise of `executeWithAgreement`.
use redstone_oracles_monorep.Prelude.{
  ℕ, zero, suc, ◌+◌, ◌<◌, max, String, Bool, true, false, Option, none, some, List, [], ◌∷◌,
  if◌then◌else◌, leb, ltb, ◌==◌, ◌&&◌, length, str_eq, ◌≡◌, ◌⊎◌, refl, sym, ap, ◌∙◌, arith, eq_iff,
  Bool-cases, inl, inr,
}
use redstone_oracles_monorep.Prelude.Dict.{Dict, get}
use redstone_oracles_monorep.Rpc.Agreement.{
  AgreementConfig, Voting, Settlement, resolved, rejected, ProviderEvent, answered, completed,
  failed, settle, resolve_most_votes, handle_provider_result, vote_step, execute_with_agreement,
  pick_response_with_most_votes,
}
use redstone_oracles_monorep.Rpc.Votes.{as_entry, votes_for, get-results}
use redstone_oracles_monorep.Rpc.Outcome.{settlement-count_vote, settlement-handle}

abbrev pub resolve_votes : Option Settlement → Option String → Option Settlement
resolve_votes o none = o
resolve_votes o (some r) = settle o (resolved r)

pub settle_if-eq-none :
    (b : Bool) (o : Option Settlement) (x : Settlement)
    → (if b then settle o x else o) ≡ none
    → (b ≡ false) × (o ≡ none)
settle_if-eq-none true none x h = cc
settle_if-eq-none true (some y) x h = cc
settle_if-eq-none false o x h = (refl, h)

-- A finished provider settles the promise at most once.
abbrev pub finish : Bool → Bool → Option Settlement → Option String → Settlement → Option Settlement
finish last ignores o picked x =
    if last then if ignores then resolve_votes o picked else settle o x else o

pub finish-eq-none :
    (last ignores : Bool) (o : Option Settlement) (picked : Option String) (x : Settlement)
    → finish last ignores o picked x ≡ none
    → o ≡ none
finish-eq-none last ignores none picked x h = refl
finish-eq-none false ignores (some y) picked x h = h
finish-eq-none true false (some y) picked x h = cc
finish-eq-none true true (some y) none x h = cc
finish-eq-none true true (some y) (some r) x h = cc

pub finish-eq-some :
    (last ignores : Bool) (o : Option Settlement) (picked : Option String) (x y : Settlement)
    → finish last ignores o picked x ≡ some y
    → (o ≡ some y)
      ⊎ ((last ≡ true)
          × (o ≡ none)
          × (((ignores ≡ true) × (r : String) × (picked ≡ some r) × (resolved r ≡ y))
              ⊎ ((ignores ≡ false) × (x ≡ y))))
finish-eq-some false ignores o picked x y h = inl h
finish-eq-some true false (some z) picked x y h = inl h
finish-eq-some true true (some z) none x y h = inl h
finish-eq-some true true (some z) (some r) x y h = inl h
finish-eq-some true false none picked x y h =
    inr (refl, refl, inr (refl, (let e : x ≡ y = cc in e)))
finish-eq-some true true none none x y h = cc
finish-eq-some true true none (some r) x y h =
    inr (refl, refl, inl (refl, r, refl, (let e : resolved r ≡ y = cc in e)))

module _ (config : AgreementConfig) where
  pub settlement-answered :
      (identifier result : String) (events : List (ProviderEvent config))
      → (execute_with_agreement config (answered identifier result ∷ events)).settlement ≡ (
          if leb 1 (votes_for config result events)
            && leb config.number_of_providers_that_have_to_agree
                (votes_for config result events + 1)
          then settle (execute_with_agreement config events).settlement (resolved result)
          else (execute_with_agreement config events).settlement)
  unfolding vote_step
  settlement-answered identifier result events = rw (get-results config events result) (
      settlement-count_vote config (execute_with_agreement config events) result
        (votes_for config result events))

  resolve_most_votes-resolve_votes :
      (o : Option Settlement) (picked : Option String)
      → resolve_most_votes config o picked ≡ resolve_votes o picked
  resolve_most_votes-resolve_votes o none = refl
  resolve_most_votes-resolve_votes o (some r) = refl

  abbrev pub is_last : Voting → Bool
  is_last s = s.finished_providers_count + 1 == config.healthy_providers_count

  abbrev pub takes_most_votes : Voting → Bool
  takes_most_votes s = config.ignore_agreement_on_insufficient_responses && ltb 0 (length s.results)

  pub settlement-finish :
      (s : Voting)
      → (handle_provider_result config s).settlement
        ≡ finish
            (s.finished_providers_count + 1 == config.healthy_providers_count)
            (config.ignore_agreement_on_insufficient_responses && ltb 0 (length s.results))
            s.settlement
            (pick_response_with_most_votes s.results)
            (rejected s.errors)
  settlement-finish s =
      settlement-handle config s
      ∙ rw (resolve_most_votes-resolve_votes s.settlement (pick_response_with_most_votes s.results))
          refl

  pub handle-unsettled :
      (s : Voting) → (handle_provider_result config s).settlement ≡ none → s.settlement ≡ none
  handle-unsettled s h =
      finish-eq-none (is_last s) (takes_most_votes s) s.settlement
        (pick_response_with_most_votes s.results) (rejected s.errors)
        (sym (settlement-finish s) ∙ h)

  -- While the promise is not settled no result has enough votes.
  pub votes-unsettled :
      (events : List (ProviderEvent config)) (result : String)
      → (execute_with_agreement config events).settlement ≡ none
      → votes_for config result events < max config.number_of_providers_that_have_to_agree 2
  unfolding vote_step
  votes-unsettled [] result h = omega arith
  votes-unsettled (answered identifier other ∷ events) result h =
      let step = sym (settlement-answered identifier other events) ∙ h in
      let (few, before) =
        settle_if-eq-none _ (execute_with_agreement config events).settlement (resolved other)
          step in
      let rest = votes-unsettled events result before in
      let fewer : votes_for config other events + 1
          < max config.number_of_providers_that_have_to_agree 2 =
        ground (arith, few) in
      elim (Bool-cases (str_eq other result)) [
        | inl same ↦
            let e : other ≡ result = ground (arith, eq_iff other result) in
            rw same (
              let k : votes_for config result events + 1
                  < max config.number_of_providers_that_have_to_agree 2 =
                rw (← e) fewer in
              omega (arith, k))
        | inr differs ↦ rw differs rest
      ]
  votes-unsettled (completed identifier ∷ events) result h =
      votes-unsettled events result (handle-unsettled _ h)
  votes-unsettled (failed identifier error ∷ events) result h =
      votes-unsettled events result (handle-unsettled _ h)

  -- There are votes, or no result has one.
  pub no_votes-votes_for :
      (events : List (ProviderEvent config)) (d : Dict ℕ) (result : String)
      → (execute_with_agreement config events).results ≡ d
      → ltb 0 (length d) ≡ false
      → votes_for config result events ≡ 0
  unfolding get
  no_votes-votes_for events [] result e h =
      as_entry-eq-none (votes_for config result events)
        (sym (get-results config events result) ∙ ap (λ d. get d result) e)
    where
      as_entry-eq-none : (votes : ℕ) → as_entry config votes ≡ none → votes ≡ 0
      as_entry-eq-none zero h = refl
      as_entry-eq-none (suc votes) h = cc
  no_votes-votes_for events (entry ∷ d) result e h = absurd (ground (arith, h))
