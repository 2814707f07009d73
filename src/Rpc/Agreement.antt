-- ===== src/Rpc/Agreement.antt =====
-- ProviderWithAgreement.ts: `executeWithAgreement`. The operations run concurrently, so what happens
-- to the shared state is a sequence of events in any order.
use redstone_oracles_monorep.Prelude.{
  ℕ, zero, suc, ◌+◌, String, Bool, true, false, Option, none, some, List, [], ◌∷◌, ◌++◌,
  if◌then◌else◌, leb, ltb, ◌==◌, ◌&&◌, length,
}
use redstone_oracles_monorep.Prelude.Dict.{Dict, get, put}

-- The part of the configuration that is read, and the number of healthy providers.
pub record AgreementConfig : Type 0 where
  pub number_of_providers_that_have_to_agree : ℕ
  pub ignore_agreement_on_insufficient_responses : Bool
  pub healthy_providers_count : ℕ

-- How the promise is settled; an error is a text.
pub data Settlement : Type 0 where
  resolved : String → Settlement
  rejected : List String → Settlement

pub record Voting : Type 0 where
  pub errors : List String
  pub results : Dict ℕ
  pub global_abort : Bool
  pub finished_providers_count : ℕ
  pub settlement : Option Settlement
  -- The calls of `updateScore`.
  pub scores : List (String × Bool)

abbrev pub no_votes : Voting
no_votes = record {
  errors = [];
  results = [];
  global_abort = false;
  finished_providers_count = 0;
  settlement = none;
  scores = [];
}

-- Settling a settled promise has no effect.
abbrev pub settle : Option Settlement → Settlement → Option Settlement
settle none settlement = some settlement
settle (some first) settlement = some first

-- `_.maxBy` on the entries: the first one with the most votes, `best` so far.
abbrev pub max_by_votes : Dict ℕ → String × ℕ → String × ℕ
max_by_votes [] best = best
max_by_votes ((result, votes) ∷ entries) best =
    max_by_votes entries (if ltb best.1 votes then (result, votes) else best)

unfoldable pub pick_response_with_most_votes : Dict ℕ → Option String
pick_response_with_most_votes [] = none
pick_response_with_most_votes (first ∷ entries) = some (max_by_votes entries first).0

module _ (config : AgreementConfig) where
  -- `executeOperation`, from the answer of the provider on; zero votes are falsy.
  abbrev pub count_vote : Voting → String → Option ℕ → Voting
  count_vote s result none = record s { results = put s.results result 1 }
  count_vote s result (some zero) = record s { results = put s.results result 1 }
  count_vote s result (some (suc votes)) =
      let counted = record s { results = put s.results result (suc votes + 1) } in
      if leb config.number_of_providers_that_have_to_agree (suc votes + 1)
      then record counted {
        global_abort = true;
        settlement = settle s.settlement (resolved result);
      }
      else counted

  -- `resolve(pickResponseWithMostVotes(results))`, which throws on no results.
  abbrev pub resolve_most_votes : Option Settlement → Option String → Option Settlement
  resolve_most_votes settlement none = settlement
  resolve_most_votes settlement (some result) = settle settlement (resolved result)

  abbrev pub settle_insufficient : Voting → Option Settlement
  settle_insufficient s =
      if config.ignore_agreement_on_insufficient_responses && ltb 0 (length s.results)
      then resolve_most_votes s.settlement (pick_response_with_most_votes s.results)
      else settle s.settlement (rejected s.errors)

  unfoldable pub handle_provider_result : Voting → Voting
  handle_provider_result s =
      let finished = s.finished_providers_count + 1 in
      let last = record s {
        finished_providers_count = finished;
        global_abort = true;
        settlement = settle_insufficient s;
      } in
      if finished == config.healthy_providers_count
      then last
      else record s { finished_providers_count = finished }

  -- The parts of `executeOperationOnProvider` that run without interruption: the vote of a provider
  -- that has answered, what follows it after the awaits, and what follows an error.
  pub data ProviderEvent : Type 0 where
    answered : String → String → ProviderEvent
    completed : String → ProviderEvent
    failed : String → String → ProviderEvent

  unfoldable pub vote_step : Voting → ProviderEvent → Voting
  vote_step s (answered identifier result) = count_vote s result (get s.results result)
  vote_step s (completed identifier) =
      handle_provider_result (record s { scores = s.scores ++ (identifier, false) ∷ [] })
  vote_step s (failed identifier error) =
      handle_provider_result
        (record s { errors = s.errors ++ error ∷ []; scores = s.scores ++ (identifier, true) ∷ [] })

  -- The events are listed the latest first.
  abbrev pub execute_with_agreement : List ProviderEvent → Voting
  execute_with_agreement [] = no_votes
  execute_with_agreement (event ∷ earlier) = vote_step (execute_with_agreement earlier) event
