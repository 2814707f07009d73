-- ===== src/Rpc/CuratedList.antt =====
-- CuratedRpcList.ts, with `weightedRandom` of packages/utils/src/math.
use redstone_oracles_monorep.Prelude.{
  ℕ, zero, suc, ◌+◌, ◌-◌, String, Bool, true, false, not, Option, none, some, List, [], ◌∷◌, map,
  length, filter, leb, ltb, if◌then◌else◌, is_some, Result, ok, err, guard, ◌>>◌,
}
use redstone_oracles_monorep.Prelude.Dict.{Dict, get, put}

pub record Score : Type 0 where
  pub calls_count : ℕ
  pub errors_count : ℕ
  pub in_quarantine : Bool
  pub quarantine_counter : ℕ

pub data CuratedListError : Type 0 where
  too_many_required duplicated unknown_rpc : CuratedListError

pub record CuratedListConfig : Type 0 where
  pub rpc_identifiers : List String
  pub minimal_providers_count : ℕ
  -- `errorsCount / callsCount > maxErrorRate`, which is false without calls
  pub is_error_rate_exceeded : ℕ → ℕ → Bool

-- The numbers that weights are: `1 / n`, and `Math.random() * total` for a draw.
pub record Weights : Type 1 where
  pub Weight : Type 0
  pub no_weight : Weight
  pub is_negative : Weight → Bool
  pub add : Weight → Weight → Weight
  pub subtract : Weight → Weight → Weight
  pub inverse_of : ℕ → Weight
  pub random_below : ℕ → Weight → Weight

abbrev pub fresh_score : Score
fresh_score = record {
  calls_count = 0;
  errors_count = 0;
  in_quarantine = false;
  quarantine_counter = 0;
}

-- The loop of the constructor.
unfoldable pub add_rpcs : List String → Dict Score → Result CuratedListError (Dict Score)
add_rpcs [] state = ok state
add_rpcs (rpc ∷ rpcs) state =
    let rest = add_rpcs rpcs (put state rpc fresh_score) in
    if is_some (get state rpc) then err duplicated else rest

unfoldable pub new_curated_list : CuratedListConfig → Result CuratedListError (Dict Score)
unfolding add_rpcs
new_curated_list config =
    guard (leb config.minimal_providers_count (length config.rpc_identifiers)) too_many_required
    >> add_rpcs config.rpc_identifiers []

abbrev pub scored : Dict Score → String → Option Score → Bool → Result CuratedListError (Dict Score)
scored state rpc none error = err unknown_rpc
scored state rpc (some score) error = ok (
    put state rpc (record score {
      calls_count = score.calls_count + 1;
      errors_count = score.errors_count + (if error then 1 else 0);
    }))

unfoldable pub score_rpc : Dict Score → String → Bool → Result CuratedListError (Dict Score)
score_rpc state rpc error = scored state rpc (get state rpc) error

module _ (config : CuratedListConfig) where
  abbrev pub evaluated : Score → Score
  evaluated score =
      let cleared = record score { calls_count = 0; errors_count = 0 } in
      if config.is_error_rate_exceeded score.errors_count score.calls_count
      then record cleared {
        in_quarantine = true;
        quarantine_counter = score.quarantine_counter + 1;
      }
      else cleared

  abbrev pub evaluate_at : Dict Score → String → Option Score → Result CuratedListError (Dict Score)
  evaluate_at state rpc none = err unknown_rpc
  evaluate_at state rpc (some score) = ok (put state rpc (evaluated score))

  unfoldable pub evaluate_rpc_score : Dict Score → String → Result CuratedListError (Dict Score)
  evaluate_rpc_score state rpc = evaluate_at state rpc (get state rpc)

module _ (W : Weights) where
  abbrev pub total_weight : List W.Weight → W.Weight → W.Weight
  total_weight [] total = total
  total_weight (weight ∷ weights) total = total_weight weights (W.add total weight)

  -- The second loop; `last` is `weights.length - 1`, none for -1.
  abbrev pub choose_weight : List W.Weight → W.Weight → ℕ → Option ℕ → Option ℕ
  choose_weight [] random i last = last
  choose_weight (weight ∷ weights) random i last =
      let rest = choose_weight weights (W.subtract random weight) (suc i) last in
      if W.is_negative (W.subtract random weight) then some i else rest

  abbrev pub last_index : List W.Weight → Option ℕ
  last_index [] = none
  last_index (weight ∷ weights) = some (length weights)

  unfoldable pub weighted_random : List W.Weight → ℕ → Option ℕ
  weighted_random weights draw =
      choose_weight weights (W.random_below draw (total_weight weights W.no_weight)) 0
        (last_index weights)

  abbrev pub in_quarantine_of : Dict Score → Dict Score
  in_quarantine_of state = filter (λ (_, score). score.in_quarantine) state

  -- `providersInQuarantine[index][1].inQuarantine = false`, on the object that the state shares
  abbrev pub release_at : Dict Score → ℕ → Dict Score
  release_at [] index = []
  release_at ((rpc, score) ∷ state) index =
      let later = release_at state (index - 1) in
      let same = release_at state index in
      if score.in_quarantine
      then if ltb 0 index
        then (rpc, score) ∷ later
        else (rpc, record score { in_quarantine = false }) ∷ state
      else (rpc, score) ∷ same

  abbrev pub release : Dict Score → Option ℕ → Dict Score
  release state none = state
  release state (some index) = release_at state index

  unfoldable pub free_one_rpc_from_quarantine : Dict Score → ℕ → Dict Score
  unfolding weighted_random
  free_one_rpc_from_quarantine state draw = release state (
      weighted_random
        (map (λ (_, score). W.inverse_of score.quarantine_counter) (in_quarantine_of state)) draw)

  abbrev pub healthy_providers : Dict Score → List String
  healthy_providers state =
      map (λ (rpc, _). rpc) (filter (λ (_, score). not score.in_quarantine) state)

  -- `getBestProviders`, with a draw for each call; its recursion runs on fuel.
  unfoldable pub get_best_providers :
      ℕ → ℕ → Dict Score → (ℕ → ℕ) → Option (List String × Dict Score)
  unfolding free_one_rpc_from_quarantine
  get_best_providers zero minimal state draws = none
  get_best_providers (suc fuel) minimal state draws =
      let retried =
        get_best_providers fuel minimal (free_one_rpc_from_quarantine state (draws fuel)) draws in
      if ltb (length (healthy_providers state)) minimal
      then retried
      else some (healthy_providers state, state)
