-- ===== src/Rpc/ProviderExamples.antt =====
-- A curated list with two of three providers in quarantine, and the blocks of three providers.
use redstone_oracles_monorep.Prelude.{
  ℕ, ◌-◌, ◌≤◌, String, true, false, Option, none, some, List, [], ◌∷◌, is_some, not, ltb,
  if◌then◌else◌, length, ◌≡◌, refl, arith,
}
use redstone_oracles_monorep.Prelude.Dict.{Dict, get, keys}
use redstone_oracles_monorep.Rpc.CuratedList.{
  Score, Weights, get_best_providers, free_one_rpc_from_quarantine, weighted_random,
  healthy_providers,
}
use redstone_oracles_monorep.Rpc.Quarantine.{quarantined, get_best_providers_returns}
use redstone_oracles_monorep.Rpc.BlockNumbers.{
  LastBlock, BlockAnswer, get_block_number, default_elect_block_fn,
}
use redstone_oracles_monorep.Rpc.Monotone.{IsAdvanced, get_block_number-IsAdvanced}

abbrev subtract_weights : Option ℕ → Option ℕ → Option ℕ
subtract_weights none b = none
subtract_weights (some a) none = none
subtract_weights (some a) (some b) = if ltb a b then none else some (a - b)

-- Whole numbers in the place of JavaScript's; none is a negative one.
abbrev whole_weights : Weights
whole_weights = record {
  Weight = Option ℕ;
  no_weight = some 0;
  is_negative = λ a. not (is_some a);
  add = λ a b. b;
  subtract = subtract_weights;
  inverse_of = λ n. some 6;
  random_below = λ draw total. some draw;
}

abbrev good_score : Score
good_score = record {
  calls_count = 3;
  errors_count = 0;
  in_quarantine = false;
  quarantine_counter = 0;
}

abbrev bad_score : Score
bad_score = record {
  calls_count = 0;
  errors_count = 0;
  in_quarantine = true;
  quarantine_counter = 1;
}

abbrev three_rpcs : Dict Score
three_rpcs = ("a", bad_score) ∷ ("b", good_score) ∷ ("c", bad_score) ∷ []

get_best_providers_returns_example :
    (providers : List String) × (after : Dict Score) × (get_best_providers whole_weights 3 2
        three_rpcs
        (λ i. 7)
      ≡ some (providers, after))
    × (2 ≤ length providers)
    × (providers ≡ healthy_providers whole_weights after)
    × (keys after ≡ keys three_rpcs)
    × (quarantined whole_weights after ≤ quarantined whole_weights three_rpcs)
unfolding keys
get_best_providers_returns_example =
    get_best_providers_returns whole_weights 3 2 three_rpcs (λ i. 7) (omega arith) (omega arith)

-- The draw of 7 is beyond the first weight, so the last provider is released.
three_rpcs-run :
    get_best_providers whole_weights 3 2 three_rpcs (λ i. 7)
    ≡ some (
      "b" ∷ "c" ∷ [],
      ("a", bad_score) ∷ ("b", good_score) ∷ ("c", record bad_score { in_quarantine = false }) ∷ [],
    )
unfolding get_best_providers free_one_rpc_from_quarantine weighted_random
three_rpcs-run = refl

abbrev known_blocks : Dict LastBlock
known_blocks = ("a", record { block_number = 100; changed_at = 1000 }) ∷ []

-- The first provider goes back, the second one is new, the third one fails.
abbrev three_answers : List BlockAnswer
three_answers =
    record { identifier = "a"; block_number = some 99; now = 5000 }
    ∷ record { identifier = "b"; block_number = some 103; now = 5000 }
    ∷ record { identifier = "c"; block_number = none; now = 5000 }
    ∷ []

get_block_number-IsAdvanced_example :
    IsAdvanced
      (get known_blocks "a")
      (get (get_block_number 12000 default_elect_block_fn known_blocks three_answers).1 "a")
get_block_number-IsAdvanced_example =
    get_block_number-IsAdvanced 12000 default_elect_block_fn known_blocks three_answers "a"
