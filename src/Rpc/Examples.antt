-- ===== src/Rpc/Examples.antt =====
-- Three providers, two of which have to agree.
use redstone_oracles_monorep.Prelude.{
  true, false, none, some, List, [], ◌∷◌, ◌++◌, ◌≡◌, ◌≢◌, refl, arith,
}
use redstone_oracles_monorep.Prelude.Dict.{get, put}
use redstone_oracles_monorep.Rpc.Agreement.{
  AgreementConfig, ProviderEvent, answered, completed, failed, resolved, rejected, vote_step,
  handle_provider_result, pick_response_with_most_votes, execute_with_agreement,
}
use redstone_oracles_monorep.Rpc.Outcome.{IsJustified}
use redstone_oracles_monorep.Rpc.Justified.{execute_with_agreement-IsJustified}
use redstone_oracles_monorep.Rpc.Finished.{execute_with_agreement_settles}

abbrev two_of_three : AgreementConfig
two_of_three = record {
  number_of_providers_that_have_to_agree = 2;
  ignore_agreement_on_insufficient_responses = true;
  healthy_providers_count = 3;
}

-- The last event first: two providers disagree, and the third one fails.
abbrev disagreement : List (ProviderEvent two_of_three)
disagreement =
    failed "c" "timeout"
    ∷ completed "b"
    ∷ completed "a"
    ∷ answered "b" "0x2"
    ∷ answered "a" "0x1"
    ∷ []

disagreement-run :
    (execute_with_agreement two_of_three disagreement).settlement ≡ some (resolved "0x1")
unfolding vote_step handle_provider_result pick_response_with_most_votes get put
disagreement-run = refl

execute_with_agreement-IsJustified_example :
    (later : List (ProviderEvent two_of_three)) × (earlier : List (ProviderEvent two_of_three))
    × (later ++ earlier ≡ disagreement)
    × IsJustified two_of_three earlier (resolved "0x1")
execute_with_agreement-IsJustified_example =
    execute_with_agreement-IsJustified two_of_three disagreement (resolved "0x1") disagreement-run

-- Of three different answers none is chosen without the option, even if one answer is enough.
abbrev one_of_three : AgreementConfig
one_of_three = record {
  number_of_providers_that_have_to_agree = 1;
  ignore_agreement_on_insufficient_responses = false;
  healthy_providers_count = 3;
}

abbrev three_answers : List (ProviderEvent one_of_three)
three_answers =
    completed "c"
    ∷ answered "c" "0x3"
    ∷ completed "b"
    ∷ answered "b" "0x2"
    ∷ completed "a"
    ∷ answered "a" "0x1"
    ∷ []

three_answers-run :
    (execute_with_agreement one_of_three three_answers).settlement ≡ some (rejected [])
unfolding vote_step handle_provider_result pick_response_with_most_votes get put
three_answers-run = refl

execute_with_agreement_settles_example :
    (execute_with_agreement one_of_three three_answers).settlement ≢ none
execute_with_agreement_settles_example =
    execute_with_agreement_settles one_of_three three_answers (omega arith) (omega arith)
