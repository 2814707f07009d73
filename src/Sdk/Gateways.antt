-- ===== src/Sdk/Gateways.antt =====
-- request-data-packages.ts: `getTheMostRecentDataPackages`. The gateways answer concurrently, so what
-- happens to the shared state is a sequence of events in any order. A response is any type, of which
-- `time_of` reads the timestamp; an error is a text.
use redstone_oracles_monorep.Prelude.{
  ℕ, ◌+◌, String, Bool, true, Option, none, some, List, [], ◌∷◌, ◌++◌, Result, ok, err,
  if◌then◌else◌, length, ltb, ◌==◌, ◌&&◌, ◌||◌, not,
}
use redstone_oracles_monorep.Relayer.Config.{Numbers, DataPackagesResponse}

-- `Object.values(response).at(0)?.at(0)?.dataPackage.timestampMilliseconds ?? 0`
unfoldable pub get_response_timestamp : (N : Numbers) → DataPackagesResponse N → ℕ
get_response_timestamp N [] = 0
get_response_timestamp N ((id, []) ∷ response) = 0
get_response_timestamp N ((id, pkg ∷ packages) ∷ response) = pkg.timestamp

module _ {A : Type 0} (time_of : A → ℕ) (no_feeds : A) where
  -- `resolve` with a response, or `reject` with the errors, once.
  pub record Gathering : Type 0 where
    pub collected_responses : List A
    pub collected_errors : List String
    pub is_timed_out : Bool
    pub settlement : Option (Result (List String) A)

  -- A time to wait of 0 is falsy.
  abbrev pub new_gathering : ℕ → Gathering
  new_gathering wait_for_all_gateways_time_ms = record {
    collected_responses = [];
    collected_errors = [];
    is_timed_out = wait_for_all_gateways_time_ms == 0;
    settlement = none;
  }

  -- The function of the `reduce`, and the `reduce` from `{}` on.
  abbrev pub newer_of : A → A → A
  newer_of a b = if ltb (time_of a) (time_of b) then b else a

  abbrev pub newest_of : List A → A → A
  newest_of [] newest = newest
  newest_of (response ∷ responses) newest = newest_of responses (newer_of newest response)

  module _ (promises_count : ℕ) where
    abbrev pub settle_results : Gathering → Gathering
    settle_results s =
        let received = length s.collected_responses in
        let failures = length s.collected_errors in
        let rejecting = record s { settlement = some (err s.collected_errors) } in
        let resolving = record s {
          settlement = some (ok (newest_of s.collected_responses no_feeds));
        } in
        if failures == promises_count
        then rejecting
        else if (received + failures == promises_count) || (s.is_timed_out && not (received == 0))
        then resolving
        else s

    -- `if (didResolveOrReject) return`
    abbrev pub check_unsettled : Option (Result (List String) A) → Gathering → Gathering
    check_unsettled none s = settle_results s
    check_unsettled (some settlement) s = s

    unfoldable pub check_results : Gathering → Gathering
    check_results s = check_unsettled s.settlement s

    -- A response or an error of a gateway, the `finally` after one of them, and the timer.
    pub data GatewayEvent : Type 0 where
      responded : A → GatewayEvent
      refused : String → GatewayEvent
      settled : GatewayEvent
      timed_out : GatewayEvent

    unfoldable pub gather : Gathering → GatewayEvent → Gathering
    gather s (responded response) = record s {
      collected_responses = s.collected_responses ++ response ∷ [];
    }
    gather s (refused error) = record s { collected_errors = s.collected_errors ++ error ∷ [] }
    gather s settled = check_results s
    gather s timed_out = check_results (record s { is_timed_out = true })

    -- The events are listed the latest first.
    abbrev pub get_the_most_recent_data_packages : ℕ → List GatewayEvent → Gathering
    get_the_most_recent_data_packages wait [] = new_gathering wait
    get_the_most_recent_data_packages wait (event ∷ earlier) =
        gather (get_the_most_recent_data_packages wait earlier) event
