-- ===== src/Relayer/MultiFeed.antt =====
-- multi-feed/should-update-in-multi-feed.ts: the feeds that an iteration of a multi-feed adapter
-- updates. Messages are not modelled.
use redstone_oracles_monorep.Prelude.{
  ℕ, String, ◌==◌, Bool, true, false, ◌&&◌, ◌||◌, Option, none, some, List, [], ◌∷◌, ◌++◌, Result,
  ok, ◌>>=◌, if◌then◌else◌, any, is_some,
}
use redstone_oracles_monorep.Prelude.Dict.{Dict, get, put}
use redstone_oracles_monorep.Relayer.Config.{
  Numbers, RelayerError, ContractData, ConditionCheckNames, time_check, UpdateTriggers,
  RelayerConfig, Environment, ConditionCheckResponse,
}
use redstone_oracles_monorep.Relayer.Conditions.{
  check_condition_by_name, is_data_package_timestamp_newer,
}

-- `Set.prototype.add`, in the order of insertion
abbrev pub add : ℕ → List ℕ → List ℕ
add n ns = if any (λ m. m == n) ns then ns else ns ++ n ∷ []

module _ (N : Numbers) where
  pub record ShouldUpdateResponse : Type 0 where
    pub data_feeds_to_update : List String
    pub deviation_ratios : Dict N.Float
    pub heartbeat_updates : List ℕ

  -- What the loop over the conditions of a feed keeps.
  pub record FeedProgress : Type 0 where
    pub should_update : Bool
    pub ratios : Dict N.Float
    pub heartbeats : List ℕ
    pub contract : ContractData

  abbrev pub noted_ratio : Option N.Float → String → Dict N.Float → Dict N.Float
  noted_ratio none id ratios = ratios
  noted_ratio (some ratio) id ratios = if N.is_truthy ratio then put ratios id ratio else ratios

  abbrev pub added_interval : Option ℕ → List ℕ → List ℕ
  added_interval none beats = beats
  added_interval (some interval) beats = add interval beats

  abbrev pub added_heartbeat : Option (UpdateTriggers N) → List ℕ → List ℕ
  added_heartbeat none beats = beats
  added_heartbeat (some triggers) beats = added_interval triggers.time_since_last_update beats

  abbrev pub is_time : ConditionCheckNames → Bool
  is_time time_check = true
  is_time _ = false

  -- The body of the loop over the conditions, after the check.
  abbrev pub note_check :
      ConditionCheckNames
      → String
      → RelayerConfig N
      → FeedProgress
      → ConditionCheckResponse N × ContractData
      → FeedProgress
  note_check name id config p (check, contract) = record {
    should_update = p.should_update || check.should_update_prices;
    ratios = noted_ratio check.max_deviation_ratio id p.ratios;
    heartbeats =
        if check.should_update_prices && is_time name
        then added_heartbeat (get config.update_triggers id) p.heartbeats
        else p.heartbeats;
    contract = contract;
  }

  unfoldable pub check_conditions :
      String
      → Environment N
      → RelayerConfig N
      → List ConditionCheckNames
      → FeedProgress
      → Result RelayerError FeedProgress
  check_conditions id env config [] p = ok p
  check_conditions id env config (name ∷ names) p =
      check_condition_by_name N name id env p.contract config >>= λ checked.
      check_conditions id env config names (note_check name id config p checked)

  -- The body of the loop over the feeds, for a feed that the fetched packages have.
  unfoldable pub check_feed :
      String
      → List ConditionCheckNames
      → Environment N
      → RelayerConfig N
      → ShouldUpdateResponse × ContractData
      → Result RelayerError (ShouldUpdateResponse × ContractData)
  check_feed id names env config (found, contract) = do
    p ← check_conditions id env config names (record {
      should_update = false;
      ratios = found.deviation_ratios;
      heartbeats = found.heartbeat_updates;
      contract = contract;
    })
    newer ← is_data_package_timestamp_newer N env p.contract id
    ok (
      record {
        data_feeds_to_update =
            if p.should_update && newer
            then found.data_feeds_to_update ++ id ∷ []
            else found.data_feeds_to_update;
        deviation_ratios = p.ratios;
        heartbeat_updates = p.heartbeats;
      },
      p.contract,
    )

  unfoldable pub check_feeds :
      Dict (List ConditionCheckNames)
      → Environment N
      → RelayerConfig N
      → ShouldUpdateResponse × ContractData
      → Result RelayerError (ShouldUpdateResponse × ContractData)
  check_feeds [] env config found = ok found
  check_feeds ((id, names) ∷ entries) env config found =
      if is_some (get env.data_packages id)
      then (check_feed id names env config found >>= λ next. check_feeds entries env config next)
      else check_feeds entries env config found

  -- The response, with the contract's data that the checks leave.
  unfoldable pub should_update_in_multi_feed :
      Environment N
      → ContractData
      → RelayerConfig N
      → Result RelayerError (ShouldUpdateResponse × ContractData)
  unfolding check_feeds
  should_update_in_multi_feed env contract config =
      check_feeds config.update_conditions env config (
        record { data_feeds_to_update = []; deviation_ratios = []; heartbeat_updates = [] },
        contract,
      )
