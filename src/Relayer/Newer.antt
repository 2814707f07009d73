-- ===== src/Relayer/Newer.antt =====
-- Which feeds a multi-feed iteration asks to update.
use redstone_oracles_monorep.Prelude.{
  ℕ, ◌<◌, String, ◌≡◌, refl, ap, sym, ◌∙◌, ◌⊎◌, inl, inr, arith, Bool, true, false, ◌&&◌, ◌||◌,
  List, [], ◌∷◌, ok, >>=-eq-ok, ok_injective, any, All, is_some, Bool-cases,
}
use redstone_oracles_monorep.Prelude.Dict.{Dict, get}
use redstone_oracles_monorep.Relayer.Config.{
  Numbers, ContractData, LastRoundDetails, ConditionCheckNames, RelayerConfig, Environment,
  ConditionCheckResponse,
}
use redstone_oracles_monorep.Relayer.Packages.{get_last_round_details, get_data_packages_timestamp}
use redstone_oracles_monorep.Relayer.Conditions.{
  checked, check_condition_by_name, round_of, is_data_package_timestamp_newer,
}
use redstone_oracles_monorep.Relayer.MultiFeed.{
  ShouldUpdateResponse, FeedProgress, note_check, check_conditions, check_feed, check_feeds,
  should_update_in_multi_feed,
}
use redstone_oracles_monorep.Relayer.Rounds.{
  last_round, same_name, same_name_refl, last_round_lem, get_last_round_details-SameRounds,
  SameRounds-trans, round_of-eq-ok, All-append_if, SameRounds,
}

module _ (N : Numbers) (env : Environment N) (config : RelayerConfig N) where
  -- A configured condition of the feed holds for the details of the last round.
  pub record Fires (details : LastRoundDetails) (id : String) (names : List ConditionCheckNames)
      : Type 0 where
    pub name : ConditionCheckNames
    pub check : ConditionCheckResponse N
    pub listed : any (same_name name) names ≡ true
    pub holds : checked N name id env details config ≡ ok check
    pub positive : check.should_update_prices ≡ true

  -- The fetched packages of the feed are of one time, later than the contract's last ones.
  pub record IsNewer (details : LastRoundDetails) (id : String) : Type 0 where
    pub timestamp : ℕ
    pub fetched : get_data_packages_timestamp N env.data_packages id ≡ ok timestamp
    pub later : details.last_data_package_timestamp < timestamp

  abbrev pub FiresOr : Bool → LastRoundDetails → String → List ConditionCheckNames → Type 0
  FiresOr found details id names = (found ≡ true) ⊎ Fires details id names

  pub Fires-cons :
      (details : LastRoundDetails) (id : String) (name : ConditionCheckNames)
      (names : List ConditionCheckNames)
      → Fires details id names
      → Fires details id (name ∷ names)
  Fires-cons details id name names f = record {
    name = f.name;
    check = f.check;
    listed = ground (arith, f.listed);
    holds = f.holds;
    positive = f.positive;
  }

  -- One check sets the flag only if the condition holds.
  pub note_check-FiresOr :
      (original : ContractData) (id : String) (name : ConditionCheckNames)
      (names : List ConditionCheckNames) (found : Bool) (contract : ContractData)
      (check : ConditionCheckResponse N)
      → SameRounds original contract
      → checked N name id env (last_round contract id) config ≡ ok check
      → (found || check.should_update_prices) ≡ true
      → FiresOr found (last_round original id) id (name ∷ names)
  note_check-FiresOr original id name names true contract check same e h = inl refl
  note_check-FiresOr original id name names false contract check same e h = inr (record {
    name = name;
    check = check;
    listed = ground (arith, same_name_refl name);
    holds = (rw (← same.same id)) ∙ e;
    positive = h;
  })

  check_conditions-SameRounds :
      (original : ContractData) (id : String) (names : List ConditionCheckNames)
      (p q : FeedProgress N)
      → SameRounds original p.contract
      → check_conditions N id env config names p ≡ ok q
      → SameRounds original q.contract
  unfolding check_conditions check_condition_by_name
  check_conditions-SameRounds original id [] p q same e = rw (← ok_injective e) same
  check_conditions-SameRounds original id (name ∷ names) p q same e =
      let (result, e1, e2) =
        >>=-eq-ok (check_condition_by_name N name id env p.contract config) _ e in
      let (check, e3, e4) =
        >>=-eq-ok (checked N name id env (last_round p.contract id) config) _ e1 in
      let e5 = rw (← ok_injective e4) at e2 in
      check_conditions-SameRounds original id names
        (note_check N name id config p (check, (get_last_round_details p.contract id).1)) q
        (SameRounds-trans original p.contract _ same
          (get_last_round_details-SameRounds p.contract id))
        e5

  check_conditions-FiresOr :
      (original : ContractData) (id : String) (names : List ConditionCheckNames)
      (p q : FeedProgress N)
      → SameRounds original p.contract
      → check_conditions N id env config names p ≡ ok q
      → q.should_update ≡ true
      → FiresOr p.should_update (last_round original id) id names
  unfolding check_conditions check_condition_by_name
  check_conditions-FiresOr original id [] p q same e h =
      inl (ap (λ r. r.should_update) (ok_injective e) ∙ h)
  check_conditions-FiresOr original id (name ∷ names) p q same e h =
      let (result, e1, e2) =
        >>=-eq-ok (check_condition_by_name N name id env p.contract config) _ e in
      let (check, e3, e4) =
        >>=-eq-ok (checked N name id env (last_round p.contract id) config) _ e1 in
      let e5 = rw (← ok_injective e4) at e2 in
      elim (check_conditions-FiresOr original id names
        (note_check N name id config p (check, (get_last_round_details p.contract id).1)) q
        (SameRounds-trans original p.contract _ same
          (get_last_round_details-SameRounds p.contract id))
        e5 h) [
          | inl flag ↦
              note_check-FiresOr original id name names p.should_update p.contract check same e3
                flag
          | inr fires ↦ inr (Fires-cons (last_round original id) id name names fires)
        ]

  fired_lem :
      (original : ContractData) (id : String) (names : List ConditionCheckNames)
      (p q : FeedProgress N)
      → SameRounds original p.contract
      → check_conditions N id env config names p ≡ ok q
      → p.should_update ≡ false
      → q.should_update ≡ true
      → Fires (last_round original id) id names
  fired_lem original id names p q same e h k =
      elim (check_conditions-FiresOr original id names p q same e k) [
        | inl flag ↦ cc
        | inr fires ↦ fires
      ]

  -- The entry of the feed in `updateConditions`.
  abbrev pub Configured :
      Dict (List ConditionCheckNames) → String → List ConditionCheckNames → Type 0
  Configured [] id names = ⊥
  Configured ((j, conditions) ∷ entries) id names =
      ((j ≡ id) × (conditions ≡ names)) ⊎ Configured entries id names

  -- Why a feed may be updated: it is configured, its packages are there and newer than the
  -- contract's, and one of its conditions holds.
  pub record IsJustified (original : ContractData) (id : String) : Type 0 where
    pub names : List ConditionCheckNames
    pub configured : Configured config.update_conditions id names
    pub present : is_some (get env.data_packages id) ≡ true
    pub newer : IsNewer (last_round original id) id
    pub fires : Fires (last_round original id) id names

  pub is_data_package_timestamp_newer-IsNewer :
      (original contract : ContractData) (id : String)
      → SameRounds original contract
      → is_data_package_timestamp_newer N env contract id ≡ ok true
      → IsNewer (last_round original id) id
  unfolding is_data_package_timestamp_newer
  is_data_package_timestamp_newer-IsNewer original contract id same e =
      let (details, e1, e2) = >>=-eq-ok (round_of (get contract id)) _ e in
      let (time, e3, e4) = >>=-eq-ok (get_data_packages_timestamp N env.data_packages id) _ e2 in
      let known =
        sym (same.same id)
        ∙ last_round_lem contract id
        ∙ round_of-eq-ok (get contract id) details e1 in
      record {
        timestamp = time;
        fetched = e3;
        later = rw (known) (ground (arith, ok_injective e4));
      }

  -- The response after one feed.
  check_feed-IsJustified :
      (original : ContractData) (id : String) (names : List ConditionCheckNames)
      (found next : ShouldUpdateResponse N × ContractData)
      → SameRounds original found.1
      → Configured config.update_conditions id names
      → is_some (get env.data_packages id) ≡ true
      → All (IsJustified original) found.0.data_feeds_to_update
      → check_feed N id names env config found ≡ ok next
      → SameRounds original next.1 × All (IsJustified original) next.0.data_feeds_to_update
  unfolding check_feed
  check_feed-IsJustified original id names (found, contract) next same listed present inv e =
      let (p, e1, e2) = >>=-eq-ok (check_conditions N id env config names _) _ e in
      let (newer, e3, e4) = >>=-eq-ok (is_data_package_timestamp_newer N env p.contract id) _ e2 in
      let kept = check_conditions-SameRounds original id names _ p same e1 in
      rw (← ok_injective e4) (
        kept,
        All-append_if (IsJustified original) (p.should_update && newer) id
            found.data_feeds_to_update inv
            (λ h. record {
              names = names;
              configured = listed;
              present = present;
              newer =
                  is_data_package_timestamp_newer-IsNewer original p.contract id kept
                    (e3 ∙ ap ok (ground arith));
              fires = fired_lem original id names _ p same e1 refl (ground arith);
            }),
      )

  check_feeds-IsJustified :
      (original : ContractData) (entries : Dict (List ConditionCheckNames))
      (found next : ShouldUpdateResponse N × ContractData)
      → ((id : String) (names : List ConditionCheckNames)
          → Configured entries id names
          → Configured config.update_conditions id names)
      → SameRounds original found.1
      → All (IsJustified original) found.0.data_feeds_to_update
      → check_feeds N entries env config found ≡ ok next
      → All (IsJustified original) next.0.data_feeds_to_update
  unfolding check_feeds
  check_feeds-IsJustified original [] found next sub same inv e = rw (← ok_injective e) inv
  check_feeds-IsJustified original ((id, names) ∷ entries) found next sub same inv e =
      elim (Bool-cases (is_some (get env.data_packages id))) [
        | inl present ↦
            (let e' = rw present at e in
              let (reached, e1, e2) = >>=-eq-ok (check_feed N id names env config found) _ e' in
              let (same', inv') =
                check_feed-IsJustified original id names found reached same
                  (sub id names (inl (refl, refl))) present inv e1 in
              check_feeds-IsJustified original entries reached next (λ j ns m. sub j ns (inr m))
                same' inv' e2)
        | inr absent ↦
            check_feeds-IsJustified original entries found next (λ j ns m. sub j ns (inr m)) same
              inv (rw absent at e)
      ]

  -- Every feed that `shouldUpdateInMultiFeed` wants to update is configured, its packages were
  -- fetched and are of one time, later than the timestamp that the contract has for it (0 where it
  -- has none), and one of the conditions configured for the feed holds.
  pub should_update_in_multi_feed-IsJustified :
      (original : ContractData) (response : ShouldUpdateResponse N) (contract : ContractData)
      → should_update_in_multi_feed N env original config ≡ ok (response, contract)
      → All (IsJustified original) response.data_feeds_to_update
  unfolding should_update_in_multi_feed
  should_update_in_multi_feed-IsJustified original response contract e =
      check_feeds-IsJustified original config.update_conditions _ (response, contract) (λ j ns m. m)
        (record { same = λ k. refl }) tt e
