-- ===== src/Relayer/Due.antt =====
-- When an adapter that updates all its feeds at once is updated.
use redstone_oracles_monorep.Prelude.{
  String, Bool, true, false, ◌||◌, Option, none, some, List, [], ◌∷◌, ◌++◌, ok, ◌≡◌, refl, ap, sym,
  ◌∙◌, ◌⊎◌, inl, inr, arith, eq_iff, any, str_eq, >>=-eq-ok, ok_injective,
}
use redstone_oracles_monorep.Prelude.Dict.{get}
use redstone_oracles_monorep.Relayer.Config.{
  Numbers, ContractData, ConditionCheckNames, RelayerConfig, Environment,
}
use redstone_oracles_monorep.Relayer.Packages.{get_last_round_details}
use redstone_oracles_monorep.Relayer.Conditions.{
  checked, check_condition_by_name, is_data_package_timestamp_newer,
}
use redstone_oracles_monorep.Relayer.Rounds.{
  last_round, SameRounds, SameRounds-trans, get_last_round_details-SameRounds,
}
use redstone_oracles_monorep.Relayer.Newer.{
  Fires, Fires-cons, FiresOr, IsNewer, note_check-FiresOr, is_data_package_timestamp_newer-IsNewer,
}
use redstone_oracles_monorep.Relayer.PriceFeeds.{
  conditions_of, are_decimals_acceptable, check_price_conditions, check_price_feed,
  check_price_feeds, should_update,
}

pub conditions_of-eq-ok :
    (o : Option (List ConditionCheckNames)) (names : List ConditionCheckNames)
    → conditions_of o ≡ ok names
    → o ≡ some names
conditions_of-eq-ok none names e = cc
conditions_of-eq-ok (some read) names e = ap some (ok_injective e)

module _ (N : Numbers) (env : Environment N) (config : RelayerConfig N) where
  pub check_price_conditions-FiresOr :
      (original : ContractData) (id : String) (names : List ConditionCheckNames) (found : Bool)
      (contract : ContractData) (out : Bool × ContractData)
      → SameRounds original contract
      → check_price_conditions N id env config names (found, contract) ≡ ok out
      → SameRounds original out.1
        × (out.0 ≡ true → FiresOr N env config found (last_round original id) id names)
  unfolding check_price_conditions check_condition_by_name
  check_price_conditions-FiresOr original id [] found contract out same e =
      rw (← ok_injective e) (same, (λ h. inl h))
  check_price_conditions-FiresOr original id (name ∷ names) found contract out same e =
      let (result, e1, e2) =
        >>=-eq-ok (check_condition_by_name N name id env contract config) _ e in
      let (check, e3, e4) =
        >>=-eq-ok (checked N name id env (last_round contract id) config) _ e1 in
      let e5 = rw (← ok_injective e4) at e2 in
      let (same', fires) =
        check_price_conditions-FiresOr original id names (found || check.should_update_prices)
          (get_last_round_details contract id).1 out
          (SameRounds-trans original contract _ same
            (get_last_round_details-SameRounds contract id))
          e5 in
      (
        same',
        (λ h. elim (fires h) [
          | inl flag ↦
              note_check-FiresOr N env config original id name names found contract check same e3
                flag
          | inr later ↦ inr (Fires-cons N env config (last_round original id) id name names later)
        ]),
      )

  -- A feed of the list has a configured condition that holds.
  pub record IsDue (original : ContractData) (feeds : List String) : Type 0 where
    pub id : String
    pub names : List ConditionCheckNames
    pub listed : any (λ j. str_eq j id) feeds ≡ true
    pub configured : get config.update_conditions id ≡ some names
    pub fires : Fires N env config (last_round original id) id names

  pub check_price_feed_lem :
      (original : ContractData) (id : String) (found : Bool) (contract : ContractData)
      (out : Bool × ContractData)
      → SameRounds original contract
      → check_price_feed N id env config (found, contract) ≡ ok out
      → SameRounds original out.1
        × (out.0 ≡ true
            → ((found ≡ true) ⊎ IsDue original (id ∷ []))
              × IsNewer N env config (last_round original id) id
              × (are_decimals_acceptable N env.data_packages config ≡ true))
  unfolding check_price_feed
  check_price_feed_lem original id found contract out same e =
      let (names, e1, e2) = >>=-eq-ok (conditions_of (get config.update_conditions id)) _ e in
      let (reached, e3, e4) =
        >>=-eq-ok (check_price_conditions N id env config names (found, contract)) _ e2 in
      let (newer, e5, e6) = >>=-eq-ok (is_data_package_timestamp_newer N env reached.1 id) _ e4 in
      let (kept, fires) =
        check_price_conditions-FiresOr original id names found contract reached same e3 in
      let acceptable = are_decimals_acceptable N env.data_packages config in
      rw (← ok_injective e6) (
        kept,
        (λ h. (
          (elim (fires (ground (arith, h))) [
            | inl flag ↦ inl flag
            | inr holds ↦ inr (record {
              id = id;
              names = names;
              listed = ground (arith, eq_iff id id);
              configured = conditions_of-eq-ok (get config.update_conditions id) names e1;
              fires = holds;
            })
          ]),
          is_data_package_timestamp_newer-IsNewer N env config original reached.1 id kept
              (e5 ∙ ap ok (ground (arith, h))),
          ground (arith, h),
        )),
      )

  IsDue-cons :
      (original : ContractData) (id : String) (feeds : List String)
      → IsDue original feeds
      → IsDue original (id ∷ feeds)
  IsDue-cons original id feeds due = record {
    id = due.id;
    names = due.names;
    listed = ground (arith, due.listed);
    configured = due.configured;
    fires = due.fires;
  }

  IsDue-head :
      (original : ContractData) (id : String) (feeds : List String)
      → IsDue original (id ∷ [])
      → IsDue original (id ∷ feeds)
  IsDue-head original id feeds due = record {
    id = due.id;
    names = due.names;
    listed = ground (arith, due.listed);
    configured = due.configured;
    fires = due.fires;
  }

  check_price_feeds-IsDue :
      (original : ContractData) (feeds : List String) (found : Bool) (contract : ContractData)
      (out : Bool × ContractData)
      → SameRounds original contract
      → check_price_feeds N feeds env config (found, contract) ≡ ok out
      → out.0 ≡ true
      → (found ≡ true) ⊎ IsDue original feeds
  unfolding check_price_feeds
  check_price_feeds-IsDue original [] found contract out same e h =
      inl (ap (λ r. r.0) (ok_injective e) ∙ h)
  check_price_feeds-IsDue original (id ∷ feeds) found contract out same e h =
      let (next, e1, e2) = >>=-eq-ok (check_price_feed N id env config (found, contract)) _ e in
      let (kept, one) = check_price_feed_lem original id found contract next same e1 in
      elim (check_price_feeds-IsDue original feeds next.0 next.1 out kept e2 h) [
        | inl flag ↦ elim ((one flag).0) [
          | inl before ↦ inl before
          | inr due ↦ inr (IsDue-head original id feeds due)
        ]
        | inr due ↦ inr (IsDue-cons original id feeds due)
      ]

  check_price_feeds_last :
      (original : ContractData) (before : List String) (last : String) (found : Bool)
      (contract : ContractData) (out : Bool × ContractData)
      → SameRounds original contract
      → check_price_feeds N (before ++ last ∷ []) env config (found, contract) ≡ ok out
      → out.0 ≡ true
      → IsNewer N env config (last_round original last) last
        × (are_decimals_acceptable N env.data_packages config ≡ true)
  unfolding check_price_feeds
  check_price_feeds_last original [] last found contract out same e h =
      let (next, e1, e2) = >>=-eq-ok (check_price_feed N last env config (found, contract)) _ e in
      let (kept, one) = check_price_feed_lem original last found contract next same e1 in
      let (flag, newer, acceptable) = one (ap (λ r. r.0) (ok_injective e2) ∙ h) in
      (newer, acceptable)
  check_price_feeds_last original (id ∷ before) last found contract out same e h =
      let (next, e1, e2) = >>=-eq-ok (check_price_feed N id env config (found, contract)) _ e in
      let (kept, one) = check_price_feed_lem original id found contract next same e1 in
      check_price_feeds_last original before last next.0 next.1 out kept e2 h

  -- An adapter that updates all its feeds at once is to be updated only if a condition configured for
  -- one of its feeds holds.
  pub should_update-IsDue :
      (original contract : ContractData)
      → should_update N env original config ≡ ok (true, contract)
      → IsDue original config.data_feeds
  unfolding should_update
  should_update-IsDue original contract e =
      elim (check_price_feeds-IsDue original config.data_feeds false original (true, contract)
        (record { same = λ k. refl }) e refl) [ inl flag ↦ cc | inr due ↦ due ]

  -- And only if the packages of the last of its feeds are of one time and newer than the contract's,
  -- and, for a mento adapter, all values fetched have the decimals that it supports.
  pub should_update_last-IsNewer :
      (original contract : ContractData) (before : List String) (last : String)
      → should_update N env original config ≡ ok (true, contract)
      → config.data_feeds ≡ before ++ last ∷ []
      → IsNewer N env config (last_round original last) last
        × (are_decimals_acceptable N env.data_packages config ≡ true)
  unfolding should_update
  should_update_last-IsNewer original contract before last e listed =
      check_price_feeds_last original before last false original (true, contract)
        (record { same = λ k. refl })
        (ap (λ feeds. check_price_feeds N feeds env config (false, original)) (sym listed) ∙ e) refl
