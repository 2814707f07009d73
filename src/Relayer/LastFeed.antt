-- ===== src/Relayer/LastFeed.antt =====
-- What the last feed of an adapter that updates all its feeds at once decides alone.
use redstone_oracles_monorep.Prelude.{
  String, Bool, true, false, ◌||◌, some, List, [], ◌∷◌, ◌++◌, ok, ◌≡◌, refl, ap, sym, ◌∙◌, inl, inr,
  arith, >>=-eq-ok, ok_injective, Bool-cases,
}
use redstone_oracles_monorep.Prelude.Dict.{get}
use redstone_oracles_monorep.Relayer.Config.{
  Numbers, ContractData, ConditionCheckNames, time_check, cron_check, value_deviation_check,
  RelayerConfig, Environment,
}
use redstone_oracles_monorep.Relayer.Packages.{get_last_round_details, get_data_packages_timestamp}
use redstone_oracles_monorep.Relayer.Conditions.{
  checked, check_condition_by_name, is_data_package_timestamp_newer, round_of,
}
use redstone_oracles_monorep.Relayer.Rounds.{
  last_round, last_round_lem, round_of-eq-ok, same_name, SameRounds, SameRounds-trans,
  get_last_round_details-SameRounds,
}
use redstone_oracles_monorep.Relayer.Newer.{Fires, IsNewer}
use redstone_oracles_monorep.Relayer.PriceFeeds.{
  are_decimals_acceptable, check_price_conditions, check_price_feed, check_price_feeds,
  should_update,
}
use redstone_oracles_monorep.Relayer.Due.{check_price_conditions-FiresOr, check_price_feed_lem}

same_name-eq : (a b : ConditionCheckNames) → same_name a b ≡ true → a ≡ b
same_name-eq time_check time_check h = refl
same_name-eq cron_check cron_check h = refl
same_name-eq value_deviation_check value_deviation_check h = refl
same_name-eq time_check cron_check h = cc
same_name-eq time_check value_deviation_check h = cc
same_name-eq cron_check time_check h = cc
same_name-eq cron_check value_deviation_check h = cc
same_name-eq value_deviation_check time_check h = cc
same_name-eq value_deviation_check cron_check h = cc

module _ (N : Numbers) (env : Environment N) (config : RelayerConfig N) where
  check_price_conditions-true :
      (id : String) (names : List ConditionCheckNames) (found : Bool) (contract : ContractData)
      (out : Bool × ContractData)
      → found ≡ true
      → check_price_conditions N id env config names (found, contract) ≡ ok out
      → out.0 ≡ true
  unfolding check_price_conditions
  check_price_conditions-true id [] found contract out h e =
      sym (ap (λ r. r.0) (ok_injective e)) ∙ h
  check_price_conditions-true id (name ∷ names) found contract out h e =
      let (result, e1, e2) =
        >>=-eq-ok (check_condition_by_name N name id env contract config) _ e in
      check_price_conditions-true id names (found || result.0.should_update_prices) result.1 out
        (ground (arith, h)) e2

  check_price_conditions-Fires :
      (original : ContractData) (id : String) (names : List ConditionCheckNames) (found : Bool)
      (contract : ContractData) (out : Bool × ContractData)
      → SameRounds original contract
      → Fires N env config (last_round original id) id names
      → check_price_conditions N id env config names (found, contract) ≡ ok out
      → out.0 ≡ true
  unfolding check_price_conditions check_condition_by_name
  check_price_conditions-Fires original id [] found contract out same f e =
      let impossible = f.listed in cc
  check_price_conditions-Fires original id (name ∷ names) found contract out same f e =
      let (result, e1, e2) =
        >>=-eq-ok (check_condition_by_name N name id env contract config) _ e in
      let (check, e3, e4) =
        >>=-eq-ok (checked N name id env (last_round contract id) config) _ e1 in
      let e5 = rw (← ok_injective e4) at e2 in
      elim (Bool-cases (same_name f.name name)) [
        | inl here ↦
            let held : checked N name id env (last_round contract id) config ≡ ok f.check =
              rw (same.same id, ← same_name-eq f.name name here) f.holds in
            let equal = ok_injective (sym e3 ∙ held) in
            check_price_conditions-true id names (found || check.should_update_prices)
              (get_last_round_details contract id).1 out
              (ground (arith, ap (λ c. c.should_update_prices) equal ∙ f.positive)) e5
        | inr later ↦
            check_price_conditions-Fires original id names (found || check.should_update_prices)
              (get_last_round_details contract id).1 out
              (SameRounds-trans original contract _ same
                (get_last_round_details-SameRounds contract id))
              (record {
                name = f.name;
                check = f.check;
                listed = ground (arith, f.listed);
                holds = f.holds;
                positive = f.positive;
              })
              e5
      ]

  IsNewer-true :
      (original contract : ContractData) (id : String) (newer : Bool)
      → SameRounds original contract
      → IsNewer N env config (last_round original id) id
      → is_data_package_timestamp_newer N env contract id ≡ ok newer
      → newer ≡ true
  unfolding is_data_package_timestamp_newer
  IsNewer-true original contract id newer same n e =
      let (details, e1, e2) = >>=-eq-ok (round_of (get contract id)) _ e in
      let (time, e3, e4) = >>=-eq-ok (get_data_packages_timestamp N env.data_packages id) _ e2 in
      let known =
        sym (same.same id)
        ∙ last_round_lem contract id
        ∙ round_of-eq-ok (get contract id) details e1 in
      let equal = ok_injective (sym e3 ∙ n.fetched) in
      let later = rw (known, ← equal) at n.later in sym (ok_injective e4) ∙ ground (arith, later)

  check_price_feed-true :
      (original : ContractData) (id : String) (names : List ConditionCheckNames) (found : Bool)
      (contract : ContractData) (out : Bool × ContractData)
      → SameRounds original contract
      → get config.update_conditions id ≡ some names
      → Fires N env config (last_round original id) id names
      → IsNewer N env config (last_round original id) id
      → are_decimals_acceptable N env.data_packages config ≡ true
      → check_price_feed N id env config (found, contract) ≡ ok out
      → out.0 ≡ true
  unfolding check_price_feed
  check_price_feed-true original id names found contract out same c f n d e =
      let (reached, e3, e4) =
        >>=-eq-ok (check_price_conditions N id env config names (found, contract)) _ (rw c at e) in
      let (newer, e5, e6) = >>=-eq-ok (is_data_package_timestamp_newer N env reached.1 id) _ e4 in
      let (kept, fires) =
        check_price_conditions-FiresOr N env config original id names found contract reached same
          e3 in
      sym (ap (λ r. r.0) (ok_injective e6))
      ∙ ground (
        arith,
        check_price_conditions-Fires original id names found contract reached same f e3,
        IsNewer-true original reached.1 id newer kept n e5,
        d,
      )

  check_price_feeds-true :
      (original : ContractData) (before : List String) (last : String)
      (names : List ConditionCheckNames) (found : Bool) (contract : ContractData)
      (out : Bool × ContractData)
      → SameRounds original contract
      → get config.update_conditions last ≡ some names
      → Fires N env config (last_round original last) last names
      → IsNewer N env config (last_round original last) last
      → are_decimals_acceptable N env.data_packages config ≡ true
      → check_price_feeds N (before ++ last ∷ []) env config (found, contract) ≡ ok out
      → out.0 ≡ true
  unfolding check_price_feeds
  check_price_feeds-true original [] last names found contract out same c f n d e =
      let (next, e1, e2) = >>=-eq-ok (check_price_feed N last env config (found, contract)) _ e in
      sym (ap (λ r. r.0) (ok_injective e2))
      ∙ check_price_feed-true original last names found contract next same c f n d e1
  check_price_feeds-true original (id ∷ before) last names found contract out same c f n d e =
      let (next, e1, e2) = >>=-eq-ok (check_price_feed N id env config (found, contract)) _ e in
      let (kept, one) = check_price_feed_lem N env config original id found contract next same e1 in
      check_price_feeds-true original before last names next.0 next.1 out kept c f n d e2

  -- The last feed of an adapter that updates all its feeds at once suffices: if one of its conditions
  -- holds, its packages are newer than the contract's and the decimals are acceptable, then an
  -- iteration that checks all feeds without an error updates, whatever the other feeds say, also if
  -- the packages of another feed are not newer than the contract's.
  pub should_update_last-true :
      (original contract : ContractData) (before : List String) (last : String)
      (names : List ConditionCheckNames) (answer : Bool)
      → should_update N env original config ≡ ok (answer, contract)
      → config.data_feeds ≡ before ++ last ∷ []
      → get config.update_conditions last ≡ some names
      → Fires N env config (last_round original last) last names
      → IsNewer N env config (last_round original last) last
      → are_decimals_acceptable N env.data_packages config ≡ true
      → should_update N env original config ≡ ok (true, contract)
  unfolding should_update
  should_update_last-true original contract before last names answer e listed c f n d =
      e
      ∙ ap (λ b. ok (b, contract))
          (check_price_feeds-true original before last names false original (answer, contract)
            (record { same = λ k. refl }) c f n d
            (ap (λ feeds. check_price_feeds N feeds env config (false, original)) (sym listed) ∙ e))
