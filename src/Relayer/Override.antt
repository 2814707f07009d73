-- ===== src/Relayer/Override.antt =====
-- config/timely-override-since-last-update.ts: shorter update intervals for a while. The timer's
-- callback is a step of its own; the log is not modelled.
use redstone_oracles_monorep.Prelude.{
  ℕ, ◌≤◌, min, String, Bool, true, some, List, [], ◌∷◌, ◌++◌, Result, ok, ◌>>=◌, >>=-eq-ok,
  ok_injective, if◌then◌else◌, any, All, or_default, str_eq, ◌≡◌, refl, ap, sym, ◌∙◌, arith, eq_iff,
  Bool-cases, inl, inr,
}
use redstone_oracles_monorep.Prelude.Dict.{get, put, get-put}
use redstone_oracles_monorep.Relayer.Config.{
  Numbers, RelayerError, ConditionCheckNames, time_check, UpdateTriggers, RelayerConfig,
}
use redstone_oracles_monorep.Relayer.Deviation.{triggers_of}
use redstone_oracles_monorep.Relayer.MultiFeed.{is_time}
use redstone_oracles_monorep.Relayer.PriceFeeds.{conditions_of}

module _ (N : Numbers) where
  abbrev pub has_time : List ConditionCheckNames → Bool
  has_time names = any (is_time N) names

  abbrev pub with_time : List ConditionCheckNames → List ConditionCheckNames
  with_time names = if has_time names then names else names ++ time_check ∷ []

  abbrev pub shortened : ℕ → UpdateTriggers N → UpdateTriggers N
  shortened interval triggers = record triggers {
    time_since_last_update =
        some (min interval (or_default triggers.time_since_last_update interval));
  }

  abbrev pub hastened :
      ℕ → String → RelayerConfig N → UpdateTriggers N → List ConditionCheckNames → RelayerConfig N
  hastened interval id config triggers names = record config {
    update_triggers = put config.update_triggers id (shortened interval triggers);
    update_conditions = put config.update_conditions id (with_time names);
  }

  -- The body of the loop over the feeds.
  abbrev pub override_feed : ℕ → String → RelayerConfig N → Result RelayerError (RelayerConfig N)
  override_feed interval id config = do
    triggers ← triggers_of N (get config.update_triggers id)
    names ← conditions_of (get config.update_conditions id)
    ok (hastened interval id config triggers names)

  unfoldable pub override_feeds :
      ℕ → List String → RelayerConfig N → Result RelayerError (RelayerConfig N)
  override_feeds interval [] config = ok config
  override_feeds interval (id ∷ feeds) config =
      override_feed interval id config >>= λ next. override_feeds interval feeds next

  unfoldable pub timely_override_since_last_update :
      RelayerConfig N → ℕ → Result RelayerError (RelayerConfig N)
  unfolding override_feeds
  timely_override_since_last_update config interval =
      override_feeds interval config.data_feeds config

  -- The callback of `setTimeout`, with the copies of the triggers and conditions made before.
  unfoldable pub revert : RelayerConfig N → RelayerConfig N → RelayerConfig N
  revert saved config = record config {
    update_triggers = saved.update_triggers;
    update_conditions = saved.update_conditions;
  }

  -- The feed is checked for the time since its last update, and at least as often as the interval says.
  pub record IsHastened (interval : ℕ) (config : RelayerConfig N) (id : String) : Type 0 where
    pub triggers : UpdateTriggers N
    pub names : List ConditionCheckNames
    pub period : ℕ
    pub triggered : get config.update_triggers id ≡ some triggers
    pub conditioned : get config.update_conditions id ≡ some names
    pub timed : has_time names ≡ true
    pub periodic : triggers.time_since_last_update ≡ some period
    pub short : period ≤ interval

  has_time-append : (names : List ConditionCheckNames) → has_time (names ++ time_check ∷ []) ≡ true
  has_time-append [] = refl
  has_time-append (name ∷ names) = ground (arith, has_time-append names)

  has_time-with_time : (names : List ConditionCheckNames) → has_time (with_time names) ≡ true
  has_time-with_time names = elim (Bool-cases (has_time names)) [
    | inl timed ↦ rw timed timed
    | inr untimed ↦ rw untimed (has_time-append names)
  ]

  hastened-IsHastened :
      (interval : ℕ) (id : String) (config : RelayerConfig N) (triggers : UpdateTriggers N)
      (names : List ConditionCheckNames)
      → IsHastened interval (hastened interval id config triggers names) id
  hastened-IsHastened interval id config triggers names = record {
    triggers = shortened interval triggers;
    names = with_time names;
    period = min interval (or_default triggers.time_since_last_update interval);
    triggered =
        ground
          (arith, get-put config.update_triggers id id (shortened interval triggers), eq_iff id id);
    conditioned =
        ground (arith, get-put config.update_conditions id id (with_time names), eq_iff id id);
    timed = has_time-with_time names;
    periodic = refl;
    short = omega arith;
  }

  hastened-keeps :
      (interval : ℕ) (id j : String) (config : RelayerConfig N) (triggers : UpdateTriggers N)
      (names : List ConditionCheckNames)
      → IsHastened interval config j
      → IsHastened interval (hastened interval id config triggers names) j
  hastened-keeps interval id j config triggers names h = elim (Bool-cases (str_eq id j)) [
    | inl same ↦
        let id≡j : id ≡ j = ground (arith, eq_iff id j) in
        rw (← id≡j) (hastened-IsHastened interval id config triggers names)
    | inr other ↦ record {
      triggers = h.triggers;
      names = h.names;
      period = h.period;
      triggered =
          ground
            (arith, get-put config.update_triggers id j (shortened interval triggers), h.triggered);
      conditioned =
          ground (arith, get-put config.update_conditions id j (with_time names), h.conditioned);
      timed = h.timed;
      periodic = h.periodic;
      short = h.short;
    }
  ]

  -- What one feed does, from an iteration that has not thrown.
  override_feed-eq-ok :
      (interval : ℕ) (id : String) (config out : RelayerConfig N)
      → override_feed interval id config ≡ ok out
      → (triggers : UpdateTriggers N) × (names : List ConditionCheckNames) × (hastened interval id
            config triggers names
          ≡ out)
  override_feed-eq-ok interval id config out e =
      let (triggers, e1, e2) = >>=-eq-ok (triggers_of N (get config.update_triggers id)) _ e in
      let (names, e3, e4) = >>=-eq-ok (conditions_of (get config.update_conditions id)) _ e2 in
      (triggers, names, ok_injective e4)

  override_feeds-keeps :
      (interval : ℕ) (feeds : List String) (j : String) (config out : RelayerConfig N)
      → override_feeds interval feeds config ≡ ok out
      → IsHastened interval config j
      → IsHastened interval out j
  unfolding override_feeds
  override_feeds-keeps interval [] j config out e h = rw (← ok_injective e) h
  override_feeds-keeps interval (id ∷ feeds) j config out e h =
      let (next, e1, e2) = >>=-eq-ok (override_feed interval id config) _ e in
      let (triggers, names, e3) = override_feed-eq-ok interval id config next e1 in
      override_feeds-keeps interval feeds j next out e2
        (rw (← e3) (hastened-keeps interval id j config triggers names h))

  override_feeds-IsHastened :
      (interval : ℕ) (feeds : List String) (config out : RelayerConfig N)
      → override_feeds interval feeds config ≡ ok out
      → All (IsHastened interval out) feeds
  unfolding override_feeds
  override_feeds-IsHastened interval [] config out e = tt
  override_feeds-IsHastened interval (id ∷ feeds) config out e =
      let (next, e1, e2) = >>=-eq-ok (override_feed interval id config) _ e in
      let (triggers, names, e3) = override_feed-eq-ok interval id config next e1 in
      (
        override_feeds-keeps interval feeds id next out e2
            (rw (← e3) (hastened-IsHastened interval id config triggers names)),
        override_feeds-IsHastened interval feeds next out e2,
      )

  revert-override_feeds :
      (interval : ℕ) (feeds : List String) (saved config out : RelayerConfig N)
      → override_feeds interval feeds config ≡ ok out
      → revert saved out ≡ revert saved config
  unfolding override_feeds revert
  revert-override_feeds interval [] saved config out e = ap (revert saved) (sym (ok_injective e))
  revert-override_feeds interval (id ∷ feeds) saved config out e =
      let (next, e1, e2) = >>=-eq-ok (override_feed interval id config) _ e in
      let (triggers, names, e3) = override_feed-eq-ok interval id config next e1 in
      revert-override_feeds interval feeds saved next out e2 ∙ ap (revert saved) (sym e3)

  -- After an override that has not thrown every configured feed has the time condition and an interval
  -- that is at most the temporary one, and the timer's callback gives the configuration back as it
  -- was before.
  pub timely_override_since_last_update_lem :
      (config out : RelayerConfig N) (interval : ℕ)
      → timely_override_since_last_update config interval ≡ ok out
      → All (IsHastened interval out) config.data_feeds × (revert config out ≡ config)
  unfolding timely_override_since_last_update revert
  timely_override_since_last_update_lem config out interval e = (
    override_feeds-IsHastened interval config.data_feeds config out e,
    revert-override_feeds interval config.data_feeds config config out e,
  )
