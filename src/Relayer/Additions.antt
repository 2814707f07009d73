-- ===== src/Relayer/Additions.antt =====
-- What the gas optimization adds to an update.
use redstone_oracles_monorep.Prelude.{
  ℕ, String, ◌≡◌, refl, sym, ap, ◌∙◌, ◌⊎◌, inl, inr, arith, eq_iff, Bool, true, false, not, ◌&&◌,
  ◌||◌, Option, none, some, List, [], ◌∷◌, ◌++◌, append-nil, append_assoc, ok, >>=-eq-ok,
  ok_injective, All, str_eq, Bool-cases, length, ◌==◌,
}
use redstone_oracles_monorep.Prelude.Dict.{Dict, get}
use redstone_oracles_monorep.Relayer.Config.{Numbers, RelayerConfig, UpdateTriggers}
use redstone_oracles_monorep.Relayer.Deviation.{triggers_of}
use redstone_oracles_monorep.Relayer.MultiFeed.{ShouldUpdateResponse}
use redstone_oracles_monorep.Relayer.ExtraFeeds.{
  includes, syncs, with_feed, include_close, include_close_if, include_feeds_close_to_deviation,
  include_synchronized, include_synchronized_heartbeat_updates, add_extra_feeds_to_update_params,
}

-- No feed stands twice in the list.
abbrev pub Distinct : List String → Type 0
Distinct [] = Unit
Distinct (id ∷ ids) = (includes ids id ≡ false) × Distinct ids

pub includes-append :
    (ids : List String) (id j : String)
    → includes (ids ++ id ∷ []) j ≡ (includes ids j || str_eq id j)
includes-append [] id j = ground arith
includes-append (k ∷ ids) id j = ground (arith, includes-append ids id j)

Distinct-append :
    (ids : List String) (id : String)
    → includes ids id ≡ false
    → Distinct ids
    → Distinct (ids ++ id ∷ [])
Distinct-append [] id h d = (refl, tt)
Distinct-append (j ∷ ids) id h d = (
  ground (arith, includes-append ids id j, d.0, eq_iff id j, eq_iff j id),
  Distinct-append ids id (ground arith) d.1,
)

-- A list that grew out of another one: feeds with a property were put behind it, none of them twice.
pub record IsGrown (Q : String → Type 0) (old new : List String) : Type 0 where
  pub extra : List String
  pub appended : new ≡ old ++ extra
  pub qualified : All Q extra
  pub distinct : Distinct new

All-append :
    (Q : String → Type 0) (ids : List String) (id : String)
    → All Q ids
    → Q id
    → All Q (ids ++ id ∷ [])
All-append Q [] id h q = (q, tt)
All-append Q (j ∷ ids) id h q = (h.0, All-append Q ids id h.1 q)

-- The step that both loops take: put a feed behind the list if it is not there and a test holds.
IsGrown-push :
    (Q : String → Type 0) (old new : List String) (id : String) (test : Bool)
    → IsGrown Q old new
    → (test ≡ true → Q id)
    → IsGrown Q old (with_feed new id test)
IsGrown-push Q old new id test g q = elim (Bool-cases (not (includes new id) && test)) [
  | inl pushed ↦ rw pushed (record {
    extra = g.extra ++ id ∷ [];
    appended = ap (λ ids. ids ++ id ∷ []) g.appended ∙ (simp append_assoc);
    qualified = All-append Q g.extra id g.qualified (q (ground arith));
    distinct = Distinct-append new id (ground arith) g.distinct;
  })
  | inr kept ↦ rw kept g
]

unchanged : (Q : String → Type 0) (ids : List String) → Distinct ids → IsGrown Q ids ids
unchanged Q ids d = record {
  extra = [];
  appended = sym (append-nil ids);
  qualified = tt;
  distinct = d;
}

-- `entries` has the pair.
abbrev pub HasEntry : {V : Type 0} → Dict V → String → V → Type 0
HasEntry [] id value = ⊥
HasEntry ((j, w) ∷ entries) id value = ((j ≡ id) × (w ≡ value)) ⊎ HasEntry entries id value

module _ (N : Numbers) (config : RelayerConfig N) where
  -- The feed's deviation reaches the configured share of its condition.
  pub record IsClose (ratios : Dict N.Float) (id : String) : Type 0 where
    pub threshold : N.Float
    pub ratio : N.Float
    pub configured : config.additional_updates_deviation_threshold ≡ some threshold
    pub entry : HasEntry ratios id ratio
    pub reached : N.at_least ratio threshold ≡ true

  -- Synchronization is on, and the feed's interval divides one of the heartbeats.
  pub record IsSynchronized (beats : List ℕ) (id : String) : Type 0 where
    pub enabled : config.sync_heartbeats ≡ true
    pub triggers : UpdateTriggers N
    pub configured : get config.update_triggers id ≡ some triggers
    pub divides : syncs beats triggers.time_since_last_update ≡ true

  abbrev pub Qualifies : ShouldUpdateResponse N → String → Type 0
  Qualifies args id = IsClose args.deviation_ratios id ⊎ IsSynchronized args.heartbeat_updates id

  include_close-IsGrown :
      (Q : String → Type 0) (old new : List String) (entries : Dict N.Float) (threshold : N.Float)
      → ((id : String) (ratio : N.Float)
          → HasEntry entries id ratio
          → N.at_least ratio threshold ≡ true
          → Q id)
      → IsGrown Q old new
      → IsGrown Q old (include_close N new entries threshold)
  include_close-IsGrown Q old new [] threshold q g = g
  include_close-IsGrown Q old new ((id, ratio) ∷ entries) threshold q g =
      include_close-IsGrown Q old (with_feed new id (N.at_least ratio threshold)) entries threshold
        (λ j r m. q j r (inr m))
        (IsGrown-push Q old new id (N.at_least ratio threshold) g (q id ratio (inl (refl, refl))))

  pub triggers_of-eq-ok :
      (o : Option (UpdateTriggers N)) (triggers : UpdateTriggers N)
      → triggers_of N o ≡ ok triggers
      → o ≡ some triggers
  triggers_of-eq-ok none triggers e = cc
  triggers_of-eq-ok (some t) triggers e = ap some (ok_injective e)

  include_synchronized-IsGrown :
      (Q : String → Type 0) (old new : List String) (beats : List ℕ) (feeds out : List String)
      → ((id : String) (triggers : UpdateTriggers N)
          → get config.update_triggers id ≡ some triggers
          → syncs beats triggers.time_since_last_update ≡ true
          → Q id)
      → IsGrown Q old new
      → include_synchronized N new beats feeds config ≡ ok out
      → IsGrown Q old out
  include_synchronized-IsGrown Q old new beats [] out q g e = rw (← ok_injective e) g
  include_synchronized-IsGrown Q old new beats (id ∷ feeds) out q g e =
      let (triggers, e1, e2) = >>=-eq-ok (triggers_of N (get config.update_triggers id)) _ e in
      include_synchronized-IsGrown Q old
        (with_feed new id (syncs beats triggers.time_since_last_update)) beats feeds out q
        (IsGrown-push Q old new id (syncs beats triggers.time_since_last_update) g
          (q id triggers (triggers_of-eq-ok (get config.update_triggers id) triggers e1)))
        e2

  close_if-IsGrown :
      (args : ShouldUpdateResponse N) (o : Option N.Float)
      → config.additional_updates_deviation_threshold ≡ o
      → Distinct args.data_feeds_to_update
      → IsGrown
          (Qualifies args)
          args.data_feeds_to_update
          (include_close_if N args.data_feeds_to_update args.deviation_ratios o)
  close_if-IsGrown args none e d = unchanged (Qualifies args) args.data_feeds_to_update d
  close_if-IsGrown args (some threshold) e d = elim (Bool-cases (N.is_truthy threshold)) [
    | inl positive ↦ rw positive (
        include_close-IsGrown (Qualifies args) args.data_feeds_to_update args.data_feeds_to_update
          args.deviation_ratios threshold
          (λ id ratio m h. inl (record {
            threshold = threshold;
            ratio = ratio;
            configured = e;
            entry = m;
            reached = h;
          }))
          (unchanged (Qualifies args) args.data_feeds_to_update d))
    | inr falsy ↦ rw falsy (unchanged (Qualifies args) args.data_feeds_to_update d)
  ]

  -- The gas optimization only puts feeds behind those that need an update, none of them twice: feeds
  -- whose deviation reaches the configured share of the condition, and, where synchronization is
  -- on, configured feeds whose interval divides a heartbeat of the update.
  pub add_extra_feeds-IsGrown :
      (args : ShouldUpdateResponse N) (out : List String)
      → Distinct args.data_feeds_to_update
      → add_extra_feeds_to_update_params N config args ≡ ok out
      → IsGrown (Qualifies args) args.data_feeds_to_update out
  unfolding add_extra_feeds_to_update_params include_feeds_close_to_deviation
      include_synchronized_heartbeat_updates
  add_extra_feeds-IsGrown args out d e =
      let close =
        include_close_if N args.data_feeds_to_update args.deviation_ratios
          config.additional_updates_deviation_threshold in
      let g = close_if-IsGrown args config.additional_updates_deviation_threshold refl d in
      elim (Bool-cases (not config.sync_heartbeats || length args.heartbeat_updates == 0)) [
        | inl off ↦ rw (← ok_injective (rw off at e)) g
        | inr on ↦
            include_synchronized-IsGrown (Qualifies args) args.data_feeds_to_update close
              args.heartbeat_updates config.data_feeds out
              (λ id triggers c h. inr (record {
                enabled = ground arith;
                triggers = triggers;
                configured = c;
                divides = h;
              }))
              g (rw on at e)
      ]
