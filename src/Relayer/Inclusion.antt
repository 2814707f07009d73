-- ===== src/Relayer/Inclusion.antt =====
-- The feeds that the gas optimization does not miss.
use redstone_oracles_monorep.Prelude.{
  ℕ, zero, suc, String, ◌≡◌, sym, ◌∙◌, inl, inr, arith, eq_iff, Bool, true, false, not, ◌||◌,
  Option, none, some, List, [], ◌∷◌, ◌==◌, length, ok, >>=-eq-ok, ok_injective, str_eq, Bool-cases,
}
use redstone_oracles_monorep.Prelude.Dict.{Dict, get}
use redstone_oracles_monorep.Relayer.Config.{Numbers, RelayerConfig, UpdateTriggers}
use redstone_oracles_monorep.Relayer.Deviation.{triggers_of}
use redstone_oracles_monorep.Relayer.MultiFeed.{ShouldUpdateResponse}
use redstone_oracles_monorep.Relayer.ExtraFeeds.{
  includes, syncs, with_feed, include_close, include_close_if, include_feeds_close_to_deviation,
  include_synchronized, include_synchronized_heartbeat_updates, add_extra_feeds_to_update_params,
}
use redstone_oracles_monorep.Relayer.Additions.{includes-append, HasEntry, triggers_of-eq-ok}

with_feed-keeps :
    (ids : List String) (id : String) (test : Bool) (j : String)
    → includes ids j ≡ true
    → includes (with_feed ids id test) j ≡ true
with_feed-keeps ids id test j h = ground (arith, includes-append ids id j)

with_feed-includes :
    (ids : List String) (id : String) (test : Bool)
    → test ≡ true
    → includes (with_feed ids id test) id ≡ true
with_feed-includes ids id test h = ground (arith, includes-append ids id id, eq_iff id id)

module _ (N : Numbers) (config : RelayerConfig N) where
  pub include_close-keeps :
      (entries : Dict N.Float) (ids : List String) (threshold : N.Float) (j : String)
      → includes ids j ≡ true
      → includes (include_close N ids entries threshold) j ≡ true
  include_close-keeps [] ids threshold j h = h
  include_close-keeps ((id, ratio) ∷ entries) ids threshold j h =
      include_close-keeps entries (with_feed ids id (N.at_least ratio threshold)) threshold j
        (with_feed-keeps ids id (N.at_least ratio threshold) j h)

  include_close-includes :
      (entries : Dict N.Float) (ids : List String) (threshold : N.Float) (id : String)
      (ratio : N.Float)
      → HasEntry entries id ratio
      → N.at_least ratio threshold ≡ true
      → includes (include_close N ids entries threshold) id ≡ true
  include_close-includes [] ids threshold id ratio m h = elim m [ ]
  include_close-includes ((j, w) ∷ entries) ids threshold id ratio (inl here) h =
      include_close-keeps entries (with_feed ids j (N.at_least w threshold)) threshold id
        (rw (here.0, here.1) (with_feed-includes ids id (N.at_least ratio threshold) h))
  include_close-includes ((j, w) ∷ entries) ids threshold id ratio (inr m) h =
      include_close-includes entries (with_feed ids j (N.at_least w threshold)) threshold id ratio m
        h

  include_synchronized-keeps :
      (feeds : List String) (ids : List String) (beats : List ℕ) (out : List String) (j : String)
      → includes ids j ≡ true
      → include_synchronized N ids beats feeds config ≡ ok out
      → includes out j ≡ true
  include_synchronized-keeps [] ids beats out j h e = rw (← ok_injective e) h
  include_synchronized-keeps (id ∷ feeds) ids beats out j h e =
      let (triggers, e1, e2) = >>=-eq-ok (triggers_of N (get config.update_triggers id)) _ e in
      let test = syncs beats triggers.time_since_last_update in
      include_synchronized-keeps feeds (with_feed ids id test) beats out j
        (with_feed-keeps ids id test j h) e2

  include_synchronized-includes :
      (feeds : List String) (ids : List String) (beats : List ℕ) (out : List String) (id : String)
      (triggers : UpdateTriggers N)
      → includes feeds id ≡ true
      → get config.update_triggers id ≡ some triggers
      → syncs beats triggers.time_since_last_update ≡ true
      → include_synchronized N ids beats feeds config ≡ ok out
      → includes out id ≡ true
  include_synchronized-includes [] ids beats out id triggers m g h e = cc
  include_synchronized-includes (j ∷ feeds) ids beats out id triggers m g h e =
      let (read, e1, e2) = >>=-eq-ok (triggers_of N (get config.update_triggers j)) _ e in
      let test = syncs beats read.time_since_last_update in
      elim (Bool-cases (str_eq j id)) [
        | inl same ↦
            (let j≡id : j ≡ id = ground (arith, eq_iff j id) in
              let registered : get config.update_triggers j ≡ some triggers = rw j≡id g in
              let found =
                sym registered
                ∙ triggers_of-eq-ok N config (get config.update_triggers j) read e1 in
              let same_triggers : triggers ≡ read = cc in
              include_synchronized-keeps feeds (with_feed ids j test) beats out id
                (rw (← j≡id) (with_feed-includes ids j test (rw (← same_triggers) h))) e2)
        | inr other ↦
            include_synchronized-includes feeds (with_feed ids j test) beats out id triggers
              (ground arith) g h e2
      ]

  pub synchronized-keeps :
      (ids : List String) (beats : List ℕ) (out : List String) (id : String)
      → includes ids id ≡ true
      → include_synchronized_heartbeat_updates N ids beats config ≡ ok out
      → includes out id ≡ true
  unfolding include_synchronized_heartbeat_updates
  synchronized-keeps ids beats out id h e =
      elim (Bool-cases (not config.sync_heartbeats || length beats == 0)) [
        | inl off ↦ rw (← ok_injective (rw off at e)) h
        | inr enabled ↦
            include_synchronized-keeps config.data_feeds ids beats out id h (rw enabled at e)
      ]

  syncs-length :
      (beats : List ℕ) (interval : Option ℕ)
      → syncs beats interval ≡ true
      → (length beats == 0) ≡ false
  syncs-length beats none h = cc
  syncs-length beats (some zero) h = cc
  syncs-length [] (some (suc n)) h = cc
  syncs-length (beat ∷ beats) (some (suc n)) h = ground arith

  -- A feed whose deviation reaches the configured share, which is not 0, is part of the update.
  pub add_extra_feeds-includes_close :
      (args : ShouldUpdateResponse N) (out : List String) (id : String) (ratio threshold : N.Float)
      → add_extra_feeds_to_update_params N config args ≡ ok out
      → config.additional_updates_deviation_threshold ≡ some threshold
      → N.is_truthy threshold ≡ true
      → HasEntry args.deviation_ratios id ratio
      → N.at_least ratio threshold ≡ true
      → includes out id ≡ true
  unfolding add_extra_feeds_to_update_params include_feeds_close_to_deviation
  add_extra_feeds-includes_close args out id ratio threshold e configured nonzero m h =
      let close =
        include_close_if N args.data_feeds_to_update args.deviation_ratios
          config.additional_updates_deviation_threshold in
      let closed : includes close id ≡ true =
        rw (configured, nonzero)
          (include_close-includes args.deviation_ratios args.data_feeds_to_update threshold id ratio
            m h) in
      synchronized-keeps close args.heartbeat_updates out id closed e

  -- A configured feed whose interval divides a heartbeat of the update is part of the update, where
  -- synchronization is on.
  pub add_extra_feeds-includes_synchronized :
      (args : ShouldUpdateResponse N) (out : List String) (id : String)
      (triggers : UpdateTriggers N)
      → add_extra_feeds_to_update_params N config args ≡ ok out
      → config.sync_heartbeats ≡ true
      → includes config.data_feeds id ≡ true
      → get config.update_triggers id ≡ some triggers
      → syncs args.heartbeat_updates triggers.time_since_last_update ≡ true
      → includes out id ≡ true
  unfolding add_extra_feeds_to_update_params include_feeds_close_to_deviation
      include_synchronized_heartbeat_updates
  add_extra_feeds-includes_synchronized args out id triggers e on m g h =
      let close =
        include_close_if N args.data_feeds_to_update args.deviation_ratios
          config.additional_updates_deviation_threshold in
      let beats = args.heartbeat_updates in
      let enabled : (not config.sync_heartbeats || length beats == 0) ≡ false =
        rw (on, syncs-length beats triggers.time_since_last_update h) in
      include_synchronized-includes config.data_feeds close beats out id triggers m g h
        (rw enabled at e)
