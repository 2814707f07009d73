-- ===== src/Relayer/Iteration.antt =====
-- The arguments of a multi-feed iteration.
use redstone_oracles_monorep.Prelude.{
  String, true, Option, none, some, List, [], ◌∷◌, ok, ◌≡◌, ap, sym, ◌∙◌, arith, eq_iff, All,
  length, ltb, >>=-eq-ok, ok_injective, Bool-cases, inl, inr, if◌then◌else◌,
}
use redstone_oracles_monorep.Prelude.Dict.{Dict}
use redstone_oracles_monorep.Relayer.Config.{Numbers, ContractData, RelayerConfig, Environment}
use redstone_oracles_monorep.Relayer.MultiFeed.{ShouldUpdateResponse, should_update_in_multi_feed}
use redstone_oracles_monorep.Relayer.Newer.{IsJustified, should_update_in_multi_feed-IsJustified}
use redstone_oracles_monorep.Relayer.ExtraFeeds.{
  includes, include_close_if, include_feeds_close_to_deviation, add_extra_feeds_to_update_params,
  IterationArgs, get_multi_feed_iteration_args,
}
use redstone_oracles_monorep.Relayer.Inclusion.{include_close-keeps, synchronized-keeps}

first_of :
    (P : String → Type 0) (ids : List String)
    → All P ids
    → ltb 0 (length ids) ≡ true
    → (id : String) × P id × (includes ids id ≡ true)
first_of P [] h k = absurd (ground (arith, k))
first_of P (id ∷ ids) h k = (id, h.0, ground (arith, eq_iff id id))

module _ (N : Numbers) (env : Environment N) (config : RelayerConfig N) where
  include_close_if-keeps :
      (ids : List String) (ratios : Dict N.Float) (o : Option N.Float) (id : String)
      → includes ids id ≡ true
      → includes (include_close_if N ids ratios o) id ≡ true
  include_close_if-keeps ids ratios none id h = h
  include_close_if-keeps ids ratios (some threshold) id h =
      elim (Bool-cases (N.is_truthy threshold)) [
        | inl nonzero ↦ rw nonzero (include_close-keeps N config ratios ids threshold id h)
        | inr falsy ↦ rw falsy h
      ]

  add_extra_feeds-keeps :
      (args : ShouldUpdateResponse N) (out : List String) (id : String)
      → includes args.data_feeds_to_update id ≡ true
      → add_extra_feeds_to_update_params N config args ≡ ok out
      → includes out id ≡ true
  unfolding add_extra_feeds_to_update_params include_feeds_close_to_deviation
  add_extra_feeds-keeps args out id h e =
      let threshold = config.additional_updates_deviation_threshold in
      synchronized-keeps N config
        (include_close_if N args.data_feeds_to_update args.deviation_ratios threshold)
        args.heartbeat_updates out id
        (include_close_if-keeps args.data_feeds_to_update args.deviation_ratios threshold id h) e

  -- A multi-feed iteration that is to update has a feed among those that it updates that needs it:
  -- configured, with packages newer than the contract's and a condition that holds.
  pub get_multi_feed_iteration_args-IsJustified :
      (contract : ContractData) (args : IterationArgs N)
      → get_multi_feed_iteration_args N env contract config ≡ ok args
      → args.should_update_prices ≡ true
      → (id : String) × IsJustified N env config contract id
        × (includes args.data_feeds_to_update id ≡ true)
  unfolding get_multi_feed_iteration_args
  get_multi_feed_iteration_args-IsJustified contract args e h =
      let (found, e1, e2) = >>=-eq-ok (should_update_in_multi_feed N env contract config) _ e in
      let feeds = found.0.data_feeds_to_update in
      let step =
        if ltb 0 (length feeds)
        then add_extra_feeds_to_update_params N config found.0
        else ok feeds in
      let (ids, e3, e4) = >>=-eq-ok step _ e2 in
      let asked : ltb 0 (length feeds) ≡ true =
        ap (λ a. a.should_update_prices) (ok_injective e4) ∙ h in
      let (id, justified, listed) =
        first_of (IsJustified N env config contract) feeds
          (should_update_in_multi_feed-IsJustified N env config contract found.0 found.1 e1)
          asked in
      (
        id,
        justified,
        sym (ap (λ a. includes a.data_feeds_to_update id) (ok_injective e4))
            ∙ add_extra_feeds-keeps found.0 ids id listed (rw asked at e3),
      )
