-- ===== src/Rpc/Quarantine.antt =====
-- CuratedRpcList.ts: `getBestProviders` ends.
use redstone_oracles_monorep.Prelude.{
  ℕ, zero, suc, ◌+◌, ◌-◌, ◌≤◌, ◌<◌, String, Option, some, List, [], ◌∷◌, map, length, ltb, if_cases,
  length-map, ◌≡◌, refl, ap, ◌∙◌, arith, Bool-cases, inl, inr,
}
use redstone_oracles_monorep.Prelude.Dict.{Dict, keys}
use redstone_oracles_monorep.Rpc.CuratedList.{
  Score, Weights, choose_weight, weighted_random, in_quarantine_of, release_at,
  free_one_rpc_from_quarantine, healthy_providers, get_best_providers,
}

module _ (W : Weights) where
  -- An index is chosen below the bound that the last one has.
  choose_weight_lem :
      (weights : List W.Weight) (random : W.Weight) (i last : ℕ)
      → i + length weights ≤ suc last
      → (index : ℕ) × (choose_weight W weights random i (some last) ≡ some index) × (index ≤ last)
  choose_weight_lem [] random i last h = (last, refl, omega arith)
  choose_weight_lem (weight ∷ weights) random i last h =
      if_cases (λ (o : Option ℕ). (index : ℕ) × (o ≡ some index) × (index ≤ last))
        (W.is_negative (W.subtract random weight)) _ _ (λ chosen. (i, refl, omega (arith, h)))
        (λ later.
          choose_weight_lem weights (W.subtract random weight) (suc i) last (omega (arith, h)))

  weighted_random_lem :
      (weights : List W.Weight) (draw : ℕ)
      → 1 ≤ length weights
      → (index : ℕ) × (weighted_random W weights draw ≡ some index) × (index < length weights)
  unfolding weighted_random
  weighted_random_lem [] draw h = absurd (omega (arith, h))
  weighted_random_lem (weight ∷ weights) draw h =
      let (index, chosen, bounded) =
        choose_weight_lem (weight ∷ weights) _ 0 (length weights) (omega arith) in
      (index, chosen, omega (arith, bounded))

  abbrev pub quarantined : Dict Score → ℕ
  quarantined state = length (in_quarantine_of W state)

  quarantined-release_at :
      (state : Dict Score) (index : ℕ)
      → index < quarantined state
      → (suc (quarantined (release_at W state index)) ≡ quarantined state)
        × (keys (release_at W state index) ≡ keys state)
  unfolding keys
  quarantined-release_at [] index h = absurd (omega (arith, h))
  quarantined-release_at ((rpc, score) ∷ state) index h = elim (Bool-cases score.in_quarantine) [
    | inl inside ↦ elim (Bool-cases (ltb 0 index)) [
      | inl later ↦
          let (counted, same) =
            quarantined-release_at state (index - 1) (ground (arith, h, inside, later)) in
          rw (inside, later) (ap suc counted, ap (λ ks. rpc ∷ ks) same)
      | inr here ↦ rw (inside, here) (refl, refl)
    ]
    | inr outside ↦
        let (counted, same) = quarantined-release_at state index (ground (arith, h, outside)) in
        rw outside (counted, ap (λ ks. rpc ∷ ks) same)
  ]

  -- Every provider is healthy or in quarantine.
  length-healthy :
      (state : Dict Score)
      → length (healthy_providers W state) + quarantined state ≡ length (keys state)
  unfolding keys
  length-healthy [] = omega arith
  length-healthy ((rpc, score) ∷ state) = ground (arith, length-healthy state)

  free_one_lem :
      (state : Dict Score) (draw : ℕ)
      → 1 ≤ quarantined state
      → (suc (quarantined (free_one_rpc_from_quarantine W state draw)) ≡ quarantined state)
        × (keys (free_one_rpc_from_quarantine W state draw) ≡ keys state)
  unfolding free_one_rpc_from_quarantine
  free_one_lem state draw some_inside =
      let weights =
        map (λ (entry : String × Score). W.inverse_of entry.1.quarantine_counter)
          (in_quarantine_of W state) in
      let long : length weights ≡ quarantined state = length-map (in_quarantine_of W state) _ in
      let (index, chosen, bounded) =
        weighted_random_lem weights draw (omega (arith, long, some_inside)) in
      rw chosen (quarantined-release_at state index (omega (arith, long, bounded)))

  -- For a list of at least as many providers as required, whatever is drawn: as many calls as there
  -- are providers in quarantine, and one more, are enough for `getBestProviders` to return; it returns
  -- at least as many providers as required, exactly those that are then not in quarantine; the list
  -- has the same providers as before, and no more of them are in quarantine.
  pub get_best_providers_returns :
      (fuel minimal : ℕ) (state : Dict Score) (draws : ℕ → ℕ)
      → minimal ≤ length (keys state)
      → quarantined state < fuel
      → (providers : List String) × (after : Dict Score) × (get_best_providers W fuel minimal state
            draws
          ≡ some (providers, after))
        × (minimal ≤ length providers)
        × (providers ≡ healthy_providers W after)
        × (keys after ≡ keys state)
        × (quarantined after ≤ quarantined state)
  unfolding get_best_providers
  get_best_providers_returns zero minimal state draws enough h = absurd (omega (arith, h))
  get_best_providers_returns (suc fuel) minimal state draws enough h =
      if_cases
        (λ (o : Option (List String × Dict Score)).
          (providers : List String) × (after : Dict Score) × (o ≡ some (providers, after))
          × (minimal ≤ length providers)
          × (providers ≡ healthy_providers W after)
          × (keys after ≡ keys state)
          × (quarantined after ≤ quarantined state))
        (ltb (length (healthy_providers W state)) minimal) _ _
        (λ few.
          let inside : 1 ≤ quarantined state = ground (arith, few, length-healthy state, enough) in
          let (counted, same) = free_one_lem state (draws fuel) inside in
          let (providers, after, returns, many, named, kept, fewer) =
            get_best_providers_returns fuel minimal
              (free_one_rpc_from_quarantine W state (draws fuel)) draws (rw same enough)
              (omega (arith, counted, h)) in
          (providers, after, returns, many, named, kept ∙ same, omega (arith, counted, fewer)))
        (λ enough_healthy. (
          healthy_providers W state,
          state,
          refl,
          ground (arith, enough_healthy),
          refl,
          refl,
          omega arith,
        ))
