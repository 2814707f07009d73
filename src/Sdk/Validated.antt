-- ===== src/Sdk/Validated.antt =====
-- request-data-packages.ts: what a response that has been validated holds.
use redstone_oracles_monorep.Prelude.{
  ℕ, ◌≤◌, ◌==◌, String, Bool, true, false, Option, none, some, List, [], ◌∷◌, Result, ok, err,
  >>=-eq-ok, ok_injective, if_cases, length, All, All-mono, ◌≡◌, ◌⊎◌, ap, ◌∙◌, arith, inl, inr,
}
use redstone_oracles_monorep.Relayer.Config.{Numbers, RelayerError, SignedDataPackage}
use redstone_oracles_monorep.Relayer.Packages.{all_same, check_and_get_same_timestamp}
use redstone_oracles_monorep.Sdk.Closest.{pick_data_feed_packages_closest_to_median}
use redstone_oracles_monorep.Sdk.Picking.{All-pick, length-pick}
use redstone_oracles_monorep.Sdk.Requests.{
  RequestError, DataPackagesRequestParams, is_expected, is_deviated, of_relayer, selected,
  validated,
}

module _ (N : Numbers) where
  all_same-All :
      (t : ℕ) (packages : List (SignedDataPackage N))
      → all_same N t packages ≡ true
      → All (λ p. p.timestamp ≡ t) packages
  all_same-All t [] h = tt
  all_same-All t (pkg ∷ packages) h =
      if_cases (λ (b : Bool). b ≡ true → All (λ p. p.timestamp ≡ t) (pkg ∷ packages))
        (pkg.timestamp == t) (all_same N t packages) false
        (λ same rest. (ground (arith, same), all_same-All t packages rest)) (λ differs e. cc) h

  same_timestamp-All :
      (packages : List (SignedDataPackage N)) (t : ℕ)
      → check_and_get_same_timestamp N packages ≡ ok t
      → All (λ p. p.timestamp ≡ t) packages
  unfolding check_and_get_same_timestamp
  same_timestamp-All [] t h = cc
  same_timestamp-All (pkg ∷ packages) t h =
      if_cases
        (λ (r : Result RelayerError ℕ). r ≡ ok t → All (λ p. p.timestamp ≡ t) (pkg ∷ packages))
        (all_same N pkg.timestamp packages) _ _
        (λ same e.
          let k : pkg.timestamp ≡ t = ok_injective e in
          (
            k,
            All-mono (λ p. p.timestamp ≡ pkg.timestamp) (λ p same_time. same_time ∙ k) packages
                (all_same-All pkg.timestamp packages same),
          ))
        (λ differs e. cc) h

  module _ (params : DataPackagesRequestParams) where
    of_relayer-eq-ok :
        {A : Type 0} (r : Result RelayerError A) (out : A)
        → of_relayer N params r ≡ ok out
        → r ≡ ok out
    of_relayer-eq-ok (err thrown) out h = cc
    of_relayer-eq-ok (ok value) out h = ap ok (ok_injective h)

    -- The signer is expected, where signers are given.
    abbrev pub IsExpected : Option (List String) → SignedDataPackage N → Type 0
    IsExpected none pkg = Unit {0}
    IsExpected (some expected) pkg = is_expected N params expected pkg.signer ≡ true

    -- As many packages as asked: at least so many where the choice is off, and exactly so many else.
    abbrev pub HasCount : ℕ → Type 0
    HasCount count =
        ((params.disable_median_selection ≡ true) × (params.unique_signers_count ≤ count))
        ⊎ ((params.disable_median_selection ≡ false) × (count ≡ params.unique_signers_count))

    -- A feed's packages in a validated response.
    abbrev pub IsValidFeed : (String → ℕ) → (String × List (SignedDataPackage N)) → Type 0
    IsValidFeed clock (id, packages) =
        (timestamp : ℕ) × All (λ p. p.timestamp ≡ timestamp) packages
        × (is_deviated N params params.max_timestamp_deviation_ms (clock id) timestamp ≡ false)
        × All (IsExpected params.authorized_signers) packages
        × HasCount (length packages)

    selected-HasCount :
        (packages chosen : List (SignedDataPackage N))
        → params.unique_signers_count ≤ length packages
        → selected N params packages ≡ ok chosen
        → HasCount (length chosen)
          × ((P : SignedDataPackage N → Type 0) → All P packages → All P chosen)
    selected-HasCount packages chosen enough h =
        if_cases
          (λ (r : Result RequestError (List (SignedDataPackage N))).
            r ≡ ok chosen
            → HasCount (length chosen)
              × ((P : SignedDataPackage N → Type 0) → All P packages → All P chosen))
          params.disable_median_selection _ _
          (λ off e.
            let same : packages ≡ chosen = ok_injective e in
            (inl (off, rw (← same) enough), (λ P all. rw (← same) all)))
          (λ on e.
            let picked =
              of_relayer-eq-ok
                (pick_data_feed_packages_closest_to_median N packages params.unique_signers_count)
                chosen e in
            (
              inr (
                on,
                length-pick N packages params.unique_signers_count chosen picked
                    ∙ omega (arith, enough),
              ),
              (λ P all. All-pick N P packages params.unique_signers_count chosen picked all),
            ))
          h

    pub validated-IsValidFeed :
        (clock : String → ℕ) (id : String) (packages chosen : List (SignedDataPackage N))
        → params.unique_signers_count ≤ length packages
        → All (IsExpected params.authorized_signers) packages
        → validated N params packages (clock id) ≡ ok chosen
        → IsValidFeed clock (id, chosen)
    unfolding validated
    validated-IsValidFeed clock id packages chosen enough expected h =
        let (t, same, h1) =
          >>=-eq-ok (of_relayer N params (check_and_get_same_timestamp N packages)) _ h in
        let times =
          same_timestamp-All packages t
            (of_relayer-eq-ok (check_and_get_same_timestamp N packages) t same) in
        if_cases
          (λ (r : Result RequestError (List (SignedDataPackage N))).
            r ≡ ok chosen → IsValidFeed clock (id, chosen))
          (is_deviated N params params.max_timestamp_deviation_ms (clock id) t) _ _ (λ far e. cc)
          (λ close e.
            let (counted, kept) = selected-HasCount packages chosen enough e in
            (
              t,
              kept (λ p. p.timestamp ≡ t) times,
              close,
              kept (IsExpected params.authorized_signers) expected,
              counted,
            ))
          h1
