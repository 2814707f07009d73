-- ===== src/Sdk/FeedResults.antt =====
-- request-data-packages.ts: what becomes of one feed of a response.
use redstone_oracles_monorep.Prelude.{
  ℕ, ◌==◌, String, true, Option, none, some, List, [], ◌∷◌, Result, ok, >>=-eq-ok, ok_injective,
  if_cases, filter, length, ltb, All, ◌≡◌, arith, Bool-cases, inl, inr,
}
use redstone_oracles_monorep.Relayer.Config.{Numbers, SignedDataPackage}
use redstone_oracles_monorep.Sdk.Requests.{
  RequestError, feed_missing, no_packages_for_feed, DataPackagesRequestParams, is_expected,
  with_expected_signers, validated, missing, check_count, feed_packages,
}
use redstone_oracles_monorep.Sdk.Validated.{IsExpected, IsValidFeed, validated-IsValidFeed}

module _ (N : Numbers) (params : DataPackagesRequestParams) where
  filter-IsExpected :
      (expected : List String) (packages : List (SignedDataPackage N))
      → All
          (λ p. is_expected N params expected p.signer ≡ true)
          (filter (λ p. is_expected N params expected p.signer) packages)
  filter-IsExpected expected [] = tt
  filter-IsExpected expected (pkg ∷ packages) =
      elim (Bool-cases (is_expected N params expected pkg.signer)) [
        | inl kept ↦ rw kept (kept, filter-IsExpected expected packages)
        | inr dropped ↦ rw dropped (filter-IsExpected expected packages)
      ]

  with_expected_signers-IsExpected :
      (expected : Option (List String)) (packages : List (SignedDataPackage N))
      → All (IsExpected N params expected) (with_expected_signers N params expected packages)
  with_expected_signers-IsExpected none [] = tt
  with_expected_signers-IsExpected none (pkg ∷ packages) =
      (tt, with_expected_signers-IsExpected none packages)
  with_expected_signers-IsExpected (some expected) packages = filter-IsExpected expected packages

  -- What becomes of a feed: valid packages, or nothing if missing feeds are ignored.
  abbrev pub IsFeedResult : (String → ℕ) → String → Option (List (SignedDataPackage N)) → Type 0
  IsFeedResult clock id none = params.ignore_missing_feed ≡ true
  IsFeedResult clock id (some packages) = IsValidFeed N params clock (id, packages)

  missing-IsFeedResult :
      (clock : String → ℕ) (id : String) (error : RequestError)
      (result : Option (List (SignedDataPackage N)))
      → missing N params error ≡ ok result
      → IsFeedResult clock id result
  missing-IsFeedResult clock id error result h =
      if_cases
        (λ (r : Result RequestError (Option (List (SignedDataPackage N)))).
          r ≡ ok result → IsFeedResult clock id result)
        params.ignore_missing_feed _ _
        (λ ignored e. let same : none ≡ result = ok_injective e in rw (← same) ignored)
        (λ strict e. cc) h

  check_count-IsFeedResult :
      (clock : String → ℕ) (id : String) (packages : List (SignedDataPackage N))
      (result : Option (List (SignedDataPackage N)))
      → All (IsExpected N params params.authorized_signers) packages
      → check_count N params packages (clock id) ≡ ok result
      → IsFeedResult clock id result
  check_count-IsFeedResult clock id packages result expected h =
      if_cases
        (λ (r : Result RequestError (Option (List (SignedDataPackage N)))).
          r ≡ ok result → IsFeedResult clock id result)
        (length packages == 0) _ _
        (λ empty e. missing-IsFeedResult clock id no_packages_for_feed result e)
        (λ some_package e.
          if_cases
            (λ (r : Result RequestError (Option (List (SignedDataPackage N)))).
              r ≡ ok result → IsFeedResult clock id result)
            (ltb (length packages) params.unique_signers_count) _ _ (λ few e. cc)
            (λ enough e.
              let (chosen, valid, e1) = >>=-eq-ok (validated N params packages (clock id)) _ e in
              let same : some chosen ≡ result = ok_injective e1 in
              rw (← same) (
                validated-IsValidFeed N params clock id packages chosen (ground (arith, enough))
                  expected valid))
            e)
        h

  pub feed_packages-IsFeedResult :
      (clock : String → ℕ) (id : String) (found : Option (List (SignedDataPackage N)))
      (result : Option (List (SignedDataPackage N)))
      → feed_packages N params found (clock id) ≡ ok result
      → IsFeedResult clock id result
  feed_packages-IsFeedResult clock id none result h =
      missing-IsFeedResult clock id feed_missing result h
  feed_packages-IsFeedResult clock id (some packages) result h =
      check_count-IsFeedResult clock id
        (with_expected_signers N params params.authorized_signers packages) result
        (with_expected_signers-IsExpected params.authorized_signers packages) h
