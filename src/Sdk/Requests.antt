-- ===== src/Sdk/Requests.antt =====
-- request-data-packages.ts: `parseAndValidateDataPackagesResponse`. The fetch of the response is left
-- out; logs are too.
use redstone_oracles_monorep.Prelude.{
  ℕ, ◌+◌, ◌-◌, ◌==◌, String, Bool, false, Option, none, some, List, [], ◌∷◌, Result, ok, err, ◌>>=◌,
  if◌then◌else◌, any, filter, length, ltb, str_eq,
}
use redstone_oracles_monorep.Prelude.Dict.{Dict, get, put}
use redstone_oracles_monorep.Relayer.Config.{
  Numbers, RelayerError, SignedDataPackage, DataPackagesResponse,
}
use redstone_oracles_monorep.Relayer.Packages.{check_and_get_same_timestamp}
use redstone_oracles_monorep.Sdk.Closest.{pick_data_feed_packages_closest_to_median}

pub data RequestError : Type 0 where
  invalid_response feed_missing no_packages_for_feed : RequestError
  too_few_unique_signers timestamp_deviation_exceeded : RequestError
  of_packages : RelayerError → RequestError

pub record DataPackagesRequestParams : Type 0 where
  pub data_packages_ids : List String
  pub unique_signers_count : ℕ
  pub max_timestamp_deviation_ms : Option ℕ
  pub authorized_signers : Option (List String)
  pub ignore_missing_feed : Bool
  pub disable_median_selection : Bool

module _ (N : Numbers) (params : DataPackagesRequestParams) where
  abbrev pub is_expected : List String → Option String → Bool
  is_expected expected none = false
  is_expected expected (some signer) = any (λ known. str_eq known signer) expected

  -- The filter, where there is a list of signers; `maybeGetSigner` gives the signer or undefined.
  abbrev pub with_expected_signers :
      Option (List String) → List (SignedDataPackage N) → List (SignedDataPackage N)
  with_expected_signers none packages = packages
  with_expected_signers (some expected) packages =
      filter (λ pkg. is_expected expected pkg.signer) packages

  abbrev pub deviation_of : ℕ → ℕ → ℕ
  deviation_of now timestamp = (now - timestamp) + (timestamp - now)

  -- A limit of 0 is falsy.
  abbrev pub is_deviated : Option ℕ → ℕ → ℕ → Bool
  is_deviated none now timestamp = false
  is_deviated (some limit) now timestamp =
      if limit == 0 then false else ltb limit (deviation_of now timestamp)

  abbrev pub of_relayer {ℓ} : {A : Type ℓ} → Result RelayerError A → Result RequestError A
  of_relayer (err thrown) = err (of_packages thrown)
  of_relayer (ok value) = ok value

  abbrev pub selected :
      List (SignedDataPackage N) → Result RequestError (List (SignedDataPackage N))
  selected packages =
      if params.disable_median_selection
      then ok packages
      else of_relayer
          (pick_data_feed_packages_closest_to_median N packages params.unique_signers_count)

  -- From the check of the timestamps on, for packages that are enough.
  unfoldable pub validated :
      List (SignedDataPackage N) → ℕ → Result RequestError (List (SignedDataPackage N))
  validated packages now = of_relayer (check_and_get_same_timestamp N packages) >>= λ timestamp.
      if is_deviated params.max_timestamp_deviation_ms now timestamp
      then err timestamp_deviation_exceeded
      else selected packages

  -- A feed's part: its packages; none where it is skipped.
  abbrev pub missing : RequestError → Result RequestError (Option (List (SignedDataPackage N)))
  missing error = if params.ignore_missing_feed then ok none else err error

  abbrev pub check_count :
      List (SignedDataPackage N) → ℕ → Result RequestError (Option (List (SignedDataPackage N)))
  check_count packages now =
      if length packages == 0
      then missing no_packages_for_feed
      else if ltb (length packages) params.unique_signers_count
      then err too_few_unique_signers
      else validated packages now >>= λ chosen. ok (some chosen)

  abbrev pub feed_packages :
      Option (List (SignedDataPackage N))
      → ℕ
      → Result RequestError (Option (List (SignedDataPackage N)))
  feed_packages none now = missing feed_missing
  feed_packages (some packages) now =
      check_count (with_expected_signers params.authorized_signers packages) now

  abbrev pub put_feed :
      DataPackagesResponse N → String → Option (List (SignedDataPackage N)) → DataPackagesResponse N
  put_feed parsed id none = parsed
  put_feed parsed id (some packages) = put parsed id packages

  -- The loop over the identifiers; the clock is read for each.
  unfoldable pub parse_feeds :
      Dict (List (SignedDataPackage N))
      → (String → ℕ)
      → List String
      → DataPackagesResponse N
      → Result RequestError (DataPackagesResponse N)
  unfolding validated
  parse_feeds feeds clock [] parsed = ok parsed
  parse_feeds feeds clock (id ∷ ids) parsed =
      feed_packages (get feeds id) (clock id) >>= λ packages.
      parse_feeds feeds clock ids (put_feed parsed id packages)

  -- The response data is none where the schema rejects it.
  unfoldable pub parse_and_validate_data_packages_response :
      Option (Dict (List (SignedDataPackage N)))
      → (String → ℕ)
      → Result RequestError (DataPackagesResponse N)
  unfolding parse_feeds
  parse_and_validate_data_packages_response none clock = err invalid_response
  parse_and_validate_data_packages_response (some feeds) clock =
      parse_feeds feeds clock params.data_packages_ids []
