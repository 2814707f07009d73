-- ===== src/Sdk/Response.antt =====
-- request-data-packages.ts: the response as a whole.
use redstone_oracles_monorep.Prelude.{
  ℕ, String, true, false, Option, none, some, List, [], ◌∷◌, ok, >>=-eq-ok, ok_injective, any,
  str_eq, is_some, All, All-mono, ◌≡◌, ◌⊎◌, arith, eq_iff, Bool-cases, inl, inr,
}
use redstone_oracles_monorep.Prelude.Dict.{Dict, get, get-put, All-put}
use redstone_oracles_monorep.Relayer.Config.{Numbers, SignedDataPackage, DataPackagesResponse}
use redstone_oracles_monorep.Sdk.Requests.{
  DataPackagesRequestParams, feed_packages, put_feed, parse_feeds,
  parse_and_validate_data_packages_response,
}
use redstone_oracles_monorep.Sdk.Validated.{IsValidFeed}
use redstone_oracles_monorep.Sdk.FeedResults.{IsFeedResult, feed_packages-IsFeedResult}

-- Every item of a list is found in it.
All-any : (ids : List String) → All (λ id. any (λ j. str_eq j id) ids ≡ true) ids
All-any [] = tt
All-any (id ∷ ids) = (
  ground (arith, eq_iff id id),
  All-mono (λ j. any (λ k. str_eq k j) ids ≡ true) (λ j found. ground (arith, found)) ids
      (All-any ids),
)

module _ (N : Numbers) (params : DataPackagesRequestParams) where
  -- A feed of a response that is returned.
  abbrev pub IsReturned : (String → ℕ) → (String × List (SignedDataPackage N)) → Type 0
  IsReturned clock e =
      (any (λ j. str_eq j e.0) params.data_packages_ids ≡ true) × IsValidFeed N params clock e

  put_feed-All :
      (clock : String → ℕ) (parsed : DataPackagesResponse N) (id : String)
      (result : Option (List (SignedDataPackage N)))
      → any (λ j. str_eq j id) params.data_packages_ids ≡ true
      → IsFeedResult N params clock id result
      → All (IsReturned clock) parsed
      → All (IsReturned clock) (put_feed N params parsed id result)
  put_feed-All clock parsed id none asked valid all = all
  put_feed-All clock parsed id (some packages) asked valid all =
      All-put (IsReturned clock) parsed id packages all (asked, valid)

  parse_feeds-All :
      (feeds : Dict (List (SignedDataPackage N))) (clock : String → ℕ) (ids : List String)
      (parsed response : DataPackagesResponse N)
      → parse_feeds N params feeds clock ids parsed ≡ ok response
      → All (λ id. any (λ j. str_eq j id) params.data_packages_ids ≡ true) ids
      → All (IsReturned clock) parsed
      → All (IsReturned clock) response
  unfolding parse_feeds
  parse_feeds-All feeds clock [] parsed response h asked all = rw (← ok_injective h) all
  parse_feeds-All feeds clock (id ∷ ids) parsed response h asked all =
      let (result, found, h1) = >>=-eq-ok (feed_packages N params (get feeds id) (clock id)) _ h in
      parse_feeds-All feeds clock ids (put_feed N params parsed id result) response h1 asked.1 (
        put_feed-All clock parsed id result asked.0
          (feed_packages-IsFeedResult N params clock id (get feeds id) result found) all)

  put_feed_keeps :
      (parsed : DataPackagesResponse N) (changed id : String)
      (result : Option (List (SignedDataPackage N)))
      → is_some (get parsed id) ≡ true
      → is_some (get (put_feed N params parsed changed result) id) ≡ true
  put_feed_keeps parsed changed id none h = h
  put_feed_keeps parsed changed id (some packages) h =
      ground (arith, h, get-put parsed changed id packages)

  parse_feeds_keeps :
      (feeds : Dict (List (SignedDataPackage N))) (clock : String → ℕ) (ids : List String)
      (parsed response : DataPackagesResponse N) (id : String)
      → parse_feeds N params feeds clock ids parsed ≡ ok response
      → is_some (get parsed id) ≡ true
      → is_some (get response id) ≡ true
  unfolding parse_feeds
  parse_feeds_keeps feeds clock [] parsed response id h present = rw (← ok_injective h) present
  parse_feeds_keeps feeds clock (changed ∷ ids) parsed response id h present =
      let (result, found, h1) =
        >>=-eq-ok (feed_packages N params (get feeds changed) (clock changed)) _ h in
      parse_feeds_keeps feeds clock ids (put_feed N params parsed changed result) response id h1
        (put_feed_keeps parsed changed id result present)

  put_feed-is_some :
      (clock : String → ℕ) (parsed : DataPackagesResponse N) (id : String)
      (result : Option (List (SignedDataPackage N)))
      → params.ignore_missing_feed ≡ false
      → IsFeedResult N params clock id result
      → is_some (get (put_feed N params parsed id result) id) ≡ true
  put_feed-is_some clock parsed id none strict ignored = cc
  put_feed-is_some clock parsed id (some packages) strict valid =
      ground (arith, get-put parsed id id packages, eq_iff id id)

  parse_feeds_complete :
      (feeds : Dict (List (SignedDataPackage N))) (clock : String → ℕ) (ids : List String)
      (parsed response : DataPackagesResponse N)
      → parse_feeds N params feeds clock ids parsed ≡ ok response
      → params.ignore_missing_feed ≡ false
      → All (λ id. is_some (get response id) ≡ true) ids
  unfolding parse_feeds
  parse_feeds_complete feeds clock [] parsed response h strict = tt
  parse_feeds_complete feeds clock (id ∷ ids) parsed response h strict =
      let (result, found, h1) = >>=-eq-ok (feed_packages N params (get feeds id) (clock id)) _ h in
      (
        parse_feeds_keeps feeds clock ids (put_feed N params parsed id result) response id h1 (
            put_feed-is_some clock parsed id result strict
              (feed_packages-IsFeedResult N params clock id (get feeds id) result found)),
        parse_feeds_complete feeds clock ids (put_feed N params parsed id result) response h1
            strict,
      )

  -- A validated response: each feed was asked for and is valid, and none that was asked for is missing
  -- unless missing ones are ignored.
  abbrev pub IsValidResponse : (String → ℕ) → DataPackagesResponse N → Type 0
  IsValidResponse clock response =
      All (IsReturned clock) response
      × ((params.ignore_missing_feed ≡ true)
          ⊎ All (λ id. is_some (get response id) ≡ true) params.data_packages_ids)

  -- A gateway's answer is returned only if every feed in it was asked for and has packages of one time
  -- that is within the limit of the clock, all of expected signers where such are given: exactly as
  -- many as `uniqueSignersCount`, or at least so many if the selection by the median is off. Unless
  -- missing feeds are to be ignored, no feed that was asked for is missing.
  pub parse_and_validate_data_packages_response-IsValidResponse :
      (answer : Option (Dict (List (SignedDataPackage N)))) (clock : String → ℕ)
      (response : DataPackagesResponse N)
      → parse_and_validate_data_packages_response N params answer clock ≡ ok response
      → IsValidResponse clock response
  unfolding parse_and_validate_data_packages_response
  parse_and_validate_data_packages_response-IsValidResponse none clock response h = cc
  parse_and_validate_data_packages_response-IsValidResponse (some feeds) clock response h = (
    parse_feeds-All feeds clock params.data_packages_ids [] response h
        (All-any params.data_packages_ids) tt,
    elim (Bool-cases params.ignore_missing_feed) [
      | inl ignored ↦ inl ignored
      | inr strict ↦
          inr (parse_feeds_complete feeds clock params.data_packages_ids [] response h strict)
    ],
  )
