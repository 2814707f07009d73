-- ===== src/Sdk/ResponseCache.antt =====
-- DataPackagesResponseCache.ts: the last response, reused for requests that conform to it. lodash's
-- `isEqual` and `pick` are parameters, and so are the packages.
use redstone_oracles_monorep.Prelude.{
  String, Bool, true, false, not, ◌&&◌, ◌||◌, Option, none, some, List, [], ◌∷◌, any, is_some,
  str_eq, if◌then◌else◌, ◌≡◌, ap, ◌∙◌, arith, eq_iff, Bool-cases, Option-cases, inl, inr, refl,
}
use redstone_oracles_monorep.Prelude.Dict.{Dict, get, keys, any-keys}

abbrev pub includes : List String → String → Bool
includes ids id = any (λ j. str_eq j id) ids

unfoldable pub is_subset_of : List String → List String → Bool
is_subset_of superset [] = true
is_subset_of superset (elem ∷ subset) =
    let rest = is_subset_of superset subset in if includes superset elem then rest else false

is_subset_of-includes :
    (superset subset : List String) (id : String)
    → is_subset_of superset subset ≡ true
    → includes subset id ≡ true
    → includes superset id ≡ true
unfolding is_subset_of
is_subset_of-includes superset [] id h k = cc
is_subset_of-includes superset (elem ∷ subset) id h k =
    ground (arith, is_subset_of-includes superset subset id, eq_iff elem id)

-- Where all keys are asked for, what is not asked for is not there.
known_only :
    {Packages : Type 0} (current : Dict Packages) (ids : List String) (id : String)
    → is_subset_of ids (keys current) ≡ true
    → get current id ≡ (if includes ids id then get current id else none)
known_only current ids id all = elim (Option-cases (get current id)) [
  | inl missing ↦ rw missing (ground arith)
  | inr (packages, present) ↦
      let listed : includes ids id ≡ true =
        is_subset_of-includes ids (keys current) id all
          (any-keys current id ∙ ap is_some present) in
      rw listed
]

-- `Packages` are the packages of one identifier, `Comparable` what `makeComparableRequestParams`
-- selects of the other fields.
module _ (Packages Comparable : Type 0) where
  pub record RequestParams : Type 0 where
    pub comparable : Comparable
    pub ignore_missing_feed : Bool
    pub data_packages_ids : List String

  pub record DataPackagesResponseCache : Type 0 where
    pub response : Option (Dict Packages)
    pub request_params : Option RequestParams

  unfoldable pub update :
      DataPackagesResponseCache → Dict Packages → RequestParams → DataPackagesResponseCache
  update cache response params = record { response = some response; request_params = some params }

  unfoldable pub is_empty : DataPackagesResponseCache → Bool
  is_empty cache = not (is_some cache.response)

  unfoldable pub invalidate : DataPackagesResponseCache → DataPackagesResponseCache
  invalidate cache = record { response = none; request_params = none }

  -- What a hit of the cache gives: the response of a request that agrees in the compared fields and
  -- in the flag for missing feeds, the packages of the identifiers asked for as the response has them and no others, and, unless
  -- missing feeds are to be ignored, packages for every identifier asked for.
  pub record IsAnswer (is_equal : Comparable → Comparable → Bool) (cached : RequestParams)
      (response : Dict Packages) (asked : RequestParams) (out : Dict Packages) : Type 0 where
    pub equal : is_equal cached.comparable asked.comparable ≡ true
    pub same_ignore : cached.ignore_missing_feed ≡ asked.ignore_missing_feed
    pub looked_up :
        (id : String)
        → get out id ≡ (if includes asked.data_packages_ids id then get response id else none)
    pub complete :
        (id : String)
        → (asked.ignore_missing_feed
            || (not (includes asked.data_packages_ids id) || is_some (get out id)))
          ≡ true

  module _ (is_equal : Comparable → Comparable → Bool)
      (pick : Dict Packages → List String → Dict Packages) where
    -- `===` on the flag, which is one of the comparable fields
    abbrev pub same_flag : Bool → Bool → Bool
    same_flag true b = b
    same_flag false b = not b

    unfoldable pub is_conforming : RequestParams → RequestParams → List String → Bool
    is_conforming cached asked current_ids =
        if is_equal cached.comparable asked.comparable
          && same_flag cached.ignore_missing_feed asked.ignore_missing_feed
        then (if asked.ignore_missing_feed
            then true
            else is_subset_of current_ids asked.data_packages_ids)
        else false

    unfoldable pub filter_data_packages : Dict Packages → List String → Dict Packages
    filter_data_packages current ids =
        if is_subset_of ids (keys current) then current else pick current ids

    abbrev pub conforming_response :
        Option RequestParams → Option (Dict Packages) → RequestParams → Option (Dict Packages)
    conforming_response none response asked = none
    conforming_response (some cached) none asked = none
    conforming_response (some cached) (some current) asked =
        if is_conforming cached asked (keys current)
        then some (filter_data_packages current asked.data_packages_ids)
        else none

    unfoldable pub get_cached : DataPackagesResponseCache → RequestParams → Option (Dict Packages)
    unfolding is_conforming filter_data_packages
    get_cached cache asked = conforming_response cache.request_params cache.response asked

    module _
        (get-pick : (current : Dict Packages) (ids : List String) (id : String)
          → get (pick current ids) id ≡ (if includes ids id then get current id else none)) where
      get-filter_data_packages :
          (current : Dict Packages) (ids : List String) (id : String)
          → get (filter_data_packages current ids) id
            ≡ (if includes ids id then get current id else none)
      unfolding filter_data_packages
      get-filter_data_packages current ids id =
          elim (Bool-cases (is_subset_of ids (keys current))) [
            | inl all ↦ rw all (known_only current ids id all)
            | inr some_missing ↦ rw some_missing (get-pick current ids id)
          ]

      conforming_equal :
          (cached asked : RequestParams) (response : Dict Packages)
          → is_conforming cached asked (keys response) ≡ true
          → is_equal cached.comparable asked.comparable ≡ true
      unfolding is_conforming
      conforming_equal cached asked response h = ground (arith, h)

      same_flag-eq : (a b : Bool) → same_flag a b ≡ true → a ≡ b
      same_flag-eq true true h = refl
      same_flag-eq true false h = cc
      same_flag-eq false true h = cc
      same_flag-eq false false h = refl

      conforming_same :
          (cached asked : RequestParams) (response : Dict Packages)
          → is_conforming cached asked (keys response) ≡ true
          → cached.ignore_missing_feed ≡ asked.ignore_missing_feed
      unfolding is_conforming
      conforming_same cached asked response h =
          same_flag-eq cached.ignore_missing_feed asked.ignore_missing_feed (ground (arith, h))

      conforming_complete :
          (cached asked : RequestParams) (response : Dict Packages) (id : String)
          → is_conforming cached asked (keys response) ≡ true
          → (asked.ignore_missing_feed
              || (not (includes asked.data_packages_ids id)
                  || is_some (get (filter_data_packages response asked.data_packages_ids) id)))
            ≡ true
      unfolding is_conforming
      conforming_complete cached asked response id h = ground (
        arith,
        get-filter_data_packages response asked.data_packages_ids id,
        is_subset_of-includes (keys response) asked.data_packages_ids id,
        any-keys response id,
      )

      -- With a `pick` that keeps exactly the entries of the given identifiers: what the cache gives for a
      -- request, after an update with a response and the parameters it was fetched for, is an answer
      -- to the request. The compared parameters agree, `ignoreMissingFeed` among them, the result has exactly
      -- the packages of the identifiers asked for that the response has, and, unless missing feeds
      -- are to be ignored, none of them is missing.
      pub get_cached-IsAnswer :
          (cache : DataPackagesResponseCache) (response : Dict Packages)
          (cached asked : RequestParams) (out : Dict Packages)
          → get_cached (update cache response cached) asked ≡ some out
          → IsAnswer is_equal cached response asked out
      unfolding get_cached update
      get_cached-IsAnswer cache response cached asked out e =
          elim (Bool-cases (is_conforming cached asked (keys response))) [
            | inl conforming ↦
                let hit = rw conforming at e in
                let given : filter_data_packages response asked.data_packages_ids ≡ out = cc in
                rw (← given) (record {
                  equal = conforming_equal cached asked response conforming;
                  same_ignore = conforming_same cached asked response conforming;
                  looked_up = get-filter_data_packages response asked.data_packages_ids;
                  complete = λ id. conforming_complete cached asked response id conforming;
                })
            | inr other ↦ (let missed = rw other at e in cc)
          ]
