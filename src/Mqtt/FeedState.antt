-- ===== src/Mqtt/FeedState.antt =====
-- LastPublishedFeedState.ts: when each feed was published last. Of a package only its
-- timestamp is read.
use redstone_oracles_monorep.Prelude.{
  ℕ, ◌+◌, ◌≤◌, String, Bool, true, false, Option, none, some, List, [], ◌∷◌, Result, ok, err, ◌>>=◌,
  any, All, if◌then◌else◌, ltb, str_eq, ◌≡◌, refl, ap, ◌∙◌, arith,
}
use redstone_oracles_monorep.Prelude.Dict.{Dict, get, put, get-put}

pub data FeedStateError : Type 0 where
  type_error : FeedStateError

abbrev pub LastPublishedFeedState : Type 0
LastPublishedFeedState = Dict ℕ

-- `timestamp > undefined` is false.
abbrev pub exceeds_last : ℕ → Option ℕ → Bool
exceeds_last timestamp none = false
exceeds_last timestamp (some last) = ltb last timestamp

unfoldable pub is_newer_than_last_published : LastPublishedFeedState → String → ℕ → Bool
is_newer_than_last_published state id timestamp = exceeds_last timestamp (get state id)

unfoldable pub is_any_feed_not_published_in : LastPublishedFeedState → ℕ → ℕ → Bool
is_any_feed_not_published_in state max_delay now =
    any (λ (id, last). ltb (last + max_delay) now) state

unfoldable pub update : LastPublishedFeedState → List String → ℕ → LastPublishedFeedState
update state [] new_timestamp = state
update state (id ∷ ids) new_timestamp = update (put state id new_timestamp) ids new_timestamp

-- The constructor, whose `Map` is filled as `update` fills it.
unfoldable pub last_published_feed_state : List String → ℕ → LastPublishedFeedState
last_published_feed_state ids init_timestamp = update [] ids init_timestamp

-- `packages![0].dataPackage.timestampMilliseconds`
abbrev pub first_timestamp {ℓ} : {P : Type ℓ} → (P → ℕ) → List P → Result FeedStateError ℕ
first_timestamp time_of [] = err type_error
first_timestamp time_of (pkg ∷ packages) = ok (time_of pkg)

-- `read_first` reads the first timestamp of the packages that a value of the response stands for.
module _ {V : Type 0} (read_first : V → Result FeedStateError ℕ) where
  unfoldable pub filter_out_not_newer_packages :
      LastPublishedFeedState → Dict V → Result FeedStateError (Dict V)
  unfolding is_newer_than_last_published
  filter_out_not_newer_packages state [] = ok []
  filter_out_not_newer_packages state ((id, packages) ∷ entries) = do
    timestamp ← read_first packages
    rest ← filter_out_not_newer_packages state entries
    ok (if is_newer_than_last_published state id timestamp then (id, packages) ∷ rest else rest)

-- After an update a listed feed was published at that time, another one as before.
pub get-update :
    (state : LastPublishedFeedState) (ids : List String) (timestamp : ℕ) (id : String)
    → get (update state ids timestamp) id
      ≡ (if any (λ j. str_eq j id) ids then some timestamp else get state id)
unfolding update
get-update state [] timestamp id = refl
get-update state (j ∷ ids) timestamp id =
    get-update (put state j timestamp) ids timestamp id
    ∙ ground (arith, get-put state j id timestamp)

known_entries :
    {V : Type 0} (state : LastPublishedFeedState) (ids : List String) (timestamp : ℕ)
    (entries : Dict V)
    → All (λ e. any (λ j. str_eq j e.0) ids ≡ true) entries
    → All (λ e. get (update state ids timestamp) e.0 ≡ some timestamp) entries
known_entries state ids timestamp [] h = tt
known_entries state ids timestamp (entry ∷ entries) h = (
  ground (arith, get-update state ids timestamp entry.0, h.0),
  known_entries state ids timestamp entries h.1,
)

module _ {V : Type 0} (read_first : V → Result FeedStateError ℕ) where
  -- The packages of an entry exist, and the first one is not newer than the time.
  abbrev pub IsNotAfter : ℕ → V → Type 0
  IsNotAfter limit packages =
      (timestamp : ℕ) × (read_first packages ≡ ok timestamp) × timestamp ≤ limit

  -- No feed of the entries was published before the time, as far as the state knows.
  filter_out-nil :
      (state : LastPublishedFeedState) (limit : ℕ) (entries : Dict V)
      → All (λ e. get state e.0 ≡ some limit) entries
      → All (λ e. IsNotAfter limit e.1) entries
      → filter_out_not_newer_packages read_first state entries ≡ ok []
  unfolding filter_out_not_newer_packages is_newer_than_last_published
  filter_out-nil state limit [] known old = refl
  filter_out-nil state limit ((id, packages) ∷ entries) known ((timestamp, first, old), olds) =
      rw (first, filter_out-nil state limit entries known.1 olds, known.0)
        (ap ok (let not_newer : ltb limit timestamp ≡ false = ground (arith, old) in rw not_newer))
