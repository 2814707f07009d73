-- ===== src/Relayer/Historical.antt =====
-- The timestamp of the historical packages that a fallback relayer asks for: request-data-packages.ts
-- of packages/sdk/src.
use redstone_oracles_monorep.Prelude.{
  ℕ, zero, suc, ◌+◌, ◌-◌, ◌*◌, ◌/◌, ◌%◌, ◌<◌, min, String, Bool, true, false, Option, none, some,
  List, [], ◌∷◌, Result, ok, err, ◌≡◌, arith, ℤ, pos, negsuc, sub_ℕ, leb, ltb, if◌then◌else◌, inl,
  inr, Bool-cases,
}
use redstone_oracles_monorep.Relayer.Config.{RelayerError, historical_fetcher_not_configured}

abbrev pub denominator_ms : ℕ
denominator_ms = 10000

-- `Math.floor(z / d) * d`
abbrev pub floor_to : ℕ → ℤ → ℤ
floor_to d (pos n) = pos (n / d * d)
floor_to d (negsuc n) = negsuc ((n / d + 1) * d - 1)

-- `a >= b` for an integer and a natural number
abbrev pub at_least_ℕ : ℤ → ℕ → Bool
at_least_ℕ (pos n) b = leb b n
at_least_ℕ (negsuc n) b = false

-- `undefined` where the code returns it
unfoldable pub calculate_historical_packages_timestamp : ℕ → ℕ → Option ℤ
calculate_historical_packages_timestamp offset base =
    if ltb 0 offset then some (floor_to denominator_ms (sub_ℕ base offset)) else none

abbrev pub is_configured : ℕ → Option (List String) → Bool
is_configured zero gateways = false
is_configured (suc n) none = false
is_configured (suc n) (some []) = false
is_configured (suc n) (some (url ∷ urls)) = true

abbrev pub or_minus_one : Option ℤ → ℤ
or_minus_one none = negsuc 0
or_minus_one (some z) = z

-- `convertToHistoricalDataPackagesRequestParams`: the historical timestamp that it puts into the
-- request's parameters, given the timestamp of the latest packages.
unfoldable pub to_historical_timestamp : ℕ → Option (List String) → ℕ → ℕ → Result RelayerError ℤ
unfolding calculate_historical_packages_timestamp
to_historical_timestamp offset gateways latest base =
    let first = or_minus_one (calculate_historical_packages_timestamp offset base) in
    let second =
      or_minus_one (calculate_historical_packages_timestamp (min denominator_ms offset) latest) in
    if is_configured offset gateways
    then ok (if ltb 0 latest then (if at_least_ℕ first latest then second else first) else first)
    else err historical_fetcher_not_configured

-- A multiple of the denominator.
abbrev pub IsRounded : ℤ → Type 0
IsRounded (pos n) = n % denominator_ms ≡ 0
IsRounded (negsuc n) = suc n % denominator_ms ≡ 0

floor_to-IsRounded : (z : ℤ) → IsRounded (floor_to denominator_ms z)
floor_to-IsRounded (pos n) = omega arith
floor_to-IsRounded (negsuc n) = omega arith

-- Going back by a positive offset and rounding down ends before the start.
floor_to-older :
    (offset base : ℕ)
    → 0 < offset
    → at_least_ℕ (floor_to denominator_ms (sub_ℕ base offset)) base ≡ false
floor_to-older offset base h = ground arith

module _ (offset base : ℕ) (h : 0 < offset) where
  calculated-IsRounded :
      IsRounded (or_minus_one (calculate_historical_packages_timestamp offset base))
  unfolding calculate_historical_packages_timestamp
  calculated-IsRounded = ground (arith, floor_to-IsRounded (sub_ℕ base offset))

  calculated_older :
      at_least_ℕ (or_minus_one (calculate_historical_packages_timestamp offset base)) base ≡ false
  unfolding calculate_historical_packages_timestamp
  calculated_older = ground (arith, floor_to-older offset base h)

-- With an offset and a gateway configured the request gets a timestamp that is a multiple of ten
-- seconds and before the timestamp of the latest packages, if that is not 0.
pub to_historical_timestamp_older :
    (offset : ℕ) (url : String) (urls : List String) (latest base : ℕ)
    → 0 < offset
    → 0 < latest
    → (z : ℤ) × (to_historical_timestamp offset (some (url ∷ urls)) latest base ≡ ok z)
      × IsRounded z
      × (at_least_ℕ z latest ≡ false)
unfolding to_historical_timestamp
to_historical_timestamp_older zero url urls latest base h k = absurd (omega arith)
to_historical_timestamp_older (suc o) url urls latest base h k =
    let first = or_minus_one (calculate_historical_packages_timestamp (suc o) base) in
    let second =
      or_minus_one (calculate_historical_packages_timestamp (min denominator_ms (suc o)) latest) in
    elim (Bool-cases (at_least_ℕ first latest)) [
      | inl newer ↦ (
        second,
        ground arith,
        calculated-IsRounded (min denominator_ms (suc o)) latest (omega arith),
        calculated_older (min denominator_ms (suc o)) latest (omega arith),
      )
      | inr older ↦ (first, ground arith, calculated-IsRounded (suc o) base h, older)
    ]
