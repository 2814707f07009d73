-- ===== src/Registry/Common.antt =====
-- common/: reading one entry by its identifier, and listing the keys page by page.
use redstone_oracles_monorep.Prelude.{
  zero, suc, String, Option, none, some, List, ok, err, ℤ, pos, negsuc, slice, slice_from,
  if◌then◌else◌,
}
use redstone_oracles_monorep.Prelude.Dict.{Dict, get, keys}
use redstone_oracles_monorep.Registry.State.{
  ListInputData, Identified, Handled, truthy, missing_oracle_identifier, oracle_does_not_exist,
}

-- `if (value)` on a number that may be missing: 0 counts as missing.
abbrev pub nonzero : Option ℤ → Option ℤ
nonzero none = none
nonzero (some (pos zero)) = none
nonzero (some (pos (suc n))) = some (pos (suc n))
nonzero (some (negsuc n)) = some (negsuc n)

abbrev pub skip_to : Option ℤ → List String → List String
skip_to none xs = xs
skip_to (some n) xs = slice_from xs n

abbrev pub cut_at : Option ℤ → List String → List String
cut_at none xs = xs
cut_at (some n) xs = slice xs (pos 0) n

abbrev pub start_of : Option ListInputData → Option ℤ
start_of none = none
start_of (some p) = nonzero p.start_after

abbrev pub limit_of : Option ListInputData → Option ℤ
limit_of none = none
limit_of (some p) = nonzero p.limit

unfoldable pub list_with_pagination : {V : Type 0} → Option ListInputData → Dict V → List String
list_with_pagination pagination oracles =
    cut_at (limit_of pagination) (skip_to (start_of pagination) (keys oracles))

abbrev pub details_of : {V : Type 0} → String → Option V → Handled (Identified V)
details_of k none = err (oracle_does_not_exist k)
details_of k (some v) = ok (record { details = v; identifier = k })

unfoldable pub get_details_by_id : {V : Type 0} → Option String → Dict V → Handled (Identified V)
get_details_by_id none oracles = err missing_oracle_identifier
get_details_by_id (some k) oracles =
    if truthy (some k) then details_of k (get oracles k) else err missing_oracle_identifier
