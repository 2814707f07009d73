-- ===== src/Relayer/Rounds.antt =====
-- The contract's data before and after a check: `getLastRoundDetails` only adds entries of zeros.
use redstone_oracles_monorep.Prelude.{
  String, ◌≡◌, refl, sym, ◌∙◌, arith, eq_iff, Bool, true, false, Option, none, some, List, [], ◌∷◌,
  ◌++◌, ok, ok_injective, if◌then◌else◌, All,
}
use redstone_oracles_monorep.Prelude.Dict.{get, put, get-put}
use redstone_oracles_monorep.Relayer.Config.{
  ContractData, LastRoundDetails, ConditionCheckNames, time_check, cron_check,
  value_deviation_check,
}
use redstone_oracles_monorep.Relayer.Packages.{get_last_round_details, details_or_zero, no_round}
use redstone_oracles_monorep.Relayer.Conditions.{round_of}

-- The details of the last round, zeros where the contract has none.
abbrev pub last_round : ContractData → String → LastRoundDetails
last_round contract id = (get_last_round_details contract id).0

abbrev pub same_name : ConditionCheckNames → ConditionCheckNames → Bool
same_name time_check time_check = true
same_name cron_check cron_check = true
same_name value_deviation_check value_deviation_check = true
same_name _ _ = false

pub same_name_refl : (name : ConditionCheckNames) → same_name name name ≡ true
same_name_refl time_check = refl
same_name_refl cron_check = refl
same_name_refl value_deviation_check = refl

-- The contract's data that a check leaves differs at most in entries of zeros.
pub record SameRounds (before after : ContractData) : Type 0 where
  pub same : (id : String) → last_round after id ≡ last_round before id

-- The details depend on the entry alone.
abbrev pub or_no_round : Option LastRoundDetails → LastRoundDetails
or_no_round none = no_round
or_no_round (some details) = details

pub details_or_zero_lem :
    (contract : ContractData) (id : String) (o : Option LastRoundDetails)
    → (details_or_zero o contract id).0 ≡ or_no_round o
details_or_zero_lem contract id none = refl
details_or_zero_lem contract id (some details) = refl

pub last_round_lem :
    (contract : ContractData) (id : String) → last_round contract id ≡ or_no_round (get contract id)
unfolding get_last_round_details
last_round_lem contract id = details_or_zero_lem contract id (get contract id)

pub details_or_zero-SameRounds :
    (contract : ContractData) (id : String) (o : Option LastRoundDetails)
    → get contract id ≡ o
    → SameRounds contract (details_or_zero o contract id).1
unfolding get_last_round_details
details_or_zero-SameRounds contract id (some details) e = record { same = λ k. refl }
details_or_zero-SameRounds contract id none e = record {
  same = λ k.
      last_round_lem (put contract id no_round) k
      ∙ ground (arith, get-put contract id k no_round, eq_iff id k)
      ∙ sym (last_round_lem contract k);
}

pub get_last_round_details-SameRounds :
    (contract : ContractData) (id : String)
    → SameRounds contract (get_last_round_details contract id).1
unfolding get_last_round_details
get_last_round_details-SameRounds contract id =
    details_or_zero-SameRounds contract id (get contract id) refl

pub SameRounds-trans : (a b c : ContractData) → SameRounds a b → SameRounds b c → SameRounds a c
SameRounds-trans a b c h k = record { same = λ id. k.same id ∙ h.same id }

pub round_of-eq-ok :
    (o : Option LastRoundDetails) (details : LastRoundDetails)
    → round_of o ≡ ok details
    → or_no_round o ≡ details
round_of-eq-ok none details e = cc
round_of-eq-ok (some d) details e = ok_injective e

pub All-append_if :
    (P : String → Type 0) (b : Bool) (id : String) (ids : List String)
    → All P ids
    → (b ≡ true → P id)
    → All P (if b then ids ++ id ∷ [] else ids)
All-append_if P false id ids inv h = inv
All-append_if P true id [] inv h = (h refl, tt)
All-append_if P true id (j ∷ ids) inv h = (inv.0, All-append_if P true id ids inv.1 h)
