-- ===== src/Rpc/BlockNumbers.antt =====
-- ProviderWithAgreement.ts: `getBlockNumber`, with the block that each provider has reported last.
use redstone_oracles_monorep.Prelude.{
  ℕ, ◌+◌, ◌-◌, ◌*◌, ◌/◌, ◌%◌, ◌==◌, String, Option, none, some, List, [], ◌∷◌, Result, ok, err, leb,
  ltb, if◌then◌else◌, length, get_elem?, or_default,
}
use redstone_oracles_monorep.Prelude.Dict.{Dict, get, put}
use redstone_oracles_monorep.Sdk.Closest.{sort_by}

pub data BlockNumberError : Type 0 where
  provider_failed block_number_decreased block_number_too_far_ahead : BlockNumberError
  block_number_unchanged all_providers_failed : BlockNumberError

pub record LastBlock : Type 0 where
  pub block_number : ℕ
  pub changed_at : ℕ

-- RedstoneCommon.minToMs(3), and hourToMs of MAX_BLOCK_TIME_AHEAD_HOURS
abbrev pub max_block_staleness : ℕ
max_block_staleness = 3 * 60 * 1000

abbrev pub max_block_time_ahead : ℕ
max_block_time_ahead = 72 * 60 * 60 * 1000

-- `avgBlockTimeMs` of the chain.
module _ (avg_block_time_ms : ℕ) where
  abbrev pub assert_valid_after : Option LastBlock → ℕ → Result BlockNumberError (Unit {0})
  assert_valid_after none block_number = ok tt
  assert_valid_after (some prev) block_number =
      if leb prev.block_number block_number
      then if ltb ((block_number - prev.block_number) * avg_block_time_ms) max_block_time_ahead
        then ok tt
        else err block_number_too_far_ahead
      else err block_number_decreased

  unfoldable pub assert_valid_block_number :
      Dict LastBlock → String → ℕ → Result BlockNumberError (Unit {0})
  assert_valid_block_number last identifier block_number =
      assert_valid_after (get last identifier) block_number

-- The entry after `??=` and the comparison.
abbrev pub updated_block : Option LastBlock → ℕ → ℕ → LastBlock
updated_block none block_number now = record { block_number = block_number; changed_at = now }
updated_block (some prev) block_number now =
    if prev.block_number == block_number
    then prev
    else record { block_number = block_number; changed_at = now }

unfoldable pub update_last_block_number : Dict LastBlock → String → ℕ → ℕ → Dict LastBlock
update_last_block_number last identifier block_number now =
    put last identifier (updated_block (get last identifier) block_number now)

-- `Date.now() - prevBlockResult.changedAt < MAX_BLOCK_STALENESS`
abbrev pub check_staleness : Option LastBlock → ℕ → ℕ → Result BlockNumberError ℕ
check_staleness none block_number now = ok block_number
check_staleness (some prev) block_number now =
    if ltb now (prev.changed_at + max_block_staleness)
    then ok block_number
    else err block_number_unchanged

-- What one provider has answered, and when; none if it has failed or was too late.
pub record BlockAnswer : Type 0 where
  pub identifier : String
  pub block_number : Option ℕ
  pub now : ℕ

module _ (avg_block_time_ms : ℕ) where
  abbrev pub after_valid :
      Result BlockNumberError (Unit {0})
      → Dict LastBlock
      → String
      → ℕ
      → ℕ
      → Result BlockNumberError ℕ × Dict LastBlock
  after_valid (err thrown) last identifier block_number now = (err thrown, last)
  after_valid (ok _) last identifier block_number now =
      let updated = update_last_block_number last identifier block_number now in
      (check_staleness (get updated identifier) block_number now, updated)

  abbrev pub take_number :
      Dict LastBlock → String → Option ℕ → ℕ → Result BlockNumberError ℕ × Dict LastBlock
  take_number last identifier none now = (err provider_failed, last)
  take_number last identifier (some block_number) now =
      after_valid (assert_valid_block_number avg_block_time_ms last identifier block_number) last
        identifier block_number now

  -- The function that is mapped over the providers.
  unfoldable pub take_answer :
      Dict LastBlock → BlockAnswer → Result BlockNumberError ℕ × Dict LastBlock
  unfolding assert_valid_block_number update_last_block_number
  take_answer last answer = take_number last answer.identifier answer.block_number answer.now

  abbrev pub add_fulfilled : Result BlockNumberError ℕ → List ℕ → List ℕ
  add_fulfilled (err thrown) numbers = numbers
  add_fulfilled (ok number) numbers = number ∷ numbers

  -- The answers in the order of the providers, with the numbers of those that are fulfilled.
  abbrev pub take_answers : Dict LastBlock → List BlockAnswer → List ℕ × Dict LastBlock
  take_answers last [] = ([], last)
  take_answers last (answer ∷ answers) =
      let (result, next) = take_answer last answer in
      let (numbers, after) = take_answers next answers in (add_fulfilled result numbers, after)

  -- `electBlockFn`, with what it reads.
  abbrev pub elect : (List ℕ → ℕ → ℕ) → List ℕ → ℕ → Result BlockNumberError ℕ
  elect elect_block_fn [] healthy_count = err all_providers_failed
  elect elect_block_fn (number ∷ numbers) healthy_count =
      ok (elect_block_fn (number ∷ numbers) healthy_count)

  unfoldable pub get_block_number :
      (List ℕ → ℕ → ℕ)
      → Dict LastBlock
      → List BlockAnswer
      → Result BlockNumberError ℕ × Dict LastBlock
  unfolding take_answer
  get_block_number elect_block_fn last answers =
      let (numbers, after) = take_answers last answers in
      (elect elect_block_fn numbers (length answers), after)

-- `DEFAULT_ELECT_BLOCK_FN`; `Math.round` of a half rounds up. An index out of range is not reached.
unfoldable pub default_elect_block_fn : List ℕ → ℕ → ℕ
default_elect_block_fn block_numbers healthy_count =
    let numbers = sort_by (λ a b. ltb a b) block_numbers in
    let mid = length numbers / 2 in
    let upper = or_default (get_elem? numbers mid) 0 in
    let lower = or_default (get_elem? numbers (mid - 1)) 0 in
    if length numbers % 2 == 0 then (lower + upper + 1) / 2 else upper
