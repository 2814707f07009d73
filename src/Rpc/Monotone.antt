-- ===== src/Rpc/Monotone.antt =====
-- ProviderWithAgreement.ts: the block numbers of a provider never go back.
use redstone_oracles_monorep.Prelude.{
  ℕ, zero, suc, ◌-◌, ◌*◌, ◌≤◌, ◌<◌, ◌==◌, String, Bool, true, false, Option, none, some, List, [],
  ◌∷◌, Result, ok, err, leb, ltb, str_eq, if◌then◌else◌, if_cases, length, get_elem?, or_default,
  All, ◌⊎◌, ◌≡◌, refl, ◌∙◌, arith, eq_iff, inl, inr,
}
use redstone_oracles_monorep.Prelude.Dict.{Dict, get, put, get-put}
use redstone_oracles_monorep.Rpc.BlockNumbers.{
  BlockNumberError, block_number_decreased, block_number_too_far_ahead, max_block_time_ahead,
  LastBlock, BlockAnswer, assert_valid_after, assert_valid_block_number, updated_block,
  update_last_block_number, after_valid, take_number, take_answer, take_answers, get_block_number,
}

-- A record that was there is not lost, and is kept or replaced by one of a higher block.
abbrev pub IsAdvanced : Option LastBlock → Option LastBlock → Type 0
IsAdvanced none after = Unit {0}
IsAdvanced (some before) none = ⊥
IsAdvanced (some before) (some after) =
    (before.block_number ≤ after.block_number)
    × (((before.block_number ≡ after.block_number) × (before.changed_at ≡ after.changed_at))
        ⊎ (before.block_number < after.block_number))

IsAdvanced-same : (o : Option LastBlock) → IsAdvanced o o
IsAdvanced-same none = tt
IsAdvanced-same (some block) = (omega arith, inl (refl, refl))

IsAdvanced-next : (a b c : Option LastBlock) → IsAdvanced a b → IsAdvanced b c → IsAdvanced a c
IsAdvanced-next none b c h k = tt
IsAdvanced-next (some a) none c h k = elim h [ ]
IsAdvanced-next (some a) (some b) none h k = elim k [ ]
IsAdvanced-next (some a) (some b) (some c) (h, hs) (k, ks) = (omega (arith, h, k), joined hs ks)
  where
    joined :
        ((a.block_number ≡ b.block_number) × (a.changed_at ≡ b.changed_at))
          ⊎ (a.block_number < b.block_number)
        → ((b.block_number ≡ c.block_number) × (b.changed_at ≡ c.changed_at))
          ⊎ (b.block_number < c.block_number)
        → ((a.block_number ≡ c.block_number) × (a.changed_at ≡ c.changed_at))
          ⊎ (a.block_number < c.block_number)
    joined (inl (n, t)) (inl (n1, t1)) = inl (n ∙ n1, t ∙ t1)
    joined (inl (n, t)) (inr less) = inr (omega (arith, n, less))
    joined (inr less) ks = inr (omega (arith, less, k))

passed_first :
    (first second : Bool)
    → ◌≡◌ {A = Result BlockNumberError (Unit {0})}
        (if first
          then if second then ok tt else err block_number_too_far_ahead
          else err block_number_decreased)
        (ok tt)
    → first ≡ true
passed_first true second h = refl
passed_first false second h = cc

-- An accepted number advances the record.
updated_block-IsAdvanced :
    (avg : ℕ) (o : Option LastBlock) (block_number now : ℕ)
    → assert_valid_after avg o block_number ≡ ok tt
    → IsAdvanced o (some (updated_block o block_number now))
updated_block-IsAdvanced avg none block_number now h = tt
updated_block-IsAdvanced avg (some prev) block_number now h =
    let up =
      passed_first (leb prev.block_number block_number)
        (ltb ((block_number - prev.block_number) * avg) max_block_time_ahead) h in
    if_cases (λ (after : LastBlock). IsAdvanced (some prev) (some after))
      (prev.block_number == block_number) _ _ (λ same. (omega arith, inl (refl, refl)))
      (λ differs. (ground (arith, up), inr (ground (arith, up, differs))))

put-IsAdvanced :
    (last : Dict LastBlock) (identifier id : String) (block : LastBlock)
    → IsAdvanced (get last identifier) (some block)
    → IsAdvanced (get last id) (get (put last identifier block) id)
put-IsAdvanced last identifier id block h = rw (get-put last identifier id block) (
    if_cases (λ (after : Option LastBlock). IsAdvanced (get last id) after) (str_eq identifier id) _
      _ (λ same. let e : identifier ≡ id = ground (arith, eq_iff identifier id, same) in rw (← e) h)
      (λ other. IsAdvanced-same (get last id)))

module _ (avg_block_time_ms : ℕ) where
  after_valid-IsAdvanced :
      (valid : Result BlockNumberError (Unit {0})) (last : Dict LastBlock) (identifier : String)
      (block_number now : ℕ) (id : String)
      → assert_valid_block_number avg_block_time_ms last identifier block_number ≡ valid
      → IsAdvanced
          (get last id)
          (get (after_valid avg_block_time_ms valid last identifier block_number now).1 id)
  unfolding assert_valid_block_number update_last_block_number
  after_valid-IsAdvanced (err thrown) last identifier block_number now id h =
      IsAdvanced-same (get last id)
  after_valid-IsAdvanced (ok valid) last identifier block_number now id h =
      put-IsAdvanced last identifier id _
        (updated_block-IsAdvanced avg_block_time_ms (get last identifier) block_number now h)

  take_number-IsAdvanced :
      (last : Dict LastBlock) (identifier : String) (answered : Option ℕ) (now : ℕ) (id : String)
      → IsAdvanced
          (get last id)
          (get (take_number avg_block_time_ms last identifier answered now).1 id)
  take_number-IsAdvanced last identifier none now id = IsAdvanced-same (get last id)
  take_number-IsAdvanced last identifier (some block_number) now id =
      after_valid-IsAdvanced _ last identifier block_number now id refl

  take_answers-IsAdvanced :
      (answers : List BlockAnswer) (last : Dict LastBlock) (id : String)
      → IsAdvanced (get last id) (get (take_answers avg_block_time_ms last answers).1 id)
  unfolding take_answer
  take_answers-IsAdvanced [] last id = IsAdvanced-same (get last id)
  take_answers-IsAdvanced (answer ∷ answers) last id =
      let next = (take_answer avg_block_time_ms last answer).1 in
      IsAdvanced-next (get last id) (get next id) _
        (take_number-IsAdvanced last answer.identifier answer.block_number answer.now id)
        (take_answers-IsAdvanced answers next id)

  -- Whatever the providers answer to `getBlockNumber`, right or wrong, in time or not: the block that
  -- is kept for a provider stays, with the time of its change, or gives way to a higher one.
  pub get_block_number-IsAdvanced :
      (elect_block_fn : List ℕ → ℕ → ℕ) (last : Dict LastBlock) (answers : List BlockAnswer)
      (id : String)
      → IsAdvanced
          (get last id)
          (get (get_block_number avg_block_time_ms elect_block_fn last answers).1 id)
  unfolding get_block_number
  get_block_number-IsAdvanced elect_block_fn last answers id =
      take_answers-IsAdvanced answers last id

-- An item of a list that is long enough satisfies what all items do.
get_elem-All :
    (P : ℕ → Type 0) (xs : List ℕ) (i : ℕ)
    → All P xs
    → i < length xs
    → P (or_default (get_elem? xs i) 0)
get_elem-All P [] i all h = absurd (omega (arith, h))
get_elem-All P (x ∷ xs) zero all h = all.0
get_elem-All P (x ∷ xs) (suc i) all h = get_elem-All P xs i all.1 (omega (arith, h))
