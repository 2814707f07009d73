-- ===== src/Rpc/Attempts.antt =====
-- TxDelivery.ts: what `deliver` has broadcast when it ends.
use redstone_oracles_monorep.Prelude.{
  ℕ, zero, suc, ◌+◌, ◌≤◌, Option, none, List, [], ◌∷◌, Result, err, ok, length, All, ◌≡◌, ◌⊎◌, refl,
  ◌∙◌, arith, inl, inr,
}
use redstone_oracles_monorep.Rpc.Broadcast.{
  TxError, TxDeliveryCall, DeliveryManTx, TxDeliveryOpts, TxEnvironment,
  prepare_transaction_request,
}
use redstone_oracles_monorep.Rpc.TxDelivery.{
  AttemptResult, finished, next_attempt, Delivery, try_attempt, continue_with, attempt_rounds,
  deliver,
}
use redstone_oracles_monorep.Rpc.Delivery.{
  IsReplacement, IsNumbered, IsKnown, IsOutcome, IsStep, after_send-IsStep,
}

module _ {R : Type 0} (env : TxEnvironment R) (opts : TxDeliveryOpts) where
  -- The end of a delivery whose first transaction is given.
  abbrev pub IsDelivery : DeliveryManTx → Delivery env opts → Type 0
  IsDelivery first d =
      (length d.broadcasts ≤ opts.max_attempts)
      × IsNumbered env opts d.broadcasts
      × All (λ (attempt, tx). IsReplacement env opts first tx) d.broadcasts
      × IsOutcome env opts d.broadcasts d.outcome

  IsReplacement-next :
      (first tx next : DeliveryManTx)
      → IsReplacement env opts first tx
      → IsReplacement env opts tx next
      → IsReplacement env opts first next
  IsReplacement-next first tx next (n, c, f, t, v) (n1, c1, f1, t1, v1) =
      (n1 ∙ n, c1 ∙ c, f1 ∙ f, t1 ∙ t, v1 ∙ v)

  try_attempt-IsStep :
      (attempt : ℕ) (tx : DeliveryManTx) (broadcasts : List (ℕ × DeliveryManTx)) (result : Option R)
      → IsKnown env opts result broadcasts
      → IsStep env opts attempt tx broadcasts (try_attempt env opts attempt tx result)
  unfolding try_attempt
  try_attempt-IsStep attempt tx broadcasts result known =
      after_send-IsStep env opts attempt tx broadcasts result (env.send attempt tx) refl known

  continue-IsDelivery :
      (attempt : ℕ) (first tx : DeliveryManTx) (broadcasts : List (ℕ × DeliveryManTx))
      (step : AttemptResult env opts) (rest : DeliveryManTx → Option R → Delivery env opts)
      → IsStep env opts attempt tx broadcasts step
      → ((outcome : Result TxError (Option R))
          → IsOutcome env opts ((attempt, tx) ∷ broadcasts) outcome
          → IsDelivery first (record {
            outcome = outcome;
            attempt = attempt;
            broadcasts = (attempt, tx) ∷ broadcasts;
          }))
      → ((next : DeliveryManTx) (response : Option R)
          → IsReplacement env opts tx next
          → IsKnown env opts response ((attempt, tx) ∷ broadcasts)
          → IsDelivery first (rest next response))
      → IsDelivery first (continue_with env opts step attempt ((attempt, tx) ∷ broadcasts) rest)
  continue-IsDelivery attempt first tx broadcasts (finished outcome) rest k ends continues =
      ends outcome k
  continue-IsDelivery attempt first tx broadcasts (next_attempt next response) rest (replaces, k)
        ends continues =
      continues next response replaces k

  attempt_rounds-IsDelivery :
      (rounds attempt : ℕ) (first tx : DeliveryManTx) (result : Option R)
      (broadcasts : List (ℕ × DeliveryManTx))
      → rounds + length broadcasts ≡ opts.max_attempts
      → attempt ≡ suc (length broadcasts)
      → IsNumbered env opts broadcasts
      → All (λ (attempt, tx). IsReplacement env opts first tx) broadcasts
      → IsReplacement env opts first tx
      → IsKnown env opts result broadcasts
      → IsDelivery first (attempt_rounds env opts rounds attempt tx result broadcasts)
  attempt_rounds-IsDelivery zero attempt first tx result broadcasts total number numbered all same
        known =
      (omega (arith, total), numbered, all, tt)
  attempt_rounds-IsDelivery (suc rounds) attempt first tx result broadcasts total number numbered
        all same known =
      let sent : List (ℕ × DeliveryManTx) = (attempt, tx) ∷ broadcasts in
      continue-IsDelivery attempt first tx broadcasts (try_attempt env opts attempt tx result) _
        (try_attempt-IsStep attempt tx broadcasts result known)
        (λ outcome ends. (omega (arith, total), (number, numbered), (same, all), ends))
        (λ next response replaces k.
          attempt_rounds-IsDelivery rounds (attempt + 1) first next response sent
            (omega (arith, total)) (omega (arith, number)) (number, numbered) (same, all)
            (IsReplacement-next first tx next same replaces) k)

  -- Whatever the network answers, and in whatever attempt: `deliver` broadcasts at most
  -- `maxAttempts` times, in the attempts 1, 2 and so on; every transaction that it broadcasts has the
  -- nonce, the chain, the sender, the recipient and the value of the prepared one; and what it returns
  -- is a response with which the network has accepted one of them. If the preparation throws, nothing
  -- is broadcast.
  pub deliver-IsDelivery :
      (call : TxDeliveryCall)
      → ((thrown : TxError) × (prepare_transaction_request env opts call ≡ err thrown)
          × ((deliver env opts 1 call).outcome ≡ err thrown)
          × ((deliver env opts 1 call).broadcasts ≡ []))
        ⊎ ((first : DeliveryManTx) × (prepare_transaction_request env opts call ≡ ok first)
            × IsDelivery first (deliver env opts 1 call))
  unfolding deliver
  deliver-IsDelivery call = prepared (prepare_transaction_request env opts call) refl
    where
      prepared :
          (p : Result TxError DeliveryManTx)
          → prepare_transaction_request env opts call ≡ p
          → ((thrown : TxError) × (prepare_transaction_request env opts call ≡ err thrown)
              × ((deliver env opts 1 call).outcome ≡ err thrown)
              × ((deliver env opts 1 call).broadcasts ≡ []))
            ⊎ ((first : DeliveryManTx) × (prepare_transaction_request env opts call ≡ ok first)
                × IsDelivery first (deliver env opts 1 call))
      prepared (err thrown) h = inl (thrown, h, rw h refl, rw h refl)
      prepared (ok first) h = inr (
        first,
        h,
        rw h (
            attempt_rounds-IsDelivery opts.max_attempts 1 first first none [] (omega arith)
              (omega arith) tt tt (refl, refl, refl, refl, refl) tt),
      )
