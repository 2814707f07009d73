-- ===== src/Rpc/TxDelivery.antt =====
-- TxDelivery.ts: `deliver`, the attempts to get a transaction mined.
use redstone_oracles_monorep.Prelude.{
  ℕ, zero, suc, ◌+◌, Bool, true, false, Option, none, some, List, [], ◌∷◌, Result, err, ok, ◌>>=◌,
  if◌then◌else◌, ltb, ◌==◌,
}
use redstone_oracles_monorep.Rpc.Broadcast.{
  TxError, called_twice, attempts_exhausted, TransactionBroadcastErrorResult, already_delivered,
  underpriced, unknown_error, insufficient_funds, handle_transaction_broadcast_error,
  TxDeliveryCall, DeliveryManTx, TxDeliveryOpts, TxEnvironment, update_tx_params_for_next_attempt,
  prepare_transaction_request,
}

module _ {R : Type 0} (env : TxEnvironment R) (opts : TxDeliveryOpts) where
  -- What an attempt leads to: the end of the delivery, or the next transaction.
  pub data AttemptResult : Type 0 where
    finished : Result TxError (Option R) → AttemptResult
    next_attempt : DeliveryManTx → Option R → AttemptResult

  -- The end of a delivery: what is returned or thrown, the attempt, and the transactions that were
  -- broadcast, with their attempts, the last one first.
  pub record Delivery : Type 0 where
    pub outcome : Result TxError (Option R)
    pub attempt : ℕ
    pub broadcasts : List (ℕ × DeliveryManTx)

  abbrev pub with_new_params : Result TxError DeliveryManTx → Option R → AttemptResult
  with_new_params (err thrown) result = finished (err thrown)
  with_new_params (ok tx) result = next_attempt tx result

  -- The `switch` in the `catch` block.
  abbrev pub after_error :
      Result TxError TransactionBroadcastErrorResult
      → TxError
      → ℕ
      → DeliveryManTx
      → Option R
      → AttemptResult
  after_error (err thrown) error attempt tx result = finished (err thrown)
  after_error (ok already_delivered) error attempt tx result = finished (ok result)
  after_error (ok underpriced) error attempt tx result =
      with_new_params (update_tx_params_for_next_attempt env opts tx attempt) result
  after_error (ok insufficient_funds) error attempt tx result = finished (err error)
  after_error (ok unknown_error) error attempt tx result = finished (err error)

  unfoldable pub is_delivered : DeliveryManTx → ℕ → Result TxError Bool
  is_delivered tx attempt =
      env.transaction_count attempt >>= λ current_nonce. ok (ltb tx.nonce current_nonce)

  abbrev pub after_wait : Result TxError Bool → ℕ → DeliveryManTx → Option R → AttemptResult
  after_wait (err thrown) attempt tx result = finished (err thrown)
  after_wait (ok true) attempt tx result = finished (ok result)
  after_wait (ok false) attempt tx result =
      with_new_params (update_tx_params_for_next_attempt env opts tx attempt) result

  abbrev pub after_send : Result TxError R → ℕ → DeliveryManTx → Option R → AttemptResult
  after_send (err error) attempt tx result =
      after_error (handle_transaction_broadcast_error error result) error attempt tx result
  after_send (ok response) attempt tx result =
      after_wait (is_delivered tx attempt) attempt tx (some response)

  -- One round of the loop.
  unfoldable pub try_attempt : ℕ → DeliveryManTx → Option R → AttemptResult
  unfolding is_delivered
  try_attempt attempt tx result = after_send (env.send attempt tx) attempt tx result

  abbrev pub continue_with :
      AttemptResult
      → ℕ
      → List (ℕ × DeliveryManTx)
      → (DeliveryManTx → Option R → Delivery)
      → Delivery
  continue_with (finished outcome) attempt broadcasts rest = record {
    outcome = outcome;
    attempt = attempt;
    broadcasts = broadcasts;
  }
  continue_with (next_attempt tx result) attempt broadcasts rest = rest tx result

  -- The loop, with the rounds that are left.
  abbrev pub attempt_rounds : ℕ → ℕ → DeliveryManTx → Option R → List (ℕ × DeliveryManTx) → Delivery
  attempt_rounds zero attempt tx result broadcasts = record {
    outcome = err attempts_exhausted;
    attempt = attempt;
    broadcasts = broadcasts;
  }
  attempt_rounds (suc rounds) attempt tx result broadcasts =
      continue_with (try_attempt attempt tx result) attempt ((attempt, tx) ∷ broadcasts)
        (λ next response.
          attempt_rounds rounds (attempt + 1) next response ((attempt, tx) ∷ broadcasts))

  abbrev pub deliver_prepared : Result TxError DeliveryManTx → Delivery
  deliver_prepared (err thrown) = record { outcome = err thrown; attempt = 1; broadcasts = [] }
  deliver_prepared (ok tx) = attempt_rounds opts.max_attempts 1 tx none []

  -- `deliver` of an instance whose field `attempt` has the value given.
  unfoldable pub deliver : ℕ → TxDeliveryCall → Delivery
  unfolding try_attempt
  deliver attempt call =
      if attempt == 1
      then deliver_prepared (prepare_transaction_request env opts call)
      else record { outcome = err called_twice; attempt = attempt; broadcasts = [] }
