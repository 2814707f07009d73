-- ===== src/Rpc/Delivery.antt =====
-- TxDelivery.ts: what one attempt does with the transaction and the last response.
use redstone_oracles_monorep.Prelude.{
  ℕ, suc, Bool, true, false, Option, none, some, List, [], ◌∷◌, Result, err, ok, >>=-eq-ok,
  ok_injective, if◌then◌else◌, length, ◌≡◌, ◌⊎◌, refl, inl, inr,
}
use redstone_oracles_monorep.Rpc.Broadcast.{
  TxError, attempts_exhausted, DeliveryManTx, TxDeliveryOpts, TxEnvironment,
  update_tx_params_for_next_attempt, handle_transaction_broadcast_error,
  TransactionBroadcastErrorResult, already_delivered, underpriced, unknown_error,
  insufficient_funds, expired_nonce, is_nonce_expired_error, is_underpriced_error,
  is_insufficient_funds_error, ethers, other, delivered_by_someone_else, called_twice, get_fees,
  get_gas_limit, resolve_tx_delivery_call_data, convert_to_tx_delivery_call,
}
use redstone_oracles_monorep.Rpc.TxDelivery.{
  AttemptResult, finished, next_attempt, with_new_params, after_error, after_wait, after_send,
  is_delivered,
}

module _ {R : Type 0} (env : TxEnvironment R) (opts : TxDeliveryOpts) where
  -- The transaction replaces another one: same nonce, chain, sender and recipient.
  abbrev pub IsReplacement : DeliveryManTx → DeliveryManTx → Type 0
  IsReplacement first tx =
      (tx.nonce ≡ first.nonce)
      × (tx.chain_id ≡ first.chain_id)
      × (tx.call.from_address ≡ first.call.from_address)
      × (tx.call.to_address ≡ first.call.to_address)
      × (tx.call.value ≡ first.call.value)

  -- The broadcasts are those of the attempts 1, 2 and so on.
  abbrev pub IsNumbered : List (ℕ × DeliveryManTx) → Type 0
  IsNumbered [] = Unit {0}
  IsNumbered ((attempt, tx) ∷ earlier) = (attempt ≡ suc (length earlier)) × IsNumbered earlier

  -- The network has accepted one of the broadcasts with the response.
  abbrev pub IsResponseTo : R → List (ℕ × DeliveryManTx) → Type 0
  IsResponseTo response [] = ⊥
  IsResponseTo response ((attempt, tx) ∷ earlier) =
      (env.send attempt tx ≡ ok response) ⊎ IsResponseTo response earlier

  -- The last response, if there is one, is to a broadcast.
  abbrev pub IsKnown : Option R → List (ℕ × DeliveryManTx) → Type 0
  IsKnown none broadcasts = Unit {0}
  IsKnown (some response) broadcasts = IsResponseTo response broadcasts

  -- What a delivery may end with.
  abbrev pub IsOutcome : List (ℕ × DeliveryManTx) → Result TxError (Option R) → Type 0
  IsOutcome broadcasts (err thrown) = Unit {0}
  IsOutcome broadcasts (ok none) = ⊥
  IsOutcome broadcasts (ok (some response)) = IsResponseTo response broadcasts

  -- A round keeps what is known.
  abbrev pub IsStep : ℕ → DeliveryManTx → List (ℕ × DeliveryManTx) → AttemptResult env opts → Type 0
  IsStep attempt tx broadcasts (finished outcome) = IsOutcome ((attempt, tx) ∷ broadcasts) outcome
  IsStep attempt tx broadcasts (next_attempt next result) =
      IsReplacement tx next × IsKnown result ((attempt, tx) ∷ broadcasts)

  update-IsReplacement :
      (tx next : DeliveryManTx) (attempt : ℕ)
      → update_tx_params_for_next_attempt env opts tx attempt ≡ ok next
      → IsReplacement tx next
  unfolding update_tx_params_for_next_attempt
  update-IsReplacement tx next attempt h =
      let (fees, _, h1) = >>=-eq-ok (get_fees env opts attempt attempt) _ h in
      let (gas_limit, _, h2) =
        >>=-eq-ok (get_gas_limit env opts attempt (convert_to_tx_delivery_call env opts tx.call)) _
          h1 in
      let (call_data, _, h3) =
        >>=-eq-ok
          (resolve_tx_delivery_call_data env opts attempt
            (convert_to_tx_delivery_call env opts tx.call))
          _ h2 in
      rw (← ok_injective h3) (refl, refl, refl, refl, refl)

  with_new_params-IsStep :
      (attempt : ℕ) (tx : DeliveryManTx) (broadcasts : List (ℕ × DeliveryManTx)) (result : Option R)
      (updated : Result TxError DeliveryManTx)
      → update_tx_params_for_next_attempt env opts tx attempt ≡ updated
      → IsKnown result ((attempt, tx) ∷ broadcasts)
      → IsStep attempt tx broadcasts (with_new_params env opts updated result)
  with_new_params-IsStep attempt tx broadcasts result (err thrown) h known = tt
  with_new_params-IsStep attempt tx broadcasts result (ok next) h known =
      (update-IsReplacement tx next attempt h, known)

  expired_nonce-some :
      (result : Option R)
      → expired_nonce result ≡ ok already_delivered
      → (r : R) × (result ≡ some r)
  expired_nonce-some none h = cc
  expired_nonce-some (some r) h = (r, refl)

  -- An expired nonce counts as a delivery only if a transaction was accepted before.
  already_delivered-some :
      (error : TxError) (result : Option R)
      → handle_transaction_broadcast_error error result ≡ ok already_delivered
      → (r : R) × (result ≡ some r)
  unfolding handle_transaction_broadcast_error
  already_delivered-some (ethers e) result h =
      first_branch (is_nonce_expired_error e) (is_underpriced_error e)
        (is_insufficient_funds_error e) h
    where
      first_branch :
          (expired under funds : Bool)
          → (if expired
              then expired_nonce result
              else if under
              then ok underpriced
              else if funds
              then ok insufficient_funds
              else ok unknown_error)
            ≡ ok already_delivered
          → (r : R) × (result ≡ some r)
      first_branch true under funds h = expired_nonce-some result h
      first_branch false true funds h = cc
      first_branch false false true h = cc
      first_branch false false false h = cc
  already_delivered-some (other text) result h = cc
  already_delivered-some called_twice result h = cc
  already_delivered-some delivered_by_someone_else result h = cc
  already_delivered-some attempts_exhausted result h = cc

  IsKnown-before :
      (attempt : ℕ) (tx : DeliveryManTx) (broadcasts : List (ℕ × DeliveryManTx)) (result : Option R)
      → IsKnown result broadcasts
      → IsKnown result ((attempt, tx) ∷ broadcasts)
  IsKnown-before attempt tx broadcasts none known = tt
  IsKnown-before attempt tx broadcasts (some r) known = inr known

  known-IsOutcome :
      (attempt : ℕ) (tx : DeliveryManTx) (broadcasts : List (ℕ × DeliveryManTx)) (result : Option R)
      → (r : R) × (result ≡ some r)
      → IsKnown result broadcasts
      → IsOutcome ((attempt, tx) ∷ broadcasts) (ok result)
  known-IsOutcome attempt tx broadcasts none (r, present) known = cc
  known-IsOutcome attempt tx broadcasts (some response) present known = inr known

  after_error-IsStep :
      (attempt : ℕ) (tx : DeliveryManTx) (broadcasts : List (ℕ × DeliveryManTx)) (result : Option R)
      (error : TxError) (handled : Result TxError TransactionBroadcastErrorResult)
      → handle_transaction_broadcast_error error result ≡ handled
      → IsKnown result broadcasts
      → IsStep attempt tx broadcasts (after_error env opts handled error attempt tx result)
  after_error-IsStep attempt tx broadcasts result error (err thrown) h known = tt
  after_error-IsStep attempt tx broadcasts result error (ok already_delivered) h known =
      known-IsOutcome attempt tx broadcasts result (already_delivered-some error result h) known
  after_error-IsStep attempt tx broadcasts result error (ok underpriced) h known =
      with_new_params-IsStep attempt tx broadcasts result _ refl
        (IsKnown-before attempt tx broadcasts result known)
  after_error-IsStep attempt tx broadcasts result error (ok insufficient_funds) h known = tt
  after_error-IsStep attempt tx broadcasts result error (ok unknown_error) h known = tt

  after_wait-IsStep :
      (attempt : ℕ) (tx : DeliveryManTx) (broadcasts : List (ℕ × DeliveryManTx)) (response : R)
      (delivered : Result TxError Bool)
      → env.send attempt tx ≡ ok response
      → IsStep attempt tx broadcasts (after_wait env opts delivered attempt tx (some response))
  after_wait-IsStep attempt tx broadcasts response (err thrown) sent = tt
  after_wait-IsStep attempt tx broadcasts response (ok true) sent = inl sent
  after_wait-IsStep attempt tx broadcasts response (ok false) sent =
      with_new_params-IsStep attempt tx broadcasts (some response) _ refl (inl sent)

  pub after_send-IsStep :
      (attempt : ℕ) (tx : DeliveryManTx) (broadcasts : List (ℕ × DeliveryManTx)) (result : Option R)
      (answer : Result TxError R)
      → env.send attempt tx ≡ answer
      → IsKnown result broadcasts
      → IsStep attempt tx broadcasts (after_send env opts answer attempt tx result)
  after_send-IsStep attempt tx broadcasts result (err error) h known =
      after_error-IsStep attempt tx broadcasts result error _ refl known
  after_send-IsStep attempt tx broadcasts result (ok response) h known =
      after_wait-IsStep attempt tx broadcasts response (is_delivered env opts tx attempt) h
