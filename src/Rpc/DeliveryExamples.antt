-- ===== src/Rpc/DeliveryExamples.antt =====
-- A delivery whose first broadcast is not mined and whose second one is, but is sent again.
use redstone_oracles_monorep.Prelude.{
  ℕ, ◌+◌, ◌*◌, ◌==◌, false, none, some, [], ok, err, if◌then◌else◌, ◌≡◌, ◌⊎◌, refl,
}
use redstone_oracles_monorep.Rpc.Broadcast.{
  TxError, ethers, TxDeliveryCall, DeliveryManTx, TxDeliveryOpts, TxEnvironment, auction,
  prepare_transaction_request, update_tx_params_for_next_attempt, get_fees, scale_fees,
  get_gas_limit, scale_gas_limit, resolve_tx_delivery_call_data, handle_transaction_broadcast_error,
  is_underpriced_error, is_nonce_expired_error, is_insufficient_funds_error,
}
use redstone_oracles_monorep.Rpc.TxDelivery.{is_delivered, try_attempt, deliver}
use redstone_oracles_monorep.Rpc.Attempts.{IsDelivery, deliver-IsDelivery}

abbrev three_attempts : TxDeliveryOpts
three_attempts = record {
  max_attempts = 3;
  gas_limit = none;
  two_dimensional_fees = false;
  force_disable_custom_gas_oracle = false;
}

-- The first attempt is accepted with response 100 and not mined in time, the second one is refused
-- since the nonce has expired meanwhile.
abbrev slow_network : TxEnvironment ℕ
slow_network = record {
  transaction_count = λ moment. ok 7;
  network_chain_id = ok 1;
  gas_oracle = none;
  estimator_fees = λ moment. ok (auction 10);
  estimated_gas = λ moment call. ok 21000;
  times_multiplier = λ amount attempt. amount * (attempt + 1);
  times_gas_limit_multiplier = λ amount attempt. amount * (attempt + 1);
  deferred_call_data = none;
  send = λ attempt tx.
      if attempt == 1
      then ok 100
      else err (ethers (record { code = "NONCE_EXPIRED"; message = "nonce too low" }));
}

abbrev some_call : TxDeliveryCall
some_call = record { from_address = "0xa"; to_address = "0xb"; call_data = "0xc"; value = none }

slow_network-run : (deliver slow_network three_attempts 1 some_call).outcome ≡ ok (some 100)
unfolding deliver try_attempt is_delivered prepare_transaction_request
    update_tx_params_for_next_attempt get_fees scale_fees get_gas_limit scale_gas_limit
    resolve_tx_delivery_call_data handle_transaction_broadcast_error is_underpriced_error
    is_nonce_expired_error is_insufficient_funds_error
slow_network-run = refl

deliver-IsDelivery_example :
    ((thrown : TxError) × (prepare_transaction_request slow_network three_attempts some_call
        ≡ err thrown)
      × ((deliver slow_network three_attempts 1 some_call).outcome ≡ err thrown)
      × ((deliver slow_network three_attempts 1 some_call).broadcasts ≡ []))
    ⊎ ((first : DeliveryManTx) × (prepare_transaction_request slow_network three_attempts some_call
          ≡ ok first)
        × IsDelivery slow_network three_attempts first
            (deliver slow_network three_attempts 1 some_call))
deliver-IsDelivery_example = deliver-IsDelivery slow_network three_attempts some_call
