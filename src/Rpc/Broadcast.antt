-- ===== src/Rpc/Broadcast.antt =====
-- TxDelivery.ts, the errors of a broadcast and the parameters of an attempt, with the gas estimators.
-- What the network answers is read from an environment, by the number of the attempt.
use redstone_oracles_monorep.Prelude.{
  override, ℕ, String, Bool, Option, none, some, Result, err, ok, ◌>>=◌, if◌then◌else◌, str_eq,
  is_some, not, ◌==◌, ◌&&◌, ◌||◌,
}
use text.Mathlib.Text.{find?}

pub record EthersError : Type 0 where
  pub code : String
  pub message : String

-- `ethers` is an error with a code and a message, `other` one without.
pub data TxError : Type 0 where
  ethers : EthersError → TxError
  other : String → TxError
  called_twice : TxError
  delivered_by_someone_else : TxError
  attempts_exhausted : TxError

-- `text.includes(part)`
abbrev pub includes_text : String → String → Bool
includes_text text part = is_some (find? text part)

unfoldable pub is_underpriced_error : EthersError → Bool
is_underpriced_error e =
    (includes_text e.message "maxFeePerGas"
      || includes_text e.message "baseFeePerGas"
      || includes_text e.message "underpriced"
      || str_eq e.code "REPLACEMENT_UNDERPRICED"
      || str_eq e.code "UNPREDICTABLE_GAS_LIMIT")
    && not (includes_text e.message "VM Exception while processing transaction")

unfoldable pub is_nonce_expired_error : EthersError → Bool
is_nonce_expired_error e =
    includes_text e.message "nonce has already been used"
    || includes_text e.message "invalid nonce"
    || includes_text e.message "invalid sequence"
    || str_eq e.code "NONCE_EXPIRED"

unfoldable pub is_insufficient_funds_error : EthersError → Bool
is_insufficient_funds_error e = str_eq e.code "INSUFFICIENT_FUNDS"

pub data TransactionBroadcastErrorResult : Type 0 where
  already_delivered underpriced unknown_error insufficient_funds : TransactionBroadcastErrorResult

abbrev pub expired_nonce : {R : Type 0} → Option R → Result TxError TransactionBroadcastErrorResult
expired_nonce none = err delivered_by_someone_else
expired_nonce (some response) = ok already_delivered

unfoldable pub handle_transaction_broadcast_error :
    {R : Type 0} → TxError → Option R → Result TxError TransactionBroadcastErrorResult
unfolding is_underpriced_error is_nonce_expired_error is_insufficient_funds_error
handle_transaction_broadcast_error (ethers e) result =
    if is_nonce_expired_error e
    then expired_nonce result
    else if is_underpriced_error e
    then ok underpriced
    else if is_insufficient_funds_error e
    then ok insufficient_funds
    else ok unknown_error
handle_transaction_broadcast_error thrown result = err (other "Unknown non ethers error")

pub data FeeStructure : Type 0 where
  eip1559 : ℕ → ℕ → FeeStructure
  auction : ℕ → FeeStructure

-- `Tx.TxDeliveryCall`
pub record TxDeliveryCall : Type 0 where
  pub from_address : String
  pub to_address : String
  pub call_data : String
  pub value : Option String

-- Of the fields for fees a transaction has those of its type, 2 or 0. A next attempt that gets fees of
-- the other kind adds theirs to it.
pub record DeliveryManTx : Type 0 where
  pub call : TxDeliveryCall
  pub nonce : ℕ
  pub chain_id : ℕ
  pub gas_limit : ℕ
  pub tx_type : ℕ
  pub max_fee_per_gas : Option ℕ
  pub max_priority_fee_per_gas : Option ℕ
  pub gas_price : Option ℕ

abbrev pub max_fee_of : FeeStructure → Option ℕ
max_fee_of (eip1559 max_fee priority_fee) = some max_fee
max_fee_of (auction gas_price) = none

abbrev pub priority_fee_of : FeeStructure → Option ℕ
priority_fee_of (eip1559 max_fee priority_fee) = some priority_fee
priority_fee_of (auction gas_price) = none

abbrev pub gas_price_of : FeeStructure → Option ℕ
gas_price_of (eip1559 max_fee priority_fee) = none
gas_price_of (auction gas_price) = some gas_price

-- `{ ...tx, ...fees }`
abbrev pub with_fees : DeliveryManTx → FeeStructure → DeliveryManTx
with_fees tx fees = record tx {
  max_fee_per_gas = override tx.max_fee_per_gas (max_fee_of fees);
  max_priority_fee_per_gas = override tx.max_priority_fee_per_gas (priority_fee_of fees);
  gas_price = override tx.gas_price (gas_price_of fees);
}

-- `Reflect.has(fees, "gasPrice") ? 0 : 2`
abbrev pub type_of : FeeStructure → ℕ
type_of (eip1559 max_fee priority_fee) = 2
type_of (auction gas_price) = 0

pub record TxDeliveryOpts : Type 0 where
  pub max_attempts : ℕ
  pub gas_limit : Option ℕ
  pub two_dimensional_fees : Bool
  pub force_disable_custom_gas_oracle : Bool

-- The network, asked in the preparation, moment 0, or in an attempt, whose number is the moment; and
-- `Math.round` of products with powers of the multipliers. An oracle also gets the attempt.
pub record TxEnvironment (R : Type 0) : Type 0 where
  pub transaction_count : ℕ → Result TxError ℕ
  pub network_chain_id : Result TxError ℕ
  pub gas_oracle : Option (ℕ → ℕ → Result TxError FeeStructure)
  pub estimator_fees : ℕ → Result TxError FeeStructure
  -- `Math.round(estimatedGas * gasLimitMultiplier)`
  pub estimated_gas : ℕ → TxDeliveryCall → Result TxError ℕ
  pub times_multiplier : ℕ → ℕ → ℕ
  pub times_gas_limit_multiplier : ℕ → ℕ → ℕ
  pub deferred_call_data : Option (ℕ → Result TxError String)
  -- `signTransaction` and `sendTransaction`
  pub send : ℕ → DeliveryManTx → Result TxError R

abbrev pub or_else :
    Result TxError FeeStructure → Result TxError FeeStructure → Result TxError FeeStructure
or_else (err thrown) fallback = fallback
or_else (ok fees) fallback = ok fees

module _ {R : Type 0} (env : TxEnvironment R) (opts : TxDeliveryOpts) where
  abbrev pub oracle_or_estimator :
      Option (ℕ → ℕ → Result TxError FeeStructure) → ℕ → ℕ → Result TxError FeeStructure
  oracle_or_estimator none moment attempt = env.estimator_fees moment
  oracle_or_estimator (some oracle) moment attempt =
      if opts.force_disable_custom_gas_oracle
      then env.estimator_fees moment
      else or_else (oracle moment attempt) (env.estimator_fees moment)

  unfoldable pub get_fees : ℕ → ℕ → Result TxError FeeStructure
  get_fees moment attempt = oracle_or_estimator env.gas_oracle moment attempt

  -- `scaleFees` of both estimators
  unfoldable pub scale_fees : FeeStructure → ℕ → FeeStructure
  scale_fees (eip1559 max_fee priority_fee) attempt =
      eip1559 (env.times_multiplier max_fee attempt) (env.times_multiplier priority_fee attempt)
  scale_fees (auction gas_price) attempt = auction (env.times_multiplier gas_price attempt)

  abbrev pub configured_or_estimated : Option ℕ → ℕ → TxDeliveryCall → Result TxError ℕ
  configured_or_estimated none attempt call = env.estimated_gas attempt call
  configured_or_estimated (some limit) attempt call =
      if limit == 0 then env.estimated_gas attempt call else ok limit

  unfoldable pub get_gas_limit : ℕ → TxDeliveryCall → Result TxError ℕ
  get_gas_limit attempt call = configured_or_estimated opts.gas_limit attempt call

  unfoldable pub scale_gas_limit : ℕ → ℕ → ℕ
  scale_gas_limit gas_limit attempt =
      if opts.two_dimensional_fees
      then env.times_gas_limit_multiplier gas_limit attempt
      else gas_limit

  abbrev pub deferred_or_same :
      Option (ℕ → Result TxError String) → ℕ → String → Result TxError String
  deferred_or_same none attempt call_data = ok call_data
  deferred_or_same (some deferred) attempt call_data = deferred attempt

  unfoldable pub resolve_tx_delivery_call_data : ℕ → TxDeliveryCall → Result TxError String
  resolve_tx_delivery_call_data attempt call =
      deferred_or_same env.deferred_call_data attempt call.call_data

  -- The value is not part of the call that gas is estimated for.
  abbrev pub convert_to_tx_delivery_call : TxDeliveryCall → TxDeliveryCall
  convert_to_tx_delivery_call call = record call { value = none }

  unfoldable pub update_tx_params_for_next_attempt :
      DeliveryManTx → ℕ → Result TxError DeliveryManTx
  unfolding get_fees scale_fees get_gas_limit scale_gas_limit resolve_tx_delivery_call_data
  update_tx_params_for_next_attempt tx attempt = do
    new_fees ← get_fees attempt attempt
    new_gas_limit ← get_gas_limit attempt (convert_to_tx_delivery_call tx.call)
    new_call_data ← resolve_tx_delivery_call_data attempt (convert_to_tx_delivery_call tx.call)
    ok (record (with_fees tx (scale_fees new_fees attempt)) {
      call = record tx.call { call_data = new_call_data };
      gas_limit = scale_gas_limit new_gas_limit attempt;
    })

  -- `call.value ?? utils.parseEther("0").toHexString()`
  abbrev pub value_or_zero : Option String → Option String
  value_or_zero none = some "0x00"
  value_or_zero (some value) = some value

  unfoldable pub prepare_transaction_request : TxDeliveryCall → Result TxError DeliveryManTx
  unfolding get_fees get_gas_limit
  prepare_transaction_request call = do
    current_nonce ← env.transaction_count 0
    fees ← get_fees 0 1
    gas_limit ← get_gas_limit 0 (convert_to_tx_delivery_call call)
    chain_id ← env.network_chain_id
    let request : DeliveryManTx = record {
      call = record call { value = value_or_zero call.value };
      nonce = current_nonce;
      chain_id = chain_id;
      gas_limit = gas_limit;
      tx_type = type_of fees;
      max_fee_per_gas = none;
      max_priority_fee_per_gas = none;
      gas_price = none;
    }
    ok (with_fees request fees)
