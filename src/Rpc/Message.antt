-- ===== src/Rpc/Message.antt =====
-- crates/rpc/src/lib.rs: requests, responses, errors, and the names of the methods.
use Prim.Native.String.{String}
use text.Mathlib.Text
use nbnet.Prelude.{ℕ, ◌-◌, Bool, Option, none, some, if◌then◌else◌, Result, ok, err, ℤ, negsuc}
use nbnet.TxPool.Submit.{SubmitError}
use nbnet.State.External.{Vsdb, Revm}
use nbnet.Execution.Executor.{EvmExecutor, CallError}
use nbnet.Rpc.Json.{ParamError}

-- The messages of the errors.
pub data RpcMessage : Type 0 where
  invalid_params : ParamError → RpcMessage
  call_failed : CallError → RpcMessage
  submit_failed : SubmitError → RpcMessage
  method_not_found : String → RpcMessage

-- `network_sink` says whether there is one.
pub record EvmRpcState (E : Type 0) (v : Vsdb) (r : Revm) : Type 0 where
  pub executor : EvmExecutor E v r
  pub chain_id : ℕ
  pub network_sink : Bool

pub record JsonRpcRequest (J : Type 0) : Type 0 where
  pub jsonrpc : Option String
  pub method : String
  pub params : J
  pub id : J

pub record JsonRpcError : Type 0 where
  pub code : ℤ
  pub message : RpcMessage

pub record JsonRpcResponse (J : Type 0) : Type 0 where
  pub jsonrpc : String
  pub result : Option J
  pub error : Option JsonRpcError
  pub id : J

-- The methods that only read, and any name that the server does not know.
pub data Query : Type 0 where
  chain_id net_version client_version block_number get_balance get_transaction_count get_code :
      Query
  get_storage_at gas_price max_priority_fee get_transaction_receipt get_transaction_by_hash : Query
  get_logs_method get_block_by_number get_block_by_hash fee_history syncing accounts : Query
  unknown : Query

pub data Method : Type 0 where
  reading : Query → Method
  estimate_gas send_raw_transaction call : Method

-- The arms of `match req.method.as_str()`.
unfoldable pub method_of : String → Method
method_of m =
    if Text.◌==◌ m "eth_chainId"
    then reading chain_id
    else if Text.◌==◌ m "net_version"
    then reading net_version
    else if Text.◌==◌ m "web3_clientVersion"
    then reading client_version
    else if Text.◌==◌ m "eth_blockNumber"
    then reading block_number
    else if Text.◌==◌ m "eth_getBalance"
    then reading get_balance
    else if Text.◌==◌ m "eth_getTransactionCount"
    then reading get_transaction_count
    else if Text.◌==◌ m "eth_getCode"
    then reading get_code
    else if Text.◌==◌ m "eth_getStorageAt"
    then reading get_storage_at
    else if Text.◌==◌ m "eth_gasPrice"
    then reading gas_price
    else if Text.◌==◌ m "eth_estimateGas"
    then estimate_gas
    else if Text.◌==◌ m "eth_maxPriorityFeePerGas"
    then reading max_priority_fee
    else if Text.◌==◌ m "eth_sendRawTransaction"
    then send_raw_transaction
    else if Text.◌==◌ m "eth_call"
    then call
    else if Text.◌==◌ m "eth_getTransactionReceipt"
    then reading get_transaction_receipt
    else if Text.◌==◌ m "eth_getTransactionByHash"
    then reading get_transaction_by_hash
    else if Text.◌==◌ m "eth_getLogs"
    then reading get_logs_method
    else if Text.◌==◌ m "eth_getBlockByNumber"
    then reading get_block_by_number
    else if Text.◌==◌ m "eth_getBlockByHash"
    then reading get_block_by_hash
    else if Text.◌==◌ m "eth_feeHistory"
    then reading fee_history
    else if Text.◌==◌ m "eth_syncing"
    then reading syncing
    else if Text.◌==◌ m "eth_accounts"
    then reading accounts
    else reading unknown

-- A value, or the code and the message of an error; it becomes a response with the request's id.
abbrev pub Outcome : Type 0 → Type 0
Outcome J = Result J JsonRpcError

-- A negative code.
abbrev pub minus : ℕ → ℤ
minus n = negsuc (n - 1)

abbrev pub fail : {J : Type 0} → ℤ → RpcMessage → Outcome J
fail code message = err (record { code = code; message = message })

-- Invalid parameters are -32602.
abbrev pub checked : {A J : Type 0} → Result A ParamError → (A → Outcome J) → Outcome J
checked (ok a) f = f a
checked (err e) f = fail (minus 32602) (invalid_params e)

-- `JsonRpcResponse::ok` and `JsonRpcResponse::err`
unfoldable pub respond : {J : Type 0} → J → Outcome J → JsonRpcResponse J
respond id (ok result) = record { jsonrpc = "2.0"; result = some result; error = none; id = id }
respond id (err e) = record { jsonrpc = "2.0"; result = none; error = some e; id = id }
