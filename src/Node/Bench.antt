-- ===== src/Node/Bench.antt =====
-- The loops of crates/node/src/bench.rs. Time is not modelled: a loop sees the answers that its polls
-- before the deadline get, in their order.
use nbnet.Prelude.{
  ℕ, zero, suc, ◌/◌, Bool, true, false, Option, none, some, List, [], ◌∷◌, leb, ltb, ◌-◌, unwrap_or,
  if◌then◌else◌,
}
use nbnet.Node.Genesis.{eth}

-- Whether one poll sees the height.
unfoldable pub wait_for_blocks : (min_blocks : ℕ) → List (Option ℕ) → Bool
wait_for_blocks min_blocks [] = false
wait_for_blocks min_blocks (none ∷ polls) = wait_for_blocks min_blocks polls
wait_for_blocks min_blocks (some height ∷ polls) =
    let rest = wait_for_blocks min_blocks polls in if leb min_blocks height then true else rest

-- The confirmed nonce, after the one of an earlier poll.
unfoldable pub wait_from : (confirmed expected_nonce : ℕ) → List (Option ℕ) → ℕ
wait_from confirmed expected_nonce [] = confirmed
wait_from confirmed expected_nonce (none ∷ polls) = wait_from confirmed expected_nonce polls
wait_from confirmed expected_nonce (some nonce ∷ polls) =
    let rest = wait_from nonce expected_nonce polls in
    if leb expected_nonce nonce then nonce else rest

unfoldable pub wait_for_confirmations : (expected_nonce : ℕ) → List (Option ℕ) → ℕ
wait_for_confirmations expected_nonce polls = wait_from 0 expected_nonce polls

-- `TxEip1559`, with the fields that the source sets.
pub record TxEip1559 : Type 0 where
  pub chain_id : ℕ
  pub nonce : ℕ
  pub gas_limit : ℕ
  pub max_fee_per_gas : ℕ
  pub max_priority_fee_per_gas : ℕ
  pub to : ℕ
  pub value : ℕ
  pub input : List ℕ

-- The transaction of a nonce.
unfoldable pub transfer_tx : (recipient chain_id nonce : ℕ) → TxEip1559
transfer_tx recipient chain_id nonce = record {
  chain_id = chain_id;
  nonce = nonce;
  gas_limit = 21_000;
  max_fee_per_gas = 2_000_000_000;
  max_priority_fee_per_gas = 1_000_000_000;
  to = recipient;
  value = eth / 1000;
  input = [];
}

-- Signing and encoding belong to alloy. The loop over `0..count`, from a nonce on.
unfoldable pub presign_from :
    (TxEip1559 → List ℕ) → (recipient chain_id nonce count : ℕ) → List (List ℕ)
presign_from sign recipient chain_id nonce zero = []
presign_from sign recipient chain_id nonce (suc count) =
    sign (transfer_tx recipient chain_id nonce)
    ∷ presign_from sign recipient chain_id (suc nonce) count

unfoldable pub presign_txs : (TxEip1559 → List ℕ) → (recipient chain_id count : ℕ) → List (List ℕ)
presign_txs sign recipient chain_id count = presign_from sign recipient chain_id 0 count

-- How many of the transactions count as submitted.
unfoldable pub submit_all : (List ℕ → Bool) → List (List ℕ) → ℕ
submit_all rpc_send_raw_tx [] = 0
submit_all rpc_send_raw_tx (raw_tx ∷ rest) =
    if rpc_send_raw_tx raw_tx
    then suc (submit_all rpc_send_raw_tx rest)
    else submit_all rpc_send_raw_tx rest

-- Of how many transactions `run_bench` warns that they are not confirmed.
unfoldable pub not_confirmed : (confirmed submitted : ℕ) → Option ℕ
not_confirmed confirmed submitted =
    if ltb confirmed submitted then some (submitted - confirmed) else none

-- What `run_bench` prints, from the answers of its polls: transactions confirmed and blocks produced.
pub record Report : Type 0 where
  pub confirmed : ℕ
  pub blocks_produced : ℕ

unfoldable pub report :
    (submitted : ℕ) → (polls : List (Option ℕ)) → (start_block end_block : Option ℕ) → Report
report submitted polls start_block end_block =
    let start = unwrap_or start_block 0 in
    record {
      confirmed = wait_for_confirmations submitted polls;
      blocks_produced = unwrap_or end_block start - start;
    }
