-- ===== src/Tests/PoolRuns.antt =====
-- Runs of crates/txpool/src/lib.rs and crates/types/src/tx.rs at concrete inputs.
use nbnet.Prelude.{
  ℕ, ◌^◌, ◌≤◌, ◌<◌, ◌≡◌, ◌↔◌, refl, List, [], ◌∷◌, length, map, some, none, All, arith, ok, err,
  true, false, min, ◌==◌, nat_eq,
}
use nbnet.Std.Words.{u64_max, u64_mod, u32_mod}
use nbnet.Std.Words
use nbnet.Std.Bytes
use nbnet.Std.HashMap
use nbnet.Std.BTreeMap
use nbnet.Types.Tx.{
  VerifiedTx, decode_and_recover, validate_tx, upfront_cost, wrong_chain, chain_id_mismatch,
  nonce_too_low, gas_limit_exceeds_block, intrinsic_gas_too_low, insufficient_balance,
}
use nbnet.Types.Tx.Validation.{
  IsAcceptable, yellow_gas, validate_tx-ok_iff, validate_tx_errors, validate_tx_wraps,
}
use nbnet.TxPool.Pool.{
  EvmTxPoolConfig, EvmTxPool, SenderQueue, PoolInner, default_pool_config, new, contains,
  promote_queued_static,
}
use nbnet.TxPool.Submit.{submit_tx}
use nbnet.TxPool.Payload.{
  Candidate, selection, select, candidates, sort_by_tip, insert_by_tip, frame, gas_of,
  pending_entry,
}
use nbnet.TxPool.Index.{IsPool, queue_of}
use nbnet.TxPool.Tally.{tally}
use nbnet.TxPool.Reach.{Step, Reach, Reach-IsPool, contains_iff}
use nbnet.TxPool.Promotion.{Promoted, promote_queued_static-Promoted}
use nbnet.TxPool.PayloadLimits.{selection_gas, selection_read_back, read_frames}
use nbnet.TxPool.Progress.{selection-prefix}
use nbnet.TxPool.Picks.{frames, gas_sum, NoWrap}
use nbnet.Tests.World.{Envelope, mini_tx}

abbrev pub pool_config : EvmTxPoolConfig
pool_config = record default_pool_config { base_fee = 100 }

-- Sender 1 sends nonces 0 and 2, sender 2 nonce 0 with a higher tip.
abbrev pub raw_a0 : List ℕ
raw_a0 = 1 ∷ 0 ∷ 21 ∷ 200 ∷ 30 ∷ 9 ∷ 5 ∷ []

abbrev pub raw_a2 : List ℕ
raw_a2 = 1 ∷ 2 ∷ 21 ∷ 200 ∷ 20 ∷ 9 ∷ 5 ∷ []

abbrev pub raw_b0 : List ℕ
raw_b0 = 2 ∷ 0 ∷ 30 ∷ 200 ∷ 50 ∷ 9 ∷ 5 ∷ 0 ∷ 7 ∷ []

abbrev pub fresh : EvmTxPool Envelope
fresh = new pool_config

abbrev pub one : EvmTxPool Envelope
one = (submit_tx fresh raw_a0).1

abbrev pub two : EvmTxPool Envelope
two = (submit_tx one raw_a2).1

abbrev pub three : EvmTxPool Envelope
three = (submit_tx two raw_b0).1

path_one : Reach fresh one
unfolding decode_and_recover
path_one = Reach.next Reach.here (Step.submits fresh raw_a0 (λ v e. ground (arith, e)))

pub path_two : Reach fresh two
unfolding decode_and_recover
path_two = Reach.next path_one (Step.submits one raw_a2 (λ v e. ground (arith, e)))

pub path : Reach fresh three
unfolding decode_and_recover
path = Reach.next path_two (Step.submits two raw_b0 (λ v e. ground (arith, e)))

Reach-IsPool_example : IsPool three.inner
Reach-IsPool_example = Reach-IsPool pool_config path

contains_iff_example : (contains three 13_107_456 ≡ true) ↔ (
    (a : ℕ) × (tally 13_107_456 (queue_of three.inner.senders a) ≡ 1)
    × ((b : ℕ) → (a == b) ≡ false → tally 13_107_456 (queue_of three.inner.senders b) ≡ 0))
contains_iff_example = contains_iff pool_config three path 13_107_456

-- The map is traversed in the order of insertion.
abbrev pub visit : List (ℕ × SenderQueue Envelope) → List (ℕ × SenderQueue Envelope)
visit m = m

abbrev queued_two : SenderQueue Envelope
queued_two = queue_of two.inner.senders 1

promote_queued_static-Promoted_example : Promoted 0 queued_two (promote_queued_static queued_two 0)
promote_queued_static-Promoted_example =
    promote_queued_static-Promoted 0 queued_two ((Reach-IsPool pool_config path_two).shape 1)
      (omega arith)

abbrev pub sent : Envelope
sent = record {
  sender = 1;
  nonce = 0;
  gas = 21_000;
  fee = 200;
  tip = 30;
  to = 9;
  value = 5;
  input = [];
}

abbrev pub verified : VerifiedTx Envelope
verified = record { raw = raw_a0; envelope = sent; sender = 1; tx_hash = 13_107_456 }

validate_tx-ok_iff_example :
    (validate_tx verified 1337 0 5_000_000 30_000_000 100 ≡ ok tt)
    ↔ IsAcceptable verified 1337 0 5_000_000 30_000_000 100
validate_tx-ok_iff_example =
    validate_tx-ok_iff verified 1337 0 5_000_000 30_000_000 100 (omega arith) (omega arith)

-- The same as a literal: sender 1 with one pending transaction.
abbrev pub shop : PoolInner Envelope
shop = record {
  senders =
      (
        1,
        record {
          pending = (0, record { verified = verified; effective_tip = 30 }) ∷ [];
          queued = [];
        },
      )
      ∷ [];
  by_hash = (13_107_456, 1) ∷ [];
  nonce_fn = none;
}

shop-NoWrap : NoWrap shop.senders 60_000
unfolding gas_of pending_entry HashMap.get BTreeMap.get
shop-NoWrap c = ground arith

selection_gas_example : gas_sum shop.senders (selection visit shop 1000 60_000).included ≤ 60_000
selection_gas_example = selection_gas visit shop 1000 60_000 shop-NoWrap (omega arith)

shop_short : All (λ c. length c.raw < u32_mod) (selection visit shop 1000 60_000).included
unfolding selection select candidates sort_by_tip insert_by_tip frame gas_of pending_entry
    HashMap.get BTreeMap.get BTreeMap.first Words.wrapping_add
shop_short = (omega arith, tt)

selection_read_back_example :
    read_frames
      (length (selection visit shop 1000 60_000).included)
      (selection visit shop 1000 60_000).payload
    ≡ some (map (λ c. c.raw) (selection visit shop 1000 60_000).included)
selection_read_back_example = selection_read_back visit shop 1000 60_000 shop_short

-- One transaction is selected.
shop_selects : length (selection visit shop 1000 60_000).included ≡ 1
unfolding selection select candidates sort_by_tip insert_by_tip frame gas_of pending_entry
    HashMap.get BTreeMap.get BTreeMap.first Words.wrapping_add
shop_selects = refl

abbrev lone : Candidate
lone = record { sender = 1; nonce = 0; tip = 30; raw = raw_a0 }

shop_candidates : sort_by_tip (candidates (visit shop.senders)) ≡ lone ∷ []
unfolding candidates sort_by_tip insert_by_tip BTreeMap.first
shop_candidates = refl

lone_gas : gas_sum shop.senders (lone ∷ []) ≤ 60_000
unfolding gas_of pending_entry HashMap.get BTreeMap.get
lone_gas = omega arith

lone_bytes : length (frames (lone ∷ [])) ≤ 1000
unfolding frame Bytes.to_le_bytes
lone_bytes = omega arith

selection-prefix_example :
    (rest : List Candidate) × ((selection visit shop 1000 60_000).included ≡ lone ∷ rest)
selection-prefix_example =
    selection-prefix visit shop 1000 60_000 (lone ∷ []) [] shop_candidates lone_bytes lone_gas
      (omega arith)

-- The cost of this one is 2 ^ 256 + 5.
abbrev huge : VerifiedTx Envelope
huge = record verified { envelope = record sent { gas = 2 ^ 15; fee = 2 ^ 241; value = 5 } }

validate_tx_wraps_example : validate_tx huge 1337 0 5 30_000_000 100 ≡ ok tt
validate_tx_wraps_example =
    validate_tx_wraps huge 1337 0 5 30_000_000 100 5 refl (omega arith) (omega arith) (omega arith)
      (omega arith) (omega arith) (omega arith)

validate_tx_errors_example :
    let r = validate_tx verified 1337 1 5_000_000 30_000_000 100 in
    ((r ≡ err (chain_id_mismatch 1337 none)) ↔ (wrong_chain none 1337 ≡ true))
    × ((r ≡ err (nonce_too_low 1 0)) ↔ ((wrong_chain none 1337 ≡ false) × (0 < 1)))
    × ((r ≡ err (gas_limit_exceeds_block 21_000 30_000_000))
        ↔ ((wrong_chain none 1337 ≡ false) × (1 ≤ 0) × (30_000_000 < 21_000)))
    × ((r ≡ err (intrinsic_gas_too_low (min (yellow_gas sent) u64_max) 21_000)) ↔ (
        (wrong_chain none 1337 ≡ false)
        × (1 ≤ 0)
        × (21_000 ≤ 30_000_000)
        × (21_000 < min (yellow_gas sent) u64_max)))
    × ((r ≡ err (insufficient_balance (upfront_cost sent 100) 5_000_000)) ↔ (
        (wrong_chain none 1337 ≡ false)
        × (1 ≤ 0)
        × (21_000 ≤ 30_000_000)
        × (min (yellow_gas sent) u64_max ≤ 21_000)
        × (5_000_000 < upfront_cost sent 100)))
validate_tx_errors_example = validate_tx_errors verified 1337 1 5_000_000 30_000_000 100
