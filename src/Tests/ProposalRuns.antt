-- ===== src/Tests/ProposalRuns.antt =====
-- A run of crates/execution/src/executor.rs from a submission to the next payload.
use mathlib.Core.List.{Memᴰ}
use nbnet.Prelude.{
  ℕ, ◌≡◌, refl, List, [], ◌∷◌, ◌++◌, All, some, arith, ok, nat_eq, list_eq, ==_iff, ◌==◌,
  Bool-cases, inl, inr,
}
use nbnet.Std.HashMap
use nbnet.Std.HashMap.{HashMap}
use nbnet.Std.BTreeMap
use nbnet.Types.Tx.{VerifiedTx, decode_and_recover, effective_gas_tip}
use nbnet.State.Evm
use nbnet.TxPool.Pool.{
  SenderQueue, set_nonce_fn, new, promote_queued_static, promote_loop, next_nonce,
}
use nbnet.TxPool.Submit.{
  submit_tx, submit_verified, lookup_nonce, add_entry, put_queue, put_entry, is_pending,
  index_entry,
}
use nbnet.TxPool.Index.{queue_of}
use nbnet.TxPool.Payload.{candidates, frame, collect_payload}
use nbnet.TxPool.Priority.{Below, candidate_of}
use nbnet.TxPool.Opening.{submit_tx-starves}
use nbnet.Execution.Executor.{EvmExecutor, live_pool, submit_raw_tx, create_payload, setup_nonce_fn}
use nbnet.Execution.Proposal.{submit_raw_tx-create_payload}
use nbnet.Tests.World.{Envelope, mini_tx, mini_vsdb, mini_revm}
use nbnet.Tests.PoolRuns.{visit}
use nbnet.Tests.ExecutorRuns.{live}

-- Sender 1 with nonce 4, which is the account's.
abbrev raw : List ℕ
raw = 1 ∷ 4 ∷ 21 ∷ 200 ∷ 30 ∷ 9 ∷ 5 ∷ []

abbrev decoded : VerifiedTx Envelope
decoded = record {
  raw = raw;
  envelope = record {
    sender = 1;
    nonce = 4;
    gas = 21_000;
    fee = 200;
    tip = 30;
    to = 9;
    value = 5;
    input = [];
  };
  sender = 1;
  tx_hash = 13_107_460;
}

abbrev ready : EvmExecutor Envelope mini_vsdb mini_revm
ready = setup_nonce_fn live

passes :
    (m : HashMap ℕ (SenderQueue Envelope)) (a : ℕ) (q : SenderQueue Envelope)
    → HashMap.get m a ≡ some q
    → Memᴰ (a, q) m
unfolding HashMap.get
passes [] a q e = absurd cc
passes ((b, p) ∷ m) a q e = elim (Bool-cases (b == a)) [
  | inl same ↦ Memᴰ.head (ground (arith, e, same, ==_iff b a))
  | inr other ↦ Memᴰ.tail (passes m a q (ground arith))
]

top :
    All
      (Below (candidate_of ready.txpool.config decoded))
      (candidates (visit (submit_raw_tx ready raw).1.txpool.inner.senders))
unfolding submit_raw_tx live_pool submit_tx submit_verified lookup_nonce add_entry put_queue
    put_entry is_pending index_entry promote_queued_static promote_loop next_nonce new
    setup_nonce_fn set_nonce_fn candidates decode_and_recover effective_gas_tip HashMap.or_default
    HashMap.get HashMap.insert HashMap.contains_key BTreeMap.get BTreeMap.insert
    BTreeMap.contains_key BTreeMap.first Evm.get_nonce Evm.cached
top = (inl refl, tt)

submit_raw_tx-create_payload_example :
    ((submit_raw_tx ready raw).0 ≡ ok 13_107_460)
    × (rest : List ℕ) × ((create_payload visit (submit_raw_tx ready raw).1).0 ≡ frame raw ++ rest)
unfolding decode_and_recover setup_nonce_fn set_nonce_fn new HashMap.contains_key HashMap.get
    HashMap.or_default queue_of Evm.get_nonce Evm.cached
submit_raw_tx-create_payload_example =
    submit_raw_tx-create_payload visit ready raw decoded (λ a. Evm.get_nonce live.state a) refl refl
      refl refl refl (omega arith) passes top (omega arith) (omega arith) (omega arith)

starved_top :
    All
      (Below (candidate_of ready.txpool.config decoded))
      (candidates (visit (submit_tx ready.txpool raw).1.inner.senders))
unfolding submit_tx submit_verified lookup_nonce add_entry put_queue put_entry is_pending
    index_entry promote_queued_static promote_loop next_nonce new setup_nonce_fn set_nonce_fn
    candidates decode_and_recover effective_gas_tip HashMap.or_default HashMap.get HashMap.insert
    HashMap.contains_key BTreeMap.get BTreeMap.insert BTreeMap.contains_key BTreeMap.first
    Evm.get_nonce Evm.cached
starved_top = (inl refl, tt)

-- Payloads of ten bytes.
submit_tx-starves_example :
    ((submit_tx ready.txpool raw).0 ≡ ok 13_107_460)
    × (collect_payload visit (submit_tx ready.txpool raw).1 10 60_000
        ≡ ([], (submit_tx ready.txpool raw).1))
unfolding decode_and_recover new HashMap.contains_key HashMap.get HashMap.or_default queue_of
    lookup_nonce setup_nonce_fn set_nonce_fn Evm.get_nonce Evm.cached
submit_tx-starves_example =
    submit_tx-starves visit ready.txpool raw decoded 10 60_000 refl refl refl refl (omega arith)
      passes starved_top (omega arith)
