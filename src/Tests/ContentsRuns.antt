-- ===== src/Tests/ContentsRuns.antt =====
-- Runs of crates/txpool/src/lib.rs about what the pool holds.
use nbnet.Prelude.{
  ◌<◌, ℕ, ◌≡◌, ap, length, none, refl, List, [], ◌∷◌, some, arith, ok, true, false, ltb,
  if◌then◌else◌, nat_eq,
}
use nbnet.Std.Words.{u64_max}
use nbnet.Std.Words
use nbnet.Std.Bytes
use nbnet.Std.HashMap
use nbnet.Std.HashMap.{HashMap}
use nbnet.Std.BTreeMap
use nbnet.Types.Tx.{VerifiedTx, decode_and_recover, effective_gas_tip}
use nbnet.TxPool.Pool.{
  EvmTxPool, PoolEntry, SenderQueue, promote_queued_static, promote_loop, next_nonce, new,
}
use nbnet.TxPool.Submit.{
  submit_tx, submit_verified, lookup_nonce, add_entry, put_queue, put_entry, is_pending,
  index_entry, min_tip,
}
use nbnet.TxPool.Payload.{
  collect_payload, selection, select, candidates, sort_by_tip, insert_by_tip, frame, gas_of,
  pending_entry, remove_included,
}
use nbnet.TxPool.Commit.{on_commit}
use nbnet.TxPool.Index.{queue_of}
use nbnet.TxPool.Reach.{Step, Reach, Reach-IsPool}
use nbnet.TxPool.Contents.{held, elem}
use nbnet.TxPool.Contents.Removal.{Covers, on_commit-held}
use nbnet.TxPool.Contents.Collecting.{Left, collect_payload-Left}
use nbnet.TxPool.Contents.Insertion.{Places, entry_of, submit_tx-held}
use nbnet.TxPool.Contents.Gaps.{submit_tx-second}
use nbnet.Tests.World.{Envelope, mini_tx}
use nbnet.Tests.PoolRuns.{pool_config, fresh, two, three, path_two, visit, raw_b0}

-- A traversal in the order of the entries covers the map.
pub covered : (m : HashMap ℕ (SenderQueue Envelope)) → Covers visit m
unfolding elem HashMap.get HashMap.contains_key
covered [] a known = absurd cc
covered ((b, q) ∷ m) a known = ground (arith, covered m a)

on_commit-held_example :
    held (queue_of (on_commit visit two (λ a. 1)).inner.senders 1) 0
    ≡ (if ltb 0 1 then [] else held (queue_of two.inner.senders 1) 0)
on_commit-held_example =
    on_commit-held visit two (λ a. 1) 1 0 (Reach-IsPool pool_config path_two)
      (covered two.inner.senders) (λ b. omega arith)

collect_payload-Left_example :
    Left three.inner.senders
      (collect_payload visit three 1000 60_000).1.inner.senders
      (selection visit three.inner 1000 60_000).included
      1
      0
collect_payload-Left_example = collect_payload-Left visit three 1000 60_000 1 0

-- Sender 2's first transaction, as it is decoded.
abbrev verified_b0 : VerifiedTx Envelope
verified_b0 = record {
  raw = raw_b0;
  envelope = record {
    sender = 2;
    nonce = 0;
    gas = 30_000;
    fee = 200;
    tip = 50;
    to = 9;
    value = 5;
    input = 0 ∷ 7 ∷ [];
  };
  sender = 2;
  tx_hash = 13_107_712;
}

submit_tx-held_example :
    Places two.config two.inner verified_b0 (submit_tx two raw_b0).0 three.inner
unfolding decode_and_recover
submit_tx-held_example =
    submit_tx-held two raw_b0 verified_b0 refl (Reach-IsPool pool_config path_two) (omega arith)

-- Sender 1 has nonces 0, 1 and 2 pending, and loses 0 and 1 to two payloads; then nonce 1 is queued, and
-- nonce 0 pending.
abbrev raw : (nonce fee : ℕ) → List ℕ
raw nonce fee = 1 ∷ nonce ∷ 21 ∷ fee ∷ 30 ∷ 9 ∷ 5 ∷ []

abbrev sends : EvmTxPool Envelope → (nonce fee : ℕ) → EvmTxPool Envelope
sends pool nonce fee = (submit_tx pool (raw nonce fee)).1

abbrev pays_out : EvmTxPool Envelope → EvmTxPool Envelope
pays_out pool = (collect_payload visit pool 1000 60_000).1

sends-Reach :
    (pool : EvmTxPool Envelope) (nonce fee : ℕ)
    → Reach fresh pool
    → nonce < u64_max
    → Reach fresh (sends pool nonce fee)
unfolding decode_and_recover
sends-Reach pool nonce fee p low =
    Reach.next p (Step.submits pool (raw nonce fee) (λ v e. ground (arith, e)))

pays_out-Reach : (pool : EvmTxPool Envelope) → Reach fresh pool → Reach fresh (pays_out pool)
pays_out-Reach pool p = Reach.next p (Step.collects pool visit 1000 60_000)

abbrev three_sent : EvmTxPool Envelope
three_sent = sends (sends (sends fresh 0 200) 1 200) 2 200

abbrev gapped : EvmTxPool Envelope
gapped = sends (sends (pays_out (pays_out three_sent)) 1 201) 0 201

gapped-Reach : Reach fresh gapped
gapped-Reach =
    let p0 = sends-Reach fresh 0 200 Reach.here (omega arith) in
    let p1 = sends-Reach _ 1 200 p0 (omega arith) in
    let p2 = sends-Reach _ 2 200 p1 (omega arith) in
    let p3 = sends-Reach _ 1 201 (pays_out-Reach _ (pays_out-Reach _ p2)) (omega arith) in
    sends-Reach _ 0 201 p3 (omega arith)

-- The second transaction with nonce 1, with a tip no higher.
abbrev second : VerifiedTx Envelope
second = record {
  raw = raw 1 202;
  envelope = record {
    sender = 1;
    nonce = 1;
    gas = 21_000;
    fee = 202;
    tip = 30;
    to = 9;
    value = 5;
    input = [];
  };
  sender = 1;
  tx_hash = 13_238_529;
}

abbrev first : PoolEntry Envelope
first = entry_of pool_config (record second {
  raw = raw 1 201;
  envelope = record (second.envelope) { fee = 201 };
  tx_hash = 13_172_993;
})

-- The sender's queue: nonces 0 and 2 are pending, nonce 1 is queued between them.
gapped_facts :
    (HashMap.contains_key gapped.inner.by_hash second.tx_hash ≡ false)
    × (is_pending (queue_of gapped.inner.senders 1) 1 (lookup_nonce gapped.inner 1) ≡ true)
    × (BTreeMap.get (queue_of gapped.inner.senders 1).pending 1 ≡ none)
    × (length (queue_of gapped.inner.senders 1).pending ≡ 2)
    × (BTreeMap.get (queue_of gapped.inner.senders 1).queued 1 ≡ some first)
    × (gapped.config ≡ pool_config)
    × (lookup_nonce gapped.inner 1 ≡ 0)
unfolding submit_tx submit_verified lookup_nonce add_entry put_queue put_entry is_pending
    index_entry promote_queued_static promote_loop next_nonce new collect_payload selection select
    candidates sort_by_tip insert_by_tip frame gas_of pending_entry remove_included
    decode_and_recover effective_gas_tip queue_of HashMap.or_default HashMap.get HashMap.insert
    HashMap.remove HashMap.contains_key BTreeMap.get BTreeMap.insert BTreeMap.remove
    BTreeMap.contains_key BTreeMap.first BTreeMap.last_key Words.wrapping_add Words.saturating_sub
    Words.saturating_mul min_tip Bytes.to_le_bytes
gapped_facts = (refl, refl, refl, refl, refl, refl, refl)

submit_tx-second_example :
    ((submit_tx gapped (raw 1 202)).0 ≡ ok second.tx_hash)
    × (held (queue_of (submit_tx gapped (raw 1 202)).1.inner.senders 1) 1
        ≡ entry_of gapped.config second ∷ first ∷ [])
unfolding decode_and_recover
submit_tx-second_example =
    submit_tx-second gapped (raw 1 202) second first refl (Reach-IsPool pool_config gapped-Reach)
      (omega arith) gapped_facts.0 (omega (arith, gapped_facts.6)) gapped_facts.1 gapped_facts.2
      (omega (arith, gapped_facts.3, ap (λ c. c.max_pending_per_sender) gapped_facts.5))
      gapped_facts.4
