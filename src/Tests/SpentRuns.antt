-- ===== src/Tests/SpentRuns.antt =====
-- A run of crates/execution/src/executor.rs with an interpreter that keeps nonces.
use Prim.Native.String.{String}
use nbnet.Prelude.{
  ℕ, zero, suc, ◌+◌, ◌≤◌, ◌<◌, ◌≡◌, refl, List, [], All, some, none, arith, nat_eq, list_eq, min,
  ok, err, Result, ◌==◌, if◌then◌else◌, get_elem?, ==_iff, Bool-cases, inl, inr,
}
use nbnet.Std.Words.{u64_max, saturating_add}
use nbnet.Std.HashMap
use nbnet.Types.Tx.{VerifiedTx, decode_and_recover}
use nbnet.State.External.{DbAccount, AccountInfo, default_account}
use nbnet.State.Accounts.{address_mod}
use nbnet.State.Persist.{CacheFits, Distinct}
use nbnet.State.Evm
use nbnet.State.Evm.{CacheDb}
use nbnet.State.Db
use nbnet.Precompile.Provider.{HotmintPrecompiles}
use nbnet.Execution.External.{BlockEnv, TxEnv, Ran, Interpreter, success, Output, ExecutionResult}
use nbnet.Execution.Block.{
  run_block, decode_all, execute_txs, round, execute_tx, start, with_parent_hash, tx_env, block_env,
  receipt,
}
use nbnet.Execution.Executor.{EvmExecutor, execute_block, on_commit}
use nbnet.Execution.Spent.{nonce_in, NonceRules, Gone, on_commit-Gone}
use nbnet.TxPool.Reach.{Reach-IsPool}
use nbnet.Tests.World.{Envelope, mini_tx, mini_vsdb, mini_revm, mini_host, mini_vm}
use nbnet.Tests.PoolRuns.{visit, two, path_two, pool_config}
use nbnet.Tests.ContentsRuns.{covered}
use nbnet.Tests.StateRuns.{warm}
use nbnet.Tests.ExecutorRuns.{block, context}

-- The sender's account with the next nonce.
abbrev next : CacheDb mini_vsdb mini_revm → ℕ → CacheDb mini_vsdb mini_revm
next db a =
    let entry : DbAccount (List ℕ) = HashMap.or_default (default_account mini_revm) db.accounts a in
    let info : AccountInfo (List ℕ) = record (entry.info) { nonce = nonce_in db a + 1 } in
    record db { accounts = HashMap.insert db.accounts a (record entry { info = info }) }

-- Only a transaction with the sender's nonce has a result.
abbrev run_one :
    ℕ
    → BlockEnv
    → TxEnv
    → CacheDb mini_vsdb mini_revm
    → HotmintPrecompiles mini_host
    → Ran mini_vsdb mini_revm mini_host
run_one chain_id blk env db pre =
    if env.nonce == nonce_in db env.caller
    then record {
      outcome = ok (success (min 21_000 env.gas_limit) [] (Output.call []));
      db = next db env.caller;
      precompiles = pre;
    }
    else record { outcome = err "nonce"; db = db; precompiles = pre }

abbrev careful : Interpreter mini_vsdb mini_revm mini_host
careful = record mini_vm { transact_commit = run_one; transact_one = run_one }

next_nonce :
    (db : CacheDb mini_vsdb mini_revm) (a b : ℕ)
    → nonce_in (next db a) b ≡ (if a == b then nonce_in db a + 1 else nonce_in db b)
next_nonce db a b =
    rw (HashMap.get-insert db.accounts a b _, nonce_in)
      (elim (Bool-cases (a == b)) [ inl e ↦ rw e refl | inr e ↦ rw e refl ])

careful_rules : NonceRules careful
careful_rules = record {
  rises = λ chain_id blk env db pre a. elim (Bool-cases (env.nonce == nonce_in db env.caller)) [
    | inl e ↦ rw e (rw (next_nonce db env.caller a) (up db env.caller a))
    | inr e ↦ rw e (omega arith)
  ];
  spends = λ chain_id blk env db pre result q.
      elim (Bool-cases (env.nonce == nonce_in db env.caller)) [
        | inl e ↦ rw e (rw (next_nonce db env.caller env.caller) (ground (arith, e)))
        | inr e ↦ absurd (refused (rw e at q))
      ];
}
  where
    up :
        (db : CacheDb mini_vsdb mini_revm) (a b : ℕ)
        → nonce_in db b ≤ (if a == b then nonce_in db a + 1 else nonce_in db b)
    up db a b = elim (Bool-cases (a == b)) [
      | inl e ↦ rw (e, (==_iff a b).0 e) (omega arith)
      | inr e ↦ rw e (omega arith)
    ]

    refused :
        {x : ExecutionResult} → ◌≡◌ {A = Result ExecutionResult String} (err "nonce") (ok x) → ⊥
    refused q = cc

-- The two transactions of a pool, with the accounts in the cache.
abbrev busy : EvmExecutor Envelope mini_vsdb mini_revm
busy = record {
  state = warm;
  txpool = two;
  receipts = [];
  block_height = 0;
  staking = record { delegations = [] };
}

abbrev final : Evm.EvmState mini_vsdb mini_revm
final = (run_block Envelope ⦃vm = careful⦄ busy.state busy.staking block context).state

final-CacheFits : CacheFits final.db.accounts
unfolding run_block execute_txs round execute_tx decode_all start with_parent_hash tx_env block_env
    receipt decode_and_recover Evm.record_block_hash Evm.get_nonce Evm.cached HashMap.get
    HashMap.insert HashMap.or_default saturating_add Db.get_nonce Db.stored Db.insert_block_hash
final-CacheFits = (
  (
    omega arith,
    record {
      info_fits = record { balance_fits = omega arith; hash_fits = omega arith };
      slots_fit = ((omega arith, omega arith), tt);
      slots_distinct = (refl, tt);
    },
  ),
  (
    (
      omega arith,
      record {
        info_fits = record { balance_fits = omega arith; hash_fits = omega arith };
        slots_fit = tt;
        slots_distinct = tt;
      },
    ),
    tt,
  ),
)

final-Distinct : Distinct final.db.accounts
unfolding run_block execute_txs round execute_tx decode_all start with_parent_hash tx_env block_env
    receipt decode_and_recover Evm.record_block_hash Evm.get_nonce Evm.cached HashMap.get
    HashMap.insert HashMap.or_default saturating_add Db.get_nonce Db.stored Db.insert_block_hash
final-Distinct = (refl, (refl, tt))

senders :
    (i : ℕ) (t : VerifiedTx Envelope)
    → get_elem? (decode_all block) i ≡ some t
    → t.sender < address_mod
unfolding decode_all decode_and_recover
senders zero t e = ground (arith, e)
senders (suc zero) t e = ground (arith, e)
senders (suc (suc i)) t e = absurd (none≢some e)
  where
    none≢some : none ≡ some t → ⊥
    none≢some p = cc

low :
    (a : ℕ) → Evm.get_nonce ((execute_block ⦃vm = careful⦄ busy block context).1).state a ≤ u64_max
unfolding run_block execute_txs round execute_tx decode_all start with_parent_hash tx_env block_env
    receipt decode_and_recover Evm.record_block_hash Evm.get_nonce Evm.cached HashMap.get
    HashMap.insert HashMap.or_default saturating_add Db.get_nonce Db.stored Db.insert_block_hash
    execute_block Evm.state_root Evm.flush_cache_to_vsdb Evm.flush_accounts Evm.insert_slots
    Db.insert_account Db.insert_storage Db.from_info
low a = ground arith

on_commit-Gone_example :
    All
      (Gone Envelope
        (decode_all block)
        (on_commit visit (execute_block ⦃vm = careful⦄ busy block context).1 context).txpool)
      (run_block Envelope ⦃vm = careful⦄ busy.state busy.staking block context).block_receipts
on_commit-Gone_example =
    on_commit-Gone Envelope ⦃vm = careful⦄ visit busy block context careful_rules
      (Reach-IsPool pool_config path_two) (covered two.inner.senders) low senders final-CacheFits
      final-Distinct
