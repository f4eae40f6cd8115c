-- ===== src/Tests/CallRuns.antt =====
-- `eth_call` of crates/execution/src/executor.rs at a call of the staking precompile, with an
-- interpreter that hands such a call on.
use nbnet.Prelude.{ℕ, ◌≡◌, refl, list_beq, some, none, List, [], ok, arith, pair_eq}
use nbnet.Std.HashMap
use nbnet.Std.Words.{saturating_add}
use nbnet.Std.Bytes.{from_be_bytes}
use nbnet.Precompile.Staking.{delegate, get_stake}
use nbnet.Precompile.Provider.{
  new, run, run_staking, run_delegate, settle, finish, charge, extract_input, slice, staking_addr,
  sel_delegate,
}
use nbnet.Execution.External.{Interpreter, success, Output}
use nbnet.Execution.Executor.{eth_call}
use nbnet.Execution.CallEffects.{staking_call, Effect, CallsDirectly, eth_call-delegate}
use nbnet.Tests.World.{mini_vsdb, mini_revm, mini_host, mini_vm}
use nbnet.Tests.StakingRuns.{accounts, arguments}
use nbnet.Tests.ExecutorRuns.{live}

abbrev staking_vm : Interpreter mini_vsdb mini_revm mini_host
staking_vm = record mini_vm {
  transact_one = λ chain_id block env db p. record {
    outcome = ok (success 1000 [] (Output.call []));
    db = db;
    precompiles = (run p accounts (staking_call env.caller env.input 1000)).1.0;
  };
}

abbrev input : List ℕ
input = arguments sel_delegate

abbrev direct : CallsDirectly staking_vm
direct = record {
  call_of = λ chain_id block env db p. some (accounts, 1000);
  transact_one-staking = λ chain_id block env db p k. refl;
}

-- Account 1 delegates 7 to validator 2 without a signature.
raised :
    get_stake (eth_call ⦃vm = staking_vm⦄ live 1 (some staking_addr) input 0 none).1.staking 1 2 ≡ 7
unfolding eth_call run run_staking charge extract_input run_delegate settle finish delegate
    get_stake new slice from_be_bytes HashMap.or_default HashMap.get HashMap.insert list_beq
    saturating_add
raised = refl

eth_call-delegate_example :
    Effect
      (some (accounts, 1000))
      1
      input
      live.staking
      (eth_call ⦃vm = staking_vm⦄ live 1 (some staking_addr) input 0 none).1.staking
      1
      2
eth_call-delegate_example =
    eth_call-delegate ⦃vm = staking_vm⦄ direct live 1 0 none input 1 2 refl (omega arith)
