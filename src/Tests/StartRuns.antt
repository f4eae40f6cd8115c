-- ===== src/Tests/StartRuns.antt =====
-- Runs of crates/node/src/main.rs and crates/node/src/cluster.rs in a file system of texts, for which a
-- path is a text and writing never fails.
use nbnet.Prelude.{
  ℕ, ◌≡◌, ◌⊎◌, refl, ap, subst, true, false, none, some, List, [], ◌∷◌, ◌++◌, length, replicate,
  arith, ok, err, ok_or, inl, inr, Bool-cases, list_beq, list_eq, beq_refl, Result,
}
use nbnet.Std.HashMap
use nbnet.Std.HashMap.{HashMap}
use nbnet.Std.Text.{codes, decimal_u64, decimal_digits}
use nbnet.Std.Files.{Fault, failed, Files, Act}
use nbnet.Types.Genesis.{EvmGenesis, Serde, load}
use nbnet.Node.Genesis.{default_dev_genesis}
use nbnet.Node.Init.{
  init, load_evm_genesis, load_evm_genesis-init, config_dir, evm_genesis_path, write_default,
  SamePath,
}
use nbnet.Node.Cluster.{
  Mgmt, Ports, ports_needed, split_ports, start_evm_nodes, init_evm_cluster, node_dir, init_with,
  write_and_load, write_from,
}
use nbnet.Node.Cluster.PortBounds.{start_evm_nodes-split_ports}
use nbnet.Node.Validator.{validator, identify, find_validator}
use nbnet.Node.Documents.{NodeConfig, Hotmint, load_files, identify_node}
use nbnet.Node.Run.{
  Running, run_node, load_genesis_and_run, run_loaded, run_identified, open_network, open_storage,
  peers_of, connect, start_services, rpc_service,
}
use nbnet.Node.Start.{restore, start_executor, start_rpc_state}
use nbnet.Tests.World.{Envelope, mini_tx, mini_vsdb, mini_revm, mini_host, mini_vm}
use nbnet.Tests.JsonWorld.{mini_json, mini_codec}
use nbnet.Node.RunBounds.{StartsFrom, run_node-StartsFrom, init_evm_cluster-run_node}
use nbnet.Tests.NodeRuns.{numbers, first_state, persisted, validators}

abbrev Disk : Type 0
Disk = HashMap (List ℕ) (List ℕ)

abbrev read : Disk → List ℕ → Result (List ℕ) Fault
read w p = ok_or (HashMap.get w p) (failed [])

abbrev write : List ℕ → List ℕ → Disk → Result (Unit {0}) Fault × Disk
write p text w = (ok tt, HashMap.insert w p text)

read_back : (p text : List ℕ) (w w' : Disk) → write p text w ≡ (ok tt, w') → read w' p ≡ ok text
read_back p text w w' e =
    subst (λ v. read v p ≡ ok text) (ap (λ r. r.1) e)
      (rw (HashMap.get-insert w p p text, beq_refl p) refl)

read_else :
    (p q text : List ℕ) (w w' : Disk)
    → write p text w ≡ (ok tt, w')
    → (read w' q ≡ ok text) ⊎ (read w' q ≡ read w q)
read_else p q text w w' e =
    subst (λ v. (read v q ≡ ok text) ⊎ (read v q ≡ read w q)) (ap (λ r. r.1) e)
      (rw (HashMap.get-insert w p q text) (elim (Bool-cases (list_beq p q)) [
        | inl same ↦ rw same (inl refl)
        | inr other ↦ rw other (inr refl)
      ]))

there : (p text : List ℕ) (w : Disk) → read w p ≡ ok text → HashMap.contains_key w p ≡ true
unfolding HashMap.contains_key
there p text w e = ground arith

abbrev disk : Files
disk = record {
  FilePath = List ℕ;
  path = λ p. p;
  join = λ p name. p ++ 47 ∷ name;
  World = Disk;
  exists = HashMap.contains_key;
  read_to_string = read;
  write = write;
  read-write = read_back;
  read-write_else = read_else;
  exists-read = there;
}

-- A document is written as its chain, which stands for a document of its own.
abbrev other_genesis : EvmGenesis
other_genesis = record default_dev_genesis { chain_id = 7 }

abbrev parse : List ℕ → Result EvmGenesis Fault
parse (k ∷ []) = ok (record default_dev_genesis { chain_id = k })
parse text = err (failed [])

abbrev by_chain : Serde
by_chain = record { to_string_pretty = λ g. ok (g.chain_id ∷ []); from_str = parse }

default_trip :
    (json : List ℕ)
    → by_chain.to_string_pretty default_dev_genesis ≡ ok json
    → by_chain.from_str json ≡ ok default_dev_genesis
unfolding default_dev_genesis
default_trip json e = ground (arith, e)

other_trip :
    (json : List ℕ)
    → by_chain.to_string_pretty other_genesis ≡ ok json
    → by_chain.from_str json ≡ ok other_genesis
unfolding default_dev_genesis
other_trip json e = ground (arith, e)

-- A directory is prepared by nothing else than a key.
abbrev home : List ℕ
home = 104 ∷ []

abbrev dir : List ℕ
dir = config_dir disk home

abbrev path : List ℕ
path = evm_genesis_path disk dir

abbrev prepare : List ℕ → Act Disk (Unit {0})
prepare home w = write (107 ∷ home) (1 ∷ []) w

load_evm_genesis-init_example :
    (load_evm_genesis disk by_chain (init disk by_chain prepare home []).1 dir
      ≡ load_evm_genesis disk by_chain [] dir)
    × (HashMap.contains_key {K = List ℕ} {V = List ℕ} [] path ≡ true
        → read (init disk by_chain prepare home []).1 path ≡ read [] path)
unfolding init write_default config_dir evm_genesis_path HashMap.get HashMap.contains_key
    HashMap.insert list_beq
load_evm_genesis-init_example =
    load_evm_genesis-init disk by_chain prepare home [] (init disk by_chain prepare home []).1
      (λ v e. subst (SamePath disk path []) (ap (λ r. r.1) e) (refl, refl)) default_trip refl

abbrev mgmt : Mgmt disk
mgmt = record {
  find_free_ports = λ n w. (replicate n 9000, w);
  ClusterState = Unit;
  Validator = ℕ;
  validators = λ s. 0 ∷ 1 ∷ [];
  id = λ v. v;
  home_dir = λ v. v ∷ [];
  init_cluster = λ base_dir n chain_id p2p_base rpc_base bind_ip w. (ok tt, w);
  load_state = λ w p. ok tt;
  kill_stale_nodes = λ p w. w;
  loopback_addr = [];
  format_host_port = λ ip port. port ∷ ip;
  Child = List (List ℕ);
  create_log = λ p w. (ok tt, w);
  spawn = λ binary args log w. (ok args, w);
}

start_evm_nodes-split_ports_example :
    (p : Ports) × (children : List (List (List ℕ))) × (w : Disk) × (split_ports 2 (replicate 6 9000)
      ≡ some p)
    × (start_evm_nodes disk mgmt [] tt [] p.eth_rpc_ports [] ≡ (ok children, w))
    × (length children ≡ 2)
unfolding ports_needed
start_evm_nodes-split_ports_example =
    start_evm_nodes-split_ports disk mgmt [] [] (λ log w. (w, refl)) (λ args log w. (args, w, refl))
      tt (replicate 6 9000) [] (omega arith) (omega arith) refl

abbrev config : NodeConfig
config = record {
  laddr = [];
  persistent_peers = [];
  mode = validator;
  serve_rpc = true;
  serve_sync = false;
}

abbrev hotmint : Hotmint disk numbers
hotmint = record {
  PrivValidatorKey = Unit;
  SigningKey = Unit;
  NodeKey = Unit;
  Keypair = Unit;
  Peers = Unit;
  Multiaddr = List ℕ;
  SocketAddr = List ℕ;
  Network = Unit;
  load_config = λ w p. ok config;
  load_priv_key = λ w p. ok tt;
  public_key = λ k. 20 ∷ [];
  to_signing_key = λ k. ok tt;
  load_node_key = λ w p. ok tt;
  to_litep2p_keypair = λ k. ok tt;
  load_genesis = λ w p. ok (record { chain_id = []; validators = validators });
  to_validator_set = λ g. ok 0;
  validator_ids = λ s. 0 ∷ 1 ∷ [];
  create_dir_all = λ p w. (ok tt, w);
  vsdb_configure = λ p w. (ok tt, w);
  persisted = λ w. persisted;
  with_chain_id = λ vid s id. first_state;
  no_peers = tt;
  parse_persistent_peers = λ ps g. ok tt;
  parse_multiaddr = λ t. ok t;
  parse_socket_addr = λ t. ok t;
  create_network = λ a b n p k s c w. (ok tt, w);
}

abbrev running : Running Envelope mini_vsdb mini_revm hotmint
running = record {
  identity = record { our_vid = 1; is_fullnode = false };
  signing_key = tt;
  consensus = restore persisted first_state;
  network = tt;
  evm_genesis = other_genesis;
  executor = start_executor other_genesis;
  rpc = some (codes "127.0.0.1:8545", start_rpc_state other_genesis);
  serves_sync = false;
}

-- The files once a cluster of two nodes is made.
abbrev made : Disk
made = (init_evm_cluster disk mgmt by_chain [] 2 [] other_genesis [] []).1

makes :
    init_evm_cluster disk mgmt by_chain [] 2 [] other_genesis [] []
    ≡ (ok (tt, 9000 ∷ 9000 ∷ []), made)
unfolding init_evm_cluster ports_needed split_ports init_with write_and_load write_from
makes = refl

runs : run_node hotmint by_chain (node_dir disk [] 1) none none made ≡ (ok running, made)
unfolding run_node load_genesis_and_run run_loaded run_identified open_network open_storage peers_of
    connect start_services load_files identify_node identify find_validator list_beq rpc_service
    load_evm_genesis load init_evm_cluster ports_needed split_ports init_with write_and_load
    write_from HashMap.get HashMap.contains_key HashMap.insert config_dir evm_genesis_path node_dir
    default_dev_genesis decimal_u64 decimal_digits
runs = refl

run_node-StartsFrom_example : StartsFrom hotmint by_chain (node_dir disk [] 1) none made running
run_node-StartsFrom_example =
    run_node-StartsFrom hotmint by_chain (node_dir disk [] 1) none none made made running runs

init_evm_cluster-run_node_example : running.executor ≡ start_executor other_genesis
init_evm_cluster-run_node_example =
    init_evm_cluster-run_node hotmint mgmt by_chain [] 2 [] other_genesis [] (tt, 9000 ∷ 9000 ∷ [])
      [] made made made 1 none none running other_trip makes (omega arith) (refl, refl) runs
