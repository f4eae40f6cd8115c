-- ===== src/Node/Run.antt =====
-- `run_node` of crates/node/src/main.rs up to its services: the documents, the node's identity and
-- consensus state, the network, the executor and the server. The tasks that it spawns are in Gossip, Sync
-- and Start.
use nbnet.Prelude.{
  ℕ, Bool, true, false, Option, none, some, List, [], ◌∷◌, unwrap_or, ok_or, Result, ok, err,
}
use nbnet.Std.Text.{codes}
use nbnet.Std.Files.{Fault, panicked, Files, Act, give, look, context, explain, ◌>>=◌, ◌>>◌}
use nbnet.Types.Genesis.{EvmGenesis, Serde}
use nbnet.State.External.{Vsdb, Revm}
use nbnet.Execution.Executor.{EvmExecutor}
use nbnet.Rpc.Message.{EvmRpcState}
use nbnet.Node.Init.{config_dir, load_evm_genesis}
use nbnet.Node.Validator.{Identity}
use nbnet.Node.Documents.{Hotmint, Loaded, load_files, identify_node}
use nbnet.Node.Start.{
  Consensus, ConsensusState, EngineState, restore, start_executor, start_rpc_state,
}

module _ {f : Files} {c : Consensus} (hm : Hotmint f c) where
  open f use {World, FilePath, join}

  unfoldable pub open_storage : (home : FilePath) → Act World (Unit {0})
  open_storage home =
      let data_dir = join home (codes "data") in
      explain (codes "create data dir") (hm.create_dir_all data_dir)
      >> explain (codes "configure vsdb") (hm.vsdb_configure data_dir)

  -- The peers of the configuration.
  unfoldable pub peers_of : Loaded hm → Result hm.Peers Fault
  peers_of l = elim l.node_config.persistent_peers [
    | [] ↦ ok hm.no_peers
    | p ∷ ps ↦ hm.parse_persistent_peers (p ∷ ps) l.genesis
  ]

  -- The network, once the consensus state is there.
  unfoldable pub connect :
      (home : FilePath)
      → (laddr : List ℕ) → Loaded hm
      → ConsensusState c × EngineState c
      → Act World ((ConsensusState c × EngineState c) × hm.Network)
  connect home laddr l consensus = do
    peers ← give (peers_of l)
    listen_addr ← give (context (codes "invalid p2p listen address") (hm.parse_multiaddr laddr))
    network ←
        hm.create_network listen_addr (join (join home (codes "data")) (codes "peer_book.json"))
          l.node_config peers l.litep2p_keypair l.validator_set consensus.0
    give (ok (consensus, network))

  -- The state of the genesis for this chain and validator.
  abbrev pub fresh_state : Loaded hm → Identity → ConsensusState c
  fresh_state l identity = hm.with_chain_id identity.our_vid l.validator_set l.genesis.chain_id

  -- From the storage to the network.
  unfoldable pub open_network :
      (home : FilePath)
      → (laddr : List ℕ) → Loaded hm
      → Identity
      → Act World ((ConsensusState c × EngineState c) × hm.Network)
  open_network home laddr l identity =
      open_storage home
      >> (look (λ w. ok (restore (hm.persisted w) (fresh_state l identity)))
          >>= connect home laddr l)

module _ (E : Type 0) (v : Vsdb) (r : Revm) {f : Files} {c : Consensus} (hm : Hotmint f c) where
  open hm use {SigningKey, SocketAddr, Network}

  -- What the node has when its tasks are spawned.
  pub record Running : Type 0 where
    pub identity : Identity
    pub signing_key : SigningKey
    pub consensus : ConsensusState c × EngineState c
    pub network : Network
    pub evm_genesis : EvmGenesis
    pub executor : EvmExecutor E v r
    pub rpc : Option (SocketAddr × EvmRpcState E v r)
    pub serves_sync : Bool

module _ {E : Type 0} ⦃v : Vsdb⦄ ⦃r : Revm⦄ {f : Files} {c : Consensus} (hm : Hotmint f c) where
  open f use {World, FilePath}
  open hm use {SocketAddr}

  -- The JSON-RPC server, if it is wanted: its address and its state.
  unfoldable pub rpc_service :
      Bool
      → (eth_rpc_addr : List ℕ) → EvmGenesis
      → Result (Option (SocketAddr × EvmRpcState E v r)) Fault
  rpc_service false eth_rpc_addr evm_genesis = ok none
  rpc_service true eth_rpc_addr evm_genesis =
      elim (context (codes "invalid RPC address") (hm.parse_socket_addr eth_rpc_addr)) [
        | ok addr ↦ ok (some (addr, start_rpc_state evm_genesis))
        | err e ↦ err e
      ]

  -- The executor and its server.
  unfoldable pub start_services :
      (eth_rpc_addr : List ℕ)
      → Loaded hm
      → EvmGenesis
      → Identity
      → (ConsensusState c × EngineState c) × hm.Network
      → Act World (Running E v r hm)
  start_services eth_rpc_addr l evm_genesis identity (consensus, network) = do
    rpc ← give (rpc_service l.node_config.serve_rpc eth_rpc_addr evm_genesis)
    give (
        ok (record {
          identity = identity;
          signing_key = l.signing_key;
          consensus = consensus;
          network = network;
          evm_genesis = evm_genesis;
          executor = start_executor evm_genesis;
          rpc = rpc;
          serves_sync = l.node_config.serve_sync;
        }))

  -- With what the files say, and the overrides of the command line.
  unfoldable pub run_identified :
      (home : FilePath)
      → (rpc_addr_override p2p_laddr_override : Option (List ℕ)) → Loaded hm
      → EvmGenesis
      → Identity
      → Act World (Running E v r hm)
  run_identified home rpc_addr_override p2p_laddr_override l evm_genesis identity =
      open_network hm home (unwrap_or p2p_laddr_override l.node_config.laddr) l identity
      >>= start_services (unwrap_or rpc_addr_override (codes "127.0.0.1:8545")) l evm_genesis
          identity

  unfoldable pub run_loaded :
      (home : FilePath)
      → (rpc_addr_override p2p_laddr_override : Option (List ℕ)) → Loaded hm
      → EvmGenesis
      → Act World (Running E v r hm)
  run_loaded home rpc_addr_override p2p_laddr_override l evm_genesis =
      give (ok_or (identify_node hm l) panicked)
      >>= run_identified home rpc_addr_override p2p_laddr_override l evm_genesis

  unfoldable pub load_genesis_and_run :
      Serde
      → (home : FilePath) → (rpc_addr_override p2p_laddr_override : Option (List ℕ)) → Loaded hm
      → Act World (Running E v r hm)
  load_genesis_and_run s home rpc_addr_override p2p_laddr_override l =
      look (λ w. load_evm_genesis f s w (config_dir f home))
      >>= run_loaded home rpc_addr_override p2p_laddr_override l

  unfoldable pub run_node :
      Serde
      → (home : FilePath) → (rpc_addr_override p2p_laddr_override : Option (List ℕ))
      → Act World (Running E v r hm)
  run_node s home rpc_addr_override p2p_laddr_override =
      look (λ w. load_files hm w (config_dir f home))
      >>= load_genesis_and_run s home rpc_addr_override p2p_laddr_override
