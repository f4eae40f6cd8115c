-- ===== src/Node/RunBounds.antt =====
-- `run_node` of crates/node/src/main.rs: what a node runs with, and that the nodes of a cluster run with
-- the same genesis.
use nbnet.Prelude.{
  ℕ, ◌<◌, ◌≡◌, sym, ap, subst, ◌∙◌, Bool, true, false, Option, none, some, List, unwrap_or, ok_or,
  Result, ok, err, Result-cases, inl, inr, arith,
}
use nbnet.Std.Text.{codes}
use nbnet.Std.Files.{Fault, panicked, Files, failed, give, look, context, >>=-ok}
use nbnet.Types.Genesis.{EvmGenesis, Serde}
use nbnet.State.External.{Vsdb, Revm}
use nbnet.Rpc.Message.{EvmRpcState}
use nbnet.Node.Init.{config_dir, load_evm_genesis, evm_genesis_path, SamePath, load-same}
use nbnet.Node.Validator.{Identity}
use nbnet.Node.Start.{
  Consensus, ConsensusState, EngineState, start_executor, start_rpc_state, restore,
}
use nbnet.Node.Cluster.{Mgmt, node_dir, init_evm_cluster}
use nbnet.Node.Cluster.Written.{init_evm_cluster-load}
use nbnet.Node.Documents.{Hotmint, Loaded, load_files, identify_node}
use nbnet.Node.Opened.{ok_injective, err≢ok, storage, open_network-restore}
use nbnet.Node.Run.{
  Running, fresh_state, rpc_service, open_network, start_services, run_identified, run_loaded,
  load_genesis_and_run, run_node,
}

context-ok :
    {A : Type 0} (text : List ℕ) (x : Result A Fault) (a : A) → context text x ≡ ok a → x ≡ ok a
context-ok text (ok b) a e = e
context-ok text (err (failed texts)) a e = absurd cc
context-ok text (err panicked) a e = absurd cc

module _ {E : Type 0} ⦃v : Vsdb⦄ ⦃r : Revm⦄ {f : Files} {c : Consensus} (hm : Hotmint f c) where
  -- Whether there is a server, where it listens, and which state it has.
  abbrev pub IsServed :
      Bool → List ℕ → EvmGenesis → Option (hm.SocketAddr × EvmRpcState E v r) → Type 0
  IsServed false eth_rpc_addr genesis rpc = rpc ≡ none
  IsServed true eth_rpc_addr genesis rpc =
      (addr : hm.SocketAddr) × (hm.parse_socket_addr eth_rpc_addr ≡ ok addr)
      × (rpc ≡ some (addr, start_rpc_state genesis))

  rpc_service-IsServed :
      (serve : Bool) (eth_rpc_addr : List ℕ) (genesis : EvmGenesis)
      (rpc : Option (hm.SocketAddr × EvmRpcState E v r))
      → rpc_service hm serve eth_rpc_addr genesis ≡ ok rpc
      → IsServed serve eth_rpc_addr genesis rpc
  unfolding rpc_service
  rpc_service-IsServed false eth_rpc_addr genesis rpc e = ground arith
  rpc_service-IsServed true eth_rpc_addr genesis rpc e =
      elim (Result-cases
        (context (codes "invalid RPC address") (hm.parse_socket_addr eth_rpc_addr))) [
          | inl (addr, p) ↦
              (addr, context-ok _ _ addr p, ok_injective (sym (rw (p, rpc_service) at e)))
          | inr (x, p) ↦ absurd (err≢ok (rw (p, rpc_service) at e))
        ]

  start_services-ok :
      (addr : List ℕ) (l : Loaded hm) (g : EvmGenesis) (i : Identity)
      (cn : (ConsensusState c × EngineState c) × hm.Network) (w w' : f.World)
      (running : Running E v r hm)
      → start_services hm addr l g i cn w ≡ (ok running, w')
      → (running.identity ≡ i)
        × (running.evm_genesis ≡ g)
        × (running.executor ≡ start_executor g)
        × IsServed l.node_config.serve_rpc addr g running.rpc
        × (running.serves_sync ≡ l.node_config.serve_sync)
        × (running.consensus ≡ cn.0)
  unfolding start_services
  start_services-ok addr l g i (consensus, network) w w' running e =
      let made : Option (hm.SocketAddr × EvmRpcState E v r) → Running E v r hm = λ rpc. record {
        identity = i;
        signing_key = l.signing_key;
        consensus = consensus;
        network = network;
        evm_genesis = g;
        executor = start_executor g;
        rpc = rpc;
        serves_sync = l.node_config.serve_sync;
      } in
      let (rpc, w1, p, k) =
        >>=-ok (give (rpc_service hm l.node_config.serve_rpc addr g)) (λ rpc. give (ok (made rpc)))
          w w' running e in
      let same : made rpc ≡ running = ok_injective (ap (λ x. x.0) k) in
      (
        ap (λ x. x.identity) (sym same),
        ap (λ x. x.evm_genesis) (sym same),
        ap (λ x. x.executor) (sym same),
        subst (IsServed l.node_config.serve_rpc addr g) (ap (λ x. x.rpc) same)
            (rpc_service-IsServed l.node_config.serve_rpc addr g rpc (ap (λ x. x.0) p)),
        ap (λ x. x.serves_sync) (sym same),
        ap (λ x. x.consensus) (sym same),
      )

  -- What a node runs with, from the documents of the world in which it was started.
  pub record StartsFrom (s : Serde) (home : f.FilePath) (rpc_addr_override : Option (List ℕ))
      (w : f.World) (running : Running E v r hm) : Type 0 where
    pub documents : Loaded hm
    pub loaded : load_files hm w (config_dir f home) ≡ ok documents
    pub identified : identify_node hm documents ≡ some running.identity
    pub genesis : load_evm_genesis f s w (config_dir f home) ≡ ok running.evm_genesis
    pub executor : running.executor ≡ start_executor running.evm_genesis
    pub served :
        IsServed documents.node_config.serve_rpc
          (unwrap_or rpc_addr_override (codes "127.0.0.1:8545"))
          running.evm_genesis
          running.rpc
    pub syncs : running.serves_sync ≡ documents.node_config.serve_sync
    pub resumes :
        running.consensus
        ≡ restore (hm.persisted (storage hm home w)) (fresh_state hm documents running.identity)

  -- A node that starts runs with what its documents say: it has the identity that its key has in
  -- the genesis, the consensus state of the genesis with what is persisted in its storage restored
  -- over it, the executor of the loaded EVM genesis, a sync responder if that is configured, and a
  -- JSON-RPC server exactly if that is, on the address of the command line or 127.0.0.1:8545.
  pub run_node-StartsFrom :
      (s : Serde) (home : f.FilePath) (rpc_addr_override p2p_laddr_override : Option (List ℕ))
      (w w' : f.World) (running : Running E v r hm)
      → run_node hm s home rpc_addr_override p2p_laddr_override w ≡ (ok running, w')
      → StartsFrom s home rpc_addr_override w running
  unfolding run_node load_genesis_and_run run_loaded run_identified start_services
  run_node-StartsFrom s home ro po w w' running e =
      let dir = config_dir f home in
      let (l, w1, e1, k1) =
        >>=-ok (look (λ u. load_files hm u dir)) (load_genesis_and_run hm s home ro po) w w' running
          e in
      let (g, w2, e2, k2) =
        >>=-ok (look (λ u. load_evm_genesis f s u dir)) (run_loaded hm home ro po l) w1 w' running
          k1 in
      let (i, w3, e3, k3) =
        >>=-ok (give (ok_or (identify_node hm l) panicked)) (run_identified hm home ro po l g) w2 w'
          running k2 in
      let (cn, w4, e4, k4) =
        >>=-ok (open_network hm home (unwrap_or po l.node_config.laddr) l i)
          (start_services hm (unwrap_or ro (codes "127.0.0.1:8545")) l g i) w3 w' running k3 in
      let (same_i, same_g, x, served, syncs, resumed) =
        start_services-ok (unwrap_or ro (codes "127.0.0.1:8545")) l g i cn w4 w' running k4 in
      record {
        documents = l;
        loaded = ap (λ x. x.0) e1;
        identified = found (identify_node hm l) i (ap (λ x. x.0) e3) ∙ ap some (sym same_i);
        genesis =
            ap (λ u. load_evm_genesis f s u dir) (ap (λ x. x.1) e1)
            ∙ ap (λ x. x.0) e2
            ∙ ap ok (sym same_g);
        executor = x ∙ ap start_executor (sym same_g);
        served =
            subst
              (λ g.
                IsServed l.node_config.serve_rpc (unwrap_or ro (codes "127.0.0.1:8545")) g
                  running.rpc)
              (sym same_g) served;
        syncs = syncs;
        resumes =
            resumed
            ∙ open_network-restore hm home (unwrap_or po l.node_config.laddr) l i cn w3 w4 e4
            ∙ ap (λ u. restore (hm.persisted (storage hm home u)) (fresh_state hm l i))
                (sym (ap (λ x. x.1) e1 ∙ ap (λ x. x.1) e2 ∙ ap (λ x. x.1) e3))
            ∙ ap (λ j. restore (hm.persisted (storage hm home w)) (fresh_state hm l j))
                (sym same_i);
      }
    where
      found : (o : Option Identity) (i : Identity) → ok_or o panicked ≡ ok i → o ≡ some i
      found none i q = absurd cc
      found (some j) i q = cc

  -- Each node of a cluster that was made with a genesis starts, if it starts, with the executor of
  -- that genesis: where serde_json reads the document back, and nothing has touched the file in
  -- between.
  pub init_evm_cluster-run_node :
      (m : Mgmt f) (s : Serde) (base_dir : f.FilePath) (n : ℕ) (chain_id : List ℕ)
      (genesis : EvmGenesis) (bind_ip : List ℕ) (made : m.ClusterState × List ℕ)
      (w w1 w2 w3 : f.World) (j : ℕ) (rpc_addr_override p2p_laddr_override : Option (List ℕ))
      (running : Running E v r hm)
      → ((json : List ℕ) → s.to_string_pretty genesis ≡ ok json → s.from_str json ≡ ok genesis)
      → init_evm_cluster f m s base_dir n chain_id genesis bind_ip w ≡ (ok made, w1)
      → j < n
      → SamePath f (evm_genesis_path f (config_dir f (node_dir f base_dir j))) w1 w2
      → run_node hm s (node_dir f base_dir j) rpc_addr_override p2p_laddr_override w2
        ≡ (ok running, w3)
      → running.executor ≡ start_executor genesis
  init_evm_cluster-run_node m s base_dir n chain_id genesis bind_ip made w w1 w2 w3 j ro po running
        trip init h kept run =
      let home = node_dir f base_dir j in
      let started = run_node-StartsFrom s home ro po w2 w3 running run in
      let written =
        init_evm_cluster-load f m s base_dir n chain_id genesis bind_ip made w w1 j trip init h in
      let same : running.evm_genesis ≡ genesis =
        ok_injective
          (sym started.genesis ∙ load-same f s (config_dir f home) w1 w2 kept ∙ written) in
      started.executor ∙ ap start_executor same
