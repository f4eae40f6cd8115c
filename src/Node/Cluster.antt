-- ===== src/Node/Cluster.antt =====
-- crates/node/src/cluster.rs: preparing and starting the nodes of a local cluster. Free ports, the files
-- of the consensus and the processes belong to the crate hotmint_mgmt and the system. The pauses between
-- two starts are left out.
pub mod PortBounds
pub mod Written
use nbnet.Prelude.{
  ℕ, zero, suc, ◌+◌, ◌*◌, ◌%◌, Option, none, some, List, [], ◌∷◌, ◌++◌, length, get_elem?, drop,
  leb, if◌then◌else◌, and_then, ok_or, Result, ok,
}
use nbnet.Std.Words.{u32_mod}
use nbnet.Std.Text.{codes, decimal_u64}
use nbnet.Std.Files.{Fault, panicked, Files, Act, give, look, unwrap, ◌>>=◌, ◌>>◌}
use nbnet.Types.Genesis.{EvmGenesis, Serde}
use nbnet.Node.Init.{config_dir, evm_genesis_path}

-- What the source uses of hotmint_mgmt and std::process. A log is a file that a child writes to.
pub record Mgmt (f : Files) : Type 1 where
  pub find_free_ports : ℕ → f.World → List ℕ × f.World
  pub ClusterState : Type 0
  pub Validator : Type 0
  pub validators : ClusterState → List Validator
  pub id : Validator → ℕ
  pub home_dir : Validator → List ℕ
  pub init_cluster :
      (base_dir : f.FilePath)
      → (validator_count : ℕ) → (chain_id : List ℕ) → (p2p_base rpc_base : ℕ) → (bind_ip : List ℕ)
      → Act f.World (Unit {0})
  pub load_state : f.World → f.FilePath → Result ClusterState Fault
  pub kill_stale_nodes : f.FilePath → f.World → f.World
  pub loopback_addr : List ℕ
  pub format_host_port : List ℕ → ℕ → List ℕ
  pub Child : Type 0
  pub create_log : f.FilePath → Act f.World (Unit {0})
  pub spawn :
      (binary : f.FilePath) → (args : List (List ℕ)) → (log : f.FilePath) → Act f.World Child

pub record Ports : Type 0 where
  pub p2p_base : ℕ
  pub rpc_base : ℕ
  pub eth_rpc_ports : List ℕ

-- How many ports are asked for: three for each validator, in `u32`.
unfoldable pub ports_needed : ℕ → ℕ
ports_needed validator_count = (validator_count * 3) % u32_mod

-- None where an index is out of range.
unfoldable pub split_ports : ℕ → List ℕ → Option Ports
split_ports validator_count ports = and_then (get_elem? ports 0) (λ p2p_base.
    and_then (get_elem? ports validator_count) (λ rpc_base.
      if leb ((validator_count * 2) % u32_mod) (length ports)
      then some (record {
        p2p_base = p2p_base;
        rpc_base = rpc_base;
        eth_rpc_ports = drop ((validator_count * 2) % u32_mod) ports;
      })
      else none))

module _ (f : Files) where
  open f use {FilePath, World, join}

  -- The directory of a validator's node.
  unfoldable pub node_dir : FilePath → ℕ → FilePath
  node_dir base_dir i = join base_dir (codes "v" ++ decimal_u64 i)

  -- The loop over the validators that writes the document, from an index on.
  unfoldable pub write_from : FilePath → (json : List ℕ) → (i count : ℕ) → Act World (Unit {0})
  write_from base_dir json i zero = give (ok tt)
  write_from base_dir json i (suc count) =
      f.write (evm_genesis_path f (config_dir f (node_dir base_dir i))) json
      >> write_from base_dir json (suc i) count

  module _ (m : Mgmt f) where
    open m use {ClusterState, Validator, Child}

    -- From the writing of the documents on.
    unfoldable pub write_and_load :
        (base_dir : FilePath)
        → (validator_count : ℕ) → (eth_rpc_ports : List ℕ) → (json : List ℕ)
        → Act World (ClusterState × List ℕ)
    write_and_load base_dir validator_count eth_rpc_ports json = do
      write_from base_dir json 0 validator_count
      state ← look (λ w. m.load_state w base_dir)
      give (ok (state, eth_rpc_ports))

    -- From the sharing out of the ports on.
    unfoldable pub init_with :
        Serde
        → (base_dir : FilePath) → (validator_count : ℕ) → (chain_id : List ℕ) → EvmGenesis
        → (bind_ip : List ℕ) → Ports
        → Act World (ClusterState × List ℕ)
    init_with s base_dir validator_count chain_id evm_genesis bind_ip p = do
      m.init_cluster base_dir validator_count chain_id p.p2p_base p.rpc_base bind_ip
      json ← give (s.to_string_pretty evm_genesis)
      write_and_load base_dir validator_count p.eth_rpc_ports json

    unfoldable pub init_evm_cluster :
        Serde
        → (base_dir : FilePath) → (validator_count : ℕ) → (chain_id : List ℕ) → EvmGenesis
        → (bind_ip : List ℕ) → Act World (ClusterState × List ℕ)
    init_evm_cluster s base_dir validator_count chain_id evm_genesis bind_ip w =
        let (ports, w0) = m.find_free_ports (ports_needed validator_count) w in
        (do
          p ← give (ok_or (split_ports validator_count ports) panicked)
          init_with s base_dir validator_count chain_id evm_genesis bind_ip p)
          w0

    -- The command line of a node.
    unfoldable pub node_args : Validator → (port : ℕ) → List (List ℕ)
    node_args v port =
        codes "--home"
        ∷ m.home_dir v
        ∷ codes "node"
        ∷ codes "--rpc-addr"
        ∷ m.format_host_port m.loopback_addr port
        ∷ []

    unfoldable pub start_node :
        (binary base_dir : FilePath) → List ℕ → ℕ → Validator → Act World Child
    start_node binary base_dir eth_rpc_ports i v =
        let log = join base_dir (codes "v" ++ decimal_u64 (m.id v) ++ codes ".log") in
        do
          unwrap (m.create_log log)
          port ← give (ok_or (get_elem? eth_rpc_ports i) panicked)
          unwrap (m.spawn binary (node_args v port) log)

    -- The loop over the validators, from an index on.
    unfoldable pub start_from :
        (binary base_dir : FilePath) → List ℕ → ℕ → List Validator → Act World (List Child)
    start_from binary base_dir eth_rpc_ports i [] = give (ok [])
    start_from binary base_dir eth_rpc_ports i (v ∷ vs) = do
      child ← start_node binary base_dir eth_rpc_ports i v
      children ← start_from binary base_dir eth_rpc_ports (suc i) vs
      give (ok (child ∷ children))

    unfoldable pub start_evm_nodes :
        (binary : FilePath) → ClusterState → (base_dir : FilePath) → List ℕ → Act World (List Child)
    start_evm_nodes binary state base_dir eth_rpc_ports w =
        start_from binary base_dir eth_rpc_ports 0 (m.validators state)
          (m.kill_stale_nodes base_dir w)
