-- ===== src/Node/Documents.antt =====
-- The documents that `run_node` of crates/node/src/main.rs loads, in their order. Documents, keys and
-- addresses belong to hotmint, to litep2p and to the standard library.
use nbnet.Prelude.{ℕ, Bool, Option, List, Result, ok, ◌>>=◌}
use nbnet.Std.Text.{codes}
use nbnet.Std.Files.{Fault, Files, Act, context}
use nbnet.Node.Validator.{GenesisValidator, NodeMode, Identity, identify}
use nbnet.Node.Start.{Consensus, ConsensusState, Persisted}

-- The fields of hotmint's `NodeConfig` that the source reads here.
pub record NodeConfig : Type 0 where
  pub laddr : List ℕ
  pub persistent_peers : List (List ℕ)
  pub mode : NodeMode
  pub serve_rpc : Bool
  pub serve_sync : Bool

-- The fields of hotmint's `GenesisDoc`.
pub record GenesisDoc : Type 0 where
  pub chain_id : List ℕ
  pub validators : List GenesisValidator

-- What the source uses of hotmint, vsdb and litep2p.
pub record Hotmint (f : Files) (c : Consensus) : Type 1 where
  pub PrivValidatorKey : Type 0
  pub SigningKey : Type 0
  pub NodeKey : Type 0
  pub Keypair : Type 0
  pub Peers : Type 0
  pub Multiaddr : Type 0
  pub SocketAddr : Type 0
  pub Network : Type 0
  pub load_config : f.World → f.FilePath → Result NodeConfig Fault
  pub load_priv_key : f.World → f.FilePath → Result PrivValidatorKey Fault
  pub public_key : PrivValidatorKey → List ℕ
  pub to_signing_key : PrivValidatorKey → Result SigningKey Fault
  pub load_node_key : f.World → f.FilePath → Result NodeKey Fault
  pub to_litep2p_keypair : NodeKey → Result Keypair Fault
  pub load_genesis : f.World → f.FilePath → Result GenesisDoc Fault
  pub to_validator_set : GenesisDoc → Result c.ValidatorSet Fault
  pub validator_ids : c.ValidatorSet → List ℕ
  pub create_dir_all : f.FilePath → Act f.World (Unit {0})
  pub vsdb_configure : f.FilePath → Act f.World (Unit {0})
  pub persisted : f.World → Persisted c
  pub with_chain_id : ℕ → c.ValidatorSet → List ℕ → ConsensusState c
  pub no_peers : Peers
  pub parse_persistent_peers : List (List ℕ) → GenesisDoc → Result Peers Fault
  pub parse_multiaddr : List ℕ → Result Multiaddr Fault
  pub parse_socket_addr : List ℕ → Result SocketAddr Fault
  -- The configuration gives the network its peer exchange and its relaying, the state the chain's hash.
  pub create_network :
      Multiaddr
      → (peer_book : f.FilePath) → NodeConfig
      → Peers
      → Keypair
      → c.ValidatorSet
      → ConsensusState c
      → Act f.World Network

module _ {f : Files} {c : Consensus} (hm : Hotmint f c) where
  open f use {World, FilePath, join}
  open hm use {SigningKey, Keypair}

  -- The variables that the loading of hotmint's documents leaves.
  pub record Loaded : Type 0 where
    pub node_config : NodeConfig
    pub our_pk_hex : List ℕ
    pub signing_key : SigningKey
    pub litep2p_keypair : Keypair
    pub genesis : GenesisDoc
    pub validator_set : c.ValidatorSet

  unfoldable pub load_files : World → FilePath → Result Loaded Fault
  load_files w dir = do
    node_config ←
        context (codes "failed to load config.toml")
          (hm.load_config w (join dir (codes "config.toml")))
    priv_key ←
        context (codes "failed to load priv_validator_key.json")
          (hm.load_priv_key w (join dir (codes "priv_validator_key.json")))
    signing_key ← hm.to_signing_key priv_key
    node_key ←
        context (codes "failed to load node_key.json")
          (hm.load_node_key w (join dir (codes "node_key.json")))
    keypair ← hm.to_litep2p_keypair node_key
    genesis ←
        context (codes "failed to load genesis.json")
          (hm.load_genesis w (join dir (codes "genesis.json")))
    validator_set ← hm.to_validator_set genesis
    ok (record {
      node_config = node_config;
      our_pk_hex = hm.public_key priv_key;
      signing_key = signing_key;
      litep2p_keypair = keypair;
      genesis = genesis;
      validator_set = validator_set;
    })

  unfoldable pub identify_node : Loaded → Option Identity
  identify_node l =
      identify l.genesis.validators (hm.validator_ids l.validator_set) l.our_pk_hex
        l.node_config.mode
