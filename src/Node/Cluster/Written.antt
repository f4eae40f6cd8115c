-- ===== src/Node/Cluster/Written.antt =====
-- crates/node/src/cluster.rs: every node of the cluster finds the genesis that the cluster was made
-- with.
use nbnet.Prelude.{
  ℕ, zero, suc, ◌+◌, ◌≤◌, ◌<◌, ◌≡◌, ap, subst, ◌∙◌, List, ok, ok_or, arith, inl, inr, Bool-cases,
  ◌==◌, ==_iff,
}
use nbnet.Std.Files.{panicked, Files, Act, give, look, ◌>>=◌, >>=-ok}
use nbnet.Types.Genesis.{EvmGenesis, Serde}
use nbnet.Node.Init.{config_dir, evm_genesis_path, load_evm_genesis, load_evm_genesis-read}
use nbnet.Node.Cluster.{
  Mgmt, node_dir, write_from, ports_needed, split_ports, write_and_load, init_with,
  init_evm_cluster,
}

module _ (f : Files) (base_dir : f.FilePath) (json : List ℕ) where
  abbrev file : ℕ → f.FilePath
  file i = evm_genesis_path f (config_dir f (node_dir f base_dir i))

  -- What holds the document keeps it.
  write_from-keeps :
      (i count : ℕ) (q : f.FilePath) (w w' : f.World)
      → write_from f base_dir json i count w ≡ (ok tt, w')
      → f.read_to_string w q ≡ ok json
      → f.read_to_string w' q ≡ ok json
  unfolding write_from
  write_from-keeps i zero q w w' e h =
      subst (λ v. f.read_to_string v q ≡ ok json) (ap (λ r. r.1) e) h
  write_from-keeps i (suc count) q w w' e h =
      let (a, v, first, rest) =
        >>=-ok (f.write (file i) json) (λ _. write_from f base_dir json (suc i) count) w w' tt e in
      write_from-keeps (suc i) count q v w' rest
        (elim (f.read-write_else (file i) q json w v first) [ inl p ↦ p | inr p ↦ p ∙ h ])

  write_from-read :
      (i count j : ℕ) (w w' : f.World)
      → write_from f base_dir json i count w ≡ (ok tt, w')
      → i ≤ j
      → j < i + count
      → f.read_to_string w' (file j) ≡ ok json
  unfolding write_from
  write_from-read i zero j w w' e h k = absurd (omega arith)
  write_from-read i (suc count) j w w' e h k =
      let (a, v, first, rest) =
        >>=-ok (f.write (file i) json) (λ _. write_from f base_dir json (suc i) count) w w' tt e in
      elim (Bool-cases (i == j)) [
        | inl p ↦
            let same = (==_iff i j).0 p in
            subst (λ n. f.read_to_string w' (file n) ≡ ok json) same
              (write_from-keeps (suc i) count (file i) v w' rest
                (f.read-write (file i) json w v first))
        | inr p ↦ write_from-read (suc i) count j v w' rest (ground arith) (omega arith)
      ]

module _ (f : Files) (m : Mgmt f) (s : Serde) (base_dir : f.FilePath) (n : ℕ) where
  write_and_load-read :
      (json : List ℕ) (ports : List ℕ) (r : m.ClusterState × List ℕ) (w w' : f.World) (j : ℕ)
      → write_and_load f m base_dir n ports json w ≡ (ok r, w')
      → j < n
      → f.read_to_string w' (file f base_dir json j) ≡ ok json
  unfolding write_and_load
  write_and_load-read json ports r w w' j e h =
      let final : m.ClusterState → Act f.World (m.ClusterState × List ℕ) =
        λ state. give (ok (state, ports)) in
      let (_, v, wrote, e1) =
        >>=-ok (write_from f base_dir json 0 n) (λ _. look (λ u. m.load_state u base_dir) >>= final)
          w w' r e in
      let (state, v', loaded, e2) = >>=-ok (look (λ u. m.load_state u base_dir)) final v w' r e1 in
      subst (λ u. f.read_to_string u (file f base_dir json j) ≡ ok json)
        (ap (λ x. x.1) loaded ∙ ap (λ x. x.1) e2)
        (write_from-read f base_dir json 0 n j w v wrote (omega arith) (omega arith))

  -- The genesis of a cluster that was made is the one that each of its nodes loads, where the document
  -- can be read back.
  pub init_evm_cluster-load :
      (chain_id : List ℕ) (genesis : EvmGenesis) (bind_ip : List ℕ) (r : m.ClusterState × List ℕ)
      (w w' : f.World) (j : ℕ)
      → ((json : List ℕ) → s.to_string_pretty genesis ≡ ok json → s.from_str json ≡ ok genesis)
      → init_evm_cluster f m s base_dir n chain_id genesis bind_ip w ≡ (ok r, w')
      → j < n
      → load_evm_genesis f s w' (config_dir f (node_dir f base_dir j)) ≡ ok genesis
  unfolding init_evm_cluster init_with
  init_evm_cluster-load chain_id genesis bind_ip r w w' j trip e h =
      let (found, w0) = m.find_free_ports (ports_needed n) w in
      let (p, w1, _, e1) =
        >>=-ok (give (ok_or (split_ports n found) panicked))
          (init_with f m s base_dir n chain_id genesis bind_ip) w0 w' r e in
      let (_, w2, _, e2) =
        >>=-ok (m.init_cluster base_dir n chain_id p.p2p_base p.rpc_base bind_ip)
          (λ _. give (s.to_string_pretty genesis) >>= write_and_load f m base_dir n p.eth_rpc_ports)
          w1 w' r e1 in
      let (json, w3, printed, e3) =
        >>=-ok (give (s.to_string_pretty genesis)) (write_and_load f m base_dir n p.eth_rpc_ports)
          w2 w' r e2 in
      let back = write_and_load-read json p.eth_rpc_ports r w3 w' j e3 h in
      load_evm_genesis-read f s (config_dir f (node_dir f base_dir j)) w' json genesis back
        (trip json (ap (λ x. x.0) printed))
