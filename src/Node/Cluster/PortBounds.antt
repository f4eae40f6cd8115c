-- ===== src/Node/Cluster/PortBounds.antt =====
-- crates/node/src/cluster.rs: the ports are enough for the nodes.
use nbnet.Prelude.{
  ℕ, zero, suc, ◌+◌, ◌*◌, ◌%◌, ◌≤◌, ◌<◌, ◌≡◌, refl, ap, ◌++◌, some, List, [], ◌∷◌, length, true,
  get_elem?, drop, leb, arith, ok,
}
use nbnet.Std.Words.{u32_mod}
use nbnet.Std.Text.{codes, decimal_u64}
use nbnet.Std.Files.{Files}
use nbnet.Node.Cluster.{
  Mgmt, Ports, ports_needed, split_ports, start_node, start_from, start_evm_nodes, node_args,
}

length-drop : (n : ℕ) (xs : List ℕ) → n ≤ length xs → n + length (drop n xs) ≡ length xs
length-drop zero xs h = omega arith
length-drop (suc n) [] h = absurd (omega arith)
length-drop (suc n) (x ∷ xs) h = omega (arith, length-drop n xs (omega arith))

get_elem?_in : (xs : List ℕ) (i : ℕ) → i < length xs → (x : ℕ) × (get_elem? xs i ≡ some x)
get_elem?_in [] i h = absurd (omega arith)
get_elem?_in (x ∷ xs) zero h = (x, refl)
get_elem?_in (x ∷ xs) (suc i) h = get_elem?_in xs i (omega arith)

-- With three ports for each validator, where there is one at least and three times their number is a
-- u32, the split does not fail, and there is exactly one port for each.
split_ports-length :
    (n : ℕ) (ports : List ℕ)
    → 0 < n
    → n * 3 < u32_mod
    → length ports ≡ ports_needed n
    → (p : Ports) × (split_ports n ports ≡ some p) × (length p.eth_rpc_ports ≡ n)
unfolding split_ports ports_needed
split_ports-length n ports pos small e =
    let total : length ports ≡ n * 3 = omega (arith, e) in
    let (a, ea) = get_elem?_in ports 0 (omega (arith, total)) in
    let (b, eb) = get_elem?_in ports n (omega (arith, total)) in
    let twice : (n * 2) % u32_mod ≡ n * 2 = omega (arith, small) in
    let room : leb (n * 2) (length ports) ≡ true = ground (arith, total) in
    (
      record { p2p_base = a; rpc_base = b; eth_rpc_ports = drop (n * 2) ports },
      rw (ea, eb, twice, room) refl,
      omega (arith, length-drop (n * 2) ports (omega (arith, total))),
    )

module _ (f : Files) (m : Mgmt f) (binary base_dir : f.FilePath) where
  start_from-ok :
      ((log : f.FilePath) (w : f.World) → (v : f.World) × (m.create_log log w ≡ (ok tt, v)))
      → ((args : List (List ℕ)) (log : f.FilePath) (w : f.World)
          → (c : m.Child) × (v : f.World) × (m.spawn binary args log w ≡ (ok c, v)))
      → (ports : List ℕ) (i : ℕ) (vs : List m.Validator) (w : f.World)
      → i + length vs ≤ length ports
      → (children : List m.Child) × (w' : f.World) × (start_from f m binary base_dir ports i vs w
          ≡ (ok children, w'))
        × (length children ≡ length vs)
  unfolding start_from start_node
  start_from-ok logs spawns ports i [] w h = ([], w, refl, refl)
  start_from-ok logs spawns ports i (v ∷ vs) w h =
      let log = f.join base_dir (codes "v" ++ decimal_u64 (m.id v) ++ codes ".log") in
      let (port, q) = get_elem?_in ports i (omega arith) in
      let (w1, made) = logs log w in
      let (child, w2, started) = spawns (node_args f m v port) log w1 in
      let (children, w', e, n) = start_from-ok logs spawns ports (suc i) vs w2 (omega arith) in
      (child ∷ children, w', rw (made, q, started, e) refl, ap suc n)

  -- Where making a log and starting a process succeed, a cluster whose ports were shared out starts
  -- without a panic, with one process for each validator.
  pub start_evm_nodes-split_ports :
      ((log : f.FilePath) (w : f.World) → (v : f.World) × (m.create_log log w ≡ (ok tt, v)))
      → ((args : List (List ℕ)) (log : f.FilePath) (w : f.World)
          → (c : m.Child) × (v : f.World) × (m.spawn binary args log w ≡ (ok c, v)))
      → (state : m.ClusterState) (ports : List ℕ) (w : f.World) → 0 < length (m.validators state)
      → length (m.validators state) * 3 < u32_mod
      → length ports ≡ ports_needed (length (m.validators state))
      → (p : Ports) × (children : List m.Child) × (w' : f.World) × (split_ports
            (length (m.validators state))
            ports
          ≡ some p)
        × (start_evm_nodes f m binary state base_dir p.eth_rpc_ports w ≡ (ok children, w'))
        × (length children ≡ length (m.validators state))
  unfolding start_evm_nodes
  start_evm_nodes-split_ports logs spawns state ports w pos small e =
      let vs = m.validators state in
      let (p, q, n) = split_ports-length (length vs) ports pos small e in
      let (children, w', s, k) =
        start_from-ok logs spawns p.eth_rpc_ports 0 vs (m.kill_stale_nodes base_dir w)
          (omega (arith, n)) in
      (p, children, w', q, s, k)
