-- ===== src/Node/BenchRun.antt =====
-- `run_bench` of crates/node/src/bench.rs: the benchmark from the making of the cluster to its clean-up.
-- A waiting loop sees the answers of its polls before the deadline; the times and the texts that are
-- printed from them are left out.
use nbnet.Prelude.{
  ℕ, ◌+◌, ◌≡◌, Bool, false, Bool-cases, inl, inr, All, Option, none, some, List, [], ◌∷◌, ◌++◌,
  ok_or, if◌then◌else◌, ok,
}
use nbnet.Std.Text.{codes, decimal_u64}
use nbnet.Std.Files.{panicked, Files, Act, give, unwrap, ◌>>=◌}
use nbnet.Types.Genesis.{Serde}
use nbnet.Node.Genesis.{repeat_byte, bench_evm_genesis}
use nbnet.Node.Cluster.{Mgmt, init_evm_cluster, start_evm_nodes}
use nbnet.Node.Bench.{TxEip1559, wait_for_blocks, presign_txs, Report, report, not_confirmed}

abbrev pub num_validators : ℕ
num_validators = 4

-- What the benchmark uses of the system besides: its processes, the compiler, a key, and the answers of
-- the server over a connection.
pub record Machine (f : Files) (m : Mgmt f) : Type 0 where
  pub remove_dir_all : f.FilePath → f.World → f.World
  pub build_binary : Act f.World f.FilePath
  pub kill : m.Child → f.World → f.World
  pub wait : m.Child → f.World → f.World
  pub block_polls : (rpc_url : List ℕ) → f.World → List (Option ℕ) × f.World
  pub nonce_polls : (rpc_url : List ℕ) → (sender : ℕ) → f.World → List (Option ℕ) × f.World
  pub rpc_block_number : (rpc_url : List ℕ) → f.World → Option ℕ × f.World
  pub rpc_send_raw_tx : (rpc_url : List ℕ) → (raw_tx : List ℕ) → f.World → Bool × f.World

module _ {f : Files} {m : Mgmt f} (machine : Machine f m) where
  open f use {World, FilePath}
  open m use {Child}

  -- The clean-up after a cluster that does not produce blocks.
  unfoldable pub kill_all : List Child → World → World
  kill_all [] w = w
  kill_all (child ∷ children) w = kill_all children (machine.kill child w)

  -- The clean-up at the end.
  unfoldable pub kill_and_wait : List Child → World → World
  kill_and_wait [] w = w
  kill_and_wait (child ∷ children) w =
      kill_and_wait children (machine.wait child (machine.kill child w))

  -- How many of the transactions count as submitted.
  unfoldable pub submit_from : (rpc_url : List ℕ) → List (List ℕ) → World → ℕ × World
  submit_from rpc_url [] w = (0, w)
  submit_from rpc_url (raw_tx ∷ raw_txs) w =
      let (sent, w') = machine.rpc_send_raw_tx rpc_url raw_tx w in
      let (submitted, w'') = submit_from rpc_url raw_txs w' in
      ((if sent then 1 else 0) + submitted, w'')

  -- From the submission to the report.
  unfoldable pub measure :
      (rpc_url : List ℕ) → (sender : ℕ) → List (List ℕ) → World → (Report × Option ℕ) × World
  measure rpc_url sender raw_txs w =
      let (start_block, w1) = machine.rpc_block_number rpc_url w in
      let (submitted, w2) = submit_from rpc_url raw_txs w1 in
      let (polls, w3) = machine.nonce_polls rpc_url sender w2 in
      let (end_block, w4) = machine.rpc_block_number rpc_url w3 in
      let r = report submitted polls start_block end_block in
      ((r, not_confirmed r.confirmed submitted), w4)

  -- With the nodes running: nothing is measured where no block comes in time.
  unfoldable pub bench_running :
      (base_dir : FilePath)
      → (rpc_url : List ℕ) → (sender : ℕ) → List (List ℕ)
      → List Child
      → World
      → Option (Report × Option ℕ) × World
  bench_running base_dir rpc_url sender raw_txs children w =
      let (polls, w1) = machine.block_polls rpc_url w in
      if wait_for_blocks 1 polls
      then (let (r, w2) = measure rpc_url sender raw_txs w1 in
          (some r, machine.remove_dir_all base_dir (kill_and_wait children w2)))
      else (none, machine.remove_dir_all base_dir (kill_all children w1))

  -- The address of the first node's server.
  unfoldable pub rpc_url : List ℕ → Option (List ℕ)
  rpc_url [] = none
  rpc_url (port ∷ ports) = some (codes "http://127.0.0.1:" ++ decimal_u64 port)

  unfoldable pub run_bench :
      Serde
      → (base_dir : FilePath) → (sender : ℕ) → (sign : TxEip1559 → List ℕ) → (txs_to_submit : ℕ)
      → Act World (Option (Report × Option ℕ))
  run_bench s base_dir sender sign txs_to_submit w =
      let recipient = repeat_byte 0x42 in
      (do
        made ← unwrap (
            init_evm_cluster f m s base_dir num_validators (codes "evm-bench")
              (bench_evm_genesis sender recipient) (codes "127.0.0.1"))
        binary ← unwrap machine.build_binary
        children ← start_evm_nodes f m binary made.0 base_dir made.1
        url ← give (ok_or (rpc_url made.1) panicked)
        (λ w1.
            let (r, w2) =
              bench_running base_dir url sender (presign_txs sign recipient 1337 txs_to_submit)
                children w1 in
            (ok r, w2)))
        (machine.remove_dir_all base_dir w)

  -- Which processes run: killing ends one, and none of the clean-up's steps starts one again.
  pub record Processes : Type 0 where
    pub alive : World → Child → Bool
    pub kill-ends : (c : Child) (w : World) → alive (machine.kill c w) c ≡ false
    pub kill-keeps :
        (c d : Child) (w : World) → alive w c ≡ false → alive (machine.kill d w) c ≡ false
    pub wait-keeps :
        (c d : Child) (w : World) → alive w c ≡ false → alive (machine.wait d w) c ≡ false
    pub remove-keeps :
        (c : Child) (p : FilePath) (w : World)
        → alive w c ≡ false
        → alive (machine.remove_dir_all p w) c ≡ false

  module _ (ps : Processes) where
    kill_all-keeps :
        (c : Child) (children : List Child) (w : World)
        → ps.alive w c ≡ false
        → ps.alive (kill_all children w) c ≡ false
    unfolding kill_all
    kill_all-keeps c [] w h = h
    kill_all-keeps c (d ∷ ds) w h = kill_all-keeps c ds _ (ps.kill-keeps c d w h)

    kill_and_wait-keeps :
        (c : Child) (children : List Child) (w : World)
        → ps.alive w c ≡ false
        → ps.alive (kill_and_wait children w) c ≡ false
    unfolding kill_and_wait
    kill_and_wait-keeps c [] w h = h
    kill_and_wait-keeps c (d ∷ ds) w h =
        kill_and_wait-keeps c ds _ (ps.wait-keeps c d _ (ps.kill-keeps c d w h))

    kill_all-ends :
        (children : List Child) (w : World)
        → All (λ c. ps.alive (kill_all children w) c ≡ false) children
    unfolding kill_all
    kill_all-ends [] w = tt
    kill_all-ends (c ∷ cs) w =
        (kill_all-keeps c cs _ (ps.kill-ends c w), kill_all-ends cs (machine.kill c w))

    kill_and_wait-ends :
        (children : List Child) (w : World)
        → All (λ c. ps.alive (kill_and_wait children w) c ≡ false) children
    unfolding kill_and_wait
    kill_and_wait-ends [] w = tt
    kill_and_wait-ends (c ∷ cs) w = (
      kill_and_wait-keeps c cs _ (ps.wait-keeps c c _ (ps.kill-ends c w)),
      kill_and_wait-ends cs (machine.wait c (machine.kill c w)),
    )

    removed :
        (p : FilePath) (w : World) (cs : List Child)
        → All (λ c. ps.alive w c ≡ false) cs
        → All (λ c. ps.alive (machine.remove_dir_all p w) c ≡ false) cs
    removed p w [] h = tt
    removed p w (c ∷ cs) h = (ps.remove-keeps c p w h.0, removed p w cs h.1)

    -- Whether or not the cluster produces blocks in time, no node is left running.
    pub bench_running-ends :
        (base_dir : FilePath) (url : List ℕ) (sender : ℕ) (raw_txs : List (List ℕ))
        (children : List Child) (w : World)
        → All
            (λ c. ps.alive (bench_running base_dir url sender raw_txs children w).1 c ≡ false)
            children
    unfolding bench_running
    bench_running-ends base_dir url sender raw_txs children w =
        let (polls, w1) = machine.block_polls url w in
        elim (Bool-cases (wait_for_blocks 1 polls)) [
          | inl e ↦
              rw (e, bench_running)
                (removed base_dir _ children
                  (kill_and_wait-ends children (measure url sender raw_txs w1).1))
          | inr e ↦ rw (e, bench_running) (removed base_dir _ children (kill_all-ends children w1))
        ]
