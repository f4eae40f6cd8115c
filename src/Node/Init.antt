-- ===== src/Node/Init.antt =====
-- crates/node/src/main.rs: the home directory of a node, `nb init`, and the genesis document that a
-- node loads. Preparing the rest of the directory belongs to the crate hotmint.
use nbnet.Prelude.{
  ℕ, ◌≡◌, some, none, refl, sym, ap, ◌∙◌, true, Option, List, unwrap_or, if◌then◌else◌, Result, ok,
  err, Bool-cases, Result-cases, inl, inr,
}
use nbnet.Std.Text.{codes}
use nbnet.Std.Files.{Fault, Files, Act, context}
use nbnet.Types.Genesis
use nbnet.Types.Genesis.{EvmGenesis, Serde}
use nbnet.Node.Genesis.{default_dev_genesis}

-- How the program ends.
pub data Exit : Type 0 where
  returned : Exit
  exited : ℕ → Exit
  aborted : Exit

module _ (f : Files) where
  open f use {FilePath, World, join}

  -- From the option `--home` and the variable `HOME`.
  unfoldable pub home_dir : (home var_home : Option (List ℕ)) → FilePath
  home_dir none var_home = join (f.path (unwrap_or var_home (codes "."))) (codes ".nbnet")
  home_dir (some home) var_home = f.path home

  unfoldable pub config_dir : FilePath → FilePath
  config_dir home = join home (codes "config")

  unfoldable pub evm_genesis_path : FilePath → FilePath
  evm_genesis_path config_dir = join config_dir (codes "evm-genesis.json")

  -- The document that a node runs with.
  unfoldable pub load_evm_genesis : Serde → World → FilePath → Result EvmGenesis Fault
  load_evm_genesis s w config_dir =
      let path = evm_genesis_path config_dir in
      if f.exists w path
      then context (codes "failed to load evm-genesis.json") (Genesis.load f s w path)
      else ok default_dev_genesis

-- Every error of the command is fatal: the process ends with a code, or by a panic of `unwrap`.
abbrev pub ending : {W : Type 0} → Result (Unit {0}) Fault × W → Exit × W
ending (ok _, w) = (returned, w)
ending (err e, w) = (aborted, w)

module _ (f : Files) where
  open f use {FilePath, World}

  -- The default document, where there is none.
  unfoldable pub write_default : Serde → FilePath → World → Exit × World
  write_default s path w =
      if f.exists w path then (returned, w) else elim (s.to_string_pretty default_dev_genesis) [
        | ok json ↦ ending (f.write path json w)
        | err e ↦ (aborted, w)
      ]

  abbrev pub prepared : Serde → FilePath → Result (Unit {0}) Fault × World → Exit × World
  prepared s path (err e, w) = (exited 1, w)
  prepared s path (ok _, w) = write_default s path w

  -- `Command::Init`
  unfoldable pub init :
      Serde → (init_node_dir : FilePath → Act World (Unit {0})) → FilePath → World → Exit × World
  init s init_node_dir home w =
      prepared s (evm_genesis_path f (config_dir f home)) (init_node_dir home w)

  returned-ne : aborted ≡ returned → ⊥
  returned-ne e = cc

  pub load_evm_genesis-read :
      (s : Serde) (dir : FilePath) (w : World) (json : List ℕ) (g : EvmGenesis)
      → f.read_to_string w (evm_genesis_path f dir) ≡ ok json
      → s.from_str json ≡ ok g
      → load_evm_genesis f s w dir ≡ ok g
  unfolding load_evm_genesis Genesis.load
  load_evm_genesis-read s dir w json g back trip =
      rw (f.exists-read (evm_genesis_path f dir) json w back, back, trip) refl

  -- What `init` needs of the path of the document between two worlds.
  abbrev pub SamePath : FilePath → World → World → Type 0
  SamePath path w w' =
      (f.exists w' path ≡ f.exists w path) × (f.read_to_string w' path ≡ f.read_to_string w path)

  written :
      (s : Serde) (dir : FilePath) (w w' : World) (json : List ℕ)
      → s.from_str json ≡ ok default_dev_genesis
      → ending (f.write (evm_genesis_path f dir) json w) ≡ (returned, w')
      → load_evm_genesis f s w' dir ≡ ok default_dev_genesis
  written s dir w w' json trip e = cases (f.write path json w) refl
    where
      path : FilePath
      path = evm_genesis_path f dir

      cases :
          (r : Result (Unit {0}) Fault × World)
          → f.write path json w ≡ r
          → load_evm_genesis f s w' dir ≡ ok default_dev_genesis
      cases (err x, v) p = absurd cc
      cases (ok _, v) p =
          let same : v ≡ w' = ap (λ r. r.1) (rw p at e) in
          let back = f.read-write path json w w' (rw same at p) in
          load_evm_genesis-read s dir w' json default_dev_genesis back trip

  -- A document that was written reads as the default one; where it is there already, nothing changes.
  write_default-load :
      (s : Serde) (dir : FilePath) (w w' : World)
      → ((json : List ℕ)
          → s.to_string_pretty default_dev_genesis ≡ ok json
          → s.from_str json ≡ ok default_dev_genesis)
      → write_default s (evm_genesis_path f dir) w ≡ (returned, w')
      → (load_evm_genesis f s w' dir ≡ load_evm_genesis f s w dir)
        × (f.exists w (evm_genesis_path f dir) ≡ true → w' ≡ w)
  unfolding write_default load_evm_genesis Genesis.load
  write_default-load s dir w w' trip e = elim (Bool-cases (f.exists w (evm_genesis_path f dir))) [
    | inl there ↦
        let same : w ≡ w' = ap (λ r. r.1) (rw there at e) in (rw (sym same) refl, λ _. sym same)
    | inr missing ↦ elim (Result-cases (s.to_string_pretty default_dev_genesis)) [
      | inr (x, p) ↦ absurd (returned-ne (ap (λ r. r.0) (rw (missing, p) at e)))
      | inl (json, p) ↦ (
        written s dir w w' json (trip json p) (rw (missing, p) at e) ∙ rw missing refl,
        λ there. absurd cc,
      )
    ]
  ]

  exited-ne : exited 1 ≡ returned → ⊥
  exited-ne e = cc

  pub load-same :
      (s : Serde) (dir : FilePath) (w v : World)
      → SamePath (evm_genesis_path f dir) w v
      → load_evm_genesis f s v dir ≡ load_evm_genesis f s w dir
  unfolding load_evm_genesis Genesis.load
  load-same s dir w v same = rw (same.0, same.1) refl

  -- A node that starts after `nb init` has the same EVM genesis as one that starts without it, and
  -- a document that was there already is not touched: where the preparation of the directory leaves
  -- the document alone, and serde_json reads the default one back.
  pub load_evm_genesis-init :
      (s : Serde) (init_node_dir : FilePath → Act World (Unit {0})) (home : FilePath) (w w' : World)
      → ((v : World)
          → init_node_dir home w ≡ (ok tt, v)
          → SamePath (evm_genesis_path f (config_dir f home)) w v)
      → ((json : List ℕ)
          → s.to_string_pretty default_dev_genesis ≡ ok json
          → s.from_str json ≡ ok default_dev_genesis)
      → init s init_node_dir home w ≡ (returned, w')
      → (load_evm_genesis f s w' (config_dir f home) ≡ load_evm_genesis f s w (config_dir f home))
        × (f.exists w (evm_genesis_path f (config_dir f home)) ≡ true
            → f.read_to_string w' (evm_genesis_path f (config_dir f home))
              ≡ f.read_to_string w (evm_genesis_path f (config_dir f home)))
  unfolding init
  load_evm_genesis-init s init_node_dir home w w' keeps trip e = cases (init_node_dir home w) refl
    where
      dir : FilePath
      dir = config_dir f home

      path : FilePath
      path = evm_genesis_path f dir

      cases :
          (r : Result (Unit {0}) Fault × World)
          → init_node_dir home w ≡ r
          → (load_evm_genesis f s w' dir ≡ load_evm_genesis f s w dir)
            × (f.exists w path ≡ true → f.read_to_string w' path ≡ f.read_to_string w path)
      cases (err x, v) p = absurd (exited-ne (ap (λ r. r.0) (rw p at e)))
      cases (ok _, v) p =
          let same = keeps v p in
          let done = write_default-load s dir v w' trip (rw p at e) in
          (
            done.0 ∙ load-same s dir w v same,
            λ there. ap (λ u. f.read_to_string u path) (done.1 (same.0 ∙ there)) ∙ same.1,
          )
