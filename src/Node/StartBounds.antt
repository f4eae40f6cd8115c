-- ===== src/Node/StartBounds.antt =====
-- The state with which consensus starts in `run_node` of crates/node/src/main.rs.
use nbnet.Prelude.{
  ℕ, ◌≤◌, ◌<◌, ◌≡◌, refl, Bool, Bool-cases, Option-cases, inl, inr, some, List, [], ◌∷◌, unwrap_or,
  arith,
}
use nbnet.Std.Words.{u64_max, wrapping_add}
use nbnet.Node.Sync.{Store, view_after_sync}
use nbnet.Node.Start.{
  Consensus, ConsensusState, Persisted, EngineState, restore, apply_synced, start_state,
}

-- No stored block has the largest view.
abbrev pub SmallViews : (k : Store) → k.State → Type 0
SmallViews k store =
    (height : ℕ) (b : k.Block) → k.get_block_by_height store height ≡ some b → k.view b < u64_max

view_after_sync-le :
    (k : Store) (store : k.State) (height view : ℕ)
    → SmallViews k store
    → view ≤ view_after_sync k store height view
unfolding view_after_sync wrapping_add
view_after_sync-le k store height view small =
    elim (Option-cases (k.get_block_by_height store height)) [
      | inl e ↦ rw (e, view_after_sync) (ground arith)
      | inr (b, e) ↦ rw (e, view_after_sync) (ground (arith, small height b e))
    ]

module _ {c : Consensus} where
  -- The validators are those of the epoch, and the view is at least the given one.
  abbrev pub IsReady : (view : ℕ) → ConsensusState c → Type 0
  IsReady view s = (s.validator_set ≡ c.validator_set s.current_epoch) × (view ≤ s.current_view)

  restore-IsReady :
      (pcs : Persisted c) (s : ConsensusState c)
      → s.validator_set ≡ c.validator_set s.current_epoch
      → IsReady (unwrap_or pcs.current_view s.current_view) (restore pcs s).0
  unfolding restore
  restore-IsReady pcs s e = elim (Option-cases pcs.current_epoch) [
    | inl n ↦ rw n (e, omega arith)
    | inr (x, n) ↦ rw n (refl, omega arith)
  ]

  -- Whatever was persisted and however the sync with the peers goes, consensus starts with the
  -- validators of its epoch, and in a view that is not behind the persisted one: where the state of
  -- the genesis has the validators of its epoch, and no stored block has the largest view.
  pub start_state-IsReady :
      {Peer : Type 0} (k : Store) (store : k.State)
      (sync_to_tip : Peer → EngineState c → Bool × EngineState c) (connected : Bool)
      (peers : List Peer) (pcs : Persisted c) (s : ConsensusState c)
      → s.validator_set ≡ c.validator_set s.current_epoch
      → SmallViews k store
      → IsReady
          (unwrap_or pcs.current_view s.current_view)
          (start_state k store sync_to_tip connected peers pcs s)
  unfolding start_state apply_synced restore
  start_state-IsReady k store sync_to_tip connected [] pcs s e small = restore-IsReady pcs s e
  start_state-IsReady k store sync_to_tip connected (p ∷ peers) pcs s e small =
      elim (Bool-cases connected) [
        | inl n ↦ rw (n, start_state) (refl, view_after_sync-le k store _ _ small)
        | inr n ↦ rw (n, start_state) (restore-IsReady pcs s e)
      ]
