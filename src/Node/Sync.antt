-- ===== src/Node/Sync.antt =====
-- The sync responder of crates/node/src/main.rs, and the view after a sync. The block store, the
-- blocks and the snapshots belong to the consensus crates.
use nbnet.Prelude.{ℕ, Option, none, some, List, map, min, ltb, if◌then◌else◌}
use nbnet.Std.Words.{wrapping_add, wrapping_sub}

-- `BlockStore`, the snapshots of the application, and `MAX_SYNC_BATCH`.
pub record Store : Type 1 where
  pub Block : Type 0
  pub Qc : Type 0
  pub Snapshot : Type 0
  pub State : Type 0
  pub max_sync_batch : ℕ
  pub height : Block → ℕ
  pub view : Block → ℕ
  pub get_blocks_in_range : State → (from to : ℕ) → List Block
  pub get_commit_qc : State → ℕ → Option Qc
  pub get_block_by_height : State → ℕ → Option Block
  pub list_snapshots : State → List Snapshot
  pub load_snapshot_chunk : State → (height chunk_index : ℕ) → List ℕ

pub data SyncRequest : Type 0 where
  get_status : SyncRequest
  get_blocks : (from_height to_height : ℕ) → SyncRequest
  get_snapshots : SyncRequest
  get_snapshot_chunk : (height chunk_index : ℕ) → SyncRequest

pub data SyncResponse (k : Store) : Type 0 where
  status : (last_committed_height current_view epoch : ℕ) → SyncResponse k
  blocks : List (k.Block × Option k.Qc) → SyncResponse k
  snapshots : List k.Snapshot → SyncResponse k
  snapshot_chunk : (height chunk_index : ℕ) → (chunk : List ℕ) → SyncResponse k

-- What the watch channel holds.
pub record ConsensusStatus : Type 0 where
  pub last_committed_height : ℕ
  pub current_view : ℕ
  pub epoch_number : ℕ

-- The last height that is sent, in `u64`; a release build wraps.
unfoldable pub clamp : ℕ → (from_height to_height : ℕ) → ℕ
clamp batch from_height to_height = min to_height (wrapping_sub (wrapping_add from_height batch) 1)

module _ (k : Store) where
  unfoldable pub respond_sync : k.State → ConsensusStatus → SyncRequest → SyncResponse k
  respond_sync store s get_status = status s.last_committed_height s.current_view s.epoch_number
  respond_sync store s (get_blocks from_height to_height) = blocks (
      map (λ b. (b, k.get_commit_qc store (k.height b)))
        (k.get_blocks_in_range store from_height (clamp k.max_sync_batch from_height to_height)))
  respond_sync store s get_snapshots = snapshots (k.list_snapshots store)
  respond_sync store s (get_snapshot_chunk height chunk_index) =
      snapshot_chunk height chunk_index (k.load_snapshot_chunk store height chunk_index)

  -- The view in which consensus starts after a sync.
  unfoldable pub view_after_sync : k.State → (last_committed_height current_view : ℕ) → ℕ
  view_after_sync store last_committed_height current_view =
      let tip_view : ℕ = elim (k.get_block_by_height store last_committed_height) [
        | none ↦ current_view
        | some b ↦ k.view b
      ] in
      if ltb 0 last_committed_height
      then if ltb current_view tip_view then wrapping_add tip_view 1 else current_view
      else current_view
