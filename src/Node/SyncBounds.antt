-- ===== src/Node/SyncBounds.antt =====
-- The sync responder of crates/node/src/main.rs: how much one request is answered with, and the view
-- after a sync.
use nbnet.Prelude.{ℕ, ◌+◌, ◌≤◌, ◌<◌, ◌≡◌, some, arith}
use nbnet.Std.Words.{u64_mod, u64_max, wrapping_add, wrapping_sub}
use nbnet.Node.Sync.{Store, clamp, view_after_sync}

-- A batch that is not empty and does not pass the largest u64 ends at the requested height at the
-- latest, has at most the given number of heights, and has the first height.
pub clamp_bounds :
    (batch from_height to_height : ℕ)
    → 0 < batch
    → from_height + batch < u64_mod
    → from_height ≤ to_height
    → (clamp batch from_height to_height ≤ to_height)
      × (from_height ≤ clamp batch from_height to_height)
      × (clamp batch from_height to_height < from_height + batch)
unfolding clamp wrapping_add wrapping_sub
clamp_bounds batch from_height to_height b f l = (ground arith, ground arith, ground arith)

-- Where the sum passes the largest u64 the batch ends before it starts.
pub clamp_wraps :
    (batch from_height to_height : ℕ)
    → from_height < u64_mod
    → to_height < u64_mod
    → batch ≤ from_height
    → u64_mod < from_height + batch
    → clamp batch from_height to_height < from_height
unfolding clamp wrapping_add wrapping_sub
clamp_wraps batch from_height to_height f t b l = ground arith

-- With a stored block at the synced height, the view after the sync is behind neither the view before
-- it nor that of the block.
pub view_after_sync_bounds :
    (k : Store) (store : k.State) (height view : ℕ) (b : k.Block)
    → 0 < height
    → k.get_block_by_height store height ≡ some b
    → k.view b < u64_max
    → (view ≤ view_after_sync k store height view)
      × (k.view b ≤ view_after_sync k store height view)
unfolding view_after_sync wrapping_add
view_after_sync_bounds k store height view b pos e small =
    rw (e, view_after_sync) (ground arith, ground arith)
