-- ===== src/Alloc/Flush.antt =====
-- flush_metadata writes the three caches to the first three blocks.
use cdnw_sh.Base.{ℕ, Bytes, ◌<◌, ◌≡◌, true, arith}
use cdnw_sh.Blockdev.{write_block}
use cdnw_sh.Params.{blockid_super, blockid_block_bitmap, blockid_inode_bitmap}
use cdnw_sh.Sys.{Sys, ok}
use cdnw_sh.Blockdev.Laws.{with_block, blk_write-ok}
use cdnw_sh.Alloc.{IsAlloc, flush_metadata}

unfoldable pub flushed : Sys → Sys
flushed s =
    with_block
      (with_block (with_block s blockid_super s.superblk_cache) blockid_block_bitmap
        s.block_bm_cache)
      blockid_inode_bitmap s.inode_bm_cache

module _ (s : Sys) (on : s.attached ≡ true) where
  pub flush-ok : flush_metadata s ≡ ok tt (flushed s)
  unfolding flush_metadata flushed
  flush-ok =
      let s1 = with_block s blockid_super s.superblk_cache in
      let s2 = with_block s1 blockid_block_bitmap s.block_bm_cache in
      ground (
        arith,
        blk_write-ok s on blockid_super s.superblk_cache (omega arith),
        blk_write-ok s1 on blockid_block_bitmap s.block_bm_cache (omega arith),
        blk_write-ok s2 on blockid_inode_bitmap s.inode_bm_cache (omega arith),
      )

-- No other block is touched.
pub flushed-disk : (s : Sys) (l : ℕ) → 2 < l → (flushed s).disk l ≡ s.disk l
unfolding flushed write_block
flushed-disk s l high = ground arith

-- The disk and the clock have no part in the invariant.
pub disk-IsAlloc :
    (s : Sys) (disk : ℕ → Bytes) (calls : ℕ)
    → IsAlloc s
    → IsAlloc (record s { disk = disk; calls = calls })
disk-IsAlloc s disk calls h = record {
  on = h.on;
  block_bytes = h.block_bytes;
  inode_bytes = h.inode_bytes;
  blocks = h.blocks;
  inodes = h.inodes;
}
