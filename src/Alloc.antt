-- ===== src/Alloc.antt =====
-- src/fs.c: the superblock, and the reservation of inodes and blocks through the cached bitmaps.
pub mod Pool
pub mod Flush
pub mod Blocks
pub mod Inodes
use cdnw_sh.Base.{
  ℕ, ◌+◌, ◌-◌, ◌*◌, ltb, ◌≡◌, ◌==◌, true, if◌then◌else◌, Bytes, IsBytes, load, store,
}
use cdnw_sh.Params.{
  block_size, bd_size_blocks, inode_count, blockid_super, blockid_block_bitmap,
  blockid_inode_bitmap,
}
use cdnw_sh.Sys.{Sys, M, pure, gets, modify, defined, ◌>>=◌, ◌>>◌}
use cdnw_sh.Bitmap.{set_bitmap, clear_bitmap, find_free_bit}
use cdnw_sh.Bitmap.Count.{used}
use cdnw_sh.Blockdev.{blk_write}

-- superblock of src/fs.c: the offsets of its members behind boot_record[1024].
abbrev pub inode_count_at : ℕ
inode_count_at = 1024

abbrev pub block_count_at : ℕ
block_count_at = 1028

abbrev pub free_inode_count_at : ℕ
free_inode_count_at = 1032

abbrev pub free_block_count_at : ℕ
free_block_count_at = 1036

abbrev pub first_data_block_at : ℕ
first_data_block_at = 1040

abbrev pub magic_at : ℕ
magic_at = 1044

abbrev pub state_at : ℕ
state_at = 1046

abbrev pub free_inode_count : Sys → ℕ
free_inode_count s = load 4 s.superblk_cache free_inode_count_at

abbrev pub free_block_count : Sys → ℕ
free_block_count s = load 4 s.superblk_cache free_block_count_at

unfoldable pub flush_metadata : M (Unit {0})
flush_metadata = do
  superblk ← gets (λ s. s.superblk_cache)
  blk_write blockid_super superblk
  block_bm ← gets (λ s. s.block_bm_cache)
  blk_write blockid_block_bitmap block_bm
  inode_bm ← gets (λ s. s.inode_bm_cache)
  blk_write blockid_inode_bitmap inode_bm
  pure tt

-- super->free_inode_count = n. The store cuts n to 32 bits.
set_free_inodes : ℕ → Sys → Sys
set_free_inodes n s = record s { superblk_cache = store 4 s.superblk_cache free_inode_count_at n }

set_free_blocks : ℕ → Sys → Sys
set_free_blocks n s = record s { superblk_cache = store 4 s.superblk_cache free_block_count_at n }

unfoldable pub reserve_inode : M ℕ
unfolding set_free_inodes
reserve_inode = do
  count ← gets free_inode_count
  if count == 0 then pure 0 else do
    inode_ptr ← gets (λ s. find_free_bit s.inode_bm_cache)
    modify (λ s. record s { inode_bm_cache = set_bitmap s.inode_bm_cache inode_ptr })
    modify (set_free_inodes (count - 1))
    flush_metadata
    pure inode_ptr

unfoldable pub release_inode : ℕ → M (Unit {0})
unfolding set_free_inodes
release_inode inode_ptr = do
  defined (ltb inode_ptr (8 * block_size))
  modify (λ s. record s { inode_bm_cache = clear_bitmap s.inode_bm_cache inode_ptr })
  count ← gets free_inode_count
  modify (set_free_inodes (count + 1))
  flush_metadata

unfoldable pub reserve_block : M ℕ
unfolding set_free_blocks
reserve_block = do
  count ← gets free_block_count
  if count == 0 then pure 0 else do
    blockid ← gets (λ s. find_free_bit s.block_bm_cache)
    modify (λ s. record s { block_bm_cache = set_bitmap s.block_bm_cache blockid })
    modify (set_free_blocks (count - 1))
    flush_metadata
    pure blockid

unfoldable pub release_block : ℕ → M (Unit {0})
unfolding set_free_blocks
release_block blockid = do
  defined (ltb blockid (8 * block_size))
  modify (λ s. record s { block_bm_cache = clear_bitmap s.block_bm_cache blockid })
  count ← gets free_block_count
  modify (set_free_blocks (count + 1))
  flush_metadata

-- The caches agree: the free counts of the superblock are the numbers of clear bits.
pub record IsAlloc (s : Sys) : Type 0 where
  pub on : s.attached ≡ true
  pub block_bytes : IsBytes s.block_bm_cache
  pub inode_bytes : IsBytes s.inode_bm_cache
  pub blocks : used bd_size_blocks s.block_bm_cache + free_block_count s ≡ bd_size_blocks
  pub inodes : used inode_count s.inode_bm_cache + free_inode_count s ≡ inode_count
