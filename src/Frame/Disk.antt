-- ===== src/Frame/Disk.antt =====
-- Device, inodes, reservations and whole files leave the descriptor table alone.
use cdnw_sh.Base.{ℕ, zero, suc, Bytes}
use cdnw_sh.Sys.{Sys, Inode, Buffer, Cache, null, dangling, live, time}
use cdnw_sh.Blockdev.{HostFile, blk_read, blk_write, blockdev_attach}
use cdnw_sh.Inode.{inode_read, inode_write}
use cdnw_sh.Alloc.{flush_metadata, reserve_inode, release_inode, reserve_block, release_block}
use cdnw_sh.FileData.{read_blocks, write_blocks, llread, llwrite}
use cdnw_sh.Grow.{
  realloc_cache, reserve_direct, reserve_indirect, grow_direct, open_indirect, grow_indirect,
  realloc_fs_blocks,
}
use cdnw_sh.Mkfs.{superblock_init, block_bitmap_init, inode_bitmap_init, write_root_dir, cnmkfs}
use cdnw_sh.Frame.{Fds, fds, Kept, keeps}

module _ {P : Fds → Type 0} where
  pub blk_read-Kept : (lba : ℕ) (buf : Bytes) (s : Sys) → P (fds s) → Kept P (blk_read lba buf s)
  unfolding blk_read
  blk_read-Kept lba buf s h = search keeps

  pub blk_write-Kept : (lba : ℕ) (buf : Bytes) (s : Sys) → P (fds s) → Kept P (blk_write lba buf s)
  unfolding blk_write
  blk_write-Kept lba buf s h = search keeps

  pub inode_read-Kept : (index : ℕ) (s : Sys) → P (fds s) → Kept P (inode_read index s)
  unfolding inode_read
  inode_read-Kept index s h = search (keeps, blk_read-Kept)

  pub inode_write-Kept :
      (index : ℕ) (i : Inode) (s : Sys) → P (fds s) → Kept P (inode_write index i s)
  unfolding inode_write
  inode_write-Kept index i s h = search (keeps, blk_read-Kept, blk_write-Kept) depth 9

  flush_metadata-Kept : (s : Sys) → P (fds s) → Kept P (flush_metadata s)
  unfolding flush_metadata
  flush_metadata-Kept s h = search (keeps, blk_write-Kept) depth 12

  pub reserve_inode-Kept : (s : Sys) → P (fds s) → Kept P (reserve_inode s)
  unfolding reserve_inode
  reserve_inode-Kept s h = search (keeps, flush_metadata-Kept) depth 9

  pub release_inode-Kept : (b : ℕ) (s : Sys) → P (fds s) → Kept P (release_inode b s)
  unfolding release_inode
  release_inode-Kept b s h = search (keeps, flush_metadata-Kept) depth 9

  pub reserve_block-Kept : (s : Sys) → P (fds s) → Kept P (reserve_block s)
  unfolding reserve_block
  reserve_block-Kept s h = search (keeps, flush_metadata-Kept) depth 9

  pub release_block-Kept : (b : ℕ) (s : Sys) → P (fds s) → Kept P (release_block b s)
  unfolding release_block
  release_block-Kept b s h = search (keeps, flush_metadata-Kept) depth 9

  read_blocks-Kept :
      (ids : ℕ → ℕ) (bound left i : ℕ) (buf : Buffer) (s : Sys)
      → P (fds s)
      → Kept P (read_blocks ids bound left i buf s)
  unfolding read_blocks
  read_blocks-Kept ids bound zero i buf s h = search keeps
  read_blocks-Kept ids bound (suc left) i buf s h =
      search (keeps, blk_read-Kept, read_blocks-Kept ids bound left) depth 9

  write_blocks-Kept :
      (ids : ℕ → ℕ) (bound left i : ℕ) (buf : Buffer) (s : Sys)
      → P (fds s)
      → Kept P (write_blocks ids bound left i buf s)
  unfolding write_blocks
  write_blocks-Kept ids bound zero i buf s h = search keeps
  write_blocks-Kept ids bound (suc left) i buf s h =
      search (keeps, blk_write-Kept, write_blocks-Kept ids bound left) depth 9

  pub llread-Kept : (i : Inode) (buf : Buffer) (s : Sys) → P (fds s) → Kept P (llread i buf s)
  unfolding llread
  llread-Kept i buf s h = search (keeps, blk_read-Kept, read_blocks-Kept) depth 9

  pub llwrite-Kept : (i : Inode) (buf : Buffer) (s : Sys) → P (fds s) → Kept P (llwrite i buf s)
  unfolding llwrite
  llwrite-Kept i buf s h = search (keeps, blk_read-Kept, write_blocks-Kept) depth 9

  pub realloc_cache-Kept :
      (c : Cache) (size blocks : ℕ) (s : Sys) → P (fds s) → Kept P (realloc_cache c size blocks s)
  unfolding realloc_cache
  realloc_cache-Kept null size blocks s h = search keeps
  realloc_cache-Kept dangling size blocks s h = search keeps
  realloc_cache-Kept (live buf) size blocks s h = search keeps

  reserve_direct-Kept :
      (left : ℕ) (i : Inode) (s : Sys) → P (fds s) → Kept P (reserve_direct left i s)
  unfolding reserve_direct
  reserve_direct-Kept zero i s h = search keeps
  reserve_direct-Kept (suc left) i s h =
      search (keeps, reserve_block-Kept, reserve_direct-Kept left)

  reserve_indirect-Kept :
      (left : ℕ) (i : Inode) (s_ind : Bytes) (s : Sys)
      → P (fds s)
      → Kept P (reserve_indirect left i s_ind s)
  unfolding reserve_indirect
  reserve_indirect-Kept zero i s_ind s h = search keeps
  reserve_indirect-Kept (suc left) i s_ind s h =
      search (keeps, reserve_block-Kept, reserve_indirect-Kept left)

  grow_direct-Kept :
      (i : Inode) (blocks : ℕ) (s : Sys) → P (fds s) → Kept P (grow_direct i blocks s)
  unfolding grow_direct
  grow_direct-Kept i blocks s h = search (keeps, reserve_direct-Kept)

  open_indirect-Kept : (i : Inode) (s : Sys) → P (fds s) → Kept P (open_indirect i s)
  unfolding open_indirect
  open_indirect-Kept i s h = search (keeps, reserve_block-Kept, blk_read-Kept) depth 9

  grow_indirect-Kept :
      (i : Inode) (blocks : ℕ) (s : Sys) → P (fds s) → Kept P (grow_indirect i blocks s)
  unfolding grow_indirect
  grow_indirect-Kept i blocks s h =
      search (keeps, open_indirect-Kept, reserve_indirect-Kept, blk_write-Kept) depth 9

  pub realloc_fs_blocks-Kept :
      (i : Inode) (blocks : ℕ) (s : Sys) → P (fds s) → Kept P (realloc_fs_blocks i blocks s)
  unfolding realloc_fs_blocks
  realloc_fs_blocks-Kept i blocks s h = search (keeps, grow_direct-Kept, grow_indirect-Kept) depth 9

  pub blockdev_attach-Kept :
      (host : HostFile) (s : Sys) → P (fds s) → Kept P (blockdev_attach host s)
  unfolding blockdev_attach
  blockdev_attach-Kept host s h = search keeps depth 12

  pub cnmkfs-Kept : (s : Sys) → P (fds s) → Kept P (cnmkfs s)
  unfolding cnmkfs superblock_init block_bitmap_init inode_bitmap_init write_root_dir time
  cnmkfs-Kept s h = search (keeps, blk_write-Kept, inode_write-Kept) depth 15
