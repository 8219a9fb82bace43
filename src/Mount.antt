-- ===== src/Mount.antt =====
-- src/fs.c: mount and unmount.
pub mod Ready
pub mod Remount
use cdnw_sh.Base.{
  ℕ, true, ◌&&◌, ◌==◌, if◌then◌else◌, Bytes, codes, load, store, zeros, Option, none, List, [],
}
use cdnw_sh.Params.{
  fs_magic, fs_valid, fs_error, fd_free, vfs_blank, vfs_good, blockid_super, blockid_block_bitmap,
  blockid_inode_bitmap,
}
use cdnw_sh.Sys.{Sys, FdEntry, null, M, Code, success, pure, gets, modify, defined, ◌>>=◌, ◌>>◌}
use cdnw_sh.Blockdev.{blk_read, blk_write}
use cdnw_sh.Alloc.{magic_at, state_at}
use cdnw_sh.Inode.{zero_inode}
use cdnw_sh.Dir.{cnopendir}

-- An entry of fd_tbl after memset(fd_tbl, 0, ...).
abbrev pub zero_fd : FdEntry
zero_fd = record { cache = null; state = fd_free; inode_id = 0; inode = zero_inode; cursor = 0 }

-- super->state = state
unfoldable pub set_state : ℕ → Sys → Sys
unfolding store
set_state state s = record s { superblk_cache = store 2 s.superblk_cache state_at state }

-- The caches are filled from the disk.
unfoldable pub read_metadata : M (Unit {0})
read_metadata = do
  superblk ← gets (λ s. s.superblk_cache)
  (_, superblk') ← blk_read blockid_super superblk
  modify (λ s. record s { superblk_cache = superblk' })
  block_bm ← gets (λ s. s.block_bm_cache)
  (_, block_bm') ← blk_read blockid_block_bitmap block_bm
  modify (λ s. record s { block_bm_cache = block_bm' })
  inode_bm ← gets (λ s. s.inode_bm_cache)
  (_, inode_bm') ← blk_read blockid_inode_bitmap inode_bm
  modify (λ s. record s { inode_bm_cache = inode_bm' })

-- A file system that was unmounted is marked as in use; any other one is taken for blank.
unfoldable pub check_magic : Sys → Sys
unfolding set_state load
check_magic s =
    if load 2 s.superblk_cache magic_at == fs_magic && load 2 s.superblk_cache state_at == fs_valid
    then set_state fs_error (record s { fs_state = vfs_good })
    else record s { fs_state = vfs_blank }

unfoldable pub cnmount : M Code
cnmount = do
  read_metadata
  modify (λ s. record s { fs_superblk = true })
  modify check_magic
  modify (λ s. record s { fd_tbl = λ i. zero_fd; fd_bm = zeros; cwd_str = codes "/" })
  root ← cnopendir (codes "/")
  modify (λ s. record s { cwd = root })
  pure success

-- cwd is freed: it is not used again before the next mount. fs.superblk is dereferenced.
unfoldable pub cnumount : M Code
unfolding set_state
cnumount = do
  modify (λ s. record s { cwd = none })
  points ← gets (λ s. s.fs_superblk)
  defined points
  modify (set_state fs_valid)
  superblk ← gets (λ s. s.superblk_cache)
  blk_write blockid_super superblk
  block_bm ← gets (λ s. s.block_bm_cache)
  blk_write blockid_block_bitmap block_bm
  inode_bm ← gets (λ s. s.inode_bm_cache)
  blk_write blockid_inode_bitmap inode_bm
  pure success
