-- ===== src/Mkfs/Fresh.antt =====
-- What cnmkfs leaves on the disk.
use cdnw_sh.Base.{ℕ, suc, ◌%◌, ◌<◌, ◌^◌, ◌≡◌, refl, ◌∙◌, true, set, arith}
use cdnw_sh.Params.{itype_dir, blockid_root_dir}
use cdnw_sh.Sys.{Sys, Abi, ilp32, lp64, Inode, ok, success, time}
use cdnw_sh.Blockdev.{write_block}
use cdnw_sh.Blockdev.Laws.{with_block, blk_write-ok}
use cdnw_sh.Inode.{zero_inode, IsInode, Fits, sizeof_inode, inode_offset, modified_width, inode_lba}
use cdnw_sh.Inode.Table.{
  inode_at, with_inode, inode_write-ok, inode_at-with_inode_self, inode_at-with_block,
  with_inode-on,
}
use cdnw_sh.Mkfs.{
  superblock, block_bitmap, inode_bitmap, superblock_init, block_bitmap_init, inode_bitmap_init,
  write_root_dir, dot_entries, cnmkfs,
}

-- The inode of an empty directory in block b.
abbrev pub dir_inode : ℕ → ℕ → Inode
dir_inode now b = record zero_inode {
  modified = now;
  type = itype_dir;
  size = 24;
  blocks = 1;
  data0 = set zero_inode.data0 0 b;
}

pub dir_inode-IsInode :
    (abi : Abi) (now b : ℕ) → now < 2 ^ 32 → b < 2 ^ 32 → IsInode abi (dir_inode now b)
unfolding modified_width
dir_inode-IsInode ilp32 now b h hb = omega arith
dir_inode-IsInode lp64 now b h hb = omega arith

pub Fits-zero : (abi : Abi) → Fits abi 0
unfolding inode_offset sizeof_inode
Fits-zero ilp32 = omega arith
Fits-zero lp64 = omega arith

-- The time that is stored in the root's inode.
abbrev pub stamp : Sys → ℕ
stamp s = s.clock s.calls % 2 ^ 32

-- The three metadata blocks.
abbrev with_metadata : Sys → Sys
with_metadata s = with_block (with_block (with_block s 0 superblock) 1 block_bitmap) 2 inode_bitmap

-- The state after mkfs.
unfoldable pub formatted : Sys → Sys
formatted s =
    with_block
      (with_inode (record (with_metadata s) { calls = suc s.calls }) 0
        (dir_inode (stamp s) blockid_root_dir))
      blockid_root_dir (dot_entries 0 0)

superblock_init-ok :
    (s : Sys) → s.attached ≡ true → superblock_init s ≡ ok tt (with_block s 0 superblock)
unfolding superblock_init
superblock_init-ok s on = rw (blk_write-ok s on 0 superblock (omega arith)) refl

block_bitmap_init-ok :
    (s : Sys) → s.attached ≡ true → block_bitmap_init s ≡ ok tt (with_block s 1 block_bitmap)
unfolding block_bitmap_init
block_bitmap_init-ok s on = rw (blk_write-ok s on 1 block_bitmap (omega arith)) refl

inode_bitmap_init-ok :
    (s : Sys) → s.attached ≡ true → inode_bitmap_init s ≡ ok tt (with_block s 2 inode_bitmap)
unfolding inode_bitmap_init
inode_bitmap_init-ok s on = rw (blk_write-ok s on 2 inode_bitmap (omega arith)) refl

write_root_dir-ok :
    (s : Sys)
    → s.attached ≡ true
    → write_root_dir s
      ≡ ok tt (
          with_block
            (with_inode (record s { calls = suc s.calls }) 0 (dir_inode (stamp s) blockid_root_dir))
            blockid_root_dir
            (dot_entries 0 0))
unfolding write_root_dir time
write_root_dir-ok s on =
    let t = record s { calls = suc s.calls } in
    let root = dir_inode (stamp s) blockid_root_dir in
    rw (inode_write-ok t on 0 (omega arith) (Fits-zero t.abi) root) (
      rw
        (blk_write-ok (with_inode t 0 root) (with_inode-on t 0 root on) blockid_root_dir
          (dot_entries 0 0) (omega arith))
        refl)

-- On an attached device mkfs runs to its end and reports success.
pub cnmkfs-formatted : (s : Sys) → s.attached ≡ true → cnmkfs s ≡ ok success (formatted s)
unfolding cnmkfs formatted
cnmkfs-formatted s on = rw (superblock_init-ok s on) (
    rw (block_bitmap_init-ok (with_block s 0 superblock) on) (
      rw (inode_bitmap_init-ok (with_block (with_block s 0 superblock) 1 block_bitmap) on)
        (rw (write_root_dir-ok (with_metadata s) on) refl)))

-- The blocks of an empty file system.
module _ (s : Sys) (on : s.attached ≡ true) where
  pub formatted-on : (formatted s).attached ≡ true
  unfolding formatted with_inode
  formatted-on = on

  pub formatted-abi : (formatted s).abi ≡ s.abi
  unfolding formatted with_inode
  formatted-abi = refl

  root_block : inode_lba 0 ≡ 3
  unfolding inode_lba
  root_block = refl

  pub disk-formatted :
      ((formatted s).disk 0 ≡ superblock)
      × ((formatted s).disk 1 ≡ block_bitmap)
      × ((formatted s).disk 2 ≡ inode_bitmap)
      × ((formatted s).disk blockid_root_dir ≡ dot_entries 0 0)
  unfolding formatted with_inode write_block
  disk-formatted = rw root_block (refl, refl, refl, refl)

  pub root-formatted : inode_at (formatted s) 0 ≡ dir_inode (stamp s) blockid_root_dir
  unfolding formatted
  root-formatted =
      let t = record (with_metadata s) { calls = suc s.calls } in
      let root = dir_inode (stamp s) blockid_root_dir in
      inode_at-with_block (with_inode t 0 root) blockid_root_dir (dot_entries 0 0) 0
        (rw root_block (omega arith))
      ∙ inode_at-with_inode_self t 0 root
          (dir_inode-IsInode t.abi (stamp s) blockid_root_dir (omega arith) (omega arith))
