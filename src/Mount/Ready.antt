-- ===== src/Mount/Ready.antt =====
-- cnmount behind cnmkfs: the root directory and the caches of an empty file system.
use cdnw_sh.Base.{ℕ, ◌≡◌, refl, true, codes, some, load, store, zeros, str_eq, arith}
use cdnw_sh.Params.{fs_error, vfs_good, blockid_root_dir}
use cdnw_sh.Sys.{Sys, DirPtr, ok, success}
use cdnw_sh.Blockdev.Laws.{blk_read-ok}
use cdnw_sh.Inode.Table.{inode_at}
use cdnw_sh.Dir.{inflatedir, cnopendir}
use cdnw_sh.Dir.Small.{IsSmall, small_dir, inflatedir-small, small-IsListing}
use cdnw_sh.Dir.Scan.{IsListing}
use cdnw_sh.Mkfs.{superblock, block_bitmap, inode_bitmap, dot_entries}
use cdnw_sh.Mkfs.Fresh.{dir_inode, Fits-zero}
use cdnw_sh.Alloc.{state_at, IsAlloc}
use cdnw_sh.Mkfs.Bitmaps.{counts_agree, block_bitmap-IsBytes, inode_bitmap-IsBytes}
use cdnw_sh.Mkfs.Fresh.{
  stamp, formatted, cnmkfs-formatted, formatted-on, disk-formatted, root-formatted,
}
use cdnw_sh.Mkfs.{cnmkfs}
use cdnw_sh.Mkfs.Dots.{dots, dots-Listing}
use cdnw_sh.Base.{load-store-Apart}
use cdnw_sh.Params.{fd_free}
use cdnw_sh.Alloc.{free_block_count_at, free_inode_count_at}
use cdnw_sh.Sys.{◌>>◌}
use cdnw_sh.Mount.{zero_fd, check_magic, set_state, cnmount, read_metadata}

-- A state whose disk holds the root directory of an empty file system.
pub record IsFresh (s : Sys) : Type 0 where
  pub on : s.attached ≡ true
  pub now : ℕ
  pub root : inode_at s 0 ≡ dir_inode now blockid_root_dir
  pub block : s.disk blockid_root_dir ≡ dot_entries 0 0

module _ (s : Sys) (h : IsFresh s) where
  pub root-IsSmall : IsSmall s 0 (dir_inode h.now blockid_root_dir)
  root-IsSmall = record {
    on = h.on;
    low = omega arith;
    fits = Fits-zero s.abi;
    found = h.root;
    one = refl;
    block_low = omega arith;
  }

  abbrev pub root_dir : DirPtr
  root_dir = small_dir s 0 (dir_inode h.now blockid_root_dir)

  pub inflate_root : inflatedir 0 s ≡ ok root_dir s
  inflate_root = inflatedir-small s 0 (dir_inode h.now blockid_root_dir) root-IsSmall

  pub root-IsListing : IsListing root_dir (dots 0 0)
  root-IsListing =
      small-IsListing s 0 (dir_inode h.now blockid_root_dir) root-IsSmall (dots 0 0) (omega arith)
        (rw h.block (dots-Listing 0 0 (omega arith) (omega arith)))

-- cnopendir("/") opens it.
open_root : (s : Sys) (h : IsFresh s) → cnopendir (codes "/") s ≡ ok (some (root_dir s h)) s
unfolding cnopendir str_eq
open_root s h = rw (inflate_root s h) refl

pub metadata-ok :
    (s : Sys)
    → s.attached ≡ true
    → read_metadata s
      ≡ ok tt (record s {
        superblk_cache = s.disk 0;
        block_bm_cache = s.disk 1;
        inode_bm_cache = s.disk 2;
      })
unfolding read_metadata
metadata-ok s on =
    let s1 = record s { superblk_cache = s.disk 0 } in
    let s2 = record s1 { block_bm_cache = s.disk 1 } in
    rw (blk_read-ok s on 0 s.superblk_cache (omega arith)) (
      rw (blk_read-ok s1 on 1 s.block_bm_cache (omega arith))
        (rw (blk_read-ok s2 on 2 s.inode_bm_cache (omega arith)) refl))

-- The state when cnopendir is called.
abbrev pub mounting : Sys → Sys
mounting s = record s {
  superblk_cache = store 2 superblock state_at fs_error;
  block_bm_cache = block_bitmap;
  inode_bm_cache = inode_bitmap;
  fs_state = vfs_good;
  fd_tbl = λ i. zero_fd;
  fd_bm = zeros;
  cwd_str = codes "/";
  fs_superblk = true;
}

mounting-eq :
    (s : Sys)
    → s.disk 0 ≡ superblock
    → s.disk 1 ≡ block_bitmap
    → s.disk 2 ≡ inode_bitmap
    → record (check_magic (record s {
      superblk_cache = s.disk 0;
      block_bm_cache = s.disk 1;
      inode_bm_cache = s.disk 2;
      fs_superblk = true;
    })) { fd_tbl = λ i. zero_fd; fd_bm = zeros; cwd_str = codes "/" }
      ≡ mounting s
unfolding check_magic load superblock set_state store
mounting-eq s e0 e1 e2 = rw e0 (rw e1 (rw e2 refl))

-- Mounting an empty file system.
module _ (s : Sys) (h : IsFresh s) (e0 : s.disk 0 ≡ superblock) (e1 : s.disk 1 ≡ block_bitmap)
    (e2 : s.disk 2 ≡ inode_bitmap) where
  pub mounting-IsFresh : IsFresh (mounting s)
  unfolding inode_at
  mounting-IsFresh = record { on = h.on; now = h.now; root = h.root; block = h.block }

  abbrev pub mounted_dir : DirPtr
  mounted_dir = root_dir (mounting s) mounting-IsFresh

  pub cnmount-fresh : cnmount s ≡ ok success (record (mounting s) { cwd = some mounted_dir })
  unfolding cnmount
  cnmount-fresh =
      rw (metadata-ok s h.on)
        (rw (mounting-eq s e0 e1 e2) (rw (open_root (mounting s) mounting-IsFresh) refl))

  pub mounted-IsAlloc : IsAlloc (record (mounting s) { cwd = some mounted_dir })
  mounted-IsAlloc = record {
    on = h.on;
    block_bytes = block_bitmap-IsBytes;
    inode_bytes = inode_bitmap-IsBytes;
    blocks =
        rw (load-store-Apart 4 2 superblock state_at fs_error free_block_count_at (omega arith))
          counts_agree.0;
    inodes =
        rw (load-store-Apart 4 2 superblock state_at fs_error free_inode_count_at (omega arith))
          counts_agree.1;
  }

-- What mkfs and mount leave.
abbrev pub first_root : Sys → DirPtr
first_root s = small_dir (mounting (formatted s)) 0 (dir_inode (stamp s) blockid_root_dir)

abbrev pub first_mounted : Sys → Sys
first_mounted s = record (mounting (formatted s)) { cwd = some (first_root s) }

module _ (s : Sys) (on : s.attached ≡ true) where
  formatted-IsFresh : IsFresh (formatted s)
  formatted-IsFresh = record {
    on = formatted-on s on;
    now = stamp s;
    root = root-formatted s on;
    block = (disk-formatted s on).3;
  }

  first_blocks :
      ((formatted s).disk 0 ≡ superblock)
      × ((formatted s).disk 1 ≡ block_bitmap)
      × ((formatted s).disk 2 ≡ inode_bitmap)
  first_blocks = ((disk-formatted s on).0, (disk-formatted s on).1, (disk-formatted s on).2)

  pub first_mounted-ok : (cnmkfs >> cnmount) s ≡ ok success (first_mounted s)
  unfolding mounting-IsFresh formatted-IsFresh
  first_mounted-ok =
      rw (cnmkfs-formatted s on)
        (cnmount-fresh (formatted s) formatted-IsFresh first_blocks.0 first_blocks.1 first_blocks.2)

  pub first_mounted-IsAlloc : IsAlloc (first_mounted s)
  unfolding mounting-IsFresh formatted-IsFresh
  first_mounted-IsAlloc =
      mounted-IsAlloc (formatted s) formatted-IsFresh first_blocks.0 first_blocks.1 first_blocks.2

  pub first_root-IsListing : IsListing (first_root s) (dots 0 0)
  unfolding mounting-IsFresh formatted-IsFresh
  first_root-IsListing = root-IsListing (mounting (formatted s)) (
      mounting-IsFresh (formatted s) formatted-IsFresh first_blocks.0 first_blocks.1 first_blocks.2)

  pub first_root-IsSmall : IsSmall (first_mounted s) 0 (dir_inode (stamp s) blockid_root_dir)
  unfolding inode_at mounting-IsFresh formatted-IsFresh
  first_root-IsSmall =
      let h = root-IsSmall (mounting (formatted s)) (
        mounting-IsFresh (formatted s) formatted-IsFresh first_blocks.0 first_blocks.1
          first_blocks.2) in
      record {
        on = h.on;
        low = h.low;
        fits = h.fits;
        found = h.found;
        one = h.one;
        block_low = h.block_low;
      }

  -- The root directory, loaded again.
  pub first_loaded-IsListing :
      IsListing (small_dir (first_mounted s) 0 (dir_inode (stamp s) blockid_root_dir)) (dots 0 0)
  first_loaded-IsListing =
      small-IsListing (first_mounted s) 0 (dir_inode (stamp s) blockid_root_dir) first_root-IsSmall
        (dots 0 0) (omega arith)
        (rw (disk-formatted s on).3 (dots-Listing 0 0 (omega arith) (omega arith)))

-- mkfs and then mount, on an attached device: both report success, the file system is in the state
-- VFS_GOOD, the caches agree with each other, the current directory is the root directory, inode 0,
-- it lists "." and "..", both with inode 0, and no descriptor is in use.
pub cnmkfs-cnmount :
    (s : Sys)
    → s.attached ≡ true
    → (s' : Sys) × (dir : DirPtr) × ((cnmkfs >> cnmount) s ≡ ok success s')
      × (s'.fs_state ≡ vfs_good)
      × IsAlloc s'
      × (s'.cwd ≡ some dir)
      × (dir.inode_id ≡ 0)
      × IsListing dir (dots 0 0)
      × ((fd : ℕ) → (s'.fd_tbl fd).state ≡ fd_free)
cnmkfs-cnmount s on = (
  first_mounted s,
  first_root s,
  first_mounted-ok s on,
  refl,
  first_mounted-IsAlloc s on,
  refl,
  refl,
  first_root-IsListing s on,
  λ fd. refl,
)
