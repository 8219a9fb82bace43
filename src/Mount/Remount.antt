-- ===== src/Mount/Remount.antt =====
-- cnumount, and the caches behind the next mount.
use cdnw_sh.Base.{
  ℕ, ◌+◌, ◌≤◌, ◌<◌, ◌≡◌, refl, ap, ◌∙◌, inl, Bool, true, Bytes, load, store, none, load-store,
  load-store-Apart, arith,
}
use cdnw_sh.Params.{fs_magic, fs_valid, fs_error, vfs_good}
use cdnw_sh.Sys.{Sys, ok, success, modify, defined, ◌>>◌}
use cdnw_sh.Blockdev.{write_block}
use cdnw_sh.Blockdev.Laws.{with_block, blk_write-ok}
use cdnw_sh.Alloc.{
  IsAlloc, magic_at, state_at, free_block_count_at, free_inode_count_at, free_block_count,
  free_inode_count,
}
use cdnw_sh.Mount.{set_state, read_metadata, check_magic, cnumount}
use cdnw_sh.Mount.Ready.{metadata-ok}

-- The superblock that umount writes.
abbrev pub closed_super : Sys → Bytes
closed_super s = store 2 s.superblk_cache state_at fs_valid

abbrev pub unmounted : Sys → Sys
unmounted s =
    with_block
      (with_block
        (with_block (record s { cwd = none; superblk_cache = closed_super s }) 0 (closed_super s)) 1
        s.block_bm_cache)
      2 s.inode_bm_cache

defined-true : (b : Bool) (s : Sys) → b ≡ true → defined b s ≡ ok tt s
defined-true b s h = rw h refl

pub cnumount-ok :
    (s : Sys) → s.attached ≡ true → s.fs_superblk ≡ true → cnumount s ≡ ok success (unmounted s)
unfolding cnumount set_state
cnumount-ok s on points =
    let s0 = record s { cwd = none; superblk_cache = closed_super s } in
    let s1 = with_block s0 0 (closed_super s) in
    let s2 = with_block s1 1 s.block_bm_cache in
    rw (defined-true s.fs_superblk (record s { cwd = none }) points) (
      rw (blk_write-ok s0 on 0 (closed_super s) (omega arith)) (
        rw (blk_write-ok s1 on 1 s.block_bm_cache (omega arith))
          (rw (blk_write-ok s2 on 2 s.inode_bm_cache (omega arith)) refl)))

-- The superblock behind the next mount.
abbrev reopened_super : Sys → Bytes
reopened_super s = store 2 (closed_super s) state_at fs_error

abbrev remounted : Sys → Sys
remounted s = record (unmounted s) { superblk_cache = reopened_super s; fs_state = vfs_good }

module _ (s : Sys) (magic : load 2 s.superblk_cache magic_at ≡ fs_magic) where
  magic_kept : load 2 (closed_super s) magic_at ≡ fs_magic
  magic_kept =
      load-store-Apart 2 2 s.superblk_cache state_at fs_valid magic_at (omega arith) ∙ magic

  check_magic-unmounted : check_magic (unmounted s) ≡ remounted s
  unfolding check_magic set_state
  check_magic-unmounted =
      rw (magic_kept, load-store 2 s.superblk_cache state_at fs_valid (omega arith)) refl

  remount-ok :
      s.attached ≡ true → (read_metadata >> modify check_magic) (unmounted s) ≡ ok tt (remounted s)
  unfolding write_block
  remount-ok on = rw (metadata-ok (unmounted s) on) (ap (λ u. ok tt u) check_magic-unmounted)

count_kept :
    (s : Sys) (at : ℕ)
    → at + 4 ≤ state_at
    → load 4 (reopened_super s) at ≡ load 4 s.superblk_cache at
count_kept s at low =
    load-store-Apart 4 2 (closed_super s) state_at fs_error at (inl low)
    ∙ load-store-Apart 4 2 s.superblk_cache state_at fs_valid at (inl low)

-- On a mounted file system, where the caches agree and the superblock has the magic number:
-- unmounting succeeds, and the part of the next mount that fills the caches gets back both bitmaps
-- and both free counts, takes the file system for good, and leaves the caches in agreement. No
-- block behind the bitmaps is touched.
pub cnumount-read_metadata :
    (s : Sys)
    → IsAlloc s
    → s.fs_superblk ≡ true
    → load 2 s.superblk_cache magic_at ≡ fs_magic
    → (t u : Sys) × (cnumount s ≡ ok success t)
      × ((read_metadata >> modify check_magic) t ≡ ok tt u)
      × (u.fs_state ≡ vfs_good)
      × (u.block_bm_cache ≡ s.block_bm_cache)
      × (u.inode_bm_cache ≡ s.inode_bm_cache)
      × (free_block_count u ≡ free_block_count s)
      × (free_inode_count u ≡ free_inode_count s)
      × ((l : ℕ) → 2 < l → u.disk l ≡ s.disk l)
      × IsAlloc u
unfolding write_block
cnumount-read_metadata s h points magic = (
  unmounted s,
  remounted s,
  cnumount-ok s h.on points,
  remount-ok s magic h.on,
  refl,
  refl,
  refl,
  count_kept s free_block_count_at (omega arith),
  count_kept s free_inode_count_at (omega arith),
  λ l high. ground arith,
  record {
    on = h.on;
    block_bytes = h.block_bytes;
    inode_bytes = h.inode_bytes;
    blocks = omega (arith, h.blocks, count_kept s free_block_count_at (omega arith));
    inodes = omega (arith, h.inodes, count_kept s free_inode_count_at (omega arith));
  },
)
