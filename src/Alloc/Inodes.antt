-- ===== src/Alloc/Inodes.antt =====
-- reserve_inode and release_inode against the inode bitmap and its free count.
use cdnw_sh.Base.{
  lt→ltb, ◌*◌, ℕ, ◌+◌, ◌-◌, ◌<◌, ◌^◌, ◌≡◌, refl, true, false, ◌==◌, if◌then◌else◌, Bytes, IsBytes,
  store, load-store, load-store-Apart, ne→not-==, arith,
}
use cdnw_sh.Params.{block_size, inode_count}
use cdnw_sh.Sys.{Sys, ok}
use cdnw_sh.Bitmap.{read_bitmap, set_bitmap, clear_bitmap, find_free_bit}
use cdnw_sh.Bitmap.Laws.{read-set, read-clear, set-IsBytes, clear-IsBytes}
use cdnw_sh.Bitmap.Count.{used}
use cdnw_sh.Alloc.{
  free_block_count, IsAlloc, free_inode_count, free_inode_count_at, free_block_count_at,
  reserve_inode, release_inode,
}
use cdnw_sh.Alloc.Pool.{finds, agree-set, agree-clear}
use cdnw_sh.Alloc.Flush.{flushed, flush-ok, flushed-disk}

-- The inode that is reserved next.
abbrev pub next_inode : Sys → ℕ
next_inode s = find_free_bit s.inode_bm_cache

-- s with another inode bitmap and another free count, in the caches and on the disk.
unfoldable pub with_inodes : Sys → Bytes → ℕ → Sys
unfolding flushed
with_inodes s bm n = flushed (record s {
  inode_bm_cache = bm;
  superblk_cache = store 4 s.superblk_cache free_inode_count_at n;
})

unfoldable pub reserved_inode : Sys → Sys
reserved_inode s =
    with_inodes s (set_bitmap s.inode_bm_cache (next_inode s)) (free_inode_count s - 1)

unfoldable pub released_inode : Sys → ℕ → Sys
released_inode s b = with_inodes s (clear_bitmap s.inode_bm_cache b) (free_inode_count s + 1)

-- The invariant, where the new map and the new count agree.
with_inodes-IsAlloc :
    (s : Sys) (bm : Bytes) (n : ℕ)
    → IsAlloc s
    → IsBytes bm
    → used inode_count bm + n ≡ inode_count
    → IsAlloc (with_inodes s bm n)
unfolding with_inodes
with_inodes-IsAlloc s bm n h bytes agree = record {
  on = h.on;
  block_bytes = h.block_bytes;
  inode_bytes = bytes;
  blocks = omega (
    arith,
    h.blocks,
    load-store-Apart 4 4 s.superblk_cache free_inode_count_at n free_block_count_at (omega arith),
  );
  inodes = omega (arith, load-store 4 s.superblk_cache free_inode_count_at n (omega arith));
}

free_inodes-with_inodes :
    (s : Sys) (bm : Bytes) (n : ℕ) → n < 2 ^ 32 → free_inode_count (with_inodes s bm n) ≡ n
unfolding with_inodes
free_inodes-with_inodes s bm n lt = load-store 4 s.superblk_cache free_inode_count_at n lt

reserve_inode_run :
    (s : Sys)
    → s.attached ≡ true
    → 0 < free_inode_count s
    → reserve_inode s ≡ ok (next_inode s) (reserved_inode s)
unfolding reserve_inode reserved_inode with_inodes
reserve_inode_run s on pos =
    let s1 = record s {
      inode_bm_cache = set_bitmap s.inode_bm_cache (next_inode s);
      superblk_cache = store 4 s.superblk_cache free_inode_count_at (free_inode_count s - 1);
    } in
    rw (ne→not-== (free_inode_count s) 0 (omega arith)) (rw (flush-ok s1 on) refl)

release_inode_run :
    (s : Sys)
    → s.attached ≡ true
    → (b : ℕ) → b < 8 * block_size
    → release_inode b s ≡ ok tt (released_inode s b)
unfolding release_inode released_inode with_inodes
release_inode_run s on b lt = rw (lt→ltb b (8 * block_size) lt) (
    flush-ok
      (record s {
        inode_bm_cache = clear_bitmap s.inode_bm_cache b;
        superblk_cache = store 4 s.superblk_cache free_inode_count_at (free_inode_count s + 1);
      })
      on)

module _ (s : Sys) (h : IsAlloc s) where
  -- Where the caches agree and an inode is free, reserve_inode returns the lowest free one, which
  -- lies in the inode table, and marks it used: no other bit of the map changes, and the caches
  -- agree again, with a free count that is one less.
  pub reserve_inode-ok :
      0 < free_inode_count s
      → (reserve_inode s ≡ ok (next_inode s) (reserved_inode s))
        × (next_inode s < inode_count)
        × (read_bitmap s.inode_bm_cache (next_inode s) ≡ false)
        × ((j : ℕ) → j < next_inode s → read_bitmap s.inode_bm_cache j ≡ true)
        × ((j : ℕ)
            → read_bitmap (reserved_inode s).inode_bm_cache j
              ≡ (if j == next_inode s then true else read_bitmap s.inode_bm_cache j))
        × (free_inode_count (reserved_inode s) ≡ free_inode_count s - 1)
        × IsAlloc (reserved_inode s)
  unfolding reserved_inode
  reserve_inode-ok pos =
      let count = free_inode_count s in
      let (lt, clear, below) =
        finds s.inode_bm_cache h.inode_bytes inode_count count (omega arith) h.inodes pos in
      (
        reserve_inode_run s h.on pos,
        lt,
        clear,
        below,
        unfold with_inodes in read-set s.inode_bm_cache h.inode_bytes (next_inode s),
        free_inodes-with_inodes s _ (count - 1) (omega (arith, h.inodes)),
        with_inodes-IsAlloc s _ (count - 1) h
            (set-IsBytes s.inode_bm_cache h.inode_bytes (next_inode s))
            (agree-set s.inode_bm_cache h.inode_bytes inode_count count (omega arith) h.inodes
              (next_inode s) lt pos clear),
      )

  -- Without a free inode, reserve_inode returns 0, the number of the root directory, and changes
  -- nothing.
  pub reserve_inode_full : free_inode_count s ≡ 0 → reserve_inode s ≡ ok 0 s
  unfolding reserve_inode
  reserve_inode_full none_left = rw none_left refl

  -- Where the caches agree, releasing a used inode marks it free: no other bit of the map changes,
  -- and the caches agree again, with a free count that is one more.
  pub release_inode-ok :
      (b : ℕ)
      → b < inode_count
      → read_bitmap s.inode_bm_cache b ≡ true
      → (release_inode b s ≡ ok tt (released_inode s b))
        × ((j : ℕ)
            → read_bitmap (released_inode s b).inode_bm_cache j
              ≡ (if j == b then false else read_bitmap s.inode_bm_cache j))
        × (free_inode_count (released_inode s b) ≡ free_inode_count s + 1)
        × IsAlloc (released_inode s b)
  unfolding released_inode
  release_inode-ok b lt is_used =
      let agree =
        agree-clear s.inode_bm_cache h.inode_bytes inode_count (free_inode_count s) (omega arith)
          h.inodes b lt is_used in
      (
        release_inode_run s h.on b (omega (arith, lt)),
        unfold with_inodes in read-clear s.inode_bm_cache h.inode_bytes b,
        free_inodes-with_inodes s _ (free_inode_count s + 1) (omega (arith, agree)),
        with_inodes-IsAlloc s _ (free_inode_count s + 1) h
            (clear-IsBytes s.inode_bm_cache h.inode_bytes b) agree,
      )

-- Reserving an inode leaves the blocks alone.
pub reserved_inode-blocks :
    (s : Sys)
    → ((reserved_inode s).block_bm_cache ≡ s.block_bm_cache)
      × (free_block_count (reserved_inode s) ≡ free_block_count s)
unfolding reserved_inode with_inodes flushed
reserved_inode-blocks s = (
  refl,
  load-store-Apart 4 4 s.superblk_cache free_inode_count_at (free_inode_count s - 1)
      free_block_count_at (omega arith),
)

pub reserved_inode-disk : (s : Sys) (l : ℕ) → 2 < l → (reserved_inode s).disk l ≡ s.disk l
unfolding reserved_inode with_inodes
reserved_inode-disk s l high =
    flushed-disk
      (record s {
        inode_bm_cache = set_bitmap s.inode_bm_cache (next_inode s);
        superblk_cache = store 4 s.superblk_cache free_inode_count_at (free_inode_count s - 1);
      })
      l high
