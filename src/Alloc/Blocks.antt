-- ===== src/Alloc/Blocks.antt =====
-- reserve_block and release_block against the block bitmap and its free count.
use cdnw_sh.Base.{
  lt→ltb, ◌*◌, ℕ, ◌+◌, ◌-◌, ◌<◌, ◌^◌, ◌≡◌, refl, true, false, ◌==◌, if◌then◌else◌, Bytes, IsBytes,
  store, load-store, load-store-Apart, ne→not-==, arith,
}
use cdnw_sh.Params.{block_size, bd_size_blocks}
use cdnw_sh.Sys.{Sys, ok}
use cdnw_sh.Bitmap.{read_bitmap, set_bitmap, clear_bitmap, find_free_bit}
use cdnw_sh.Bitmap.Laws.{read-set, read-clear, set-IsBytes, clear-IsBytes}
use cdnw_sh.Bitmap.Count.{used}
use cdnw_sh.Alloc.{
  IsAlloc, free_block_count, free_block_count_at, free_inode_count_at, reserve_block, release_block,
}
use cdnw_sh.Alloc.Pool.{finds, agree-set, agree-clear}
use cdnw_sh.Alloc.Flush.{flushed, flush-ok, flushed-disk}

-- The block that is reserved next.
abbrev pub next_block : Sys → ℕ
next_block s = find_free_bit s.block_bm_cache

-- s with another block bitmap and another free count, in the caches and on the disk.
unfoldable pub with_blocks : Sys → Bytes → ℕ → Sys
unfolding flushed
with_blocks s bm n = flushed (record s {
  block_bm_cache = bm;
  superblk_cache = store 4 s.superblk_cache free_block_count_at n;
})

unfoldable pub reserved_block : Sys → Sys
reserved_block s =
    with_blocks s (set_bitmap s.block_bm_cache (next_block s)) (free_block_count s - 1)

unfoldable pub released_block : Sys → ℕ → Sys
released_block s b = with_blocks s (clear_bitmap s.block_bm_cache b) (free_block_count s + 1)

-- The invariant, where the new map and the new count agree.
with_blocks-IsAlloc :
    (s : Sys) (bm : Bytes) (n : ℕ)
    → IsAlloc s
    → IsBytes bm
    → used bd_size_blocks bm + n ≡ bd_size_blocks
    → IsAlloc (with_blocks s bm n)
unfolding with_blocks
with_blocks-IsAlloc s bm n h bytes agree = record {
  on = h.on;
  block_bytes = bytes;
  inode_bytes = h.inode_bytes;
  blocks = omega (arith, load-store 4 s.superblk_cache free_block_count_at n (omega arith));
  inodes = omega (
    arith,
    h.inodes,
    load-store-Apart 4 4 s.superblk_cache free_block_count_at n free_inode_count_at (omega arith),
  );
}

free_blocks-with_blocks :
    (s : Sys) (bm : Bytes) (n : ℕ) → n < 2 ^ 32 → free_block_count (with_blocks s bm n) ≡ n
unfolding with_blocks
free_blocks-with_blocks s bm n lt = load-store 4 s.superblk_cache free_block_count_at n lt

reserve_block_run :
    (s : Sys)
    → s.attached ≡ true
    → 0 < free_block_count s
    → reserve_block s ≡ ok (next_block s) (reserved_block s)
unfolding reserve_block reserved_block with_blocks
reserve_block_run s on pos =
    let s1 = record s {
      block_bm_cache = set_bitmap s.block_bm_cache (next_block s);
      superblk_cache = store 4 s.superblk_cache free_block_count_at (free_block_count s - 1);
    } in
    rw (ne→not-== (free_block_count s) 0 (omega arith)) (rw (flush-ok s1 on) refl)

release_block_run :
    (s : Sys)
    → s.attached ≡ true
    → (b : ℕ) → b < 8 * block_size
    → release_block b s ≡ ok tt (released_block s b)
unfolding release_block released_block with_blocks
release_block_run s on b lt = rw (lt→ltb b (8 * block_size) lt) (
    flush-ok
      (record s {
        block_bm_cache = clear_bitmap s.block_bm_cache b;
        superblk_cache = store 4 s.superblk_cache free_block_count_at (free_block_count s + 1);
      })
      on)

module _ (s : Sys) (h : IsAlloc s) where
  -- Where the caches agree and a block is free, reserve_block returns the lowest free one, which
  -- lies on the device, and marks it used: no other bit of the map changes, and the caches agree
  -- again, with a free count that is one less.
  pub reserve_block-ok :
      0 < free_block_count s
      → (reserve_block s ≡ ok (next_block s) (reserved_block s))
        × (next_block s < bd_size_blocks)
        × (read_bitmap s.block_bm_cache (next_block s) ≡ false)
        × ((j : ℕ) → j < next_block s → read_bitmap s.block_bm_cache j ≡ true)
        × ((j : ℕ)
            → read_bitmap (reserved_block s).block_bm_cache j
              ≡ (if j == next_block s then true else read_bitmap s.block_bm_cache j))
        × (free_block_count (reserved_block s) ≡ free_block_count s - 1)
        × IsAlloc (reserved_block s)
  unfolding reserved_block
  reserve_block-ok pos =
      let count = free_block_count s in
      let (lt, clear, below) =
        finds s.block_bm_cache h.block_bytes bd_size_blocks count (omega arith) h.blocks pos in
      (
        reserve_block_run s h.on pos,
        lt,
        clear,
        below,
        unfold with_blocks in read-set s.block_bm_cache h.block_bytes (next_block s),
        free_blocks-with_blocks s _ (count - 1) (omega (arith, h.blocks)),
        with_blocks-IsAlloc s _ (count - 1) h
            (set-IsBytes s.block_bm_cache h.block_bytes (next_block s))
            (agree-set s.block_bm_cache h.block_bytes bd_size_blocks count (omega arith) h.blocks
              (next_block s) lt pos clear),
      )

  -- Without a free block, reserve_block returns 0, the number of the superblock, and changes
  -- nothing.
  pub reserve_block_full : free_block_count s ≡ 0 → reserve_block s ≡ ok 0 s
  unfolding reserve_block
  reserve_block_full none_left = rw none_left refl

  -- Where the caches agree, releasing a used block marks it free: no other bit of the map changes,
  -- and the caches agree again, with a free count that is one more.
  pub release_block-ok :
      (b : ℕ)
      → b < bd_size_blocks
      → read_bitmap s.block_bm_cache b ≡ true
      → (release_block b s ≡ ok tt (released_block s b))
        × ((j : ℕ)
            → read_bitmap (released_block s b).block_bm_cache j
              ≡ (if j == b then false else read_bitmap s.block_bm_cache j))
        × (free_block_count (released_block s b) ≡ free_block_count s + 1)
        × IsAlloc (released_block s b)
  unfolding released_block
  release_block-ok b lt is_used =
      let agree =
        agree-clear s.block_bm_cache h.block_bytes bd_size_blocks (free_block_count s) (omega arith)
          h.blocks b lt is_used in
      (
        release_block_run s h.on b (omega (arith, lt)),
        unfold with_blocks in read-clear s.block_bm_cache h.block_bytes b,
        free_blocks-with_blocks s _ (free_block_count s + 1) (omega (arith, agree)),
        with_blocks-IsAlloc s _ (free_block_count s + 1) h
            (clear-IsBytes s.block_bm_cache h.block_bytes b) agree,
      )

pub reserved_block-disk : (s : Sys) (l : ℕ) → 2 < l → (reserved_block s).disk l ≡ s.disk l
unfolding reserved_block with_blocks
reserved_block-disk s l high =
    flushed-disk
      (record s {
        block_bm_cache = set_bitmap s.block_bm_cache (next_block s);
        superblk_cache = store 4 s.superblk_cache free_block_count_at (free_block_count s - 1);
      })
      l high

pub reserved_block-abi : (s : Sys) → (reserved_block s).abi ≡ s.abi
unfolding reserved_block with_blocks flushed
reserved_block-abi s = refl

-- Reserving a block leaves the inodes alone.
pub reserved_block-inodes : (s : Sys) → (reserved_block s).inode_bm_cache ≡ s.inode_bm_cache
unfolding reserved_block with_blocks flushed
reserved_block-inodes s = refl
