-- ===== src/Files/SeekClosed.antt =====
-- cnseek of a descriptor that was never opened.
use cdnw_sh.Base.{
  ℕ, suc, ◌+◌, ◌%◌, ◌/◌, ◌^◌, ◌<◌, ◌≡◌, refl, true, ap, ◌∙◌, lt→ltb, get_or, set, arith,
}
use cdnw_sh.Params.{block_size, max_fd}
use cdnw_sh.Sys.{Sys, Abi, ilp32, lp64, Inode, FdEntry, live, ok, success, time}
use cdnw_sh.Inode.{IsInode, zero_inode, inode_read, modified_width}
use cdnw_sh.Inode.Table.{
  inode_at, with_inode, with_inode-on, inode_write-ok, inode_read-ok, inode_at-with_inode_self,
}
use cdnw_sh.Mkfs.Fresh.{Fits-zero}
use cdnw_sh.Alloc.{IsAlloc, free_block_count}
use cdnw_sh.Alloc.Flush.{flushed}
use cdnw_sh.Alloc.Blocks.{next_block, reserved_block, with_blocks, reserve_block-ok}
use cdnw_sh.FileData.{calloc_blocks}
use cdnw_sh.Grow.{realloc_cache, reserve_direct, grow_direct, grow_indirect, realloc_fs_blocks}
use cdnw_sh.Files.{update_fd, get_fd, set_fd, grow_blocks, expand, cnseek}
use cdnw_sh.Mount.{zero_fd}

sized-IsInode :
    (abi : Abi) (size now b : ℕ)
    → size < 2 ^ 32
    → now < 2 ^ 32
    → b < 2 ^ 32
    → IsInode abi (record zero_inode {
      size = size;
      blocks = 1;
      data0 = set zero_inode.data0 0 b;
      modified = now;
    })
unfolding modified_width
sized-IsInode ilp32 size now b hs h hb = omega arith
sized-IsInode lp64 size now b hs h hb = omega arith

same_clock : (s : Sys) → (reserved_block s).clock (reserved_block s).calls ≡ s.clock s.calls
unfolding reserved_block with_blocks flushed
same_clock s = refl

module _ (s : Sys) (fd offset : ℕ) (h : IsAlloc s) (low : fd < max_fd)
    (entry : s.fd_tbl fd ≡ zero_fd) (some_byte : 0 < offset) (one_block : offset < block_size)
    (free : 0 < free_block_count s) (clock_fits : (n : ℕ) → s.clock n < 2 ^ 32) where
  abbrev s1 : Sys
  s1 = reserved_block s

  abbrev with_data : Inode
  with_data = record zero_inode {
    size = offset;
    blocks = 1;
    data0 = set zero_inode.data0 0 (next_block s);
  }

  abbrev new : Inode
  new = record with_data { modified = s1.clock s1.calls }

  realloc_fs_blocks-ok :
      realloc_fs_blocks (record zero_inode { size = offset }) 1 s ≡ ok with_data s1
  unfolding realloc_fs_blocks grow_direct grow_indirect reserve_direct
  realloc_fs_blocks-ok = rw (reserve_block-ok s h free).0 refl

  abbrev ticked : Sys
  ticked = record s1 { calls = suc s1.calls }

  ticked-on : ticked.attached ≡ true
  ticked-on = (reserve_block-ok s h free).6.on

  abbrev stored : Sys
  stored = with_inode ticked 0 new

  abbrev fde : FdEntry
  fde = record zero_fd { cache = live (calloc_blocks 1); inode = new }

  expand-ok : expand zero_fd offset s ≡ ok fde stored
  unfolding expand grow_blocks realloc_cache time
  expand-ok =
      let blocks : offset / block_size + 1 ≡ 1 = omega arith in
      rw
        (
          blocks,
          realloc_fs_blocks-ok,
          inode_write-ok ticked ticked-on 0 (omega arith) (Fits-zero ticked.abi) new,
        )
        refl

  abbrev after : Sys
  after = record stored { fd_tbl = update_fd stored.fd_tbl fd (record fde { cursor = offset }) }

  cnseek-ok : cnseek fd offset s ≡ ok success after
  unfolding cnseek get_fd set_fd
  cnseek-ok =
      let required : (zero_fd.cursor + offset) % 2 ^ 32 ≡ offset = omega arith in
      rw (lt→ltb fd max_fd low, entry, required, lt→ltb 0 offset some_byte, expand-ok) refl

  new-IsInode : IsInode ticked.abi new
  new-IsInode =
      sized-IsInode ticked.abi offset (s1.clock s1.calls) (next_block s) (omega arith)
        (omega (arith, same_clock s, clock_fits s.calls))
        (omega (arith, (reserve_block-ok s h free).1))

  same_inode : inode_at after 0 ≡ inode_at stored 0
  unfolding inode_at
  same_inode = refl

  found : inode_at after 0 ≡ new
  found = same_inode ∙ inode_at-with_inode_self ticked 0 new new-IsInode

  -- Where the caches agree and a block is free, with a clock that fits 32 bits: cnseek of a descriptor
  -- whose entry is still as mount cleared it, to a positive offset inside the first block, succeeds.
  -- Inode 0 of the root directory, which a cleared entry names, is then overwritten: its type is 0,
  -- its size the offset, and its first block the one that was the lowest free block.
  pub cnseek_closed :
      (t : Sys) × (i : Inode) × (cnseek fd offset s ≡ ok success t)
      × (inode_read 0 t ≡ ok i t)
      × (i.type ≡ 0)
      × (i.size ≡ offset)
      × (get_or i.data0 0 0 ≡ next_block s)
  cnseek_closed = (
    after,
    new,
    cnseek-ok,
    inode_read-ok after (with_inode-on ticked 0 new ticked-on) 0 (omega arith) (Fits-zero after.abi)
        ∙ ap (λ i. ok i after) found,
    refl,
    refl,
    refl,
  )
