-- ===== src/Grow.antt =====
-- src/fs.c: realloc_cache and realloc_fs_blocks, which make room in a file for more bytes.
pub mod Reserve
use cdnw_sh.Base.{
  ℕ, zero, suc, ◌+◌, ◌-◌, ◌*◌, min, ltb, leb, ◌==◌, if◌then◌else◌, set, Bytes, zeros, load, store,
  copy,
}
use cdnw_sh.Sys.{
  Inode, Buffer, Cache, null, dangling, live, FdEntry, M, Code, success, undefined, pure, halt,
  defined, ◌>>=◌, ◌>>◌,
}
use cdnw_sh.Blockdev.{blk_read, blk_write}
use cdnw_sh.Alloc.{reserve_block}
use cdnw_sh.FileData.{indirect_words, calloc_blocks}

-- The bytes behind a pointer: none behind NULL or behind a freed one.
abbrev pub buffer_of : Cache → Buffer
buffer_of null = calloc_blocks 0
buffer_of dangling = calloc_blocks 0
buffer_of (live buf) = buf

-- The new buffer starts with the first `size` bytes of the old one, which is freed. calloc is taken
-- to succeed.
unfoldable pub realloc_cache : Cache → ℕ → ℕ → M Buffer
unfolding copy
realloc_cache null size blocks_needed = pure (calloc_blocks blocks_needed)
realloc_cache dangling size blocks_needed = halt undefined
realloc_cache (live old) size blocks_needed = do
  let new_data = calloc_blocks blocks_needed
  defined (leb size old.cap)
  defined (leb size new_data.cap)
  pure (record new_data { bytes = copy size new_data.bytes 0 old.bytes 0 })

-- for(; blocks < ...; blocks++) data0[blocks] = reserve_block(), `left` rounds.
unfoldable pub reserve_direct : ℕ → Inode → M Inode
reserve_direct zero inode = pure inode
reserve_direct (suc left) inode = do
  b ← reserve_block
  reserve_direct left
      (record inode { data0 = set inode.data0 inode.blocks b; blocks = inode.blocks + 1 })

-- for(; blocks < ...; blocks++) s_ind[blocks - 8] = reserve_block(), `left` rounds.
unfoldable pub reserve_indirect : ℕ → Inode → Bytes → M (Inode × Bytes)
unfolding store
reserve_indirect zero inode s_ind = pure (inode, s_ind)
reserve_indirect (suc left) inode s_ind = do
  defined (ltb (inode.blocks - 8) indirect_words)
  b ← reserve_block
  reserve_indirect left (record inode { blocks = inode.blocks + 1 })
      (store 4 s_ind (4 * (inode.blocks - 8)) b)

-- The first test of the two nested ones: direct blocks, while there are at most eight.
unfoldable pub grow_direct : Inode → ℕ → M Inode
unfolding reserve_direct
grow_direct inode blocks_needed =
    if leb inode.blocks 8
    then reserve_direct (min 8 blocks_needed - inode.blocks) inode
    else pure inode

-- The indirect block, new or read from the disk.
unfoldable pub open_indirect : Inode → M (Inode × Bytes)
open_indirect inode =
    if inode.data1 == 0
    then (do b ← reserve_block; pure (record inode { data1 = b }, zeros))
    else (do (_, s_ind) ← blk_read inode.data1 zeros; pure (inode, s_ind))

unfoldable pub grow_indirect : Inode → ℕ → M Inode
grow_indirect inode blocks_needed =
    if ltb inode.blocks blocks_needed
    then (do
      (inode', s_ind) ← open_indirect inode
      (inode'', s_ind') ← reserve_indirect (blocks_needed - inode'.blocks) inode' s_ind
      blk_write inode''.data1 s_ind'
      pure inode'')
    else pure inode

-- The results of reserve_block, 0 where the disk is full among them, are not tested.
unfoldable pub realloc_fs_blocks : Inode → ℕ → M Inode
realloc_fs_blocks inode blocks_needed =
    if ltb inode.blocks blocks_needed
    then (do inode' ← grow_direct inode blocks_needed; grow_indirect inode' blocks_needed)
    else pure inode
