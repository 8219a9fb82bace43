-- ===== src/FileData.antt =====
-- src/fs.c: llread and llwrite, which move a whole file between its blocks and a buffer.
pub mod Loops
pub mod Effect
pub mod File
pub mod RoundTrip
use cdnw_sh.Base.{
  ℕ, zero, suc, ◌+◌, ◌-◌, ◌*◌, min, ltb, leb, if◌then◌else◌, get_or, Bytes, zeros, load, copy,
}
use cdnw_sh.Params.{block_size}
use cdnw_sh.Sys.{Inode, Buffer, M, Code, success, pure, defined, ◌>>=◌, ◌>>◌}
use cdnw_sh.Blockdev.{blk_read, blk_write}

-- The words of an indirect block, and the most blocks that a file can have.
abbrev pub indirect_words : ℕ
indirect_words = 1024

abbrev pub max_blocks : ℕ
max_blocks = 8 + indirect_words

-- calloc(n, sizeof(block))
abbrev pub calloc_blocks : ℕ → Buffer
calloc_blocks n = record { cap = n * block_size; bytes = zeros }

-- Block i of a buffer, and a buffer with block i overwritten.
unfoldable pub block_of : Bytes → ℕ → Bytes
block_of buf i j = buf (i * block_size + j)

unfoldable pub put_block : Bytes → ℕ → Bytes → Bytes
unfolding copy
put_block buf i blk = copy block_size buf (i * block_size) blk 0

-- Block numbers: of the eight direct blocks, and of those that an indirect block lists.
abbrev pub direct : Inode → ℕ → ℕ
direct inode i = get_or inode.data0 i 0

abbrev pub indirect : Bytes → ℕ → ℕ
indirect s_ind i = load 4 s_ind (4 * (i - 8))

-- A loop that reads blocks i, i + 1, ... of a file, `left` of them; their numbers are `ids`, an
-- array that ends at `bound`.
unfoldable pub read_blocks : (ℕ → ℕ) → ℕ → ℕ → ℕ → Buffer → M Buffer
read_blocks ids bound zero i buf = pure buf
read_blocks ids bound (suc left) i buf = do
  defined (ltb i bound)
  defined (leb ((i + 1) * block_size) buf.cap)
  (_, blk) ← blk_read (ids i) (block_of buf.bytes i)
  read_blocks ids bound left (i + 1) (record buf { bytes = put_block buf.bytes i blk })

unfoldable pub write_blocks : (ℕ → ℕ) → ℕ → ℕ → ℕ → Buffer → M (Unit {0})
write_blocks ids bound zero i buf = pure tt
write_blocks ids bound (suc left) i buf = do
  defined (ltb i bound)
  defined (leb ((i + 1) * block_size) buf.cap)
  blk_write (ids i) (block_of buf.bytes i)
  write_blocks ids bound left (i + 1) buf

-- The buffer is returned.
unfoldable pub llread : Inode → Buffer → M Buffer
llread inode buf = do
  buf' ← read_blocks (direct inode) 8 (min inode.blocks 8) 0 buf
  if ltb 8 inode.blocks
      then (do
        (_, s_ind) ← blk_read inode.data1 zeros
        read_blocks (indirect s_ind) max_blocks (inode.blocks - 8) 8 buf')
      else pure buf'

unfoldable pub llwrite : Inode → Buffer → M Code
llwrite inode buf = do
  write_blocks (direct inode) 8 (min inode.blocks 8) 0 buf
  if ltb 8 inode.blocks
      then (do
        (_, s_ind) ← blk_read inode.data1 zeros
        write_blocks (indirect s_ind) max_blocks (inode.blocks - 8) 8 buf
        pure success)
      else pure success
