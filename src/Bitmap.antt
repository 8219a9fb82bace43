-- ===== src/Bitmap.antt =====
-- src/bitmap.c: bitmaps over one block of memory, a bit to each block or inode of the disk.
pub mod Byte
pub mod Laws
pub mod Find
pub mod Count
use cdnw_sh.Base.{
  ℕ, zero, suc, ◌+◌, ◌-◌, ◌*◌, ◌/◌, ◌%◌, ◌^◌, bit_and, bit_or, Bool, not, ltb, ◌==◌, if◌then◌else◌,
  Bytes, store8,
}
use cdnw_sh.Params.{block_size}

-- `byte & (1 << offset)`, as a truth value.
unfoldable pub test_bit : ℕ → ℕ → Bool
test_bit byte offset = not (bit_and byte (2 ^ offset) == 0)

unfoldable pub read_bitmap : Bytes → ℕ → Bool
unfolding test_bit
read_bitmap blk index = test_bit (blk (index / 8)) (index % 8)

unfoldable pub set_bitmap : Bytes → ℕ → Bytes
unfolding store8
set_bitmap blk index =
    let mask = 2 ^ (index % 8) in store8 blk (index / 8) (bit_or (blk (index / 8)) mask)

-- `~(1 << offset)`, cut to a byte, is 255 less the bit. The byte must lie in the block: the callers
-- mark as undefined an index that they take from elsewhere.
unfoldable pub clear_bitmap : Bytes → ℕ → Bytes
unfolding store8
clear_bitmap blk index =
    let mask = 255 - 2 ^ (index % 8) in store8 blk (index / 8) (bit_and (blk (index / 8)) mask)

-- The first loop of find_free_bit, with `left` bytes to go: the first byte that is not 0xFF, or
-- `block_size`.
unfoldable pub find_byte : ℕ → Bytes → ℕ → ℕ
find_byte zero blk ptr = ptr
find_byte (suc left) blk ptr =
    let next = find_byte left blk (ptr + 1) in if blk ptr == 255 then next else ptr

-- The second loop: the first clear bit of the byte, with `left` of its eight bits to go.
unfoldable pub find_offset : ℕ → ℕ → ℕ → ℕ
unfolding test_bit
find_offset zero byte offset = offset
find_offset (suc left) byte offset =
    let next = find_offset left byte (offset + 1) in if test_bit byte offset then next else offset

unfoldable pub find_free_bit : Bytes → ℕ
find_free_bit blk =
    let ptr = find_byte block_size blk 0 in
    if ptr == block_size then 0 else ptr * 8 + find_offset 8 (blk ptr) 0
