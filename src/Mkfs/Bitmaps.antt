-- ===== src/Mkfs/Bitmaps.antt =====
-- The bitmaps of an empty file system against the free counts of its superblock.
use cdnw_sh.Base.{
  ℕ, zero, suc, ◌+◌, ◌%◌, ◌≡◌, refl, true, false, ◌&&◌, ltb, leb, min, if◌then◌else◌, Bytes,
  IsBytes, zeros, load, arith,
}
use cdnw_sh.Params.{bd_size_blocks, inode_count, inode_table_blocks}
use cdnw_sh.Bitmap.{read_bitmap, set_bitmap}
use cdnw_sh.Bitmap.Byte.{empty_byte}
use cdnw_sh.Bitmap.Laws.{read-set, set-IsBytes}
use cdnw_sh.Bitmap.Count.{used}
use cdnw_sh.Alloc.{free_inode_count_at, free_block_count_at}
use cdnw_sh.Mkfs.{set_range, superblock, block_bitmap, inode_bitmap}

pub zeros-IsBytes : IsBytes zeros
zeros-IsBytes i = omega arith

pub read-zeros : (k : ℕ) → read_bitmap zeros k ≡ false
unfolding read_bitmap
read-zeros k = empty_byte (k % 8) (omega arith)

set_range-IsBytes : (left i : ℕ) (bm : Bytes) → IsBytes bm → IsBytes (set_range left i bm)
unfolding set_range
set_range-IsBytes zero i bm h = h
set_range-IsBytes (suc left) i bm h =
    set_range-IsBytes left (i + 1) (set_bitmap bm i) (set-IsBytes bm h i)

-- Exactly the bits of the range are set in addition.
read-set_range :
    (left i : ℕ) (bm : Bytes) (k : ℕ)
    → IsBytes bm
    → read_bitmap (set_range left i bm) k
      ≡ (if leb i k && ltb k (i + left) then true else read_bitmap bm k)
unfolding set_range
read-set_range zero i bm k h = ground arith
read-set_range (suc left) i bm k h =
    ground (
      arith,
      read-set_range left (i + 1) (set_bitmap bm i) k (set-IsBytes bm h i),
      read-set bm h i k,
    )

-- A map with the first m bits set, and no other.
abbrev pub OnlyBelow : ℕ → Bytes → Type 0
OnlyBelow m bm = (k : ℕ) → read_bitmap bm k ≡ ltb k m

used-OnlyBelow : (m : ℕ) (bm : Bytes) (n : ℕ) → OnlyBelow m bm → used n bm ≡ min n m
unfolding used
used-OnlyBelow m bm zero h = omega arith
used-OnlyBelow m bm (suc n) h = ground (arith, h n, used-OnlyBelow m bm n h)

abbrev reserved : Bytes
reserved = set_bitmap (set_bitmap (set_bitmap zeros 0) 1) 2

reserved-IsBytes : IsBytes reserved
reserved-IsBytes = set-IsBytes _ (set-IsBytes _ (set-IsBytes zeros zeros-IsBytes 0) 1) 2

pub block_bitmap-IsBytes : IsBytes block_bitmap
unfolding block_bitmap
block_bitmap-IsBytes =
    set-IsBytes _ (set_range-IsBytes inode_table_blocks 3 reserved reserved-IsBytes) 103

-- The blocks in use are the superblock, the bitmaps, the inode table and the root directory.
pub block_bitmap-OnlyBelow : OnlyBelow 104 block_bitmap
unfolding block_bitmap
block_bitmap-OnlyBelow k = ground (
  arith,
  read-set (set_range inode_table_blocks 3 reserved)
      (set_range-IsBytes inode_table_blocks 3 reserved reserved-IsBytes) 103 k,
  read-set_range inode_table_blocks 3 reserved k reserved-IsBytes,
  read-set (set_bitmap (set_bitmap zeros 0) 1) (set-IsBytes _ (set-IsBytes zeros zeros-IsBytes 0) 1)
      2 k,
  read-set (set_bitmap zeros 0) (set-IsBytes zeros zeros-IsBytes 0) 1 k,
  read-set zeros zeros-IsBytes 0 k,
  read-zeros k,
)

pub inode_bitmap-IsBytes : IsBytes inode_bitmap
unfolding inode_bitmap
inode_bitmap-IsBytes = set-IsBytes zeros zeros-IsBytes 0

pub inode_bitmap-OnlyBelow : OnlyBelow 1 inode_bitmap
unfolding inode_bitmap
inode_bitmap-OnlyBelow k = ground (arith, read-set zeros zeros-IsBytes 0 k, read-zeros k)

pub free_blocks : load 4 superblock free_block_count_at ≡ 25496
unfolding superblock load
free_blocks = refl

pub free_inodes : load 4 superblock free_inode_count_at ≡ 6399
unfolding superblock load
free_inodes = refl

-- The free counts that superblock_init stores are the numbers of clear bits in the bitmaps that
-- block_bitmap_init and inode_bitmap_init store.
pub counts_agree :
    (used bd_size_blocks block_bitmap + load 4 superblock free_block_count_at ≡ bd_size_blocks)
    × (used inode_count inode_bitmap + load 4 superblock free_inode_count_at ≡ inode_count)
counts_agree = (
  omega (arith, used-OnlyBelow 104 block_bitmap bd_size_blocks block_bitmap-OnlyBelow, free_blocks),
  omega (arith, used-OnlyBelow 1 inode_bitmap inode_count inode_bitmap-OnlyBelow, free_inodes),
)
