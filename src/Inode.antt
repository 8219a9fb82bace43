-- ===== src/Inode.antt =====
-- include/inode.h and src/inode.c: inodes as structs in the blocks of the inode table.
pub mod Fields
pub mod Layout
pub mod Table
use cdnw_sh.Base.{
  ℕ, ◌+◌, ◌*◌, ◌/◌, ◌%◌, ◌<◌, ◌^◌, ◌≡◌, leb, List, [], ◌∷◌, length, All, Bytes, load, load_words,
  store_words, replicate,
}
use cdnw_sh.Params.{block_size, inodes_in_block, blockid_inode_table}
use cdnw_sh.Sys.{Sys, Abi, ilp32, lp64, Inode, M, Code, pure, gets, defined, ◌>>=◌, ◌>>◌}
use cdnw_sh.Blockdev.{blk_read, blk_write}
use Fields.{put_fields}

-- The offset and the width of `modified`: time_t is a long, aligned to its own size.
unfoldable pub modified_at : Abi → ℕ
modified_at ilp32 = 12
modified_at lp64 = 16

unfoldable pub modified_width : Abi → ℕ
modified_width ilp32 = 4
modified_width lp64 = 8

unfoldable pub data0_at : Abi → ℕ
unfolding modified_at modified_width
data0_at abi = modified_at abi + modified_width abi

-- sizeof(inode): 60 under ILP32 and 72 under LP64, where the struct is padded to a multiple of 8.
unfoldable pub sizeof_inode : Abi → ℕ
sizeof_inode ilp32 = 60
sizeof_inode lp64 = 72

-- The scalar members, as offset, width and value.
abbrev pub fields : Abi → Inode → List (ℕ × ℕ × ℕ)
fields abi i =
    (0, 1, i.type)
    ∷ (4, 4, i.size)
    ∷ (8, 4, i.blocks)
    ∷ (modified_at abi, modified_width abi, i.modified)
    ∷ (data0_at abi + 32, 4, i.data1)
    ∷ (data0_at abi + 36, 4, i.data2)
    ∷ (data0_at abi + 40, 3, i.padding)
    ∷ []

-- memcpy of an inode to offset p, and from there. The bytes between the members, which no code
-- reads, stay as they were.
unfoldable pub put_inode : Abi → Bytes → ℕ → Inode → Bytes
unfolding put_fields store_words
put_inode abi b p i = store_words (put_fields b p (fields abi i)) (p + data0_at abi) i.data0

unfoldable pub get_inode : Abi → Bytes → ℕ → Inode
unfolding load load_words
get_inode abi b p = record {
  type = load 1 b (p + 0);
  size = load 4 b (p + 4);
  blocks = load 4 b (p + 8);
  modified = load (modified_width abi) b (p + modified_at abi);
  data0 = load_words 8 b (p + data0_at abi);
  data1 = load 4 b (p + (data0_at abi + 32));
  data2 = load 4 b (p + (data0_at abi + 36));
  padding = load 3 b (p + (data0_at abi + 40));
}

-- memset(&i, 0, sizeof(inode))
abbrev pub zero_inode : Inode
zero_inode = record {
  type = 0;
  size = 0;
  blocks = 0;
  modified = 0;
  data0 = replicate 8 0;
  data1 = 0;
  data2 = 0;
  padding = 0;
}

-- Every member is in the range of its C type.
pub record IsInode (abi : Abi) (i : Inode) : Type 0 where
  pub type_fits : i.type < 256
  pub size_fits : i.size < 2 ^ 32
  pub blocks_fits : i.blocks < 2 ^ 32
  pub modified_fits : i.modified < 256 ^ modified_width abi
  pub eight : length i.data0 ≡ 8
  pub data0_fits : All (λ w. w < 2 ^ 32) i.data0
  pub data1_fits : i.data1 < 2 ^ 32
  pub data2_fits : i.data2 < 2 ^ 32
  pub padding_fits : i.padding < 2 ^ 24

unfoldable pub find_inode_table_blockid : ℕ → ℕ
find_inode_table_blockid index = index / inodes_in_block

unfoldable pub inode_lba : ℕ → ℕ
unfolding find_inode_table_blockid
inode_lba index = blockid_inode_table + find_inode_table_blockid index

-- Where the struct stands in its block, and whether it ends inside the 4096 bytes of the buffer.
unfoldable pub inode_offset : Abi → ℕ → ℕ
unfolding sizeof_inode
inode_offset abi index = index % inodes_in_block * sizeof_inode abi

abbrev pub Fits : Abi → ℕ → Type 0
Fits abi index = inode_offset abi index + sizeof_inode abi < block_size + 1

unfoldable pub inode_write : ℕ → Inode → M Code
inode_write index inode_st = do
  abi ← gets (λ s. s.abi)
  garbage ← gets (λ s. s.garbage)
  (_, inode_blk) ← blk_read (inode_lba index) garbage
  defined (leb (inode_offset abi index + sizeof_inode abi) block_size)
  blk_write (inode_lba index) (put_inode abi inode_blk (inode_offset abi index) inode_st)
  pure Code.success

unfoldable pub inode_read : ℕ → M Inode
inode_read index = do
  abi ← gets (λ s. s.abi)
  garbage ← gets (λ s. s.garbage)
  (_, inode_blk) ← blk_read (inode_lba index) garbage
  defined (leb (inode_offset abi index + sizeof_inode abi) block_size)
  pure (get_inode abi inode_blk (inode_offset abi index))
