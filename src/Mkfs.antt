-- ===== src/Mkfs.antt =====
-- src/fs.c: cnmkfs writes an empty file system onto the block device.
pub mod Dots
pub mod Bitmaps
pub mod Fresh
use cdnw_sh.Base.{
  ℕ, zero, suc, ◌+◌, ◌-◌, ◌%◌, ◌^◌, List, [], ◌∷◌, Bytes, codes, zeros, store, length, set,
}
use cdnw_sh.Params.{
  bd_size_blocks, inode_count, inode_table_blocks, fs_magic, fs_valid, blockid_super,
  blockid_block_bitmap, blockid_inode_bitmap, blockid_inode_table, blockid_root_dir, itype_dir,
}
use cdnw_sh.Sys.{Sys, Inode, M, Code, success, pure, time, ◌>>=◌, ◌>>◌}
use cdnw_sh.Bitmap.{set_bitmap}
use cdnw_sh.Blockdev.{blk_write}
use cdnw_sh.Alloc.{
  inode_count_at, block_count_at, free_inode_count_at, free_block_count_at, magic_at, state_at,
}
use cdnw_sh.Inode.{zero_inode, inode_write}
use cdnw_sh.Inode.Fields.{put_fields}
use cdnw_sh.Entry.{Entry, put_entry}

-- The superblock that superblock_init builds.
unfoldable pub superblock : Bytes
unfolding put_fields
superblock = put_fields zeros 0 (
    (inode_count_at, 4, inode_count)
    ∷ (block_count_at, 4, bd_size_blocks)
    ∷ (free_inode_count_at, 4, inode_count - 1)
    ∷ (free_block_count_at, 4, bd_size_blocks - 4 - inode_table_blocks)
    ∷ (magic_at, 2, fs_magic)
    ∷ (state_at, 2, fs_valid)
    ∷ [])

unfoldable pub superblock_init : M (Unit {0})
superblock_init = blk_write blockid_super superblock >> pure tt

-- set_bitmap of the bits from i on, `left` of them.
unfoldable pub set_range : ℕ → ℕ → Bytes → Bytes
set_range zero i bm = bm
set_range (suc left) i bm = set_range left (i + 1) (set_bitmap bm i)

-- The bitmap that block_bitmap_init builds.
unfoldable pub block_bitmap : Bytes
block_bitmap =
    let reserved =
      set_bitmap (set_bitmap (set_bitmap zeros blockid_super) blockid_block_bitmap)
        blockid_inode_bitmap in
    set_bitmap (set_range inode_table_blocks blockid_inode_table reserved)
      (inode_table_blocks + blockid_inode_table)

unfoldable pub block_bitmap_init : M (Unit {0})
block_bitmap_init = blk_write blockid_block_bitmap block_bitmap >> pure tt

unfoldable pub inode_bitmap : Bytes
inode_bitmap = set_bitmap zeros 0

unfoldable pub inode_bitmap_init : M (Unit {0})
inode_bitmap_init = blk_write blockid_inode_bitmap inode_bitmap >> pure tt

abbrev pub dot_entry : ℕ → List ℕ → Entry
dot_entry inode name = record {
  inode = inode;
  entry_len = 12;
  name_len = length name;
  file_type = itype_dir;
  name = name;
}

-- The entries "." and ".." of a new directory.
unfoldable pub dot_entries : ℕ → ℕ → Bytes
unfolding put_entry
dot_entries self parent =
    put_entry (put_entry zeros 0 (dot_entry self (codes "."))) 12 (dot_entry parent (codes ".."))

unfoldable pub write_root_dir : M (Unit {0})
write_root_dir = do
  t ← time
  let now = t % 2 ^ 32
  let root_i : Inode = record zero_inode {
    modified = now;
    type = itype_dir;
    size = 12 + 12;
    blocks = 1;
    data0 = set zero_inode.data0 0 blockid_root_dir;
  }
  inode_write 0 root_i
  blk_write blockid_root_dir (dot_entries 0 0)
  pure tt

unfoldable pub cnmkfs : M Code
cnmkfs = do superblock_init; block_bitmap_init; inode_bitmap_init; write_root_dir; pure success
