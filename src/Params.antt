-- ===== src/Params.antt =====
-- include/block.h, include/blockdev.h, include/fsparams.h and the constants of include/fs.h.
use cdnw_sh.Base.{ℕ, ◌+◌, ◌*◌, ◌/◌}

abbrev pub block_size : ℕ
block_size = 4096

abbrev pub bd_size_blocks : ℕ
bd_size_blocks = 25600

abbrev pub fs_magic : ℕ
fs_magic = 0xcd5e

abbrev pub fs_valid : ℕ
fs_valid = 1

abbrev pub fs_error : ℕ
fs_error = 2

abbrev pub inode_size : ℕ
inode_size = 64

abbrev pub inode_count : ℕ
inode_count = bd_size_blocks / 4

abbrev pub inode_table_blocks : ℕ
inode_table_blocks = inode_count * inode_size / block_size

abbrev pub inodes_in_block : ℕ
inodes_in_block = block_size / inode_size

abbrev pub blockid_super : ℕ
blockid_super = 0

abbrev pub blockid_block_bitmap : ℕ
blockid_block_bitmap = 1

abbrev pub blockid_inode_bitmap : ℕ
blockid_inode_bitmap = 2

abbrev pub blockid_inode_table : ℕ
blockid_inode_table = 3

abbrev pub blockid_root_dir : ℕ
blockid_root_dir = blockid_inode_table + inode_table_blocks

abbrev pub itype_file : ℕ
itype_file = 0

abbrev pub itype_dir : ℕ
itype_dir = 1

abbrev pub max_fd : ℕ
max_fd = 1024

abbrev pub fd_free : ℕ
fd_free = 0

abbrev pub fd_read : ℕ
fd_read = 1

abbrev pub fd_write : ℕ
fd_write = 2

abbrev pub vfs_blank : ℕ
vfs_blank = 0

abbrev pub vfs_good : ℕ
vfs_good = 1
