-- ===== src/Examples/Disk.antt =====
-- Examples: blocks, bitmaps, inodes, and files on the disk.
use cdnw_sh.Base.{
  ℕ, ◌+◌, ◌*◌, ◌≤◌, ◌<◌, ◌≡◌, ◌≢◌, refl, inl, true, false, ◌==◌, if◌then◌else◌, Bytes, zeros, arith,
}
use cdnw_sh.Params.{bd_size_blocks, block_size, vfs_good, fd_free, inode_count}
use cdnw_sh.Sys.{Sys, ilp32, lp64, Inode, Buffer, DirPtr, ok, stop, undefined, success, ◌>>◌}
use cdnw_sh.Blockdev.{blk_read, blk_write}
use cdnw_sh.Blockdev.Laws.{with_block, access_range}
use cdnw_sh.Bitmap.{read_bitmap, find_free_bit}
use cdnw_sh.Bitmap.Byte.{full_byte}
use cdnw_sh.Base.{◌-◌, some, ◌%◌, ◌⊎◌}
use cdnw_sh.Dir.Scan.{IsListing}
use cdnw_sh.Mkfs.Bitmaps.{inode_bitmap-OnlyBelow}
use cdnw_sh.Mkfs.{inode_bitmap}
use cdnw_sh.Inode.{IsInode}
use cdnw_sh.Inode.Table.{Fits-iff, inode_read-inode_write, inode_overflow, with_inode, inode_at}
use cdnw_sh.Bitmap.Find.{find_free_bit-least}
use cdnw_sh.Mkfs.{block_bitmap, cnmkfs}
use cdnw_sh.Mkfs.Bitmaps.{block_bitmap-IsBytes, block_bitmap-OnlyBelow, free_blocks, free_inodes}
use cdnw_sh.Alloc.{
  IsAlloc, free_block_count, free_inode_count, reserve_block, release_block, reserve_inode,
  release_inode,
}
use cdnw_sh.Inode.{Fits, inode_read, inode_write, modified_width}
use cdnw_sh.Alloc.{magic_at}
use cdnw_sh.Params.{fs_magic}
use cdnw_sh.Sys.{modify}
use cdnw_sh.Base.{load}
use cdnw_sh.Mkfs.{superblock}
use cdnw_sh.Mount.Remount.{cnumount-read_metadata}
use cdnw_sh.Mount.{cnmount, cnumount, read_metadata, check_magic}
use cdnw_sh.Mount.Ready.{cnmkfs-cnmount}
use cdnw_sh.Mkfs.Dots.{dots}
use cdnw_sh.Alloc.Blocks.{
  reserve_block-ok, release_block-ok, next_block, reserved_block, released_block,
}
use cdnw_sh.Alloc.Inodes.{
  reserve_inode-ok, release_inode-ok, next_inode, reserved_inode, released_inode,
}
use cdnw_sh.FileData.{llread, llwrite, calloc_blocks}
use cdnw_sh.FileData.RoundTrip.{llread-llwrite}
use cdnw_sh.FileData.File.{IsFile, block_number}
use cdnw_sh.Examples.Data.{filler, device, device-IsAlloc, nine, nine-IsFile}

access_range_example :
    (blk_read 7 zeros device ≡ ok (success, device.disk 7) device)
    × (blk_write 7 zeros device ≡ ok success (with_block device 7 zeros))
access_range_example = access_range device 7 zeros refl

access_range_end_example :
    (blk_read 25600 zeros device ≡ stop undefined) × (blk_write 25600 zeros device ≡ stop undefined)
access_range_end_example = access_range device 25600 zeros refl

find_free_bit-least_example :
    (read_bitmap block_bitmap (find_free_bit block_bitmap) ≡ false)
    × (find_free_bit block_bitmap ≤ 104)
    × ((j : ℕ) → j < find_free_bit block_bitmap → read_bitmap block_bitmap j ≡ true)
find_free_bit-least_example =
    find_free_bit-least block_bitmap block_bitmap-IsBytes 104 (omega arith)
      (block_bitmap-OnlyBelow 104)

abbrev full : Bytes
full i = 255

read-full : (k : ℕ) → read_bitmap full k ≡ true
unfolding read_bitmap
read-full k = full_byte (k % 8) (omega arith)

cnmkfs-cnmount_example :
    (s' : Sys) × (dir : DirPtr) × ((cnmkfs >> cnmount) device ≡ ok success s')
    × (s'.fs_state ≡ vfs_good)
    × IsAlloc s'
    × (s'.cwd ≡ some dir)
    × (dir.inode_id ≡ 0)
    × IsListing dir (dots 0 0)
    × ((fd : ℕ) → (s'.fd_tbl fd).state ≡ fd_free)
cnmkfs-cnmount_example = cnmkfs-cnmount device refl

some_blocks : 0 < free_block_count device
some_blocks = rw free_blocks (omega arith)

some_inodes : 0 < free_inode_count device
some_inodes = rw free_inodes (omega arith)

reserve_block-ok_example :
    (reserve_block device ≡ ok (next_block device) (reserved_block device))
    × (next_block device < bd_size_blocks)
    × (read_bitmap block_bitmap (next_block device) ≡ false)
    × ((j : ℕ) → j < next_block device → read_bitmap block_bitmap j ≡ true)
    × ((j : ℕ)
        → read_bitmap (reserved_block device).block_bm_cache j
          ≡ (if j == next_block device then true else read_bitmap block_bitmap j))
    × (free_block_count (reserved_block device) ≡ free_block_count device - 1)
    × IsAlloc (reserved_block device)
reserve_block-ok_example = reserve_block-ok device device-IsAlloc some_blocks

release_block-ok_example :
    (release_block 50 device ≡ ok tt (released_block device 50))
    × ((j : ℕ)
        → read_bitmap (released_block device 50).block_bm_cache j
          ≡ (if j == 50 then false else read_bitmap block_bitmap j))
    × (free_block_count (released_block device 50) ≡ free_block_count device + 1)
    × IsAlloc (released_block device 50)
release_block-ok_example =
    release_block-ok device device-IsAlloc 50 (omega arith) (block_bitmap-OnlyBelow 50)

reserve_inode-ok_example :
    (reserve_inode device ≡ ok (next_inode device) (reserved_inode device))
    × (next_inode device < inode_count)
    × (read_bitmap inode_bitmap (next_inode device) ≡ false)
    × ((j : ℕ) → j < next_inode device → read_bitmap inode_bitmap j ≡ true)
    × ((j : ℕ)
        → read_bitmap (reserved_inode device).inode_bm_cache j
          ≡ (if j == next_inode device then true else read_bitmap inode_bitmap j))
    × (free_inode_count (reserved_inode device) ≡ free_inode_count device - 1)
    × IsAlloc (reserved_inode device)
reserve_inode-ok_example = reserve_inode-ok device device-IsAlloc some_inodes

release_inode-ok_example :
    (release_inode 0 device ≡ ok tt (released_inode device 0))
    × ((j : ℕ)
        → read_bitmap (released_inode device 0).inode_bm_cache j
          ≡ (if j == 0 then false else read_bitmap inode_bitmap j))
    × (free_inode_count (released_inode device 0) ≡ free_inode_count device + 1)
    × IsAlloc (released_inode device 0)
release_inode-ok_example =
    release_inode-ok device device-IsAlloc 0 (omega arith) (inode_bitmap-OnlyBelow 0)

abbrev nine_inode : Inode
nine_inode = record nine { modified = 77 }

nine-IsInode : IsInode ilp32 nine_inode
unfolding modified_width
nine-IsInode = omega arith

all_fit : (index : ℕ) → Fits ilp32 index
all_fit index = (Fits-iff ilp32 index).1 (inl refl)

inode_read-inode_write_example :
    (t : Sys) × (before : Inode) × (inode_read 5 device ≡ ok before device)
    × (inode_write 5 nine_inode device ≡ ok success t)
    × (inode_read 5 t ≡ ok nine_inode t)
inode_read-inode_write_example =
    inode_read-inode_write device 5 5 nine_inode refl (omega arith) (omega arith) (all_fit 5)
      (all_fit 5) nine-IsInode

-- The last inode of a block, on a 64-bit machine.
abbrev wide_device : Sys
wide_device = record device { abi = lp64 }

inode_overflow_example :
    (((wide_device.abi ≡ ilp32) ⊎ (63 < 56))
      × (inode_write 63 nine_inode wide_device ≡ ok success (with_inode wide_device 63 nine_inode))
      × (inode_read 63 wide_device ≡ ok (inode_at wide_device 63) wide_device))
    ⊎ ((wide_device.abi ≡ lp64)
        × (56 ≤ 63)
        × (inode_write 63 nine_inode wide_device ≡ stop undefined)
        × (inode_read 63 wide_device ≡ stop undefined))
inode_overflow_example = inode_overflow wide_device 63 nine_inode refl (omega arith)

llread-llwrite_example :
    (s' : Sys) × (b : Buffer) × (llwrite nine (record (calloc_blocks 9) { bytes = λ j. j }) device
      ≡ ok success s')
    × (llread nine (calloc_blocks 9) s' ≡ ok b s')
    × ((p : ℕ) → p < 9 * block_size → b.bytes p ≡ p)
    × ((l : ℕ) → ((k : ℕ) → k < 9 → block_number device nine k ≢ l) → s'.disk l ≡ device.disk l)
    × IsFile s' nine
llread-llwrite_example =
    llread-llwrite device nine (record (calloc_blocks 9) { bytes = λ j. j }) (calloc_blocks 9)
      (nine-IsFile device refl refl) (omega arith) (omega arith)

device_magic : load 2 device.superblk_cache magic_at ≡ fs_magic
unfolding load superblock
device_magic = refl

cnumount-read_metadata_example :
    (t u : Sys) × (cnumount device ≡ ok success t)
    × ((read_metadata >> modify check_magic) t ≡ ok tt u)
    × (u.fs_state ≡ vfs_good)
    × (u.block_bm_cache ≡ block_bitmap)
    × (u.inode_bm_cache ≡ inode_bitmap)
    × (free_block_count u ≡ free_block_count device)
    × (free_inode_count u ≡ free_inode_count device)
    × ((l : ℕ) → 2 < l → u.disk l ≡ filler)
    × IsAlloc u
cnumount-read_metadata_example = cnumount-read_metadata device device-IsAlloc refl device_magic
