-- ===== src/Examples/Fds.antt =====
-- Examples: descriptors.
use cdnw_sh.Base.{
  ℕ, ◌+◌, ◌*◌, ◌<◌, ◌≡◌, ◌≢◌, refl, List, [], ◌++◌, codes, length, bytes_at, Outside, arith,
}
use cdnw_sh.Params.{fd_read, fd_write, block_size}
use cdnw_sh.Sys.{Sys, Inode, Buffer, ok, failure}
use cdnw_sh.Mkfs.Bitmaps.{free_blocks}
use cdnw_sh.Inode.{zero_inode}
use cdnw_sh.FileData.{llread, calloc_blocks}
use cdnw_sh.FileData.File.{block_number}
use cdnw_sh.Grow.{realloc_fs_blocks}
use cdnw_sh.Grow.Reserve.{Grown, realloc_fs_blocks-Grown}
use cdnw_sh.Sys.{success}
use cdnw_sh.Base.{bytes_at, ◌∷◌, []}
use cdnw_sh.Files.{cnseek, bytes_left, cnread, cnwrite}
use cdnw_sh.Files.Read.{IsReader, cnread-cnread}
use cdnw_sh.Files.Seek.{cnread-cnseek}
use cdnw_sh.Files.Write.{IsWriter, cnwrite-llread}
use cdnw_sh.Transfer.{export_text}
use cdnw_sh.Transfer.Export.{export_text_fails}
use cdnw_sh.Base.{get_or}
use cdnw_sh.Inode.{inode_read}
use cdnw_sh.Alloc.{IsAlloc}
use cdnw_sh.Alloc.Blocks.{next_block}
use cdnw_sh.Files.SeekClosed.{cnseek_closed}
use cdnw_sh.Examples.Dirs.{slow}
use cdnw_sh.Examples.Data.{device, device-IsAlloc, nine, nine-IsFile, nine_open}

nine-IsReader : IsReader (nine_open fd_read) 3 (calloc_blocks 9)
nine-IsReader = record {
  low = omega arith;
  reads = refl;
  cached = refl;
  small = omega arith;
  fits = omega arith;
  inside = omega arith;
}

cnread-cnread_example :
    (xs ys : List ℕ) × (t u : Sys) × (cnread 100 3 (nine_open fd_read) ≡ ok xs t)
    × (cnread 200 3 t ≡ ok ys u)
    × (cnread 300 3 (nine_open fd_read) ≡ ok (xs ++ ys) u)
    × (10 + length (xs ++ ys) < 33000)
cnread-cnread_example = cnread-cnread (nine_open fd_read) 3 100 200 (calloc_blocks 9) nine-IsReader

-- A file of one byte has nothing to read.
bytes_left_one : bytes_left 1 0 ≡ 0
unfolding bytes_left
bytes_left_one = refl

nine-IsWriter : IsWriter (nine_open fd_write) 3 (calloc_blocks 9)
nine-IsWriter = record {
  low = omega arith;
  writes = refl;
  cached = refl;
  small = omega arith;
  fits = omega arith;
  room = omega arith;
  file = nine-IsFile (nine_open fd_write) refl refl;
}

cnwrite-llread_example :
    (t : Sys) × (b : Buffer) × (cnwrite (codes "abc") 3 (nine_open fd_write) ≡ ok 3 t)
    × (llread nine (calloc_blocks 9) t ≡ ok b t)
    × (bytes_at 3 b.bytes 10 ≡ codes "abc")
    × ((p : ℕ) → p < 9 * block_size → Outside p 10 3 → b.bytes p ≡ 0)
    × ((l : ℕ) → ((k : ℕ) → k < 9 → block_number device nine k ≢ l) → t.disk l ≡ device.disk l)
cnwrite-llread_example =
    cnwrite-llread (nine_open fd_write) 3 (calloc_blocks 9) (codes "abc") nine-IsWriter
      (omega arith) (calloc_blocks 9) (omega arith) (omega arith)

realloc_fs_blocks-Grown_example :
    (t : Sys) × (inode' : Inode) × (realloc_fs_blocks zero_inode 2 device ≡ ok inode' t)
    × Grown device zero_inode 2 t inode'
realloc_fs_blocks-Grown_example =
    realloc_fs_blocks-Grown device zero_inode 2 device-IsAlloc (omega arith) (omega arith)
      (omega arith) (rw free_blocks (omega arith))

-- The file is open at its start.
abbrev at_start : Sys
at_start = record device { fd_tbl = λ i. record ((nine_open fd_read).fd_tbl 3) { cursor = 0 } }

at_start-IsReader : IsReader at_start 3 (calloc_blocks 9)
at_start-IsReader = record {
  low = omega arith;
  reads = refl;
  cached = refl;
  small = omega arith;
  fits = omega arith;
  inside = omega arith;
}

export_text_fails_example : (t : Sys) × (export_text 3 33000 length at_start ≡ ok (failure, []) t)
export_text_fails_example =
    export_text_fails at_start 3 (calloc_blocks 9) length at_start-IsReader refl

cnread-cnseek_example :
    (t u : Sys) × (cnseek 3 20 (nine_open fd_read) ≡ ok success t)
    × (cnread 4 3 t ≡ ok (0 ∷ 0 ∷ 0 ∷ 0 ∷ []) u)
unfolding bytes_at
cnread-cnseek_example =
    cnread-cnseek (nine_open fd_read) 3 20 4 (calloc_blocks 9) nine-IsReader (omega arith)
      (omega arith)

slow-IsAlloc : IsAlloc slow
slow-IsAlloc = record {
  on = refl;
  block_bytes = device-IsAlloc.block_bytes;
  inode_bytes = device-IsAlloc.inode_bytes;
  blocks = device-IsAlloc.blocks;
  inodes = device-IsAlloc.inodes;
}

cnseek_closed_example :
    (t : Sys) × (i : Inode) × (cnseek 5 100 slow ≡ ok success t)
    × (inode_read 0 t ≡ ok i t)
    × (i.type ≡ 0)
    × (i.size ≡ 100)
    × (get_or i.data0 0 0 ≡ next_block slow)
cnseek_closed_example =
    cnseek_closed slow 5 100 slow-IsAlloc (omega arith) refl (omega arith) (omega arith)
      (rw free_blocks (omega arith)) (λ n. omega arith)
