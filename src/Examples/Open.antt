-- ===== src/Examples/Open.antt =====
-- Examples: files that are opened.
use cdnw_sh.Base.{ℕ, ◌≡◌, ◌≢◌, refl, some, codes, str_eq, c_string, arith}
use cdnw_sh.Sys.{Sys, DirPtr, ok, success}
use cdnw_sh.Inode.Table.{inode_at}
use cdnw_sh.Dir.Scan.{lookup_name}
use cdnw_sh.Mkfs.Fresh.{dir_inode}
use cdnw_sh.Mkfs.Dots.{dots}
use cdnw_sh.Mkfs.Fresh.{stamp}
use cdnw_sh.Base.{zero, suc, min, bytes_at, Bytes, ◌/◌, ◌*◌, ◌-◌, ◌%◌, ◌<◌}
use cdnw_sh.Params.{fd_read, fd_free, block_size}
use cdnw_sh.Mkfs.Fresh.{dir_inode, stamp, formatted, root-formatted}
use cdnw_sh.Inode.Table.{with_inode}
use cdnw_sh.FileData.File.{IsFile, block_number}
use cdnw_sh.Dir.Stat.{inode_named}
use cdnw_sh.Files.{cnread, cnclose}
use cdnw_sh.Files.Table.{IsTable}
use cdnw_sh.Files.Open.{IsLowest}
use cdnw_sh.Files.OpenRead.{CanOpen, cnopen-cnread}
use cdnw_sh.Base.{◌⊎◌}
use cdnw_sh.Params.{fd_write}
use cdnw_sh.Sys.{After}
use cdnw_sh.Frame.{fds}
use cdnw_sh.Files.{minus_one, cnopen}
use cdnw_sh.Files.Open.{Opens, cnopen-Opens}
use cdnw_sh.Transfer.Table.{cleared}
use cdnw_sh.Examples.Data.{device, disk, disk-IsFresh, root}
use cdnw_sh.Examples.Dirs.{here, rewound-dots, small-Fits}

cnopen-Opens_example :
    After
      (λ p t. ((p.0 ≡ minus_one) × (fds t ≡ fds device)) ⊎ Opens (fds device) (fds t) p.0 fd_write)
      (cnopen here (codes "new") fd_write device)
cnopen-Opens_example = cnopen-Opens here (codes "new") fd_write device cleared

-- "." of a new file system, opened as a file.
root_inode : inode_at disk 0 ≡ dir_inode (stamp device) 103
root_inode = root-formatted device refl

one_block : (k : ℕ) → k < 1 → block_number disk (dir_inode (stamp device) 103) k ≡ 103
one_block zero lt = refl
one_block (suc k) lt = absurd (omega arith)

root-IsFile : IsFile disk (dir_inode (stamp device) 103)
root-IsFile = record {
  on = disk-IsFresh.on;
  few = omega arith;
  range = λ k lt. omega (arith, one_block k lt);
  distinct = λ j k lj lk same. omega arith;
  data1_range = λ long. absurd (omega arith);
  data1_apart = λ long. absurd (omega arith);
}

dot_found : inode_named (codes ".") (dots 0 0) ≡ some 0
unfolding lookup_name c_string str_eq
dot_found = refl

disk-IsTable : IsTable (fds disk)
unfolding formatted with_inode
disk-IsTable = cleared

root-CanOpen : CanOpen disk root (codes ".") (dots 0 0) 0
unfolding formatted with_inode
root-CanOpen = record {
  listed = rewound-dots;
  named = dot_found;
  low = omega arith;
  fits = small-Fits 0;
  file = rw root_inode root-IsFile;
  blocks = rw root_inode (omega arith);
  table = disk-IsTable;
  spare = 5;
  spare_low = omega arith;
  spare_free = refl;
}

cnopen-cnread_example :
    (fd : ℕ) × (dir' : DirPtr) × (t u v : Sys) × (b : Bytes) × (cnopen root (codes ".") fd_read disk
      ≡ ok (fd, dir') t)
    × IsLowest (fds disk) fd
    × (cnread 12 fd t ≡ ok (bytes_at (min 12 ((inode_at disk 0).size - 1)) b 0) u)
    × ((p : ℕ)
        → p < (inode_at disk 0).blocks * block_size
        → b p ≡ disk.disk (block_number disk (inode_at disk 0) (p / block_size)) (p % block_size))
    × (cnclose fd u ≡ ok success v)
    × ((v.fd_tbl fd).state ≡ fd_free)
    × ((j : ℕ) → j ≢ fd → v.fd_tbl j ≡ disk.fd_tbl j)
    × IsTable (fds v)
    × (v.disk ≡ disk.disk)
cnopen-cnread_example =
    cnopen-cnread disk root (codes ".") (dots 0 0) 0 root-CanOpen 12 (rw root_inode (omega arith))
      (rw root_inode (omega arith)) (rw root_inode (omega arith))
