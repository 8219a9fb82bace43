-- ===== src/Examples/Reopen.antt =====
-- Examples: a file that is written and opened again.
use cdnw_sh.Base.{zeros, set}
use cdnw_sh.Params.{fd_write}
use cdnw_sh.Sys.{Sys, Inode, FdEntry, live}
use cdnw_sh.Inode.{zero_inode}
use cdnw_sh.Inode.Table.{with_inode}
use cdnw_sh.Bitmap.{set_bitmap}
use cdnw_sh.FileData.{calloc_blocks}
use cdnw_sh.Mount.{zero_fd}
use cdnw_sh.Files.{update_fd}
use cdnw_sh.Examples.Data.{device}

-- A file of 100 bytes in block 110.
abbrev short : Inode
short = record zero_inode { size = 100; blocks = 1; data0 = set zero_inode.data0 0 110 }

-- It is open as descriptor 3.
abbrev open_entry : FdEntry
open_entry = record {
  cache = live (calloc_blocks 1);
  state = fd_write;
  inode_id = 0;
  inode = short;
  cursor = 0;
}

abbrev with_open : Sys
with_open = record (with_inode device 0 short) {
  fd_tbl = update_fd (λ i. zero_fd) 3 open_entry;
  fd_bm = set_bitmap zeros 3;
}
