-- ===== src/Make/Creat.antt =====
-- cncreat in a directory that has the room for the entry.
use cdnw_sh.Base.{ℕ, suc, ◌%◌, ◌^◌, List}
use cdnw_sh.Params.{itype_file}
use cdnw_sh.Sys.{Sys, Inode, DirPtr}
use cdnw_sh.Inode.{zero_inode}
use cdnw_sh.Inode.Table.{with_inode}
use cdnw_sh.Alloc.Inodes.{next_inode}
use cdnw_sh.Entry.{Entry}
use cdnw_sh.Make.Parent.{HasRoom, grown, with_entry}

-- The inode of an empty file.
abbrev pub file_inode : ℕ → Inode
file_inode now = record zero_inode { modified = now % 2 ^ 32; type = itype_file }

module _ (s : Sys) (dir : DirPtr) (name : List ℕ) (es : List Entry)
    (h : HasRoom s dir name es) where
  abbrev new : ℕ
  new = next_inode s

  abbrev made : DirPtr
  made = grown s dir itype_file name

  -- The state when only the new inode is left to write, and the time that it gets.
  abbrev parent_done : Sys
  parent_done = let t = with_entry s dir itype_file name in record t { calls = suc t.calls }

  abbrev now : ℕ
  now = (with_entry s dir itype_file name).clock (with_entry s dir itype_file name).calls

  abbrev created : Sys
  created = with_inode parent_done new (file_inode now)
