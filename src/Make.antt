-- ===== src/Make.antt =====
-- src/fs.c: mkdir, rmdir and creat, which change directories on the disk.
pub mod Append
pub mod Parent
pub mod Creat
pub mod Mkdir
pub mod Nested
pub mod First
use cdnw_sh.Base.{
  ℕ, zero, suc, ◌+◌, ◌*◌, ◌%◌, ◌^◌, Bool, ltb, leb, ◌==◌, if◌then◌else◌, Option, none, some, List,
  [], ◌∷◌, ◌++◌, codes, length, get_or, set, load, str_eq, c_string, path_tokens,
}
use cdnw_sh.Params.{itype_file, itype_dir}
use cdnw_sh.Sys.{
  Sys, Inode, Buffer, DirPtr, M, Code, success, failure, undefined, out_of_fuel, pure, halt, gets,
  defined, time, ◌>>=◌, ◌>>◌,
}
use cdnw_sh.Blockdev.{blk_write}
use cdnw_sh.Alloc.{reserve_inode, reserve_block, release_inode, release_block}
use cdnw_sh.Inode.{zero_inode, inode_read, inode_write}
use cdnw_sh.FileData.{calloc_blocks, block_of, llread, llwrite}
use cdnw_sh.Entry.{Entry, put_entry, get_entry, padded_len}
use cdnw_sh.Mkfs.{dot_entries}
use cdnw_sh.Dir.{
  cnreaddir, raw_name, entry_inode, find_entry, scan_fuel, cnopendir, cwd_inode, cnstat,
}

-- The entry for a name, stored in the buffer at the index, where the buffer has the room; and the
-- inode of the directory, grown by it.
unfoldable pub append_entry : DirPtr → ℕ → ℕ → List ℕ → M DirPtr
unfolding padded_len put_entry
append_entry dir inode file_type name = do
  let entry_len = padded_len (length name % 256) % 2 ^ 16
  defined (leb (dir.index + 8 + length name) dir.buf.cap)
  let entry : Entry = record {
    inode = inode;
    entry_len = entry_len;
    name_len = length name % 256;
    file_type = file_type;
    name = name;
  }
  pure (record dir {
    inode_st = record dir.inode_st { size = (dir.inode_st.size + entry_len) % 2 ^ 32 };
    buf = record dir.buf { bytes = put_entry dir.buf.bytes dir.index entry };
  })

-- The parent's inode and its first block are written back.
unfoldable pub write_parent : DirPtr → M DirPtr
unfolding block_of
write_parent dir = do
  now ← time
  let dir' : DirPtr = record dir { inode_st = record dir.inode_st { modified = now } }
  inode_write dir'.inode_id dir'.inode_st
  blk_write (get_or dir'.inode_st.data0 0 0) dir'.buf.bytes
  pure dir'

-- The branch of cnmkdir for the last token.
unfoldable pub make_dir : DirPtr → List ℕ → M Code
unfolding dot_entries
make_dir dir name_tok = do
  inode ← reserve_inode
  dir' ← append_entry dir inode itype_dir name_tok
  write_parent dir'
  now ← time
  data_block ← reserve_block
  let new_dir_i : Inode = record zero_inode {
    modified = now % 2 ^ 32;
    type = itype_dir;
    size = 12 + 12;
    blocks = 1;
    data0 = set zero_inode.data0 0 data_block;
  }
  inode_write inode new_dir_i
  blk_write data_block (dot_entries inode dir'.inode_id)
  pure success

-- One round of the loop of cnmkdir reads the directory and looks for the token.
unfoldable pub mkdir_look : Inode → ℕ → List ℕ → M (Option ℕ × DirPtr)
mkdir_look inode_st inode_id name_tok = do
  defined (ltb (length name_tok) 256)
  buf ← llread inode_st (calloc_blocks inode_st.blocks)
  let dir : DirPtr = record { inode_st = inode_st; inode_id = inode_id; index = 0; buf = buf }
  find_entry (scan_fuel dir) dir name_tok

-- Where the next round starts: in the entry's inode, or, where there is no such entry, in the
-- directory that was searched.
unfoldable pub mkdir_descend : Option ℕ → DirPtr → M (Inode × ℕ)
mkdir_descend none dir = pure (dir.inode_st, dir.inode_id)
mkdir_descend (some off) dir = do
  inode_st ← inode_read (entry_inode dir off)
  pure (inode_st, entry_inode dir off)

-- After the last token: it is there already, or it is made.
unfoldable pub mkdir_last : Option ℕ → DirPtr → List ℕ → M Code
mkdir_last none dir name_tok = make_dir dir name_tok
mkdir_last (some off) dir name_tok = pure failure

-- The loop of cnmkdir over the tokens from name_tok on. strtok returned NULL at once: strcpy from
-- NULL.
unfoldable pub mkdir_path : Inode → ℕ → List (List ℕ) → M Code
unfolding mkdir_last
mkdir_path inode_st inode_id [] = halt undefined
mkdir_path inode_st inode_id (name_tok ∷ []) = do
  (entry, dir) ← mkdir_look inode_st inode_id name_tok
  mkdir_last entry dir name_tok
mkdir_path inode_st inode_id (name_tok ∷ t ∷ ts) = do
  (entry, dir) ← mkdir_look inode_st inode_id name_tok
  (inode_st', inode_id') ← mkdir_descend entry dir
  mkdir_path inode_st' inode_id' (t ∷ ts)

unfoldable pub cnmkdir : List ℕ → M Code
cnmkdir name = do
  inode_id ← cwd_inode
  inode_st ← inode_read inode_id
  mkdir_path inode_st inode_id (path_tokens name)

-- An entry other than the one to remove is copied to the end of the new directory.
unfoldable pub keep_entry : DirPtr → ℕ → DirPtr → M DirPtr
unfolding get_entry put_entry
keep_entry parent off new_parent = do
  let entry = get_entry parent.buf.bytes off
  defined (leb (new_parent.index + 8 + length entry.name) new_parent.buf.cap)
  pure (record new_parent {
    inode_st = record new_parent.inode_st {
      size = (new_parent.inode_st.size + entry.entry_len) % 2 ^ 32;
    };
    index = (new_parent.index + entry.entry_len) % 2 ^ 32;
    buf = record new_parent.buf { bytes = put_entry new_parent.buf.bytes new_parent.index entry };
  })

-- The entry to remove: its directory must be empty, and its block and inode are released.
unfoldable pub drop_entry : ℕ → M Code
drop_entry inode = do
  dir_inode ← inode_read inode
  if dir_inode.size == 24
      then (do release_block (get_or dir_inode.data0 0 0); release_inode inode; pure success)
      else pure failure

-- The loop of cnrmdir; none where the directory to remove is not empty.
unfoldable pub rmdir_scan : ℕ → DirPtr → List ℕ → DirPtr → M (Option DirPtr)
rmdir_scan zero parent name new_parent = halt out_of_fuel
rmdir_scan (suc fuel) parent name new_parent = do
  (entry, parent') ← cnreaddir parent
  elim entry [
    | none ↦ pure (some new_parent)
    | some off ↦ do
      raw ← raw_name parent' off
      if str_eq (c_string raw) name
          then (do
            code ← drop_entry (entry_inode parent' off)
            elim code [ success ↦ rmdir_scan fuel parent' name new_parent | failure ↦ pure none ])
          else (do
            new_parent' ← keep_entry parent' off new_parent
            rmdir_scan fuel parent' name new_parent')
  ]

-- Where the parent cannot be opened, the error path tests `new_parent`, which is not yet
-- initialised.
unfoldable pub cnrmdir : List ℕ → M Code
cnrmdir name = do
  opened ← cnopendir (name ++ codes "/..")
  elim opened [
    | none ↦ halt undefined
    | some parent ↦ do
      let empty : DirPtr = record parent {
        inode_st = record parent.inode_st { size = 0 };
        index = 0;
        buf = calloc_blocks parent.inode_st.blocks;
      }
      copied ← rmdir_scan (scan_fuel parent) parent name empty
      elim copied [
        | none ↦ pure failure
        | some new_parent ↦ do
          inode_write new_parent.inode_id new_parent.inode_st
          llwrite new_parent.inode_st new_parent.buf
          pure success
      ]
  ]

-- The part of cncreat behind the check. The result of reserve_inode is not tested.
unfoldable pub create_file : DirPtr → List ℕ → M DirPtr
create_file dir name = do
  inode ← reserve_inode
  dir' ← append_entry dir inode itype_file name
  dir'' ← write_parent dir'
  now ← time
  inode_write inode (record zero_inode { modified = now % 2 ^ 32; type = itype_file })
  pure dir''

-- The directory is the caller's, and comes back changed.
unfoldable pub cncreat : DirPtr → List ℕ → M (Code × DirPtr)
cncreat dir name = do
  (found, dir') ← cnstat dir name
  elim found [
    | some _ ↦ pure (failure, dir')
    | none ↦ do dir'' ← create_file dir' name; pure (success, dir'')
  ]
