-- ===== src/Dir.antt =====
-- src/fs.c: directories in memory, path resolution, and the commands that only read them.
pub mod Scan
pub mod Stat
pub mod Path
pub mod Resolve
pub mod Small
pub mod Component
use mathlib.Core.Option
use cdnw_sh.Base.{
  ℕ, zero, suc, ◌+◌, ◌*◌, ◌%◌, ◌^◌, Bool, true, false, ltb, leb, ◌==◌, if◌then◌else◌, Option, none,
  some, List, [], ◌∷◌, ◌++◌, codes, length, load, bytes_at, str_eq, c_string, path_tokens,
}
use cdnw_sh.Params.{inode_count}
use cdnw_sh.Sys.{
  Sys, Inode, Buffer, DirPtr, M, Code, success, failure, undefined, out_of_fuel, pure, halt, gets,
  modify, defined, ◌>>=◌, ◌>>◌,
}
use cdnw_sh.Inode.{inode_read}
use cdnw_sh.FileData.{calloc_blocks, llread}

-- cnreaddir: the offset of the entry at the index, with the index moved behind it; none at the end.
unfoldable pub cnreaddir : DirPtr → M (Option ℕ × DirPtr)
cnreaddir dir = if leb dir.inode_st.size dir.index then pure (none, dir) else do
  defined (leb (dir.index + 6) dir.buf.cap)
  let entry_len = load 2 dir.buf.bytes (dir.index + 4)
  pure (some dir.index, record dir { index = (dir.index + entry_len) % 2 ^ 32 })

unfoldable pub cnrewinddir : DirPtr → DirPtr
cnrewinddir dir = record dir { index = 0 }

-- The bytes of an entry's name, as the memcpy to `entry_name` takes them.
unfoldable pub raw_name : DirPtr → ℕ → M (List ℕ)
raw_name dir off = do
  defined (leb (off + 8) dir.buf.cap)
  let name_len = load 1 dir.buf.bytes (off + 6)
  defined (leb (off + 8 + name_len) dir.buf.cap)
  pure (bytes_at name_len dir.buf.bytes (off + 8))

-- entry_name, closed by a NUL: a string ends at its first NUL.
unfoldable pub entry_name : DirPtr → ℕ → M (List ℕ)
unfolding c_string
entry_name dir off = do raw ← raw_name dir off; pure (c_string raw)

abbrev pub entry_inode : DirPtr → ℕ → ℕ
entry_inode dir off = load 4 dir.buf.bytes off

-- while((entry = cnreaddir(dir))) { ... if(strcmp(entry_name, name) == 0) break; }
-- The entry found, and the directory where the loop left it. An entry_len of 0 makes the loop
-- endless: the fuel runs out.
unfoldable pub find_entry : ℕ → DirPtr → List ℕ → M (Option ℕ × DirPtr)
find_entry zero dir name = halt out_of_fuel
find_entry (suc fuel) dir name = do
  (entry, dir') ← cnreaddir dir
  elim entry [
    | none ↦ pure (none, dir')
    | some off ↦ do
      found ← entry_name dir' off
      if str_eq found name then pure (some off, dir') else find_entry fuel dir' name
  ]

-- Every entry is at least one byte long where the loop ends, so one round for each byte is enough.
abbrev pub scan_fuel : DirPtr → ℕ
scan_fuel dir = suc dir.inode_st.size

unfoldable pub inflatedir : ℕ → M DirPtr
inflatedir inode_id = do
  inode_st ← inode_read inode_id
  buf ← llread inode_st (calloc_blocks inode_st.blocks)
  pure (record { inode_st = inode_st; inode_id = inode_id; index = 0; buf = buf })

-- The result of looking one token up: the inode that was loaded last, and the directory.
abbrev Step : Type 0
Step = ℕ × DirPtr

-- The inner loop of cnopendir for one token.
unfoldable pub enter : ℕ → DirPtr → List ℕ → M Step
enter loaded_inode dir name_tok = do
  (entry, dir') ← find_entry (scan_fuel dir) dir name_tok
  elim entry [
    | none ↦ pure (loaded_inode, dir')
    | some off ↦ do
      let inode = entry_inode dir' off
      new_dir ← inflatedir inode
      pure (inode, new_dir)
  ]

-- The outer loop over the tokens that are left. The check compares with the inode that was loaded
-- last, be it for this token or for an earlier one.
unfoldable pub open_path : ℕ → DirPtr → List (List ℕ) → M (Option DirPtr)
open_path loaded_inode dir [] = pure (some dir)
open_path loaded_inode dir (name_tok ∷ rest) = do
  (loaded', dir') ← enter loaded_inode dir name_tok
  if dir'.inode_id == loaded' then open_path loaded' dir' rest else pure none

-- strtok returned NULL at once: strcmp(entry_name, NULL) at the first entry, if there is one.
unfoldable pub open_no_token : DirPtr → M (Option DirPtr)
open_no_token dir = do
  (entry, _) ← cnreaddir dir
  elim entry [ none ↦ pure none | some _ ↦ halt undefined ]

unfoldable pub open_tokens : DirPtr → List (List ℕ) → M (Option DirPtr)
unfolding open_no_token
open_tokens dir [] = open_no_token dir
open_tokens dir (t ∷ ts) = open_path (inode_count + 1) dir (t ∷ ts)

is_absolute : List ℕ → Bool
is_absolute [] = false
is_absolute (c ∷ cs) = c == b'/'

-- The inode of the current directory; cwd is dereferenced.
unfoldable pub cwd_inode : M ℕ
cwd_inode = do
  cwd ← gets (λ s. s.cwd)
  elim cwd [ none ↦ halt undefined | some dir ↦ pure dir.inode_id ]

-- `name` is copied to 256 bytes first.
unfoldable pub cnopendir : List ℕ → M (Option DirPtr)
unfolding open_tokens is_absolute
cnopendir name = do
  defined (ltb (length name) 256)
  let name_copy = if length name == 0 then codes "." else name
  start ← (if is_absolute name then pure 0 else cwd_inode)
  dir ← inflatedir start
  if str_eq name (codes "/") then pure (some dir) else open_tokens dir (path_tokens name_copy)

unfoldable pub cncd : List ℕ → M Code
cncd name = do
  new_cwd ← cnopendir name
  elim new_cwd [
    | none ↦ pure failure
    | some dir ↦ do
      defined (ltb (length name) 1024)
      modify (λ s. record s { cwd_str = name; cwd = some dir })
      pure success
  ]

-- The text that pwd copies out.
unfoldable pub cnpwd : M (List ℕ)
cnpwd = gets (λ s. s.cwd_str)

-- What ls appends for the entries that are left: each name, cut at a NUL, and a newline.
unfoldable pub list_names : ℕ → DirPtr → List ℕ → M (List ℕ)
list_names zero dir text = halt out_of_fuel
list_names (suc fuel) dir text = do
  (entry, dir') ← cnreaddir dir
  elim entry [
    | none ↦ pure text
    | some off ↦ do name ← entry_name dir' off; list_names fuel dir' (text ++ name ++ 10 ∷ [])
  ]

-- The text that ls appends to the caller's buffer, or none for -1.
unfoldable pub cnls : List ℕ → M (Option (List ℕ))
cnls name = do
  defined (ltb (length name) 256)
  let name_copy = if length name == 0 then codes "." else name
  opened ← cnopendir name_copy
  elim opened [
    | none ↦ pure none
    | some dir ↦ do text ← list_names (scan_fuel dir) dir []; pure (some text)
  ]

-- cnstat: the inode that the entry names, or none for -1.
unfoldable pub cnstat : DirPtr → List ℕ → M (Option ℕ × DirPtr)
cnstat dir name = do
  let rewound = cnrewinddir dir
  (entry, dir') ← find_entry (scan_fuel rewound) rewound name
  pure (Option.map (entry_inode dir') entry, dir')
