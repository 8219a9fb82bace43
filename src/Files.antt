-- ===== src/Files.antt =====
-- src/fs.c: the file descriptors. An int16_t is given by its bits; -1 is 65535.
pub mod Table
pub mod Calls
pub mod Open
pub mod OpenRead
pub mod Reopen
pub mod Read
pub mod Seek
pub mod SeekClosed
pub mod Write
use cdnw_sh.Base.{
  ℕ, zero, suc, ◌+◌, ◌-◌, ◌*◌, ◌/◌, ◌%◌, ◌^◌, Bool, ltb, leb, ◌==◌, ◌||◌, if◌then◌else◌, Option,
  none, some, List, [], ◌∷◌, length, codes, Bytes, load, bytes_at, put_bytes,
}
use cdnw_sh.Params.{block_size, max_fd, fd_free, fd_read, fd_write}
use cdnw_sh.Sys.{
  Sys, Inode, Buffer, DirPtr, Cache, null, dangling, live, FdEntry, M, Code, success, failure,
  undefined, pure, halt, gets, modify, defined, time, ◌>>=◌, ◌>>◌,
}
use cdnw_sh.Bitmap.{find_byte, find_free_bit, set_bitmap, clear_bitmap}
use cdnw_sh.Inode.{inode_read, inode_write}
use cdnw_sh.FileData.{calloc_blocks, llread, llwrite}
use cdnw_sh.Grow.{buffer_of, realloc_cache, realloc_fs_blocks}
use cdnw_sh.Dir.{cnopendir, cnstat}
use cdnw_sh.Make.{cncreat}

abbrev pub minus_one : ℕ
minus_one = 2 ^ 16 - 1

-- fd_tbl[fd] = fde
unfoldable pub update_fd : (ℕ → FdEntry) → ℕ → FdEntry → ℕ → FdEntry
update_fd tbl fd fde i = if i == fd then fde else tbl i

-- fd_tbl[fd], which is in the table or not there at all.
unfoldable pub get_fd : ℕ → M FdEntry
get_fd fd = do defined (ltb fd max_fd); gets (λ s. s.fd_tbl fd)

unfoldable pub set_fd : ℕ → FdEntry → M (Unit {0})
unfolding update_fd
set_fd fd fde = modify (λ s. record s { fd_tbl = update_fd s.fd_tbl fd fde })

-- find_free_bit on fd_bm, an array of 128 bytes: the scan must stop inside it.
unfoldable pub free_fd : M ℕ
free_fd = do
  stops_at ← gets (λ s. find_byte block_size s.fd_bm 0)
  defined (ltb stops_at (max_fd / 8))
  gets (λ s. find_free_bit s.fd_bm)

-- The data of a file that is opened: NULL for one with no block.
unfoldable pub load_cache : Inode → M Cache
load_cache inode =
    if ltb 0 inode.blocks
    then (do buf ← llread inode (calloc_blocks inode.blocks); pure (live buf))
    else pure null

-- The part of cnopen behind the stat.
unfoldable pub open_inode : ℕ → ℕ → M ℕ
open_inode inode_id mode = do
  fd ← free_fd
  modify (λ s. record s { fd_bm = set_bitmap s.fd_bm fd })
  inode ← inode_read inode_id
  cache ← load_cache inode
  set_fd fd (record { cache = cache; state = mode; inode_id = inode_id; inode = inode; cursor = 0 })
  pure fd

-- The inode for the name: a missing file is created in the write mode, and looked up again.
unfoldable pub stat_or_creat : DirPtr → List ℕ → ℕ → M (Option ℕ × DirPtr)
stat_or_creat dir name mode = do
  (found, dir') ← cnstat dir name
  elim found [
    | some inode ↦ pure (some inode, dir')
    | none ↦
        if mode == fd_write
        then (do
          (code, dir'') ← cncreat dir' name
          elim code [ success ↦ cnstat dir'' name | failure ↦ pure (none, dir'') ])
        else cnstat dir' name
  ]

-- The directory is the caller's, and comes back changed.
unfoldable pub cnopen : DirPtr → List ℕ → ℕ → M (ℕ × DirPtr)
cnopen dir name mode = do
  (found, dir') ← stat_or_creat dir name mode
  elim found [
    | none ↦ pure (minus_one, dir')
    | some inode ↦ do fd ← open_inode inode mode; pure (fd, dir')
  ]

-- The pointer to the freed data stays in the table.
abbrev pub freed : Cache → Cache
freed null = null
freed dangling = dangling
freed (live buf) = dangling

unfoldable pub cnclose : ℕ → M Code
cnclose fd = do
  fde ← get_fd fd
  if fde.state == fd_free then pure failure else do
    modify (λ s. record s { fd_bm = clear_bitmap s.fd_bm fd })
    set_fd fd (record fde { cache = freed fde.cache; state = fd_free })
    pure success

-- size - (cursor + 1) in 32-bit arithmetic: what cnread takes for the bytes that are left.
unfoldable pub bytes_left : ℕ → ℕ → ℕ
bytes_left size cursor = (size + 2 ^ 32 - (cursor + 1) % 2 ^ 32) % 2 ^ 32

-- The bytes read; their number is the result of cnread.
unfoldable pub cnread : ℕ → ℕ → M (List ℕ)
unfolding bytes_left bytes_at
cnread bytes fd = do
  fde ← get_fd fd
  if fde.state == fd_read
      then (do
        let left = bytes_left fde.inode.size fde.cursor
        let bytes_to_read = if ltb left bytes then left else bytes
        let buf = buffer_of fde.cache
        defined (leb bytes_to_read 0 || leb (fde.cursor + bytes_to_read) buf.cap)
        set_fd fd (record fde { cursor = (fde.cursor + bytes_to_read) % 2 ^ 32 })
        pure (bytes_at bytes_to_read buf.bytes fde.cursor))
      else pure []

unfoldable pub grow_blocks : Inode → ℕ → M Inode
grow_blocks inode required_blocks =
    if ltb inode.blocks required_blocks then realloc_fs_blocks inode required_blocks else pure inode

-- The branch that cnseek and cnwrite share: a larger cache, size and block list, written back.
unfoldable pub expand : FdEntry → ℕ → M FdEntry
expand fde required_size = do
  let required_blocks = required_size / block_size + 1
  new_data ← realloc_cache fde.cache fde.inode.size required_blocks
  inode ← grow_blocks (record fde.inode { size = required_size }) required_blocks
  now ← time
  let inode' : Inode = record inode { modified = now }
  inode_write fde.inode_id inode'
  pure (record fde { cache = live new_data; inode = inode' })

-- The room is computed from the cursor, and the cursor is then set to the offset itself.
unfoldable pub cnseek : ℕ → ℕ → M Code
cnseek fd offset = do
  fde ← get_fd fd
  let required_size = (fde.cursor + offset) % 2 ^ 32
  fde' ← (if ltb fde.inode.size required_size then expand fde required_size else pure fde)
  set_fd fd (record fde' { cursor = offset })
  pure success

unfoldable pub written : Cache → ℕ → List ℕ → Cache
unfolding put_bytes
written null cursor bytes = null
written dangling cursor bytes = dangling
written (live buf) cursor bytes = live (record buf { bytes = put_bytes buf.bytes cursor bytes })

-- The bytes are copied into the cache behind the cursor.
unfoldable pub write_cache : FdEntry → List ℕ → M FdEntry
unfolding written
write_cache fde bytes = do
  let buf = buffer_of fde.cache
  defined (leb (length bytes) 0 || leb (fde.cursor + length bytes) buf.cap)
  pure (record fde {
    cache = written fde.cache fde.cursor bytes;
    cursor = (fde.cursor + length bytes) % 2 ^ 32;
  })

-- The result is the number of bytes written.
unfoldable pub cnwrite : List ℕ → ℕ → M ℕ
cnwrite bytes fd = do
  fde ← get_fd fd
  if fde.state == fd_write
      then (do
        let required_size = (fde.cursor + length bytes) % 2 ^ 32
        fde' ← (if ltb fde.inode.size required_size then expand fde required_size else pure fde)
        fde'' ← write_cache fde' bytes
        set_fd fd fde''
        llwrite fde''.inode (buffer_of fde''.cache)
        pure (length bytes))
      else pure 0
