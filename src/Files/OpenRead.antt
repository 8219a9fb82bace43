-- ===== src/Files/OpenRead.antt =====
-- A file is opened, read and closed.
use mathlib.Core.Path.{subst}
use cdnw_sh.Base.{
  ℕ, ◌-◌, ◌*◌, ◌/◌, ◌%◌, ◌^◌, ◌≤◌, ◌<◌, ◌≡◌, ◌≢◌, refl, ap, ◌∙◌, false, lt→ltb, ==_refl, ne→not-==,
  ◌==◌, some, List, Bytes, zeros, min, bytes_at, arith,
}
use cdnw_sh.Params.{block_size, inode_count, max_fd, fd_free, fd_read}
use cdnw_sh.Sys.{Sys, FdEntry, DirPtr, Buffer, live, ok, success, After}
use cdnw_sh.Bitmap.{read_bitmap, set_bitmap, clear_bitmap, find_free_bit, find_byte}
use cdnw_sh.Bitmap.Find.{stops_before}
use cdnw_sh.Inode.{Fits}
use cdnw_sh.Inode.Table.{inode_at, inode_read-ok}
use cdnw_sh.FileData.{calloc_blocks}
use cdnw_sh.FileData.RoundTrip.{loaded-byte}
use cdnw_sh.FileData.File.{block_number, IsFile, loaded, llread-loaded}
use cdnw_sh.Entry.{Entry}
use cdnw_sh.Dir.{cnrewinddir}
use cdnw_sh.Dir.Scan.{IsListing, find_in}
use cdnw_sh.Dir.Stat.{inode_named, cnstat-lookup}
use cdnw_sh.Frame.{fds, Gives}
use cdnw_sh.Files.{
  update_fd, get_fd, freed, free_fd, set_fd, load_cache, open_inode, stat_or_creat, cnopen, cnread,
  cnclose,
}
use cdnw_sh.Files.Table.{IsTable, cnclose-IsTable}
use cdnw_sh.Files.Calls.{Is, cnopen-IsTable, cnread-IsTable}
use cdnw_sh.Files.Open.{IsLowest, free_fd-Gives}
use cdnw_sh.Files.Read.{IsReader, read_count, moved, cnread-ok, moved-entry}

-- The file that a directory has under a name, with a descriptor free for it.
pub record CanOpen (s : Sys) (dir : DirPtr) (name : List ℕ) (es : List Entry) (id : ℕ)
    : Type 0 where
  pub listed : IsListing (cnrewinddir dir) es
  pub named : inode_named name es ≡ some id
  pub low : id < inode_count
  pub fits : Fits s.abi id
  pub file : IsFile s (inode_at s id)
  pub blocks : 0 < (inode_at s id).blocks
  pub table : IsTable (fds s)
  pub spare : ℕ
  pub spare_low : spare < max_fd
  pub spare_free : (s.fd_tbl spare).state ≡ fd_free

module _ (s : Sys) (dir : DirPtr) (name : List ℕ) (es : List Entry) (id : ℕ)
    (h : CanOpen s dir name es id) (mode : ℕ) where
  abbrev fd : ℕ
  fd = find_free_bit s.fd_bm

  abbrev marked : Sys
  marked = record s { fd_bm = set_bitmap s.fd_bm fd }

  abbrev buf : Buffer
  buf = record { cap = (inode_at s id).blocks * block_size; bytes = loaded s (inode_at s id) zeros }

  abbrev opened_entry : FdEntry
  opened_entry = record {
    cache = live buf;
    state = mode;
    inode_id = id;
    inode = inode_at s id;
    cursor = 0;
  }

  abbrev opened : Sys
  opened = record marked { fd_tbl = update_fd s.fd_tbl fd opened_entry }

  spare_clear : read_bitmap s.fd_bm h.spare ≡ false
  spare_clear = ground (arith, h.table.agree h.spare h.spare_low, h.spare_free)

  free_fd-ok : free_fd s ≡ ok fd s
  unfolding free_fd
  free_fd-ok =
      rw
        (lt→ltb (find_byte block_size s.fd_bm 0) (max_fd / 8) (
          stops_before s.fd_bm h.table.bytes (max_fd / 8) h.spare (omega (arith, h.spare_low))
            spare_clear))
        refl

  marked-IsFile : IsFile marked (inode_at s id)
  marked-IsFile = record {
    on = h.file.on;
    few = h.file.few;
    range = h.file.range;
    distinct = h.file.distinct;
    data1_range = h.file.data1_range;
    data1_apart = h.file.data1_apart;
  }

  inode_at-marked : inode_at marked id ≡ inode_at s id
  unfolding inode_at
  inode_at-marked = refl

  loaded-marked : loaded marked (inode_at s id) zeros ≡ loaded s (inode_at s id) zeros
  unfolding loaded
  loaded-marked = refl

  cnopen-ok : cnopen dir name mode s ≡ ok (fd, record dir { index = (find_in name es 0).1 }) opened
  unfolding cnopen stat_or_creat open_inode load_cache set_fd
  cnopen-ok =
      rw
        (
          cnstat-lookup s dir name es h.listed,
          h.named,
          free_fd-ok,
          inode_read-ok marked h.file.on id h.low h.fits,
          inode_at-marked,
          lt→ltb 0 (inode_at s id).blocks h.blocks,
          llread-loaded marked (inode_at s id) marked-IsFile (calloc_blocks (inode_at s id).blocks)
              (omega arith),
          loaded-marked,
        )
        refl

unfoldable pub closed : Sys → ℕ → Sys
unfolding update_fd
closed s fd = record s {
  fd_tbl =
      update_fd s.fd_tbl fd
        (record (s.fd_tbl fd) { cache = freed (s.fd_tbl fd).cache; state = fd_free });
  fd_bm = clear_bitmap s.fd_bm fd;
}

cnclose-ok :
    (s : Sys) (fd : ℕ)
    → fd < max_fd
    → ((s.fd_tbl fd).state == fd_free) ≡ false
    → cnclose fd s ≡ ok success (closed s fd)
unfolding cnclose get_fd set_fd closed
cnclose-ok s fd low in_use = rw (lt→ltb fd max_fd low, in_use) refl

module _ (s : Sys) (dir : DirPtr) (name : List ℕ) (es : List Entry) (id : ℕ)
    (h : CanOpen s dir name es id) (n : ℕ) (some_byte : 0 < (inode_at s id).size)
    (fits : (inode_at s id).size ≤ (inode_at s id).blocks * block_size)
    (small : (inode_at s id).size < 2 ^ 32) where
  abbrev got : ℕ
  got = fd s dir name es id h fd_read

  abbrev t : Sys
  t = opened s dir name es id h fd_read

  abbrev u : Sys
  u = moved t got n

  lowest : IsLowest (fds s) got
  lowest =
      (subst (Gives (Is (fds s)) (IsLowest (fds s))) (free_fd-ok s dir name es id h fd_read)
        (free_fd-Gives s h.table)).given.1

  t-entry : t.fd_tbl got ≡ opened_entry s dir name es id h fd_read
  unfolding update_fd
  t-entry = rw (==_refl got) refl

  t-IsReader : IsReader t got (buf s dir name es id h fd_read)
  t-IsReader = record {
    low = lowest.low;
    reads = rw t-entry refl;
    cached = rw t-entry refl;
    small = rw t-entry small;
    fits = rw t-entry fits;
    inside = rw t-entry some_byte;
  }

  t-IsTable : IsTable (fds t)
  t-IsTable =
      subst (After (λ _ x. IsTable (fds x))) (cnopen-ok s dir name es id h fd_read)
        (cnopen-IsTable dir name fd_read s refl h.table).kept

  u-IsTable : IsTable (fds u)
  u-IsTable =
      subst (After (λ _ x. IsTable (fds x))) (cnread-ok t got n _ t-IsReader)
        (cnread-IsTable n got t t-IsTable).kept

  u-entry : (u.fd_tbl got).state == fd_free ≡ false
  u-entry = rw (moved-entry t got n, t-entry) refl

  v-IsTable : IsTable (fds (closed u got))
  v-IsTable =
      subst (After (λ _ x. IsTable (fds x))) (cnclose-ok u got lowest.low u-entry)
        (cnclose-IsTable got u u-IsTable).kept

  others : (j : ℕ) → j ≢ got → (closed u got).fd_tbl j ≡ s.fd_tbl j
  unfolding closed moved update_fd
  others j ne = rw (ne→not-== j got ne) refl

  freed_state : ((closed u got).fd_tbl got).state ≡ fd_free
  unfolding closed update_fd
  freed_state = rw (==_refl got) refl

  same_disk : (closed u got).disk ≡ s.disk
  unfolding closed moved
  same_disk = refl

  cnread-opened :
      cnread n got t
      ≡ ok (bytes_at (min n ((inode_at s id).size - 1)) (loaded s (inode_at s id) zeros) 0) u
  unfolding read_count
  cnread-opened =
      let size = (inode_at s id).size in
      let at_start : size - 0 ≡ size = omega arith in
      cnread-ok t got n (buf s dir name es id h fd_read) t-IsReader
      ∙ ap
          (λ (e : FdEntry).
            ok (bytes_at (read_count e n) (loaded s (inode_at s id) zeros) e.cursor) u)
          t-entry
      ∙ ap (λ k. ok (bytes_at (min n (k - 1)) (loaded s (inode_at s id) zeros) 0) u) at_start

  -- On an attached device, where the table agrees with its bitmap and a descriptor is free; where
  -- the directory lists its entries, and under the name an inode of the table whose struct ends
  -- inside its block; where that file has at least one block and at most as many as an inode can
  -- number, all on the device, distinct and apart from its block of indices, if it has one, which
  -- is on the device too; and where its size is above 0, below 2^32, and at most that of its
  -- blocks: cnopen of its name for reading succeeds, with the lowest free descriptor; cnread of n
  -- bytes then returns the first n of the file's blocks on the disk, but never the last byte of the
  -- file; and cnclose succeeds. Behind it the descriptor is free again, every other one is as it
  -- was, the table agrees with the bitmap, and the disk is unchanged.
  pub cnopen-cnread :
      (fd : ℕ) × (dir' : DirPtr) × (t u v : Sys) × (b : Bytes) × (cnopen dir name fd_read s
        ≡ ok (fd, dir') t)
      × IsLowest (fds s) fd
      × (cnread n fd t ≡ ok (bytes_at (min n ((inode_at s id).size - 1)) b 0) u)
      × ((p : ℕ)
          → p < (inode_at s id).blocks * block_size
          → b p ≡ s.disk (block_number s (inode_at s id) (p / block_size)) (p % block_size))
      × (cnclose fd u ≡ ok success v)
      × ((v.fd_tbl fd).state ≡ fd_free)
      × ((j : ℕ) → j ≢ fd → v.fd_tbl j ≡ s.fd_tbl j)
      × IsTable (fds v)
      × (v.disk ≡ s.disk)
  cnopen-cnread = (
    got,
    record dir { index = (find_in name es 0).1 },
    t,
    u,
    closed u got,
    loaded s (inode_at s id) zeros,
    cnopen-ok s dir name es id h fd_read,
    lowest,
    cnread-opened,
    λ p lt. loaded-byte s (inode_at s id) h.file zeros p (omega arith),
    cnclose-ok u got lowest.low u-entry,
    freed_state,
    others,
    v-IsTable,
    same_disk,
  )
