-- ===== src/Files/Reopen.antt =====
-- A file is written, opened again under its name, and read.
use cdnw_sh.Base.{ℕ, ◌*◌, ◌<◌, ◌≡◌, ◌≢◌, List, length, All}
use cdnw_sh.Params.{block_size}
use cdnw_sh.Sys.{Sys, Inode, DirPtr, Buffer, Run, stop, ok}
use cdnw_sh.Inode.{inode_lba}
use cdnw_sh.Inode.Table.{inode_at}
use cdnw_sh.FileData.{calloc_blocks, llread}
use cdnw_sh.FileData.File.{block_number, IsFile, stored}
use cdnw_sh.Entry.{Entry}
use cdnw_sh.Files.OpenRead.{CanOpen}
use cdnw_sh.Files.Write.{IsWriter, filled, entered}

-- The state behind a run, and the result in front of it.
abbrev behind : {A : Type 0} → Sys → Run A → Sys
behind s (ok a t) = t
behind s (stop r) = s

abbrev result : {A : Type 0} → A → Run A → A
result d (ok a t) = a
result d (stop r) = d

module _ (s : Sys) (fd : ℕ) (buf : Buffer) (bytes : List ℕ) (h : IsWriter s fd buf) (dir : DirPtr)
    (name : List ℕ) (es : List Entry) (id : ℕ) (can : CanOpen s dir name es id)
    (same : inode_at s id ≡ (s.fd_tbl fd).inode)
    (apart : (k : ℕ)
      → k < (s.fd_tbl fd).inode.blocks
      → block_number s (s.fd_tbl fd).inode k ≢ inode_lba id)
    (start : (s.fd_tbl fd).cursor ≡ 0) (inside : length bytes < (s.fd_tbl fd).inode.size)
    (small : All (λ c. c < 256) bytes) where
  abbrev inode : Inode
  inode = (s.fd_tbl fd).inode

  abbrev before : Sys
  before = entered s fd buf bytes

  abbrev t : Sys
  t = stored before inode (filled s fd buf bytes).bytes

  -- What the blocks hold then.
  abbrev Holds : Sys → Type 0
  Holds u =
      (b : Buffer) × (llread inode (calloc_blocks inode.blocks) u ≡ ok b u)
      × ((p : ℕ) → p < inode.blocks * block_size → b.bytes p ≡ (filled s fd buf bytes).bytes p)
      × ((l : ℕ) → ((k : ℕ) → k < inode.blocks → block_number s inode k ≢ l) → u.disk l ≡ s.disk l)
      × IsFile u inode
