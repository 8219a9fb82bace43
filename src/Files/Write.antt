-- ===== src/Files/Write.antt =====
-- cnwrite on a descriptor whose file has the room.
use cdnw_sh.Base.{
  ℕ, ◌+◌, ◌*◌, ◌%◌, ◌≤◌, ◌<◌, ◌^◌, ◌≡◌, ◌≢◌, refl, ◌∙◌, inl, inr, leb, List, length, All, bytes_at,
  put_bytes, lt→ltb, le→leb, le→not-ltb, Bool-cases, bytes_at_congr, bytes_at-put_bytes,
  put_bytes-Outside, Outside, arith,
}
use cdnw_sh.Params.{max_fd, fd_write, block_size}
use cdnw_sh.Sys.{Sys, Buffer, live, ok, success}
use cdnw_sh.FileData.{llread, llwrite}
use cdnw_sh.FileData.File.{IsFile, block_number}
use cdnw_sh.FileData.RoundTrip.{llread-llwrite}
use cdnw_sh.Files.{update_fd, get_fd, set_fd, written, write_cache, cnwrite}

-- A descriptor that is open for writing: its cache has room for the blocks of its file.
pub record IsWriter (s : Sys) (fd : ℕ) (buf : Buffer) : Type 0 where
  pub low : fd < max_fd
  pub writes : (s.fd_tbl fd).state ≡ fd_write
  pub cached : (s.fd_tbl fd).cache ≡ live buf
  pub small : (s.fd_tbl fd).inode.size < 2 ^ 32
  pub fits : (s.fd_tbl fd).inode.size ≤ (s.fd_tbl fd).inode.blocks * block_size
  pub room : (s.fd_tbl fd).inode.blocks * block_size ≤ buf.cap
  pub file : IsFile s (s.fd_tbl fd).inode

-- The cache and the table after the write.
abbrev pub filled : Sys → ℕ → Buffer → List ℕ → Buffer
filled s fd buf bytes = record buf { bytes = put_bytes buf.bytes (s.fd_tbl fd).cursor bytes }

abbrev pub entered : Sys → ℕ → Buffer → List ℕ → Sys
entered s fd buf bytes = record s {
  fd_tbl = update_fd s.fd_tbl fd (record (s.fd_tbl fd) {
    cache = live (filled s fd buf bytes);
    state = fd_write;
    cursor = (s.fd_tbl fd).cursor + length bytes;
  });
}

module _ (s : Sys) (fd : ℕ) (buf : Buffer) (bytes : List ℕ) (h : IsWriter s fd buf)
    (inside : (s.fd_tbl fd).cursor + length bytes ≤ (s.fd_tbl fd).inode.size) where
  pub entered-IsFile : IsFile (entered s fd buf bytes) (s.fd_tbl fd).inode
  entered-IsFile = record {
    on = h.file.on;
    few = h.file.few;
    range = h.file.range;
    distinct = h.file.distinct;
    data1_range = h.file.data1_range;
    data1_apart = h.file.data1_apart;
  }

  write_cache-ok :
      write_cache (s.fd_tbl fd) bytes s
      ≡ ok
          (record (s.fd_tbl fd) {
            cache = live (filled s fd buf bytes);
            cursor = (s.fd_tbl fd).cursor + length bytes;
          })
          s
  unfolding write_cache written
  write_cache-ok =
      let fde = s.fd_tbl fd in
      let wrap : (fde.cursor + length bytes) % 2 ^ 32 ≡ fde.cursor + length bytes =
        omega (arith, inside, h.small) in
      rw
        (
          h.cached,
          le→leb (fde.cursor + length bytes) buf.cap (omega (arith, inside, h.fits, h.room)),
        )
        (elim (Bool-cases (leb (length bytes) 0)) [
          | inl e ↦ rw e (rw wrap refl)
          | inr e ↦ rw e (rw wrap refl)
        ])

  pub cnwrite-llwrite :
      (t : Sys)
      → llwrite (s.fd_tbl fd).inode (filled s fd buf bytes) (entered s fd buf bytes) ≡ ok success t
      → cnwrite bytes fd s ≡ ok (length bytes) t
  unfolding cnwrite get_fd set_fd
  cnwrite-llwrite t done =
      let fde = s.fd_tbl fd in
      let wrap : (fde.cursor + length bytes) % 2 ^ 32 ≡ fde.cursor + length bytes =
        omega (arith, inside, h.small) in
      simp
        (
          lt→ltb fd max_fd h.low,
          h.writes,
          wrap,
          le→not-ltb fde.inode.size (fde.cursor + length bytes) inside,
          write_cache-ok,
        )
        (rw done refl)

  -- On a descriptor that is open for writing, with a file whose blocks are in order and held by
  -- the cache, a write of bytes inside the file succeeds with all of them, and they reach the
  -- disk: reading the blocks of the file back into any buffer that has the room gives the bytes
  -- written, from the old cursor on, and everywhere else in the blocks what the cache held before.
  -- Every block that is not one of the file keeps its content.
  pub cnwrite-llread :
      (to : Buffer)
      → All (λ c. c < 256) bytes
      → (s.fd_tbl fd).inode.blocks * block_size ≤ to.cap
      → (t : Sys) × (b : Buffer) × (cnwrite bytes fd s ≡ ok (length bytes) t)
        × (llread (s.fd_tbl fd).inode to t ≡ ok b t)
        × (bytes_at (length bytes) b.bytes (s.fd_tbl fd).cursor ≡ bytes)
        × ((p : ℕ)
            → p < (s.fd_tbl fd).inode.blocks * block_size
            → Outside p (s.fd_tbl fd).cursor (length bytes)
            → b.bytes p ≡ buf.bytes p)
        × ((l : ℕ)
            → ((k : ℕ) → k < (s.fd_tbl fd).inode.blocks → block_number s (s.fd_tbl fd).inode k ≢ l)
            → t.disk l ≡ s.disk l)
  cnwrite-llread to small to_room =
      let fde = s.fd_tbl fd in
      let (t, b, wrote, read, same, others, _) =
        llread-llwrite (entered s fd buf bytes) fde.inode (filled s fd buf bytes) to entered-IsFile
          h.room to_room in
      (
        t,
        b,
        cnwrite-llwrite t wrote,
        read,
        bytes_at_congr (length bytes) b.bytes (put_bytes buf.bytes fde.cursor bytes) fde.cursor
              (λ j lo hi. same j (omega (arith, inside, h.fits)))
            ∙ bytes_at-put_bytes buf.bytes fde.cursor bytes small,
        λ p lt out. same p lt ∙ put_bytes-Outside buf.bytes fde.cursor bytes p out,
        others,
      )
