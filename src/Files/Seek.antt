-- ===== src/Files/Seek.antt =====
-- cnseek, and reads behind it.
use cdnw_sh.Base.{
  ℕ, ◌+◌, ◌-◌, ◌%◌, ◌≤◌, ◌<◌, ◌^◌, ◌≡◌, refl, ap, ◌∙◌, bytes_at, min, lt→ltb, ==_refl, arith,
}
use cdnw_sh.Params.{max_fd}
use cdnw_sh.Sys.{Sys, Buffer, FdEntry, ok}
use cdnw_sh.Base.{le→not-ltb}
use cdnw_sh.Sys.{success}
use cdnw_sh.Files.{cnseek, update_fd, get_fd, set_fd, cnread}
use cdnw_sh.Files.Read.{IsReader, read_count, moved, cnread-ok}

-- The state after the cursor was set.
unfoldable pub sought : Sys → ℕ → ℕ → Sys
unfolding update_fd
sought s fd offset = record s {
  fd_tbl = update_fd s.fd_tbl fd (record (s.fd_tbl fd) { cursor = offset });
}

sought-entry :
    (s : Sys) (fd offset : ℕ)
    → (sought s fd offset).fd_tbl fd ≡ record (s.fd_tbl fd) { cursor = offset }
unfolding sought update_fd
sought-entry s fd offset = rw (==_refl fd) refl

cnseek-ok :
    (s : Sys) (fd offset : ℕ) (buf : Buffer)
    → IsReader s fd buf
    → (s.fd_tbl fd).cursor + offset ≤ (s.fd_tbl fd).inode.size
    → cnseek fd offset s ≡ ok success (sought s fd offset)
unfolding cnseek get_fd set_fd sought
cnseek-ok s fd offset buf h inside =
    let fde = s.fd_tbl fd in
    let wrap : (fde.cursor + offset) % 2 ^ 32 ≡ fde.cursor + offset =
      omega (arith, inside, h.small) in
    rw (lt→ltb fd max_fd h.low, wrap, le→not-ltb fde.inode.size (fde.cursor + offset) inside) refl

-- On a descriptor that is open for reading, with the file in its cache and the cursor before the
-- end of the file: a seek to an offset inside the file, where the cursor and the offset together
-- are not larger than the file, succeeds, and the next read starts at the offset. It returns the
-- bytes from there on, as many as were asked for, but not the last byte of the file.
pub cnread-cnseek :
    (s : Sys) (fd offset bytes : ℕ) (buf : Buffer)
    → IsReader s fd buf
    → offset < (s.fd_tbl fd).inode.size
    → (s.fd_tbl fd).cursor + offset ≤ (s.fd_tbl fd).inode.size
    → (t u : Sys) × (cnseek fd offset s ≡ ok success t)
      × (cnread bytes fd t
          ≡ ok (bytes_at (min bytes ((s.fd_tbl fd).inode.size - offset - 1)) buf.bytes offset) u)
unfolding read_count
cnread-cnseek s fd offset bytes buf h low inside =
    let t = sought s fd offset in
    let h' : IsReader t fd buf = record {
      low = h.low;
      reads = rw (sought-entry s fd offset) h.reads;
      cached = rw (sought-entry s fd offset) h.cached;
      small = rw (sought-entry s fd offset) h.small;
      fits = rw (sought-entry s fd offset) h.fits;
      inside = rw (sought-entry s fd offset) low;
    } in
    (
      t,
      moved t fd bytes,
      cnseek-ok s fd offset buf h inside,
      cnread-ok t fd bytes buf h'
          ∙ ap
              (λ (e : FdEntry).
                ok (bytes_at (read_count e bytes) buf.bytes e.cursor) (moved t fd bytes))
              (sought-entry s fd offset),
    )
