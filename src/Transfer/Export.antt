-- ===== src/Transfer/Export.antt =====
-- cnexport: the end that compares what was read with the size of the file.
use cdnw_sh.Base.{ℕ, ◌<◌, ◌≡◌, ◌≢◌, refl, List, [], length, bytes_at, ne→not-==, lt→ltb, arith}
use cdnw_sh.Sys.{Sys, Buffer, success, failure, ok}
use cdnw_sh.Params.{fd_free, max_fd}
use cdnw_sh.Bitmap.{clear_bitmap}
use cdnw_sh.Files.{freed, cnclose, update_fd, get_fd, set_fd}
use cdnw_sh.Files.Read.{
  IsReader, read_count, moved, cnread-ok, length-bytes_at, moved-entry, count-le,
}
use cdnw_sh.Transfer.{export_text}

-- The state after the descriptor is closed.
abbrev closed : Sys → ℕ → Sys
closed s fd = record s {
  fd_bm = clear_bitmap s.fd_bm fd;
  fd_tbl =
      update_fd s.fd_tbl fd
        (record (s.fd_tbl fd) { cache = freed (s.fd_tbl fd).cache; state = fd_free });
}

cnclose-closed :
    (s : Sys) (fd : ℕ)
    → fd < max_fd
    → (s.fd_tbl fd).state ≢ fd_free
    → cnclose fd s ≡ ok success (closed s fd)
unfolding cnclose get_fd set_fd
cnclose-closed s fd low used =
    rw (lt→ltb fd max_fd low, ne→not-== (s.fd_tbl fd).state fd_free used) refl

-- Where a descriptor is open for reading at the start of a file that is not empty, with the file
-- in its cache, export of the file's size fails, with nothing written to the host file.
pub export_text_fails :
    (s : Sys) (fd : ℕ) (buf : Buffer) (written : List ℕ → ℕ)
    → IsReader s fd buf
    → (s.fd_tbl fd).cursor ≡ 0
    → (t : Sys) × (export_text fd (s.fd_tbl fd).inode.size written s ≡ ok (failure, []) t)
unfolding export_text
export_text_fails s fd buf written h start =
    let fde = s.fd_tbl fd in
    let text = bytes_at (read_count fde fde.inode.size) buf.bytes fde.cursor in
    let t = moved s fd fde.inode.size in
    let used : (t.fd_tbl fd).state ≢ fd_free =
      rw (moved-entry s fd fde.inode.size, h.reads) (λ e. omega (arith, e)) in
    let short : length text ≢ fde.inode.size = λ e. omega (
      arith,
      e,
      length-bytes_at (read_count fde fde.inode.size) buf.bytes fde.cursor,
      count-le fde fde.inode.size,
      h.inside,
    ) in
    (
      closed t fd,
      rw (cnread-ok s fd fde.inode.size buf h) (
          rw (cnclose-closed t fd h.low used)
            (rw (ne→not-== (length text) fde.inode.size short) refl)),
    )
