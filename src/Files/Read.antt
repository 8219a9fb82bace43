-- ===== src/Files/Read.antt =====
-- cnread: what a read returns, and how reads of one descriptor follow each other.
use cdnw_sh.Base.{
  ℕ, zero, suc, ◌+◌, ◌-◌, ◌%◌, ◌≤◌, ◌<◌, ◌^◌, ◌≡◌, refl, ap, ◌∙◌, sym, fun_ext, ltb, leb,
  if◌then◌else◌, List, ◌∷◌, ◌++◌, length, Bytes, bytes_at, min, lt→ltb, le→leb, Bool-cases, inl,
  inr, ==_refl, arith,
}
use cdnw_sh.Params.{max_fd, fd_read}
use cdnw_sh.Sys.{Sys, Buffer, live, FdEntry, ok}
use cdnw_sh.Files.{update_fd, get_fd, set_fd, bytes_left, cnread}

-- A descriptor that is open for reading: its cache holds the file, and the cursor is inside it.
pub record IsReader (s : Sys) (fd : ℕ) (buf : Buffer) : Type 0 where
  pub low : fd < max_fd
  pub reads : (s.fd_tbl fd).state ≡ fd_read
  pub cached : (s.fd_tbl fd).cache ≡ live buf
  pub small : (s.fd_tbl fd).inode.size < 2 ^ 32
  pub fits : (s.fd_tbl fd).inode.size ≤ buf.cap
  pub inside : (s.fd_tbl fd).cursor < (s.fd_tbl fd).inode.size

-- How many bytes a read of that length returns: never the last byte of the file.
unfoldable pub read_count : FdEntry → ℕ → ℕ
read_count fde bytes = min bytes (fde.inode.size - fde.cursor - 1)

-- The state after a read.
unfoldable pub moved : Sys → ℕ → ℕ → Sys
unfolding update_fd read_count
moved s fd bytes = record s {
  fd_tbl =
      update_fd s.fd_tbl fd
        (record (s.fd_tbl fd) { cursor = (s.fd_tbl fd).cursor + read_count (s.fd_tbl fd) bytes });
}

left-eq :
    (size cursor : ℕ) → size < 2 ^ 32 → cursor < size → bytes_left size cursor ≡ size - cursor - 1
unfolding bytes_left
left-eq size cursor small lt = omega arith

count-eq :
    (fde : FdEntry) (bytes : ℕ)
    → fde.inode.size < 2 ^ 32
    → fde.cursor < fde.inode.size
    → (if ltb (bytes_left fde.inode.size fde.cursor) bytes
        then bytes_left fde.inode.size fde.cursor
        else bytes)
      ≡ read_count fde bytes
unfolding read_count
count-eq fde bytes small lt = ground (arith, left-eq fde.inode.size fde.cursor small lt)

pub count-le : (fde : FdEntry) (bytes : ℕ) → read_count fde bytes ≤ fde.inode.size - fde.cursor - 1
unfolding read_count
count-le fde bytes = omega arith

-- A read returns the bytes from the cursor on, as many as were asked for, but stops one byte before
-- the end of the file; the cursor moves behind them, and nothing else changes.
pub cnread-ok :
    (s : Sys) (fd bytes : ℕ) (buf : Buffer)
    → IsReader s fd buf
    → cnread bytes fd s
      ≡ ok
          (bytes_at (read_count (s.fd_tbl fd) bytes) buf.bytes (s.fd_tbl fd).cursor)
          (moved s fd bytes)
unfolding cnread get_fd set_fd moved
cnread-ok s fd bytes buf h =
    let fde = s.fd_tbl fd in
    let left = bytes_left fde.inode.size fde.cursor in
    let n = read_count fde bytes in
    let count : (if ltb left bytes then left else bytes) ≡ n =
      count-eq fde bytes h.small h.inside in
    let wrap : (fde.cursor + n) % 2 ^ 32 ≡ fde.cursor + n =
      omega (arith, count-le fde bytes, h.small, h.inside) in
    rw
      (
        lt→ltb fd max_fd h.low,
        h.reads,
        h.cached,
        count,
        le→leb (fde.cursor + n) buf.cap (omega (arith, count-le fde bytes, h.fits, h.inside)),
      )
      (elim (Bool-cases (leb n 0)) [ inl e ↦ rw e (rw wrap refl) | inr e ↦ rw e (rw wrap refl) ])

bytes_at-append :
    (m n : ℕ) (b : Bytes) (p : ℕ) → bytes_at m b p ++ bytes_at n b (p + m) ≡ bytes_at (m + n) b p
unfolding bytes_at
bytes_at-append zero n b p =
    let same : p + 0 ≡ p = omega arith in
    let none_first : 0 + n ≡ n = omega arith in rw same (rw none_first refl)
bytes_at-append (suc m) n b p =
    let shift : p + suc m ≡ p + 1 + m = omega arith in
    let count : suc m + n ≡ suc (m + n) = omega arith in
    rw shift (rw count (ap (λ xs. b p ∷ xs) (bytes_at-append m n b (p + 1))))

pub length-bytes_at : (n : ℕ) (b : Bytes) (p : ℕ) → length (bytes_at n b p) ≡ n
unfolding bytes_at
length-bytes_at zero b p = refl
length-bytes_at (suc n) b p = omega (arith, length-bytes_at n b (p + 1))

-- The descriptor after a read.
pub moved-entry :
    (s : Sys) (fd bytes : ℕ)
    → (moved s fd bytes).fd_tbl fd
      ≡ record (s.fd_tbl fd) { cursor = (s.fd_tbl fd).cursor + read_count (s.fd_tbl fd) bytes }
unfolding moved update_fd
moved-entry s fd bytes = rw (==_refl fd) refl

moved-IsReader :
    (s : Sys) (fd bytes : ℕ) (buf : Buffer) → IsReader s fd buf → IsReader (moved s fd bytes) fd buf
moved-IsReader s fd bytes buf h = record {
  low = h.low;
  reads = rw (moved-entry s fd bytes) h.reads;
  cached = rw (moved-entry s fd bytes) h.cached;
  small = rw (moved-entry s fd bytes) h.small;
  fits = rw (moved-entry s fd bytes) h.fits;
  inside = rw (moved-entry s fd bytes) (omega (arith, count-le (s.fd_tbl fd) bytes, h.inside));
}

count-add :
    (fde : FdEntry) (a b : ℕ)
    → read_count fde a + read_count (record fde { cursor = fde.cursor + read_count fde a }) b
      ≡ read_count fde (a + b)
unfolding read_count
count-add fde a b = omega arith

update-update :
    (tbl : ℕ → FdEntry) (fd : ℕ) (x y : FdEntry)
    → update_fd (update_fd tbl fd x) fd y ≡ update_fd tbl fd y
unfolding update_fd
update-update tbl fd x y = fun_ext (λ i. ground arith)

moved-moved : (s : Sys) (fd a b : ℕ) → moved (moved s fd a) fd b ≡ moved s fd (a + b)
unfolding moved
moved-moved s fd a b =
    let fde = s.fd_tbl fd in
    let first = record fde { cursor = fde.cursor + read_count fde a } in
    let sum : first.cursor + read_count first b ≡ fde.cursor + read_count fde (a + b) =
      omega (arith, count-add fde a b) in
    ap
      (λ (e : FdEntry). record s {
        fd_tbl =
            update_fd (moved s fd a).fd_tbl fd (record e { cursor = e.cursor + read_count e b });
      })
      (moved-entry s fd a)
    ∙ ap (λ (tbl : ℕ → FdEntry). record s { fd_tbl = tbl })
        (update-update s.fd_tbl fd first
            (record first { cursor = first.cursor + read_count first b })
          ∙ ap (λ c. update_fd s.fd_tbl fd (record fde { cursor = c })) sum)

-- On a descriptor that is open for reading, with the file in its cache and the cursor before the
-- end of the file: two reads, one after the other, return together what one read of the sum of the
-- lengths returns, and leave the same state. However long the reads are, the last byte of the file
-- is not among the bytes returned.
pub cnread-cnread :
    (s : Sys) (fd a b : ℕ) (buf : Buffer)
    → IsReader s fd buf
    → (xs ys : List ℕ) × (t u : Sys) × (cnread a fd s ≡ ok xs t)
      × (cnread b fd t ≡ ok ys u)
      × (cnread (a + b) fd s ≡ ok (xs ++ ys) u)
      × ((s.fd_tbl fd).cursor + length (xs ++ ys) < (s.fd_tbl fd).inode.size)
cnread-cnread s fd a b buf h =
    let fde = s.fd_tbl fd in
    let t = moved s fd a in
    let first = record fde { cursor = fde.cursor + read_count fde a } in
    let xs = bytes_at (read_count fde a) buf.bytes fde.cursor in
    let ys = bytes_at (read_count first b) buf.bytes (fde.cursor + read_count fde a) in
    let both : xs ++ ys ≡ bytes_at (read_count fde (a + b)) buf.bytes fde.cursor =
      bytes_at-append (read_count fde a) (read_count first b) buf.bytes fde.cursor
      ∙ ap (λ n. bytes_at n buf.bytes fde.cursor) (count-add fde a b) in
    (
      xs,
      ys,
      t,
      moved s fd (a + b),
      cnread-ok s fd a buf h,
      cnread-ok t fd b buf (moved-IsReader s fd a buf h)
          ∙ ap (λ (e : FdEntry). ok (bytes_at (read_count e b) buf.bytes e.cursor) (moved t fd b))
              (moved-entry s fd a)
          ∙ ap (λ u. ok ys u) (moved-moved s fd a b),
      cnread-ok s fd (a + b) buf h ∙ ap (λ zs. ok zs (moved s fd (a + b))) (sym both),
      rw both (
          omega (
            arith,
            length-bytes_at (read_count fde (a + b)) buf.bytes fde.cursor,
            count-le fde (a + b),
            h.inside,
          )),
    )
