-- ===== src/Files/Calls.antt =====
-- The descriptor table against its bitmap, over cnopen, cnread, cnseek and cnwrite.
use mathlib.Core.Path.{subst}
use cdnw_sh.Base.{
  Option, none, Bool-cases, inl, inr, ltb→lt, ℕ, ◌+◌, ◌%◌, ◌^◌, ◌<◌, ◌≡◌, refl, sym, ◌∙◌, ap, false,
  ltb, ◌==◌, if◌then◌else◌, List, length,
}
use cdnw_sh.Params.{max_fd, fd_free, fd_write}
use cdnw_sh.Sys.{Sys, time, Code, success, failure, M, pure, FdEntry, Inode, DirPtr}
use cdnw_sh.Bitmap.{set_bitmap}
use cdnw_sh.Dir.{cnstat}
use cdnw_sh.Files.{
  update_fd, get_fd, set_fd, free_fd, load_cache, open_inode, stat_or_creat, cnopen, cnread,
  grow_blocks, expand, cnseek, write_cache, cnwrite,
}
use cdnw_sh.Frame.{
  Fds, fds, Kept, Gives, Kept-from, Kept-through, Kept-ok, Kept-bind, Kept-if, Kept-option, keeps,
  gives,
}
use cdnw_sh.Frame.Disk.{
  inode_read-Kept, inode_write-Kept, llread-Kept, llwrite-Kept, realloc_cache-Kept,
  realloc_fs_blocks-Kept,
}
use cdnw_sh.Frame.Dirs.{cnstat-Kept}
use cdnw_sh.Frame.Make.{cncreat-Kept}
use cdnw_sh.Files.Table.{
  IsLike, IsLike-IsLike, IsTable, expanded-IsLike, is_dangling, moved-IsLike, opened-IsTable,
  same-IsLike, same-IsTable, written-IsLike,
}

module _ {P : Fds → Type 0} where
  pub load_cache-Gives :
      (i : Inode) (s : Sys) → P (fds s) → Gives P (λ c. is_dangling c ≡ false) (load_cache i s)
  unfolding load_cache
  load_cache-Gives i s h = search (gives, llread-Kept) depth 9

  grow_blocks-Kept : (i : Inode) (n : ℕ) (s : Sys) → P (fds s) → Kept P (grow_blocks i n s)
  unfolding grow_blocks
  grow_blocks-Kept i n s h = search (keeps, realloc_fs_blocks-Kept)

  expand-Gives :
      (fde : FdEntry) (size : ℕ) (s : Sys) → P (fds s) → Gives P (IsLike fde) (expand fde size s)
  unfolding expand time
  expand-Gives fde size s h =
      search (gives, realloc_cache-Kept, grow_blocks-Kept, inode_write-Kept, expanded-IsLike) depth
        12

  write_cache-Gives :
      (fde : FdEntry) (bytes : List ℕ) (s : Sys)
      → P (fds s)
      → Gives P (IsLike fde) (write_cache fde bytes s)
  unfolding write_cache
  write_cache-Gives fde bytes s h = search (gives, written-IsLike) depth 9

  free_fd-Kept : (s : Sys) → P (fds s) → Kept P (free_fd s)
  unfolding free_fd
  free_fd-Kept s h = search keeps

  -- The descriptor that cnseek and cnwrite go on with.
  grown-Gives :
      (fde : FdEntry) (size : ℕ) (s : Sys)
      → P (fds s)
      → Gives P (IsLike fde) ((if ltb fde.inode.size size then expand fde size else pure fde) s)
  grown-Gives fde size s h = search (gives, expand-Gives, same-IsLike)

  created-Kept :
      (code : Code) (dir : DirPtr) (name : List ℕ) (s : Sys)
      → P (fds s)
      → Kept P (
          (elim code as (λ _. M (Option ℕ × DirPtr)) [
            | success ↦ cnstat dir name
            | failure ↦ pure (none, dir)
          ])
            s)
  created-Kept success dir name s h = cnstat-Kept dir name s h
  created-Kept failure dir name s h = search keeps

  pub stat_or_creat-Kept :
      (dir : DirPtr) (name : List ℕ) (mode : ℕ) (s : Sys)
      → P (fds s)
      → Kept P (stat_or_creat dir name mode s)
  unfolding stat_or_creat
  stat_or_creat-Kept dir name mode s h = Kept-bind _ _ (cnstat-Kept dir name s h) (λ p t h'.
      Kept-option p.0 _ _ t
        (Kept-if (mode == fd_write) _ _ t
          (Kept-bind _ _ (cncreat-Kept p.1 name t h') (λ q u h2. created-Kept q.0 q.1 name u h2))
          (cnstat-Kept p.1 name t h'))
        (λ i. search keeps))

-- Frames: the table is the one given, and the result of get_fd is its entry.
abbrev pub Is : Fds → Fds → Type 0
Is d e = e ≡ d

record IsEntry (d : Fds) (fd : ℕ) (fde : FdEntry) : Type 0 where
  low : fd < max_fd
  entry : fde ≡ d.0 fd

get_fd-Gives : (fd : ℕ) (s : Sys) → Gives (Is (fds s)) (IsEntry (fds s) fd) (get_fd fd s)
unfolding get_fd
get_fd-Gives fd s = elim (Bool-cases (ltb fd max_fd)) [
  | inl lt ↦ rw lt (record { given = (refl, record { low = ltb→lt fd max_fd lt; entry = refl }) })
  | inr ge ↦ rw ge (record { given = tt })
]

module _ (d : Fds) (h : IsTable d) (t : Sys) (e : fds t ≡ d) where
  still-IsTable : IsTable (fds t)
  still-IsTable = rw e h

  set-IsTable :
      (fd : ℕ) (fde fde' : FdEntry)
      → IsEntry d fd fde
      → IsLike fde fde'
      → IsTable (update_fd t.fd_tbl fd fde', t.fd_bm)
  set-IsTable fd fde fde' is_at like =
      let state = ap (λ n. n == fd_free) (like.state ∙ ap (λ (x : FdEntry). x.state) is_at.entry) in
      subst (λ x. IsTable (update_fd x.0 fd fde', x.1)) (sym e)
        (same-IsTable d.0 d.1 fd fde' h state
          (λ is_open. like.cache (rw is_at.entry (h.no_freed fd is_at.low (sym state ∙ is_open)))))

open_inode-IsTable :
    (inode_id mode : ℕ) (s : Sys)
    → (mode == fd_free) ≡ false
    → IsTable (fds s)
    → Kept IsTable (open_inode inode_id mode s)
unfolding open_inode set_fd
open_inode-IsTable inode_id mode s in_use h = Kept-bind _ _ (free_fd-Kept s h) (λ fd t h'.
    Kept-through {P = Is (t.fd_tbl, set_bitmap t.fd_bm fd)} _ _ (inode_read-Kept inode_id _ refl)
      (λ i u e.
        Kept-from {P = Is (t.fd_tbl, set_bitmap t.fd_bm fd)} _ _ (load_cache-Gives i u e)
          (λ c v e' sound.
            let fde : FdEntry = record {
              cache = c;
              state = mode;
              inode_id = inode_id;
              inode = i;
              cursor = 0;
            } in
            Kept-ok _ _ (
              subst {A = Fds} (λ x. IsTable (update_fd x.0 fd fde, x.1)) (sym e')
                (opened-IsTable t.fd_tbl t.fd_bm fd fde h' in_use sound)))))

pub cnopen-IsTable :
    (dir : DirPtr) (name : List ℕ) (mode : ℕ) (s : Sys)
    → (mode == fd_free) ≡ false
    → IsTable (fds s)
    → Kept IsTable (cnopen dir name mode s)
unfolding cnopen
cnopen-IsTable dir name mode s in_use h =
    Kept-bind _ _ (stat_or_creat-Kept dir name mode s h) (λ p t h'.
      Kept-option p.0 _ _ t (search keeps) (λ i. search (keeps, open_inode-IsTable) depth 9))

pub cnread-IsTable : (bytes fd : ℕ) (s : Sys) → IsTable (fds s) → Kept IsTable (cnread bytes fd s)
unfolding cnread set_fd
cnread-IsTable bytes fd s h = Kept-from _ _ (get_fd-Gives fd s) (λ fde t e is_at.
    search (keeps, still-IsTable (fds s) h, set-IsTable (fds s) h t e fd fde, moved-IsLike) depth 9)

pub cnseek-IsTable : (fd offset : ℕ) (s : Sys) → IsTable (fds s) → Kept IsTable (cnseek fd offset s)
unfolding cnseek set_fd
cnseek-IsTable fd offset s h =
    let d = fds s in
    Kept-from _ _ (get_fd-Gives fd s) (λ fde t e is_at.
      Kept-from {P = Is d} _ _ (grown-Gives fde ((fde.cursor + offset) % 2 ^ 32) t e)
        (λ fde' u e' like.
          let moved = IsLike-IsLike fde fde' _ like (moved-IsLike fde' offset) in
          Kept-ok _ _ (set-IsTable d h u e' fd fde _ is_at moved)))

pub cnwrite-IsTable :
    (bytes : List ℕ) (fd : ℕ) (s : Sys) → IsTable (fds s) → Kept IsTable (cnwrite bytes fd s)
unfolding cnwrite set_fd
cnwrite-IsTable bytes fd s h =
    let d = fds s in
    Kept-from _ _ (get_fd-Gives fd s) (λ fde t e is_at. elim (Bool-cases (fde.state == fd_write)) [
      | inl writes ↦ rw writes (
          Kept-from {P = Is d} _ _ (grown-Gives fde ((fde.cursor + length bytes) % 2 ^ 32) t e)
            (λ fde' u e' like.
              Kept-from {P = Is d} _ _ (write_cache-Gives fde' bytes u e') (λ fde'' v e2 like'.
                let done =
                  set-IsTable d h v e2 fd fde fde'' is_at
                    (IsLike-IsLike fde fde' fde'' like like') in
                Kept-bind _ _ (llwrite-Kept fde''.inode _ _ done) (λ _ w h2. Kept-ok _ _ h2))))
      | inr other ↦ rw other (Kept-ok _ _ (still-IsTable d h t e))
    ])
