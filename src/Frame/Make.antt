-- ===== src/Frame/Make.antt =====
-- mkdir, rmdir, creat and tree leave the descriptor table alone.
use cdnw_sh.Base.{ℕ, zero, suc, List, [], ◌∷◌, Option, none, some}
use cdnw_sh.Sys.{Sys, Inode, DirPtr, M, Code, success, failure, pure, time}
use cdnw_sh.Make.{
  append_entry, write_parent, make_dir, mkdir_look, mkdir_descend, mkdir_last, mkdir_path, cnmkdir,
  keep_entry, drop_entry, rmdir_scan, cnrmdir, create_file, cncreat,
}
use cdnw_sh.Tree.{treedir, cntree}
use cdnw_sh.Frame.{Fds, fds, Kept, Kept-bind, Kept-option, keeps}
use cdnw_sh.Frame.Disk.{
  blk_write-Kept, inode_read-Kept, inode_write-Kept, llread-Kept, llwrite-Kept, reserve_inode-Kept,
  release_inode-Kept, reserve_block-Kept, release_block-Kept,
}
use cdnw_sh.Frame.Dirs.{
  cnopendir-Kept, cnreaddir-Kept, cnstat-Kept, cwd_inode-Kept, find_entry-Kept, raw_name-Kept,
}

module _ {P : Fds → Type 0} where
  append_entry-Kept :
      (dir : DirPtr) (inode type : ℕ) (name : List ℕ) (s : Sys)
      → P (fds s)
      → Kept P (append_entry dir inode type name s)
  unfolding append_entry
  append_entry-Kept dir inode type name s h = search (keeps) depth 9

  write_parent-Kept : (dir : DirPtr) (s : Sys) → P (fds s) → Kept P (write_parent dir s)
  unfolding write_parent time
  write_parent-Kept dir s h = search (keeps, inode_write-Kept, blk_write-Kept) depth 9

  make_dir-Kept :
      (dir : DirPtr) (name : List ℕ) (s : Sys) → P (fds s) → Kept P (make_dir dir name s)
  unfolding make_dir time
  make_dir-Kept dir name s h =
      search
        (
          keeps, reserve_inode-Kept, append_entry-Kept, write_parent-Kept, reserve_block-Kept,
          inode_write-Kept, blk_write-Kept,
        )
        depth 15

  mkdir_look-Kept :
      (i : Inode) (id : ℕ) (name : List ℕ) (s : Sys) → P (fds s) → Kept P (mkdir_look i id name s)
  unfolding mkdir_look
  mkdir_look-Kept i id name s h = search (keeps, llread-Kept, find_entry-Kept) depth 9

  mkdir_descend-Kept :
      (found : Option ℕ) (dir : DirPtr) (s : Sys) → P (fds s) → Kept P (mkdir_descend found dir s)
  unfolding mkdir_descend
  mkdir_descend-Kept none dir s h = search keeps
  mkdir_descend-Kept (some off) dir s h = search (keeps, inode_read-Kept)

  mkdir_last-Kept :
      (found : Option ℕ) (dir : DirPtr) (name : List ℕ) (s : Sys)
      → P (fds s)
      → Kept P (mkdir_last found dir name s)
  unfolding mkdir_last
  mkdir_last-Kept none dir name s h = search make_dir-Kept
  mkdir_last-Kept (some off) dir name s h = search keeps

  mkdir_path-Kept :
      (i : Inode) (id : ℕ) (names : List (List ℕ)) (s : Sys)
      → P (fds s)
      → Kept P (mkdir_path i id names s)
  unfolding mkdir_path
  mkdir_path-Kept i id [] s h = search keeps
  mkdir_path-Kept i id (name ∷ []) s h = search (keeps, mkdir_look-Kept, mkdir_last-Kept)
  mkdir_path-Kept i id (name ∷ t ∷ ts) s h =
      search
        (
          keeps,
          mkdir_look-Kept,
          mkdir_descend-Kept,
          λ (j : Inode) (jd : ℕ). mkdir_path-Kept j jd (t ∷ ts),
        )
        depth 9

  pub cnmkdir-Kept : (name : List ℕ) (s : Sys) → P (fds s) → Kept P (cnmkdir name s)
  unfolding cnmkdir
  cnmkdir-Kept name s h = search (keeps, cwd_inode-Kept, inode_read-Kept, mkdir_path-Kept) depth 9

  keep_entry-Kept :
      (parent : DirPtr) (off : ℕ) (new : DirPtr) (s : Sys)
      → P (fds s)
      → Kept P (keep_entry parent off new s)
  unfolding keep_entry
  keep_entry-Kept parent off new s h = search (keeps) depth 9

  drop_entry-Kept : (inode : ℕ) (s : Sys) → P (fds s) → Kept P (drop_entry inode s)
  unfolding drop_entry
  drop_entry-Kept inode s h =
      search (keeps, inode_read-Kept, release_block-Kept, release_inode-Kept) depth 9

  dropped-Kept :
      (rest : M (Option DirPtr))
      → ((s : Sys) → P (fds s) → Kept P (rest s))
      → (code : Code) (s : Sys) → P (fds s)
      → Kept P ((elim code as (λ _. M (Option DirPtr)) [ success ↦ rest | failure ↦ pure none ]) s)
  dropped-Kept rest again success s h = again s h
  dropped-Kept rest again failure s h = search keeps

  rmdir_scan-Kept :
      (fuel : ℕ) (parent : DirPtr) (name : List ℕ) (new : DirPtr) (s : Sys)
      → P (fds s)
      → Kept P (rmdir_scan fuel parent name new s)
  unfolding rmdir_scan
  rmdir_scan-Kept zero parent name new s h = search keeps
  rmdir_scan-Kept (suc fuel) parent name new s h =
      Kept-bind _ _ (cnreaddir-Kept parent s h) (λ p t h'.
        Kept-option p.0 _ _ t (search keeps) (λ off.
          let again = rmdir_scan-Kept fuel p.1 name in
          search
            (
              keeps,
              raw_name-Kept,
              drop_entry-Kept,
              keep_entry-Kept,
              again,
              dropped-Kept (rmdir_scan fuel p.1 name new) (again new),
            )
            depth 12))

  pub cnrmdir-Kept : (name : List ℕ) (s : Sys) → P (fds s) → Kept P (cnrmdir name s)
  unfolding cnrmdir
  cnrmdir-Kept name s h = Kept-bind _ _ (cnopendir-Kept _ s h) (λ p t h'.
      Kept-option p _ _ t (search keeps) (λ off.
        Kept-bind _ _ (rmdir_scan-Kept _ off name _ t h') (λ q u h2.
          Kept-option q _ _ u (search keeps)
            (λ new. search (keeps, inode_write-Kept, llwrite-Kept) depth 9))))

  create_file-Kept :
      (dir : DirPtr) (name : List ℕ) (s : Sys) → P (fds s) → Kept P (create_file dir name s)
  unfolding create_file time
  create_file-Kept dir name s h =
      search (keeps, reserve_inode-Kept, append_entry-Kept, write_parent-Kept, inode_write-Kept)
        depth 12

  pub cncreat-Kept :
      (dir : DirPtr) (name : List ℕ) (s : Sys) → P (fds s) → Kept P (cncreat dir name s)
  unfolding cncreat
  cncreat-Kept dir name s h = Kept-bind _ _ (cnstat-Kept dir name s h) (λ p t h'.
      Kept-option p.0 _ _ t (search (keeps, create_file-Kept) depth 9) (λ i. search keeps))

  treedir-Kept :
      (describe : Inode → List ℕ) (fuel : ℕ) (dir : DirPtr) (text : List ℕ) (s : Sys)
      → P (fds s)
      → Kept P (treedir describe fuel dir text s)
  unfolding treedir
  treedir-Kept describe zero dir text s h = search keeps
  treedir-Kept describe (suc fuel) dir text s h = Kept-bind _ _ (cnreaddir-Kept dir s h) (λ p t h'.
      Kept-option p.0 _ _ t (search keeps) (λ off.
        search (keeps, raw_name-Kept, inode_read-Kept, treedir-Kept describe fuel) depth 12))

  pub cntree-Kept : (describe : Inode → List ℕ) (s : Sys) → P (fds s) → Kept P (cntree describe s)
  unfolding cntree
  cntree-Kept describe s h =
      Kept-bind _ _ (cnopendir-Kept _ s h)
        (λ p t h'. Kept-option p _ _ t (search keeps) (λ dir. search treedir-Kept))
