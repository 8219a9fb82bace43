-- ===== src/Frame/Dirs.antt =====
-- Directories and the commands on them leave the descriptor table alone.
use cdnw_sh.Base.{ℕ, zero, suc, List, [], ◌∷◌, Option, none, some}
use cdnw_sh.Sys.{Sys, DirPtr, M, pure, ◌>>=◌}
use cdnw_sh.Dir.{
  scan_fuel, cnreaddir, raw_name, entry_name, find_entry, inflatedir, enter, open_path,
  open_no_token, open_tokens, cwd_inode, cnopendir, cncd, cnpwd, list_names, cnls, cnstat,
}
use cdnw_sh.Frame.{Fds, fds, Kept, Kept-bind, Kept-option, keeps}
use cdnw_sh.Frame.Disk.{inode_read-Kept, llread-Kept}

module _ {P : Fds → Type 0} where
  pub cnreaddir-Kept : (dir : DirPtr) (s : Sys) → P (fds s) → Kept P (cnreaddir dir s)
  unfolding cnreaddir
  cnreaddir-Kept dir s h = search (keeps) depth 9

  pub raw_name-Kept : (dir : DirPtr) (off : ℕ) (s : Sys) → P (fds s) → Kept P (raw_name dir off s)
  unfolding raw_name
  raw_name-Kept dir off s h = search (keeps) depth 9

  entry_name-Kept : (dir : DirPtr) (off : ℕ) (s : Sys) → P (fds s) → Kept P (entry_name dir off s)
  unfolding entry_name
  entry_name-Kept dir off s h = search (keeps, raw_name-Kept) depth 9

  pub find_entry-Kept :
      (fuel : ℕ) (dir : DirPtr) (name : List ℕ) (s : Sys)
      → P (fds s)
      → Kept P (find_entry fuel dir name s)
  unfolding find_entry
  find_entry-Kept zero dir name s h = search keeps
  find_entry-Kept (suc fuel) dir name s h = Kept-bind _ _ (cnreaddir-Kept dir s h) (λ p t h'.
      Kept-option p.0 _ _ t (search keeps)
        (λ off. search (keeps, entry_name-Kept, find_entry-Kept fuel) depth 9))

  inflatedir-Kept : (inode : ℕ) (s : Sys) → P (fds s) → Kept P (inflatedir inode s)
  unfolding inflatedir
  inflatedir-Kept inode s h = search (keeps, inode_read-Kept, llread-Kept) depth 9

  enter-Kept :
      (loaded : ℕ) (dir : DirPtr) (name : List ℕ) (s : Sys)
      → P (fds s)
      → Kept P (enter loaded dir name s)
  unfolding enter
  enter-Kept loaded dir name s h =
      Kept-bind _ _ (find_entry-Kept (scan_fuel dir) dir name s h) (λ p t h'.
        Kept-option p.0 _ _ t (search keeps) (λ off. search (keeps, inflatedir-Kept) depth 9))

  open_path-Kept :
      (loaded : ℕ) (dir : DirPtr) (names : List (List ℕ)) (s : Sys)
      → P (fds s)
      → Kept P (open_path loaded dir names s)
  unfolding open_path
  open_path-Kept loaded dir [] s h = search keeps
  open_path-Kept loaded dir (name ∷ rest) s h =
      search (keeps, enter-Kept, λ (l : ℕ) (d : DirPtr). open_path-Kept l d rest) depth 9

  open_tokens-Kept :
      (dir : DirPtr) (names : List (List ℕ)) (s : Sys)
      → P (fds s)
      → Kept P (open_tokens dir names s)
  unfolding open_tokens open_no_token
  open_tokens-Kept dir [] s h =
      Kept-bind _ _ (cnreaddir-Kept dir s h)
        (λ p t h'. Kept-option p.0 _ _ t (search keeps) (λ off. search keeps))
  open_tokens-Kept dir (t ∷ ts) s h = search (open_path-Kept)

  pub cwd_inode-Kept : (s : Sys) → P (fds s) → Kept P (cwd_inode s)
  unfolding cwd_inode
  cwd_inode-Kept s h = Kept-option s.cwd _ _ s (search keeps) (λ dir. search keeps)

  pub cnopendir-Kept : (name : List ℕ) (s : Sys) → P (fds s) → Kept P (cnopendir name s)
  unfolding cnopendir
  cnopendir-Kept name s h =
      search (keeps, cwd_inode-Kept, inflatedir-Kept, open_tokens-Kept) depth 9

  pub cncd-Kept : (name : List ℕ) (s : Sys) → P (fds s) → Kept P (cncd name s)
  unfolding cncd
  cncd-Kept name s h =
      Kept-bind _ _ (cnopendir-Kept name s h)
        (λ p t h'. Kept-option p _ _ t (search keeps) (λ off. search keeps))

  pub cnpwd-Kept : (s : Sys) → P (fds s) → Kept P (cnpwd s)
  unfolding cnpwd
  cnpwd-Kept s h = search (keeps) depth 9

  list_names-Kept :
      (fuel : ℕ) (dir : DirPtr) (text : List ℕ) (s : Sys)
      → P (fds s)
      → Kept P (list_names fuel dir text s)
  unfolding list_names
  list_names-Kept zero dir text s h = search keeps
  list_names-Kept (suc fuel) dir text s h = Kept-bind _ _ (cnreaddir-Kept dir s h) (λ p t h'.
      Kept-option p.0 _ _ t (search keeps)
        (λ off. search (keeps, entry_name-Kept, list_names-Kept fuel) depth 9))

  listed-Kept :
      (opened : Option DirPtr) (s : Sys)
      → P (fds s)
      → Kept P (
          (elim opened as (λ _. M (Option (List ℕ))) [
            | none ↦ pure none
            | some dir ↦ list_names (scan_fuel dir) dir [] >>= λ text. pure (some text)
          ])
            s)
  listed-Kept none s h = search keeps
  listed-Kept (some dir) s h = search (keeps, list_names-Kept)

  pub cnls-Kept : (name : List ℕ) (s : Sys) → P (fds s) → Kept P (cnls name s)
  unfolding cnls
  cnls-Kept name s h = search (keeps, cnopendir-Kept, listed-Kept) depth 9

  pub cnstat-Kept :
      (dir : DirPtr) (name : List ℕ) (s : Sys) → P (fds s) → Kept P (cnstat dir name s)
  unfolding cnstat
  cnstat-Kept dir name s h = search (keeps, find_entry-Kept) depth 9
