-- ===== src/Shell/Arguments.antt =====
-- The descriptor table against its bitmap, over the commands of the shell with their arguments.
use cdnw_sh.Base.{
  ℕ, ◌%◌, ◌^◌, ◌++◌, ◌||◌, Bool-cases, inl, inr, ◌≡◌, refl, ltb, ◌==◌, Bool, false, if◌then◌else◌,
  Option, none, some, List, [], ◌∷◌, codes,
}
use cdnw_sh.Params.{fd_free}
use cdnw_sh.Sys.{Sys, Inode, M, pure, ◌>>=◌}
use cdnw_sh.Blockdev.{HostFile}
use cdnw_sh.Frame.{fds, Kept, Kept-bind, Kept-through, Kept-option, Kept-ok, keeps}
use cdnw_sh.Frame.Disk.{blockdev_attach-Kept, cnmkfs-Kept}
use cdnw_sh.Frame.Dirs.{cncd-Kept, cnls-Kept, cnpwd-Kept}
use cdnw_sh.Frame.Make.{cnmkdir-Kept, cnrmdir-Kept, cntree-Kept}
use cdnw_sh.Files.Table.{IsTable, cnclose-IsTable}
use cdnw_sh.Files.Calls.{cnopen-IsTable, cnread-IsTable, cnseek-IsTable, cnwrite-IsTable}
use cdnw_sh.Transfer.Table.{cncat-IsTable, cnimport-IsTable, cnmount-IsTable}
use cdnw_sh.Shell.Table.{Text}
use cdnw_sh.Net.{buffer_string}
use cdnw_sh.Shell.{
  unknown_text, chk_vfs, sh_mkfs, mode_letter, open_mode, open_in_cwd, open_args, close_args,
  read_args, write_args, seek_args, mkdir_args, rmdir_args, rm_args, cat_text, cat_args, cd_args,
  ls_in, ls_args, pwd_args, tree_args, import_args, export_args, in_buffer,
}

pub chk_vfs-IsTable :
    (body : M Text) (s : Sys)
    → IsTable (fds s)
    → Kept IsTable (body s)
    → Kept IsTable (chk_vfs body s)
unfolding chk_vfs
chk_vfs-IsTable body s h kept = search keeps

-- A new file system.
pub sh_mkfs-IsTable : (host : HostFile) (s : Sys) → Kept IsTable (sh_mkfs host s)
unfolding sh_mkfs
sh_mkfs-IsTable host s =
    Kept-through {P = λ d. Unit {0}} _ _ (blockdev_attach-Kept host s tt) (λ c t _.
      Kept-through {P = λ d. Unit {0}} _ _ (cnmkfs-Kept t tt)
        (λ c' u _. Kept-bind _ _ (cnmount-IsTable u) (λ c2 v h. Kept-ok _ _ h)))

-- Both letters of open stand for a mode in use.
open_in_cwd-IsTable :
    (name : Text) (mode : ℕ) (s : Sys)
    → (mode == fd_free) ≡ false
    → IsTable (fds s)
    → Kept IsTable (open_in_cwd name mode s)
unfolding open_in_cwd
open_in_cwd-IsTable name mode s in_use h =
    Kept-option s.cwd _ _ s (search keeps) (λ dir. search (keeps, cnopen-IsTable) depth 9)

abbrev InUse : Option ℕ → Type 0
InUse none = Unit {0}
InUse (some mode) = (mode == fd_free) ≡ false

mode_letter-InUse : (cs : List ℕ) → InUse (mode_letter cs)
unfolding mode_letter
mode_letter-InUse [] = tt
mode_letter-InUse (c ∷ cs) = elim (Bool-cases (c == b'r')) [
  | inl r ↦ rw r refl
  | inr other ↦
      rw other (elim (Bool-cases (c == b'w')) [ inl w ↦ rw w refl | inr neither ↦ rw neither tt ])
]

open_mode-InUse : (cs : List ℕ) → InUse (open_mode cs)
unfolding open_mode
open_mode-InUse [] = tt
open_mode-InUse (c ∷ cs) = elim (Bool-cases ((c == 39) || (c == 34))) [
  | inl quote ↦ rw quote (mode_letter-InUse cs)
  | inr bare ↦ rw bare (mode_letter-InUse (c ∷ cs))
]

-- The arguments of each command.
open_with-IsTable :
    (decimal : ℕ → Text) (name : Text) (mode : Option ℕ) (s : Sys)
    → InUse mode
    → IsTable (fds s)
    → Kept IsTable (
        (elim mode as (λ _. M Text) [
          | none ↦ pure unknown_text
          | some m ↦ open_in_cwd name m >>= λ fd.
              if ltb (fd % 2 ^ 8) (2 ^ 7)
              then in_buffer 19 (codes "SUCCESS, fd = " ++ decimal fd)
              else pure unknown_text
        ])
          s)
open_with-IsTable decimal name none s in_use h = search keeps
open_with-IsTable decimal name (some m) s in_use h = search (keeps, open_in_cwd-IsTable) depth 9

pub open_args-IsTable :
    (decimal : ℕ → Text) (argv : List Text) (s : Sys)
    → IsTable (fds s)
    → Kept IsTable (open_args decimal argv s)
unfolding open_args
open_args-IsTable decimal (name ∷ mode ∷ []) s h =
    open_with-IsTable decimal name (open_mode mode) s (open_mode-InUse mode) h
open_args-IsTable decimal [] s h = search keeps
open_args-IsTable decimal (_ ∷ []) s h = search keeps
open_args-IsTable decimal (_ ∷ _ ∷ _ ∷ _) s h = search keeps

pub close_args-IsTable :
    (strtol : Text → ℕ) (argv : List Text) (s : Sys)
    → IsTable (fds s)
    → Kept IsTable (close_args strtol argv s)
unfolding close_args
close_args-IsTable strtol [] s h = search keeps
close_args-IsTable strtol (x0 ∷ []) s h = search (keeps, cnclose-IsTable) depth 9
close_args-IsTable strtol (x0 ∷ x1 ∷ rest) s h = search keeps

pub buffer_string-IsTable :
    (cap : ℕ) (bytes : Text) (s : Sys) → IsTable (fds s) → Kept IsTable (buffer_string cap bytes s)
unfolding buffer_string
buffer_string-IsTable cap bytes s h = search keeps

cat_text-IsTable : (text : Option Text) (s : Sys) → IsTable (fds s) → Kept IsTable (cat_text text s)
unfolding cat_text
cat_text-IsTable none s h = search keeps
cat_text-IsTable (some text) s h = search (keeps, buffer_string-IsTable)

pub read_args-IsTable :
    (strtol : Text → ℕ) (argv : List Text) (s : Sys)
    → IsTable (fds s)
    → Kept IsTable (read_args strtol argv s)
unfolding read_args
read_args-IsTable strtol [] s h = search keeps
read_args-IsTable strtol (x0 ∷ []) s h = search keeps
read_args-IsTable strtol (x0 ∷ x1 ∷ []) s h =
    search (keeps, cnread-IsTable, buffer_string-IsTable) depth 9
read_args-IsTable strtol (x0 ∷ x1 ∷ x2 ∷ rest) s h = search keeps

pub write_args-IsTable :
    (strtol : Text → ℕ) (argv : List Text) (s : Sys)
    → IsTable (fds s)
    → Kept IsTable (write_args strtol argv s)
unfolding write_args
write_args-IsTable strtol [] s h = search keeps
write_args-IsTable strtol (x0 ∷ []) s h = search keeps
write_args-IsTable strtol (x0 ∷ x1 ∷ []) s h = search (keeps, cnwrite-IsTable) depth 9
write_args-IsTable strtol (x0 ∷ x1 ∷ x2 ∷ rest) s h = search keeps

pub seek_args-IsTable :
    (strtol : Text → ℕ) (argv : List Text) (s : Sys)
    → IsTable (fds s)
    → Kept IsTable (seek_args strtol argv s)
unfolding seek_args
seek_args-IsTable strtol [] s h = search keeps
seek_args-IsTable strtol (x0 ∷ []) s h = search keeps
seek_args-IsTable strtol (x0 ∷ x1 ∷ []) s h = search (keeps, cnseek-IsTable) depth 9
seek_args-IsTable strtol (x0 ∷ x1 ∷ x2 ∷ rest) s h = search keeps

pub mkdir_args-IsTable :
    (argv : List Text) (s : Sys) → IsTable (fds s) → Kept IsTable (mkdir_args argv s)
unfolding mkdir_args
mkdir_args-IsTable [] s h = search keeps
mkdir_args-IsTable (x0 ∷ []) s h = search (keeps, cnmkdir-Kept) depth 9
mkdir_args-IsTable (x0 ∷ x1 ∷ rest) s h = search keeps

pub rmdir_args-IsTable :
    (argv : List Text) (s : Sys) → IsTable (fds s) → Kept IsTable (rmdir_args argv s)
unfolding rmdir_args
rmdir_args-IsTable [] s h = search keeps
rmdir_args-IsTable (x0 ∷ []) s h = search (keeps, cnrmdir-Kept) depth 9
rmdir_args-IsTable (x0 ∷ x1 ∷ rest) s h = search keeps

pub rm_args-IsTable : (argv : List Text) (s : Sys) → IsTable (fds s) → Kept IsTable (rm_args argv s)
unfolding rm_args
rm_args-IsTable [] s h = search keeps
rm_args-IsTable (x0 ∷ []) s h = search keeps
rm_args-IsTable (x0 ∷ x1 ∷ rest) s h = search keeps

pub cat_args-IsTable :
    (argv : List Text) (s : Sys) → IsTable (fds s) → Kept IsTable (cat_args argv s)
unfolding cat_args
cat_args-IsTable [] s h = search keeps
cat_args-IsTable (x0 ∷ []) s h = search (keeps, cncat-IsTable, cat_text-IsTable) depth 9
cat_args-IsTable (x0 ∷ x1 ∷ rest) s h = search keeps

pub cd_args-IsTable : (argv : List Text) (s : Sys) → IsTable (fds s) → Kept IsTable (cd_args argv s)
unfolding cd_args
cd_args-IsTable [] s h = search keeps
cd_args-IsTable (x0 ∷ []) s h = search (keeps, cncd-Kept) depth 9
cd_args-IsTable (x0 ∷ x1 ∷ rest) s h = search keeps

ls_in-IsTable : (name : Text) (s : Sys) → IsTable (fds s) → Kept IsTable (ls_in name s)
unfolding ls_in
ls_in-IsTable name s h = search (keeps, cnls-Kept)

pub ls_args-IsTable : (argv : List Text) (s : Sys) → IsTable (fds s) → Kept IsTable (ls_args argv s)
unfolding ls_args
ls_args-IsTable [] s h = search (keeps, ls_in-IsTable) depth 9
ls_args-IsTable (x0 ∷ []) s h = search (keeps, ls_in-IsTable) depth 9
ls_args-IsTable (x0 ∷ x1 ∷ rest) s h = search keeps

pub pwd_args-IsTable :
    (argv : List Text) (s : Sys) → IsTable (fds s) → Kept IsTable (pwd_args argv s)
unfolding pwd_args
pwd_args-IsTable [] s h = search (keeps, cnpwd-Kept) depth 9
pwd_args-IsTable (x0 ∷ rest) s h = search keeps

pub tree_args-IsTable :
    (describe : Inode → Text) (argv : List Text) (s : Sys)
    → IsTable (fds s)
    → Kept IsTable (tree_args describe argv s)
unfolding tree_args
tree_args-IsTable describe [] s h = search (keeps, cntree-Kept) depth 9
tree_args-IsTable describe (x0 ∷ rest) s h = search keeps

pub import_args-IsTable :
    (content : Text → Option Text) (complete : Bool) (argv : List Text) (s : Sys)
    → IsTable (fds s)
    → Kept IsTable (import_args content complete argv s)
unfolding import_args
import_args-IsTable content complete [] s h = search keeps
import_args-IsTable content complete (x0 ∷ []) s h = search keeps
import_args-IsTable content complete (x0 ∷ x1 ∷ []) s h = search (keeps, cnimport-IsTable) depth 9
import_args-IsTable content complete (x0 ∷ x1 ∷ x2 ∷ rest) s h = search keeps

pub export_args-IsTable :
    (content : Text → Option Text) (complete : Bool) (argv : List Text) (s : Sys)
    → IsTable (fds s)
    → Kept IsTable (export_args content complete argv s)
unfolding export_args
export_args-IsTable content complete [] s h = search keeps
export_args-IsTable content complete (x0 ∷ []) s h = search keeps
export_args-IsTable content complete (x0 ∷ x1 ∷ []) s h = search (keeps, cnimport-IsTable) depth 9
export_args-IsTable content complete (x0 ∷ x1 ∷ x2 ∷ rest) s h = search keeps
