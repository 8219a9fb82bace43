-- ===== src/Transfer/Table.antt =====
-- The descriptor table against its bitmap, over cat, import and export, and over mount.
use cdnw_sh.Base.{
  ℕ, Bool-cases, inl, inr, refl, ltb, ◌^◌, Bool, true, false, Option, none, some, List, zeros,
}
use cdnw_sh.Params.{fd_read, fd_write}
use cdnw_sh.Sys.{Sys, Code, DirPtr, M, halt, undefined, ◌>>=◌, ◌>>◌}
use cdnw_sh.Frame.{
  Fds, fds, Kept, Kept-bind, Kept-through, Kept-option, Kept-code, Kept-ok, Kept-stop, keeps,
}
use cdnw_sh.Frame.Disk.{blk_read-Kept, inode_read-Kept}
use cdnw_sh.Frame.Dirs.{cnopendir-Kept, cnstat-Kept}
use cdnw_sh.Frame.Make.{cncreat-Kept}
use cdnw_sh.Inode.{inode_read}
use cdnw_sh.Files.{cnopen, cnclose}
use cdnw_sh.Files.Table.{IsTable, cnclose-IsTable}
use cdnw_sh.Files.Calls.{cnopen-IsTable, cnread-IsTable, cnwrite-IsTable}
use cdnw_sh.Mount.{zero_fd, read_metadata, cnmount}
use cdnw_sh.Mkfs.Bitmaps.{zeros-IsBytes, read-zeros}
use cdnw_sh.Transfer.{here, cncat, import_into, cnimport, export_text, cnexport}

here-Kept : {P : Fds → Type 0} (s : Sys) → P (fds s) → Kept P (here s)
unfolding here
here-Kept s h =
    Kept-bind _ _ (cnopendir-Kept _ s h)
      (λ p t h'. Kept-option p _ _ t (search keeps) (λ d. search keeps))

-- The two modes that the code opens files with.
read-IsTable :
    (dir : DirPtr) (name : List ℕ) (s : Sys)
    → IsTable (fds s)
    → Kept IsTable (cnopen dir name fd_read s)
read-IsTable dir name s h = cnopen-IsTable dir name fd_read s refl h

write-IsTable :
    (dir : DirPtr) (name : List ℕ) (s : Sys)
    → IsTable (fds s)
    → Kept IsTable (cnopen dir name fd_write s)
write-IsTable dir name s h = cnopen-IsTable dir name fd_write s refl h

pub cncat-IsTable : (name : List ℕ) (s : Sys) → IsTable (fds s) → Kept IsTable (cncat name s)
unfolding cncat
cncat-IsTable name s h = Kept-bind _ _ (here-Kept s h) (λ dir t h'.
    Kept-bind _ _ (cnstat-Kept dir name t h') (λ p u h2.
      Kept-option p.0 _ _ u (search keeps)
        (λ id. search (keeps, inode_read-Kept, read-IsTable, cnread-IsTable) depth 12)))

import_into-IsTable :
    (content : List ℕ) (complete : Bool) (fd : ℕ) (s : Sys)
    → IsTable (fds s)
    → Kept IsTable (import_into content complete fd s)
unfolding import_into
import_into-IsTable content complete fd s h =
    search (keeps, cnwrite-IsTable, cnclose-IsTable) depth 9

pub cnimport-IsTable :
    (h_file : Option (List ℕ)) (complete : Bool) (g_name : List ℕ) (s : Sys)
    → IsTable (fds s)
    → Kept IsTable (cnimport h_file complete g_name s)
unfolding cnimport
cnimport-IsTable none complete g_name s h = search keeps
cnimport-IsTable (some content) complete g_name s h = Kept-bind _ _ (here-Kept s h) (λ cwd t h'.
    Kept-bind _ _ (cncreat-Kept cwd g_name t h') (λ p u h2.
      Kept-code p.0 _ _ u
        (search (keeps, write-IsTable, import_into-IsTable content complete) depth 9)
        (search keeps)))

export_text-IsTable :
    (g_file size : ℕ) (written : List ℕ → ℕ) (s : Sys)
    → IsTable (fds s)
    → Kept IsTable (export_text g_file size written s)
unfolding export_text
export_text-IsTable g_file size written s h =
    search (keeps, cnread-IsTable, cnclose-IsTable) depth 12

exported-IsTable :
    (g_file : ℕ) (written : List ℕ → ℕ) (found : Option ℕ) (s : Sys)
    → IsTable (fds s)
    → Kept IsTable (
        (elim found as (λ _. M (Code × List ℕ)) [
          | none ↦ cnclose g_file >> halt undefined
          | some inode_id ↦
              inode_read inode_id >>= λ g_inode. export_text g_file g_inode.size written
        ])
          s)
exported-IsTable g_file written none s h = search (keeps, cnclose-IsTable)
exported-IsTable g_file written (some i) s h = search (keeps, inode_read-Kept, export_text-IsTable)

cnexport-IsTable :
    (g_name : List ℕ) (opens : Bool) (written : List ℕ → ℕ) (s : Sys)
    → IsTable (fds s)
    → Kept IsTable (cnexport g_name opens written s)
unfolding cnexport
cnexport-IsTable g_name false written s h = search keeps
cnexport-IsTable g_name true written s h = Kept-bind _ _ (here-Kept s h) (λ cwd t h'.
    Kept-bind _ _ (read-IsTable cwd g_name t h') (λ p u h2. elim (Bool-cases (ltb p.0 (2 ^ 15))) [
      | inl opened ↦ rw opened (
          Kept-bind _ _ (cnstat-Kept p.1 g_name u h2)
            (λ q v h3. exported-IsTable p.0 written q.0 v h3))
      | inr failed ↦ rw failed (Kept-stop _)
    ]))

-- A new table.
pub cleared : IsTable ((λ i. zero_fd), zeros)
cleared = record {
  bytes = zeros-IsBytes;
  agree = λ fd lt. read-zeros fd;
  no_freed = λ fd lt is_open. refl;
}

read_metadata-Kept : {P : Fds → Type 0} (s : Sys) → P (fds s) → Kept P (read_metadata s)
unfolding read_metadata
read_metadata-Kept s h = search (keeps, blk_read-Kept) depth 12

pub cnmount-IsTable : (s : Sys) → Kept IsTable (cnmount s)
unfolding cnmount
cnmount-IsTable s =
    Kept-through {P = λ d. Unit {0}} _ _ (read_metadata-Kept s tt)
      (λ u t h. Kept-bind _ _ (cnopendir-Kept _ _ cleared) (λ root v h'. Kept-ok _ _ h'))
