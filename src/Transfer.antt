-- ===== src/Transfer.antt =====
-- src/fs.c: cat, import and export, which move whole files.
pub mod Export
pub mod Table
use cdnw_sh.Base.{
  ℕ, ◌+◌, ◌%◌, ◌^◌, Bool, ltb, ◌==◌, if◌then◌else◌, not, Option, none, some, List, [], length,
  codes,
}
use cdnw_sh.Params.{fd_read, fd_write, max_fd}
use cdnw_sh.Sys.{DirPtr, M, Code, success, failure, undefined, pure, halt, ◌>>=◌, ◌>>◌}
use cdnw_sh.Inode.{inode_read}
use cdnw_sh.Dir.{cnopendir, cnstat}
use cdnw_sh.Make.{cncreat}
use cdnw_sh.Files.{minus_one, cnopen, cnread, cnwrite, cnclose}

-- cnopendir("."), whose result the callers dereference.
unfoldable pub here : M DirPtr
here = do
  opened ← cnopendir (codes ".")
  elim opened [ none ↦ halt undefined | some dir ↦ pure dir ]

-- The text that cat copies to the buffer, or none for -1. The descriptor is cut to an int8_t, and
-- stays open.
unfoldable pub cncat : List ℕ → M (Option (List ℕ))
cncat name = do
  dir ← here
  (found, dir') ← cnstat dir name
  elim found [
    | none ↦ pure none
    | some inode_id ↦ do
      file_i ← inode_read inode_id
      (fd, _) ← cnopen dir' name fd_read
      if ltb (fd % 2 ^ 8) (2 ^ 7)
          then (do text ← cnread file_i.size (fd % 2 ^ 8); pure (some text))
          else pure none
  ]

-- The rest of cnimport, with the guest file open. `complete` tells if fread got the whole file.
unfoldable pub import_into : List ℕ → Bool → ℕ → M Code
import_into content complete g_file =
    if complete
    then (do
      result ← cnwrite content g_file
      cnclose g_file
      if ltb 0 result then pure success else pure failure)
    else (do cnclose g_file; pure failure)

-- `h_file` is the host file's content, or none where fopen fails. Every check that fails before the
-- guest file is open closes a descriptor that is not yet initialised, or -1.
unfoldable pub cnimport : Option (List ℕ) → Bool → List ℕ → M Code
unfolding import_into
cnimport h_file complete g_name = elim h_file [
  | none ↦ halt undefined
  | some content ↦ do
    cwd ← here
    (code, cwd') ← cncreat cwd g_name
    elim code [
      | failure ↦ halt undefined
      | success ↦ do
        (g_file, _) ← cnopen cwd' g_name fd_write
        if ltb g_file (2 ^ 15) then import_into content complete g_file else halt undefined
    ]
]

-- The end of cnexport: the text must have h_size bytes, and fwrite must write some. `written` is the
-- result of fwrite for the text. The bytes for the host file come back with the code.
unfoldable pub export_text : ℕ → ℕ → (List ℕ → ℕ) → M (Code × List ℕ)
export_text g_file h_size written = do
  text ← cnread h_size g_file
  cnclose g_file
  if length text == h_size
      then (if ltb 0 (written text) then pure (success, text) else pure (failure, text))
      else pure (failure, [])

-- `opens` tells if fopen opens the host file.
unfoldable pub cnexport : List ℕ → Bool → (List ℕ → ℕ) → M (Code × List ℕ)
unfolding export_text
cnexport g_name opens written =
    if opens
    then (do
      cwd ← here
      (g_file, cwd') ← cnopen cwd g_name fd_read
      if ltb g_file (2 ^ 15)
          then (do
            (found, _) ← cnstat cwd' g_name
            elim found [
              | none ↦ do cnclose g_file; halt undefined
              | some inode_id ↦ do
                g_inode ← inode_read inode_id
                export_text g_file g_inode.size written
            ])
          else halt undefined)
    else halt undefined
