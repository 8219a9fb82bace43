-- ===== src/Shell.antt =====
-- src/shell.c: the handlers of the commands that work on the file system. A handler takes its
-- arguments and returns the text that it allocates. strtol and sprintf are arguments: `strtol` gives
-- the bits of the long.
pub mod Table
pub mod Line
pub mod Dispatch
pub mod Typed
pub mod Guard
pub mod Arguments
pub mod Descriptors
use cdnw_sh.Base.{
  ℕ, ◌+◌, ◌-◌, ◌%◌, ◌^◌, Bool, true, ltb, leb, ◌==◌, ◌||◌, if◌then◌else◌, Option, none, some, List,
  [], ◌∷◌, ◌++◌, codes, length, c_string,
}
use cdnw_sh.Params.{fd_read, fd_write}
use cdnw_sh.Sys.{
  Sys, Inode, M, Code, success, failure, undefined, pure, halt, gets, modify, defined, ◌>>=◌, ◌>>◌,
}
use cdnw_sh.Blockdev.{HostFile, blockdev_attach}
use cdnw_sh.Mkfs.{cnmkfs}
use cdnw_sh.Mount.{cnmount}
use cdnw_sh.Dir.{cncd, cnpwd, cnls}
use cdnw_sh.Make.{cnmkdir, cnrmdir}
use cdnw_sh.Files.{cnopen, cnclose, cnread, cnseek, cnwrite}
use cdnw_sh.Transfer.{cncat, cnimport}
use cdnw_sh.Tree.{cntree}
use Table.{Text, Command, usage}
use cdnw_sh.Net.{buffer_string}

-- err_str(SH_ERR_NOVFS) and err_str(SH_ERR_UNK)
abbrev pub no_vfs_text : Text
no_vfs_text = codes "ERROR: invalid operation, no virtual file system has been mounted"

abbrev pub unknown_text : Text
unknown_text = codes "ERROR: unknown problem"

-- if(chk_vfs(&result)<0) return result;
unfoldable pub chk_vfs : M Text → M Text
chk_vfs body = do on ← gets (λ s. s.vfs_on); if on then body else pure no_vfs_text

-- The text for a code: an error, or the command's own message.
abbrev pub report : Text → Code → Text
report done success = done
report done failure = unknown_text

abbrev pub text_or_error : Option Text → Text
text_or_error none = unknown_text
text_or_error (some text) = text

-- A text that strcpy and its like put into a buffer of that size, with its NUL.
abbrev pub in_buffer : ℕ → Text → M Text
in_buffer cap text = do defined (ltb (length text) cap); pure text

unfoldable pub sh_mkfs : HostFile → M Text
sh_mkfs host = do
  blockdev_attach host
  cnmkfs
  cnmount
  modify (λ s. record s { vfs_on = true })
  pure (codes "Virtual file system initialized and mounted.")

-- The mode by the first letter of the argument, behind a quote if it has one.
unfoldable pub mode_letter : List ℕ → Option ℕ
mode_letter [] = none
mode_letter (c ∷ cs) = if c == b'r' then some fd_read else if c == b'w' then some fd_write else none

unfoldable pub open_mode : List ℕ → Option ℕ
unfolding mode_letter
open_mode [] = none
open_mode (c ∷ cs) = if (c == 39) || (c == 34) then mode_letter cs else mode_letter (c ∷ cs)

-- cnopen(cwd, ...): the current directory itself is passed, and changes.
unfoldable pub open_in_cwd : Text → ℕ → M ℕ
open_in_cwd name mode = do
  cwd ← gets (λ s. s.cwd)
  elim cwd [
    | none ↦ halt undefined
    | some dir ↦ do
      (fd, dir') ← cnopen dir name mode
      modify (λ s. record s { cwd = some dir' })
      pure fd
  ]

-- The descriptor is tested as an int8_t. The buffer has room for four digits and a NUL.
unfoldable pub open_args : (ℕ → Text) → List Text → M Text
unfolding open_mode
open_args decimal (name ∷ mode ∷ []) = elim (open_mode mode) [
  | none ↦ pure unknown_text
  | some m ↦ do
    fd ← open_in_cwd name m
    if ltb (fd % 2 ^ 8) (2 ^ 7)
        then in_buffer 19 (codes "SUCCESS, fd = " ++ decimal fd)
        else pure unknown_text
]
open_args decimal _ = pure (usage Command.open_file)

unfoldable pub sh_open : (ℕ → Text) → List Text → M Text
sh_open decimal argv = chk_vfs (open_args decimal argv)

-- (int16_t)strtol(arg, NULL, 10), as bits, and the same widened to 32 bits.
abbrev pub int16 : ℕ → ℕ
int16 n = n % 2 ^ 16

abbrev pub widened : ℕ → ℕ
widened n = if ltb n (2 ^ 15) then n else n + (2 ^ 32 - 2 ^ 16)

unfoldable pub close_args : (Text → ℕ) → List Text → M Text
close_args strtol (fd ∷ []) = do
  code ← cnclose (int16 (strtol fd))
  pure (report (codes "File closed.") code)
close_args strtol _ = pure (usage Command.close)

unfoldable pub sh_close : (Text → ℕ) → List Text → M Text
sh_close strtol argv = chk_vfs (close_args strtol argv)

-- The bytes read are the text; the buffer has no room for a NUL behind them.
-- The callers take the result for a string, up to its first NUL. The buffer has a byte for each byte
-- to read and none more, so that a result without a NUL has no end where all of them were read.
unfoldable pub read_args : (Text → ℕ) → List Text → M Text
read_args strtol (fd ∷ bytes ∷ []) = do
  text ← cnread (strtol bytes) (int16 (strtol fd))
  if length text == 0 then pure unknown_text else buffer_string (strtol bytes) text
read_args strtol _ = pure (usage Command.read)

unfoldable pub sh_read : (Text → ℕ) → List Text → M Text
sh_read strtol argv = chk_vfs (read_args strtol argv)

unfoldable pub write_args : (Text → ℕ) → List Text → M Text
write_args strtol (fd ∷ text ∷ []) = do
  n ← cnwrite text (int16 (strtol fd))
  if n == 0 then pure unknown_text else pure (codes "Write successful.")
write_args strtol _ = pure (usage Command.write)

unfoldable pub sh_write : (Text → ℕ) → List Text → M Text
sh_write strtol argv = chk_vfs (write_args strtol argv)

unfoldable pub seek_args : (Text → ℕ) → List Text → M Text
seek_args strtol (fd ∷ offset ∷ []) = do
  code ← cnseek (int16 (strtol fd)) (widened (int16 (strtol offset)))
  pure (report (codes "Seek successful.") code)
seek_args strtol _ = pure (usage Command.seek)

unfoldable pub sh_seek : (Text → ℕ) → List Text → M Text
sh_seek strtol argv = chk_vfs (seek_args strtol argv)

unfoldable pub mkdir_args : List Text → M Text
mkdir_args (name ∷ []) = do code ← cnmkdir name; pure (report (codes "Directory created.") code)
mkdir_args _ = pure (usage Command.mkdir)

unfoldable pub sh_mkdir : List Text → M Text
sh_mkdir argv = chk_vfs (mkdir_args argv)

unfoldable pub rmdir_args : List Text → M Text
rmdir_args (name ∷ []) = do code ← cnrmdir name; pure (report (codes "Directory removed.") code)
rmdir_args _ = pure (usage Command.rmdir)

unfoldable pub sh_rmdir : List Text → M Text
sh_rmdir argv = chk_vfs (rmdir_args argv)

-- No file is removed.
unfoldable pub rm_args : List Text → M Text
rm_args (name ∷ []) = pure (codes "File removed.")
rm_args _ = pure (usage Command.rm)

unfoldable pub sh_rm : List Text → M Text
sh_rm argv = chk_vfs (rm_args argv)

-- The text is copied to 4096 bytes.
-- The result of cncat in its buffer of 4096 bytes, taken for a string like that of read.
unfoldable pub cat_text : Option Text → M Text
cat_text none = pure unknown_text
cat_text (some text) = do defined (leb (length text) 4096); buffer_string 4096 text

unfoldable pub cat_args : List Text → M Text
unfolding cat_text
cat_args (name ∷ []) = do text ← cncat name; cat_text text
cat_args _ = pure (usage Command.cat)

unfoldable pub sh_cat : List Text → M Text
sh_cat argv = chk_vfs (cat_args argv)

unfoldable pub cd_args : List Text → M Text
cd_args (name ∷ []) = do code ← cncd name; pure (report (codes "Directory changed.") code)
cd_args _ = pure (usage Command.cd)

unfoldable pub sh_cd : List Text → M Text
sh_cd argv = chk_vfs (cd_args argv)

unfoldable pub ls_in : Text → M Text
ls_in name = do text ← cnls name; in_buffer 4096 (text_or_error text)

unfoldable pub ls_args : List Text → M Text
ls_args [] = ls_in []
ls_args (name ∷ []) = ls_in name
ls_args _ = pure (usage Command.ls)

unfoldable pub sh_ls : List Text → M Text
sh_ls argv = chk_vfs (ls_args argv)

unfoldable pub pwd_args : List Text → M Text
pwd_args [] = do text ← cnpwd; in_buffer 256 text
pwd_args _ = pure (usage Command.pwd)

unfoldable pub sh_pwd : List Text → M Text
sh_pwd argv = chk_vfs (pwd_args argv)

-- The names are copied with the bytes behind their NUL; the callers take the result up to the first.
unfoldable pub tree_args : (Inode → Text) → List Text → M Text
tree_args describe [] = do
  text ← cntree describe
  whole ← in_buffer 4096 text
  pure (c_string whole)
tree_args describe _ = pure (usage Command.tree)

unfoldable pub sh_tree : (Inode → Text) → List Text → M Text
sh_tree describe argv = chk_vfs (tree_args describe argv)

-- `content` is what the host has under a name, and `complete` tells if fread gets all of it.
unfoldable pub import_args : (Text → Option Text) → Bool → List Text → M Text
import_args content complete (h_name ∷ g_name ∷ []) = do
  code ← cnimport (content h_name) complete g_name
  pure (report (codes "File imported.") code)
import_args content complete _ = pure (usage Command.import)

unfoldable pub sh_import : (Text → Option Text) → Bool → List Text → M Text
sh_import content complete argv = chk_vfs (import_args content complete argv)

-- The code calls cnimport here too.
unfoldable pub export_args : (Text → Option Text) → Bool → List Text → M Text
export_args content complete (g_name ∷ h_name ∷ []) = do
  code ← cnimport (content g_name) complete h_name
  pure (report (codes "File exported.") code)
export_args content complete _ = pure (usage Command.export)

unfoldable pub sh_export : (Text → Option Text) → Bool → List Text → M Text
sh_export content complete argv = chk_vfs (chk_vfs (export_args content complete argv))
