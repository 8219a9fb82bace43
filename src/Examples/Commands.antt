-- ===== src/Examples/Commands.antt =====
-- Examples: commands of the shell.
use cdnw_sh.Base.{◌≡◌, refl, true, false, Option, none, some, List, [], ◌∷◌, codes, length}
use cdnw_sh.Params.{vfs_good}
use cdnw_sh.Sys.{Sys, Inode, DirPtr, ok, stop, exited}
use cdnw_sh.Blockdev.{HostFile}
use cdnw_sh.Alloc.{IsAlloc}
use cdnw_sh.Dir.Scan.{IsListing}
use cdnw_sh.Mkfs.Dots.{dots}
use cdnw_sh.Shell.Table.{Text}
use cdnw_sh.Shell.{
  no_vfs_text, sh_mkfs, sh_open, sh_close, sh_read, sh_write, sh_seek, sh_mkdir, sh_rmdir, sh_rm,
  sh_cat, sh_cd, sh_ls, sh_pwd, sh_tree, sh_import, sh_export,
}
use cdnw_sh.Shell.Guard.{IsGood, commands_before_mkfs, sh_mkfs-sh_mkfs}
use cdnw_sh.Examples.Data.{filler, device}

-- The shell when it starts.
abbrev pub started : Sys
started = record device { attached = false; vfs_on = false; fs_superblk = false }

abbrev pub host : HostFile
host = record { opens = true; stretches = true; grows = true; maps = true; mapped = λ l. filler }

pub host-IsGood : IsGood host
host-IsGood = record { opens = refl; stretches = refl; grows = refl; maps = refl }

abbrev one_arg : List Text
one_arg = codes "a" ∷ []

abbrev pub no_inode_text : Inode → Text
no_inode_text i = []

abbrev pub no_file : Text → Option Text
no_file name = none

commands_before_mkfs_example :
    (sh_open (λ n. []) one_arg started ≡ ok no_vfs_text started)
    × (sh_close length one_arg started ≡ ok no_vfs_text started)
    × (sh_read length one_arg started ≡ ok no_vfs_text started)
    × (sh_write length one_arg started ≡ ok no_vfs_text started)
    × (sh_seek length one_arg started ≡ ok no_vfs_text started)
    × (sh_mkdir one_arg started ≡ ok no_vfs_text started)
    × (sh_rmdir one_arg started ≡ ok no_vfs_text started)
    × (sh_rm one_arg started ≡ ok no_vfs_text started)
    × (sh_cat one_arg started ≡ ok no_vfs_text started)
    × (sh_cd one_arg started ≡ ok no_vfs_text started)
    × (sh_ls one_arg started ≡ ok no_vfs_text started)
    × (sh_pwd one_arg started ≡ ok no_vfs_text started)
    × (sh_tree no_inode_text one_arg started ≡ ok no_vfs_text started)
    × (sh_import no_file true one_arg started ≡ ok no_vfs_text started)
    × (sh_export no_file true one_arg started ≡ ok no_vfs_text started)
commands_before_mkfs_example =
    commands_before_mkfs started one_arg length (λ n. []) no_inode_text no_file true refl

sh_mkfs-sh_mkfs_example :
    (t : Sys) × (dir : DirPtr) × (sh_mkfs host started
      ≡ ok (codes "Virtual file system initialized and mounted.") t)
    × (t.vfs_on ≡ true)
    × (t.fs_state ≡ vfs_good)
    × IsAlloc t
    × (t.cwd ≡ some dir)
    × IsListing dir (dots 0 0)
    × (sh_mkfs host t ≡ stop exited)
sh_mkfs-sh_mkfs_example = sh_mkfs-sh_mkfs started host host host-IsGood refl
