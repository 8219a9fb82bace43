-- ===== src/Shell/Guard.antt =====
-- The commands before mkfs, and mkfs itself.
use cdnw_sh.Base.{ap, if◌then◌else◌, ℕ, ◌≡◌, refl, true, false, Bool, Option, some, List, codes}
use cdnw_sh.Params.{vfs_good}
use cdnw_sh.Sys.{Sys, Inode, DirPtr, M, ok, stop, exited, success, pure, ◌>>◌}
use cdnw_sh.Blockdev.{HostFile, blockdev_attach}
use cdnw_sh.Alloc.{IsAlloc}
use cdnw_sh.Dir.Scan.{IsListing}
use cdnw_sh.Mkfs.{cnmkfs}
use cdnw_sh.Mkfs.Fresh.{formatted, cnmkfs-formatted}
use cdnw_sh.Mount.{cnmount}
use cdnw_sh.Mount.Ready.{cnmkfs-cnmount}
use cdnw_sh.Mkfs.Dots.{dots}
use cdnw_sh.Shell.Table.{Text}
use cdnw_sh.Shell.{
  chk_vfs, no_vfs_text, sh_mkfs, sh_open, sh_close, sh_read, sh_write, sh_seek, sh_mkdir, sh_rmdir,
  sh_rm, sh_cat, sh_cd, sh_ls, sh_pwd, sh_tree, sh_import, sh_export,
}

chk_vfs-off : (s : Sys) (body : M Text) → s.vfs_on ≡ false → chk_vfs body s ≡ ok no_vfs_text s
unfolding chk_vfs
chk_vfs-off s body off = rw off refl

pub chk_vfs-on : (s : Sys) (body : M Text) → s.vfs_on ≡ true → chk_vfs body s ≡ body s
unfolding chk_vfs
chk_vfs-on s body on = ap (λ b. (if b then body else pure no_vfs_text) s) on

-- Before mkfs, every command on the file system, whatever its arguments are, answers that none is
-- mounted, and changes nothing.
pub commands_before_mkfs :
    (s : Sys) (argv : List Text) (strtol : Text → ℕ) (decimal : ℕ → Text) (describe : Inode → Text)
    (content : Text → Option Text) (complete : Bool)
    → s.vfs_on ≡ false
    → (sh_open decimal argv s ≡ ok no_vfs_text s)
      × (sh_close strtol argv s ≡ ok no_vfs_text s)
      × (sh_read strtol argv s ≡ ok no_vfs_text s)
      × (sh_write strtol argv s ≡ ok no_vfs_text s)
      × (sh_seek strtol argv s ≡ ok no_vfs_text s)
      × (sh_mkdir argv s ≡ ok no_vfs_text s)
      × (sh_rmdir argv s ≡ ok no_vfs_text s)
      × (sh_rm argv s ≡ ok no_vfs_text s)
      × (sh_cat argv s ≡ ok no_vfs_text s)
      × (sh_cd argv s ≡ ok no_vfs_text s)
      × (sh_ls argv s ≡ ok no_vfs_text s)
      × (sh_pwd argv s ≡ ok no_vfs_text s)
      × (sh_tree describe argv s ≡ ok no_vfs_text s)
      × (sh_import content complete argv s ≡ ok no_vfs_text s)
      × (sh_export content complete argv s ≡ ok no_vfs_text s)
unfolding sh_open sh_close sh_read sh_write sh_seek sh_mkdir sh_rmdir sh_rm sh_cat sh_cd sh_ls
    sh_pwd sh_tree sh_import sh_export
commands_before_mkfs s argv strtol decimal describe content complete off = (
  chk_vfs-off s _ off,
  chk_vfs-off s _ off,
  chk_vfs-off s _ off,
  chk_vfs-off s _ off,
  chk_vfs-off s _ off,
  chk_vfs-off s _ off,
  chk_vfs-off s _ off,
  chk_vfs-off s _ off,
  chk_vfs-off s _ off,
  chk_vfs-off s _ off,
  chk_vfs-off s _ off,
  chk_vfs-off s _ off,
  chk_vfs-off s _ off,
  chk_vfs-off s _ off,
  chk_vfs-off s _ off,
)

-- Every call of blockdev_attach on the host file succeeds.
pub record IsGood (host : HostFile) : Type 0 where
  pub opens : host.opens ≡ true
  pub stretches : host.stretches ≡ true
  pub grows : host.grows ≡ true
  pub maps : host.maps ≡ true

pub blockdev_attach-ok :
    (s : Sys) (host : HostFile)
    → IsGood host
    → s.attached ≡ false
    → blockdev_attach host s ≡ ok success (record s { disk = host.mapped; attached = true })
unfolding blockdev_attach
blockdev_attach-ok s host h off = rw (off, h.opens, h.stretches, h.grows, h.maps) refl

blockdev_attach_again :
    (s : Sys) (host : HostFile) → s.attached ≡ true → blockdev_attach host s ≡ stop exited
unfolding blockdev_attach
blockdev_attach_again s host on = rw on refl

-- The second half of mkfs and mount.
pub cnmount-formatted :
    (s t : Sys)
    → s.attached ≡ true
    → (cnmkfs >> cnmount) s ≡ ok success t
    → cnmount (formatted s) ≡ ok success t
cnmount-formatted s t on h = rw (cnmkfs-formatted s on) at h

-- The first mkfs, where the host file can be mapped: the command reports success, the commands on
-- the file system are open from then on, the caches agree, and the current directory is an empty
-- root directory. A second mkfs ends the shell by exit(1).
pub sh_mkfs-sh_mkfs :
    (s : Sys) (host again : HostFile)
    → IsGood host
    → s.attached ≡ false
    → (t : Sys) × (dir : DirPtr) × (sh_mkfs host s
        ≡ ok (codes "Virtual file system initialized and mounted.") t)
      × (t.vfs_on ≡ true)
      × (t.fs_state ≡ vfs_good)
      × IsAlloc t
      × (t.cwd ≡ some dir)
      × IsListing dir (dots 0 0)
      × (sh_mkfs again t ≡ stop exited)
unfolding sh_mkfs
sh_mkfs-sh_mkfs s host again h off =
    let s1 = record s { disk = host.mapped; attached = true } in
    let (t, dir, run, good, alloc, cwd, zero_id, listing, free) = cnmkfs-cnmount s1 refl in
    (
      record t { vfs_on = true },
      dir,
      rw (blockdev_attach-ok s host h off)
          (rw (cnmkfs-formatted s1 refl) (rw (cnmount-formatted s1 t refl run) refl)),
      refl,
      good,
      record {
        on = alloc.on;
        block_bytes = alloc.block_bytes;
        inode_bytes = alloc.inode_bytes;
        blocks = alloc.blocks;
        inodes = alloc.inodes;
      },
      cwd,
      listing,
      rw (blockdev_attach_again (record t { vfs_on = true }) again alloc.on) refl,
    )
