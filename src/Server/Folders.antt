-- ===== src/Server/Folders.antt =====
-- A session that makes a directory and lists it.
use cdnw_sh.Base.{
  ℕ, ◌<◌, ◌^◌, ◌≡◌, refl, ◌∙◌, true, false, lt→ltb, some, List, [], ◌∷◌, ◌++◌, codes, load, length,
  length-append, arith,
}
use cdnw_sh.Sys.{Sys, ok, success}
use cdnw_sh.Blockdev.{HostFile}
use cdnw_sh.Inode.Table.{with_inode}
use cdnw_sh.FileData.File.{loaded, near_bytes}
use cdnw_sh.Params.{fs_valid}
use cdnw_sh.Alloc.{state_at}
use cdnw_sh.Mkfs.Fresh.{formatted, cnmkfs-formatted}
use cdnw_sh.Dir.{cnls}
use cdnw_sh.Make.{cnmkdir}
use cdnw_sh.Make.First.{IsNew, first_mounted-vfs_on, first_cnmkdir}
use cdnw_sh.Mount.Ready.{first_mounted, first_mounted-ok}
use cdnw_sh.Shell.Table.{Text, Command}
use cdnw_sh.Shell.Line.Argument.{Word, content}
use cdnw_sh.Shell.{sh_mkfs, sh_mkdir, sh_ls, mkdir_args, ls_args, ls_in}
use cdnw_sh.Shell.Guard.{IsGood, chk_vfs-on, blockdev_attach-ok, cnmount-formatted}
use cdnw_sh.Shell.Dispatch.{Env, handle, local}
use cdnw_sh.Net.{Net}
use cdnw_sh.Server.{Round, print, main}
use cdnw_sh.Socket.{Listener, initial_net}
use cdnw_sh.Mount.Remount.{unmounted}
use cdnw_sh.Server.Session.{Session, Script, play, exited}
use cdnw_sh.Server.Whole.{IsOpen, listening, unmapped, main-play, clean_svr-mounted, clean_mark}

-- The device as mkfs finds it, with the flag that mkfs sets at its end.
abbrev ready : HostFile → Sys → Sys
ready host s = record s { disk = host.mapped; attached = true; vfs_on = true }

sh_mkfs-first_mounted :
    (s : Sys) (host : HostFile)
    → IsGood host
    → s.attached ≡ false
    → sh_mkfs host s
      ≡ ok (codes "Virtual file system initialized and mounted.") (first_mounted (ready host s))
unfolding sh_mkfs formatted with_inode loaded near_bytes
sh_mkfs-first_mounted s host good off =
    let s1 = record s { disk = host.mapped; attached = true } in
    rw (blockdev_attach-ok s host good off) (
      rw (cnmkfs-formatted s1 refl)
        (rw (cnmount-formatted s1 (first_mounted s1) refl (first_mounted-ok s1 refl)) refl))

-- What the session prints before exit.
abbrev mounted_text : Text
mounted_text = codes "Virtual file system initialized and mounted."

abbrev listing_text : Text → Text
listing_text name = codes ".\n..\n" ++ name ++ 10 ∷ []

listing_short : (name : Text) → length name < 256 → length (listing_text name) < 4096
listing_short name short = omega (arith, short, length-append name (10 ∷ []))

abbrev folder_script : Word → Script
folder_script w = (Command.mkfs, []) ∷ (Command.mkdir, w ∷ []) ∷ (Command.ls, []) ∷ []

-- The handlers, from what the file system answers.
sh_mkdir-made :
    (name : Text) (s t : Sys)
    → s.vfs_on ≡ true
    → cnmkdir name s ≡ ok success t
    → sh_mkdir (name ∷ []) s ≡ ok (codes "Directory created.") t
unfolding sh_mkdir mkdir_args
sh_mkdir-made name s t on made = chk_vfs-on s (mkdir_args (name ∷ [])) on ∙ rw made refl

sh_ls-listed :
    (text : Text) (s : Sys)
    → s.vfs_on ≡ true
    → length text < 4096
    → cnls [] s ≡ ok (some text) s
    → sh_ls [] s ≡ ok text s
unfolding sh_ls ls_args ls_in
sh_ls-listed text s on short listed =
    chk_vfs-on s (ls_args []) on ∙ rw listed (rw (lt→ltb (length text) 4096 short) refl)

play-folders :
    (env : Env) (w : Word) (net : Net) (s s1 t : Sys)
    → sh_mkfs env.host s ≡ ok mounted_text s1
    → sh_mkdir (content w ∷ []) s1 ≡ ok (codes "Directory created.") t
    → sh_ls [] t ≡ ok (listing_text (content w)) t
    → play env (folder_script w) net s
      ≡ ok
          (print
            (some (listing_text (content w)))
            (print (some (codes "Directory created.")) (print (some mounted_text) net)))
          t
unfolding play handle local
play-folders env w net s s1 t formats makes lists = rw formats (rw makes (rw lists refl))

-- A session of mkfs, mkdir of one name, ls, and exit, typed at a server that could listen. The name
-- has 1 to 255 bytes, no slash and no NUL, is neither "." nor "..", and is typed without quotes,
-- spaces and line ends, or between double quotes and without quotes and line ends inside; each line
-- has fewer than 256 bytes, and nothing comes from a socket. No device is attached, the host file
-- can be opened and mapped, and the clock fits 32 bits. The program ends with 0, having printed
-- what the four commands answer, in that order; ls prints ".", ".." and the name, a newline behind
-- each; the device is detached, and its superblock is marked as cleanly unmounted.
pub main_mkdir_ls :
    (l : Listener) (fd : ℕ) (env : Env) (w : Word) (rounds : List Round) (s : Sys)
    → IsOpen l fd
    → IsNew (content w)
    → Session env rounds (folder_script w)
    → IsGood env.host
    → s.attached ≡ false
    → ((n : ℕ) → s.clock n < 2 ^ 32)
    → (net : Net) × (t : Sys) × (main l env rounds s ≡ ok (some 0, net) t)
      × (net.printed
          ≡ codes "Virtual file system initialized and mounted."
            ∷ codes "Directory created."
            ∷ (codes ".\n..\n" ++ content w ++ 10 ∷ [])
            ∷ codes "Exiting..."
            ∷ [])
      × (t.attached ≡ false)
      × (load 2 (t.disk 0) state_at ≡ fs_valid)
unfolding initial_net
main_mkdir_ls l fd env w rounds s h fresh session good off clock_fits =
    let s0 = unmapped s in
    let (t, new, made, opened, lists, listed, on, points, alloc, again) =
      first_cnmkdir (ready env.host s0) refl (content w) fresh clock_fits in
    let net : Net = exited (
      print (some (listing_text (content w)))
        (print (some (codes "Directory created.")) (print (some mounted_text) (listening fd)))) in
    (
      net,
      record (unmounted t) { attached = false },
      rw
          (
            main-play l fd env rounds _ s h session,
            play-folders env w (listening fd) s0 (first_mounted (ready env.host s0)) t
                (sh_mkfs-first_mounted s0 env.host good off)
                (sh_mkdir-made (content w) (first_mounted (ready env.host s0)) t
                  (first_mounted-vfs_on (ready env.host s0)) made)
                (sh_ls-listed (listing_text (content w)) t on
                  (listing_short (content w) fresh.named.short) listed),
          )
          (rw (clean_svr-mounted env net t refl alloc.on points) refl),
      refl,
      refl,
      clean_mark t,
    )
