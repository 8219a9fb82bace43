-- ===== src/Server/Whole.antt =====
-- main, from the start to the end of the server.
use cdnw_sh.Base.{ℕ, suc, ◌≡◌, refl, true, false, some, List, [], load, load-store, arith}
use cdnw_sh.Params.{fs_valid}
use cdnw_sh.Sys.{Sys, ok, stop, undefined, and_then}
use cdnw_sh.Blockdev.{blockdev_detach, write_block}
use cdnw_sh.Alloc.{state_at}
use cdnw_sh.Mount.{cnumount}
use cdnw_sh.Mount.Remount.{unmounted, cnumount-ok}
use cdnw_sh.Shell.Dispatch.{Env}
use cdnw_sh.Net.{Net, Status}
use cdnw_sh.Server.{Round, clean_svr, main}
use cdnw_sh.Socket.{Listener, listen_on, initial_net, start_listening}
use cdnw_sh.Server.Session.{Session, Script, play, finish, exited, run-play}

-- The start, where getaddrinfo answers.
abbrev running_net : Listener → Net
running_net l = record (listen_on l initial_net).1 { status = Status.run }

-- Every call of start_listening succeeds.
pub record IsOpen (l : Listener) (fd : ℕ) : Type 0 where
  pub resolves : l.resolves ≡ true
  pub sockfd : l.sockfd ≡ some (suc fd)
  pub binds : l.binds ≡ true
  pub listens : l.listens ≡ true

-- The server behind start_listening.
abbrev pub listening : ℕ → Net
unfolding initial_net
listening fd = record initial_net { status = Status.run; svrfd = some (suc fd); num_fds = 2 }

abbrev pub unmapped : Sys → Sys
unmapped s = record s { vfs_on = false }

start_listening-ok :
    (l : Listener) (fd : ℕ) (s : Sys)
    → IsOpen l fd
    → start_listening l s ≡ ok (0, listening fd) (unmapped s)
unfolding start_listening listen_on initial_net
start_listening-ok l fd s h = rw (h.resolves, h.sockfd, h.binds, h.listens) refl

pub main-play :
    (l : Listener) (fd : ℕ) (env : Env) (rounds : List Round) (script : Script) (s : Sys)
    → IsOpen l fd
    → Session env rounds script
    → main l env rounds s ≡ and_then (play env script (listening fd) (unmapped s)) (finish env 0)
unfolding main initial_net
main-play l fd env rounds script s h session =
    rw (start_listening-ok l fd s h)
      (run-play env rounds script (listening fd) (unmapped s) session refl refl)

pub clean_svr-mounted :
    (env : Env) (net : Net) (s : Sys)
    → net.remote ≡ false
    → s.attached ≡ true
    → s.fs_superblk ≡ true
    → clean_svr env net s ≡ ok net (record (unmounted s) { attached = false })
unfolding clean_svr blockdev_detach
clean_svr-mounted env net s alone on points = rw (cnumount-ok s on points, on, alone) refl

clean_svr-unmounted :
    (env : Env) (net : Net) (s : Sys) → s.fs_superblk ≡ false → clean_svr env net s ≡ stop undefined
unfolding clean_svr cnumount
clean_svr-unmounted env net s unset = rw unset refl

-- exit, without arguments, as the first line typed, at a server that could listen, with nothing
-- from a socket in that round, and with no file system mounted before: cnumount dereferences
-- fs.superblk, which is NULL.
pub main_exit_first :
    (l : Listener) (fd : ℕ) (env : Env) (rounds : List Round) (s : Sys)
    → IsOpen l fd
    → Session env rounds []
    → s.fs_superblk ≡ false
    → main l env rounds s ≡ stop undefined
unfolding play initial_net
main_exit_first l fd env rounds s h session unset =
    rw (main-play l fd env rounds [] s h session)
      (rw (clean_svr-unmounted env (exited (listening fd)) (unmapped s) unset) refl)

pub clean_mark : (s : Sys) → load 2 ((unmounted s).disk 0) state_at ≡ fs_valid
unfolding write_block
clean_mark s = load-store 2 s.superblk_cache state_at fs_valid (omega arith)
