-- ===== src/Examples/Sessions.antt =====
-- Examples: lines of commands, sessions, and the server's loop.
use cdnw_sh.Base.{
  ℕ, zero, suc, ◌<◌, ◌≡◌, refl, true, false, Option, none, some, List, [], ◌∷◌, ◌++◌, ◌==◌, All,
  map, codes, load, length, arith,
}
use cdnw_sh.Params.{fs_valid}
use cdnw_sh.Sys.{Sys, Ensures, ok, stop, undefined, pure, ◌>>=◌}
use cdnw_sh.Alloc.{state_at}
use cdnw_sh.Shell.Table.{Text, Command, name_of}
use cdnw_sh.Shell.Line.Argument.{Word, content, typed, arguments, quoted}
use cdnw_sh.Shell.Typed.{run_cmd-arguments, sh_help_overflow}
use cdnw_sh.Shell.Dispatch.{Env, handle, local, run_cmd, sh_help}
use cdnw_sh.Net.{Net, Status, max_str}
use cdnw_sh.Socket.{Listener, Sends, initial_net, send_code_of, send_results}
use cdnw_sh.Socket.Sending.{StartsInside, send_results-Ends}
use cdnw_sh.Server.{Round, Loop, run, run_from, main, on_client}
use cdnw_sh.Server.Consistent.{Second}
use cdnw_sh.Server.Rounds.{main-IsConsistent}
use cdnw_sh.Server.Session.{Session, Script, ends, next, IsTyping, play, finish, run-play}
use cdnw_sh.Server.Whole.{IsOpen, main_exit_first}
use cdnw_sh.Server.Folders.{main_mkdir_ls}
use cdnw_sh.Sys.{After}
use cdnw_sh.Frame.{fds}
use cdnw_sh.Files.Table.{IsTable}
use cdnw_sh.Transfer.Table.{cleared}
use cdnw_sh.Server.Descriptors.{main-IsTable}
use cdnw_sh.Examples.Dirs.{spaced-IsNew}
use cdnw_sh.Server.Closed.{IsClosed, run_from-closed}
use cdnw_sh.Server.Remote.{line_of, on_client-line}
use cdnw_sh.Shell.{no_vfs_text, sh_pwd, chk_vfs}
use cdnw_sh.Examples.Commands.{started, host, host-IsGood, no_inode_text, no_file}

abbrev env0 : Env
env0 = record {
  strtol = length;
  decimal = λ n. [];
  describe = no_inode_text;
  content = no_file;
  complete = true;
  host = host;
  dial = record { resolves = true; sockfd = 6; connects = true; closes = true };
  error = codes "?";
}

-- mkdir "a b"
abbrev spaced : List Word
spaced = quoted (codes "a b") ∷ []

run_cmd-arguments_example :
    run_cmd env0 (name_of Command.mkdir ++ arguments spaced []) initial_net ≡ (do
      (text, net') ← handle env0 Command.mkdir (map content spaced) initial_net
      pure (some text, net'))
run_cmd-arguments_example =
    run_cmd-arguments env0 Command.mkdir spaced [] initial_net (ground arith) (ground arith)

sh_help_overflow_example : sh_help (name_of Command.ls ∷ codes "more" ∷ []) started ≡ stop undefined
sh_help_overflow_example = sh_help_overflow Command.ls (codes "more" ∷ []) started

-- A round in which a line is typed.
abbrev typing : Text → Round
typing text = record {
  input = true;
  ready = λ fd. false;
  line = some text;
  accepted = none;
  received = λ fd. none;
  errno = 0;
  sent = [];
  command_sent = none;
  stray = 0;
  closes = true;
  env = env0;
}

abbrev listener : Listener
listener = record { resolves = true; sockfd = some 4; binds = true; listens = true }

listener-IsOpen : IsOpen listener 3
listener-IsOpen = record { resolves = refl; sockfd = refl; binds = refl; listens = refl }

-- A line that fits the buffer of fgets.
abbrev Fits : Text → Type 0
Fits line = (length line < max_str) × All (λ b. 0 < b) line

typing-IsTyping : (line : Text) → Fits line → IsTyping env0 line (typing line)
typing-IsTyping line h = record {
  input = refl;
  typed = refl;
  short = h.0;
  nonzero = h.1;
  quiet = λ fd. refl;
  same_env = refl;
}

exit_line : Fits (name_of Command.exit ++ arguments [] [])
unfolding name_of arguments
exit_line = (ground arith, ground arith)

mkfs_line : Fits (name_of Command.mkfs ++ arguments [] [])
unfolding name_of arguments
mkfs_line = (ground arith, ground arith)

mkdir_line : Fits (name_of Command.mkdir ++ arguments spaced [])
unfolding name_of arguments typed
mkdir_line = (ground arith, ground arith)

ls_line : Fits (name_of Command.ls ++ arguments [] [])
unfolding name_of arguments
ls_line = (ground arith, ground arith)

-- exit, and what would be typed behind it.
abbrev leave : List Round
leave = typing (name_of Command.exit ++ arguments [] []) ∷ typing (codes "ls\n") ∷ []

leave-Session : Session env0 leave []
leave-Session = ends (typing-IsTyping _ exit_line)

abbrev format_and_leave : List Round
format_and_leave = typing (name_of Command.mkfs ++ arguments [] []) ∷ leave

format-Session : Session env0 format_and_leave ((Command.mkfs, []) ∷ [])
format-Session =
    next Command.mkfs [] (typing-IsTyping _ mkfs_line) tt tt (ground arith) leave-Session

abbrev make_and_leave : List Round
make_and_leave = typing (name_of Command.mkdir ++ arguments spaced []) ∷ format_and_leave

abbrev make_script : Script
make_script = (Command.mkdir, spaced) ∷ (Command.mkfs, []) ∷ []

make-Session : Session env0 make_and_leave make_script
make-Session =
    next Command.mkdir spaced (typing-IsTyping _ mkdir_line) tt (ground arith) (ground arith)
      format-Session

main-IsConsistent_example : Ensures Second (main listener env0 make_and_leave started)
main-IsConsistent_example = main-IsConsistent listener env0 make_and_leave started

main-IsTable_example : After (λ _ t. IsTable (fds t)) (main listener env0 make_and_leave started)
main-IsTable_example = main-IsTable listener env0 make_and_leave started cleared

-- The server when it could not listen.
abbrev running_net : Net
running_net = record {
  status = Status.run;
  svrfd = none;
  clientfd = none;
  client = false;
  num_fds = 1;
  cfd = none;
  remote = false;
  printed = [];
}

run-play_example :
    run env0 make_and_leave running_net started
    ≡ (do net' ← play env0 make_script running_net; finish env0 0 net') started
run-play_example =
    run-play env0 make_and_leave make_script running_net started make-Session refl refl

abbrev folder_rounds : List Round
folder_rounds =
    typing (name_of Command.mkfs ++ arguments [] [])
    ∷ typing (name_of Command.mkdir ++ arguments spaced [])
    ∷ typing (name_of Command.ls ++ arguments [] [])
    ∷ leave

folder-Session :
    Session env0 folder_rounds
      ((Command.mkfs, []) ∷ (Command.mkdir, spaced) ∷ (Command.ls, []) ∷ [])
folder-Session = next Command.mkfs [] (typing-IsTyping _ mkfs_line) tt tt (ground arith) (
    next Command.mkdir spaced (typing-IsTyping _ mkdir_line) tt (ground arith) (ground arith)
      (next Command.ls [] (typing-IsTyping _ ls_line) tt tt (ground arith) leave-Session))

main_mkdir_ls_example :
    (net : Net) × (t : Sys) × (main listener env0 folder_rounds (record started { clock = λ n. 7 })
      ≡ ok (some 0, net) t)
    × (net.printed
        ≡ codes "Virtual file system initialized and mounted."
          ∷ codes "Directory created."
          ∷ codes ".\n..\na b\n"
          ∷ codes "Exiting..."
          ∷ [])
    × (t.attached ≡ false)
    × (load 2 (t.disk 0) state_at ≡ fs_valid)
unfolding content
main_mkdir_ls_example =
    main_mkdir_ls listener 3 env0 (quoted (codes "a b")) folder_rounds
      (record started { clock = λ n. 7 }) listener-IsOpen spaced-IsNew folder-Session host-IsGood
      refl (λ n. omega arith)

main_exit_first_example : main listener env0 leave started ≡ stop undefined
main_exit_first_example =
    main_exit_first listener 3 env0 leave started listener-IsOpen leave-Session refl

-- A result in two calls; the third answer is not asked for.
send_results-Ends_example :
    (r : Sends) × (send_results 7 (codes "abc") (some 1 ∷ some 2 ∷ some 5 ∷ [])
      ≡ some (r, send_code_of 7 r.last))
    × All (StartsInside (length (codes "abc"))) r.calls
send_results-Ends_example =
    send_results-Ends 7 (codes "abc") (some 1 ∷ some 2 ∷ some 5 ∷ []) (omega arith)

abbrev copies : {A : Type 0} → ℕ → A → List A
copies zero a = []
copies (suc n) a = a ∷ copies n a

length-copies : {A : Type 0} (n : ℕ) (a : A) → length (copies n a) ≡ n
length-copies zero a = refl
length-copies (suc n) a = omega (arith, length-copies n a)

-- A round in which the client on descriptor 7 is ready, with what it sent.
abbrev from_client : Text → Round
from_client text = record (typing []) {
  input = false;
  ready = λ fd. fd == 7;
  received = λ fd. some text;
  sent = copies 80 (some 200);
}

abbrev serving_net : Net
serving_net = record running_net { clientfd = some 7; client = true }

abbrev serving : Loop
serving = record { net = serving_net; cmdbuffer = none; run_err = 0 }

client-IsClosed : IsClosed 7 (from_client [])
client-IsClosed = record { no_input = refl; alone = λ k. refl; received = refl }

run_from-closed_example :
    run_from env0 (from_client [] ∷ from_client [] ∷ []) serving started
    ≡ ok (none, serving_net) started
run_from-closed_example =
    run_from-closed env0 7 (from_client [] ∷ from_client [] ∷ []) serving started
      (record { running = refl; client = refl; server_apart = refl; other_apart = refl })
      (client-IsClosed, (client-IsClosed, tt))

-- pwd, before mkfs.
pwd_line : Fits (line_of Command.pwd [])
unfolding name_of arguments
pwd_line = (ground arith, ground arith)

pwd_handled :
    handle env0 Command.pwd (map content []) serving_net started
    ≡ ok (no_vfs_text, serving_net) started
unfolding handle local sh_pwd chk_vfs
pwd_handled = refl

on_client-line_example :
    (r : Sends) × (send_results 0 no_vfs_text (copies 80 (some 200))
      ≡ some (r, send_code_of 0 r.last))
    × All (StartsInside (length no_vfs_text)) r.calls
    × (on_client (from_client (line_of Command.pwd [])) 7 serving started
        ≡ ok (record serving { run_err = send_code_of 0 r.last }) started)
on_client-line_example =
    on_client-line (from_client (line_of Command.pwd [])) 7 Command.pwd [] serving started started
      no_vfs_text serving_net refl pwd_line.0 pwd_line.1 (cc) tt (omega arith) pwd_handled
      (omega (arith, length-copies {A = Option ℕ} 80 (some 200))) refl
