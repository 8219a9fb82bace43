-- ===== src/Shell/Dispatch.antt =====
-- src/shell.c: help, connect and exit, and the second half of run_cmd, which finds the command and
-- calls its handler.
use cdnw_sh.Base.{ℕ, Bool, if◌then◌else◌, Option, none, some, List, [], ◌∷◌, ◌++◌, codes, length}
use cdnw_sh.Sys.{Inode, M, undefined, pure, halt, ◌>>=◌}
use cdnw_sh.Blockdev.{HostFile}
use cdnw_sh.Shell.Table.{Text, Command, commands, usage, find_command, is_negative}
use cdnw_sh.Shell.Line.{scan_line}
use cdnw_sh.Net.{Net, Dial, Status, rconnect, rclose}
use cdnw_sh.Shell.{
  in_buffer, sh_mkfs, sh_open, sh_close, sh_read, sh_write, sh_seek, sh_mkdir, sh_rmdir, sh_rm,
  sh_cat, sh_cd, sh_ls, sh_pwd, sh_tree, sh_import, sh_export,
}

-- What the commands need of the host: strtol, sprintf, the line of tree, the host's files, and the
-- answers to blockdev_attach and to the client's calls. `error` is strerror(errno).
pub record Env : Type 0 where
  pub strtol : Text → ℕ
  pub decimal : ℕ → Text
  pub describe : Inode → Text
  pub content : Text → Option Text
  pub complete : Bool
  pub host : HostFile
  pub dial : Dial
  pub error : Text

abbrev pub no_command_text : Text
no_command_text = codes "ERROR: command not found"

-- The help text of a command is copied to as many bytes as it has: its NUL does not fit.
unfoldable pub sh_help : List Text → M Text
sh_help [] = pure (
    usage Command.help
    ++ 10
      ∷ codes
          "Available commands: cat cd close connect exit export help import ls mkdir mkfs open read rm rmdir seek tree write")
sh_help (name ∷ _) = elim (find_command name commands) [
  | none ↦ pure no_command_text
  | some c ↦ in_buffer (length (usage c)) (usage c)
]

unfoldable pub connect_args : Env → List Text → Net → M (Text × Net)
connect_args env (server ∷ port ∷ []) net = do
  (err, net') ← rconnect env.dial net
  if is_negative err
      then pure (codes "ERROR: problem connecting to server " ++ server ++ 10 ∷ env.error, net')
      else pure (codes "Connected to server: " ++ server, net')
connect_args env _ net = pure (usage Command.connect, net)

unfoldable pub sh_connect : Env → List Text → Net → M (Text × Net)
unfolding connect_args
sh_connect env argv net = connect_args env argv net

unfoldable pub sh_exit : Env → Net → M (Text × Net)
unfolding rclose
sh_exit env net =
    if net.remote
    then (let (err, net') = rclose env.dial net in
        if is_negative err
        then pure (
          codes "ERROR: problem disconnecting from server, assuming connection closed \n"
              ++ env.error,
          net',
        )
        else pure (codes "Connection to server closed", net'))
    else pure (codes "Exiting...", record net { status = Status.exit })

-- A command that leaves the server and the client alone.
unfoldable pub local : M Text → Net → M (Text × Net)
local m net = do text ← m; pure (text, net)

-- result = sh_cmds[i].sh_cmd(cmd_argc, cmd_argv)
unfoldable pub handle : Env → Command → List Text → Net → M (Text × Net)
handle env Command.cat argv net = local (sh_cat argv) net
handle env Command.cd argv net = local (sh_cd argv) net
handle env Command.close argv net = local (sh_close env.strtol argv) net
handle env Command.connect argv net = sh_connect env argv net
handle env Command.exit argv net = sh_exit env net
handle env Command.export argv net = local (sh_export env.content env.complete argv) net
handle env Command.help argv net = local (sh_help argv) net
handle env Command.import argv net = local (sh_import env.content env.complete argv) net
handle env Command.ls argv net = local (sh_ls argv) net
handle env Command.mkdir argv net = local (sh_mkdir argv) net
handle env Command.mkfs argv net = local (sh_mkfs env.host) net
handle env Command.open_file argv net = local (sh_open env.decimal argv) net
handle env Command.pwd argv net = local (sh_pwd argv) net
handle env Command.read argv net = local (sh_read env.strtol argv) net
handle env Command.rm argv net = local (sh_rm argv) net
handle env Command.rmdir argv net = local (sh_rmdir argv) net
handle env Command.seek argv net = local (sh_seek env.strtol argv) net
handle env Command.tree argv net = local (sh_tree env.describe argv) net
handle env Command.write argv net = local (sh_write env.strtol argv) net

-- The dispatch. The tests of cmd_tok leave out the empty name, which a line has that starts with a
-- space; no other name starts with a separator.
unfoldable pub run_tokens : Env → Option Text → List Text → Net → M (Option Text × Net)
run_tokens env none argv net = pure (none, net)
run_tokens env (some []) argv net = pure (none, net)
run_tokens env (some (c ∷ cs)) argv net = elim (find_command (c ∷ cs) commands) [
  | none ↦ pure (some no_command_text, net)
  | some command ↦ do (text, net') ← handle env command argv net; pure (some text, net')
]

unfoldable pub run_cmd : Env → Text → Net → M (Option Text × Net)
run_cmd env cmdstr net = elim (scan_line cmdstr) [
  | none ↦ halt undefined
  | some sc ↦ run_tokens env sc.cmd_tok sc.argv net
]
