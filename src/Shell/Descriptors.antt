-- ===== src/Shell/Descriptors.antt =====
-- The descriptor table against its bitmap, over every command of the shell.
use cdnw_sh.Base.{Option, none, some, List, [], ◌∷◌}
use cdnw_sh.Sys.{Sys}
use cdnw_sh.Frame.{fds, Kept, Kept-option, keeps}
use cdnw_sh.Files.Table.{IsTable}
use cdnw_sh.Shell.Table.{Text, Command, commands, find_command}
use cdnw_sh.Shell.Line.{scan_line}
use cdnw_sh.Net.{Net, rconnect}
use cdnw_sh.Shell.{
  sh_open, sh_close, sh_read, sh_write, sh_seek, sh_mkdir, sh_rmdir, sh_rm, sh_cat, sh_cd, sh_ls,
  sh_pwd, sh_tree, sh_import, sh_export,
}
use cdnw_sh.Shell.Dispatch.{
  Env, sh_help, connect_args, sh_connect, sh_exit, local, handle, run_tokens, run_cmd,
}
use cdnw_sh.Shell.Arguments.{
  cat_args-IsTable, cd_args-IsTable, chk_vfs-IsTable, close_args-IsTable, export_args-IsTable,
  import_args-IsTable, ls_args-IsTable, mkdir_args-IsTable, open_args-IsTable, pwd_args-IsTable,
  read_args-IsTable, rm_args-IsTable, rmdir_args-IsTable, seek_args-IsTable, sh_mkfs-IsTable,
  tree_args-IsTable, write_args-IsTable,
}

ruleset handlers = (
  keeps, chk_vfs-IsTable, sh_mkfs-IsTable, open_args-IsTable, close_args-IsTable, read_args-IsTable,
  write_args-IsTable, seek_args-IsTable, mkdir_args-IsTable, rmdir_args-IsTable, rm_args-IsTable,
  cat_args-IsTable, cd_args-IsTable, ls_args-IsTable, pwd_args-IsTable, tree_args-IsTable,
  import_args-IsTable, export_args-IsTable,
)

sh_help-IsTable : (argv : List Text) (s : Sys) → IsTable (fds s) → Kept IsTable (sh_help argv s)
unfolding sh_help
sh_help-IsTable [] s h = search keeps
sh_help-IsTable (name ∷ _) s h =
    Kept-option (find_command name commands) _ _ s (search keeps) (λ c. search keeps)

sh_connect-IsTable :
    (env : Env) (argv : List Text) (net : Net) (s : Sys)
    → IsTable (fds s)
    → Kept IsTable (sh_connect env argv net s)
unfolding sh_connect connect_args rconnect
sh_connect-IsTable env [] net s h = search keeps
sh_connect-IsTable env (_ ∷ []) net s h = search keeps
sh_connect-IsTable env (_ ∷ _ ∷ []) net s h = search keeps depth 12
sh_connect-IsTable env (_ ∷ _ ∷ _ ∷ _) net s h = search keeps

sh_exit-IsTable :
    (env : Env) (net : Net) (s : Sys) → IsTable (fds s) → Kept IsTable (sh_exit env net s)
unfolding sh_exit
sh_exit-IsTable env net s h = search keeps

handle-IsTable :
    (env : Env) (c : Command) (argv : List Text) (net : Net) (s : Sys)
    → IsTable (fds s)
    → Kept IsTable (handle env c argv net s)
unfolding handle local sh_open sh_close sh_read sh_write sh_seek sh_mkdir sh_rmdir sh_rm sh_cat
    sh_cd sh_ls sh_pwd sh_tree sh_import sh_export
handle-IsTable env Command.connect argv net s h = sh_connect-IsTable env argv net s h
handle-IsTable env Command.exit argv net s h = sh_exit-IsTable env net s h
handle-IsTable env Command.help argv net s h = search (keeps, sh_help-IsTable)
handle-IsTable env _ argv net s h = search handlers depth 9

run_tokens-IsTable :
    (env : Env) (tok : Option Text) (argv : List Text) (net : Net) (s : Sys)
    → IsTable (fds s)
    → Kept IsTable (run_tokens env tok argv net s)
unfolding run_tokens
run_tokens-IsTable env none argv net s h = search keeps
run_tokens-IsTable env (some []) argv net s h = search keeps
run_tokens-IsTable env (some (c ∷ cs)) argv net s h =
    Kept-option (find_command (c ∷ cs) commands) _ _ s (search keeps)
      (λ command. search (keeps, handle-IsTable))

-- Any line, typed or received.
pub run_cmd-IsTable :
    (env : Env) (line : Text) (net : Net) (s : Sys)
    → IsTable (fds s)
    → Kept IsTable (run_cmd env line net s)
unfolding run_cmd
run_cmd-IsTable env line net s h =
    Kept-option (scan_line line) _ _ s (search keeps)
      (λ sc. run_tokens-IsTable env sc.cmd_tok sc.argv net s h)
