-- ===== src/Shell/Typed.antt =====
-- run_cmd on a line that holds a command and its arguments.
use cdnw_sh.Base.{
  ◌≤◌, ◌≡◌, refl, some, List, ◌∷◌, ◌++◌, length, All, map, str_eq, le→not-ltb, arith,
}
use cdnw_sh.Sys.{Sys, stop, undefined, pure, ◌>>=◌}
use cdnw_sh.Shell.Table.{Text, Command, commands, name_of, usage, find_command}
use cdnw_sh.Shell.Line.{max_args}
use cdnw_sh.Shell.Line.Argument.{Word, content, arguments, IsTyped, IsOuter}
use cdnw_sh.Shell.Line.Words.{scan_line-arguments}
use cdnw_sh.Net.{Net}
use cdnw_sh.Shell.Dispatch.{Env, handle, run_tokens, run_cmd, sh_help}

-- The table has every command under its name, and no two under one name.
find_command-name_of : (c : Command) → find_command (name_of c) commands ≡ some c
unfolding find_command name_of commands str_eq
find_command-name_of Command.cat = refl
find_command-name_of _ = refl

name-IsOuter : (c : Command) → All IsOuter (name_of c)
unfolding name_of
name-IsOuter Command.cat = ground arith
name-IsOuter _ = ground arith

-- The name of a command is not empty.
run_tokens-name_of :
    (env : Env) (c : Command) (argv : List Text) (net : Net)
    → run_tokens env (some (name_of c)) argv net
      ≡ (do (text, net') ← handle env c argv net; pure (some text, net'))
unfolding run_tokens name_of find_command commands str_eq
run_tokens-name_of env Command.cat argv net = refl
run_tokens-name_of env _ argv net = refl

-- A line with the name of a command, and behind it at most sixteen arguments, each behind one space
-- and typed without quotes, spaces and line ends, or between double quotes and without quotes and
-- line ends inside, runs the handler of that command on the contents of the arguments, whatever
-- stands behind the newline. A quote is a single or a double one.
pub run_cmd-arguments :
    (env : Env) (c : Command) (as' : List Word) (tail : Text) (net : Net)
    → All IsTyped as'
    → length as' ≤ max_args
    → run_cmd env (name_of c ++ arguments as' tail) net
      ≡ (do (text, net') ← handle env c (map content as') net; pure (some text, net'))
unfolding run_cmd
run_cmd-arguments env c as' tail net typed few =
    let (sc, scanned, tok, argv) =
      scan_line-arguments (name_of c) as' tail (name-IsOuter c) typed few in
    rw (scanned, run_cmd, tok, argv) (run_tokens-name_of env c (map content as') net)

-- Asking for the help of any one command writes the NUL behind the end of the buffer.
pub sh_help_overflow :
    (c : Command) (more : List Text) (s : Sys) → sh_help (name_of c ∷ more) s ≡ stop undefined
unfolding sh_help
sh_help_overflow c more s =
    rw
      (
        find_command-name_of c,
        sh_help,
        le→not-ltb (length (usage c)) (length (usage c)) (omega arith),
      )
      refl
