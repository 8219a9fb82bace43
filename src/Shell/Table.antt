-- ===== src/Shell/Table.antt =====
-- src/shell.c: the tables of commands and messages, and the texts that mesg copies from them.
use cdnw_sh.Base.{
  ℕ, zero, suc, ◌-◌, ◌%◌, Bool, ltb, if◌then◌else◌, Option, none, some, List, [], ◌∷◌, codes,
  str_eq,
}
use cdnw_sh.Sys.{M, undefined, pure, halt}

abbrev pub Text : Type 0
Text = List ℕ

-- The rows of sh_cmds, in their order.
pub data Command : Type 0 where
  cat cd close connect exit export help import ls mkdir : Command
  mkfs open_file pwd read rm rmdir seek tree write : Command

unfoldable pub commands : List Command
commands =
    cat ∷ cd ∷ close ∷ connect ∷ exit ∷ export ∷ help ∷ import ∷ ls ∷ mkdir ∷ mkfs ∷ open_file ∷ pwd
    ∷ read ∷ rm ∷ rmdir ∷ seek ∷ tree ∷ write ∷ []

unfoldable pub name_of : Command → Text
name_of cat = codes "cat"
name_of cd = codes "cd"
name_of close = codes "close"
name_of connect = codes "connect"
name_of exit = codes "exit"
name_of export = codes "export"
name_of help = codes "help"
name_of import = codes "import"
name_of ls = codes "ls"
name_of mkdir = codes "mkdir"
name_of mkfs = codes "mkfs"
name_of open_file = codes "open"
name_of pwd = codes "pwd"
name_of read = codes "read"
name_of rm = codes "rm"
name_of rmdir = codes "rmdir"
name_of seek = codes "seek"
name_of tree = codes "tree"
name_of write = codes "write"

-- help_str
unfoldable pub usage : Command → Text
usage cat = codes "Usage: cat <filename>"
usage cd = codes "Usage: cd <dir_name>"
usage close = codes "Usage: close <fd>\nfd = file descriptor"
usage connect = codes "Usage: connect <server_ip/name> <server_port>"
usage exit =
    codes
      "Usage: exit\nIf used at a remote server prompt, EXIT will disconnect the client connection.\nIf used at a local prompt, EXIT will close the shell and stop the client or server"
usage export = codes "Usage: export <internal_filename> <external_filename>"
usage help = codes "Usage: 'help [<cmd>]' or '<cmd> --help'"
usage import = codes "Usage: import <external_filename> <internal_filename>"
usage ls = codes "Usage: ls"
usage mkdir = codes "Usage: mkdir <dir_name>"
usage mkfs = codes "Usage: mkfs\n Check and mount the virtual file system"
usage open_file =
    codes
      "Usage: open <filename> <R/W>\nOPEN initializes access to a file for reading or writing.\nIn the second parameter, 1 = read and 2 = write"
usage pwd = codes "Usage: pwd"
usage read = codes "Usage: read <fd> <num_of_bytes>"
usage rm = codes "Usage: rm <filename>"
usage rmdir = codes "Usage: rmdir <dir name>"
usage seek =
    codes
      "Usage: seek <fd> <byte_offset>\nA negative byte offset will move back instead of forward in the file"
usage tree = codes "Usage: tree"
usage write = codes "Usage: write <fd> <string>"

-- for(i=0; i<SH_CMD_NUM; i++) if(!strcmp(name, sh_cmds[i].name)) break;
unfoldable pub find_command : Text → List Command → Option Command
find_command name [] = none
find_command name (c ∷ cs) =
    let rest = find_command name cs in if str_eq name (name_of c) then some c else rest

-- err_strings: the texts of the codes 0, -1, -2, ...
unfoldable pub err_strings : List Text
err_strings =
    codes "SUCCESS"
    ∷ codes "ERROR: unknown problem"
    ∷ codes "ERROR: file or folder not found"
    ∷ codes "ERROR: end of file"
    ∷ codes "ERROR: "
    ∷ codes "ERROR: insufficient diskspace to complete this operation"
    ∷ codes "ERROR: insufficient inodes to complete this operation"
    ∷ codes "ERROR: invalid virtual file system, unable to mount"
    ∷ codes "ERROR: invalid operation, no virtual file system has been mounted"
    ∷ codes "ERROR: invalid parameters, unable to run this command"
    ∷ codes "ERROR: command not found"
    ∷ codes "ERROR: socket - unable to run poll()"
    ∷ codes "ERROR: unable to receive command, network error on recv()"
    ∷ codes "ERROR: unable to allocate network socket"
    ∷ codes "ERROR: unable to bind to socket"
    ∷ codes "ERROR: problem connecting to server "
    ∷ codes "ERROR: problem disconnecting from server, assuming connection closed "
    ∷ codes "ERROR: problem listening on the bound port "
    ∷ codes "ERROR: unable to receive results, network error on recv()"
    ∷ []

unfoldable pub nth_text : List Text → ℕ → Option Text
nth_text [] i = none
nth_text (t ∷ ts) zero = some t
nth_text (t ∷ ts) (suc i) = nth_text ts i

-- An sh_err is an int8_t, given by its bits: -x is 256 - x.
abbrev pub sh_err : ℕ → ℕ
sh_err x = (256 - x) % 256

abbrev pub is_negative : ℕ → Bool
is_negative err = ltb 127 err

-- err_str(err): an index outside the table is undefined.
unfoldable pub err_str : ℕ → M Text
unfolding nth_text err_strings
err_str err = elim (nth_text err_strings ((256 - err) % 256)) [
  | none ↦ halt undefined
  | some text ↦ pure text
]
