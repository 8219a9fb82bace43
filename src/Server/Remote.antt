-- ===== src/Server/Remote.antt =====
-- A command that a remote client sends.
use cdnw_sh.Base.{
  ℕ, zero, suc, ◌≤◌, ◌<◌, ◌≡◌, ◌≢◌, refl, ap, ◌∙◌, false, if◌then◌else◌, ◌==◌, lt→ltb, Option, none,
  some, List, [], ◌∷◌, ◌++◌, All, map, codes, str_eq, c_string-All, length, arith,
}
use cdnw_sh.Sys.{Sys, ok, pure, ◌>>◌}
use cdnw_sh.Shell.Table.{Text, Command, name_of, is_negative, err_str}
use cdnw_sh.Shell.Line.{max_args}
use cdnw_sh.Shell.Line.Argument.{Word, content, arguments, IsTyped}
use cdnw_sh.Shell.Dispatch.{Env, handle, run_cmd}
use cdnw_sh.Shell.Typed.{run_cmd-arguments}
use cdnw_sh.Net.{Net, buffer_string, max_str}
use cdnw_sh.Server.{Round, Loop, starts_exit, on_command, reply, on_client_text, on_client}
use cdnw_sh.Socket.{Sends, send_code_of, send_results, recv_cmd}
use cdnw_sh.Socket.Sending.{StartsInside, send_results-Ends}

first_byte : Text → ℕ
first_byte [] = 0
first_byte (c ∷ cs) = c

starts_exit-first : (text : Text) → (first_byte text == b'e') ≡ false → starts_exit text ≡ false
unfolding starts_exit str_eq first_byte
starts_exit-first [] h = refl
starts_exit-first (c ∷ []) h = refl
starts_exit-first (c ∷ a ∷ []) h = refl
starts_exit-first (c ∷ a ∷ b ∷ []) h = refl
starts_exit-first (c ∷ a ∷ b ∷ d ∷ cs) h = rw h refl

-- The line of a command.
abbrev pub line_of : Command → List Word → Text
line_of c ws = name_of c ++ arguments ws []

not_export : (cs : Text) → starts_exit (codes "export" ++ cs) ≡ false
unfolding starts_exit str_eq
not_export cs = refl

not_exit : (c : Command) (ws : List Word) → c ≢ Command.exit → starts_exit (line_of c ws) ≡ false
unfolding name_of first_byte
not_exit Command.exit ws h = absurd (h refl)
not_exit Command.export ws h = not_export _
not_exit _ ws h = starts_exit-first _ refl

on_client_text-command :
    (round : Round) (bytes text : Text) (loop : Loop)
    → 0 < length text
    → starts_exit text ≡ false
    → on_client_text round bytes text loop ≡ on_command round text loop
unfolding on_client_text
on_client_text-command round bytes [] loop some_text h = absurd (omega (arith, some_text))
on_client_text-command round bytes (c ∷ cs) loop some_text h = rw h refl

line_of-some : (c : Command) (ws : List Word) → 0 < length (line_of c ws)
unfolding name_of
line_of-some Command.cat ws = omega arith
line_of-some _ ws = omega arith

buffer_string-line :
    (line : Text) (s : Sys)
    → length line < max_str
    → All (λ c. 0 < c) line
    → buffer_string max_str line s ≡ ok line s
unfolding buffer_string
buffer_string-line line s short h =
    rw (c_string-All line h, lt→ltb (length line) max_str short) refl

on_command-result :
    (round : Round) (cmd : Text) (loop : Loop) (s s' : Sys) (text : Text) (net : Net) (r : Sends)
    (code : ℕ)
    → run_cmd round.env cmd loop.net s ≡ ok (some text, net) s'
    → send_results round.stray text round.sent ≡ some (r, code)
    → on_command round cmd loop s ≡ ok (record loop { net = net; run_err = code }) s'
unfolding on_command reply
on_command-result round cmd loop s s' text net r code ran sent = rw ran (rw (sent, reply) refl)

run_cmd-line :
    (env : Env) (c : Command) (ws : List Word) (net net' : Net) (s s' : Sys) (text : Text)
    → All IsTyped ws
    → length ws ≤ max_args
    → handle env c (map content ws) net s ≡ ok (text, net') s'
    → run_cmd env (line_of c ws) net s ≡ ok (some text, net') s'
run_cmd-line env c ws net net' s s' text typed few handled =
    ap (λ m. m s) (run_cmd-arguments env c ws [] net typed few) ∙ rw handled refl

-- The report of an error of send; `stray` is 0 where the variable happens to hold 0.
report_code :
    (stray : ℕ) (last : Option ℕ) (loop : Loop) (s : Sys)
    → stray ≡ 0
    → (if is_negative (send_code_of stray last)
          then (do err_str (send_code_of stray last); pure loop)
          else pure loop)
        s
      ≡ ok loop s
unfolding send_code_of err_str
report_code stray none loop s h = refl
report_code stray (some zero) loop s h = refl
report_code stray (some (suc n)) loop s h = rw h refl

-- A remote client that sends the line of any command but exit, of fewer than 256 bytes and without
-- a NUL, with at most sixteen arguments, each typed without quotes, spaces and line ends, or
-- between double quotes and without quotes and line ends inside: where the handler returns a text,
-- and send has an answer for each of the text's bytes, the server runs exactly that handler on the
-- contents of the arguments, sends the text in calls that start inside it, and its loop goes on,
-- with the code of the last call, if the variable of that code happened to hold 0.
pub on_client-line :
    (round : Round) (fd : ℕ) (c : Command) (ws : List Word) (loop : Loop) (s s' : Sys) (text : Text)
    (net : Net)
    → round.received fd ≡ some (line_of c ws)
    → length (line_of c ws) < max_str
    → All (λ b. 0 < b) (line_of c ws)
    → c ≢ Command.exit
    → All IsTyped ws
    → length ws ≤ max_args
    → handle round.env c (map content ws) loop.net s ≡ ok (text, net) s'
    → length text ≤ length round.sent
    → round.stray ≡ 0
    → (r : Sends) × (send_results round.stray text round.sent
        ≡ some (r, send_code_of round.stray r.last))
      × All (StartsInside (length text)) r.calls
      × (on_client round fd loop s
          ≡ ok (record loop { net = net; run_err = send_code_of round.stray r.last }) s')
unfolding on_client recv_cmd
on_client-line round fd c ws loop s s' text net received short nonzero other typed few handled
      enough zero_code =
    let (r, sent, inside) = send_results-Ends round.stray text round.sent enough in
    let line : Text = line_of c ws in
    let code : ℕ = send_code_of round.stray r.last in
    let ran = run_cmd-line round.env c ws loop.net net s s' text typed few handled in
    (
      r,
      sent,
      inside,
      rw
          (
            received,
            buffer_string-line line s short nonzero,
            on_client_text-command round line line loop (line_of-some c ws) (not_exit c ws other),
            on_command-result round line loop s s' text net r code ran sent,
          )
          (report_code round.stray r.last (record loop { net = net; run_err = code }) s' zero_code),
    )
