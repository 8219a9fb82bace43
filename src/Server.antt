-- ===== src/Server.antt =====
-- src/server.c: the rounds of run, its answers to one remote client, clean_svr, and main of src/cdnwsh.c.
pub mod Consistent
pub mod Rounds
pub mod Descriptors
pub mod Session
pub mod Whole
pub mod Folders
pub mod Closed
pub mod Remote
use cdnw_sh.Base.{
  ℕ, zero, suc, ◌+◌, ◌-◌, ◌*◌, ◌%◌, ◌≤◌, ◌^◌, Bool, true, false, not, ltb, leb, min, ◌&&◌, ◌==◌,
  if◌then◌else◌, Option, none, some, List, [], ◌∷◌, ◌++◌, codes, length, take, str_eq, c_string,
}
use cdnw_sh.Sys.{Sys, M, undefined, out_of_fuel, pure, halt, gets, modify, defined, ◌>>=◌, ◌>>◌}
use cdnw_sh.Blockdev.{blockdev_detach}
use cdnw_sh.Mount.{cnumount}
use cdnw_sh.Shell.Table.{Text, sh_err, is_negative, err_str}
use cdnw_sh.Shell.Dispatch.{Env, run_cmd}
use cdnw_sh.Net.{
  Net, Status, rclose, close_code, send_cmd, recv_results, received_bytes, buffer_string,
  max_payload, max_str,
}
use cdnw_sh.Socket.{
  Listener, initial_net, listen_on, start_listening, recv_cmd, Sends, one_more, send_len, send_loop,
  send_code_of, send_results, accept_client,
}

-- What one round of the loop of run meets: which descriptors poll reports, the bytes of standard
-- input up to the next line end (none at the end of the input), and the answers to the calls. What
-- fgets leaves of a long line is part of a later round. `closes` is the answer of close.
pub record Round : Type 0 where
  pub input : Bool
  pub ready : ℕ → Bool
  pub line : Option Text
  pub accepted : Option ℕ
  pub received : ℕ → Option Text
  pub errno : ℕ
  pub sent : List (Option ℕ)
  pub command_sent : Option ℕ
  pub stray : ℕ
  pub closes : Bool
  pub env : Env

-- The variables of run that live across rounds: cmdbuffer, none before the first line, and run_err.
pub record Loop : Type 0 where
  pub net : Net
  pub cmdbuffer : Option Text
  pub run_err : ℕ

-- printf with %s. The results of the handlers are strings already: none has a NUL inside.
abbrev pub print : Option Text → Net → Net
print none net = net
print (some text) net = record net { printed = net.printed ++ text ∷ [] }

-- !strncmp(text, "exit", 4)
unfoldable pub starts_exit : Text → Bool
starts_exit (a ∷ b ∷ c ∷ d ∷ _) = str_eq (a ∷ b ∷ c ∷ d ∷ []) (codes "exit")
starts_exit _ = false

abbrev pub run_line : Round → Text → Loop → M Loop
run_line round line loop = do
  (result, net) ← run_cmd round.env line loop.net
  pure (record loop { net = print result net })

-- The branch for standard input. A line that cannot be read leaves cmdbuffer as it was.
unfoldable pub on_line : Round → Text → Loop → M Loop
unfolding starts_exit
on_line round line loop =
    if loop.net.remote
    then (let (_, err) = send_cmd round.command_sent line in
        let loop' : Loop = record loop { run_err = err } in
        if starts_exit line then run_line round line loop' else pure loop')
    else run_line round line loop

-- What a call of fgets leaves in its buffer, as a string: of a longer line only the first bytes, with
-- room for the NUL.
unfoldable pub stored_line : Text → Text
unfolding c_string
stored_line line = c_string (take (max_str - 1) line)

abbrev pub next_line : Option Text → Option Text → Option Text
next_line none old = old
next_line (some line) old = some (stored_line line)

unfoldable pub on_input : Round → Loop → M Loop
unfolding on_line
on_input round loop = elim (next_line round.line loop.cmdbuffer) [
  | none ↦ halt undefined
  | some line ↦ on_line round line (record loop { cmdbuffer = some line })
]

unfoldable pub on_accept : Round → Loop → M Loop
unfolding accept_client
on_accept round loop =
    let (err, net) = accept_client round.accepted loop.net in
    let loop' : Loop = record loop { net = net; run_err = err } in
    if is_negative err then (do err_str err; pure loop') else pure loop'

-- result[1] where recv failed or stored nothing.
abbrev pub second_byte : Text → ℕ
second_byte (_ ∷ c ∷ _) = c
second_byte _ = 0

-- The reply to the remote client, where its command has a result. A round must hold the answers to
-- all its calls of send.
unfoldable pub reply : Round → Option Text → Loop → M Loop
unfolding send_results
reply round none loop = pure loop
reply round (some sendback) loop = elim (send_results round.stray sendback round.sent) [
  | none ↦ halt out_of_fuel
  | some (_, err) ↦ pure (record loop { run_err = err })
]

unfoldable pub on_command : Round → Text → Loop → M Loop
unfolding reply
on_command round cmd loop = do
  (result, net) ← run_cmd round.env cmd loop.net
  reply round result (record loop { net = net })

unfoldable pub on_client_text : Round → Text → Text → Loop → M Loop
unfolding starts_exit on_command
on_client_text round bytes [] loop = do
  err_str (second_byte bytes)
  pure (record loop { run_err = second_byte bytes })
on_client_text round bytes (c ∷ cs) loop =
    if starts_exit (c ∷ cs)
    then pure (record loop {
      net = record loop.net { clientfd = none; client = false };
      run_err = close_code round.closes;
    })
    else on_command round (c ∷ cs) loop

-- The branch for the remote client, and the report of an error behind it.
unfoldable pub on_client : Round → ℕ → Loop → M Loop
unfolding on_client_text recv_cmd
on_client round fd loop = do
  let bytes = recv_cmd round.errno (round.received fd)
  text ← buffer_string max_str bytes
  loop' ← on_client_text round bytes text loop
  if is_negative loop'.run_err then (do err_str loop'.run_err; pure loop') else pure loop'

unfoldable pub on_results_text : Round → Text → Text → Loop → M Loop
on_results_text round bytes [] loop = do
  err_str (second_byte bytes)
  pure (record loop { run_err = second_byte bytes })
on_results_text round bytes (c ∷ cs) loop =
    pure (record loop { net = print (some (c ∷ cs)) loop.net })

unfoldable pub on_results : Round → ℕ → Loop → M Loop
unfolding on_results_text
on_results round fd loop = do
  let bytes = recv_results round.errno (round.received fd)
  text ← buffer_string max_payload bytes
  on_results_text round bytes text loop

-- fd == x, where x may be -1.
abbrev pub is_fd : ℕ → Option ℕ → Bool
is_fd fd none = false
is_fd fd (some x) = fd == x

abbrev pub when : Bool → (Loop → M Loop) → Loop → M Loop
when true body loop = body loop
when false body loop = pure loop

-- One entry of pfd_in that is ready, against the descriptors as they then are.
unfoldable pub on_slot : Round → ℕ → Loop → M Loop
on_slot round fd loop = do
  loop1 ← when (is_fd fd loop.net.svrfd) (on_accept round) loop
  loop2 ← when (is_fd fd loop1.net.clientfd) (on_client round fd) loop1
  when (is_fd fd loop2.net.cfd) (on_results round fd) loop2

abbrev pub slot : Option ℕ → List ℕ
slot none = []
slot (some fd) = fd ∷ []

-- The entries of pfd_in behind the first.
unfoldable pub polled : Net → List ℕ
polled net = slot net.svrfd ++ (slot net.clientfd ++ slot net.cfd)

unfoldable pub on_slots : Round → List ℕ → Loop → M Loop
unfolding on_slot
on_slots round [] loop = pure loop
on_slots round (fd ∷ fds) loop = do
  loop' ← when (round.ready fd) (on_slot round fd) loop
  on_slots round fds loop'

-- One round: pfd_in is filled first.
unfoldable pub one_round : Round → Loop → M Loop
unfolding polled
one_round round loop = do
  loop' ← when round.input (on_input round) loop
  on_slots round (polled loop.net) loop'

unfoldable pub clean_svr : Env → Net → M Net
clean_svr env net = do
  let net' = if net.remote then (rclose env.dial net).1 else net
  cnumount
  blockdev_detach
  pure net'

abbrev pub is_running : Status → Bool
is_running Status.run = true
is_running _ = false

-- The loop over the rounds that come; none where they end before the loop does. The status is then
-- SVR_STATUS_EXIT, 0.
unfoldable pub run_from : Env → List Round → Loop → M (Option ℕ × Net)
unfolding one_round clean_svr
run_from env [] loop = elim (is_running loop.net.status) [
  | false ↦ do net ← clean_svr env loop.net; pure (some loop.run_err, net)
  | true ↦ pure (none, loop.net)
]
run_from env (round ∷ rest) loop = elim (is_running loop.net.status) [
  | false ↦ do net ← clean_svr env loop.net; pure (some loop.run_err, net)
  | true ↦ do loop' ← one_round round loop; run_from env rest loop'
]

unfoldable pub run : Env → List Round → Net → M (Option ℕ × Net)
unfolding run_from
run env rounds net = run_from env rounds (record { net = net; cmdbuffer = none; run_err = 0 })

-- main: the server runs also where it cannot listen.
unfoldable pub main : Listener → Env → List Round → M (Option ℕ × Net)
main l env rounds = do
  (err, net) ← start_listening l
  if is_negative err then (do err_str err; run env rounds net) else run env rounds net
