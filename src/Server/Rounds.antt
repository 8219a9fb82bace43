-- ===== src/Server/Rounds.antt =====
-- The statuses of the server and the client over the rounds of its loop.
use cdnw_sh.Base.{
  ℕ, zero, suc, refl, true, false, if◌then◌else◌, Option, none, some, List, [], ◌∷◌, arith,
}
use cdnw_sh.Sys.{Sys, defined, Ensures, Ensures-bind, Ensures-after, pure, ◌>>=◌}
use cdnw_sh.Blockdev.{blockdev_detach}
use cdnw_sh.Mount.{cnumount}
use cdnw_sh.Shell.Table.{Text, is_negative, err_str}
use cdnw_sh.Net.{Net, rclose, recv_results, buffer_string, max_payload, max_str}
use cdnw_sh.Shell.Dispatch.{Env, run_cmd}
use cdnw_sh.Server.{
  Round, Loop, print, run_line, starts_exit, on_line, next_line, on_input, on_accept, second_byte,
  on_command, reply, on_client_text, on_client, on_results, on_results_text, clean_svr, run, main,
  is_fd, when, on_slot, polled, on_slots, one_round, is_running, run_from,
}
use cdnw_sh.Socket.{
  Listener, listen_on, start_listening, accept_client, send_results, recv_cmd, initial_net,
}
use cdnw_sh.Server.Consistent.{
  IsConsistent, Second, OfLoop, Ensures-if, Ensures-elim, Ensures-option, Ensures-when,
  run_cmd-IsConsistent, rclose-IsConsistent,
}

-- The branches of a round.
print-IsConsistent :
    (text : Option Text) (net : Net) → IsConsistent net → IsConsistent (print text net)
print-IsConsistent none net h = h
print-IsConsistent (some text) net h = record { client_fd = h.client_fd; remote_fd = h.remote_fd }

run_line-IsConsistent :
    (round : Round) (line : Text) (loop : Loop) (s : Sys)
    → OfLoop loop
    → Ensures OfLoop (run_line round line loop s)
run_line-IsConsistent round line loop s h =
    Ensures-bind {A = Option Text × Net} Second OfLoop (run_cmd round.env line loop.net s) _
      (run_cmd-IsConsistent round.env line loop.net s h) (λ p s' h'. print-IsConsistent p.0 p.1 h')

on_line-IsConsistent :
    (round : Round) (line : Text) (loop : Loop) (s : Sys)
    → OfLoop loop
    → Ensures OfLoop (on_line round line loop s)
unfolding on_line
on_line-IsConsistent round line loop s h =
    Ensures-if OfLoop loop.net.remote _ _ s
      (Ensures-if OfLoop (starts_exit line) _ _ s (run_line-IsConsistent round line _ s h) h)
      (run_line-IsConsistent round line loop s h)

on_input-IsConsistent :
    (round : Round) (loop : Loop) (s : Sys) → OfLoop loop → Ensures OfLoop (on_input round loop s)
unfolding on_input
on_input-IsConsistent round loop s h =
    Ensures-option OfLoop (next_line round.line loop.cmdbuffer) _ _ s tt
      (λ line. on_line-IsConsistent round line _ s h)

accept_client-IsConsistent :
    (fd : Option ℕ) (net : Net) → IsConsistent net → IsConsistent (accept_client fd net).1
unfolding accept_client
accept_client-IsConsistent none net h = h
accept_client-IsConsistent (some zero) net h = h
accept_client-IsConsistent (some (suc fd)) net h = record {
  client_fd = refl;
  remote_fd = h.remote_fd;
}

on_accept-IsConsistent :
    (round : Round) (loop : Loop) (s : Sys) → OfLoop loop → Ensures OfLoop (on_accept round loop s)
unfolding on_accept
on_accept-IsConsistent round loop s h =
    let h' = accept_client-IsConsistent round.accepted loop.net h in
    Ensures-if OfLoop (is_negative (accept_client round.accepted loop.net).0) _ _ s
      (Ensures-after OfLoop (err_str (accept_client round.accepted loop.net).0 s) _ (λ _ s'. h')) h'

reply-IsConsistent :
    (round : Round) (result : Option Text) (loop : Loop) (s : Sys)
    → OfLoop loop
    → Ensures OfLoop (reply round result loop s)
unfolding reply
reply-IsConsistent round none loop s h = h
reply-IsConsistent round (some sendback) loop s h =
    Ensures-option OfLoop (send_results round.stray sendback round.sent) _ _ s tt (λ r. h)

on_command-IsConsistent :
    (round : Round) (cmd : Text) (loop : Loop) (s : Sys)
    → OfLoop loop
    → Ensures OfLoop (on_command round cmd loop s)
unfolding on_command
on_command-IsConsistent round cmd loop s h =
    Ensures-bind {A = Option Text × Net} Second OfLoop (run_cmd round.env cmd loop.net s) _
      (run_cmd-IsConsistent round.env cmd loop.net s h)
      (λ p s' h'. reply-IsConsistent round p.0 (record loop { net = p.1 }) s' h')

on_client_text-IsConsistent :
    (round : Round) (bytes text : Text) (loop : Loop) (s : Sys)
    → OfLoop loop
    → Ensures OfLoop (on_client_text round bytes text loop s)
unfolding on_client_text
on_client_text-IsConsistent round bytes [] loop s h =
    Ensures-after OfLoop (err_str (second_byte bytes) s) _ (λ _ s'. h)
on_client_text-IsConsistent round bytes (c ∷ cs) loop s h =
    Ensures-if OfLoop (starts_exit (c ∷ cs)) _ _ s
      (record { client_fd = refl; remote_fd = h.remote_fd })
      (on_command-IsConsistent round (c ∷ cs) loop s h)

on_client-IsConsistent :
    (round : Round) (fd : ℕ) (loop : Loop) (s : Sys)
    → OfLoop loop
    → Ensures OfLoop (on_client round fd loop s)
unfolding on_client
on_client-IsConsistent round fd loop s h =
    let bytes : Text = recv_cmd round.errno (round.received fd) in
    Ensures-after OfLoop (buffer_string max_str bytes s) _ (λ text s1.
      Ensures-bind {A = Loop} OfLoop OfLoop (on_client_text round bytes text loop s1) _
        (on_client_text-IsConsistent round bytes text loop s1 h)
        (λ loop' s2 h'.
          Ensures-if OfLoop (is_negative loop'.run_err) _ _ s2
            (Ensures-after OfLoop (err_str loop'.run_err s2) _ (λ _ s3. h')) h'))

on_results_text-IsConsistent :
    (round : Round) (bytes text : Text) (loop : Loop) (s : Sys)
    → OfLoop loop
    → Ensures OfLoop (on_results_text round bytes text loop s)
unfolding on_results_text
on_results_text-IsConsistent round bytes [] loop s h =
    Ensures-after OfLoop (err_str (second_byte bytes) s) _ (λ _ s'. h)
on_results_text-IsConsistent round bytes (c ∷ cs) loop s h =
    print-IsConsistent (some (c ∷ cs)) loop.net h

on_results-IsConsistent :
    (round : Round) (fd : ℕ) (loop : Loop) (s : Sys)
    → OfLoop loop
    → Ensures OfLoop (on_results round fd loop s)
unfolding on_results
on_results-IsConsistent round fd loop s h =
    let bytes : Text = recv_results round.errno (round.received fd) in
    Ensures-after OfLoop (buffer_string max_payload bytes s) _
      (λ text s1. on_results_text-IsConsistent round bytes text loop s1 h)

-- A round, and the loop.
on_slot-IsConsistent :
    (round : Round) (fd : ℕ) (loop : Loop) (s : Sys)
    → OfLoop loop
    → Ensures OfLoop (on_slot round fd loop s)
unfolding on_slot
on_slot-IsConsistent round fd loop s h =
    Ensures-bind OfLoop OfLoop (when (is_fd fd loop.net.svrfd) (on_accept round) loop s) _
      (Ensures-when (is_fd fd loop.net.svrfd) (on_accept round) loop s h
        (on_accept-IsConsistent round loop s h))
      (λ loop1 s1 h1.
        Ensures-bind OfLoop OfLoop
          (when (is_fd fd loop1.net.clientfd) (on_client round fd) loop1 s1) _
          (Ensures-when (is_fd fd loop1.net.clientfd) (on_client round fd) loop1 s1 h1
            (on_client-IsConsistent round fd loop1 s1 h1))
          (λ loop2 s2 h2.
            Ensures-when (is_fd fd loop2.net.cfd) (on_results round fd) loop2 s2 h2
              (on_results-IsConsistent round fd loop2 s2 h2)))

on_slots-IsConsistent :
    (round : Round) (fds : List ℕ) (loop : Loop) (s : Sys)
    → OfLoop loop
    → Ensures OfLoop (on_slots round fds loop s)
unfolding on_slots
on_slots-IsConsistent round [] loop s h = h
on_slots-IsConsistent round (fd ∷ fds) loop s h =
    Ensures-bind OfLoop OfLoop (when (round.ready fd) (on_slot round fd) loop s) _
      (Ensures-when (round.ready fd) (on_slot round fd) loop s h
        (on_slot-IsConsistent round fd loop s h))
      (λ loop' s' h'. on_slots-IsConsistent round fds loop' s' h')

one_round-IsConsistent :
    (round : Round) (loop : Loop) (s : Sys) → OfLoop loop → Ensures OfLoop (one_round round loop s)
unfolding one_round
one_round-IsConsistent round loop s h =
    Ensures-bind OfLoop OfLoop (when round.input (on_input round) loop s) _
      (Ensures-when round.input (on_input round) loop s h (on_input-IsConsistent round loop s h))
      (λ loop' s' h'. on_slots-IsConsistent round (polled loop.net) loop' s' h')

clean_svr-IsConsistent :
    (env : Env) (net : Net) (s : Sys)
    → IsConsistent net
    → Ensures IsConsistent (clean_svr env net s)
unfolding clean_svr
clean_svr-IsConsistent env net s h = Ensures-after IsConsistent (cnumount s) _ (λ _ s1.
    Ensures-after IsConsistent (blockdev_detach s1) _ (λ _ s2.
      elim net.remote as (λ b. IsConsistent (if b then (rclose env.dial net).1 else net)) [
        | true ↦ rclose-IsConsistent env.dial net h
        | false ↦ h
      ]))

finish-IsConsistent :
    (env : Env) (loop : Loop) (s : Sys)
    → OfLoop loop
    → Ensures Second ((do net ← clean_svr env loop.net; pure (some loop.run_err, net)) s)
finish-IsConsistent env loop s h =
    Ensures-bind IsConsistent Second (clean_svr env loop.net s) _
      (clean_svr-IsConsistent env loop.net s h) (λ net s' h'. h')

run_from-IsConsistent :
    (env : Env) (rounds : List Round) (loop : Loop) (s : Sys)
    → OfLoop loop
    → Ensures Second (run_from env rounds loop s)
unfolding run_from
run_from-IsConsistent env [] loop s h =
    Ensures-elim Second (is_running loop.net.status) _ _ s (finish-IsConsistent env loop s h) h
run_from-IsConsistent env (round ∷ rest) loop s h =
    Ensures-elim Second (is_running loop.net.status) _ _ s (finish-IsConsistent env loop s h) (
      Ensures-bind OfLoop Second (one_round round loop s) _ (one_round-IsConsistent round loop s h)
        (λ loop' s' h'. run_from-IsConsistent env rest loop' s' h'))

listen_on-IsConsistent : (l : Listener) → IsConsistent (listen_on l initial_net).1
unfolding listen_on initial_net
listen_on-IsConsistent l = ground arith

start_listening-IsConsistent : (l : Listener) (s : Sys) → Ensures Second (start_listening l s)
unfolding start_listening
start_listening-IsConsistent l s =
    let h = listen_on-IsConsistent l in
    Ensures-after {A = Unit {0}} Second (defined l.resolves (record s { vfs_on = false })) _
      (λ _ s'. record { client_fd = h.client_fd; remote_fd = h.remote_fd })

-- Whatever rounds come after the start, and wherever they end, the server's status of its client
-- is open exactly where the descriptor of that client is not -1, and the client's status is open
-- exactly where its descriptor is not -1.
pub main-IsConsistent :
    (l : Listener) (env : Env) (rounds : List Round) (s : Sys)
    → Ensures Second (main l env rounds s)
unfolding main run
main-IsConsistent l env rounds s =
    Ensures-bind {A = ℕ × Net} Second Second (start_listening l s) _
      (start_listening-IsConsistent l s)
      (λ p s1 h.
        Ensures-if Second (is_negative p.0) _ _ s1
          (Ensures-after Second (err_str p.0 s1) _
            (λ _ s2. run_from-IsConsistent env rounds _ s2 h))
          (run_from-IsConsistent env rounds _ s1 h))
