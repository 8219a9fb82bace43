-- ===== src/Server/Session.antt =====
-- Sessions: lines typed at the prompt, with no other server and no client, up to exit.
use cdnw_sh.Base.{
  ℕ, ◌-◌, ◌≤◌, ◌<◌, take-short, c_string-All, ◌≡◌, refl, ap, ◌∙◌, true, false, Option, none, some,
  List, [], ◌∷◌, ◌++◌, All, map, codes, length, arith,
}
use cdnw_sh.Sys.{Sys, M, Run, Ensures, Ensures-after, ok, stop, pure, and_then, ◌>>=◌}
use cdnw_sh.Shell.Table.{Text, Command, name_of}
use cdnw_sh.Shell.Line.{max_args}
use cdnw_sh.Shell.Line.Argument.{Word, content, arguments, IsTyped}
use cdnw_sh.Net.{Net, Status, max_str}
use cdnw_sh.Shell.Dispatch.{Env, local, handle, sh_exit, run_cmd}
use cdnw_sh.Shell.Typed.{run_cmd-arguments}
use cdnw_sh.Server.{
  Round, Loop, stored_line, print, on_line, on_input, on_slots, polled, one_round, clean_svr,
  run_from, when, run,
}

-- A line without a NUL that fits cmdbuffer is stored whole.
stored_line-short :
    (line : Text) → length line < max_str → All (λ c. 0 < c) line → stored_line line ≡ line
unfolding stored_line
stored_line-short line short nonzero =
    rw (take-short (max_str - 1) line (omega (arith, short))) (c_string-All line nonzero)

-- A round in which a line without a NUL that fits cmdbuffer comes from standard input, and nothing
-- from a socket.
pub record IsTyping (env : Env) (line : Text) (round : Round) : Type 0 where
  pub input : round.input ≡ true
  pub typed : round.line ≡ some line
  pub short : length line < max_str
  pub nonzero : All (λ c. 0 < c) line
  pub quiet : (fd : ℕ) → round.ready fd ≡ false
  pub same_env : round.env ≡ env

-- A command that leaves the server and the client alone.
abbrev pub IsLocal : Command → Type 0
IsLocal Command.connect = ⊥
IsLocal Command.exit = ⊥
IsLocal _ = Unit {0}

abbrev Steady : Text × Net → Type 0
Steady p = (p.1.status ≡ Status.run) × (p.1.remote ≡ false)

local-Steady :
    (m : M Text) (net : Net) (s : Sys)
    → net.status ≡ Status.run
    → net.remote ≡ false
    → Ensures Steady (local m net s)
unfolding local
local-Steady m net s running alone =
    Ensures-after {A = Text} Steady (m s) _ (λ _ s'. (running, alone))

handle-Steady :
    (env : Env) (c : Command) (argv : List Text) (net : Net) (s : Sys)
    → IsLocal c
    → net.status ≡ Status.run
    → net.remote ≡ false
    → Ensures Steady (handle env c argv net s)
unfolding handle
handle-Steady env Command.connect argv net s h running alone = elim h [ ]
handle-Steady env Command.exit argv net s h running alone = elim h [ ]
handle-Steady env _ argv net s h running alone = local-Steady _ net s running alone

on_slots-quiet :
    (round : Round) (fds : List ℕ) (loop : Loop) (s : Sys)
    → ((fd : ℕ) → round.ready fd ≡ false)
    → on_slots round fds loop s ≡ ok loop s
unfolding on_slots
on_slots-quiet round [] loop s quiet = refl
on_slots-quiet round (fd ∷ fds) loop s quiet = rw (quiet fd) (on_slots-quiet round fds loop s quiet)

-- What the run of a line leaves of the loop.
abbrev after : Text → Loop → Option Text × Net → Loop
after line loop p = record loop { net = print p.0 p.1; cmdbuffer = some line }

on_slots-quiet_after :
    (round : Round) (fds : List ℕ) (r : Run Loop)
    → ((fd : ℕ) → round.ready fd ≡ false)
    → and_then r (on_slots round fds) ≡ r
on_slots-quiet_after round fds (ok loop s) quiet = on_slots-quiet round fds loop s quiet
on_slots-quiet_after round fds (stop why) quiet = refl

on_input-typing :
    (env : Env) (line : Text) (round : Round) (loop : Loop) (s : Sys)
    → IsTyping env line round
    → loop.net.remote ≡ false
    → on_input round loop s ≡ and_then (run_cmd env line loop.net s) (λ p. pure (after line loop p))
unfolding on_input on_line
on_input-typing env line round loop s h alone =
    rw (h.typed, stored_line-short line h.short h.nonzero, alone, h.same_env) refl

one_round-typing :
    (env : Env) (line : Text) (round : Round) (loop : Loop) (s : Sys)
    → IsTyping env line round
    → loop.net.remote ≡ false
    → one_round round loop s
      ≡ and_then (run_cmd env line loop.net s) (λ p. pure (after line loop p))
unfolding one_round
one_round-typing env line round loop s h alone =
    on_slots-quiet_after round (polled loop.net) (when round.input (on_input round) loop s) h.quiet
    ∙ (ap (λ b. when b (on_input round) loop s) h.input
        ∙ on_input-typing env line round loop s h alone)

-- The specification of a session: the handlers of its commands one after the other, each result
-- printed.
abbrev pub Script : Type 0
Script = List (Command × List Word)

unfoldable pub play : Env → Script → Net → M Net
play env [] net = pure net
play env ((c, ws) ∷ rest) net = do
  (text, net') ← handle env c (map content ws) net
  play env rest (print (some text) net')

-- What exit leaves behind.
abbrev pub exited : Net → Net
exited net = print (some (codes "Exiting...")) (record net { status = Status.exit })

-- Rounds in which the commands of the script and then exit are typed, each with at most sixteen
-- arguments; the rounds behind exit are arbitrary.
pub data Session (env : Env) : List Round → Script → Type 0 where
  ends :
      {round : Round} {rest : List Round}
      → IsTyping env (name_of Command.exit ++ arguments [] []) round
      → Session env (round ∷ rest) []
  next :
      {round : Round} {rest : List Round} {script : Script} (c : Command) (ws : List Word)
      → IsTyping env (name_of c ++ arguments ws []) round
      → IsLocal c
      → All IsTyped ws
      → length ws ≤ max_args
      → Session env rest script
      → Session env (round ∷ rest) ((c, ws) ∷ script)

abbrev pub finish : Env → ℕ → Net → M (Option ℕ × Net)
finish env err net = do net' ← clean_svr env (exited net); pure (some err, net')

stopped-run_from :
    (env : Env) (rest : List Round) (loop : Loop)
    → loop.net.status ≡ Status.exit
    → run_from env rest loop ≡ (do net ← clean_svr env loop.net; pure (some loop.run_err, net))
unfolding run_from
stopped-run_from env [] loop h = rw h refl
stopped-run_from env (round ∷ rest) loop h = rw h refl

pub running-run_from :
    (env : Env) (round : Round) (rest : List Round) (loop : Loop)
    → loop.net.status ≡ Status.run
    → run_from env (round ∷ rest) loop ≡ (do loop' ← one_round round loop; run_from env rest loop')
unfolding run_from
running-run_from env round rest loop h = rw h refl

-- What the rounds do on any loop that meets no other server.
abbrev Goes : Env → List Round → Script → Type 0
Goes env rounds script =
    (loop : Loop) (s : Sys)
    → loop.net.status ≡ Status.run
    → loop.net.remote ≡ false
    → run_from env rounds loop s ≡ and_then (play env script loop.net s) (finish env loop.run_err)

Goes-behind :
    (env : Env) (rest : List Round) (script : Script) (line : Text) (loop : Loop)
    (r : Run (Text × Net))
    → Goes env rest script
    → Ensures Steady r
    → and_then
        (and_then
          (and_then {B = Option Text × Net} r (λ p. pure (some p.0, p.1)))
          (λ p. pure (after line loop p)))
        (run_from env rest)
      ≡ and_then
          (and_then r (λ p. play env script (print (some p.0) p.1)))
          (finish env loop.run_err)
Goes-behind env rest script line loop (ok p s) goes h =
    goes (after line loop (some p.0, p.1)) s h.0 h.1
Goes-behind env rest script line loop (stop why) goes h = refl

handle-exit :
    (env : Env) (argv : List Text) (net : Net) (s : Sys)
    → net.remote ≡ false
    → handle env Command.exit argv net s
      ≡ ok (codes "Exiting...", record net { status = Status.exit }) s
unfolding handle sh_exit
handle-exit env argv net s alone = rw alone refl

ends_behind :
    (env : Env) (rest : List Round) (line : Text) (loop : Loop) (s : Sys)
    → (r : Run (Text × Net))
    → r ≡ ok (codes "Exiting...", record loop.net { status = Status.exit }) s
    → and_then
        (and_then
          (and_then {B = Option Text × Net} r (λ p. pure (some p.0, p.1)))
          (λ p. pure (after line loop p)))
        (run_from env rest)
      ≡ finish env loop.run_err loop.net s
ends_behind env rest line loop s r e = rw e (
    ap (λ m. m s)
      (stopped-run_from env rest
        (after line loop (some (codes "Exiting..."), record loop.net { status = Status.exit }))
        refl))

Session-Goes :
    (env : Env) (rounds : List Round) (script : Script)
    → Session env rounds script
    → Goes env rounds script
unfolding play
Session-Goes env _ _ (ends {round} {rest} typing) loop s running alone =
    rw
      (
        running-run_from env round rest loop running,
        one_round-typing env _ round loop s typing alone,
        run_cmd-arguments env Command.exit [] [] loop.net tt (omega arith),
      )
      (ends_behind env rest _ loop s (handle env Command.exit [] loop.net s)
        (handle-exit env [] loop.net s alone))
Session-Goes env _ _ (next {round} {rest} {script} c ws typing is_local typed few more) loop s
      running alone =
    rw
      (
        running-run_from env round rest loop running,
        one_round-typing env _ round loop s typing alone,
        run_cmd-arguments env c ws [] loop.net typed few,
      )
      (Goes-behind env rest script _ loop (handle env c (map content ws) loop.net s)
        (Session-Goes env rest script more)
        (handle-Steady env c (map content ws) loop.net s is_local running alone))

-- A session at a running server that is not connected to another one: in each round up to exit
-- nothing comes from a socket, and one line of fewer than 256 bytes and without a NUL is typed, the
-- name of a command with at most sixteen arguments, each behind one space and typed without quotes,
-- spaces and line ends, or between double quotes and without quotes and line ends inside. The
-- commands but the last are neither connect nor exit; the last is exit, without arguments. The
-- session is from the prompt on the handlers of its commands one after the other, each result
-- printed, and then the clean-up of exit; where it ends, its result is 0.
pub run-play :
    (env : Env) (rounds : List Round) (script : Script) (net : Net) (s : Sys)
    → Session env rounds script
    → net.status ≡ Status.run
    → net.remote ≡ false
    → run env rounds net s ≡ (do net' ← play env script net; finish env 0 net') s
unfolding run
run-play env rounds script net s h running alone =
    Session-Goes env rounds script h (record { net = net; cmdbuffer = none; run_err = 0 }) s running
      alone
