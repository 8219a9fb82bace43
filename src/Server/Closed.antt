-- ===== src/Server/Closed.antt =====
-- A remote client that has closed its connection.
use cdnw_sh.Base.{
  ℕ, ◌≡◌, refl, ap, ◌∙◌, true, false, none, some, List, [], ◌∷◌, ◌==◌, All, Bool-cases, inl, inr,
  ==→eq, ==_refl,
}
use cdnw_sh.Sys.{Sys, Run, ok, and_then}
use cdnw_sh.Shell.Table.{err_str}
use cdnw_sh.Net.{Net, Status, buffer_string}
use cdnw_sh.Shell.Dispatch.{Env}
use cdnw_sh.Server.{
  Round, Loop, on_input, on_client, on_client_text, is_fd, when, on_slot, on_slots, polled,
  one_round, run_from,
}
use cdnw_sh.Socket.{recv_cmd}
use cdnw_sh.Server.Session.{running-run_from}

-- The server's loop runs, and the client's descriptor is fd, which is no other.
pub record IsServing (fd : ℕ) (net : Net) : Type 0 where
  pub running : net.status ≡ Status.run
  pub client : net.clientfd ≡ some fd
  pub server_apart : is_fd fd net.svrfd ≡ false
  pub other_apart : is_fd fd net.cfd ≡ false

-- A round in which poll reports that descriptor alone, and recv returns 0: the end of the stream.
pub record IsClosed (fd : ℕ) (round : Round) : Type 0 where
  pub no_input : round.input ≡ false
  pub alone : (k : ℕ) → round.ready k ≡ (k == fd)
  pub received : round.received fd ≡ some []

on_client-closed :
    (round : Round) (fd : ℕ) (loop : Loop) (s : Sys)
    → IsClosed fd round
    → on_client round fd loop s ≡ ok (record loop { run_err = 0 }) s
unfolding on_client on_client_text recv_cmd buffer_string err_str
on_client-closed round fd loop s h = rw h.received refl

on_slot-closed :
    (round : Round) (fd : ℕ) (loop : Loop) (s : Sys)
    → IsServing fd loop.net
    → IsClosed fd round
    → on_slot round fd loop s ≡ ok (record loop { run_err = 0 }) s
unfolding on_slot
on_slot-closed round fd loop s serving h =
    let here : is_fd fd loop.net.clientfd ≡ true = ap (is_fd fd) serving.client ∙ ==_refl fd in
    rw (serving.server_apart, here, on_client-closed round fd loop s h, serving.other_apart) refl

-- The net is what it was, whichever code is left in run_err.
abbrev Kept : Loop → Sys → Run Loop → Type 0
Kept loop s r = (err : ℕ) × (r ≡ ok (record loop { run_err = err }) s)

on_slot-Kept :
    (round : Round) (fd k : ℕ) (loop : Loop) (s : Sys)
    → IsServing fd loop.net
    → IsClosed fd round
    → Kept loop s (when (round.ready k) (on_slot round k) loop s)
on_slot-Kept round fd k loop s serving h = elim (Bool-cases (k == fd)) [
  | inl here ↦ (0, rw (h.alone k, here, ==→eq k fd here) (on_slot-closed round fd loop s serving h))
  | inr away ↦ (loop.run_err, rw (h.alone k, away) refl)
]

on_slots-Kept :
    (round : Round) (fd : ℕ) (fds : List ℕ) (loop : Loop) (s : Sys)
    → IsServing fd loop.net
    → IsClosed fd round
    → Kept loop s (on_slots round fds loop s)
unfolding on_slots
on_slots-Kept round fd [] loop s serving h = (loop.run_err, refl)
on_slots-Kept round fd (k ∷ fds) loop s serving h =
    let (err, e) = on_slot-Kept round fd k loop s serving h in
    let (err', e') = on_slots-Kept round fd fds (record loop { run_err = err }) s serving h in
    (err', rw e e')

one_round-Kept :
    (round : Round) (fd : ℕ) (loop : Loop) (s : Sys)
    → IsServing fd loop.net
    → IsClosed fd round
    → Kept loop s (one_round round loop s)
unfolding one_round
one_round-Kept round fd loop s serving h =
    let (err, e) = on_slots-Kept round fd (polled loop.net) loop s serving h in
    (
      err,
      ap (λ b. and_then (when b (on_input round) loop s) (on_slots round (polled loop.net)))
            h.no_input
          ∙ e,
    )

-- Where a remote client has closed its connection, and nothing else comes: however many rounds pass,
-- the server still runs, and its state is unchanged; the client's descriptor stays open and is
-- polled again.
pub run_from-closed :
    (env : Env) (fd : ℕ) (rounds : List Round) (loop : Loop) (s : Sys)
    → IsServing fd loop.net
    → All (IsClosed fd) rounds
    → run_from env rounds loop s ≡ ok (none, loop.net) s
unfolding run_from
run_from-closed env fd [] loop s serving all = rw serving.running refl
run_from-closed env fd (round ∷ rest) loop s serving (h, all) =
    let (err, e) = one_round-Kept round fd loop s serving h in
    ap (λ m. m s) (running-run_from env round rest loop serving.running)
    ∙ (ap (λ r. and_then r (run_from env rest)) e
        ∙ run_from-closed env fd rest (record loop { run_err = err }) s serving all)
