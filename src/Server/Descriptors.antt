-- ===== src/Server/Descriptors.antt =====
-- The descriptor table against its bitmap, from the start of the program to its end.
use cdnw_sh.Base.{ℕ, ◌-◌, ◌%◌, Bool, true, false, Option, none, some, List, [], ◌∷◌}
use cdnw_sh.Sys.{Sys, After, M}
use cdnw_sh.Blockdev.{blockdev_detach}
use cdnw_sh.Mount.{cnumount}
use cdnw_sh.Frame.{fds, Kept, Kept-option, Kept-elim, keeps}
use cdnw_sh.Frame.Disk.{blk_write-Kept}
use cdnw_sh.Files.Table.{IsTable}
use cdnw_sh.Shell.Table.{Text, err_str, nth_text, err_strings}
use cdnw_sh.Shell.Dispatch.{Env}
use cdnw_sh.Shell.Descriptors.{run_cmd-IsTable}
use cdnw_sh.Net.{Net}
use cdnw_sh.Shell.Arguments.{buffer_string-IsTable}
use cdnw_sh.Socket.{Listener, start_listening, send_results}
use cdnw_sh.Server.{
  Round, Loop, on_line, next_line, on_input, on_accept, on_command, reply, on_client_text,
  on_client, on_results, on_results_text, clean_svr, run, main, when, on_slot, on_slots, one_round,
  is_running, run_from,
}

err_str-IsTable : (code : ℕ) (s : Sys) → IsTable (fds s) → Kept IsTable (err_str code s)
unfolding err_str
err_str-IsTable code s h =
    Kept-option (nth_text err_strings ((256 - code) % 256)) _ _ s (search keeps)
      (λ text. search keeps)

when-IsTable :
    (b : Bool) (body : Loop → M Loop) (loop : Loop) (s : Sys)
    → IsTable (fds s)
    → Kept IsTable (body loop s)
    → Kept IsTable (when b body loop s)
when-IsTable true body loop s h kept = kept
when-IsTable false body loop s h kept = search keeps

on_line-IsTable :
    (round : Round) (line : Text) (loop : Loop) (s : Sys)
    → IsTable (fds s)
    → Kept IsTable (on_line round line loop s)
unfolding on_line
on_line-IsTable round line loop s h = search (keeps, run_cmd-IsTable) depth 9

on_input-IsTable :
    (round : Round) (loop : Loop) (s : Sys) → IsTable (fds s) → Kept IsTable (on_input round loop s)
unfolding on_input
on_input-IsTable round loop s h =
    Kept-option (next_line round.line loop.cmdbuffer) _ _ s (search keeps)
      (λ line. on_line-IsTable round line _ s h)

on_accept-IsTable :
    (round : Round) (loop : Loop) (s : Sys)
    → IsTable (fds s)
    → Kept IsTable (on_accept round loop s)
unfolding on_accept
on_accept-IsTable round loop s h = search (keeps, err_str-IsTable)

reply-IsTable :
    (round : Round) (result : Option Text) (loop : Loop) (s : Sys)
    → IsTable (fds s)
    → Kept IsTable (reply round result loop s)
unfolding reply
reply-IsTable round none loop s h = search keeps
reply-IsTable round (some text) loop s h =
    Kept-option (send_results round.stray text round.sent) _ _ s (search keeps) (λ r. search keeps)

on_command-IsTable :
    (round : Round) (cmd : Text) (loop : Loop) (s : Sys)
    → IsTable (fds s)
    → Kept IsTable (on_command round cmd loop s)
unfolding on_command
on_command-IsTable round cmd loop s h = search (keeps, run_cmd-IsTable, reply-IsTable)

on_client_text-IsTable :
    (round : Round) (bytes text : Text) (loop : Loop) (s : Sys)
    → IsTable (fds s)
    → Kept IsTable (on_client_text round bytes text loop s)
unfolding on_client_text
on_client_text-IsTable round bytes [] loop s h = search (keeps, err_str-IsTable)
on_client_text-IsTable round bytes (c ∷ cs) loop s h = search (keeps, on_command-IsTable)

on_client-IsTable :
    (round : Round) (fd : ℕ) (loop : Loop) (s : Sys)
    → IsTable (fds s)
    → Kept IsTable (on_client round fd loop s)
unfolding on_client
on_client-IsTable round fd loop s h =
    search (keeps, buffer_string-IsTable, on_client_text-IsTable, err_str-IsTable) depth 9

on_results_text-IsTable :
    (round : Round) (bytes text : Text) (loop : Loop) (s : Sys)
    → IsTable (fds s)
    → Kept IsTable (on_results_text round bytes text loop s)
unfolding on_results_text
on_results_text-IsTable round bytes [] loop s h = search (keeps, err_str-IsTable)
on_results_text-IsTable round bytes (c ∷ cs) loop s h = search keeps

on_results-IsTable :
    (round : Round) (fd : ℕ) (loop : Loop) (s : Sys)
    → IsTable (fds s)
    → Kept IsTable (on_results round fd loop s)
unfolding on_results
on_results-IsTable round fd loop s h =
    search (keeps, buffer_string-IsTable, on_results_text-IsTable)

on_slot-IsTable :
    (round : Round) (fd : ℕ) (loop : Loop) (s : Sys)
    → IsTable (fds s)
    → Kept IsTable (on_slot round fd loop s)
unfolding on_slot
on_slot-IsTable round fd loop s h =
    search (keeps, when-IsTable, on_accept-IsTable, on_client-IsTable, on_results-IsTable) depth 12

on_slots-IsTable :
    (round : Round) (ready : List ℕ) (loop : Loop) (s : Sys)
    → IsTable (fds s)
    → Kept IsTable (on_slots round ready loop s)
unfolding on_slots
on_slots-IsTable round [] loop s h = search keeps
on_slots-IsTable round (fd ∷ rest) loop s h =
    search (keeps, when-IsTable, on_slot-IsTable, on_slots-IsTable round rest) depth 9

one_round-IsTable :
    (round : Round) (loop : Loop) (s : Sys)
    → IsTable (fds s)
    → Kept IsTable (one_round round loop s)
unfolding one_round
one_round-IsTable round loop s h =
    search (keeps, when-IsTable, on_input-IsTable, on_slots-IsTable) depth 9

clean_svr-IsTable :
    (env : Env) (net : Net) (s : Sys) → IsTable (fds s) → Kept IsTable (clean_svr env net s)
unfolding clean_svr cnumount blockdev_detach
clean_svr-IsTable env net s h = search (keeps, blk_write-Kept) depth 15

run_from-IsTable :
    (env : Env) (rounds : List Round) (loop : Loop) (s : Sys)
    → IsTable (fds s)
    → Kept IsTable (run_from env rounds loop s)
unfolding run_from
run_from-IsTable env [] loop s h =
    Kept-elim (is_running loop.net.status) _ _ s (search (keeps, clean_svr-IsTable)) (search keeps)
run_from-IsTable env (round ∷ rest) loop s h =
    Kept-elim (is_running loop.net.status) _ _ s (search (keeps, clean_svr-IsTable))
      (search (keeps, one_round-IsTable, run_from-IsTable env rest))

start_listening-IsTable :
    (l : Listener) (s : Sys) → IsTable (fds s) → Kept IsTable (start_listening l s)
unfolding start_listening
start_listening-IsTable l s h = search keeps

running-IsTable :
    (l : Listener) (env : Env) (rounds : List Round) (s : Sys)
    → IsTable (fds s)
    → Kept IsTable (main l env rounds s)
unfolding main run
running-IsTable l env rounds s h =
    search (keeps, start_listening-IsTable, err_str-IsTable, run_from-IsTable) depth 9

-- From a descriptor table that agrees with its bitmap, whatever is typed, received and answered in
-- any rounds, the table agrees with the bitmap wherever the program returns: for each descriptor
-- below 1024 the bit is set exactly where the entry is in use, and an entry in use has no pointer to
-- freed data.
pub main-IsTable :
    (l : Listener) (env : Env) (rounds : List Round) (s : Sys)
    → IsTable (fds s)
    → After (λ _ t. IsTable (fds t)) (main l env rounds s)
main-IsTable l env rounds s h = (running-IsTable l env rounds s h).kept
