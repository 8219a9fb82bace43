-- ===== src/Socket.antt =====
-- src/server.c: start_listening, recv_cmd, send_results and accept_client.
pub mod Sending
use cdnw_sh.Base.{
  ℕ, zero, suc, ◌+◌, ◌-◌, ◌*◌, ◌%◌, ◌≤◌, ◌^◌, Bool, true, false, not, ltb, leb, min, ◌&&◌, ◌==◌,
  if◌then◌else◌, Option, none, some, List, [], ◌∷◌, ◌++◌, codes, length, str_eq,
}
use cdnw_sh.Sys.{Sys, M, undefined, out_of_fuel, pure, halt, gets, modify, defined, ◌>>=◌, ◌>>◌}
use cdnw_sh.Blockdev.{blockdev_detach}
use cdnw_sh.Mount.{cnumount}
use cdnw_sh.Shell.Table.{Text, sh_err, is_negative, err_str}
use cdnw_sh.Shell.Dispatch.{Env, run_cmd}
use cdnw_sh.Net.{
  Net, Status, rclose, close_code, send_cmd, recv_results, received_bytes, buffer_string,
  max_payload, max_str,
}

-- getaddrinfo, socket, bind and listen for start_listening.
pub record Listener : Type 0 where
  pub resolves : Bool
  pub sockfd : Option ℕ
  pub binds : Bool
  pub listens : Bool

unfoldable pub initial_net : Net
initial_net = record {
  status = Status.init;
  svrfd = none;
  clientfd = none;
  client = false;
  num_fds = 1;
  cfd = none;
  remote = false;
  printed = [];
}

-- if(sockfd>0) { bind ... } else ...
unfoldable pub listen_on : Listener → Net → ℕ × Net
listen_on l net = elim l.sockfd [
  | none ↦ (sh_err 13, net)
  | some zero ↦ (sh_err 13, net)
  | some (suc fd) ↦
      if not l.binds
      then (sh_err 14, net)
      else if not l.listens
      then (sh_err 17, net)
      else (0, record net { svrfd = some (suc fd); num_fds = net.num_fds + 1 })
]

unfoldable pub start_listening : Listener → M (ℕ × Net)
unfolding listen_on initial_net
start_listening l = do
  modify (λ s. record s { vfs_on = false })
  defined l.resolves
  let (err, net) = listen_on l initial_net
  pure (err, record net { status = Status.run })

-- recv_cmd; SH_ERR_RECV is its error.
unfoldable pub recv_cmd : ℕ → Option Text → Text
unfolding received_bytes
recv_cmd errno answer = received_bytes 12 errno answer

-- The calls of send that send_results makes, as offset and length in the string, and the last
-- answer.
pub record Sends : Type 0 where
  pub calls : List (ℕ × ℕ)
  pub last : Option ℕ

abbrev pub one_more : ℕ × ℕ → Option Sends → Option Sends
one_more call none = none
one_more call (some r) = some (record r { calls = call ∷ r.calls })

abbrev pub send_len : ℕ → ℕ
send_len result_len = if ltb (max_payload - 1) result_len then max_payload - 1 else result_len

-- The loop, with `remain` bytes to go from the offset on; none where the answers of send end first.
-- bytes_remain may fall below 0, which ends the loop as 0 does.
unfoldable pub send_loop : ℕ → ℕ → ℕ → Option ℕ → List (Option ℕ) → Option Sends
send_loop result_len zero off last answers = some (record { calls = []; last = last })
send_loop result_len (suc remain) off last [] = none
send_loop result_len (suc remain) off last (none ∷ answers) =
    some (record { calls = (off, send_len result_len) ∷ []; last = none })
send_loop result_len (suc remain) off last (some zero ∷ answers) =
    some (record { calls = (off, send_len result_len) ∷ []; last = some zero })
send_loop result_len (suc remain) off last (some (suc n) ∷ answers) =
    one_more (off, send_len result_len)
      (send_loop result_len (suc remain - suc n) (off + suc n) (some (suc n)) answers)

-- The result is not initialised where the last call sent something; `stray` is what it then holds,
-- and what bytes_sent holds where nothing is to be sent.
unfoldable pub send_code_of : ℕ → Option ℕ → ℕ
send_code_of stray none = sh_err 1
send_code_of stray (some zero) = 0
send_code_of stray (some (suc n)) = stray

unfoldable pub send_results : ℕ → Text → List (Option ℕ) → Option (Sends × ℕ)
unfolding send_loop send_code_of
send_results stray resultstr answers =
    elim (send_loop (length resultstr) (length resultstr) 0 (some 1) answers) [
      | none ↦ none
      | some r ↦ some (r, send_code_of stray r.last)
    ]

-- if(clientfd>0) ... else cmd_err = clientfd
unfoldable pub accept_client : Option ℕ → Net → ℕ × Net
accept_client none net = (sh_err 1, net)
accept_client (some zero) net = (0, net)
accept_client (some (suc fd)) net = (0, record net { client = true; clientfd = some (suc fd) })
