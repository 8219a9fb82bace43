-- ===== src/Net.antt =====
-- The state of the server and the client, include/server.h, and src/client.c. Answers of the socket
-- calls are arguments: a descriptor or a count is none for -1.
use cdnw_sh.Base.{
  ℕ, ◌%◌, Bool, true, false, ltb, if◌then◌else◌, Option, none, some, List, [], ◌∷◌, length,
  c_string,
}
use cdnw_sh.Sys.{M, pure, defined, ◌>>◌}
use cdnw_sh.Shell.Table.{Text, sh_err}

-- SVR_STATUS_INIT, SVR_STATUS_RUN and SVR_STATUS_EXIT
pub data Status : Type 0 where
  init run exit : Status

-- shell_server and shell_client. A status CLIENT_STATUS_OPEN is true. `printed` is what run printed
-- of the results, in order.
pub record Net : Type 0 where
  pub status : Status
  pub svrfd : Option ℕ
  pub clientfd : Option ℕ
  pub client : Bool
  pub num_fds : ℕ
  pub cfd : Option ℕ
  pub remote : Bool
  pub printed : List Text

-- getaddrinfo, socket and connect for rconnect, and close for rclose.
pub record Dial : Type 0 where
  pub resolves : Bool
  pub sockfd : ℕ
  pub connects : Bool
  pub closes : Bool

unfoldable pub rconnect : Dial → Net → M (ℕ × Net)
rconnect dial net = do
  defined dial.resolves
  if dial.connects
      then pure (0, record net { cfd = some dial.sockfd; remote = true })
      else pure (sh_err 15, net)

-- The result of close: 0 or -1.
abbrev pub close_code : Bool → ℕ
close_code true = 0
close_code false = sh_err 1

unfoldable pub rclose : Dial → Net → ℕ × Net
rclose dial net = (close_code dial.closes, record net { cfd = none; remote = false })

-- The result where fewer than one byte was sent, and SH_ERR_SUCCESS otherwise.
unfoldable pub send_code : Option ℕ → ℕ
send_code none = sh_err 1
send_code (some n) = 0

abbrev pub max_str : ℕ
max_str = 256

-- The number of bytes passed to send, and the result.
unfoldable pub send_cmd : Option ℕ → Text → ℕ × ℕ
unfolding send_code
send_cmd sent cmdbuffer =
    (if ltb max_str (length cmdbuffer) then max_str else length cmdbuffer, send_code sent)

abbrev pub max_payload : ℕ
max_payload = 4096

-- The bytes that recv stores, or those that mark an error.
unfoldable pub received_bytes : ℕ → ℕ → Option Text → Text
received_bytes code errno none = 0 ∷ sh_err code ∷ (errno % 256) ∷ []
received_bytes code errno (some bytes) = bytes

-- recv_results; SH_ERR_RECV is its error.
unfoldable pub recv_results : ℕ → Option Text → Text
unfolding received_bytes
recv_results errno answer = received_bytes 12 errno answer

-- A buffer of `cap` bytes, zero behind what was stored, read as a string.
unfoldable pub buffer_string : ℕ → Text → M Text
unfolding c_string
buffer_string cap bytes = do defined (ltb (length (c_string bytes)) cap); pure (c_string bytes)
