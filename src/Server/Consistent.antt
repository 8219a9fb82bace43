-- ===== src/Server/Consistent.antt =====
-- The statuses of the server and the client against their descriptors, and the commands that change them.
use cdnw_sh.Base.{◌≡◌, refl, Bool, true, false, if◌then◌else◌, Option, none, some, List, [], ◌∷◌}
use cdnw_sh.Sys.{Sys, M, defined, Ensures, Ensures-bind, Ensures-after}
use cdnw_sh.Shell.Table.{Text, Command, commands, find_command, is_negative}
use cdnw_sh.Shell.Line.{scan_line}
use cdnw_sh.Net.{Net, Dial, rconnect, rclose}
use cdnw_sh.Shell.Dispatch.{Env, sh_connect, sh_exit, local, handle, run_tokens, run_cmd}
use cdnw_sh.Server.{Loop, when}

abbrev pub is_some : {A : Type 0} → Option A → Bool
is_some none = false
is_some (some a) = true

-- A status says open exactly where the descriptor is not -1.
pub record IsConsistent (net : Net) : Type 0 where
  pub client_fd : net.client ≡ is_some net.clientfd
  pub remote_fd : net.remote ≡ is_some net.cfd

-- What a step of the server leaves behind a value.
abbrev pub Second : {A : Type 0} → A × Net → Type 0
Second p = IsConsistent p.1

abbrev pub OfLoop : Loop → Type 0
OfLoop loop = IsConsistent loop.net

-- One rule for each shape of the code: two branches, a result that may be missing, a guard.
pub Ensures-if :
    {A : Type 0} (Q : A → Type 0) (b : Bool) (m n : M A) (s : Sys)
    → Ensures Q (m s)
    → Ensures Q (n s)
    → Ensures Q ((if b then m else n) s)
Ensures-if Q true m n s x y = x
Ensures-if Q false m n s x y = y

pub Ensures-elim :
    {A : Type 0} (Q : A → Type 0) (b : Bool) (m n : M A) (s : Sys)
    → Ensures Q (m s)
    → Ensures Q (n s)
    → Ensures Q ((elim b as (λ _. M A) [ false ↦ m | true ↦ n ]) s)
Ensures-elim Q false m n s x y = x
Ensures-elim Q true m n s x y = y

pub Ensures-option :
    {A B : Type 0} (Q : A → Type 0) (x : Option B) (m : M A) (k : B → M A) (s : Sys)
    → Ensures Q (m s)
    → ((b : B) → Ensures Q (k b s))
    → Ensures Q ((elim x as (λ _. M A) [ none ↦ m | some b ↦ k b ]) s)
Ensures-option Q none m k s x y = x
Ensures-option Q (some b) m k s x y = y b

pub Ensures-when :
    (b : Bool) (body : Loop → M Loop) (loop : Loop) (s : Sys)
    → OfLoop loop
    → Ensures OfLoop (body loop s)
    → Ensures OfLoop (when b body loop s)
Ensures-when true body loop s h x = x
Ensures-when false body loop s h x = h

-- The commands.
local-IsConsistent :
    (m : M Text) (net : Net) (s : Sys) → IsConsistent net → Ensures Second (local m net s)
unfolding local
local-IsConsistent m net s h = Ensures-after {A = Text} Second (m s) _ (λ text s'. h)

rconnect-IsConsistent :
    (dial : Dial) (net : Net) (s : Sys) → IsConsistent net → Ensures Second (rconnect dial net s)
unfolding rconnect
rconnect-IsConsistent dial net s h = Ensures-after Second (defined dial.resolves s) _ (λ _ s'.
    Ensures-if Second dial.connects _ _ s' (record { client_fd = h.client_fd; remote_fd = refl }) h)

connect-IsConsistent :
    (env : Env) (argv : List Text) (net : Net) (s : Sys)
    → IsConsistent net
    → Ensures Second (sh_connect env argv net s)
unfolding sh_connect
connect-IsConsistent env [] net s h = h
connect-IsConsistent env (a ∷ []) net s h = h
connect-IsConsistent env (a ∷ b ∷ []) net s h =
    Ensures-bind Second Second (rconnect env.dial net s) _ (rconnect-IsConsistent env.dial net s h)
      (λ p s' h'. Ensures-if Second (is_negative p.0) _ _ s' h' h')
connect-IsConsistent env (a ∷ b ∷ c ∷ cs) net s h = h

pub rclose-IsConsistent :
    (dial : Dial) (net : Net) → IsConsistent net → IsConsistent (rclose dial net).1
unfolding rclose
rclose-IsConsistent dial net h = record { client_fd = h.client_fd; remote_fd = refl }

exit-IsConsistent :
    (env : Env) (net : Net) (s : Sys) → IsConsistent net → Ensures Second (sh_exit env net s)
unfolding sh_exit
exit-IsConsistent env net s h =
    let closed = rclose-IsConsistent env.dial net h in
    Ensures-if Second net.remote _ _ s
      (Ensures-if Second (is_negative (rclose env.dial net).0) _ _ s closed closed)
      (record { client_fd = h.client_fd; remote_fd = h.remote_fd })

handle-IsConsistent :
    (env : Env) (c : Command) (argv : List Text) (net : Net) (s : Sys)
    → IsConsistent net
    → Ensures Second (handle env c argv net s)
unfolding handle
handle-IsConsistent env Command.connect argv net s h = connect-IsConsistent env argv net s h
handle-IsConsistent env Command.exit argv net s h = exit-IsConsistent env net s h
handle-IsConsistent env _ argv net s h = local-IsConsistent _ net s h

run_tokens-IsConsistent :
    (env : Env) (tok : Option Text) (argv : List Text) (net : Net) (s : Sys)
    → IsConsistent net
    → Ensures Second (run_tokens env tok argv net s)
unfolding run_tokens
run_tokens-IsConsistent env none argv net s h = h
run_tokens-IsConsistent env (some []) argv net s h = h
run_tokens-IsConsistent env (some (c ∷ cs)) argv net s h =
    Ensures-option Second (find_command (c ∷ cs) commands) _ _ s h (λ command.
      Ensures-bind {A = Text × Net} Second Second (handle env command argv net s) _
        (handle-IsConsistent env command argv net s h) (λ p s' h'. h'))

pub run_cmd-IsConsistent :
    (env : Env) (line : Text) (net : Net) (s : Sys)
    → IsConsistent net
    → Ensures Second (run_cmd env line net s)
unfolding run_cmd
run_cmd-IsConsistent env line net s h =
    Ensures-option Second (scan_line line) _ _ s tt
      (λ sc. run_tokens-IsConsistent env sc.cmd_tok sc.argv net s h)
