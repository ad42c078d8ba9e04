-- ===== src/Sshrestore/Sessions.antt =====
-- `Upload` and `Run` of internal/sshrestore/sshrestore.go. What the calls of the SSH library give, and
-- which channel the `select` receives from, is a parameter.
use dokploymigrator.Base.{
  ℕ, zero, Text, codes, List, [], ◌∷◌, ◌++◌, Option, none, some, Bool, true, false, take, ℤ, concat,
  Result, ok, err, if◌then◌else◌,
}
use dokploymigrator.Sshrestore.Paths.{path_base, path_dir}
use dokploymigrator.Sshrestore.Commands.{shell_quote}
use dokploymigrator.Sshrestore.Wire.{utf8, print_int}

-- A session on the target host: the command that was asked for, what its standard input has got, and
-- what is still open.
pub record Session : Type 0 where
  pub command : Option Text
  pub stdin : List ℕ
  pub stdin_open : Bool
  pub is_open : Bool
  pub killed : Bool

abbrev pub new_session : Session
new_session = record {
  command = none;
  stdin = [];
  stdin_open = false;
  is_open = true;
  killed = false;
}

abbrev pub close_stdin : Session → Session
close_stdin s = record s { stdin_open = false }

-- `defer session.Close()`
abbrev pub close_session : {A : Type 0} → A × Session → A × Option Session
close_session (result, s) = (result, some (record s { is_open = false }))

pub data UploadError : Type 0 where
  create_upload_session open_scp_stdin write_scp_header copy_scp_body write_scp_terminator
        close_scp_stdin upload_cancelled run_scp :
      Text → UploadError

abbrev pub UploadResult : Type 0
UploadResult = Result UploadError (Unit {0})

abbrev pub Ended : Type 0
Ended = UploadResult × Session

-- What the `select` receives: the end of the context, or how the command ended.
pub data Ending : Type 0 where
  cancelled : Text → Ending
  finished : Option Text → Ending

-- A write that fails has sent the first bytes; a copy fails also where its reader does. `started` says
-- whether the goroutine has come to ask for its command where `Upload` does not wait for it.
pub record Transfer : Type 0 where
  pub session : Option Text
  pub stdin_pipe : Option Text
  pub started : Bool
  pub header : Option (ℕ × Text)
  pub body : Option (ℕ × Text)
  pub terminator : Option (ℕ × Text)
  pub close_stdin : Option Text
  pub ending : Ending

abbrev pub scp_command : Text → Text
scp_command path = codes "scp -t " ++ shell_quote (path_dir path)

abbrev pub scp_header : Text → ℤ → Text
scp_header path size =
    concat (codes "C0600 " ∷ print_int size ∷ codes " " ∷ path_base path ∷ codes "\n" ∷ [])

-- The bytes that get through, and behind an error the closing of the standard input.
abbrev pub write_bytes : (Text → UploadError) → Option (ℕ × Text) → List ℕ → Session → Ended
write_bytes failed none bytes s = (ok tt, record s { stdin = s.stdin ++ bytes })
write_bytes failed (some (n, e)) bytes s =
    (err (failed e), close_stdin (record s { stdin = s.stdin ++ take n bytes }))

abbrev pub and_then : Ended → (Session → Ended) → Ended
and_then (err e, s) next = (err e, s)
and_then (ok _, s) next = next s

abbrev pub ended : Ending → UploadResult
ended (cancelled e) = err (upload_cancelled e)
ended (finished (some e)) = err (run_scp e)
ended (finished none) = ok tt

-- The command that has been asked for, whether or not anyone waits for its end.
abbrev pub asked : Bool → Text → Option Text
asked started command = if started then some command else none

-- The command has ended where the `select` receives its end.
abbrev pub finish_upload : Option Text → Ending → Text → Session → Ended
finish_upload (some e) ending path s = (err (close_scp_stdin e), close_stdin s)
finish_upload none (cancelled e) path s = (ended (cancelled e), close_stdin s)
finish_upload none (finished end) path s =
    (ended (finished end), close_stdin (record s { command = some (scp_command path) }))

abbrev pub send_terminator : Transfer → Text → Session → Ended
send_terminator t path s =
    and_then (write_bytes write_scp_terminator t.terminator (zero ∷ []) s)
      (finish_upload t.close_stdin t.ending path)

abbrev pub send_body : Transfer → Text → List ℕ → Session → Ended
send_body t path body s =
    and_then (write_bytes copy_scp_body t.body body s) (send_terminator t path)

unfoldable pub send : Transfer → Text → ℤ → List ℕ → Session → Ended
unfolding path_base utf8
send t path size body s =
    and_then (write_bytes write_scp_header t.header (utf8 (scp_header path size)) s)
      (send_body t path body)

abbrev pub piped : Option Text → (Session → Ended) → Session → Ended
piped (some e) next s = (err (open_scp_stdin e), s)
piped none next s = next (record s { stdin_open = true })

abbrev pub in_upload_session : Option Text → Ended → UploadResult × Option Session
in_upload_session (some e) rest = (err (create_upload_session e), none)
in_upload_session none rest = close_session rest

-- The goroutine that asks for the command runs beside the writes, so they do not wait for it: what the
-- session holds does not tell their order.
abbrev pub with_goroutine : Transfer → Text → Session → Session
with_goroutine t path s = record s { command = asked t.started (scp_command path) }

-- `size` is an `int64`.
unfoldable pub upload : Transfer → Text → ℤ → List ℕ → UploadResult × Option Session
unfolding send shell_quote path_dir
upload t path size body =
    in_upload_session t.session
      (piped t.stdin_pipe (λ s. send t path size body (with_goroutine t path s)) new_session)

pub data RunError : Type 0 where
  create_command_session command_cancelled run_remote_command : Text → RunError

-- What the `select` receives: the end of the context, with whether the goroutine has come to ask for
-- the command, or the output of the command and how it ended.
pub data RunEnding : Type 0 where
  cancelled : Bool → Text → RunEnding
  finished : List ℕ → Option Text → RunEnding

abbrev pub ran : RunEnding → Text → Session → (List ℕ × Option RunError) × Session
ran (RunEnding.cancelled started e) command s =
    (([], some (command_cancelled e)), record s { command = asked started command; killed = true })
ran (RunEnding.finished output (some e)) command s =
    ((output, some (run_remote_command e)), record s { command = some command })
ran (RunEnding.finished output none) command s =
    ((output, none), record s { command = some command })

abbrev pub run_command :
    Option Text → RunEnding → Text → (List ℕ × Option RunError) × Option Session
run_command (some e) ending command = (([], some (create_command_session e)), none)
run_command none ending command = close_session (ran ending command new_session)
