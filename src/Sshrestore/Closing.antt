-- ===== src/Sshrestore/Closing.antt =====
-- What internal/sshrestore/sshrestore.go leaves open: connections and sessions.
use dokploymigrator.Base.{
  ℕ, Text, List, [], ◌∷◌, ◌++◌, Option, none, some, true, false, Bool-cases, ◌||◌, ◌==◌, text_eq,
  ◌≡◌, refl, arith, ◌↔◌, inl, inr, Result, ok, err, Option-cases, ℤ,
}
use dokploymigrator.Sshrestore.Executor.{
  Config, Network, Connections, Executor, DialError, join_host_port, open_connection,
  finish_handshake, close_one, dial, close, or_port, or_timeout,
}
use dokploymigrator.Sshrestore.Sessions.{
  Session, Transfer, Ending, Ended, upload, send, UploadError, and_then, write_bytes, finish_upload,
  piped, in_upload_session, new_session, with_goroutine, send_body, send_terminator,
}

-- A call of `Dial` that fails, and one that opens a connection, which `Close` closes.
abbrev pub Dialed : Connections → Result DialError Executor × Connections → Type 0
Dialed before (err e, after) = after ≡ before
Dialed before (ok executor, after) =
    (after ≡ executor.address ∷ before) × ((e : Option Text) → (close e executor after).1 ≡ before)

close_one-head :
    (address : Text) (connections : Connections)
    → close_one address (address ∷ connections) ≡ connections
close_one-head address connections = ground arith

finish_handshake-Dialed :
    (end : Option Text) (executor : Executor) (connections : Connections)
    → Dialed connections (finish_handshake end executor (executor.address ∷ connections))
unfolding close
finish_handshake-Dialed (some e) executor connections = close_one-head executor.address connections
finish_handshake-Dialed none executor connections =
    (refl, λ e. close_one-head executor.address connections)

open_connection-Dialed :
    (end handshake : Option Text) (executor : Executor) (connections : Connections)
    → Dialed connections (open_connection end handshake executor connections)
open_connection-Dialed (some e) handshake executor connections = refl
open_connection-Dialed none handshake executor connections =
    finish_handshake-Dialed handshake executor connections

-- `Dial` leaves a new connection open only if it returns an executor, and then one, which `Close` of
-- the executor closes.
pub dial-Dialed :
    (net : Network) (cfg : Config) (connections : Connections)
    → Dialed connections (dial net cfg connections)
unfolding dial
dial-Dialed net cfg connections = elim (Bool-cases (cfg.host == [] || cfg.user == [])) [
  | inl e ↦ rw e refl
  | inr e ↦ elim (Option-cases (net.parse cfg.private_key)) [
    | inl f ↦
        let address = join_host_port cfg.host (or_port cfg.port) in
        rw (e, f)
          (open_connection-Dialed (net.dial_context address (or_timeout cfg.timeout))
            (net.handshake address cfg.user) (record { address = address; user = cfg.user })
            connections)
    | inr (x, f) ↦ rw (e, f) refl
  ]
]

-- Nothing is open of a session, where there is one.
abbrev pub IsClosed : Option Session → Type 0
IsClosed none = Unit
IsClosed (some s) = (s.is_open ≡ false) × (s.stdin_open ≡ false)

-- Every call of the library and the remote command succeeds.
pub record Completes (t : Transfer) : Type 0 where
  pub session : t.session ≡ none
  pub stdin_pipe : t.stdin_pipe ≡ none
  pub header : t.header ≡ none
  pub body : t.body ≡ none
  pub terminator : t.terminator ≡ none
  pub close_stdin : t.close_stdin ≡ none
  pub ending : t.ending ≡ Ending.finished none

IsShut : Ended → Type 0
IsShut r = r.1.stdin_open ≡ false

IsShut-write :
    (failed : Text → UploadError) (end : Option (ℕ × Text)) (bytes : List ℕ)
    (next : Session → Ended)
    → ((s : Session) → IsShut (next s))
    → (s : Session) → IsShut (and_then (write_bytes failed end bytes s) next)
unfolding IsShut
IsShut-write failed none bytes next h s = h (record s { stdin = s.stdin ++ bytes })
IsShut-write failed (some (n, e)) bytes next h s = refl

finish_upload-IsShut :
    (end : Option Text) (ending : Ending) (path : Text) (s : Session)
    → IsShut (finish_upload end ending path s)
unfolding IsShut
finish_upload-IsShut (some e) ending path s = refl
finish_upload-IsShut none (Ending.cancelled e) path s = refl
finish_upload-IsShut none (Ending.finished end) path s = refl

send-IsShut :
    (t : Transfer) (path : Text) (size : ℤ) (body : List ℕ) (s : Session)
    → IsShut (send t path size body s)
unfolding send
send-IsShut t path size body s =
    IsShut-write _ t.header _ (send_body t path body)
      (IsShut-write _ t.body body (send_terminator t path) (
        IsShut-write _ t.terminator _ (finish_upload t.close_stdin t.ending path)
          (finish_upload-IsShut t.close_stdin t.ending path)))
      s

piped-IsShut :
    (end : Option Text) (next : Session → Ended)
    → ((s : Session) → IsShut (next s))
    → IsShut (piped end next new_session)
unfolding IsShut
piped-IsShut (some e) next h = refl
piped-IsShut none next h = h (record new_session { stdin_open = true })

in_session-IsClosed :
    (end : Option Text) (r : Ended) → IsShut r → IsClosed (in_upload_session end r).1
unfolding IsShut
in_session-IsClosed (some e) r h = tt
in_session-IsClosed none r h = (refl, h)

upload-IsClosed :
    (t : Transfer) (path : Text) (size : ℤ) (body : List ℕ) → IsClosed (upload t path size body).1
unfolding upload
upload-IsClosed t path size body =
    let start = λ (s : Session). send t path size body (with_goroutine t path s) in
    in_session-IsClosed t.session (piped t.stdin_pipe start new_session) (
      piped-IsShut t.stdin_pipe start (λ s. send-IsShut t path size body (with_goroutine t path s)))

write_bytes-done :
    (failed : Text → UploadError) (end : Option (ℕ × Text)) (bytes : List ℕ)
    (next : Session → Ended) (s : Session)
    → (and_then (write_bytes failed end bytes s) next).0 ≡ ok tt
    → (end ≡ none) × ((next (record s { stdin = s.stdin ++ bytes })).0 ≡ ok tt)
write_bytes-done failed none bytes next s h = (refl, h)
write_bytes-done failed (some (n, e)) bytes next s h = cc

finish_upload-done :
    (end : Option Text) (ending : Ending) (path : Text) (s : Session)
    → (finish_upload end ending path s).0 ≡ ok tt
    → (end ≡ none) × (ending ≡ Ending.finished none)
finish_upload-done (some e) ending path s h = cc
finish_upload-done none (Ending.cancelled e) path s h = cc
finish_upload-done none (Ending.finished (some e)) path s h = cc
finish_upload-done none (Ending.finished none) path s h = (refl, refl)

begun :
    (first second : Option Text) (next : Session → Ended)
    → (in_upload_session first (piped second next new_session)).0 ≡ ok tt
    → (first ≡ none)
      × (second ≡ none)
      × ((next (record new_session { stdin_open = true })).0 ≡ ok tt)
begun (some e) second next h = cc
begun none (some e) next h = cc
begun none none next h = (refl, refl, h)

upload-Completes :
    (t : Transfer) (path : Text) (size : ℤ) (body : List ℕ)
    → (upload t path size body).0 ≡ ok tt
    → Completes t
unfolding upload send
upload-Completes t path size body h =
    let start = λ (s : Session). send t path size body (with_goroutine t path s) in
    let (session, stdin_pipe, h0) = begun t.session t.stdin_pipe start h in
    let (header, h1) = write_bytes-done _ t.header _ (send_body t path body) _ h0 in
    let (body', h2) = write_bytes-done _ t.body body (send_terminator t path) _ h1 in
    let (terminator, h3) =
      write_bytes-done _ t.terminator _ (finish_upload t.close_stdin t.ending path) _ h2 in
    let (close, ending) = finish_upload-done t.close_stdin t.ending path _ h3 in
    record {
      session = session;
      stdin_pipe = stdin_pipe;
      header = header;
      body = body';
      terminator = terminator;
      close_stdin = close;
      ending = ending;
    }

upload_iff :
    (t : Transfer) (path : Text) (size : ℤ) (body : List ℕ)
    → ((upload t path size body).0 ≡ ok tt) ↔ Completes t
unfolding upload send
upload_iff t path size body = (
  upload-Completes t path size body,
  λ c. rw (c.session, c.stdin_pipe, c.header, c.body, c.terminator, c.close_stdin, c.ending) refl,
)

-- However `Upload` ends, its session, if it has got one, is closed, and so is its standard input; and
-- it has no error exactly if every call of the library succeeds, the `select` receives the end of the
-- command and not that of the context, and the command succeeds.
pub upload-outcome :
    (t : Transfer) (path : Text) (size : ℤ) (body : List ℕ)
    → IsClosed (upload t path size body).1 × (((upload t path size body).0 ≡ ok tt) ↔ Completes t)
upload-outcome t path size body = (upload-IsClosed t path size body, upload_iff t path size body)
