-- ===== src/Sshrestore/Uploads.antt =====
-- What the target host receives of an `Upload` of internal/sshrestore/sshrestore.go.
use dokploymigrator.Base.{
  ℕ, zero, Text, codes, List, [], ◌∷◌, ◌++◌, Option, none, some, true, false, nat_eq, text_eq,
  decimal, number-decimal, length, ◌≡◌, ◌≢◌, refl, sym, ap, ◌∙◌, arith, All, ok, ℤ, pos,
}
use dokploymigrator.Sshrestore.Paths.{path_base, path_dir}
use dokploymigrator.Sshrestore.Commands.{shell_quote}
use dokploymigrator.Sshrestore.Shell.{gap, shell_words, words_from, read_rune, is_plain}
use dokploymigrator.Sshrestore.Quoting.{feed, mode_behind, append_nil, piece-gap}
use dokploymigrator.Sshrestore.Wire.{utf8}
use dokploymigrator.Sshrestore.Scp.{header, scp_receive, scp_receive-file}
use dokploymigrator.Sshrestore.Sessions.{
  Session, Transfer, Ending, scp_header, scp_command, with_goroutine, send, upload, UploadError,
  Ended, and_then, write_bytes, finish_upload, close_stdin, close_session, new_session, piped,
  in_upload_session, send_body, send_terminator, UploadResult, write_scp_header, copy_scp_body,
  write_scp_terminator,
}
use dokploymigrator.Sshrestore.Header.{
  InLine, append_assoc, InLine-append, InLine-utf8, decimal-InLine, decimal-ne-gap, utf8-scp_header,
}

-- A write behind which an upload has no error has sent all bytes.
written :
    (failed : Text → UploadError) (end : Option (ℕ × Text)) (bytes : List ℕ) (s s' : Session)
    (next : Session → Ended)
    → and_then (write_bytes failed end bytes s) next ≡ (ok tt, s')
    → next (record s { stdin = s.stdin ++ bytes }) ≡ (ok tt, s')
written failed none bytes s s' next h = h
written failed (some (n, e)) bytes s s' next h = cc

finish_upload-ok :
    (end : Option Text) (ending : Ending) (path : Text) (s s' : Session)
    → finish_upload end ending path s ≡ (ok tt, s')
    → s' ≡ close_stdin (record s { command = some (scp_command path) })
finish_upload-ok (some e) ending path s s' h = cc
finish_upload-ok none (Ending.cancelled e) path s s' h = cc
finish_upload-ok none (Ending.finished (some e)) path s s' h = cc
finish_upload-ok none (Ending.finished none) path s s' h = cc

-- What an upload without an error has sent.
abbrev sent : Text → ℤ → List ℕ → List ℕ
sent path size body = (utf8 (scp_header path size) ++ body) ++ zero ∷ []

send-ok :
    (t : Transfer) (path : Text) (size : ℤ) (body : List ℕ) (s s' : Session)
    → s.stdin ≡ []
    → send t path size body s ≡ (ok tt, s')
    → (s'.stdin ≡ sent path size body) × (s'.command ≡ some (scp_command path))
unfolding send
send-ok t path size body s s' empty h =
    let header = utf8 (scp_header path size) in
    let s1 = record s { stdin = s.stdin ++ header } in
    let s2 = record s1 { stdin = s1.stdin ++ body } in
    let s3 = record s2 { stdin = s2.stdin ++ zero ∷ [] } in
    let h1 = written write_scp_header t.header header s s' (send_body t path body) h in
    let h2 = written copy_scp_body t.body body s1 s' (send_terminator t path) h1 in
    let h3 =
      written write_scp_terminator t.terminator (zero ∷ []) s2 s'
        (finish_upload t.close_stdin t.ending path) h2 in
    let e = finish_upload-ok t.close_stdin t.ending path s3 s' h3 in
    (
      ap (λ (x : Session). x.stdin) e ∙ ap (λ x. ((x ++ header) ++ body) ++ zero ∷ []) empty,
      ap (λ (x : Session). x.command) e,
    )

closed-ok :
    (r : Ended) (s : Session)
    → close_session r ≡ (ok tt, some s)
    → (s' : Session) × (r ≡ (ok tt, s')) × (s.stdin ≡ s'.stdin) × (s.command ≡ s'.command)
closed-ok (r, s') s h =
    let e : record s' { is_open = false } ≡ s = cc in
    (
      s',
      ap (λ x. (x, s')) (ap (λ (x : UploadResult × Option Session). x.0) h),
      sym (ap (λ (x : Session). x.stdin) e),
      sym (ap (λ (x : Session). x.command) e),
    )

piped-ok :
    (end : Option Text) (next : Session → Ended) (s s' : Session)
    → piped end next s ≡ (ok tt, s')
    → next (record s { stdin_open = true }) ≡ (ok tt, s')
piped-ok none next s s' h = h
piped-ok (some e) next s s' h = cc

in_session-ok :
    (end : Option Text) (rest : Ended) (s : Session)
    → in_upload_session end rest ≡ (ok tt, some s)
    → close_session rest ≡ (ok tt, some s)
in_session-ok none rest s h = h
in_session-ok (some e) rest s h = cc

upload-sent :
    (t : Transfer) (path : Text) (size : ℤ) (body : List ℕ) (s : Session)
    → upload t path size body ≡ (ok tt, some s)
    → (s.stdin ≡ sent path size body) × (s.command ≡ some (scp_command path))
unfolding upload
upload-sent t path size body s h =
    let start = λ (s : Session). send t path size body (with_goroutine t path s) in
    let (s1, ended, stdin, command) =
      closed-ok (piped t.stdin_pipe start new_session) s (in_session-ok t.session _ s h) in
    let begun = with_goroutine t path (record new_session { stdin_open = true }) in
    let (stdin', command') =
      send-ok t path size body begun s1 refl (piped-ok t.stdin_pipe start new_session s1 ended) in
    (stdin ∙ stdin', command ∙ command')

scp_words :
    (dir : Text)
    → shell_words (codes "scp -t " ++ shell_quote dir) ≡ some (codes "scp" ∷ codes "-t" ∷ dir ∷ [])
unfolding feed mode_behind read_rune is_plain nat_eq words_from
scp_words dir =
    ap (λ x. shell_words (codes "scp -t " ++ x)) (sym (append_nil (shell_quote dir)))
    ∙ piece-gap gap (codes "scp -t ") dir [] [] dir [] refl refl (append_nil dir)

sent-received :
    (path : Text) (body : List ℕ)
    → InLine (path_base path)
    → scp_receive (sent path (pos (length body)) body)
      ≡ some (record { mode = codes "0600"; name = utf8 (path_base path); content = body })
sent-received path body line =
    let size = decimal (length body) in
    let name = utf8 (path_base path) in
    let header = header (codes "0600") size name in
    ap (λ x. scp_receive ((x ++ body) ++ zero ∷ [])) (utf8-scp_header path (length body))
    ∙ ap scp_receive (
        append_assoc (header ++ b'\n' ∷ []) body (zero ∷ [])
        ∙ append_assoc header (b'\n' ∷ []) (body ++ zero ∷ []))
    ∙ scp_receive-file (codes "0600") size name body
        (fields-InLine size name (decimal-InLine (length body)) (InLine-utf8 (path_base path) line))
        (omega arith, (omega arith, (omega arith, (omega arith, tt))))
        (decimal-ne-gap (length body)) (number-decimal (length body))
  where
    fields-InLine :
        (size name : List ℕ) → InLine size → InLine name → InLine (header (codes "0600") size name)
    fields-InLine size name s n = (
      omega arith,
      (
        omega arith,
        (
          omega arith,
          (
            omega arith,
            (omega arith, (omega arith, InLine-append size (b' ' ∷ name) s (omega arith, n))),
          ),
        ),
      ),
    )

-- After an `Upload` without an error, of as many bytes as it was told and to a name without a line
-- break, the target host has been asked for one command, which a shell reads as `scp -t` with the
-- directory as one argument, and that command has received one file with the mode 0600, the name, and
-- the bytes of the upload.
pub upload-received :
    (t : Transfer) (path : Text) (body : List ℕ) (s : Session)
    → All (λ c. c ≢ b'\n') (path_base path)
    → upload t path (pos (length body)) body ≡ (ok tt, some s)
    → (scp_receive s.stdin
        ≡ some (record { mode = codes "0600"; name = utf8 (path_base path); content = body }))
      × (s.command ≡ some (scp_command path))
      × (shell_words (scp_command path) ≡ some (codes "scp" ∷ codes "-t" ∷ path_dir path ∷ []))
upload-received t path body s line h =
    let (stdin, command) = upload-sent t path (pos (length body)) body s h in
    (ap scp_receive stdin ∙ sent-received path body line, command, scp_words (path_dir path))
