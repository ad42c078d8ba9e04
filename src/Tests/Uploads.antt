-- ===== src/Tests/Uploads.antt =====
-- Tests of the executor of internal/sshrestore/sshrestore.go.
use dokploymigrator.Base.{
  ℕ, Text, codes, List, [], ◌∷◌, none, some, ok, pos, ◌≡◌, ◌≢◌, ◌++◌, All, false, ◌↔◌, refl,
  text_eq, nat_eq, arith, decimal,
}
use dokploymigrator.Sshrestore.Paths.{path_base, path_dir}
use dokploymigrator.Sshrestore.Shell.{shell_words}
use dokploymigrator.Sshrestore.Wire.{utf8}
use dokploymigrator.Sshrestore.Executor.{Config, Network, dial}
use dokploymigrator.Sshrestore.Sessions.{Session, Transfer, Ending, upload, scp_command}
use dokploymigrator.Sshrestore.Scp.{scp_receive}
use dokploymigrator.Sshrestore.Uploads.{upload-received}
use dokploymigrator.Sshrestore.Closing.{Dialed, dial-Dialed, IsClosed, Completes, upload-outcome}

abbrev path : Text
path = codes "/b/d é.gz"

abbrev body : List ℕ
body = 31 ∷ 139 ∷ 10 ∷ []

-- Every call succeeds.
abbrev transfer : Transfer
transfer = record {
  session = none;
  stdin_pipe = none;
  started = false;
  header = none;
  body = none;
  terminator = none;
  close_stdin = none;
  ending = Ending.finished none;
}

abbrev session : Session
session = record {
  command = some (codes "scp -t '/b'");
  stdin = codes "C0600 3 d " ++ 195 ∷ 169 ∷ codes ".gz\n" ++ body ++ 0 ∷ [];
  stdin_open = false;
  is_open = false;
  killed = false;
}

uploaded : upload transfer path (pos 3) body ≡ (ok tt, some session)
unfolding upload text_eq nat_eq decimal
uploaded = refl

in_line : path_base path ≡ codes "d é.gz"
unfolding path_base text_eq nat_eq
in_line = refl

line : All (λ c. c ≢ 10) (path_base path)
unfolding path_base text_eq nat_eq
line = ground arith

upload-received_example :
    (scp_receive session.stdin
      ≡ some (record { mode = codes "0600"; name = utf8 (path_base path); content = body }))
    × (session.command ≡ some (scp_command path))
    × (shell_words (scp_command path) ≡ some (codes "scp" ∷ codes "-t" ∷ path_dir path ∷ []))
upload-received_example = upload-received transfer path body session line uploaded

upload-outcome_example :
    IsClosed (upload transfer path (pos 4) body).1
    × (((upload transfer path (pos 4) body).0 ≡ ok tt) ↔ Completes transfer)
upload-outcome_example = upload-outcome transfer path (pos 4) body

abbrev config : Config
config = record {
  host = codes "::1";
  port = [];
  user = codes "root";
  private_key = 1 ∷ [];
  timeout = pos 0;
}

-- The handshake fails.
abbrev network : Network
network = record {
  parse = λ key. none;
  dial_context = λ address timeout. none;
  handshake = λ address user. some (codes "no");
}

abbrev willing : Network
willing = record network { handshake = λ address user. none }

dialed : dial willing config (codes "other:22" ∷ []) ≡ (
  ok (record { address = codes "[::1]:22"; user = codes "root" }),
  codes "[::1]:22" ∷ codes "other:22" ∷ [],
)
unfolding dial text_eq nat_eq
dialed = refl

dial-Dialed_example : Dialed (codes "other:22" ∷ []) (dial network config (codes "other:22" ∷ []))
dial-Dialed_example = dial-Dialed network config (codes "other:22" ∷ [])
