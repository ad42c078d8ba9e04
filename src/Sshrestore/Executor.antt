-- ===== src/Sshrestore/Executor.antt =====
-- `Dial` of internal/sshrestore/sshrestore.go. The SSH library and the network are a parameter.
use dokploymigrator.Base.{
  ℕ, Text, codes, List, [], ◌∷◌, Option, none, some, ◌||◌, ◌==◌, nat_eq, text_eq, contains_text,
  if◌then◌else◌, ℤ, pos, negsuc, zero, suc, concat, Result, ok, err,
}

-- `timeout` is in nanoseconds.
pub record Config : Type 0 where
  pub host : Text
  pub port : Text
  pub user : Text
  pub private_key : List ℕ
  pub timeout : ℤ

-- The client of an executor is known by the address and the user of its connection.
pub record Executor : Type 0 where
  pub address : Text
  pub user : Text

pub data DialError : Type 0 where
  host_and_user_required : DialError
  parse_private_key dial_ssh handshake_ssh : Text → DialError

-- How `ssh.ParsePrivateKey`, `DialContext` at an address within a timeout, and `ssh.NewClientConn` as
-- a user end: `none`, or their error.
pub record Network : Type 0 where
  pub parse : List ℕ → Option Text
  pub dial_context : Text → ℤ → Option Text
  pub handshake : Text → Text → Option Text

-- `net.JoinHostPort`
unfoldable pub join_host_port : Text → Text → Text
unfolding contains_text
join_host_port host port =
    if contains_text host (codes ":")
    then concat (codes "[" ∷ host ∷ codes "]:" ∷ port ∷ [])
    else concat (host ∷ codes ":" ∷ port ∷ [])

abbrev pub or_port : Text → Text
or_port port = if port == [] then codes "22" else port

-- Fifteen seconds.
abbrev pub or_timeout : ℤ → ℤ
or_timeout (pos zero) = pos 15000000000
or_timeout (pos (suc n)) = pos (suc n)
or_timeout (negsuc n) = negsuc n

-- The open connections of the process, the last one first.
abbrev pub Connections : Type 0
Connections = List Text

-- Closes a connection to the address.
abbrev pub close_one : Text → Connections → Connections
close_one address [] = []
close_one address (c ∷ connections) =
    let rest = close_one address connections in if c == address then connections else c ∷ rest

-- Behind a handshake that fails, `conn.Close` closes the connection.
abbrev pub finish_handshake :
    Option Text → Executor → Connections → Result DialError Executor × Connections
finish_handshake (some e) executor connections =
    (err (handshake_ssh e), close_one executor.address connections)
finish_handshake none executor connections = (ok executor, connections)

-- `DialContext` and, on the connection that it opened, `ssh.NewClientConn`.
abbrev pub open_connection :
    Option Text → Option Text → Executor → Connections → Result DialError Executor × Connections
open_connection (some e) handshake executor connections = (err (dial_ssh e), connections)
open_connection none handshake executor connections =
    finish_handshake handshake executor (executor.address ∷ connections)

unfoldable pub dial : Network → Config → Connections → Result DialError Executor × Connections
unfolding join_host_port
dial net cfg connections =
    if cfg.host == [] || cfg.user == []
    then (err host_and_user_required, connections)
    else elim (net.parse cfg.private_key) [
      | some e ↦ (err (parse_private_key e), connections)
      | none ↦
          let address = join_host_port cfg.host (or_port cfg.port) in
          open_connection (net.dial_context address (or_timeout cfg.timeout))
            (net.handshake address cfg.user) (record { address = address; user = cfg.user })
            connections
    ]

-- `Executor.Close`, and how `Close` of the client ends.
unfoldable pub close : Option Text → Executor → Connections → Option Text × Connections
close error executor connections = (error, close_one executor.address connections)
