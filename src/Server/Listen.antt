-- ===== src/Server/Listen.antt =====
-- The end of `ListenAndServe` of internal/server/server.go.
use dokploymigrator.Base.{Text, Option, none, some, Result, ok, err}

-- What `select` takes first: the context is done, and the shutdown may fail, or the server ends by
-- itself, closed or with an error.
pub data Ending : Type 0 where
  interrupted : Option Text → Ending
  closed : Ending
  broken : Text → Ending

pub data ListenError : Type 0 where
  shutdown_failed server_failed : Text → ListenError

unfoldable pub listen_and_serve : Ending → Result ListenError (Unit {0})
listen_and_serve (interrupted none) = ok tt
listen_and_serve (interrupted (some e)) = err (shutdown_failed e)
listen_and_serve closed = ok tt
listen_and_serve (broken e) = err (server_failed e)
