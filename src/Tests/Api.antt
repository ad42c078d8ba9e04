-- ===== src/Tests/Api.antt =====
-- Tests of the HTTP API of internal/server/server.go.
use dokploymigrator.Base.{
  less, inl, ◌<◌, codes, none, some, ◌≡◌, refl, ◌⊎◌, ℕ, pos, ◌≤◌, arith, text_eq,
}
use dokploymigrator.State.Tables.{Store, find_job}
use dokploymigrator.Jobs.Postgres.{postgres}
use dokploymigrator.Server.Request.{Request, bounded_query_int}
use dokploymigrator.Server.Handlers.{serve, handle_delete_job}
use dokploymigrator.Server.Access.{IsAuthorized, serve-IsAuthorized, serve-unauthenticated}
use dokploymigrator.Server.Deletions.{handle_delete_job-protects}
use dokploymigrator.State.Order.{is_newer}
use dokploymigrator.State.Ranks.{rank}
use dokploymigrator.Server.Paging.{bounded_query_int-range}
use dokploymigrator.Tests.{
  connection, setup, env, config, world, store, delete_request, job, store-IsWellFormed,
}

serve-IsAuthorized_example :
    IsAuthorized config delete_request
    ⊎ ((serve (postgres connection) setup config env delete_request world).1 ≡ world)
serve-IsAuthorized_example =
    serve-IsAuthorized (postgres connection) setup config env delete_request world

abbrev stranger : Request
stranger = record delete_request { basic = none }

serve-unauthenticated_example :
    (((serve (postgres connection) setup config env stranger world).0).status ≡ 401)
    × ((serve (postgres connection) setup config env stranger world).1 ≡ world)
serve-unauthenticated_example =
    serve-unauthenticated (postgres connection) setup config env stranger world (λ e. cc)

none_newer : rank store.jobs job < 50
unfolding is_newer less
none_newer = ground arith

handle_delete_job-protects_example :
    (s' : Store) × ((handle_delete_job
        (postgres connection)
        setup
        config
        env
        (codes "t")
        (codes "j")
        world).1.store
      ≡ some s')
    × (find_job (codes "j") s'.jobs ≡ find_job (codes "j") store.jobs)
handle_delete_job-protects_example =
    handle_delete_job-protects (postgres connection) setup config env (codes "t") (codes "j") store
      job world refl store-IsWellFormed.unique (inl refl) none_newer

bounded_query_int-range_example :
    (n : ℕ) × (bounded_query_int (codes "70") (pos 50) (pos 50) ≡ pos n) × (1 ≤ n) × (n ≤ 50)
bounded_query_int-range_example =
    bounded_query_int-range (codes "70") 50 50 (omega arith) (omega arith)
