-- ===== src/Tests/Listing.antt =====
-- A test of `ListServers` of internal/dokploydb/postgres.go.
use dokploymigrator.Dokploydb.Columns.{resource_id_column}
use dokploymigrator.Dokploydb.Resources.{supported_tables}
use dokploymigrator.Base.{
  codes, [], ◌∷◌, none, true, any, less, ok, pos, ◌≡◌, refl, if◌then◌else◌, ◌==◌, text_eq, sort_by,
  to_lower, trim_space, nat_eq,
}
use dokploymigrator.Model.{Server, server_unknown, local_server_id}
use dokploymigrator.Dokploydb.Postgres.{Database, no_faults, has_column}
use dokploymigrator.Dokploydb.Counts.{Counts, resource_counts_by_server}
use dokploymigrator.Dokploydb.Servers.{local_server, list_servers, status_eq}
use dokploymigrator.Dokploydb.Servers.Local.{is_local, list_servers-is_local}
use dokploymigrator.Tests.{stored_row}

abbrev one_server : Database
one_server = record {
  schema =
      record {
        table_name = codes "server";
        column_name = codes "serverId";
        data_type = codes "text";
      }
      ∷ [];
  rows = λ table. if table == codes "server" then stored_row (codes "a") ∷ [] else [];
}

abbrev server_a : Server
server_a = record {
  id = codes "a";
  name = codes "a";
  status = server_unknown;
  last_seen_at = none;
  resource_count = 0;
}

listed :
    list_servers (λ c. c) less no_faults (pos 10) 100 one_server
    ≡ ok (server_a ∷ local_server 0 ∷ [])
unfolding list_servers text_eq supported_tables sort_by resource_id_column has_column status_eq
    to_lower trim_space nat_eq less
listed = refl

list_servers-is_local_example :
    (counts : Counts) × (resource_counts_by_server no_faults one_server ≡ ok counts)
    × (any (is_local (counts local_server_id)) (server_a ∷ local_server 0 ∷ []) ≡ true)
list_servers-is_local_example =
    list_servers-is_local (λ c. c) less no_faults (pos 10) 100 one_server
      (server_a ∷ local_server 0 ∷ []) listed
