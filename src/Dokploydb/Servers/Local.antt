-- ===== src/Dokploydb/Servers/Local.antt =====
-- The local server in the answer of `ListServers`.
use dokploymigrator.Base.{
  ℕ, Text, any, ◌&&◌, ◌||◌, nat_eq, List, [], ◌∷◌, Bool, true, ◌==◌, text_eq, insert_by, sort_by,
  ok, ℤ, ◌≡◌, refl, ap, ◌∙◌, arith, Result-cases, inl, inr,
}
use dokploymigrator.Model.{Server, local_server_id, local_server_name}
use dokploymigrator.Dokploydb.Postgres.{Database, Faults}
use dokploymigrator.Dokploydb.Counts.{Counts, resource_counts_by_server}
use dokploymigrator.Dokploydb.Status.{table_columns, server_table}
use dokploymigrator.Dokploydb.Servers.{
  local_server, ensure_local_server, arrange_servers, list_servers, selection, by_name_and_id,
  scan_servers,
}

-- The entry of the local server, with its name and its number of resources.
unfoldable pub is_local : ℕ → Server → Bool
is_local n s = s.id == local_server_id && (s.name == local_server_name && s.resource_count == n)

local_server-is_local : (n : ℕ) → is_local n (local_server n) ≡ true
unfolding is_local
local_server-is_local n = ground arith

any-ensure_local_server :
    (servers : List Server) (n : ℕ) → any (is_local n) (ensure_local_server servers n) ≡ true
unfolding ensure_local_server
any-ensure_local_server [] n = ground (arith, local_server-is_local n)
any-ensure_local_server (s ∷ servers) n =
    ground (arith, local_server-is_local n, any-ensure_local_server servers n)

any-insert_by :
    {A : Type 0} (p : A → Bool) (lt : A → A → Bool) (y : A) (ys : List A)
    → any p (insert_by lt y ys) ≡ any p (y ∷ ys)
unfolding insert_by
any-insert_by p lt y [] = refl
any-insert_by p lt y (z ∷ zs) = ground (arith, any-insert_by p lt y zs)

any-sort_by :
    {A : Type 0} (p : A → Bool) (lt : A → A → Bool) (ys : List A) → any p (sort_by lt ys) ≡ any p ys
unfolding sort_by
any-sort_by p lt [] = refl
any-sort_by p lt (y ∷ ys) =
    any-insert_by p lt y (sort_by lt ys) ∙ ap (λ b. p y || b) (any-sort_by p lt ys)

module _ (lower_rune : ℕ → ℕ) (collate : Text → Text → Bool) where
  any-arrange_servers :
      (counts : Counts) (servers : List Server)
      → any (is_local (counts local_server_id)) (arrange_servers lower_rune collate counts servers)
        ≡ true
  unfolding arrange_servers
  any-arrange_servers counts servers =
      any-sort_by (is_local (counts local_server_id)) _ _
      ∙ any-ensure_local_server servers (counts local_server_id)

  arranged :
      (faults : Faults) (dead_after : ℤ) (now : ℕ) (db : Database) (servers : List Server)
      → list_servers lower_rune collate faults dead_after now db ≡ ok servers
      → (counts : Counts) × (resource_counts_by_server faults db ≡ ok counts)
        × (found : List Server) × (servers ≡ arrange_servers lower_rune collate counts found)
  unfolding list_servers
  arranged faults dead_after now db servers h =
      elim (Result-cases (resource_counts_by_server faults db)) [
        | inr (e, c) ↦ absurd (ground arith)
        | inl (counts, c) ↦ elim (Result-cases (table_columns faults server_table db)) [
          | inr (e, t) ↦ absurd (ground arith)
          | inl (columns, t) ↦
              let sel = selection lower_rune collate columns in
              let rows = sort_by (by_name_and_id lower_rune collate sel) (db.rows server_table) in
              elim (Result-cases (scan_servers lower_rune collate sel dead_after now counts rows)) [
                | inr (e, f) ↦ absurd (ground arith)
                | inl (found, f) ↦ (counts, c, found, ground arith)
              ]
        ]
      ]

  -- Where `ListServers` answers, the answer has the local server, under its fixed name and with its
  -- number among the counts of the resources, whatever rows the table of the servers has.
  pub list_servers-is_local :
      (faults : Faults) (dead_after : ℤ) (now : ℕ) (db : Database) (servers : List Server)
      → list_servers lower_rune collate faults dead_after now db ≡ ok servers
      → (counts : Counts) × (resource_counts_by_server faults db ≡ ok counts)
        × (any (is_local (counts local_server_id)) servers ≡ true)
  list_servers-is_local faults dead_after now db servers h =
      let (counts, c, found, e) = arranged faults dead_after now db servers h in
      (counts, c, ap (any (is_local (counts local_server_id))) e ∙ any-arrange_servers counts found)
