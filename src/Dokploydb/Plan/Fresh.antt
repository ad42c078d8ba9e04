-- ===== src/Dokploydb/Plan/Fresh.antt =====
-- The rows of a plan that `BuildRetargetPlan` of internal/dokploydb/postgres.go has made: each is ready
-- to be written, and they name resources of their own.
use dokploymigrator.Base.{
  ◌≤◌, zero, Text, List, [], ◌∷◌, map, none, false, Bool, text_eq, option_eq, nat_eq, count_by, ◌≡◌,
  ◌≢◌, refl, sym, arith, ◌∙◌, ap, All, All-map, ok, inl, inr,
}
use dokploymigrator.Model.{Resource, PlanRow}
use dokploymigrator.Dokploydb.Postgres.{Row, Database, Faults, matches, count_rows}
use dokploymigrator.Dokploydb.Resources.{list_server_resources}
use dokploymigrator.Dokploydb.Retarget.{apply_rows}
use dokploymigrator.Dokploydb.Retarget.Effect.{Between, update_for, id_column_of}
use dokploymigrator.Dokploydb.Retarget.Ready.{IsReady}
use dokploymigrator.Dokploydb.Retarget.Undo.{KeyedIn, has_id}
use dokploymigrator.Dokploydb.Plan.{plan_row}
use dokploymigrator.Dokploydb.Plan.Tables.{resource_id_column-ok}
use dokploymigrator.Dokploydb.Plan.Counted.{hit, listed_as, count_rows-hit}
use dokploymigrator.Dokploydb.Plan.Listed.{
  IsResource, same_column, list_server_resources-IsResource, count_by-list_server_resources,
}
use dokploymigrator.Dokploydb.Plan.Loop.{IsApart, AllApart, apply_rows-ready}

hit-has_id :
    (c i server : Text) (rs : List Row) → count_by (hit c i server) rs ≤ count_rows (has_id c i) rs
unfolding count_rows
hit-has_id c i server [] = omega arith
hit-has_id c i server (r ∷ rs) = ground (arith, hit-has_id c i server rs)

column_given : (p : PlanRow) → p.id_column ≢ [] → id_column_of p ≡ p.id_column
column_given p n = ground arith

module _ (db : Database) (source target : Text) where
  abbrev row_of : Resource → PlanRow
  row_of r = plan_row source target r

  row_column : (r : Resource) → IsResource db source r → id_column_of (row_of r) ≡ r.id_column
  unfolding plan_row
  row_column r is =
      let (_, given, _) = resource_id_column-ok db.schema r.resource_type r.id_column is.chosen in
      column_given (plan_row source target r) given

  -- There is exactly one row for it.
  row_once :
      (r : Resource)
      → IsResource db source r
      → KeyedIn db (row_of r)
      → count_rows (matches (update_for (row_of r))) (db.rows r.resource_type) ≡ 1
  unfolding plan_row
  row_once r is key =
      let rows = db.rows r.resource_type in
      let column = row_column r is in
      omega (
        arith,
        count_rows-hit (update_for (row_of r)) source rows refl,
        hit-has_id (id_column_of (row_of r)) r.id source rows,
        key,
        ap (λ c. count_by (hit c r.id source) rows) column,
        is.present,
      )

  row-IsReady :
      (r : Resource) → IsResource db source r → KeyedIn db (row_of r) → IsReady (row_of r) db
  unfolding plan_row
  row-IsReady r is key =
      let (there, given, valid) =
        resource_id_column-ok db.schema r.resource_type r.id_column is.chosen in
      let column = row_column r is in
      record {
        allowed = is.allowed;
        has_id = rw column there;
        has_server = is.server_column;
        valid = rw column valid;
        once = row_once r is key;
      }

  rows-IsReady :
      (rs : List Resource)
      → All (IsResource db source) rs
      → All (KeyedIn db) (map row_of rs)
      → All (λ p. IsReady p db) (map row_of rs)
  rows-IsReady [] _ _ = tt
  rows-IsReady (r ∷ rs) (is, all) (key, keys) = (row-IsReady r is key, rows-IsReady rs all keys)

  row-IsApart :
      (r q : Resource)
      → IsResource db source r
      → IsResource db source q
      → listed_as r.resource_type r.id q ≡ false
      → IsApart (row_of r) (row_of q)
  unfolding plan_row
  row-IsApart r q is is' other = elim (text_eq.dec r.resource_type q.resource_type) [
    | yes e ↦ inr (
      row_column r is
          ∙ same_column db r.resource_type q.resource_type r.id_column q.id_column e is.chosen
              is'.chosen
          ∙ sym (row_column q is'),
      λ same. ground arith,
    )
    | no n ↦ inl n
  ]

  -- No other resource has its table and its ID.
  IsApart-from :
      (r : Resource) (rs : List Resource)
      → IsResource db source r
      → All (IsResource db source) rs
      → count_by (listed_as r.resource_type r.id) rs ≤ 0
      → All (IsApart (row_of r)) (map row_of rs)
  IsApart-from r [] is _ h = tt
  IsApart-from r (q ∷ rs) is (is', all) h =
      (row-IsApart r q is is' (ground arith), IsApart-from r rs is all (ground arith))

  abbrev IsSingle : List Resource → Resource → Type 0
  IsSingle rs r = count_by (listed_as r.resource_type r.id) rs ≤ 1

  IsSingle-behind : (r x : Resource) (rs : List Resource) → IsSingle (x ∷ rs) r → IsSingle rs r
  IsSingle-behind r x rs h = omega arith

  rows-AllApart :
      (rs : List Resource)
      → All (IsResource db source) rs
      → All (IsSingle rs) rs
      → AllApart (map row_of rs)
  rows-AllApart [] _ _ = tt
  rows-AllApart (r ∷ rs) (is, all) (single, singles) = (
    IsApart-from r rs is all (ground arith),
    rows-AllApart rs all
        (All-map (IsSingle (r ∷ rs)) (IsSingle rs) (λ q h. IsSingle-behind q r rs h) rs singles),
  )

  rows-Between : (rs : List Resource) → Between source target (map row_of rs)
  unfolding plan_row
  rows-Between [] = tt
  rows-Between (r ∷ rs) = ((refl, refl), rows-Between rs)

  -- A listed resource is listed once, where its ID is a key.
  listed-IsSingle :
      (collate : Text → Text → Bool) (faults : Faults) (rs : List Resource) (r : Resource)
      → list_server_resources collate faults source db ≡ ok rs
      → IsResource db source r
      → KeyedIn db (row_of r)
      → IsSingle rs r
  unfolding plan_row
  listed-IsSingle collate faults rs r h is key = omega (
    arith,
    count_by-list_server_resources collate faults source db r.resource_type r.id r.id_column rs
        is.chosen h,
    hit-has_id r.id_column r.id source (db.rows r.resource_type),
    key,
    ap (λ c. count_rows (has_id c r.id) (db.rows r.resource_type)) (row_column r is),
  )

  All-IsSingle :
      (collate : Text → Text → Bool) (faults : Faults) (all rs : List Resource)
      → list_server_resources collate faults source db ≡ ok all
      → All (IsResource db source) rs
      → All (KeyedIn db) (map row_of rs)
      → All (IsSingle all) rs
  All-IsSingle collate faults all [] h _ _ = tt
  All-IsSingle collate faults all (r ∷ rs) h (is, others) (key, keys) = (
    listed-IsSingle collate faults all r h is key,
    All-IsSingle collate faults all rs h others keys,
  )

  -- The loop over the rows of the plan runs through.
  pub listed-applies :
      (collate : Text → Text → Bool) (faults : Faults) (rs : List Resource)
      → source ≢ target
      → list_server_resources collate faults source db ≡ ok rs
      → All (KeyedIn db) (map row_of rs)
      → (apply_rows (λ k. none) zero (map row_of rs) db).0 ≡ ok tt
  listed-applies collate faults rs differ h keys =
      let all = list_server_resources-IsResource collate faults source db rs h in
      apply_rows-ready zero (map row_of rs) source target db differ (rows-Between rs)
        (rows-AllApart rs all (All-IsSingle collate faults rs rs h all keys))
        (rows-IsReady rs all keys)
