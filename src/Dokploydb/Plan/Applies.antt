-- ===== src/Dokploydb/Plan/Applies.antt =====
-- A plan that `BuildRetargetPlan` of internal/dokploydb/postgres.go has made can be applied.
use dokploymigrator.Base.{
  ℕ, zero, Text, List, [], ◌∷◌, map, none, Bool, ◌||◌, ◌==◌, text_eq, nat_eq, trim_space,
  trim_left_space, trim_right_space, ◌≡◌, ◌≢◌, refl, sym, arith, ◌∙◌, ap, All, subst, ok, fail_if,
  >>=-eq-ok, inl,
}
use dokploymigrator.Model.{Resource, MigrationPlan}
use dokploymigrator.Dokploydb.Postgres.{Database, Faults, no_faults}
use dokploymigrator.Dokploydb.Adapter.{
  Adapter, AdapterError, validate_schema, schema_fingerprint, check_hash,
  source_and_target_required, source_and_target_must_differ,
}
use dokploymigrator.Dokploydb.Resources.{list_server_resources}
use dokploymigrator.Dokploydb.Guard.{validate_write_schema}
use dokploymigrator.Dokploydb.Guard.Validity.{IsWritable, IsValid, validate_write_schema_iff}
use dokploymigrator.Dokploydb.Retarget.{apply_rows, apply_retarget_plan}
use dokploymigrator.Dokploydb.Retarget.Undo.{KeyedIn}
use dokploymigrator.Dokploydb.Retarget.Rollback.{
  check_write-passes, apply-passes, transact-passes, fingerprint_of_schema,
}
use dokploymigrator.Dokploydb.Plan.{plan_row, plan_of, plan_between, build_retarget_plan}
use dokploymigrator.Dokploydb.Plan.Listed.{IsResource, list_server_resources-IsResource}
use dokploymigrator.Dokploydb.Plan.Ink.{
  IsInk, trim_space-ink, IsInk-trim_space, table_ink, plan_id_ink,
}
use dokploymigrator.Dokploydb.Plan.Fresh.{listed-applies}

-- What a plan needs besides what `BuildRetargetPlan` gives it.
pub record IsAppliable (db : Database) (plan : MigrationPlan) : Type 0 where
  pub some_row : plan.rows ≢ []
  pub hash : trim_space plan.schema_hash ≢ []
  pub ids : All (λ p. trim_space p.id ≢ []) plan.rows
  pub keys : All (KeyedIn db) plan.rows

both_given :
    (s t : Text) (e : AdapterError) → fail_if (s == [] || t == []) e ≡ ok tt → (s ≢ []) × (t ≢ [])
both_given s t e h = (ground arith, ground arith)

others : (s t : Text) (e : AdapterError) → fail_if (s == t) e ≡ ok tt → s ≢ t
others s t e h = ground arith

module _ (sha256 : Text → List ℕ) (collate : Text → Text → Bool) where
  -- What a call of `BuildRetargetPlan` that returns a plan has found.
  record Built (faults : Faults) (a : Adapter) (now : ℕ × ℕ) (db : Database) (source target : Text)
      (plan : MigrationPlan) : Type 0 where
    hash : Text
    resources : List Resource
    has_source : source ≢ []
    has_target : target ≢ []
    differ : source ≢ target
    current : schema_fingerprint sha256 faults db ≡ ok hash
    listed : list_server_resources collate faults source db ≡ ok resources
    made : plan ≡ plan_of now source target hash resources

  checked_hash :
      (allowed : List Text) (hash found : Text)
      → check_hash sha256 allowed hash ≡ ok found
      → hash ≡ found
  unfolding check_hash
  checked_hash [] hash found h = ground arith
  checked_hash (a ∷ allowed) hash found h = ground arith

  fingerprint_of_valid :
      (faults : Faults) (a : Adapter) (db : Database) (hash : Text)
      → validate_schema sha256 faults a db ≡ ok hash
      → schema_fingerprint sha256 faults db ≡ ok hash
  unfolding validate_schema
  fingerprint_of_valid faults a db hash h =
      let (current, f, c) =
        >>=-eq-ok (schema_fingerprint sha256 faults db) (check_hash sha256 a.allowed_hashes) h in
      f ∙ ap ok (checked_hash a.allowed_hashes current hash c)

  built :
      (faults : Faults) (a : Adapter) (now : ℕ × ℕ) (db : Database) (source target : Text)
      (plan : MigrationPlan)
      → plan_between sha256 collate faults a now source target db ≡ ok plan
      → Built faults a now db source target plan
  unfolding plan_between validate_schema
  built faults a now db source target plan h =
      let (_, given, h1) =
        >>=-eq-ok (fail_if (source == [] || target == []) source_and_target_required) _ h in
      let (_, differ, h2) =
        >>=-eq-ok (fail_if (source == target) source_and_target_must_differ) _ h1 in
      let (hash, valid, h3) = >>=-eq-ok (validate_schema sha256 faults a db) _ h2 in
      let (rs, listed, made) = >>=-eq-ok (list_server_resources collate faults source db) _ h3 in
      record {
        hash = hash;
        resources = rs;
        has_source = (both_given source target _ given).0;
        has_target = (both_given source target _ given).1;
        differ = others source target _ differ;
        current = fingerprint_of_valid faults a db hash valid;
        listed = listed;
        made = cc;
      }

  rows-IsWritable :
      (db : Database) (source target : Text) (rs : List Resource)
      → All (IsResource db source) rs
      → All (λ p. trim_space p.id ≢ []) (map (plan_row source target) rs)
      → All (IsWritable source target) (map (plan_row source target) rs)
  unfolding plan_row
  rows-IsWritable db source target [] _ _ = tt
  rows-IsWritable db source target (r ∷ rs) (is, all) (id, ids) = (
    record { table = table_ink r.resource_type is.allowed; id = id; old = refl; new = refl },
    rows-IsWritable db source target rs all ids,
  )

  plan_of-IsValid :
      (now : ℕ × ℕ) (db : Database) (source target hash : Text) (rs : List Resource)
      → IsInk source
      → IsInk target
      → source ≢ target
      → All (IsResource db source) rs
      → IsAppliable db (plan_of now source target hash rs)
      → IsValid (plan_of now source target hash rs)
  unfolding plan_of
  plan_of-IsValid now db source target hash rs s t differ all ready = record {
    id = plan_id_ink now.0;
    source = trim_space-ink source s;
    target = trim_space-ink target t;
    differ = differ;
    hash = ready.hash;
    some_row = ready.some_row;
    writable = rows-IsWritable db source target rs all ready.ids;
  }

  approved :
      (hash : Text) (allowed : List Text)
      → trim_space hash ≢ []
      → validate_write_schema hash hash hash allowed ≡ ok tt
  unfolding trim_space trim_left_space trim_right_space
  approved hash allowed n =
      let given = λ (e : hash ≡ []). n (ap trim_space e) in
      (validate_write_schema_iff hash hash hash allowed).1
        (record { hash = given; same = refl; approved = inl (given, refl) })

  plan_of-applies :
      (faults : Faults) (a : Adapter) (now : ℕ × ℕ) (db : Database) (source target hash : Text)
      (rs : List Resource)
      → IsInk source
      → IsInk target
      → source ≢ target
      → schema_fingerprint sha256 faults db ≡ ok hash
      → list_server_resources collate faults source db ≡ ok rs
      → IsAppliable db (plan_of now source target hash rs)
      → (apply_retarget_plan sha256 no_faults a (plan_of now source target hash rs) hash db).0
        ≡ ok tt
  unfolding plan_of
  plan_of-applies faults a now db source target hash rs s t differ current listed ready =
      let plan = plan_of now source target hash rs in
      let all = list_server_resources-IsResource collate faults source db rs listed in
      let valid = plan_of-IsValid now db source target hash rs s t differ all ready in
      let passes =
        check_write-passes sha256 no_faults a plan hash hash db valid
          (fingerprint_of_schema sha256 faults db db refl current)
          (approved hash a.allowed_hashes ready.hash) in
      let looped = listed-applies db source target collate faults rs differ listed ready.keys in
      ap (λ s. s.0)
        (apply-passes sha256 no_faults a plan hash db passes
          ∙ transact-passes plan.rows db (apply_rows (λ k. none) zero plan.rows db).1
              (ap (λ r. (r, (apply_rows (λ k. none) zero plan.rows db).1)) looped))

  -- A plan is applied, with its own hash approved, to the database that it is made of.
  pub build_retarget_plan-applies :
      (faults : Faults) (a : Adapter) (now : ℕ × ℕ) (source target : Text) (db : Database)
      (plan : MigrationPlan)
      → build_retarget_plan sha256 collate faults a now source target db ≡ ok plan
      → IsAppliable db plan
      → (apply_retarget_plan sha256 no_faults a plan plan.schema_hash db).0 ≡ ok tt
  unfolding build_retarget_plan
  build_retarget_plan-applies faults a now source target db plan h ready =
      let b = built faults a now db (trim_space source) (trim_space target) plan h in
      subst
        (λ p.
          IsAppliable db p → (apply_retarget_plan sha256 no_faults a p p.schema_hash db).0 ≡ ok tt)
        (sym b.made)
        (plan_of-applies faults a now db (trim_space source) (trim_space target) b.hash b.resources
          (IsInk-trim_space source b.has_source) (IsInk-trim_space target b.has_target) b.differ
          b.current b.listed)
        ready

  -- The servers of a plan are those that were asked for.
  pub build_retarget_plan-servers :
      (faults : Faults) (a : Adapter) (now : ℕ × ℕ) (source target : Text) (db : Database)
      (plan : MigrationPlan)
      → build_retarget_plan sha256 collate faults a now source target db ≡ ok plan
      → (plan.source_server_id ≡ trim_space source)
        × (plan.target_server_id ≡ trim_space target)
        × (trim_space plan.id ≢ [])
  unfolding build_retarget_plan plan_of
  build_retarget_plan-servers faults a now source target db plan h =
      let b = built faults a now db (trim_space source) (trim_space target) plan h in
      (
        ap (λ (p : MigrationPlan). p.source_server_id) b.made,
        ap (λ (p : MigrationPlan). p.target_server_id) b.made,
        rw (ap (λ (p : MigrationPlan). p.id) b.made) (plan_id_ink now.0),
      )
