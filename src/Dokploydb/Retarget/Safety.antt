-- ===== src/Dokploydb/Retarget/Safety.antt =====
-- What a retarget never does.
use dokploymigrator.Base.{
  ℕ, zero, suc, Text, List, [], ◌∷◌, true, false, Option, ok, ◌≡◌, ◌≢◌, refl, arith, ◌∙◌, ap, All,
  Result-cases, inl, inr, map_identity, any, text_eq, option_eq,
}
use dokploymigrator.Model.{PlanRow, MigrationPlan}
use dokploymigrator.Dokploydb.Postgres.{Database, Row, Faults, Failure, run_update}
use dokploymigrator.Dokploydb.Columns.{is_retarget_table}
use dokploymigrator.Dokploydb.Adapter.{Adapter, schema_fingerprint}
use dokploymigrator.Dokploydb.Guard.Validity.{
  IsValid, IsApproved, validate_sound, validate_write_schema_iff,
}
use dokploymigrator.Dokploydb.Retarget.{Step, apply_row, apply_rows, apply_retarget_plan}
use dokploymigrator.Dokploydb.Retarget.Atomic.{apply_retarget_plan-atomic}
use dokploymigrator.Dokploydb.Retarget.Effect.{
  Between, targets, apply_row-ok, after-ok, transact-ok, check_write-ok, apply-ok, writable-Between,
  apply_retarget_plan-effect,
}

-- Every table that the plan names is one of the nine.
abbrev pub InTables : List PlanRow → Type 0
InTables = All (λ p. is_retarget_table p.table ≡ true)

apply_rows-InTables :
    (faults : ℕ → Option Failure) (n : ℕ) (plan : List PlanRow) (source target : Text)
    (db : Database)
    → source ≢ target
    → Between source target plan
    → (apply_rows faults n plan db).0 ≡ ok tt
    → InTables plan
unfolding apply_rows
apply_rows-InTables faults n [] source target db d b h = tt
apply_rows-InTables faults n (p ∷ plan) source target db d (b, bs) h =
    let (one, step) = after-ok (apply_row (faults n) p db) _ h in
    (
      (apply_row-ok (faults n) p db (λ e. d (cc)) one).allowed,
      apply_rows-InTables faults (suc n) plan source target _ d bs (rw step at h),
    )

apply_rows-schema :
    (faults : ℕ → Option Failure) (n : ℕ) (plan : List PlanRow) (source target : Text)
    (db : Database)
    → source ≢ target
    → Between source target plan
    → (apply_rows faults n plan db).0 ≡ ok tt
    → (apply_rows faults n plan db).1.schema ≡ db.schema
unfolding apply_rows run_update
apply_rows-schema faults n [] source target db d b h = refl
apply_rows-schema faults n (p ∷ plan) source target db d (b, bs) h =
    let (one, step) = after-ok (apply_row (faults n) p db) _ h in
    ap (λ (s : Step). s.1.schema) step
    ∙ apply_rows-schema faults (suc n) plan source target _ d bs (rw step at h)
    ∙ ap (λ (s : Database). s.schema) (apply_row-ok (faults n) p db (λ e. d (cc)) one).state

not_targeted :
    (t : Text) (r : Row) (plan : List PlanRow)
    → is_retarget_table t ≡ false
    → InTables plan
    → any (targets t r) plan ≡ false
not_targeted t r [] h _ = refl
not_targeted t r (p ∷ plan) h (a, rest) = ground (arith, not_targeted t r plan h rest)

module _ (sha256 : Text → List ℕ) (faults : Faults) (a : Adapter) (plan : MigrationPlan)
    (approval : Text) (db : Database) where
  -- A retarget succeeds only for a valid plan over the nine tables, whose hash is the fingerprint of
  -- the current schema and has been approved.
  pub apply_retarget_plan-guarded :
      (apply_retarget_plan sha256 faults a plan approval db).0 ≡ ok tt
      → (current : Text) × (schema_fingerprint sha256 faults db ≡ ok current)
        × IsApproved current plan.schema_hash approval a.allowed_hashes
        × IsValid plan
        × InTables plan.rows
  apply_retarget_plan-guarded h =
      let (checked, done, e) = apply-ok sha256 faults a plan approval db h in
      let (hash, current, valid, approved) =
        check_write-ok sha256 faults a plan approval db checked in
      let v = validate_sound plan valid in
      let (looped, e') = transact-ok faults plan.rows db done in
      (
        hash,
        current,
        (validate_write_schema_iff hash plan.schema_hash approval a.allowed_hashes).0 approved,
        v,
        apply_rows-InTables faults.exec zero plan.rows _ _ db v.differ
            (writable-Between _ _ plan.rows v.writable) looped,
      )

  frame_of_ok :
      (t : Text)
      → is_retarget_table t ≡ false
      → (apply_retarget_plan sha256 faults a plan approval db).0 ≡ ok tt
      → (apply_retarget_plan sha256 faults a plan approval db).1.rows t ≡ db.rows t
  frame_of_ok t out h =
      let (_, _, _, _, tables) = apply_retarget_plan-guarded h in
      apply_retarget_plan-effect sha256 faults a plan approval db h t
      ∙ map_identity _ (db.rows t) (λ r. ground (arith, not_targeted t r plan.rows out tables))

  -- Whatever the plan and the outcome, a table outside the nine keeps its rows.
  pub apply_retarget_plan-frame :
      (t : Text)
      → is_retarget_table t ≡ false
      → (apply_retarget_plan sha256 faults a plan approval db).1.rows t ≡ db.rows t
  apply_retarget_plan-frame t out =
      elim (Result-cases (apply_retarget_plan sha256 faults a plan approval db).0) [
        | inl (tt, h) ↦ frame_of_ok t out h
        | inr (e, h) ↦
            ap (λ (s : Database). s.rows t)
              (apply_retarget_plan-atomic sha256 faults a plan approval db h)
      ]

  -- A retarget that succeeds has not changed the schema.
  pub apply_retarget_plan-schema :
      (apply_retarget_plan sha256 faults a plan approval db).0 ≡ ok tt
      → (apply_retarget_plan sha256 faults a plan approval db).1.schema ≡ db.schema
  apply_retarget_plan-schema h =
      let (_, done, e) = apply-ok sha256 faults a plan approval db h in
      let (_, _, _, v, _) = apply_retarget_plan-guarded h in
      let (looped, e') = transact-ok faults plan.rows db done in
      ap (λ (s : Step). s.1.schema) e
      ∙ ap (λ (s : Database). s.schema) e'
      ∙ apply_rows-schema faults.exec zero plan.rows _ _ db v.differ
          (writable-Between _ _ plan.rows v.writable) looped
