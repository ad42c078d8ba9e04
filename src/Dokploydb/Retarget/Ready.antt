-- ===== src/Dokploydb/Retarget/Ready.antt =====
-- When a round of the loop succeeds.
use dokploymigrator.Base.{
  ℕ, suc, Text, List, [], ◌∷◌, ◌++◌, true, none, ok, err, ◌≡◌, ◌≢◌, refl, arith, ◌∙◌, ap, sym,
  fun_ext, text_eq, nat_eq, option_eq,
}
use dokploymigrator.Model.{PlanRow}
use dokploymigrator.Dokploydb.Postgres.{
  Database, Update, run_update, matches, exec_update, count_rows, has_column, server_id_column,
}
use dokploymigrator.Dokploydb.Columns.{is_retarget_table, validated_id_column}
use dokploymigrator.Dokploydb.Retarget.{Step, after, apply_row, apply_rows, retarget_sql, exec_row}
use dokploymigrator.Dokploydb.Retarget.Effect.{update_for, id_column_of, retarget_sql-eq}

pub record IsReady (p : PlanRow) (tx : Database) : Type 0 where
  pub allowed : is_retarget_table p.table ≡ true
  pub has_id : has_column tx.schema p.table (id_column_of p) ≡ true
  pub has_server : has_column tx.schema p.table server_id_column ≡ true
  pub valid : validated_id_column p.table p.id_column ≡ ok (id_column_of p)
  pub once : count_rows (matches (update_for p)) (tx.rows p.table) ≡ 1

exec_row-ready :
    (p : PlanRow) (c : Text) (u : Update) (tx : Database)
    → retarget_sql p c ≡ u
    → has_column tx.schema u.table u.id_column ≡ true
    → has_column tx.schema u.table server_id_column ≡ true
    → count_rows (matches u) (tx.rows u.table) ≡ 1
    → exec_row none p c tx ≡ (ok tt, run_update u tx)
unfolding exec_row exec_update
exec_row-ready p c u tx e a b n = rw (e, exec_row) (ground arith)

pub apply_row-ready :
    (p : PlanRow) (tx : Database)
    → p.old_server_id ≢ p.new_server_id
    → IsReady p tx
    → apply_row none p tx ≡ (ok tt, run_update (update_for p) tx)
unfolding apply_row
apply_row-ready p tx d r =
    rw (r.allowed, r.valid, apply_row)
      (exec_row-ready p (id_column_of p) (update_for p) tx (retarget_sql-eq p _ d refl) r.has_id
        r.has_server r.once)

after_assoc :
    (s : Step) (f g : Database → Step) → after (after s f) g ≡ after s (λ tx. after (f tx) g)
after_assoc (ok tt, tx) f g = refl
after_assoc (err e, tx) f g = refl

-- One more row at the end is one more round.
pub apply_rows-concat :
    (n : ℕ) (rows : List PlanRow) (p : PlanRow) (tx : Database)
    → apply_rows (λ k. none) n (rows ++ p ∷ []) tx
      ≡ after (apply_rows (λ k. none) n rows tx) (apply_row none p)
unfolding apply_rows
apply_rows-concat n [] p tx = ground arith
apply_rows-concat n (r ∷ rows) p tx =
    ap (after (apply_row none r tx)) (fun_ext λ tx'. apply_rows-concat (suc n) rows p tx')
    ∙ sym (after_assoc (apply_row none r tx) _ (apply_row none p))
