-- ===== src/Jobs/Report.antt =====
-- `buildReport`. `json` is `json.MarshalIndent` of the report's body, which cannot fail on it.
use dokploymigrator.Base.{Text, codes, ◌++◌, length, decimal}
use dokploymigrator.Model.{MigrationPlan}

pub record ReportBody : Type 0 where
  pub job_id : Text
  pub status : Text
  pub plan : MigrationPlan

unfoldable pub markdown_of : ReportBody → Text
markdown_of body =
    codes "# Dokploy Migrator Report\n\n- Job: `"
    ++ (body.job_id
        ++ (codes "`\n- Status: "
            ++ (body.status
                ++ (codes "\n- Source: `"
                    ++ (body.plan.source_server_id
                        ++ (codes "`\n- Target: `"
                            ++ (body.plan.target_server_id
                                ++ (codes "`\n- Rows changed: "
                                    ++ (decimal (length body.plan.rows)
                                        ++ (codes "\n- Schema: `"
                                            ++ (body.plan.schema_hash ++ codes "`\n")))))))))))

unfoldable pub build_report : (ReportBody → Text) → Text → MigrationPlan → Text → Text × Text
unfolding markdown_of
build_report json job_id plan status =
    let body : ReportBody = record { job_id = job_id; status = status; plan = plan } in
    (json body, markdown_of body)
