-- ===== src/Server/Request.antt =====
-- Requests and answers of internal/server/server.go, the authentication, and the query parameters.
use dokploymigrator.Base.{
  ℕ, Text, List, [], Option, none, some, Bool, false, ◌&&◌, ◌||◌, not, ◌==◌, ◌!=◌, text_eq, nat_eq,
  trim_space, if◌then◌else◌, ℤ, pos, negsuc, atoi, leb_ℤ, ltb_ℤ,
}
use dokploymigrator.Model.{Server, MigrationPlan}
use dokploymigrator.State.Jobs.{Job}

-- `DeadAfter` counts nanoseconds.
pub record Config : Type 0 where
  pub basic_user : Text
  pub basic_password : Text
  pub admin_token : Text
  pub dead_after : ℤ

pub record PlanRequest : Type 0 where
  pub source_server_id : Text
  pub target_server_id : Text
  pub mode : Text

pub record PlanActionRequest : Type 0 where
  pub job_id : Text
  pub plan : MigrationPlan
  pub schema_hash_approval : Text
  pub confirmation_text : Text

-- What a handler reads of a request: `basic` is what `BasicAuth` returns, a header or a query
-- parameter that is missing is `[]`, and a body is what the JSON decoder makes of it, `none` for its
-- error. `file_status` is the status with which the file server of net/http would answer: a file, a
-- redirect, or 404.
pub record Request : Type 0 where
  pub method : Text
  pub path : List Text
  pub basic : Option (Text × Text)
  pub admin_token : Text
  pub query : Text → Text
  pub plan_body : Option PlanRequest
  pub action_body : Option PlanActionRequest
  pub file_status : ℕ

pub record JobsPage : Type 0 where
  pub jobs : List Job
  pub total : ℕ
  pub limit : ℤ
  pub offset : ℤ
  pub protected_count : ℕ

-- `E` is the error of the manager. What the messages of the server's own errors say is left out.
pub data Body (E : Type 0) : Type 0 where
  status_text : Text → Body E
  server_list : List Server → Body E
  jobs_page : JobsPage → Body E
  planned : Job → MigrationPlan → Body E
  failed : E → Body E
  message : Text → Body E
  static_file : List Text → Body E

pub record Answer (E : Type 0) : Type 0 where
  pub status : ℕ
  pub body : Body E

abbrev pub job_history_page_size : ℕ
job_history_page_size = 50

abbrev pub protected_job_count : ℕ
protected_job_count = 50

abbrev pub max_job_history_page_size : ℕ
max_job_history_page_size = 50

-- The comparisons of `crypto/subtle` are those of the texts.
unfoldable pub basic_auth : Config → Option (Text × Text) → Bool
basic_auth cfg none = false
basic_auth cfg (some (user, password)) =
    not (user != cfg.basic_user || password != cfg.basic_password)

unfoldable pub check_admin_token : Config → Text → Bool
check_admin_token cfg got = not (cfg.admin_token == [] || got == [] || got != cfg.admin_token)

abbrev pub or_fallback : ℤ → Option ℤ → ℤ
or_fallback fallback none = fallback
or_fallback fallback (some (negsuc n)) = fallback
or_fallback fallback (some (pos n)) = pos n

unfoldable pub non_negative_query_int : Text → ℤ → ℤ
unfolding atoi
non_negative_query_int value fallback =
    let raw = trim_space value in if raw == [] then fallback else or_fallback fallback (atoi raw)

unfoldable pub bounded_query_int : Text → ℤ → ℤ → ℤ
unfolding non_negative_query_int
bounded_query_int query fallback max_value =
    let value = non_negative_query_int query fallback in
    if leb_ℤ value (pos 0)
    then fallback
    else if ltb_ℤ (pos 0) max_value && ltb_ℤ max_value value
    then max_value
    else value
