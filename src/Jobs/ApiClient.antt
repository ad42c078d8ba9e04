-- ===== src/Jobs/ApiClient.antt =====
-- `APIClient` of internal/jobs/jobs.go. The network is an argument: what a request leads to.
use dokploymigrator.Base.{
  ℕ, Text, codes, [], ◌++◌, Option, none, some, ◌||◌, ltb, leb, ◌==◌, ◌!=◌, text_eq, trim_space,
  trim_right, has_prefix, if◌then◌else◌, Result, err, ◌>>◌, fail_if,
}

pub record Request : Type 0 where
  pub method : Text
  pub url : Text
  pub authorization : Option Text
  pub content_type : Option Text
  pub body : Text

-- `http.NewRequestWithContext` refuses the request, `Do` fails, or there is an answer.
pub data Answer : Type 0 where
  not_built : Answer
  call_failed : Answer
  status : ℕ → Answer

pub data ApiError : Type 0 where
  base_url_missing deploy_path_missing request_not_built request_failed : ApiError
  bad_status : ℕ → ApiError

pub record ApiClient : Type 0 where
  pub base_url : Text
  pub token : Text
  pub health_path : Text
  pub deploy_path : Text

unfoldable pub normalize_api_path : Text → Text
normalize_api_path value =
    let trimmed = trim_space value in
    if trimmed == []
    then []
    else if has_prefix trimmed (codes "/")
    then trimmed
    else codes "/" ++ trimmed

unfoldable pub new_api_client : Text → Text → Text → Text → ApiClient
unfolding normalize_api_path trim_right
new_api_client base_url token health_path deploy_path = record {
  base_url = trim_right base_url b'/';
  token = token;
  health_path = normalize_api_path health_path;
  deploy_path = normalize_api_path deploy_path;
}

authorization : ApiClient → Option Text
authorization c = if c.token != [] then some (codes "Bearer " ++ c.token) else none

check_answer : Answer → Result ApiError (Unit {0})
check_answer not_built = err request_not_built
check_answer call_failed = err request_failed
check_answer (status n) = fail_if (ltb n 200 || leb 300 n) (bad_status n)

module _ (network : Request → Answer) where
  unfoldable pub health : ApiClient → Result ApiError (Unit {0})
  unfolding authorization check_answer
  health c = do
    fail_if (c.base_url == []) base_url_missing
    check_answer (
        network (record {
          method = codes "GET";
          url = c.base_url ++ c.health_path;
          authorization = authorization c;
          content_type = none;
          body = [];
        }))

  -- `quote` is the verb `%q`.
  unfoldable pub deploy : (Text → Text) → ApiClient → Text → Result ApiError (Unit {0})
  unfolding authorization check_answer
  deploy quote c resource_id = do
    fail_if (c.base_url == []) base_url_missing
    fail_if (c.deploy_path == []) deploy_path_missing
    check_answer (
        network (record {
          method = codes "POST";
          url = c.base_url ++ c.deploy_path;
          authorization = authorization c;
          content_type = some (codes "application/json");
          body = codes "{\"id\":" ++ quote resource_id ++ codes "}";
        }))
