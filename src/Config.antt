-- ===== src/Config.antt =====
-- The settings of internal/config/config.go, from an environment of which a variable that is not set
-- is `[]`.
pub mod Loaded
use Prim.Native.Nat.{◌*◌, ◌%◌}
use dokploymigrator.Base.{
  ℕ, ◌+◌, ◌-◌, suc, Text, codes, List, [], ◌∷◌, Option, none, some, Bool, true, false, ◌||◌, ◌==◌,
  ◌!=◌, nat_eq, text_eq, if◌then◌else◌, ltb, ℤ, pos, negsuc, atoi, split, trim_space, trim_right,
  has_prefix, filter_by, map, Result, ok, err, ◌>>=◌, ◌>>◌, fail_if,
}

pub data ConfigError : Type 0 where
  basic_auth_required admin_token_required dokploy_db_required : ConfigError

-- `dead_after` counts nanoseconds.
pub record Config : Type 0 where
  pub addr : Text
  pub state_path : Text
  pub dokploy_postgres_dsn : Text
  pub dokploy_api_base_url : Text
  pub dokploy_api_token : Text
  pub basic_auth_user : Text
  pub basic_auth_password : Text
  pub admin_token : Text
  pub dead_after : ℤ
  pub schema_allowlist : List Text
  pub deploy_path : Text
  pub health_path : Text

-- `os.Getenv`
abbrev pub Environment : Type 0
Environment = Text → Text

unfoldable pub getenv : Environment → Text → Text → Text
getenv environment key fallback =
    let value = environment key in if value == [] then fallback else value

abbrev second : ℕ
second = 1000000000

-- A number of nanoseconds in 64 bits, from its remainder.
abbrev signed_64 : ℕ → ℤ
signed_64 u = if ltb u 9223372036854775808 then pos u else negsuc (18446744073709551616 - u - 1)

-- `time.Duration(seconds) * time.Second`, which wraps around.
unfoldable pub seconds_duration : ℤ → ℤ
seconds_duration (pos n) = signed_64 (n * second % 18446744073709551616)
seconds_duration (negsuc n) =
    signed_64
      ((18446744073709551616 - suc n * second % 18446744073709551616) % 18446744073709551616)

abbrev or_parsed : ℤ → Option ℤ → ℤ
or_parsed fallback none = fallback
or_parsed fallback (some parsed) = parsed

abbrev or_duration : Option ℤ → ℤ → ℤ
or_duration none otherwise = otherwise
or_duration (some seconds) otherwise = seconds_duration seconds

-- `parse_duration` is `time.ParseDuration`.
unfoldable pub duration_env : (Text → Option ℤ) → Environment → Text → ℤ → ℤ
unfolding seconds_duration
duration_env parse_duration environment key fallback =
    let value = environment key in
    if value == []
    then fallback
    else or_duration (atoi value) (or_parsed fallback (parse_duration value))

unfoldable pub split_list : Text → List Text
unfolding split
split_list value =
    if value == [] then [] else filter_by (λ part. part != []) (map trim_space (split value b','))

unfoldable pub normalize_url_path : Text → Text
normalize_url_path value =
    let trimmed = trim_space value in
    if trimmed == [] then [] else if has_prefix trimmed (codes "/") then trimmed else b'/' ∷ trimmed

unfoldable pub config_of : (Text → Option ℤ) → Environment → Config
unfolding getenv duration_env split_list normalize_url_path
config_of parse_duration environment = record {
  addr = getenv environment (codes "MIGRATOR_ADDR") (codes ":8080");
  state_path = getenv environment (codes "MIGRATOR_STATE_PATH") (codes "dokploy-migrator.sqlite");
  dokploy_postgres_dsn =
      getenv environment (codes "DOKPLOY_POSTGRES_DSN") (environment (codes "DATABASE_URL"));
  dokploy_api_base_url = trim_right (environment (codes "DOKPLOY_API_BASE_URL")) b'/';
  dokploy_api_token = environment (codes "DOKPLOY_API_TOKEN");
  basic_auth_user = environment (codes "MIGRATOR_BASIC_USER");
  basic_auth_password = environment (codes "MIGRATOR_BASIC_PASSWORD");
  admin_token = environment (codes "MIGRATOR_ADMIN_TOKEN");
  dead_after =
      duration_env parse_duration environment (codes "MIGRATOR_DEAD_AFTER") (pos (600 * second));
  schema_allowlist = split_list (environment (codes "MIGRATOR_SCHEMA_ALLOWLIST"));
  deploy_path = normalize_url_path (environment (codes "DOKPLOY_DEPLOY_PATH"));
  health_path =
      normalize_url_path (getenv environment (codes "DOKPLOY_HEALTH_PATH") (codes "/health"));
}

unfoldable pub load : (Text → Option ℤ) → Environment → Result ConfigError Config
unfolding config_of
load parse_duration environment = do
  let cfg = config_of parse_duration environment
  fail_if (cfg.basic_auth_user == [] || cfg.basic_auth_password == []) basic_auth_required
  fail_if (cfg.admin_token == []) admin_token_required
  ok cfg

unfoldable pub require_dokploy_db : Config → Result ConfigError (Unit {0})
require_dokploy_db c = fail_if (c.dokploy_postgres_dsn == []) dokploy_db_required
