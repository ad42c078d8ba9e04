-- ===== src/Config/Loaded.antt =====
-- What `Load` of internal/config/config.go guarantees of the settings that it returns.
use dokploymigrator.Base.{
  Text, codes, List, [], ◌∷◌, Option, Bool, true, false, ◌||◌, ◌==◌, ◌!=◌, text_eq, nat_eq,
  if◌then◌else◌, ℤ, filter_by, trim_space, has_prefix, All, ok, ◌>>◌, fail_if, ◌≡◌, ◌≢◌, refl,
  arith, Bool-cases, inl, inr, ◌⊎◌,
}
use dokploymigrator.Config.{Config, Environment, config_of, split_list, normalize_url_path, load}

-- A path that is empty or begins with a slash.
abbrev pub IsRooted : Text → Type 0
IsRooted path = (path ≡ []) ⊎ (has_prefix path (codes "/") ≡ true)

normalize_url_path-IsRooted : (value : Text) → IsRooted (normalize_url_path value)
unfolding normalize_url_path has_prefix nat_eq
normalize_url_path-IsRooted value = elim (text_eq.dec (trim_space value) []) [
  | yes e ↦ inl (ground arith)
  | no n ↦ elim (Bool-cases (has_prefix (trim_space value) (codes "/"))) [
    | inl rooted ↦ inr (ground arith)
    | inr not_rooted ↦ inr (ground arith)
  ]
]

All-filter_by : (parts : List Text) → All (λ part. part ≢ []) (filter_by (λ part. part != []) parts)
All-filter_by [] = tt
All-filter_by (part ∷ parts) = ground (arith, All-filter_by parts)

All-if :
    (none_given : Bool) (hashes : List Text)
    → All (λ hash. hash ≢ []) hashes
    → All (λ hash. hash ≢ []) (if none_given then [] else hashes)
All-if true hashes h = tt
All-if false hashes h = h

-- What the program runs with.
pub record IsUsable (c : Config) : Type 0 where
  pub user : c.basic_auth_user ≢ []
  pub password : c.basic_auth_password ≢ []
  pub token : c.admin_token ≢ []
  pub deploy : IsRooted c.deploy_path
  pub health : IsRooted c.health_path
  pub hashes : All (λ hash. hash ≢ []) c.schema_allowlist

passed_both :
    {E A : Type 0} (first second : Bool) (e e' : E) (x c : A)
    → (fail_if first e >> (fail_if second e' >> ok x)) ≡ ok c
    → (first ≡ false) × (second ≡ false) × (c ≡ x)
passed_both true second e e' x c h = cc
passed_both false true e e' x c h = cc
passed_both false false e e' x c h = (refl, refl, ground arith)

neither_empty : (a b : Text) → (a == [] || b == []) ≡ false → (a ≢ []) × (b ≢ [])
neither_empty a b h = ground arith

not_empty : (a : Text) → (a == []) ≡ false → a ≢ []
not_empty a h = ground arith

config_of-IsUsable :
    (parse_duration : Text → Option ℤ) (environment : Environment)
    → let c = config_of parse_duration environment in
      c.basic_auth_user ≢ [] → c.basic_auth_password ≢ [] → c.admin_token ≢ [] → IsUsable c
unfolding config_of split_list
config_of-IsUsable parse_duration environment user password token = record {
  user = user;
  password = password;
  token = token;
  deploy = normalize_url_path-IsRooted _;
  health = normalize_url_path-IsRooted _;
  hashes = All-if (environment (codes "MIGRATOR_SCHEMA_ALLOWLIST") == []) _ (All-filter_by _);
}

-- Settings that are loaded have a user, a password and an admin token, so that the server never
-- runs without authentication; their two paths are empty or begin with a slash, and no hash of the
-- allowlist is empty.
pub load-IsUsable :
    (parse_duration : Text → Option ℤ) (environment : Environment) (c : Config)
    → load parse_duration environment ≡ ok c
    → IsUsable c
unfolding load
load-IsUsable parse_duration environment c h =
    let (auth, token, same) = passed_both _ _ _ _ (config_of parse_duration environment) c h in
    let (user, password) = neither_empty _ _ auth in
    rw same (config_of-IsUsable parse_duration environment user password (not_empty _ token))
