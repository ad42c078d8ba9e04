-- ===== src/S3backup/Bucket.antt =====
-- The types of internal/s3backup/s3backup.go and its New. The AWS SDK is a parameter: what it loads,
-- what its paginator gives round by round, and what stands in an object.
use dokploymigrator.Base.{
  ℕ, Text, codes, List, [], Option, none, some, ◌||◌, ◌==◌, ◌!=◌, nat_eq, text_eq, if◌then◌else◌, ℤ,
  trim_prefix, Result, ok, err, ◌>>=◌, wrap,
}

pub record Config : Type 0 where
  pub endpoint : Text
  pub region : Text
  pub bucket : Text
  pub prefix : Text
  pub access_key_id : Text
  pub secret_access_key : Text

pub record ManifestObject : Type 0 where
  pub key : Text
  pub kind : Text
  pub checksum : Text
  pub size : ℤ

pub record Manifest : Type 0 where
  pub resource_id : Text
  pub resource_name : Text
  pub resource_type : Text
  pub created_at : ℕ
  pub objects : List ManifestObject

pub data S3Error : Type 0 where
  bucket_required : S3Error
  load_config list_backups : Text → S3Error
  get_manifest read_manifest decode_manifest : Text → Text → S3Error

-- An object of a listing; `none` is a nil pointer.
pub record ListedObject : Type 0 where
  pub key : Option Text
  pub etag : Option Text
  pub size : Option ℤ
  pub last_modified : Option ℕ

-- The body of an object: its bytes, and what fails behind them.
pub record Body : Type 0 where
  pub bytes : List ℕ
  pub failure : Option Text

-- The rounds of the paginator, each a page or an error, for a bucket and a prefix, and the body of
-- an object of a bucket.
pub record S3 : Type 0 where
  pub list_objects : Text → Option Text → List (Result Text (List ListedObject))
  pub get_object : Text → Text → Result Text Body

pub record Client : Type 0 where
  pub s3 : S3
  pub bucket : Text
  pub prefix : Text

-- The region and, where they are given, the static credentials.
pub record LoadOptions : Type 0 where
  pub region : Text
  pub credentials : Option (Text × Text)

-- The SDK's own configuration is a type `A`. `some endpoint` stands for an endpoint that is set and
-- addressed in path style.
unfoldable pub new :
    {A : Type 0}
    → (LoadOptions → Result Text A)
    → (A → Option Text → S3)
    → Config
    → Result S3Error Client
unfolding trim_prefix
new load_default_config new_from_config cfg = if cfg.bucket == [] then err bucket_required else do
  aws_cfg ← wrap load_config (
      load_default_config (record {
        region = if cfg.region == [] then codes "us-east-1" else cfg.region;
        credentials =
            if cfg.access_key_id != [] || cfg.secret_access_key != []
            then some (cfg.access_key_id, cfg.secret_access_key)
            else none;
      }))
  ok (record {
    s3 = new_from_config aws_cfg (if cfg.endpoint != [] then some cfg.endpoint else none);
    bucket = cfg.bucket;
    prefix = trim_prefix cfg.prefix b'/';
  })
