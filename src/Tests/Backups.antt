-- ===== src/Tests/Backups.antt =====
-- The scan of a bucket at concrete inputs.
use dokploymigrator.Base.{
  ℕ, Text, codes, List, [], ◌∷◌, none, some, true, Result, ok, err, pos, ◌≡◌, ◌↔◌, refl, All,
  nat_eq, text_eq,
}
use dokploymigrator.Model.{Resource, BackupCandidate}
use dokploymigrator.S3backup.Bucket.{
  Manifest, ManifestObject, ListedObject, Body, Client, new, bucket_required,
}
use dokploymigrator.S3backup.Matching.{normalize, is_manifest_key}
use dokploymigrator.S3backup.Candidates.{candidate_of, fallback_confidence}
use dokploymigrator.S3backup.Scan.{list_candidates}
use dokploymigrator.S3backup.Origin.{rounds}
use dokploymigrator.S3backup.Listing.{IsScan, IsPage, list_candidates-IsScan, list_candidates_iff}

abbrev same : ℕ → ℕ
same c = c

abbrev shop : Resource
shop = record {
  id = codes "abc";
  id_column = codes "applicationId";
  name = codes "My Shop";
  resource_type = codes "application";
  server_id = codes "s1";
}

abbrev object_at : Text → ℕ → ListedObject
object_at key time = record {
  key = some key;
  etag = some (codes "\"e\"");
  size = some (pos 7);
  last_modified = some time;
}

abbrev dump_entry : ManifestObject
dump_entry = record {
  key = codes "my_shop/b.tgz";
  kind = codes "volume";
  checksum = codes "c";
  size = pos 9;
}

abbrev shop_manifest : Manifest
shop_manifest = record {
  resource_id = codes "abc";
  resource_name = [];
  resource_type = [];
  created_at = 5;
  objects = dump_entry ∷ [];
}

abbrev first_page : List ListedObject
first_page =
    object_at (codes "my_shop/a.tgz") 10
    ∷ object_at (codes "my_shop/") 10
    ∷ object_at (codes "my_shop/b.tgz") 30
    ∷ object_at (codes "other/c.tgz") 30
    ∷ []

abbrev second_page : List ListedObject
second_page = object_at (codes "x/Manifest.json") 10 ∷ object_at (codes "my.shop/d.DUMP") 20 ∷ []

abbrev body : Body
body = record { bytes = 1 ∷ []; failure = none }

abbrev decode : List ℕ → Result Text Manifest
decode bytes = ok shop_manifest

abbrev bucket : List (Result Text (List ListedObject)) → Client
bucket pages = record {
  s3 = record { list_objects = λ b p. pages; get_object = λ b key. ok body };
  bucket = codes "backups";
  prefix = [];
}

abbrev full : Client
full = bucket (ok first_page ∷ ok second_page ∷ [])

normalize_1 : normalize same (codes "My Shop/v.1_x") ≡ codes "my-shop-v-1-x"
unfolding normalize nat_eq
normalize_1 = refl

is_manifest_key_1 : is_manifest_key same (codes "a/b.MANIFEST.json") ≡ true
unfolding is_manifest_key text_eq nat_eq
is_manifest_key_1 = refl

new_1 :
    new {A = Unit}
      (λ o. ok tt)
      (λ a e. full.s3)
      (record {
        endpoint = [];
        region = [];
        bucket = [];
        prefix = [];
        access_key_id = [];
        secret_access_key = [];
      })
    ≡ err bucket_required
unfolding new text_eq
new_1 = refl

abbrev by_name : Text → ℕ → BackupCandidate
by_name key time = record {
  resource_id = codes "abc";
  resource_name = codes "My Shop";
  resource_type = codes "application";
  key = key;
  etag = codes "e";
  checksum = [];
  size = pos 7;
  last_modified = time;
  confidence = fallback_confidence;
}

abbrev kept : List BackupCandidate
kept =
    candidate_of shop_manifest dump_entry
    ∷ by_name (codes "my.shop/d.DUMP") 20
    ∷ by_name (codes "my_shop/a.tgz") 10
    ∷ []

list_candidates-full : list_candidates same same decode full shop ≡ ok kept
unfolding list_candidates text_eq nat_eq
list_candidates-full = refl

list_candidates-IsScan_example : IsScan same same decode full shop kept
list_candidates-IsScan_example =
    list_candidates-IsScan same same decode full shop kept list_candidates-full

list_candidates_iff_example :
    ((out : List BackupCandidate) × (list_candidates same same decode full shop ≡ ok out))
    ↔ All IsPage (rounds full)
list_candidates_iff_example = list_candidates_iff same same decode full shop
