-- ===== src/S3backup/Scan.antt =====
-- `ListCandidates` of internal/s3backup/s3backup.go.
use dokploymigrator.Base.{
  ℕ, Text, codes, List, [], ◌∷◌, ◌++◌, length, take, Option, none, some, ◌||◌, ◌&&◌, leb, ◌==◌,
  ◌!=◌, nat_eq, text_eq, if◌then◌else◌, pos, has_suffix, trim, Result, ok, err, ◌>>=◌, wrap,
}
use dokploymigrator.Model.{Resource, BackupCandidate}
use dokploymigrator.S3backup.Bucket.{
  Manifest, S3Error, ListedObject, Body, Client, list_backups, get_manifest, read_manifest,
  decode_manifest,
}
use dokploymigrator.S3backup.Matching.{
  is_manifest_key, looks_like_backup, name_matches, manifest_matches,
}
use dokploymigrator.S3backup.Candidates.{
  candidates_of, sort_candidates, dedupe_candidates, fallback_confidence,
}

-- `io.ReadAll(io.LimitReader(output.Body, limit))`
unfoldable pub read_limited : ℕ → Body → Result Text (List ℕ)
read_limited limit body = elim body.failure [
  | none ↦ ok (take limit body.bytes)
  | some e ↦ if leb limit (length body.bytes) then ok (take limit body.bytes) else err e
]

-- `time.Time{}`, the first of January of the year 1, on a count of nanoseconds that begins 731 days
-- before it, so that it counts every time that JSON holds.
abbrev pub zero_time : ℕ
zero_time = 63158400000000000

abbrev pub or_zero {ℓ} : {A : Type ℓ} → A → Option A → A
or_zero zero_value none = zero_value
or_zero zero_value (some a) = a

abbrev pub drop_error : {E A : Type 0} → Result E (List A) → List A
drop_error (ok found) = found
drop_error (err e) = []

abbrev pub fallback_candidate : Text → ListedObject → Resource → BackupCandidate
fallback_candidate key obj resource = record {
  resource_id = resource.id;
  resource_name = resource.name;
  resource_type = resource.resource_type;
  key = key;
  etag = trim (or_zero [] obj.etag) b'"';
  checksum = [];
  size = or_zero (pos 0) obj.size;
  last_modified = or_zero zero_time obj.last_modified;
  confidence = fallback_confidence;
}

-- `decode` is `json.Unmarshal` into a manifest.
module _ (decode : List ℕ → Result Text Manifest) where
  -- The manifest at a key.
  unfoldable pub fetch_manifest : Client → Text → Result S3Error Manifest
  unfolding read_limited
  fetch_manifest c key = do
    output ← wrap (get_manifest key) (c.s3.get_object c.bucket key)
    body ← wrap (read_manifest key) (read_limited 2097152 output)
    wrap (decode_manifest key) (decode body)

module _ (lower_rune fold_rune : ℕ → ℕ) (decode : List ℕ → Result Text Manifest) where
  unfoldable pub candidates_from_manifest :
      Client → Text → Resource → Result S3Error (List BackupCandidate)
  unfolding fetch_manifest manifest_matches candidates_of
  candidates_from_manifest c key resource = do
    manifest ← fetch_manifest decode c key
    ok (
        if manifest_matches lower_rune fold_rune manifest resource
        then candidates_of manifest manifest.objects
        else [])

  -- The body of the loop over a page: what one object adds.
  unfoldable pub candidates_of_object : Client → Resource → ListedObject → List BackupCandidate
  unfolding is_manifest_key candidates_from_manifest looks_like_backup name_matches trim has_suffix
  candidates_of_object c resource obj =
      let key = or_zero [] obj.key in
      if key == [] || has_suffix key (codes "/")
      then []
      else if is_manifest_key lower_rune key
      then drop_error (candidates_from_manifest c key resource)
      else if looks_like_backup lower_rune key && name_matches lower_rune key resource
      then fallback_candidate key obj resource ∷ []
      else []

  unfoldable pub candidates_of_page : Client → Resource → List ListedObject → List BackupCandidate
  unfolding candidates_of_object
  candidates_of_page c resource [] = []
  candidates_of_page c resource (obj ∷ page) =
      candidates_of_object c resource obj ++ candidates_of_page c resource page

  -- The loop over the pages.
  unfoldable pub collect :
      Client
      → Resource
      → List BackupCandidate
      → List (Result Text (List ListedObject))
      → Result S3Error (List BackupCandidate)
  unfolding candidates_of_page
  collect c resource candidates [] = ok candidates
  collect c resource candidates (err e ∷ pages) = err (list_backups e)
  collect c resource candidates (ok page ∷ pages) =
      collect c resource (candidates ++ candidates_of_page c resource page) pages

  unfoldable pub list_candidates : Client → Resource → Result S3Error (List BackupCandidate)
  unfolding collect sort_candidates dedupe_candidates
  list_candidates c resource = do
    candidates ←
        collect c resource []
          (c.s3.list_objects c.bucket (if c.prefix != [] then some c.prefix else none))
    ok (dedupe_candidates (sort_candidates candidates))
