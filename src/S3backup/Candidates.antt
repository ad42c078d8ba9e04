-- ===== src/S3backup/Candidates.antt =====
-- The candidates of a manifest, their order, and the removal of duplicates, in
-- internal/s3backup/s3backup.go.
use dokploymigrator.Base.{
  Text, codes, List, [], ◌∷◌, contains, Bool, ltb, ◌==◌, ◌!=◌, nat_eq, text_eq, if◌then◌else◌,
  sort_by,
}
use dokploymigrator.Model.{BackupCandidate}
use dokploymigrator.S3backup.Bucket.{Manifest, ManifestObject}

abbrev pub manifest_confidence : Text
manifest_confidence = codes "manifest"

abbrev pub fallback_confidence : Text
fallback_confidence = codes "fallback-name"

abbrev pub candidate_of : Manifest → ManifestObject → BackupCandidate
candidate_of manifest obj = record {
  resource_id = manifest.resource_id;
  resource_name = manifest.resource_name;
  resource_type = manifest.resource_type;
  key = obj.key;
  etag = [];
  checksum = obj.checksum;
  size = obj.size;
  last_modified = manifest.created_at;
  confidence = manifest_confidence;
}

unfoldable pub candidates_of : Manifest → List ManifestObject → List BackupCandidate
candidates_of manifest [] = []
candidates_of manifest (obj ∷ objects) =
    let out = candidates_of manifest objects in
    if obj.key == [] then out else candidate_of manifest obj ∷ out

-- Manifests first, then the newest first.
unfoldable pub candidate_before : BackupCandidate → BackupCandidate → Bool
candidate_before a b =
    if a.confidence != b.confidence
    then a.confidence == manifest_confidence
    else ltb b.last_modified a.last_modified

unfoldable pub sort_candidates : List BackupCandidate → List BackupCandidate
unfolding sort_by candidate_before
sort_candidates = sort_by candidate_before

abbrev pub mark_seen : List Text → Text → List Text
mark_seen seen key = if contains seen key then seen else key ∷ seen

unfoldable pub dedupe_from : List Text → List BackupCandidate → List BackupCandidate
dedupe_from seen [] = []
dedupe_from seen (candidate ∷ candidates) =
    let out = dedupe_from (mark_seen seen candidate.key) candidates in
    if contains seen candidate.key then out else candidate ∷ out

unfoldable pub dedupe_candidates : List BackupCandidate → List BackupCandidate
unfolding dedupe_from
dedupe_candidates candidates = dedupe_from [] candidates
