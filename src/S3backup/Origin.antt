-- ===== src/S3backup/Origin.antt =====
-- The backups of a resource that stand in a bucket, described apart from the loop of `ListCandidates`
-- in internal/s3backup/s3backup.go, and what one object adds.
use dokploymigrator.Base.{
  ℕ, Text, codes, List, [], ◌∷◌, ◌++◌, none, some, true, false, ◌==◌, ◌!=◌, ◌||◌, ◌&&◌, text_eq,
  if◌then◌else◌, has_suffix, In, Bool-cases, ◌≡◌, ◌≢◌, refl, sym, ap, ◌⊎◌, inl, inr, arith, Result,
  ok, err, Result-cases,
}
use dokploymigrator.Model.{Resource, BackupCandidate}
use dokploymigrator.S3backup.Bucket.{Manifest, ManifestObject, ListedObject, Client}
use dokploymigrator.S3backup.Matching.{
  is_manifest_key, looks_like_backup, name_matches, manifest_matches,
}
use dokploymigrator.S3backup.Candidates.{candidate_of, candidates_of}
use dokploymigrator.S3backup.Scan.{
  fetch_manifest, candidates_from_manifest, fallback_candidate, candidates_of_object, or_zero,
  drop_error,
}

-- The rounds of the listing.
abbrev pub rounds : Client → List (Result Text (List ListedObject))
rounds c = c.s3.list_objects c.bucket (if c.prefix != [] then some c.prefix else none)

-- The objects of the pages.
abbrev pub listed : List (Result Text (List ListedObject)) → List ListedObject
listed [] = []
listed (ok page ∷ pages) = page ++ listed pages
listed (err e ∷ pages) = listed pages

-- The object has a name, which is not that of a folder.
abbrev pub IsFile : ListedObject → Type 0
IsFile obj = (or_zero [] obj.key ≢ []) × (has_suffix (or_zero [] obj.key) (codes "/") ≡ false)

not_empty : (s : Text) → (s == []) ≡ false → s ≢ []
not_empty s h = ground arith

same_key : (entry obj : ManifestObject) → entry.key ≢ [] → obj ≡ entry → (obj.key == []) ≡ false
same_key entry obj n e = ground arith

module _ (lower_rune fold_rune : ℕ → ℕ) (decode : List ℕ → Result Text Manifest) (c : Client)
    (resource : Resource) where
  -- The object is a manifest that can be read and that matches the resource, and `x` is one of its
  -- entries that has a key.
  pub record IsEntry (obj : ListedObject) (x : BackupCandidate) : Type 0 where
    pub manifest : Manifest
    pub entry : ManifestObject
    pub named : is_manifest_key lower_rune (or_zero [] obj.key) ≡ true
    pub readable : fetch_manifest decode c (or_zero [] obj.key) ≡ ok manifest
    pub matching : manifest_matches lower_rune fold_rune manifest resource ≡ true
    pub inside : In entry manifest.objects
    pub keyed : entry.key ≢ []
    pub same : x ≡ candidate_of manifest entry

  -- The object is a backup by its name, which holds that of the resource, and `x` describes it.
  pub record IsNamed (obj : ListedObject) (x : BackupCandidate) : Type 0 where
    pub other : is_manifest_key lower_rune (or_zero [] obj.key) ≡ false
    pub backup : looks_like_backup lower_rune (or_zero [] obj.key) ≡ true
    pub matching : name_matches lower_rune (or_zero [] obj.key) resource ≡ true
    pub same : x ≡ fallback_candidate (or_zero [] obj.key) obj resource

  -- `x` is a backup of the resource that an object stands for.
  abbrev pub IsBackup : BackupCandidate → ListedObject → Type 0
  IsBackup x obj = IsFile obj × (IsEntry obj x ⊎ IsNamed obj x)

  of_entries :
      (manifest : Manifest) (x : BackupCandidate) (objects : List ManifestObject)
      → In x (candidates_of manifest objects)
      → (entry : ManifestObject) × In entry objects
        × (entry.key ≢ [])
        × (x ≡ candidate_of manifest entry)
  unfolding candidates_of
  of_entries manifest x [] h = absurd h
  of_entries manifest x (obj ∷ objects) h = elim (Bool-cases (obj.key == [])) [
    | inl e ↦
        let (entry, inside, keyed, same) = of_entries manifest x objects (rw e at h) in
        (entry, inr inside, keyed, same)
    | inr n ↦ elim (rw n at h) [
      | inl first ↦ (obj, inl refl, not_empty obj.key n, sym first)
      | inr later ↦
          let (entry, inside, keyed, same) = of_entries manifest x objects later in
          (entry, inr inside, keyed, same)
    ]
  ]

  entry-In :
      (manifest : Manifest) (entry : ManifestObject) (objects : List ManifestObject)
      → entry.key ≢ []
      → In entry objects
      → In (candidate_of manifest entry) (candidates_of manifest objects)
  unfolding candidates_of
  entry-In manifest entry [] n h = absurd h
  entry-In manifest entry (obj ∷ objects) n (inl first) =
      rw (same_key entry obj n first) (inl (ap (candidate_of manifest) first))
  entry-In manifest entry (obj ∷ objects) n (inr later) =
      let rest = entry-In manifest entry objects n later in
      elim (Bool-cases (obj.key == [])) [ inl e ↦ rw e rest | inr keyed ↦ rw keyed (inr rest) ]

  no_file :
      (obj : ListedObject)
      → (or_zero [] obj.key == [] || has_suffix (or_zero [] obj.key) (codes "/")) ≡ true
      → candidates_of_object lower_rune fold_rune decode c resource obj ≡ []
  unfolding candidates_of_object
  no_file obj h = ground arith

  file_manifest :
      (obj : ListedObject)
      → IsFile obj
      → is_manifest_key lower_rune (or_zero [] obj.key) ≡ true
      → candidates_of_object lower_rune fold_rune decode c resource obj
        ≡ drop_error
            (candidates_from_manifest lower_rune fold_rune decode c (or_zero [] obj.key) resource)
  unfolding candidates_of_object
  file_manifest obj h h' = ground arith

  file_named :
      (obj : ListedObject)
      → IsFile obj
      → is_manifest_key lower_rune (or_zero [] obj.key) ≡ false
      → candidates_of_object lower_rune fold_rune decode c resource obj ≡ (
          if looks_like_backup lower_rune (or_zero [] obj.key)
            && name_matches lower_rune (or_zero [] obj.key) resource
          then fallback_candidate (or_zero [] obj.key) obj resource ∷ []
          else [])
  unfolding candidates_of_object
  file_named obj h h' = ground arith

  of_manifest :
      (x : BackupCandidate) (obj : ListedObject)
      → is_manifest_key lower_rune (or_zero [] obj.key) ≡ true
      → In x (
          drop_error
            (candidates_from_manifest lower_rune fold_rune decode c (or_zero [] obj.key) resource))
      → IsEntry obj x
  unfolding candidates_from_manifest
  of_manifest x obj named h = elim (Result-cases (fetch_manifest decode c (or_zero [] obj.key))) [
    | inl (manifest, readable) ↦
        elim (Bool-cases (manifest_matches lower_rune fold_rune manifest resource)) [
          | inl matching ↦
              let (entry, inside, keyed, same) =
                of_entries manifest x manifest.objects (rw (readable, matching) at h) in
              record {
                manifest = manifest;
                entry = entry;
                named = named;
                readable = readable;
                matching = matching;
                inside = inside;
                keyed = keyed;
                same = same;
              }
          | inr other ↦ absurd (rw (readable, other) at h)
        ]
    | inr (e, unreadable) ↦ absurd (rw unreadable at h)
  ]

  of_name :
      (x : BackupCandidate) (obj : ListedObject)
      → is_manifest_key lower_rune (or_zero [] obj.key) ≡ false
      → In x (
          if looks_like_backup lower_rune (or_zero [] obj.key)
            && name_matches lower_rune (or_zero [] obj.key) resource
          then fallback_candidate (or_zero [] obj.key) obj resource ∷ []
          else [])
      → IsNamed obj x
  of_name x obj other h =
      elim (Bool-cases (
        looks_like_backup lower_rune (or_zero [] obj.key)
        && name_matches lower_rune (or_zero [] obj.key) resource)) [
          | inl both ↦ elim (rw both at h) [
            | inl first ↦ record {
              other = other;
              backup = ground arith;
              matching = ground arith;
              same = sym first;
            }
            | inr none_left ↦ absurd none_left
          ]
          | inr neither ↦ absurd (rw neither at h)
        ]

  pub IsBackup-of_object :
      (x : BackupCandidate) (obj : ListedObject)
      → In x (candidates_of_object lower_rune fold_rune decode c resource obj)
      → IsBackup x obj
  IsBackup-of_object x obj h =
      elim (Bool-cases (or_zero [] obj.key == [] || has_suffix (or_zero [] obj.key) (codes "/"))) [
        | inl folder ↦ absurd (rw (no_file obj folder) at h)
        | inr other ↦
            let file : IsFile obj = (ground arith, ground arith) in
            (
              file,
              elim (Bool-cases (is_manifest_key lower_rune (or_zero [] obj.key))) [
                | inl named ↦ inl (of_manifest x obj named (rw (file_manifest obj file named) at h))
                | inr unnamed ↦ inr (of_name x obj unnamed (rw (file_named obj file unnamed) at h))
              ],
            )
      ]

  pub of_object-IsBackup :
      (x : BackupCandidate) (obj : ListedObject)
      → IsBackup x obj
      → In x (candidates_of_object lower_rune fold_rune decode c resource obj)
  unfolding candidates_from_manifest
  of_object-IsBackup x obj (file, inl entry) =
      rw (file_manifest obj file entry.named, entry.readable, entry.matching, entry.same)
        (entry-In entry.manifest entry.entry entry.manifest.objects entry.keyed entry.inside)
  of_object-IsBackup x obj (file, inr named) =
      rw (file_named obj file named.other, named.backup, named.matching) (inl (sym named.same))
