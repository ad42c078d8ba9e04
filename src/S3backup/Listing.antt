-- ===== src/S3backup/Listing.antt =====
-- What `ListCandidates` of internal/s3backup/s3backup.go answers with.
use mathlib.Core.List.{append_assoc, append-nil}
use dokploymigrator.Base.{
  IsSorted, ◌↔◌, ℕ, Text, List, [], ◌∷◌, ◌++◌, text_eq, All, Any, In, All-map, Any-append_left,
  Any-append_right, of_append, All-In, ◌≡◌, refl, sym, ap, subst, ◌∙◌, inl, inr, arith, Result, ok,
  err, >>=-eq-ok,
}
use dokploymigrator.Model.{Resource, BackupCandidate}
use dokploymigrator.S3backup.Bucket.{Manifest, ListedObject, Client}
use dokploymigrator.S3backup.Candidates.{candidate_before, sort_candidates, dedupe_candidates}
use dokploymigrator.S3backup.Scan.{
  candidates_of_object, candidates_of_page, collect, list_candidates,
}
use dokploymigrator.S3backup.Best.{IsKind, IsAsGood, IsDistinct, dedupe_candidates-IsBest}
use dokploymigrator.S3backup.Origin.{
  rounds, listed, IsBackup, IsBackup-of_object, of_object-IsBackup,
}

ok_path : {E A : Type 0} {a b : A} → ◌≡◌ {A = Result E A} (ok a) (ok b) → b ≡ a
ok_path h = ground arith

abbrev pub IsPage : Result Text (List ListedObject) → Type 0
IsPage round = (page : List ListedObject) × (round ≡ ok page)

module _ (lower_rune fold_rune : ℕ → ℕ) (decode : List ℕ → Result Text Manifest) (c : Client)
    (resource : Resource) where
  abbrev found : List ListedObject → List BackupCandidate
  found objects = candidates_of_page lower_rune fold_rune decode c resource objects

  found-append : (xs ys : List ListedObject) → found (xs ++ ys) ≡ found xs ++ found ys
  unfolding candidates_of_page
  found-append [] ys = refl
  found-append (x ∷ xs) ys =
      ap (λ s. candidates_of_object lower_rune fold_rune decode c resource x ++ s)
        (found-append xs ys)
      ∙ sym (
          append_assoc (candidates_of_object lower_rune fold_rune decode c resource x) (found xs)
            (found ys))

  of_found :
      (x : BackupCandidate) (objects : List ListedObject)
      → In x (found objects)
      → Any (IsBackup lower_rune fold_rune decode c resource x) objects
  unfolding candidates_of_page
  of_found x [] h = absurd h
  of_found x (obj ∷ objects) h =
      elim (of_append (λ y. y ≡ x) (candidates_of_object lower_rune fold_rune decode c resource obj)
        (found objects) h) [
          | inl here ↦ inl (IsBackup-of_object lower_rune fold_rune decode c resource x obj here)
          | inr there ↦ inr (of_found x objects there)
        ]

  In-found :
      (x : BackupCandidate) (objects : List ListedObject)
      → Any (IsBackup lower_rune fold_rune decode c resource x) objects
      → In x (found objects)
  unfolding candidates_of_page
  In-found x [] h = absurd h
  In-found x (obj ∷ objects) (inl here) =
      Any-append_left (λ y. y ≡ x) _ _
        (of_object-IsBackup lower_rune fold_rune decode c resource x obj here)
  In-found x (obj ∷ objects) (inr there) =
      Any-append_right (λ y. y ≡ x)
        (candidates_of_object lower_rune fold_rune decode c resource obj) _
        (In-found x objects there)

  IsKind-of :
      (x : BackupCandidate) (objects : List ListedObject)
      → Any (IsBackup lower_rune fold_rune decode c resource x) objects
      → IsKind x
  IsKind-of x [] h = absurd h
  IsKind-of x (obj ∷ objects) (inl (file, inl entry)) = inl (ap (λ y. y.confidence) entry.same)
  IsKind-of x (obj ∷ objects) (inl (file, inr named)) = inr (ap (λ y. y.confidence) named.same)
  IsKind-of x (obj ∷ objects) (inr there) = IsKind-of x objects there

  found-IsKind : (objects : List ListedObject) → All IsKind (found objects)
  found-IsKind objects =
      All-map (λ x. In x (found objects)) IsKind (λ x h. IsKind-of x objects (of_found x objects h))
        (found objects) (All-In (found objects))

  collect-found :
      (acc out : List BackupCandidate) (pages : List (Result Text (List ListedObject)))
      → collect lower_rune fold_rune decode c resource acc pages ≡ ok out
      → out ≡ acc ++ found (listed pages)
  unfolding collect candidates_of_page
  collect-found acc out [] h = ok_path h ∙ sym (append-nil acc)
  collect-found acc out (err e ∷ pages) h = cc
  collect-found acc out (ok page ∷ pages) h =
      collect-found (acc ++ found page) out pages h
      ∙ append_assoc acc (found page) _
      ∙ ap (λ s. acc ++ s) (sym (found-append page (listed pages)))

  list_candidates-found :
      (out : List BackupCandidate)
      → list_candidates lower_rune fold_rune decode c resource ≡ ok out
      → out ≡ dedupe_candidates (sort_candidates (found (listed (rounds c))))
  unfolding list_candidates
  list_candidates-found out h =
      let (all, collected, same) =
        >>=-eq-ok _ (λ s. ok (dedupe_candidates (sort_candidates s))) h in
      ok_path same
      ∙ ap (λ s. dedupe_candidates (sort_candidates s)) (collect-found [] all (rounds c) collected)

  All-elim :
      (P : BackupCandidate → Type 0) (xs : List BackupCandidate) (x : BackupCandidate)
      → All P xs
      → In x xs
      → P x
  All-elim P [] x _ h = absurd h
  All-elim P (y ∷ ys) x (p, _) (inl e) = subst P e p
  All-elim P (y ∷ ys) x (_, ps) (inr h) = All-elim P ys x ps h

  -- What a scan may answer with: backups of the resource that stand in the bucket, for every backup
  -- one with its key that is as good, no key twice, those from a manifest first, then the newest.
  pub record IsScan (out : List BackupCandidate) : Type 0 where
    pub sound :
        All (λ x. Any (IsBackup lower_rune fold_rune decode c resource x) (listed (rounds c))) out
    pub complete :
        (x : BackupCandidate)
        → Any (IsBackup lower_rune fold_rune decode c resource x) (listed (rounds c))
        → Any (IsAsGood x) out
    pub distinct : IsDistinct out
    pub sorted : IsSorted candidate_before out

  found-IsScan : IsScan (dedupe_candidates (sort_candidates (found (listed (rounds c)))))
  found-IsScan =
      let objects = listed (rounds c) in
      let best = dedupe_candidates-IsBest (found objects) (found-IsKind objects) in
      record {
        sound =
            All-map (λ x. In x (found objects))
              (λ x. Any (IsBackup lower_rune fold_rune decode c resource x) objects)
              (λ x h. of_found x objects h) _ best.known;
        complete = λ x backup.
            All-elim (λ y. Any (IsAsGood y) _) (found objects) x best.best
              (In-found x objects backup);
        distinct = best.distinct;
        sorted = best.sorted;
      }

  -- What a scan that succeeds answers with are backups of the resource that stand in the bucket: an
  -- object that is named like a backup and holds the name or the ID of the resource, or an entry of
  -- a readable manifest that matches it. Of every such backup it has one with the same key that is
  -- as good, no key occurs twice, and those from a manifest come first, then the newest.
  pub list_candidates-IsScan :
      (out : List BackupCandidate)
      → list_candidates lower_rune fold_rune decode c resource ≡ ok out
      → IsScan out
  list_candidates-IsScan out h = subst IsScan (sym (list_candidates-found out h)) found-IsScan

  collect-IsPage :
      (acc : List BackupCandidate) (pages : List (Result Text (List ListedObject)))
      → All IsPage pages
      → (out : List BackupCandidate) × (collect lower_rune fold_rune decode c resource acc pages
          ≡ ok out)
  unfolding collect
  collect-IsPage acc [] _ = (acc, refl)
  collect-IsPage acc (err e ∷ pages) ((page, h), _) = absurd (ground arith)
  collect-IsPage acc (ok page ∷ pages) (_, h) = collect-IsPage (acc ++ found page) pages h

  IsPage-collect :
      (acc out : List BackupCandidate) (pages : List (Result Text (List ListedObject)))
      → collect lower_rune fold_rune decode c resource acc pages ≡ ok out
      → All IsPage pages
  unfolding collect
  IsPage-collect acc out [] h = tt
  IsPage-collect acc out (err e ∷ pages) h = absurd (ground arith)
  IsPage-collect acc out (ok page ∷ pages) h =
      ((page, refl), IsPage-collect (acc ++ found page) out pages h)

  -- A scan succeeds exactly when every round of the listing gives a page: a manifest that cannot be
  -- fetched, read or decoded does not stop it.
  pub list_candidates_iff :
      ((out : List BackupCandidate) × (list_candidates lower_rune fold_rune decode c resource
          ≡ ok out))
      ↔ All IsPage (rounds c)
  unfolding list_candidates
  list_candidates_iff = (
    λ (out, h).
        let (all, collected, same) =
          >>=-eq-ok _ (λ s. ok (dedupe_candidates (sort_candidates s))) h in
        IsPage-collect [] all (rounds c) collected,
    λ h.
        let (all, collected) = collect-IsPage [] (rounds c) h in
        (dedupe_candidates (sort_candidates all), rw collected refl),
  )
