-- ===== src/VersionManager/Cleanup.antt =====
-- cleanupOldVersions: what it keeps, what it counts and what it may drop.
use custom_database.Base.{
  ℕ, ◌+◌, ◌-◌, max, ◌≤◌, ◌<◌, ◌≡◌, refl, ◌≢◌, true, false, List, [], ◌∷◌, none, some, arith,
  if◌then◌else◌, by_test, ltb, leb, ◌&&◌, ◌==◌, ap, ◌∙◌,
}
use custom_database.Base.Assoc
use custom_database.VersionManager.{
  VersionManager, VersionedRecord, find_versions, find_visible, first_visible, is_visible,
}
use custom_database.VersionManager.Collection.{
  can_cleanup, clean_versions, clean_keys, cleanup_old_versions,
}
use custom_database.VersionManager.Visibility.{find_visible-found}

-- Some of the elements of a list, in their order.
pub data IsSublist {A : Type 0} : List A → List A → Type 0 where
  nothing : IsSublist [] []
  keeps : {xs ys : List A} (x : A) → IsSublist xs ys → IsSublist (x ∷ xs) (x ∷ ys)
  skips : {xs ys : List A} (y : A) → IsSublist xs ys → IsSublist xs (y ∷ ys)

abbrev Part :
    {K : Type 0}
    → VersionedRecord K
    → List (VersionedRecord K)
    → List (VersionedRecord K) × ℕ
    → Type 0
Part v vs r = IsSublist (r.0) (v ∷ vs)

module _ {K : Type 0} (m : VersionManager K) (now : ℕ) where
  -- The versions whose makers have not committed.
  abbrev uncommitted : List (VersionedRecord K) → List (VersionedRecord K)
  uncommitted [] = []
  uncommitted (v ∷ vs) = if can_cleanup m v then uncommitted vs else v ∷ uncommitted vs

  uncommitted-clean_versions :
      (kept : ℕ) (vs : List (VersionedRecord K))
      → uncommitted (clean_versions m now kept vs).0 ≡ uncommitted vs
  unfolding clean_versions
  uncommitted-clean_versions kept [] = refl
  uncommitted-clean_versions kept (v ∷ vs) =
      ground (arith, uncommitted-clean_versions (kept + 1) vs, uncommitted-clean_versions kept vs)

  IsSublist-clean_versions :
      (kept : ℕ) (vs : List (VersionedRecord K)) → IsSublist (clean_versions m now kept vs).0 vs
  unfolding clean_versions
  IsSublist-clean_versions kept [] = nothing
  IsSublist-clean_versions kept (v ∷ vs) =
      let stays = keeps v (IsSublist-clean_versions (kept + 1) vs) in
      let goes = skips v (IsSublist-clean_versions kept vs) in
      by_test (Part v vs) (kept == 0) (λ _. stays)
        (λ _.
          by_test (Part v vs)
            (ltb (v.created_at + m.version_retention_period) now && can_cleanup m v) (λ _. goes)
            (λ _.
              by_test (Part v vs) (leb m.max_versions_per_key kept && can_cleanup m v) (λ _. goes)
                (λ _. stays)))

  -- How many committed versions stay.
  abbrev committed : List (VersionedRecord K) → ℕ
  committed [] = 0
  committed (v ∷ vs) = (if can_cleanup m v then 1 else 0) + committed vs

  committed-clean_versions :
      (kept : ℕ) (vs : List (VersionedRecord K))
      → 0 < kept
      → committed (clean_versions m now kept vs).0 ≤ m.max_versions_per_key - kept
  unfolding clean_versions
  committed-clean_versions kept [] h = omega arith
  committed-clean_versions kept (v ∷ vs) h = ground (
    arith,
    committed-clean_versions (kept + 1) vs (omega arith),
    committed-clean_versions kept vs h,
  )

  -- What the loop promises of the versions `vs` of one key and of those that stay.
  pub record Cleaned (vs vs' : List (VersionedRecord K)) : Type 0 where
    pub newest :
        (v : VersionedRecord K) (rest : List (VersionedRecord K))
        → vs ≡ v ∷ rest
        → (rest' : List (VersionedRecord K)) × (vs' ≡ v ∷ rest')
    pub all_uncommitted : uncommitted vs' ≡ uncommitted vs
    pub unaltered : IsSublist vs' vs
    pub few_committed : committed vs' ≤ max 1 m.max_versions_per_key

  clean_versions-newest :
      (v : VersionedRecord K) (vs : List (VersionedRecord K))
      → (clean_versions m now 0 (v ∷ vs)).0 ≡ v ∷ (clean_versions m now 1 vs).0
  unfolding clean_versions
  clean_versions-newest v vs = refl

  clean_versions-Cleaned :
      (vs : List (VersionedRecord K)) → Cleaned vs (clean_versions m now 0 vs).0
  clean_versions-Cleaned vs = record {
    newest = λ v rest e. (
      (clean_versions m now 1 rest).0,
      ap (λ l. (clean_versions m now 0 l).0) e ∙ clean_versions-newest v rest,
    );
    all_uncommitted = uncommitted-clean_versions 0 vs;
    unaltered = IsSublist-clean_versions 0 vs;
    few_committed = few vs;
  }
    where
      few :
          (l : List (VersionedRecord K))
          → committed (clean_versions m now 0 l).0 ≤ max 1 m.max_versions_per_key
      few [] = unfold clean_versions in omega arith
      few (v ∷ l) =
          rw (clean_versions-newest v l)
            (ground (arith, committed-clean_versions 1 l (omega arith)))

  module _ (dec : Discrete K) where
    lookup-clean_keys :
        (key : K) (l : List (K × List (VersionedRecord K))) {vs : List (VersionedRecord K)}
        → Assoc.lookup dec key l ≡ some vs
        → Assoc.lookup dec key (clean_keys m now l).0 ≡ some (clean_versions m now 0 vs).0
    unfolding Assoc.lookup clean_keys
    lookup-clean_keys key [] e = absurd (cc)
    lookup-clean_keys key ((j, ws) ∷ l) {vs} e = elim (dec j key) [
      | yes p ↦ ground arith
      | no p ↦ ground (arith, lookup-clean_keys key l {vs = vs})
    ]

    -- What cleanupOldVersions leaves of the versions of a key are some of these versions themselves,
    -- unaltered and in their order: the newest is among them, and so is every version of a
    -- transaction that has not committed; of the others no more stay than the configured maximum (but
    -- one at least).
    pub cleanup_old_versions-Cleaned :
        (key : K) (vs : List (VersionedRecord K))
        → find_versions dec m key ≡ some vs
        → (vs' : List (VersionedRecord K)) × (find_versions dec (cleanup_old_versions now m).0 key
            ≡ some vs')
          × Cleaned vs vs'
    unfolding cleanup_old_versions
    cleanup_old_versions-Cleaned key vs e = (
      (clean_versions m now 0 vs).0,
      lookup-clean_keys key m.versions e,
      clean_versions-Cleaned vs,
    )

    -- A committed version that is old enough is dropped although it is the one that others read,
    -- when a newer version of the key is not committed: they read nothing afterwards.
    pub cleanup_old_versions-hidden :
        (key : K) (v w : VersionedRecord K) (r : ℕ)
        → find_versions dec m key ≡ some (w ∷ v ∷ [])
        → can_cleanup m w ≡ false
        → can_cleanup m v ≡ true
        → v.is_deleted ≡ false
        → v.created_at + m.version_retention_period < now
        → r ≢ w.created_by
        → (find_visible dec m key r ≡ some v)
          × (find_visible dec (cleanup_old_versions now m).0 key r ≡ none)
    unfolding can_cleanup
    cleanup_old_versions-hidden key v w r e open' done live old other = (
      find_visible-found dec m key r e ∙ before,
      find_visible-found dec (cleanup_old_versions now m).0 key r there
          ∙ ap (first_visible _ r) left
          ∙ after,
    )
      where
        there :
            find_versions dec (cleanup_old_versions now m).0 key
            ≡ some (clean_versions m now 0 (w ∷ v ∷ [])).0
        there = unfold cleanup_old_versions in lookup-clean_keys key m.versions e

        before : first_visible m r (w ∷ v ∷ []) ≡ some v
        before = unfold first_visible is_visible in ground arith

        left : (clean_versions m now 0 (w ∷ v ∷ [])).0 ≡ w ∷ []
        left = unfold clean_versions in ground arith

        after : first_visible (cleanup_old_versions now m).0 r (w ∷ []) ≡ none
        after = unfold first_visible is_visible cleanup_old_versions in ground arith
