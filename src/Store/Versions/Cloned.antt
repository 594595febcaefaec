-- ===== src/Store/Versions/Cloned.antt =====
-- internal/store/file_store.go: CloneJunctions succeeds for a version that was just inserted.
use prowiki.Base.{
  ℕ, suc, ◌≤◌, ◌<◌, ◌≡◌, refl, subst, true, false, List, [], ◌∷◌, ◌++◌, All, All-imp, All-zip,
  All-select, exists_where, ◌==◌, arith,
}
use prowiki.Domain.Entities.{FileFeature}
use prowiki.Db.Schema.{insert, Tables, VersionRow, has_version, has_feature}
use prowiki.Db.Succeeds.{Gives}
use prowiki.Store.Versions.{is_junction, link, is_linkable, clone_rows, clone_query, junctions_of}

-- No feature is named by two of the links.
abbrev pub NamesNoneTwice : List FileFeature → Type 0
NamesNoneTwice [] = Unit
NamesNoneTwice (r ∷ rs) =
    All (λ (q : FileFeature). (q.feature_id == r.feature_id) ≡ false) rs × NamesNoneTwice rs

-- The links name versions whose ids were issued and features that exist, and no version is linked to a
-- feature twice: the foreign keys and the primary key of `file_features`.
pub record IsLinked (t : Tables) : Type 0 where
  pub issued : All (λ (r : FileFeature). r.file_version_id ≤ t.versions.seq) t.file_features
  pub known : All (λ (r : FileFeature). has_feature t r.feature_id ≡ true) t.file_features
  pub single : (version : ℕ) → NamesNoneTwice (junctions_of version t.file_features)

unlinked :
    (new feature : ℕ) (rows : List FileFeature)
    → All (λ (r : FileFeature). r.file_version_id < new) rows
    → exists_where (is_junction new feature) rows ≡ false
unlinked new feature [] h = refl
unlinked new feature (r ∷ rows) h = ground (arith, h.0, unlinked new feature rows h.1)

still_unlinked :
    (new feature other : ℕ) (rows : List FileFeature)
    → (feature == other) ≡ false
    → exists_where (is_junction new feature) rows ≡ false
    → exists_where
        (is_junction new feature)
        (rows ++ record { file_version_id = new; feature_id = other } ∷ [])
      ≡ false
still_unlinked new feature other [] e h = ground (arith, e)
still_unlinked new feature other (r ∷ rows) e h =
    ground (arith, still_unlinked new feature other rows e)

-- A list of links that can be cloned for `new`.
abbrev IsClonable : ℕ → List FileFeature → Tables → Type 0
IsClonable new rs t =
    All
      (λ (r : FileFeature).
        (has_feature t r.feature_id ≡ true)
        × (exists_where (is_junction new r.feature_id) t.file_features ≡ false))
      rs

clone_rows_succeeds :
    (new : ℕ) (rs : List FileFeature) (now : ℕ) (t : Tables)
    → has_version t new ≡ true
    → NamesNoneTwice rs
    → IsClonable new rs t
    → Gives
        (λ _ u. (u.files ≡ t.files) × (u.versions ≡ t.versions) × (u.projects ≡ t.projects))
        (clone_rows new rs now t)
unfolding clone_rows
clone_rows_succeeds new [] now t here single h = (refl, refl, refl)
clone_rows_succeeds new (r ∷ rs) now t here single h =
    let linkable : is_linkable t new r.feature_id ≡ true = rw (here, h.0.0) refl in
    rw (h.0.1, linkable, clone_rows)
      (clone_rows_succeeds new rs now (link new r.feature_id t) here single.1 (
        All-imp
          (λ (q : FileFeature)
              (k : ((q.feature_id == r.feature_id) ≡ false)
                × ((has_feature t q.feature_id ≡ true)
                    × (exists_where (is_junction new q.feature_id) t.file_features ≡ false))).
            (k.1.0, still_unlinked new q.feature_id r.feature_id t.file_features k.0 k.1.1))
          rs
          (All-zip (λ (q : FileFeature). (q.feature_id == r.feature_id) ≡ false) _ rs single.0
            h.1)))

-- The version `new` is there and has no links yet.
pub record IsUnlinked (new : ℕ) (t : Tables) : Type 0 where
  pub here : has_version t new ≡ true
  pub empty : (feature : ℕ) → exists_where (is_junction new feature) t.file_features ≡ false
  pub known : All (λ (r : FileFeature). has_feature t r.feature_id ≡ true) t.file_features
  pub single : (version : ℕ) → NamesNoneTwice (junctions_of version t.file_features)

version_added :
    (rows : List VersionRow) (v : VersionRow)
    → exists_where (λ (u : VersionRow). u.id == v.id) (rows ++ v ∷ []) ≡ true
version_added [] v = ground arith
version_added (u ∷ rows) v = ground (arith, version_added rows v)

pub insert-IsUnlinked :
    (t : Tables) (row : ℕ → VersionRow)
    → ((id : ℕ) → (row id).id ≡ id)
    → IsLinked t
    → IsUnlinked (suc t.versions.seq) (record t { versions = insert row t.versions })
insert-IsUnlinked t row named l = record {
  here =
      subst
        (λ id.
          exists_where (λ (u : VersionRow). u.id == id)
            (t.versions.rows ++ row (suc t.versions.seq) ∷ [])
          ≡ true)
        (named (suc t.versions.seq)) (version_added t.versions.rows (row (suc t.versions.seq)));
  empty = λ feature. unlinked (suc t.versions.seq) feature t.file_features (
      All-imp
        (λ (r : FileFeature) (h : r.file_version_id ≤ t.versions.seq). older r.file_version_id h)
        t.file_features l.issued);
  known = l.known;
  single = l.single;
}
  where
    older : (n : ℕ) → n ≤ t.versions.seq → n < suc t.versions.seq
    older n h = omega arith

pub clone_query_succeeds :
    (old new now : ℕ) (t : Tables)
    → IsUnlinked new t
    → Gives
        (λ _ u. (u.files ≡ t.files) × (u.versions ≡ t.versions) × (u.projects ≡ t.projects))
        (clone_query old new now t)
unfolding clone_query
clone_query_succeeds old new now t l =
    clone_rows_succeeds new (junctions_of old t.file_features) now t l.here (l.single old) (
      All-imp
        {Q = λ (r : FileFeature).
          (has_feature t r.feature_id ≡ true)
          × (exists_where (is_junction new r.feature_id) t.file_features ≡ false)}
        (λ (r : FileFeature) (h : has_feature t r.feature_id ≡ true). (h, l.empty r.feature_id))
        (junctions_of old t.file_features)
        (All-select (λ (r : FileFeature). has_feature t r.feature_id ≡ true)
          (λ (r : FileFeature). r.file_version_id == old) t.file_features
          (All-imp
            {Q = λ (r : FileFeature).
              (r.file_version_id == old) ≡ true → has_feature t r.feature_id ≡ true}
            (λ (r : FileFeature) (h : has_feature t r.feature_id ≡ true)
                (e : (r.file_version_id == old) ≡ true).
              h)
            t.file_features l.known)))
