-- ===== src/Ingest/Keyed.antt =====
-- internal/app/ingest/service.go: the ids of the files and of their versions, and what the
-- transaction of a file leaves alone.
use prowiki.Base.{
  ℕ, suc, ◌≤◌, ◌<◌, ◌≡◌, true, false, Bool, List, [], ◌∷◌, ◌++◌, All, All-imp, All-append,
  Bool-cases, inl, inr, ◌==◌, if◌then◌else◌, String, first_where, some, Bytes, arith,
}
use prowiki.Domain.Entities.{File}
use prowiki.Db.Schema.{Table, Tables, VersionRow, has_file}
use prowiki.Db.Io.{Env}
use prowiki.Db.Ensures.{Ensures, Yields}
use prowiki.Store.Versions.{mark_latest, mark_rows, mark_query, insert_version_query, version_row}
use prowiki.Store.Files.Stable.{is_at}
use prowiki.Ingest.{Latest, ingest_version}
use prowiki.Ingest.Through.{OfFiles, On, through-ingest_version}

-- Each file's path and each version's file are those of its id, and the ids were issued.
abbrev pub PlacedBy : (ℕ → Bytes) → ℕ → List File → Type 0
PlacedBy place seq = All (λ (f : File). (f.path ≡ place f.id) × (f.id ≤ seq))

abbrev pub OwnedBy : (ℕ → ℕ) → ℕ → List VersionRow → Type 0
OwnedBy owner seq = All (λ (v : VersionRow). (v.file_id ≡ owner v.id) × (0 < v.id) × (v.id ≤ seq))

-- A property `holds` of the rows that work on the files `far` does not touch, where `away` are the
-- paths of such files.
pub record Watch (project : ℕ) : Type 1 where
  pub holds : List File → List VersionRow → Type 0
  pub far : ℕ → Type 0
  pub away : Bytes → Type 0
  pub grown :
      (fs : List File) (vs : List VersionRow) (f : File) → holds fs vs → holds (fs ++ f ∷ []) vs
  pub appended :
      (fs : List File) (vs : List VersionRow) (v : VersionRow)
      → far v.file_id
      → holds fs vs
      → holds fs (vs ++ v ∷ [])
  pub marked :
      (owner : ℕ → ℕ) (b : Bool) (seq id : ℕ) (fs : List File) (vs : List VersionRow)
      → OwnedBy owner seq vs
      → far (owner id)
      → holds fs vs
      → holds fs (mark_rows b id vs)
  pub is_far :
      (place : ℕ → Bytes) (seq : ℕ) (fs : List File) (vs : List VersionRow) (other : Bytes)
      (g : File)
      → PlacedBy place seq fs
      → first_where (is_at project other) fs ≡ some g
      → away other
      → holds fs vs
      → far g.id

-- `More` says more of the file that an id's version belongs to.
pub record IsKeyedTable (holds : List File → List VersionRow → Type 0) (More : (ℕ → ℕ) → Type 0)
    (fs : Table File) (vs : Table VersionRow) : Type 0 where
  pub place : ℕ → Bytes
  pub owner : ℕ → ℕ
  pub placed : PlacedBy place fs.seq fs.rows
  pub owned : OwnedBy owner vs.seq vs.rows
  pub kept : holds fs.rows vs.rows
  pub more : More owner

abbrev pub NoMore : (ℕ → ℕ) → Type 0
NoMore owner = Unit {0}

marked_rows :
    (P : VersionRow → Type 0) (b : Bool) (id : ℕ) (rows : List VersionRow)
    → ((v : VersionRow) → P v → P (mark_latest b v))
    → All P rows
    → All P (mark_rows b id rows)
unfolding mark_rows
marked_rows P b id [] keeps h = tt
marked_rows P b id (v ∷ rows) keeps h = (kept (v.id == id), marked_rows P b id rows keeps h.1)
  where
    kept : (c : Bool) → P (if c then mark_latest b v else v)
    kept true = keeps v h.0
    kept false = h.0

module _ (project : ℕ) (x : Watch project) (file : ℕ) (content : Bytes) (hash : String)
    (latest : Latest) (distant : x.far file) where
  abbrev pub Before : OfFiles
  Before = IsKeyedTable x.holds (λ owner. x.far (owner latest.id))

  abbrev Between : ℕ → OfFiles
  Between new = IsKeyedTable x.holds (λ owner. x.far (owner latest.id) × x.far (owner new))

  marked-Keyed :
      (More Now : (ℕ → ℕ) → Type 0) (b : Bool) (id now : ℕ) (t : Tables)
      → ((owner : ℕ → ℕ) → More owner → x.far (owner id))
      → ((owner : ℕ → ℕ) → More owner → Now owner)
      → On (IsKeyedTable x.holds More) t
      → Yields (λ _. On (IsKeyedTable x.holds Now)) (mark_query b id now t)
  unfolding mark_query
  marked-Keyed More Now b id now t away weaken k = record {
    place = k.place;
    owner = k.owner;
    placed = k.placed;
    owned =
        marked_rows
          (λ (v : VersionRow). (v.file_id ≡ k.owner v.id) × (0 < v.id) × (v.id ≤ t.versions.seq)) b
          id t.versions.rows (λ v h. h) k.owned;
    kept =
        x.marked k.owner b t.versions.seq id t.files.rows t.versions.rows k.owned
          (away k.owner k.more) k.kept;
    more = weaken k.owner k.more;
  }

  -- The file of each version after the version `new` was inserted.
  abbrev owner_after : (ℕ → ℕ) → ℕ → ℕ → ℕ
  owner_after owner new id = if id == new then file else owner id

  far_after : (owner : ℕ → ℕ) (new id : ℕ) → x.far (owner id) → x.far (owner_after owner new id)
  far_after owner new id h = elim (Bool-cases (id == new)) [ inl e ↦ rw e distant | inr e ↦ rw e h ]

  inserted-Keyed :
      (now : ℕ) (t : Tables)
      → On Before t
      → Yields (λ new. On (Between new)) (insert_version_query file content hash true now t)
  unfolding insert_version_query
  inserted-Keyed now t k = elim (Bool-cases (has_file t file)) [
    | inl e ↦
        let new = suc t.versions.seq in
        rw (e, insert_version_query)
          (record {
            place = k.place;
            owner = owner_after k.owner new;
            placed = k.placed;
            owned =
                All-append
                  (λ (v : VersionRow).
                    (v.file_id ≡ owner_after k.owner new v.id) × (0 < v.id) × (v.id ≤ new))
                  t.versions.rows (version_row now file content hash true new ∷ [])
                  (All-imp
                    (λ (v : VersionRow)
                        (h : (v.file_id ≡ k.owner v.id) × (0 < v.id) × (v.id ≤ t.versions.seq)).
                      older k.owner v h)
                    t.versions.rows k.owned)
                  ((own k.owner new, omega arith, omega arith), tt);
            kept = x.appended t.files.rows t.versions.rows _ distant k.kept;
            more = (far_after k.owner new latest.id k.more, at_new k.owner new);
          })
    | inr e ↦ rw (e, insert_version_query) tt
  ]
    where
      own : (owner : ℕ → ℕ) (new : ℕ) → file ≡ owner_after owner new new
      own owner new = ground arith

      at_new : (owner : ℕ → ℕ) (new : ℕ) → x.far (owner_after owner new new)
      at_new owner new = let same : (new == new) ≡ true = ground arith in rw same distant

      older :
          (owner : ℕ → ℕ) (v : VersionRow)
          → (v.file_id ≡ owner v.id) × (0 < v.id) × (v.id ≤ t.versions.seq)
          → (v.file_id ≡ owner_after owner (suc t.versions.seq) v.id)
            × (0 < v.id)
            × (v.id ≤ suc t.versions.seq)
      older owner v (o, pos, le) =
          let other : (v.id == suc t.versions.seq) ≡ false = ground (arith, le) in
          (rw other o, pos, omega (arith, le))

  -- The transaction of a distant file leaves what holds.
  pub ingest_version-Keyed :
      (env : Env)
      → Ensures
          (On Before)
          (ingest_version env project file content hash latest)
          (λ _. On (IsKeyedTable x.holds NoMore))
  ingest_version-Keyed env =
      through-ingest_version Before Between (IsKeyedTable x.holds NoMore) file content hash latest
        inserted-Keyed
        (λ new now t. marked-Keyed _ _ false latest.id now t (λ owner h. h.0) (λ owner h. h))
        (λ new now t. marked-Keyed _ _ true new now t (λ owner h. h.1) (λ owner h. tt)) env project
