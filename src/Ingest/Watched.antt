-- ===== src/Ingest/Watched.antt =====
-- internal/app/ingest/service.go: what is watched while the files of other paths are taken in.
use prowiki.Base.{
  ℕ, ◌≡◌, refl, sym, ap, ◌∙◌, Bool, false, List, [], ◌∷◌, ◌++◌, first_where, first_where-found,
  Bool-cases, inl, inr, ◌==◌, if◌then◌else◌, some, Bytes, bytes_eq, bytes_eq_iff, arith,
}
use prowiki.Domain.Entities.{File}
use prowiki.Db.Schema.{VersionRow}
use prowiki.Store.Versions.{is_latest_of, mark_rows}
use prowiki.Store.Files.Stable.{is_at}
use prowiki.Ingest.Keyed.{Watch, PlacedBy, OwnedBy}

-- Nothing is watched.
abbrev pub idle : (project : ℕ) → Watch project
idle project = record {
  holds = λ fs vs. Unit {0};
  far = λ id. Unit {0};
  away = λ path. Unit {0};
  grown = λ fs vs f h. tt;
  appended = λ fs vs v a h. tt;
  marked = λ owner b seq id fs vs o a h. tt;
  is_far = λ place seq fs vs other g p e a h. tt;
}

module _ {ℓ} {A : Type ℓ} (p : A → Bool) where
  pub first_where-append_found :
      (xs ys : List A) (x : A) → first_where p xs ≡ some x → first_where p (xs ++ ys) ≡ some x
  first_where-append_found [] ys x e = absurd (cc)
  first_where-append_found (y ∷ xs) ys x e = ground (arith, first_where-append_found xs ys x)

-- The file of the path is `f`.
abbrev pub seated : (project : ℕ) → Bytes → File → Watch project
seated project path f = record {
  holds = λ fs vs. first_where (is_at project path) fs ≡ some f;
  far = λ id. Unit {0};
  away = λ other. Unit {0};
  grown = λ fs vs g h. first_where-append_found (is_at project path) fs (g ∷ []) f h;
  appended = λ fs vs v a h. h;
  marked = λ owner b seq id fs vs o a h. h;
  is_far = λ place seq fs vs other g p e a h. tt;
}

-- A mark on a version of another file does not change which version is the latest of the file.
pub latest-mark_rows :
    (owner : ℕ → ℕ) (b : Bool) (file seq id : ℕ) (rows : List VersionRow)
    → OwnedBy owner seq rows
    → (owner id == file) ≡ false
    → first_where (is_latest_of file) (mark_rows b id rows) ≡ first_where (is_latest_of file) rows
unfolding mark_rows
latest-mark_rows owner b file seq id [] o far = refl
latest-mark_rows owner b file seq id (v ∷ rows) o far =
    let rest = latest-mark_rows owner b file seq id rows o.1 far in
    elim (Bool-cases (v.id == id)) [
      | inl e ↦
          let same : v.id ≡ id = ground (arith, e) in
          let other : (v.file_id == file) ≡ false = rw (o.0.0, same) far in rw (e, other) rest
      | inr e ↦ rw e (ap (λ r. if is_latest_of file v then some v else r) rest)
    ]

placed_found :
    (p : File → Bool) (place : ℕ → Bytes) (seq : ℕ) (fs : List File) (f : File)
    → PlacedBy place seq fs
    → first_where p fs ≡ some f
    → f.path ≡ place f.id
placed_found p place seq [] f h e = absurd (cc)
placed_found p place seq (g ∷ fs) f h e = ground (arith, h.0, placed_found p place seq fs f h.1)

path_found :
    (project : ℕ) (path : Bytes) (fs : List File) (f : File)
    → first_where (is_at project path) fs ≡ some f
    → f.path ≡ path
path_found project path fs f e =
    let here = first_where-found (is_at project path) fs f e in
    (bytes_eq_iff f.path path).0 (ground (arith, here))

module _ (project : ℕ) (path : Bytes) (f : File) (v : VersionRow) where
  -- The file of the path is `f`, and its latest version is `v`.
  abbrev pub Rests : List File → List VersionRow → Type 0
  Rests fs vs =
      (first_where (is_at project path) fs ≡ some f) × (first_where (is_latest_of f.id) vs ≡ some v)

  pub far_file :
      (place : ℕ → Bytes) (seq : ℕ) (fs : List File) (vs : List VersionRow) (other : Bytes)
      (g : File)
      → PlacedBy place seq fs
      → first_where (is_at project other) fs ≡ some g
      → bytes_eq other path ≡ false
      → Rests fs vs
      → (g.id == f.id) ≡ false
  far_file place seq fs vs other g h e a r = elim (Bool-cases (g.id == f.id)) [
    | inr e' ↦ e'
    | inl e' ↦
        let same : g.id ≡ f.id = ground (arith, e') in
        let shared : other ≡ path =
          sym (path_found project other fs g e)
          ∙ placed_found (is_at project other) place seq fs g h e
          ∙ ap place same
          ∙ sym (placed_found (is_at project path) place seq fs f h r.0)
          ∙ path_found project path fs f r.0 in
        let equal = (bytes_eq_iff other path).1 shared in absurd (cc)
  ]

  abbrev pub resting : Watch project
  resting = record {
    holds = Rests;
    far = λ id. (id == f.id) ≡ false;
    away = λ other. bytes_eq other path ≡ false;
    grown = λ fs vs g r. (first_where-append_found (is_at project path) fs (g ∷ []) f r.0, r.1);
    appended =
        λ fs vs u far r. (r.0, first_where-append_found (is_latest_of f.id) vs (u ∷ []) v r.1);
    marked =
        λ owner b seq id fs vs o far r. (r.0, latest-mark_rows owner b f.id seq id vs o far ∙ r.1);
    is_far = far_file;
  }
