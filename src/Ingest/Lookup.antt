-- ===== src/Ingest/Lookup.antt =====
-- internal/app/ingest/service.go: looking up the file of a path changes nothing of what is watched.
use prowiki.Base.{
  ℕ, suc, ◌+◌, ◌∙◌, ◌≤◌, ◌≡◌, refl, sym, false, ◌==◌, String, [], ◌∷◌, All-imp, All-append,
  first_where, Option, none, some, Bytes, Bool-cases, inl, inr, if◌then◌else◌, arith,
}
use prowiki.Domain.Errors.{Error, Result, ok, err, panicked}
use prowiki.Domain.Entities.{File}
use prowiki.Db.Schema.{Tables, has_project}
use prowiki.Db.Io.{Env, World, statement, attempt, later}
use prowiki.Db.Keeps.{Keeps}
use prowiki.Db.Ensures.{Ensures, Post}
use prowiki.Txn.Atomic.{AllOrNothing}
use prowiki.Store.Files
use prowiki.Store.Files.{select_file, insert_file, file_row, or_create}
use prowiki.Store.Files.Stable.{is_at, IsFound, get_or_create-IsFound}
use prowiki.Ingest.Through.{On}
use prowiki.Ingest.Keyed.{Watch, IsKeyedTable, NoMore}

module _ (project : ℕ) (x : Watch project) where
  abbrev pub Keyed : Tables → Type 0
  Keyed = On (IsKeyedTable x.holds NoMore)

  pub forget_more :
      (More : (ℕ → ℕ) → Type 0) (t : Tables) → On (IsKeyedTable x.holds More) t → Keyed t
  forget_more More t k = record {
    place = k.place;
    owner = k.owner;
    placed = k.placed;
    owned = k.owned;
    kept = k.kept;
    more = tt;
  }

  module _ (env : Env) (path : Bytes) where
    grown_place : (ℕ → Bytes) → ℕ → ℕ → Bytes
    grown_place place new id = if id == new then path else place id

    created :
        (o : Option String) (now tick : ℕ) (w : World)
        → Keyed w.tables
        → Keyed
            (attempt o
              (insert_file project none path now w.tables)
              (record w { tick = tick })).1.tables
    unfolding insert_file grown_place
    created (some s) now tick w k = k
    created none now tick w k = elim (Bool-cases (has_project w.tables project)) [
      | inr e ↦ rw (e, insert_file) k
      | inl e ↦
          let new = suc w.tables.files.seq in
          rw (e, insert_file)
            (record {
              place = grown_place k.place new;
              owner = k.owner;
              placed =
                  All-append (λ (f : File). (f.path ≡ grown_place k.place new f.id) × (f.id ≤ new))
                    w.tables.files.rows (file_row now project none path new ∷ [])
                    (All-imp
                      (λ (f : File) (h : (f.path ≡ k.place f.id) × (f.id ≤ w.tables.files.seq)).
                        older k.place f h)
                      w.tables.files.rows k.placed)
                    ((own k.place new, omega arith), tt);
              owned = k.owned;
              kept = x.grown w.tables.files.rows w.tables.versions.rows _ k.kept;
              more = tt;
            })
    ]
      where
        own : (place : ℕ → Bytes) (new : ℕ) → path ≡ grown_place place new new
        own place new = ground arith

        older :
            (place : ℕ → Bytes) (f : File)
            → (f.path ≡ place f.id) × (f.id ≤ w.tables.files.seq)
            → (f.path ≡ grown_place place (suc w.tables.files.seq) f.id)
              × (f.id ≤ suc w.tables.files.seq)
        older place f (p, le) =
            let other : (f.id == suc w.tables.files.seq) ≡ false = ground (arith, le) in
            (rw (other, grown_place) p, omega (arith, le))

    chosen :
        (o : Option String) (w : World) (y : Option File)
        → first_where (is_at project path) w.tables.files.rows ≡ y
        → Keyed w.tables
        → Keyed
            (or_create env project path
              (attempt o (select_file project path (env.clock w.tick) w.tables) (later w))).1.tables
    unfolding statement select_file
    chosen (some s) w y e k = k
    chosen none w (some f) e k = rw (e, select_file) k
    chosen none w none e k =
        rw (e, select_file)
          (created (env.fault (w.tick + 1)) (env.clock (w.tick + 1)) (w.tick + 1 + 1) w k)

    pub get_or_create-Keyed : Keeps Keyed (Files.get_or_create env project path)
    unfolding Files.get_or_create statement
    get_or_create-Keyed = record { at = λ w k. chosen (env.fault w.tick) w _ refl k }

    pub found_file :
        (f : File) (t : Tables)
        → IsFound project path f t
        → first_where (is_at project path) t.files.rows ≡ some f
    unfolding select_file
    found_file f t h = found_by (first_where (is_at project path) t.files.rows) refl
      where
        found_by :
            (y : Option File)
            → first_where (is_at project path) t.files.rows ≡ y
            → first_where (is_at project path) t.files.rows ≡ some f
        found_by none e =
            let goes : select_file project path 0 t ≡ err Error.no_rows =
              rw (e, select_file) refl in
            let same = sym goes ∙ h.1 0 in absurd (cc)
        found_by (some g) e =
            let goes : select_file project path 0 t ≡ ok (g, t) = rw (e, select_file) refl in
            let same = sym goes ∙ h.1 0 in cc

    pub get_or_create-far :
        x.away path
        → Ensures Keyed (Files.get_or_create env project path) (λ f t. x.far f.id × Keyed t)
    get_or_create-far away = record {
      at = λ w k.
          both (Files.get_or_create env project path w) w (get_or_create-IsFound env project path w)
            (get_or_create-Keyed.at w k);
    }
      where
        both :
            (y : Result File × World) (w : World)
            → AllOrNothing w y (λ f w'. IsFound project path f w'.tables)
            → Keyed y.1.tables
            → Post (λ f t. x.far f.id × Keyed t) y
        both (ok f, w') w h k = (
          x.is_far k.place w'.tables.files.seq w'.tables.files.rows w'.tables.versions.rows path f
              k.placed (found_file f w'.tables h) away k.kept,
          k,
        )
        both (err e, w') w h k = tt
        both (panicked p, w') w h k = tt
