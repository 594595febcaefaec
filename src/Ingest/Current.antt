-- ===== src/Ingest/Current.antt =====
-- internal/app/ingest/service.go: at any time each file has at most one latest version.
use prowiki.Base.{
  ℕ, ◌≤◌, ◌<◌, ◌≡◌, refl, false, String, List, [], ◌∷◌, first_where, All, ◌==◌, if◌then◌else◌,
  Option, none, some, arith,
}
use prowiki.Db.Schema.{Table, Tables, VersionRow}
use prowiki.Db.Io.{Env, World, attempt, later}
use prowiki.Db.Ensures.{Ensures, Post}
use prowiki.Store.Versions.{is_latest_of, mark_rows, latest_query, or_not_found}
use prowiki.Store.Versions.Latest.{latest_count, unmark_one, none_latest}
use prowiki.Ingest.{Latest, or_no_latest, find_latest}

pub record IsCurrentTable (vs : Table VersionRow) : Type 0 where
  pub issued : All (λ (v : VersionRow). (0 < v.id) × (v.id ≤ vs.seq)) vs.rows
  pub single : (file : ℕ) → latest_count file vs.rows ≤ 1

-- Each version's id was issued, and each file has at most one version that is marked as its latest.
abbrev pub IsCurrent : Tables → Type 0
IsCurrent t = IsCurrentTable t.versions

-- The rows after the version `old` lost its mark; 0 is no version.
abbrev pub demoted : ℕ → List VersionRow → List VersionRow
demoted old rows = if old == 0 then rows else mark_rows false old rows

pub record IsReadyTable (file : ℕ) (latest : Latest) (vs : Table VersionRow) : Type 0 where
  pub current : IsCurrentTable vs
  pub known : latest.id ≤ vs.seq
  pub clear : latest_count file (demoted latest.id vs.rows) ≡ 0

-- What the search for the latest version establishes.
abbrev pub IsReady : ℕ → Latest → Tables → Type 0
IsReady file latest t = IsReadyTable file latest t.versions

found_issued :
    (file seq : ℕ) (rows : List VersionRow) (v : VersionRow)
    → All (λ (u : VersionRow). (0 < u.id) × (u.id ≤ seq)) rows
    → first_where (is_latest_of file) rows ≡ some v
    → (0 < v.id) × (v.id ≤ seq)
found_issued file seq [] v h e = absurd (cc)
found_issued file seq (r ∷ rows) v h e = ground (arith, h.0, found_issued file seq rows v h.1)

found-IsReady :
    (file : ℕ) (t : Tables) (v : VersionRow)
    → IsCurrent t
    → first_where (is_latest_of file) t.versions.rows ≡ some v
    → IsReady file (record { hash = v.ast_hash; id = v.id }) t
found-IsReady file t v c e =
    let (pos, known) = found_issued file t.versions.seq t.versions.rows v c.issued e in
    let none_left = unmark_one file t.versions.rows v (c.single file) e in
    record { current = c; known = known; clear = ground arith }

pub find_latest-IsReady :
    (env : Env) (file : ℕ) → Ensures IsCurrent (find_latest env file) (IsReady file)
unfolding find_latest latest_query
find_latest-IsReady env file = record {
  at = λ w c.
      answer (env.fault w.tick) w c (first_where (is_latest_of file) w.tables.versions.rows) refl;
}
  where
    answer :
        (o : Option String) (w : World)
        → IsCurrent w.tables
        → (x : Option VersionRow) → first_where (is_latest_of file) w.tables.versions.rows ≡ x
        → Post (IsReady file) (
            or_no_latest
              (or_not_found (attempt o (latest_query file (env.clock w.tick) w.tables) (later w))))
    answer (some s) w c x e = tt
    answer none w c none e =
        rw (e, latest_query)
          (record {
            current = c;
            known = omega arith;
            clear = none_latest file w.tables.versions.rows e;
          })
    answer none w c (some v) e = rw (e, latest_query) (found-IsReady file w.tables v c e)

-- The search writes nothing.
pub find_latest_reads :
    (env : Env) (file : ℕ) (w : World) → (find_latest env file w).1.tables ≡ w.tables
unfolding find_latest latest_query
find_latest_reads env file w = ground arith
