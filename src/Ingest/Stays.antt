-- ===== src/Ingest/Stays.antt =====
-- internal/app/ingest/service.go: what stays of a file that was taken in, while the files of other
-- paths are.
use prowiki.Base.{
  ℕ, ◌≤◌, ◌<◌, ◌≡◌, refl, sym, subst, false, ◌==◌, String, List, [], ◌∷◌, All, All-imp, first_where,
  Option, none, some, Bytes, if◌then◌else◌, arith,
}
use prowiki.Domain.Errors.{Error, Result, ok, err, panicked}
use prowiki.Domain.Language.{language_from_path}
use prowiki.Db.Schema.{Tables, VersionRow}
use prowiki.Db.Io.{Env, World, lift, attempt, later, ◌>>=◌}
use prowiki.Db.Keeps.{Keeps, Keeps-lift, Keeps-pure, Keeps-raise, Keeps-bind}
use prowiki.Db.Ensures.{Ensures, Post, Leads, Leads-bind}
use prowiki.Txn.{immediate}
use prowiki.Txn.Keeps.{Leads-immediate}
use prowiki.Store.Files
use prowiki.Store.Versions.{latest_query, is_latest_of, or_not_found}
use prowiki.Ingest.{
  Service, Latest, find_latest, ingest_version, process_file, run, skipped, or_no_latest,
}
use prowiki.Ingest.Current.{find_latest_reads}
use prowiki.Ingest.Through.{On}
use prowiki.Ingest.Keyed.{Watch, OwnedBy, IsKeyedTable, ingest_version-Keyed}
use prowiki.Ingest.Lookup.{Keyed, forget_more, get_or_create-Keyed, get_or_create-far}

owner_found :
    (owner : ℕ → ℕ) (file seq : ℕ) (rows : List VersionRow) (v : VersionRow)
    → OwnedBy owner seq rows
    → first_where (is_latest_of file) rows ≡ some v
    → owner v.id ≡ file
owner_found owner file seq [] v h e = absurd (cc)
owner_found owner file seq (r ∷ rows) v h e =
    ground (arith, h.0, owner_found owner file seq rows v h.1)

-- No version has the id 0, so that it may be of any file.
owner_of_none : ℕ → (ℕ → ℕ) → ℕ → ℕ
owner_of_none file owner id = if id == 0 then file else owner id

module _ (project : ℕ) (x : Watch project) (env : Env) where
  abbrev Ready : ℕ → Latest → Tables → Type 0
  Ready file latest t =
      (x.far file) × On (IsKeyedTable x.holds (λ owner. x.far (owner latest.id))) t

  none_latest-Ready :
      (file : ℕ) (hash : String) (t : Tables)
      → x.far file
      → Keyed project x t
      → Ready file (record { hash = hash; id = 0 }) t
  unfolding owner_of_none
  none_latest-Ready file hash t far k = (
    far,
    record {
      place = k.place;
      owner = owner_of_none file k.owner;
      placed = k.placed;
      owned =
          All-imp
            (λ (v : VersionRow)
                (h : (v.file_id ≡ k.owner v.id) × (0 < v.id) × (v.id ≤ t.versions.seq)).
              same_owner v h)
            t.versions.rows k.owned;
      kept = k.kept;
      more = far;
    },
  )
    where
      same_owner :
          (v : VersionRow)
          → (v.file_id ≡ k.owner v.id) × (0 < v.id) × (v.id ≤ t.versions.seq)
          → (v.file_id ≡ owner_of_none file k.owner v.id) × (0 < v.id) × (v.id ≤ t.versions.seq)
      same_owner v (o, pos, le) =
          let other : (v.id == 0) ≡ false = ground (arith, pos) in
          (rw (other, owner_of_none) o, pos, le)

  found_latest-Ready :
      (file : ℕ) (t : Tables) (v : VersionRow)
      → x.far file
      → Keyed project x t
      → first_where (is_latest_of file) t.versions.rows ≡ some v
      → Ready file (record { hash = v.ast_hash; id = v.id }) t
  found_latest-Ready file t v far k e = (
    far,
    record {
      place = k.place;
      owner = k.owner;
      placed = k.placed;
      owned = k.owned;
      kept = k.kept;
      more =
          subst x.far (sym (owner_found k.owner file t.versions.seq t.versions.rows v k.owned e))
            far;
    },
  )

  find_latest-Ready :
      (file : ℕ) → Ensures (λ t. x.far file × Keyed project x t) (find_latest env file) (Ready file)
  unfolding find_latest latest_query
  find_latest-Ready file = record {
    at = λ w h.
        answer (env.fault w.tick) w h (first_where (is_latest_of file) w.tables.versions.rows) refl;
  }
    where
      answer :
          (o : Option String) (w : World)
          → x.far file × Keyed project x w.tables
          → (y : Option VersionRow) → first_where (is_latest_of file) w.tables.versions.rows ≡ y
          → Post (Ready file) (
              or_no_latest (
                or_not_found (attempt o (latest_query file (env.clock w.tick) w.tables) (later w))))
      answer (some s) w h y e = tt
      answer none w h none e = rw (e, latest_query) (none_latest-Ready file "" w.tables h.0 h.1)
      answer none w h (some v) e =
          rw (e, latest_query) (found_latest-Ready file w.tables v h.0 h.1 e)

  pub stored-Keyed :
      (file : ℕ) (content : Bytes) (hash : String)
      → Leads
          (λ t. x.far file × Keyed project x t)
          (find_latest env file >>= λ latest.
            immediate env (ingest_version env project file content hash latest))
          (Keyed project x)
  stored-Keyed file content hash =
      Leads-bind (Ready file) (Keyed project x) (find_latest env file) _
        (record { at = λ w h. subst (Keyed project x) (sym (find_latest_reads env file w)) h.1 })
        (find_latest-Ready file)
        (λ latest. record {
          at = λ w h.
              (Leads-immediate env (ingest_version env project file content hash latest)
                  (λ t k. forget_more project x _ t k)
                  (ingest_version-Keyed project x file content hash latest h.0 env)).at
                w h.1;
        })

  -- Taking in a file of a path that is away.
  taken-Keyed :
      (relative content : Bytes) (hash : String)
      → x.away relative
      → Keeps (Keyed project x) (
          Files.get_or_create env project relative >>= λ file. find_latest env file.id >>= λ latest.
          immediate env (ingest_version env project file.id content hash latest))
  taken-Keyed relative content hash away = record {
    at = λ w h.
        (Leads-bind (λ f t. x.far f.id × Keyed project x t) (Keyed project x)
            (Files.get_or_create env project relative) _
            (record { at = λ w h. (get_or_create-Keyed project x env relative).at w h })
            (get_or_create-far project x env relative away)
            (λ f. stored-Keyed f.id content hash)).at
          w h;
  }

-- The path, if `filepath.Rel` gave one, is away.
abbrev pub IsAway : {project : ℕ} → Watch project → Result Bytes → Type 0
IsAway x (ok relative) = x.away relative
IsAway x (err e) = Unit
IsAway x (panicked p) = Unit

module _ (env : Env) (s : Service) (x : Watch s.project_id) where
  related-Keyed :
      (r : Result Bytes) (content : Bytes) (hash : String)
      → IsAway x r
      → Keeps (Keyed s.project_id x) (
          lift r >>= λ relative. Files.get_or_create env s.project_id relative >>= λ file.
          find_latest env file.id >>= λ latest.
          immediate env (ingest_version env s.project_id file.id content hash latest))
  related-Keyed (ok relative) content hash away = record {
    at = (taken-Keyed s.project_id x env relative content hash away).at;
  }
  related-Keyed (err e) content hash away = record { at = λ w h. h }
  related-Keyed (panicked p) content hash away = record { at = λ w h. h }

  process_file-Keyed :
      (path : Bytes)
      → IsAway x (s.rel_path path)
      → Keeps (Keyed s.project_id x) (process_file env s path)
  unfolding process_file
  process_file-Keyed path away = Keeps-bind _ _ (Keeps-lift (s.read_file path)) λ content.
      Keeps-bind _ _ (Keeps-lift (s.parse (language_from_path path) content)) λ tree.
        Keeps-bind _ _ (Keeps-lift (s.structural_hash tree))
          λ hash. related-Keyed (s.rel_path path) content hash away

  skipped-Keyed :
      (y : Result (Unit {0}) × World)
      → Keyed s.project_id x y.1.tables
      → Keyed s.project_id x (skipped y).1.tables
  skipped-Keyed (ok u, w) h = h
  skipped-Keyed (err e, w) h = h
  skipped-Keyed (panicked p, w) h = h

  pub run-Keyed :
      (paths : List Bytes) (end : Option Error)
      → All (λ path. IsAway x (s.rel_path path)) paths
      → Keeps (Keyed s.project_id x) (run env s paths end)
  unfolding run
  run-Keyed [] none away = Keeps-pure tt
  run-Keyed [] (some e) away = Keeps-raise e
  run-Keyed (path ∷ paths) end away =
      Keeps-bind (λ w. skipped (process_file env s path w)) _
        (record { at = λ w h. skipped-Keyed _ ((process_file-Keyed path away.0).at w h) })
        (λ _. run-Keyed paths end away.1)
