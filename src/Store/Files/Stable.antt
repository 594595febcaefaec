-- ===== src/Store/Files/Stable.antt =====
-- internal/store/file_store.go: `GetOrCreate` gives one file for a path.
use prowiki.Base.{
  ℕ, ◌≡◌, refl, Bool, true, false, ◌&&◌, first_where, first_where-append, first_where-found, ◌==◌,
  Option, none, some, Bytes, bytes_eq, bytes_eq_iff, arith, String, suc, ◌+◌,
}
use prowiki.Domain.Errors.{Result, ok}
use prowiki.Domain.Entities.{File}
use prowiki.Db.Schema.{Tables, has_project}
use prowiki.Db.Io.{Env, World, statement, attempt, later}
use prowiki.Txn.Atomic.{AllOrNothing}
use prowiki.Store.Files.{get_or_create, select_file, insert_file, file_row, or_create}

abbrev pub is_at : ℕ → Bytes → File → Bool
is_at project path f = (f.project_id == project) && bytes_eq f.path path

-- The file belongs to the path, and the SELECT finds it again.
abbrev pub IsFound : ℕ → Bytes → File → Tables → Type 0
IsFound project path f t =
    (is_at project path f ≡ true) × ((now : ℕ) → select_file project path now t ≡ ok (f, t))

module _ (env : Env) (project : ℕ) (path : Bytes) (w : World) where
  abbrev Stable : Result File × World → Type 0
  Stable x = AllOrNothing w x (λ f w'. IsFound project path f w'.tables)

  inserted :
      (o : Option String) (now tick : ℕ) (b : Bool)
      → first_where (is_at project path) w.tables.files.rows ≡ none
      → has_project w.tables project ≡ b
      → Stable (attempt o (insert_file project none path now w.tables) (record w { tick = tick }))
  unfolding insert_file select_file
  inserted (some s) now tick b e h = refl
  inserted none now tick false e h = rw (h, insert_file) refl
  inserted none now tick true e h =
      let new = file_row now project none path (suc w.tables.files.seq) in
      let same_path : bytes_eq path path ≡ true = (bytes_eq_iff path path).1 refl in
      let here : is_at project path new ≡ true = ground (arith, same_path) in
      let found = first_where-append (is_at project path) w.tables.files.rows new e here in
      rw (h, insert_file) (here, λ later_on. rw (found, select_file) refl)

  selected :
      (o : Option String) (x : Option File)
      → first_where (is_at project path) w.tables.files.rows ≡ x
      → Stable (
          or_create env project path
            (attempt o (select_file project path (env.clock w.tick) w.tables) (later w)))
  unfolding statement select_file
  selected (some s) x e = refl
  selected none (some f) e =
      rw (e, select_file)
        (
          first_where-found (is_at project path) w.tables.files.rows f e,
          λ now. rw (e, select_file) refl,
        )
  selected none none e =
      rw (e, select_file)
        (inserted (env.fault (w.tick + 1)) (env.clock (w.tick + 1)) (w.tick + 1 + 1)
          (has_project w.tables project) e refl)

-- `GetOrCreate`, whichever calls fail: either no table changes, or the file that it returns is one of
-- the project and the path, and a later search for them finds that file.
pub get_or_create-IsFound :
    (env : Env) (project : ℕ) (path : Bytes) (w : World)
    → AllOrNothing w (get_or_create env project path w) (λ f w'. IsFound project path f w'.tables)
unfolding get_or_create statement
get_or_create-IsFound env project path w =
    selected env project path w (env.fault w.tick)
      (first_where (is_at project path) w.tables.files.rows) refl
