-- ===== src/Store/Files.antt =====
-- internal/store/file_store.go, `FileStore`: the rows of `files`.
pub mod Stable
use prowiki.Base.{
  ℕ, Bool, true, false, ◌&&◌, ◌||◌, ltb, List, [], ◌∷◌, select, first_where, ◌==◌, if◌then◌else◌,
  Option, none, some, Bytes, bytes_eq,
}
use prowiki.Domain.Errors.{Error, Result, ok, err, panicked, is_no_rows}
use prowiki.Domain.Entities.{File}
use prowiki.Db.Schema.{insert, next_id, has_project}
use prowiki.Db.Io.{Env, World, Io, Query, statement}

-- The comparison of `ORDER BY path ASC`.
unfoldable pub bytes_lt : Bytes → Bytes → Bool
bytes_lt xs [] = false
bytes_lt [] (y ∷ ys) = true
bytes_lt (x ∷ xs) (y ∷ ys) = ltb x y || ((x == y) && bytes_lt xs ys)

unfoldable pub insert_by_path : File → List File → List File
insert_by_path f [] = f ∷ []
insert_by_path f (g ∷ gs) =
    let rest = insert_by_path f gs in if bytes_lt g.path f.path then g ∷ rest else f ∷ g ∷ gs

unfoldable pub order_by_path : List File → List File
order_by_path [] = []
order_by_path (f ∷ fs) = insert_by_path f (order_by_path fs)

unfoldable pub files_query : ℕ → Query (List File)
files_query project now t =
    ok (order_by_path (select (λ (f : File). f.project_id == project) t.files.rows), t)

-- `GetByProjectID`
unfoldable pub get_by_project_id : Env → ℕ → Io (List File)
unfolding files_query order_by_path insert_by_path bytes_lt statement
get_by_project_id env project = statement env (files_query project)

abbrev pub file_row : ℕ → ℕ → Option ℕ → Bytes → ℕ → File
file_row now project folder path id = record {
  id = id;
  project_id = project;
  folder_id = folder;
  path = path;
  created_at = now;
  updated_at = now;
}

unfoldable pub insert_file : ℕ → Option ℕ → Bytes → Query File
insert_file project folder path now t =
    if has_project t project
    then ok (
      file_row now project folder path (next_id t.files),
      record t { files = insert (file_row now project folder path) t.files },
    )
    else err (Error.constraint "FOREIGN KEY constraint failed")

-- `Create`; the folder is NULL or taken to exist, as no code of the program makes one.
unfoldable pub create : Env → ℕ → Option ℕ → Bytes → Io File
unfolding insert_file statement
create env project folder path = statement env (insert_file project folder path)

unfoldable pub select_file : ℕ → Bytes → Query File
select_file project path now t =
    elim (first_where (λ (f : File). (f.project_id == project) && bytes_eq f.path path)
      t.files.rows) [ none ↦ err Error.no_rows | some f ↦ ok (f, t) ]

-- The second half of `GetOrCreate`, from what the SELECT gave.
abbrev pub or_create : Env → ℕ → Bytes → Result File × World → Result File × World
or_create env project path (ok f, w) = (ok f, w)
or_create env project path (err e, w) =
    if is_no_rows e then statement env (insert_file project none path) w else (err e, w)
or_create env project path (panicked p, w) = (panicked p, w)

-- `GetOrCreate`
unfoldable pub get_or_create : Env → ℕ → Bytes → Io File
unfolding select_file insert_file statement
get_or_create env project path w =
    or_create env project path (statement env (select_file project path) w)
