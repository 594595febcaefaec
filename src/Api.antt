-- ===== src/Api.antt =====
-- internal/api/handlers.go and internal/api/server.go: the answers of the HTTP server. net/http and
-- encoding/json are not part of the repository: an answer is its status, the headers that the code
-- sets, and the value that is encoded, and what net/http answers where no route of the API is taken,
-- from the files of the folder `web`, is a parameter. A request is one in whose path nothing is escaped.
pub mod Scan
pub mod Clean
pub mod Answers
pub mod FileAnswer
use Prim.Native.String.{◌++◌ as ◌^◌}
use prowiki.Base.{
  ℕ, Bool, true, false, not, ◌&&◌, String, str_eq, List, [], ◌∷◌, ◌++◌, if◌then◌else◌, Option, none,
  some, Bytes, bytes_eq, codes, has_prefix, drop,
}
use prowiki.Domain.Errors.{Error, Result, ok, err, panicked, error_text}
use prowiki.Domain.Entities.{Project, File, Feature, FileVersion}
use prowiki.Db.Io.{Env, World, Io, Query, statement, pure}
use prowiki.Store.Files
use prowiki.Store.Features
use prowiki.Store.Versions
use prowiki.Store.Versions.{or_not_found}
use prowiki.Store.Jobs
use prowiki.Store.Jobs.{JobStats}
use prowiki.Api.Clean.{clean_path}
use prowiki.Api.Scan.{Number, positive, negative, scan_number}

pub data Body : Type 0 where
  empty : Body
  text : String → Body
  project : Project → Body
  files : List File → Body
  features : List Feature → Body
  stats : JobStats → Body
  -- `FileResponse`: the summary, and no features.
  file : String → Body
  -- The page of a redirect, and with it the header `Location`: both name a path.
  moved : Bytes → Body
  -- What the file server sends.
  asset : Bytes → Body

abbrev pub Header : Type 0
Header = String × String

pub record Response : Type 0 where
  pub status : ℕ
  pub headers : List Header
  pub body : Body

-- `jsonResponse`
abbrev pub json_response : ℕ → Body → Response
json_response status body = record {
  status = status;
  headers = ("Content-Type", "application/json") ∷ [];
  body = body;
}

-- `http.Error`
abbrev pub http_error : String → ℕ → Response
http_error message status = record {
  status = status;
  headers =
      ("Content-Type", "text/plain; charset=utf-8") ∷ ("X-Content-Type-Options", "nosniff") ∷ [];
  body = text message;
}

pub record Request : Type 0 where
  pub method : String
  pub path : Bytes

abbrev pub not_allowed : Response
not_allowed = http_error "Method not allowed" 405

-- The end of a handler over a read of a store. A panic goes on to net/http.
abbrev pub answered : {A : Type 0} → (A → Body) → Result A × World → Result Response × World
answered body (ok a, w) = (ok (json_response 200 (body a)), w)
answered body (err e, w) = (ok (http_error (error_text e) 500), w)
answered body (panicked p, w) = (panicked p, w)

abbrev pub only_get : Request → Io Response → Io Response
only_get r handler = if str_eq r.method "GET" then handler else pure not_allowed

-- `handleGetProject`
unfoldable pub handle_get_project : Project → Request → Io Response
handle_get_project p r = only_get r (pure (json_response 200 (project p)))

-- `handleGetFiles`
unfoldable pub handle_get_files : Env → Project → Request → Io Response
unfolding Files.get_by_project_id
handle_get_files env p r = only_get r (λ w. answered files (Files.get_by_project_id env p.id w))

-- `handleGetFeatures`
unfoldable pub handle_get_features : Env → Project → Request → Io Response
unfolding Features.get_by_project_id
handle_get_features env p r =
    only_get r (λ w. answered features (Features.get_by_project_id env p.id w))

-- `handleGetJobs`
unfoldable pub handle_get_jobs : Env → Project → Request → Io Response
unfolding Jobs.get_stats
handle_get_jobs env p r = only_get r (λ w. answered stats (Jobs.get_stats env p.id w))

-- No row has a negative id.
abbrev no_row : Query FileVersion
no_row now t = err Error.no_rows

unfoldable pub latest_version : Env → Number → Io FileVersion
unfolding Versions.latest_by_file_id statement
latest_version env (positive n) = Versions.latest_by_file_id env n
latest_version env (negative n) = λ w. or_not_found (statement env no_row w)

abbrev pub found : Result FileVersion × World → Result Response × World
found (ok v, w) = (ok (json_response 200 (file v.summary)), w)
found (err e, w) = (ok (http_error "File version not found" 404), w)
found (panicked p, w) = (panicked p, w)

abbrev pub file_of_number : Env → Option Number → Io Response
file_of_number env none = pure (http_error "Invalid file ID" 400)
file_of_number env (some n) = λ w. found (latest_version env n w)

-- `r.URL.Path[len("/api/files/"):]`
abbrev pub id_text : Bytes → Bytes
id_text path = drop 11 path

-- `handleGetFile`
unfoldable pub handle_get_file : Env → Request → Io Response
unfolding latest_version scan_number
handle_get_file env r = only_get r (file_of_number env (scan_number (id_text r.path)))

-- The handlers of the routes that `Start` registers.
unfoldable pub matched : Env → Project → (Request → Response) → Request → Io Response
unfolding handle_get_project handle_get_files handle_get_file handle_get_features handle_get_jobs
matched env p web r =
    if bytes_eq r.path (codes "/api/project")
    then handle_get_project p r
    else if bytes_eq r.path (codes "/api/files")
    then handle_get_files env p r
    else if bytes_eq r.path (codes "/api/features")
    then handle_get_features env p r
    else if bytes_eq r.path (codes "/api/jobs")
    then handle_get_jobs env p r
    else if has_prefix (codes "/api/files/") r.path
    then handle_get_file env r
    else pure (web r)

-- `ServeMux` redirects a path that is not clean, but for CONNECT.
abbrev pub is_moved : Request → Bool
is_moved r = not (str_eq r.method "CONNECT") && not (bytes_eq (clean_path r.path) r.path)

abbrev pub redirected : Request → Response
redirected r = record { status = 301; headers = []; body = moved (clean_path r.path) }

-- The `ServeMux` of `Start`.
unfoldable pub route : Env → Project → (Request → Response) → Request → Io Response
unfolding matched clean_path
route env p web r = if is_moved r then pure (redirected r) else matched env p web r

abbrev pub cors_headers : List Header
cors_headers =
    ("Access-Control-Allow-Origin", "*")
    ∷ ("Access-Control-Allow-Methods", "GET, POST, OPTIONS")
    ∷ ("Access-Control-Allow-Headers", "Content-Type")
    ∷ []

abbrev pub with_cors : Result Response × World → Result Response × World
with_cors (ok r, w) = (ok (record r { headers = cors_headers ++ r.headers }), w)
with_cors (err e, w) = (err e, w)
with_cors (panicked p, w) = (panicked p, w)

-- `corsMiddleware`
unfoldable pub cors_middleware : (Request → Io Response) → Request → Io Response
cors_middleware handler r w = with_cors (
    if str_eq r.method "OPTIONS"
    then (ok (record { status = 200; headers = []; body = empty }), w)
    else handler r w)

-- The handler that `Start` serves.
unfoldable pub serve : Env → Project → (Request → Response) → Request → Io Response
unfolding cors_middleware route
serve env p web r = cors_middleware (route env p web) r
