-- ===== src/Api/Answers.antt =====
-- internal/api: what the server answers, and that it only reads.
use prowiki.Base.{
  ℕ, ◌≡◌, Bool, true, false, ◌||◌, str_eq, List, ◌∷◌, ◌==◌, Bytes, bytes_eq, codes, has_prefix,
}
use prowiki.Domain.Errors.{Result, ok, err, panicked}
use prowiki.Db.Io.{World, Io}
use prowiki.Store.Files
use prowiki.Store.Features
use prowiki.Store.Versions
use prowiki.Store.Jobs
use prowiki.Api.Clean.{clean_path}
use prowiki.Api.{empty, Response, Request, Header, moved, is_moved}

-- The statuses of an answer to a GET.
abbrev pub is_outcome : ℕ → Bool
is_outcome s = (s == 200) || ((s == 400) || ((s == 404) || (s == 500)))

-- What a handler does, by whether the method is GET: it does not panic and changes no table; it
-- answers 405 without a call of the database, or by one of the other statuses.
abbrev IsHandled : Bool → World → Result Response × World → Type 0
IsHandled get w (ok a, w') =
    (w'.tables ≡ w.tables)
    × ((get ≡ false → (a.status ≡ 405) × (w' ≡ w)) × (get ≡ true → is_outcome a.status ≡ true))
IsHandled get w (err e, w') = ⊥
IsHandled get w (panicked p, w') = ⊥

abbrev IsReading : World → Result Response × World → Type 0
IsReading w (ok a, w') = (w'.tables ≡ w.tables) × (is_outcome a.status ≡ true)
IsReading w (err e, w') = ⊥
IsReading w (panicked p, w') = ⊥

-- The paths that the program's own handlers answer.
abbrev pub is_api : Bytes → Bool
is_api path =
    bytes_eq path (codes "/api/project")
    || (bytes_eq path (codes "/api/files")
        || (bytes_eq path (codes "/api/features")
            || (bytes_eq path (codes "/api/jobs") || has_prefix (codes "/api/files/") path)))

-- The answer of the server: the three CORS headers come first, and no table changes. OPTIONS is
-- answered by 200 and an empty body; of other methods, a path that is not clean, but for CONNECT, by
-- a redirect 301 to the clean one, another method than GET on a path of the API by 405, all three
-- without a call of the database; a GET on such a path by 200, 400, 404 or 500; and any other path by
-- net/http, without a call.
pub record IsServed (web : Request → Response) (r : Request) (w w' : World) (a : Response)
    : Type 0 where
  pub cors :
      (rest : List Header) × (a.headers
        ≡ ("Access-Control-Allow-Origin", "*")
          ∷ ("Access-Control-Allow-Methods", "GET, POST, OPTIONS")
          ∷ ("Access-Control-Allow-Headers", "Content-Type")
          ∷ rest)
  pub unchanged : w'.tables ≡ w.tables
  pub preflight :
      str_eq r.method "OPTIONS" ≡ true → (a.status ≡ 200) × ((a.body ≡ empty) × (w' ≡ w))
  pub redirect :
      str_eq r.method "OPTIONS" ≡ false
      → str_eq r.method "CONNECT" ≡ false
      → bytes_eq (clean_path r.path) r.path ≡ false
      → (a.status ≡ 301) × ((a.body ≡ moved (clean_path r.path)) × (w' ≡ w))
  pub refused :
      str_eq r.method "OPTIONS" ≡ false
      → is_moved r ≡ false
      → is_api r.path ≡ true
      → str_eq r.method "GET" ≡ false
      → (a.status ≡ 405) × (w' ≡ w)
  pub read :
      str_eq r.method "OPTIONS" ≡ false
      → is_moved r ≡ false
      → is_api r.path ≡ true
      → str_eq r.method "GET" ≡ true
      → is_outcome a.status ≡ true
  pub elsewhere :
      str_eq r.method "OPTIONS" ≡ false
      → is_moved r ≡ false
      → is_api r.path ≡ false
      → (a.status ≡ (web r).status) × ((a.body ≡ (web r).body) × (w' ≡ w))

abbrev pub Serves : (Request → Response) → Request → World → Result Response × World → Type 0
Serves web r w (ok a, w') = IsServed web r w w' a
Serves web r w (err e, w') = ⊥
Serves web r w (panicked p, w') = ⊥
