-- ===== src/Api/FileAnswer.antt =====
-- internal/api/handlers.go, `handleGetFile`: the answer for the id of a file.
use prowiki.Base.{
  ℕ, ◌<◌, ◌≡◌, refl, true, false, List, ◌∷◌, bytes_eq_iff, ◌++◌, Option, none, some, Bytes,
  bytes_eq, codes, has_prefix, first_where, Option-cases, inl, inr,
}
use prowiki.Domain.Errors.{Result, ok, err, panicked}
use prowiki.Domain.Entities.{Project}
use prowiki.Db.Schema.{VersionRow}
use prowiki.Db.Io.{Env, World, statement}
use prowiki.Store.Versions.{is_latest_of, latest_query, latest_by_file_id}
use prowiki.Api.Clean.{clean_path}
use prowiki.Api.Scan.{limit}
use prowiki.Api.Scan.Printed.{decimal_text, IsAfter, scan_number-decimal}
use prowiki.Api.{
  file, text, Body, Header, Response, Request, handle_get_file, latest_version, matched, route,
  cors_middleware, serve, is_moved,
}

-- GET of `/api/files/` with the id in decimal form and a rest.
abbrev pub file_request : ℕ → Bytes → Request
file_request n rest = record {
  method = "GET";
  path = codes "/api/files/" ++ (decimal_text n ++ rest);
}

-- The answer without a version of the file, and with one.
abbrev pub file_answer : Option VersionRow → ℕ × Header × Body
file_answer none =
    (404, ("Content-Type", "text/plain; charset=utf-8"), text "File version not found")
file_answer (some v) = (200, ("Content-Type", "application/json"), file "")

-- The status, the first four headers and the body of an answer.
abbrev pub IsAnsweredBy : ℕ × Header × Body → Result Response → Type 0
IsAnsweredBy (status, content_type, body) (ok a) =
    (a.status ≡ status)
    × (a.body ≡ body)
    × ((rest : List Header) × (a.headers
          ≡ ("Access-Control-Allow-Origin", "*")
            ∷ ("Access-Control-Allow-Methods", "GET, POST, OPTIONS")
            ∷ ("Access-Control-Allow-Headers", "Content-Type")
            ∷ content_type
            ∷ rest))
IsAnsweredBy x (err e) = ⊥
IsAnsweredBy x (panicked q) = ⊥

-- The answer to a GET of the path of a file id below 2 ^ 63 in decimal form, with whatever stands
-- behind it that does not go on with a digit, where the path is clean and nothing in it is escaped and
-- no call of the database fails: 200 if the file has a latest version and 404 if not, of whichever
-- project the file is, and always with an empty summary.
pub get_file_lem :
    (env : Env) (p : Project) (web : Request → Response) (n : ℕ) (rest : Bytes) (w : World)
    → n < limit
    → IsAfter rest
    → clean_path (file_request n rest).path ≡ (file_request n rest).path
    → env.fault w.tick ≡ none
    → IsAnsweredBy
        (file_answer (first_where (is_latest_of n) w.tables.versions.rows))
        (serve env p web (file_request n rest) w).0
unfolding serve cors_middleware route matched bytes_eq has_prefix handle_get_file latest_version
    latest_by_file_id latest_query statement
get_file_lem env p web n rest w h after clean calm =
    let path = (file_request n rest).path in
    let same : bytes_eq (clean_path path) path ≡ true =
      (bytes_eq_iff (clean_path path) path).1 clean in
    let stays : is_moved (file_request n rest) ≡ false = rw same refl in
    elim (Option-cases (first_where (is_latest_of n) w.tables.versions.rows)) [
      | inl e ↦
          rw (stays, scan_number-decimal n rest h after, calm, e, latest_query)
            (refl, refl, (_, refl))
      | inr (v, e) ↦
          rw (stays, scan_number-decimal n rest h after, calm, e, latest_query)
            (refl, refl, (_, refl))
    ]
