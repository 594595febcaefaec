-- ===== src/Ingest/Complete.antt =====
-- internal/app/ingest/service.go: a run over many files, seen from one of them.
use prowiki.Base.{
  ◌≡◌, refl, sym, subst, false, String, List, [], ◌∷◌, ◌++◌, All, All-of_each, All-imp, Option,
  none, Bytes, bytes_eq,
}
use prowiki.Domain.Errors.{Error, Result, ok, err, panicked}
use prowiki.Db.Schema.{VersionRow}
use prowiki.Domain.Entities.{File}
use prowiki.Db.Io.{Env, World, continue}
use prowiki.Ingest.{Service, process_file, run, skipped}
use prowiki.Ingest.Current.{IsCurrent}
use prowiki.Ingest.Single.{run-Keeps}
use prowiki.Ingest.Watched.{idle, resting}
use prowiki.Ingest.Stays.{IsAway, run-Keyed}
use prowiki.Ingest.Taken.{IsKeyed, IsRead, IsTaken, IsSettled, row-IsTaken, process_file-IsSettled}

-- `filepath.Rel` fails, or gives another path than `relative`.
abbrev pub IsOther : Bytes → Result Bytes → Type 0
IsOther relative (ok other) = bytes_eq other relative ≡ false
IsOther relative (err e) = Unit
IsOther relative (panicked p) = Unit

module _ (env : Env) (s : Service) where
  pub run-append :
      (before rest : List Bytes) (end : Option Error) (w : World)
      → (run env s before none w).0 ≡ ok tt
      → run env s (before ++ rest) end w ≡ run env s rest end (run env s before none w).1
  unfolding run
  run-append [] rest end w e = refl
  run-append (p ∷ before) rest end w e =
      skip_one (λ v. run-append before rest end v) (skipped (process_file env s p w)) e
    where
      skip_one :
          ((v : World)
            → (run env s before none v).0 ≡ ok tt
            → run env s (before ++ rest) end v ≡ run env s rest end (run env s before none v).1)
          → (x : Result (Unit {0}) × World)
          → (continue x.0 (λ _. run env s before none) x.1).0 ≡ ok tt
          → continue x.0 (λ _. run env s (before ++ rest) end) x.1
            ≡ run env s rest end (continue x.0 (λ _. run env s before none) x.1).1
      skip_one later_on (ok u, v) e = later_on v e
      skip_one later_on (err b, v) e = absurd (cc)
      skip_one later_on (panicked b, v) e = absurd (cc)

  module _ (relative content : Bytes) (hash : String) where
    others-IsAway :
        (file : File) (row : VersionRow) (r : Result Bytes)
        → IsOther relative r
        → IsAway (resting s.project_id relative file row) r
    others-IsAway file row (ok other) h = h
    others-IsAway file row (err e) h = tt
    others-IsAway file row (panicked p) h = tt

    rest-IsTaken :
        (after : List Bytes) (end : Option Error) (x : Result (Unit {0}) × World)
        → All (λ p. IsOther relative (s.rel_path p)) after
        → x.0 ≡ ok tt
        → IsSettled s.project_id relative content hash x.1.tables
        → IsTaken s.project_id relative content hash
            (continue (skipped x).0 (λ _. run env s after end) (skipped x).1).1.tables
    rest-IsTaken after end (ok u, w) others e h =
        row-IsTaken s.project_id relative content hash w.tables h (run env s after end w).1.tables (
          (run-Keyed env s (resting s.project_id relative h.file h.row) after end
              (All-imp (λ p o. others-IsAway h.file h.row (s.rel_path p) o) after others)).at
            w h.stays)
    rest-IsTaken after end (err b, w) others e h = absurd (cc)
    rest-IsTaken after end (panicked p, w) others e h = absurd (cc)

-- A run over `before`, then `path`, then `after`, whichever calls fail, where each file's path and each
-- version's file are determined by their ids, each id was issued and each file has at most one latest
-- version: if the run over `before` ended without a panic, `ProcessFile` then reports no error for
-- `path`, and no path of `after` has the same relative path, then after the whole run the file of the
-- path is found and its latest version has the content that was read and its structural hash.
pub run-IsTaken :
    (env : Env) (s : Service) (before : List Bytes) (path : Bytes) (after : List Bytes)
    (end : Option Error) (w : World) (relative content : Bytes) (hash : String)
    → IsKeyed s.project_id w.tables
    → IsCurrent w.tables
    → IsRead s path relative content hash
    → All (λ p. IsOther relative (s.rel_path p)) after
    → (run env s before none w).0 ≡ ok tt
    → (process_file env s path (run env s before none w).1).0 ≡ ok tt
    → IsTaken s.project_id relative content hash (run env s (before ++ path ∷ after) end w).1.tables
unfolding run
run-IsTaken env s before path after end w relative content hash k c read others calm taken =
    let v = (run env s before none w).1 in
    let split = run-append env s before (path ∷ after) end w calm in
    let idle_away = All-of_each (λ p. idle-IsAway (s.rel_path p)) before in
    subst (λ (x : Result (Unit {0}) × World). IsTaken s.project_id relative content hash x.1.tables)
      (sym split)
      (rest-IsTaken env s relative content hash after end (process_file env s path v) others taken (
        process_file-IsSettled env s path relative content hash read v
          ((run-Keeps env s before none).at w c)
          ((run-Keyed env s (idle s.project_id) before none idle_away).at w k) taken))
  where
    idle-IsAway : (r : Result Bytes) → IsAway (idle s.project_id) r
    idle-IsAway (ok other) = tt
    idle-IsAway (err e) = tt
    idle-IsAway (panicked p) = tt
