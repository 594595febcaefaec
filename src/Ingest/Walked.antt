-- ===== src/Ingest/Walked.antt =====
-- internal/app/ingest/service.go, `Run` over the walker of internal/scanner/walker.go.
use prowiki.Base.{
  ◌∙◌, ◌≡◌, refl, sym, ap, subst, String, List, [], ◌∷◌, ◌++◌, map, All, All-map, Option, none,
  some, Bytes,
}
use prowiki.Domain.Errors.{Error, Result, ok, err, panicked}
use prowiki.Db.Io.{Env, World, Io, continue}
use prowiki.Scanner.{Scan, Node, ScannedFile, walk}
use prowiki.Scanner.Listed.{listed}
use prowiki.Scanner.Walked.{HasNames, Told, walk-Told}
use prowiki.Ingest.{Service, process_file, run, skipped}
use prowiki.Ingest.Current.{IsCurrent}
use prowiki.Ingest.Taken.{IsKeyed, IsRead, IsTaken}
use prowiki.Ingest.Complete.{IsOther, run-IsTaken}

abbrev pub paths_of : List ScannedFile → List Bytes
paths_of = map (λ (f : ScannedFile). f.path)

-- `domain.WalkOptions{}`
abbrev pub no_options : Scan → Scan
no_options scan = record scan { exclude_patterns = [] }

-- `Run` with the walker: the files come in the order in which the walker sends them, and its error
-- is read after the last of them.
unfoldable pub run_walk : Env → Service → Scan → Node → Io (Unit {0})
run_walk env s scan root =
    let (sent, end) = walk (no_options scan) root in run env s (paths_of sent) end

module _ (env : Env) (s : Service) where
  run_stopped :
      (paths : List Bytes) (e : Error) (w : World) → (run env s paths (some e) w).0 ≡ ok tt → ⊥
  unfolding run
  run_stopped [] e w h = absurd (cc)
  run_stopped (p ∷ paths) e w h =
      after (λ v k. run_stopped paths e v k) (skipped (process_file env s p w)) h
    where
      after :
          ((v : World) → (run env s paths (some e) v).0 ≡ ok tt → ⊥)
          → (x : Result (Unit {0}) × World)
          → (continue x.0 (λ _. run env s paths (some e)) x.1).0 ≡ ok tt
          → ⊥
      after rest (ok u, v) h = rest v h
      after rest (err b, v) h = absurd (cc)
      after rest (panicked b, v) h = absurd (cc)

  run_prefix :
      (before rest : List Bytes) (end : Option Error) (w : World)
      → (run env s (before ++ rest) end w).0 ≡ ok tt
      → (run env s before none w).0 ≡ ok tt
  unfolding run
  run_prefix [] rest end w h = refl
  run_prefix (p ∷ before) rest end w h =
      after (λ v k. run_prefix before rest end v k) (skipped (process_file env s p w)) h
    where
      after :
          ((v : World)
            → (run env s (before ++ rest) end v).0 ≡ ok tt
            → (run env s before none v).0 ≡ ok tt)
          → (x : Result (Unit {0}) × World)
          → (continue x.0 (λ _. run env s (before ++ rest) end) x.1).0 ≡ ok tt
          → (continue x.0 (λ _. run env s before none) x.1).0 ≡ ok tt
      after later_on (ok u, v) h = later_on v h
      after later_on (err b, v) h = absurd (cc)
      after later_on (panicked b, v) h = absurd (cc)

paths_of-append :
    (before : List ScannedFile) (f : ScannedFile) (after : List ScannedFile)
    → paths_of (before ++ f ∷ after) ≡ paths_of before ++ f.path ∷ paths_of after
paths_of-append [] f after = refl
paths_of-append (g ∷ before) f after = ap (λ l. g.path ∷ l) (paths_of-append before f after)

-- A run of the ingestion over a tree of directories that returns nil, whichever calls of the database
-- fail: each file that the walk should send, which can be read and parsed and for which `ProcessFile`
-- reports no error, is there afterwards, with a latest version that has its content and its structural
-- hash, if no later file has its relative path. Before, each file's path and each version's file were
-- determined by their ids, each id was issued and each file had at most one latest version; and no
-- directory lists an entry named ".".
pub run_walk-IsTaken :
    (env : Env) (s : Service) (scan : Scan) (root : Node) (before : List ScannedFile)
    (f : ScannedFile) (after : List ScannedFile) (w : World) (relative content : Bytes)
    (hash : String)
    → HasNames root
    → listed (no_options scan) root ≡ before ++ f ∷ after
    → IsKeyed s.project_id w.tables
    → IsCurrent w.tables
    → IsRead s f.path relative content hash
    → All (λ (g : ScannedFile). IsOther relative (s.rel_path g.path)) after
    → (run_walk env s scan root w).0 ≡ ok tt
    → (process_file env s f.path (run env s (paths_of before) none w).1).0 ≡ ok tt
    → IsTaken s.project_id relative content hash (run_walk env s scan root w).1.tables
unfolding run_walk
run_walk-IsTaken env s scan root before f after w relative content hash named split k c read others
      nil taken =
    told (walk (no_options scan) root) (walk-Told (no_options scan) root named) nil
  where
    told :
        (x : List ScannedFile × Option Error)
        → Told (no_options scan) (listed (no_options scan) root) x
        → (run env s (paths_of x.0) x.1 w).0 ≡ ok tt
        → IsTaken s.project_id relative content hash (run env s (paths_of x.0) x.1 w).1.tables
    told (sent, some e) h done = absurd (run_stopped env s (paths_of sent) e w done)
    told (sent, none) h done =
        let order = ap paths_of (h ∙ split) ∙ paths_of-append before f after in
        let whole = subst (λ ps. (run env s ps none w).0 ≡ ok tt) order done in
        subst (λ ps. IsTaken s.project_id relative content hash (run env s ps none w).1.tables)
          (sym order)
          (run-IsTaken env s (paths_of before) f.path (paths_of after) none w relative content hash
            k c read
            (All-map (λ p. IsOther relative (s.rel_path p)) (λ (g : ScannedFile). g.path) after
              others)
            (run_prefix env s (paths_of before) (f.path ∷ paths_of after) none w whole) taken)
