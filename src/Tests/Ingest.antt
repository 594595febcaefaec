-- ===== src/Tests/Ingest.antt =====
-- The theorems on the ingestion, on a small database.
use prowiki.Base.{
  ◌≡◌, Bool-cases, inl, inr, ◌==◌, if◌then◌else◌, false, true, some, drop, ◌++◌, Bytes, ℕ, ◌≤◌,
  refl, String, [], ◌∷◌, none, codes, arith,
}
use prowiki.Domain.Errors.{ok}
use prowiki.Txn.{immediate}
use prowiki.Txn.Atomic.{AllOrNothing}
use prowiki.Store.Files.{get_or_create}
use prowiki.Store.Files.Stable.{IsFound, get_or_create-IsFound}
use prowiki.Ingest.{Service, run, ingest_version, find_latest}
use prowiki.Ingest.Newest.{Finds, ingested_version-Finds}
use prowiki.Db.Io.{◌>>=◌}
use prowiki.Ingest.Effect.{Ingested, ingest_version_lem}
use prowiki.Ingest.Current.{IsCurrent}
use prowiki.Ingest.Single.{run-IsCurrent}
use prowiki.Ingest.Taken.{IsKeyed, IsRead, IsTaken}
use prowiki.Ingest.Returns.{Starts}
use prowiki.Ingest.Whole.{process_file_lem}
use prowiki.Store.Versions.{junctions_of}
use prowiki.Store.Versions.Cloned.{NamesNoneTwice}
use prowiki.Domain.Entities.{FileFeature}
use prowiki.Ingest.{process_file}
use prowiki.Ingest.Walked.{run_walk, run_walk-IsTaken}
use prowiki.Scanner.{Scan, Node, Entries, ScannedFile}
use prowiki.Store.Versions.Latest.{latest_count}
use prowiki.Tests.Samples.{small_tables, small_world, one_version, calm}

abbrev service : String → Service
service hash = record {
  parse = λ lang content. ok (record { hash = hash });
  structural_hash = λ tree. ok tree.hash;
  read_file = λ path. ok (codes "package b");
  rel_path = λ path. ok path;
  project_id = 1;
}

one_latest : (file : ℕ) → latest_count file (one_version ∷ []) ≤ 1
one_latest file = ground arith

small_tables-IsCurrent : IsCurrent small_tables
small_tables-IsCurrent = record { issued = (omega arith, tt); single = one_latest }

run-IsCurrent_example :
    IsCurrent (run calm (service "h2") (codes "a.go" ∷ []) none small_world).1.tables
run-IsCurrent_example =
    run-IsCurrent calm (service "h2") (codes "a.go" ∷ []) none small_world small_tables-IsCurrent

ingest_version_lem_example :
    AllOrNothing small_world
      (immediate calm
        (ingest_version calm 1 1 (codes "package b") "h2" (record { hash = "h1"; id = 1 }))
        small_world)
      (λ _ w'.
        Ingested small_tables 1 1
          (codes "package b")
          "h2"
          (record { hash = "h1"; id = 1 })
          w'.tables)
ingest_version_lem_example =
    ingest_version_lem calm 1 1 (codes "package b") "h2" (record { hash = "h1"; id = 1 })
      small_world

ingested_version-Finds_example :
    AllOrNothing small_world
      ((find_latest calm 1 >>= λ latest.
          immediate calm (ingest_version calm 1 1 (codes "package b") "h2" latest))
        small_world)
      (λ _ w'. Finds 1 (codes "package b") "h2" w'.tables)
ingested_version-Finds_example =
    ingested_version-Finds calm 1 1 (codes "package b") "h2" small_world small_tables-IsCurrent

get_or_create-IsFound_example :
    AllOrNothing small_world
      (get_or_create calm 1 (codes "b.go") small_world)
      (λ f w'. IsFound 1 (codes "b.go") f w'.tables)
get_or_create-IsFound_example = get_or_create-IsFound calm 1 (codes "b.go") small_world

small_tables-IsKeyed : IsKeyed 1 small_tables
small_tables-IsKeyed = record {
  place = λ id. codes "a.go";
  owner = λ id. 1;
  placed = ((refl, omega arith), tt);
  owned = ((refl, omega arith, omega arith), tt);
  kept = tt;
  more = tt;
}

abbrev rooted : Service
rooted = record (service "h2") { rel_path = λ path. ok (drop 5 path) }

abbrev source_file : Bytes → Entries → Entries
source_file name =
    Entries.entry name
      (Node.file (record { size = 9; mtime = 7; content = some (codes "package b") }))

abbrev three_files : Node
three_files = Node.folder true (
    source_file (codes "a.go")
      (source_file (codes "b.go") (source_file (codes "c.go") Entries.done)))

abbrev steady : Scan
steady = record {
  compiled_file = none;
  compile_lines = λ lines rel. false;
  sha256_hex = λ c. "h";
  cancelled = λ look. none;
  root = codes "/src";
  exclude_patterns = [];
}

abbrev found_at : Bytes → ScannedFile
found_at name = record { path = codes "/src/" ++ name; size = 9; mtime = 7; hash = "h" }

reads_root_b : IsRead rooted (codes "/src/b.go") (codes "b.go") (codes "package b") "h2"
reads_root_b = record {
  tree = record { hash = "h2" };
  content_read = refl;
  parsed = refl;
  hashed = refl;
  related = refl;
}

run_walk-IsTaken_example :
    IsTaken 1
      (codes "b.go")
      (codes "package b")
      "h2"
      (run_walk calm rooted steady three_files small_world).1.tables
unfolding prowiki.Base.bytes_eq prowiki.Scanner.join_path prowiki.Scanner.Listed.listed
    prowiki.Scanner.is_excluded prowiki.Base.has_prefix run_walk run prowiki.Scanner.walk
    get_or_create immediate prowiki.Store.Versions.insert_version prowiki.Store.Versions.set_latest
    prowiki.Store.Jobs.reset_completed_for_target prowiki.Store.Jobs.enqueue_many
run_walk-IsTaken_example =
    run_walk-IsTaken calm rooted steady three_files (found_at (codes "a.go") ∷ [])
      (found_at (codes "b.go")) (found_at (codes "c.go") ∷ []) small_world (codes "b.go")
      (codes "package b") "h2" (refl, (refl, (refl, tt))) refl small_tables-IsKeyed
      small_tables-IsCurrent reads_root_b (refl, tt) refl refl

abbrev one_link : FileFeature
one_link = record { file_version_id = 1; feature_id = 1 }

one_link-NamesNoneTwice : (version : ℕ) → NamesNoneTwice (junctions_of version (one_link ∷ []))
one_link-NamesNoneTwice version = elim (Bool-cases (1 == version)) [
  | inl e ↦ rw e (tt, tt)
  | inr e ↦ rw e tt
]

small_tables-Starts : Starts 1 small_tables
small_tables-Starts = (
  refl,
  record { issued = (omega arith, tt); known = (refl, tt); single = one_link-NamesNoneTwice },
)

-- The comments of the file `a.go` changed, so that the links of its version are cloned.
abbrev commented : Service
commented = record (service "h1") { rel_path = λ path. ok (drop 5 path) }

reads_a : IsRead commented (codes "/src/a.go") (codes "a.go") (codes "package b") "h1"
reads_a = record {
  tree = record { hash = "h1" };
  content_read = refl;
  parsed = refl;
  hashed = refl;
  related = refl;
}

process_file_lem_example :
    ((process_file calm commented (codes "/src/a.go") small_world).0 ≡ ok tt)
    × IsTaken 1
        (codes "a.go")
        (codes "package b")
        "h1"
        (process_file calm commented (codes "/src/a.go") small_world).1.tables
process_file_lem_example =
    process_file_lem (λ n. n) (λ jobs. jobs) commented (codes "/src/a.go") (codes "a.go")
      (codes "package b") "h1" small_world small_tables-Starts small_tables-IsKeyed
      small_tables-IsCurrent reads_a
