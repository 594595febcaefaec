-- ===== src/Tests/Scanner.antt =====
-- A small directory: an ignored folder, a large file and two that are sent.
use prowiki.Base.{
  ℕ, ◌≡◌, refl, Bool, true, false, ◌||◌, String, List, [], ◌∷◌, Option, some, none, Bytes, bytes_eq,
  codes, length, ◌==◌, if◌then◌else◌,
}
use prowiki.Domain.Errors.{Error}
use prowiki.Scanner.{FileInfo, Node, Entries, Scan, walk, ScannedFile}
use prowiki.Scanner.Listed.{listed}
use prowiki.Scanner.Walked.{walk-Told, Told}

abbrev text_file : ℕ → FileInfo
text_file size = record { size = size; mtime = 7; content = some (codes "x") }

abbrev source_tree : Node
source_tree = Node.folder true (
    Entries.entry (codes ".git")
      (Node.folder true (Entries.entry (codes "HEAD") (Node.file (text_file 4)) Entries.done))
      (Entries.entry (codes "a.go") (Node.file (text_file 10)) (
        Entries.entry (codes "big") (Node.file (text_file 1048577)) (
          Entries.entry (codes "lib")
            (Node.folder true
              (Entries.entry (codes "b.go") (Node.file (text_file 1048576)) Entries.done))
            (Entries.entry (codes "locked") (Node.folder false Entries.done) (
              Entries.entry (codes "vendor")
                (Node.folder true
                  (Entries.entry (codes "c.go") (Node.file (text_file 4)) Entries.done))
                Entries.done))))))

abbrev among : List Bytes → Bytes → Bool
among [] rel = false
among (l ∷ ls) rel = bytes_eq l rel || among ls rel

-- No file `.gitignore`; the context is cancelled at the given look.
abbrev scan : ℕ → Scan
scan n = record {
  compiled_file = none;
  compile_lines = among;
  sha256_hex = λ c. "h";
  cancelled = λ look. if look == n then some (Error.foreign "context canceled") else none;
  root = codes "/src";
  exclude_patterns = [];
}

two_files : List ScannedFile
two_files =
    record { path = codes "/src/a.go"; size = 10; mtime = 7; hash = "h" }
    ∷ record { path = codes "/src/lib/b.go"; size = 1048576; mtime = 7; hash = "h" }
    ∷ []

whole_walk : walk (scan 99) source_tree ≡ (two_files, none)
unfolding walk prowiki.Scanner.walk_node prowiki.Scanner.join_path prowiki.Scanner.is_excluded
    bytes_eq prowiki.Base.has_prefix prowiki.Base.contains prowiki.Scanner.visit_file
    prowiki.Scanner.visit_folder two_files
whole_walk = refl

walk-Told_example : Told (scan 4) (listed (scan 4) source_tree) (walk (scan 4) source_tree)
unfolding prowiki.Scanner.join_path bytes_eq
walk-Told_example =
    walk-Told (scan 4) source_tree (refl, (refl, (refl, (refl, (refl, (refl, tt))))))
