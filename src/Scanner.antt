-- ===== src/Scanner.antt =====
-- internal/scanner/walker.go: the files below a project's root that an ingestion reads.
-- `filepath.Walk` of Go's standard library is written out.
pub mod Listed
pub mod Walked
use prowiki.Base.{
  ℕ, ◌+◌, ◌*◌, Bool, true, false, ◌||◌, String, List, [], ◌∷◌, ◌++◌, ltb, Option, none, some,
  if◌then◌else◌, exists_where, Bytes, bytes_eq, codes, has_prefix, contains,
}
use prowiki.Domain.Errors.{Error}

-- What the operating system tells of a file. `content` is what can be read of it, if it opens.
pub record FileInfo : Type 0 where
  pub size : ℕ
  pub mtime : ℕ
  pub content : Option Bytes

-- A tree of directories: an entry that `os.Lstat` fails for, a file, or a directory with whether
-- its names can be read, and its entries in the order of their names.
mutual
  pub data Node : Type 0 where
    missing : Node
    file : FileInfo → Node
    folder : Bool → Entries → Node

  pub data Entries : Type 0 where
    done : Entries
    entry : Bytes → Node → Entries → Entries

pub record ScannedFile : Type 0 where
  pub path : Bytes
  pub size : ℕ
  pub mtime : ℕ
  pub hash : String

-- What the walk is given: the matcher that go-gitignore compiles from the file `.gitignore`, if it
-- does, or from lines; sha256 in hexadecimal; `ctx.Err()` at each look at the context; the root.
pub record Scan : Type 0 where
  pub compiled_file : Option (Bytes → Bool)
  pub compile_lines : List Bytes → Bytes → Bool
  pub sha256_hex : Bytes → String
  pub cancelled : ℕ → Option Error
  pub root : Bytes
  pub exclude_patterns : List Bytes

abbrev default_lines : List Bytes
default_lines = codes ".git" ∷ codes "node_modules" ∷ codes "vendor" ∷ []

abbrev or_default : Scan → Option (Bytes → Bool) → Bytes → Bool
or_default w none = w.compile_lines default_lines
or_default w (some m) = m

-- `ignorer.MatchesPath`
abbrev pub is_ignored : Scan → Bytes → Bool
is_ignored w = or_default w w.compiled_file

abbrev pub is_git : Bytes → Bool
is_git rel = bytes_eq rel (codes ".git") || has_prefix (codes ".git/") rel

-- Whether one of the three tests on the relative path leaves an entry out.
unfoldable pub is_excluded : Scan → Bytes → Bool
is_excluded w rel =
    is_git rel
    || (is_ignored w rel || exists_where (λ (p : Bytes). contains p rel) w.exclude_patterns)

abbrev pub max_size : ℕ
max_size = 1024 * 1024

-- `filepath.Join`, of a clean path and a name.
unfoldable pub join_path : Bytes → Bytes → Bytes
join_path dir name = if bytes_eq dir (codes ".") then name else dir ++ codes "/" ++ name

-- What has happened so far: the files that were sent, and how often the context was looked at.
pub record Progress : Type 0 where
  pub sent : List ScannedFile
  pub looks : ℕ

-- What the callback, or a walk, returns: nil, `filepath.SkipDir`, or another error.
pub data Verdict : Type 0 where
  proceed : Verdict
  skip_dir : Verdict
  stop : Error → Verdict

abbrev hash_of : Scan → Option Bytes → String
hash_of w none = ""
hash_of w (some content) = w.sha256_hex content

-- The path of an entry below the root.
abbrev full_path : Scan → Bytes → Bytes
full_path w rel = join_path w.root rel

abbrev pub scanned : Scan → Bytes → FileInfo → ScannedFile
scanned w rel info = record {
  path = full_path w rel;
  size = info.size;
  mtime = info.mtime;
  hash = hash_of w info.content;
}

abbrev pub look : Progress → Progress
look s = record s { looks = s.looks + 1 }

-- The `select` at the end of the callback.
abbrev pub send_or_stop : Option Error → ScannedFile → Progress → Verdict × Progress
send_or_stop (some e) f s = (stop e, s)
send_or_stop none f s = (proceed, record s { sent = s.sent ++ f ∷ [] })

abbrev pub checked : Option Error → Progress → (Progress → Verdict × Progress) → Verdict × Progress
checked (some e) s body = (stop e, s)
checked none s body = body s

-- The callback for a file that could be described.
unfoldable pub visit_file : Scan → Bytes → FileInfo → Progress → Verdict × Progress
visit_file w rel info s = checked (w.cancelled s.looks) (look s) λ s'.
    if bytes_eq rel (codes ".")
    then (proceed, s')
    else if is_excluded w rel
    then (proceed, s')
    else if ltb max_size info.size
    then (proceed, s')
    else send_or_stop (w.cancelled s'.looks) (scanned w rel info) (look s')

-- The callback for a directory whose names could be read.
unfoldable pub visit_folder : Scan → Bytes → Progress → Verdict × Progress
visit_folder w rel s = checked (w.cancelled s.looks) (look s) λ s'.
    if bytes_eq rel (codes ".")
    then (proceed, s')
    else if is_excluded w rel
    then (skip_dir, s')
    else (proceed, s')

abbrev pub is_folder : Node → Bool
is_folder Node.missing = false
is_folder (Node.file info) = false
is_folder (Node.folder r es) = true

-- The loop of `walk` after an entry: it goes on after nil, and after the SkipDir of a directory.
abbrev pub after_entry :
    Bool → Verdict × Progress → (Progress → Verdict × Progress) → Verdict × Progress
after_entry dir (proceed, s) rest = rest s
after_entry true (skip_dir, s) rest = rest s
after_entry false (skip_dir, s) rest = (skip_dir, s)
after_entry dir (stop e, s) rest = (stop e, s)

abbrev pub enter : Verdict × Progress → (Progress → Verdict × Progress) → Verdict × Progress
enter (proceed, s) rest = rest s
enter (skip_dir, s) rest = (skip_dir, s)
enter (stop e, s) rest = (stop e, s)

-- `walk` of path/filepath. The callback answers nil for an entry without information, and SkipDir
-- for a directory that cannot be read, before it looks at the context.
unfoldable mutual
  unfolding visit_file visit_folder

  pub walk_node : Scan → Bytes → Node → Progress → Verdict × Progress
  walk_node w rel Node.missing s = (proceed, s)
  walk_node w rel (Node.file info) s = visit_file w rel info s
  walk_node w rel (Node.folder false es) s = (skip_dir, s)
  walk_node w rel (Node.folder true es) s = enter (visit_folder w rel s) (walk_entries w rel es)

  pub walk_entries : Scan → Bytes → Entries → Progress → Verdict × Progress
  walk_entries w rel Entries.done s = (proceed, s)
  walk_entries w rel (Entries.entry name n es) s =
      after_entry (is_folder n) (walk_node w (join_path rel name) n s) (walk_entries w rel es)

abbrev pub ended : Verdict → Option Error
ended proceed = none
ended skip_dir = none
ended (stop e) = some e

-- `Walk`: the files that it sends, and the error that it sends last, if there is one.
unfoldable pub walk : Scan → Node → List ScannedFile × Option Error
unfolding walk_node
walk w root =
    let (v, s) = walk_node w (codes ".") root (record { sent = []; looks = 0 }) in (s.sent, ended v)
