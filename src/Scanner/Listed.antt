-- ===== src/Scanner/Listed.antt =====
-- internal/scanner/walker.go: the walk against a description by the list of all files of the tree.
use prowiki.Base.{
  ◌≡◌, refl, ap, ◌∙◌, Bool, true, false, ◌&&◌, not, List, [], ◌∷◌, ◌++◌, map, leb, arith,
  Bool-cases, inl, inr, exists_where, select, Bytes, codes,
}
use prowiki.Scanner.{
  FileInfo, Node, Entries, ScannedFile, Scan, is_excluded, max_size, join_path, scanned,
}

-- A file of the tree, with the paths of the directories on the way to it. Those that cannot be read
-- have no files.
pub record Found : Type 0 where
  pub rel : Bytes
  pub ancestors : List Bytes
  pub info : FileInfo

unfoldable mutual
  pub files_of : List Bytes → Bytes → Node → List Found
  files_of above rel Node.missing = []
  files_of above rel (Node.file info) = record { rel = rel; ancestors = above; info = info } ∷ []
  files_of above rel (Node.folder false es) = []
  files_of above rel (Node.folder true es) = files_in (rel ∷ above) rel es

  pub files_in : List Bytes → Bytes → Entries → List Found
  files_in above rel Entries.done = []
  files_in above rel (Entries.entry name n es) =
      files_of above (join_path rel name) n ++ files_in above rel es

-- All files below the root; a root that is no directory has none.
unfoldable pub all_files : Node → List Found
unfolding files_of
all_files Node.missing = []
all_files (Node.file info) = []
all_files (Node.folder false es) = []
all_files (Node.folder true es) = files_in [] (codes ".") es

-- Neither the file nor a directory on the way to it is left out, and the file is not too large.
abbrev pub is_kept : Scan → Found → Bool
is_kept w f = not (exists_where (is_excluded w) (f.rel ∷ f.ancestors)) && leb f.info.size max_size

abbrev pub kept : Scan → List Found → List ScannedFile
kept w fs = map (λ (f : Found). scanned w f.rel f.info) (select (is_kept w) fs)

-- The files that a walk of the tree should send.
unfoldable pub listed : Scan → Node → List ScannedFile
unfolding all_files
listed w root = kept w (all_files root)

pub kept-append : (w : Scan) (xs ys : List Found) → kept w (xs ++ ys) ≡ kept w xs ++ kept w ys
kept-append w [] ys = refl
kept-append w (x ∷ xs) ys = elim (Bool-cases (is_kept w x)) [
  | inl e ↦ rw e (ap (λ l. scanned w x.rel x.info ∷ l) (kept-append w xs ys))
  | inr e ↦ rw e (kept-append w xs ys)
]

-- Below a directory that is left out nothing is kept.
mutual
  unfolding files_of

  none_kept-node :
      (w : Scan) (above : List Bytes) (rel : Bytes) (n : Node)
      → exists_where (is_excluded w) above ≡ true
      → kept w (files_of above rel n) ≡ []
  none_kept-node w above rel Node.missing h = refl
  none_kept-node w above rel (Node.file info) h = ground arith
  none_kept-node w above rel (Node.folder false es) h = refl
  none_kept-node w above rel (Node.folder true es) h =
      none_kept-entries w (rel ∷ above) rel es (ground arith)

  pub none_kept-entries :
      (w : Scan) (above : List Bytes) (rel : Bytes) (es : Entries)
      → exists_where (is_excluded w) above ≡ true
      → kept w (files_in above rel es) ≡ []
  none_kept-entries w above rel Entries.done h = refl
  none_kept-entries w above rel (Entries.entry name n es) h =
      kept-append w (files_of above (join_path rel name) n) (files_in above rel es)
      ∙ rw (none_kept-node w above (join_path rel name) n h) (none_kept-entries w above rel es h)
