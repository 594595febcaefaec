-- ===== src/Scanner/Walked.antt =====
-- internal/scanner/walker.go: the walk sends the listed files, in their order.
use prowiki.Base.{
  ℕ, ◌+◌, ◌≡◌, refl, sym, ap, subst, ◌∙◌, Bool, true, false, List, [], ◌∷◌, ◌++◌, ltb, leb, arith,
  Option, none, some, Option-cases, Bool-cases, inl, inr, exists_where, Bytes, bytes_eq, codes,
}
use mathlib.Core.List.{append-nil, append_assoc}
use prowiki.Domain.Errors.{Error}
use prowiki.Scanner.{
  FileInfo, Node, Entries, ScannedFile, Scan, is_excluded, max_size, join_path, Progress, Verdict,
  proceed, skip_dir, stop, visit_file, visit_folder, walk_node, walk_entries, walk, enter,
  after_entry, is_folder, look, ended,
}
use prowiki.Scanner.Listed.{
  files_of, files_in, all_files, kept, kept-append, none_kept-entries, listed,
}

-- The walk stopped with the error of the context: `sent` is `before` and a part of `fs` from its
-- start.
pub record HasStopped (w : Scan) (e : Error) (before fs sent : List ScannedFile) : Type 0 where
  pub at : ℕ
  pub cause : w.cancelled at ≡ some e
  pub front : List ScannedFile
  pub rest : List ScannedFile
  pub split : fs ≡ front ++ rest
  pub told : sent ≡ before ++ front

-- After a walk that should send `fs`: all of it, or a part where it stops. Only a directory is
-- answered by SkipDir.
abbrev After : Scan → Bool → List ScannedFile → List ScannedFile → Verdict × Progress → Type 0
After w dir before fs (proceed, s) = s.sent ≡ before ++ fs
After w dir before fs (skip_dir, s) = (dir ≡ true) × (s.sent ≡ before ++ fs)
After w dir before fs (stop e, s) = HasStopped w e before fs s.sent

nothing_sent :
    (w : Scan) (e : Error) (n : ℕ) (before fs : List ScannedFile)
    → w.cancelled n ≡ some e
    → HasStopped w e before fs before
nothing_sent w e n before fs c = record {
  at = n;
  cause = c;
  front = [];
  rest = fs;
  split = refl;
  told = sym (append-nil before);
}

stopped_early :
    {w : Scan} {e : Error} {before fs sent : List ScannedFile} (gs : List ScannedFile)
    → HasStopped w e before fs sent
    → HasStopped w e before (fs ++ gs) sent
stopped_early {before} {fs} gs p = record {
  at = p.at;
  cause = p.cause;
  front = p.front;
  rest = p.rest ++ gs;
  split = ap (λ l. l ++ gs) p.split ∙ append_assoc p.front p.rest gs;
  told = p.told;
}

stopped_late :
    {w : Scan} {e : Error} (before fs gs : List ScannedFile) {mid sent : List ScannedFile}
    → mid ≡ before ++ fs
    → HasStopped w e mid gs sent
    → HasStopped w e before (fs ++ gs) sent
stopped_late before fs gs eq p = record {
  at = p.at;
  cause = p.cause;
  front = fs ++ p.front;
  rest = p.rest;
  split = ap (λ l. fs ++ l) p.split ∙ sym (append_assoc fs p.front p.rest);
  told = p.told ∙ ap (λ l. l ++ p.front) eq ∙ append_assoc before fs p.front;
}

went_on :
    (w : Scan) (dir : Bool) (before fs gs mid : List ScannedFile) (x : Verdict × Progress)
    → mid ≡ before ++ fs
    → After w dir mid gs x
    → After w dir before (fs ++ gs) x
went_on w dir before fs gs mid (proceed, s) e h =
    h ∙ ap (λ l. l ++ gs) e ∙ append_assoc before fs gs
went_on w dir before fs gs mid (skip_dir, s) e h =
    (h.0, h.1 ∙ ap (λ l. l ++ gs) e ∙ append_assoc before fs gs)
went_on w dir before fs gs mid (stop err, s) e h = stopped_late before fs gs e h

after_entry-After :
    (w : Scan) (dir : Bool) (before fs gs : List ScannedFile) (x : Verdict × Progress)
    (k : Progress → Verdict × Progress)
    → After w dir before fs x
    → ((s : Progress) → After w false s.sent gs (k s))
    → After w false before (fs ++ gs) (after_entry dir x k)
after_entry-After w dir before fs gs (proceed, s) k h hk =
    went_on w false before fs gs s.sent (k s) h (hk s)
after_entry-After w true before fs gs (skip_dir, s) k h hk =
    went_on w false before fs gs s.sent (k s) h.1 (hk s)
after_entry-After w false before fs gs (skip_dir, s) k h hk = absurd (cc)
after_entry-After w dir before fs gs (stop e, s) k h hk = stopped_early gs h

-- No entry has the relative path of the root, whose name no directory lists.
abbrev pub AreApart : Bytes → Entries → Type 0
AreApart rel Entries.done = Unit
AreApart rel (Entries.entry name n es) =
    (bytes_eq (join_path rel name) (codes ".") ≡ false) × AreApart rel es

not_root-append : (dir name : Bytes) → bytes_eq (dir ++ codes "/" ++ name) (codes ".") ≡ false
unfolding bytes_eq
not_root-append [] name = ground arith
not_root-append (c ∷ []) name = ground arith
not_root-append (c ∷ d ∷ dir) name = ground arith

not_root-AreApart :
    (rel : Bytes) (es : Entries) → bytes_eq rel (codes ".") ≡ false → AreApart rel es
unfolding join_path
not_root-AreApart rel Entries.done h = tt
not_root-AreApart rel (Entries.entry name n es) h =
    (rw h (not_root-append rel name), not_root-AreApart rel es h)

visit_file-After :
    (w : Scan) (above : List Bytes) (rel : Bytes) (info : FileInfo) (s : Progress)
    → bytes_eq rel (codes ".") ≡ false
    → exists_where (is_excluded w) above ≡ false
    → After w false s.sent (kept w (files_of above rel (Node.file info))) (visit_file w rel info s)
unfolding visit_file files_of
visit_file-After w above rel info s apart clear = elim (Option-cases (w.cancelled s.looks)) [
  | inr (e, c) ↦ rw c (nothing_sent w e s.looks s.sent _ c)
  | inl go ↦
      rw (go, apart)
        elim (Bool-cases (is_excluded w rel)) [
          | inl out ↦ rw (out) (sym (append-nil s.sent))
          | inr inn ↦ elim (Bool-cases (ltb max_size info.size)) [
            | inl big ↦
                let large : leb info.size max_size ≡ false = ground arith in
                rw (inn, big, clear, large) (sym (append-nil s.sent))
            | inr small ↦
                let fits : leb info.size max_size ≡ true = ground arith in
                elim (Option-cases (w.cancelled (s.looks + 1))) [
                  | inr (e, c) ↦
                      rw (inn, small, clear, fits, c) (nothing_sent w e (s.looks + 1) s.sent _ c)
                  | inl ready ↦ rw (inn, small, clear, fits, ready) refl
                ]
          ]
        ]
]

-- The callback's answer for a directory that can be read.
data Entered (w : Scan) (rel : Bytes) (s : Progress) (x : Verdict × Progress) : Type 0 where
  inside :
      (s' : Progress)
      → x ≡ (proceed, s')
      → s'.sent ≡ s.sent
      → is_excluded w rel ≡ false
      → Entered w rel s x
  outside :
      (s' : Progress)
      → x ≡ (skip_dir, s')
      → s'.sent ≡ s.sent
      → is_excluded w rel ≡ true
      → Entered w rel s x
  halted :
      (e : Error) (s' : Progress)
      → w.cancelled s.looks ≡ some e
      → x ≡ (stop e, s')
      → s'.sent ≡ s.sent
      → Entered w rel s x

visit_folder-Entered :
    (w : Scan) (rel : Bytes) (s : Progress)
    → bytes_eq rel (codes ".") ≡ false
    → Entered w rel s (visit_folder w rel s)
unfolding visit_folder
visit_folder-Entered w rel s apart = elim (Option-cases (w.cancelled s.looks)) [
  | inr (e, c) ↦ halted e (look s) c (rw c refl) refl
  | inl go ↦ elim (Bool-cases (is_excluded w rel)) [
    | inl out ↦ outside (look s) (rw (go, apart, out) refl) refl out
    | inr inn ↦ inside (look s) (rw (go, apart, inn) refl) refl inn
  ]
]

of_entries :
    (w : Scan) (before fs : List ScannedFile) (x : Verdict × Progress)
    → After w false before fs x
    → After w true before fs x
of_entries w before fs (proceed, s) h = h
of_entries w before fs (skip_dir, s) h = absurd (cc)
of_entries w before fs (stop e, s) h = h

-- A directory's entries, after its own call.
enter-After :
    (w : Scan) (above : List Bytes) (rel : Bytes) (es : Entries) (s : Progress)
    (x : Verdict × Progress)
    → Entered w rel s x
    → exists_where (is_excluded w) above ≡ false
    → ((s' : Progress)
        → exists_where (is_excluded w) (rel ∷ above) ≡ false
        → After w false s'.sent (kept w (files_in (rel ∷ above) rel es)) (walk_entries w rel es s'))
    → After w true s.sent (kept w (files_in (rel ∷ above) rel es)) (enter x (walk_entries w rel es))
enter-After w above rel es s x (inside s' e told inn) clear k =
    let here : exists_where (is_excluded w) (rel ∷ above) ≡ false = rw (inn) clear in
    rw e (
      subst
        (λ (l : List ScannedFile).
          After w true l (kept w (files_in (rel ∷ above) rel es)) (walk_entries w rel es s'))
        told (of_entries w s'.sent (kept w (files_in (rel ∷ above) rel es)) _ (k s' here)))
enter-After w above rel es s x (outside s' e told out) clear k =
    let empty : kept w (files_in (rel ∷ above) rel es) ≡ [] =
      none_kept-entries w (rel ∷ above) rel es (rw (out) refl) in
    rw (e, empty) ((refl, told ∙ sym (append-nil s.sent)))
enter-After w above rel es s x (halted err s' c e told) clear k =
    rw (e, told) (nothing_sent w err s.looks s.sent _ c)

mutual
  unfolding walk_node files_of

  walk_node-After :
      (w : Scan) (above : List Bytes) (rel : Bytes) (n : Node) (s : Progress)
      → bytes_eq rel (codes ".") ≡ false
      → exists_where (is_excluded w) above ≡ false
      → After w (is_folder n) s.sent (kept w (files_of above rel n)) (walk_node w rel n s)
  walk_node-After w above rel Node.missing s apart clear = sym (append-nil s.sent)
  walk_node-After w above rel (Node.file info) s apart clear =
      visit_file-After w above rel info s apart clear
  walk_node-After w above rel (Node.folder false es) s apart clear = (refl, sym (append-nil s.sent))
  walk_node-After w above rel (Node.folder true es) s apart clear =
      enter-After w above rel es s (visit_folder w rel s) (visit_folder-Entered w rel s apart) clear
        λ s' clear'.
          walk_entries-After w (rel ∷ above) rel es s' (not_root-AreApart rel es apart) clear'

  walk_entries-After :
      (w : Scan) (above : List Bytes) (rel : Bytes) (es : Entries) (s : Progress)
      → AreApart rel es
      → exists_where (is_excluded w) above ≡ false
      → After w false s.sent (kept w (files_in above rel es)) (walk_entries w rel es s)
  walk_entries-After w above rel Entries.done s apart clear = sym (append-nil s.sent)
  walk_entries-After w above rel (Entries.entry name n es) s apart clear =
      rw (kept-append w (files_of above (join_path rel name) n) (files_in above rel es)) (
        after_entry-After w (is_folder n) s.sent (kept w (files_of above (join_path rel name) n))
          (kept w (files_in above rel es)) (walk_node w (join_path rel name) n s)
          (walk_entries w rel es) (walk_node-After w above (join_path rel name) n s apart.0 clear)
          (λ s'. walk_entries-After w above rel es s' apart.1 clear))

-- No entry of the root is named like the root, as no directory lists itself.
abbrev pub HasNames : Node → Type 0
HasNames Node.missing = Unit
HasNames (Node.file info) = Unit
HasNames (Node.folder r es) = AreApart (codes ".") es

-- What a reader of both channels sees.
abbrev pub Told : Scan → List ScannedFile → List ScannedFile × Option Error → Type 0
Told w fs (sent, none) = sent ≡ fs
Told w fs (sent, some e) = HasStopped w e [] fs sent

walked-Told :
    (w : Scan) (fs : List ScannedFile) (x : Verdict × Progress)
    → After w true [] fs x
    → Told w fs (x.1.sent, ended x.0)
walked-Told w fs (proceed, s) h = h
walked-Told w fs (skip_dir, s) h = h.1
walked-Told w fs (stop e, s) h = h

root_folder-After :
    (w : Scan) (es : Entries) (s : Progress)
    → AreApart (codes ".") es
    → After w true s.sent
        (kept w (files_in [] (codes ".") es))
        (walk_node w (codes ".") (Node.folder true es) s)
unfolding walk_node visit_folder bytes_eq
root_folder-After w es s apart = elim (Option-cases (w.cancelled s.looks)) [
  | inr (e, c) ↦ rw c (nothing_sent w e s.looks s.sent _ c)
  | inl go ↦
      rw go (of_entries w s.sent _ _ (walk_entries-After w [] (codes ".") es (look s) apart refl))
]

root_file-After :
    (w : Scan) (info : FileInfo) (s : Progress)
    → After w true s.sent [] (visit_file w (codes ".") info s)
unfolding visit_file bytes_eq
root_file-After w info s = elim (Option-cases (w.cancelled s.looks)) [
  | inr (e, c) ↦ rw c (nothing_sent w e s.looks s.sent [] c)
  | inl go ↦ rw go (sym (append-nil s.sent))
]

-- A walk sends, in the order of the names, the files below the root of which neither
-- the relative path nor that of a directory on the way is left out (by the rule on `.git`, the
-- matcher of `.gitignore` or an exclude pattern), which are at most 1048576 bytes large, and on the
-- way to which every directory can be read; or it ends with the error of a context that was
-- cancelled, having sent a part of those from the start. No directory lists an entry named ".".
pub walk-Told : (w : Scan) (root : Node) → HasNames root → Told w (listed w root) (walk w root)
unfolding walk walk_node listed all_files files_of
walk-Told w Node.missing named = refl
walk-Told w (Node.file info) named =
    walked-Told w [] (visit_file w (codes ".") info (record { sent = []; looks = 0 }))
      (root_file-After w info (record { sent = []; looks = 0 }))
walk-Told w (Node.folder false es) named = refl
walk-Told w (Node.folder true es) named =
    walked-Told w _
      (walk_node w (codes ".") (Node.folder true es) (record { sent = []; looks = 0 }))
      (root_folder-After w es (record { sent = []; looks = 0 }) named)
