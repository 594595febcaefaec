-- ===== src/Ingest/Swap.antt =====
-- internal/app/ingest/service.go: the insertion of a version and the swap of the mark.
use prowiki.Base.{
  ℕ, suc, ◌≤◌, ◌<◌, ◌≡◌, refl, sym, ap, ap₂, ◌∙◌, subst, Bool, true, false, String, List, [], ◌∷◌,
  ◌++◌, All, All-imp, All-append, Bool-cases, inl, inr, ◌==◌, if◌then◌else◌, Bytes, arith,
}
use native.Mathlib.Nat.{le_trans}
use prowiki.Domain.Errors.{Error, ok, err}
use prowiki.Db.Schema.{Table, Tables, VersionRow, has_file}
use prowiki.Db.Io.{Env, pure, statement}
use prowiki.Db.Ensures.{Ensures, Yields, Ensures-statement, Ensures-bind, Ensures-pure, Ensures-if}
use prowiki.Store.Versions
use prowiki.Store.Versions.{
  mark_latest, mark_rows, mark_query, insert_version_query, set_latest, demote, version_row,
}
use prowiki.Store.Versions.Latest.{
  latest_count, latest_count-append, unmark-le, mark_absent, mark_rows-append, All-mark_rows,
}
use prowiki.Ingest.{Latest}
use prowiki.Ingest.Current.{IsCurrent, IsReady, demoted}

-- The version `new` of `file`, marked as the latest, stands behind the rows `before`.
pub record IsAppendedTable (file new : ℕ) (P : List VersionRow → Type 0) (vs : Table VersionRow)
    : Type 0 where
  pub before : List VersionRow
  pub last : VersionRow
  pub split : vs.rows ≡ before ++ last ∷ []
  pub named : last.id ≡ new
  pub of_file : last.file_id ≡ file
  pub marked : last.is_latest ≡ true
  pub newest : vs.seq ≡ new
  pub positive : 0 < new
  pub issued : All (λ (v : VersionRow). (0 < v.id) × (v.id < new)) before
  pub single : (f : ℕ) → latest_count f before ≤ 1
  pub extra : P before

abbrev pub IsAppended : ℕ → ℕ → (List VersionRow → Type 0) → Tables → Type 0
IsAppended file new P t = IsAppendedTable file new P t.versions

abbrev pub Undemoted : ℕ → ℕ → ℕ → List VersionRow → Type 0
Undemoted file old new before = (old < new) × (latest_count file (demoted old before) ≡ 0)

abbrev pub Unmarked : ℕ → List VersionRow → Type 0
Unmarked file before = latest_count file before ≡ 0

pub insert-IsAppended :
    (env : Env) (file : ℕ) (content : Bytes) (hash : String) (latest : Latest)
    → Ensures
        (IsReady file latest)
        (Versions.insert_version env file content hash true)
        (λ new. IsAppended file new (Undemoted file latest.id new))
unfolding Versions.insert_version
insert-IsAppended env file content hash latest =
    Ensures-statement (λ new. IsAppended file new (Undemoted file latest.id new)) env
      (insert_version_query file content hash true) λ now t r. inserted now t r (has_file t file)
  where
    inserted :
        (now : ℕ) (t : Tables)
        → IsReady file latest t
        → (b : Bool)
        → Yields
            (λ new. IsAppended file new (Undemoted file latest.id new))
            (if b
              then ok (
                suc t.versions.seq,
                record t {
                  versions = record {
                    rows =
                        t.versions.rows
                        ++ version_row now file content hash true (suc t.versions.seq) ∷ [];
                    seq = suc t.versions.seq;
                  };
                },
              )
              else err (Error.constraint "FOREIGN KEY constraint failed"))
    inserted now t r false = tt
    inserted now t r true = record {
      before = t.versions.rows;
      last = version_row now file content hash true (suc t.versions.seq);
      split = refl;
      named = refl;
      of_file = refl;
      marked = refl;
      newest = refl;
      positive = omega arith;
      issued =
          All-imp (λ (v : VersionRow) (h : (0 < v.id) × (v.id ≤ t.versions.seq)). older v.id h)
            t.versions.rows r.current.issued;
      single = r.current.single;
      extra = (omega (arith, r.known), r.clear);
    }
      where
        older : (n : ℕ) → (0 < n) × (n ≤ t.versions.seq) → (0 < n) × (n < suc t.versions.seq)
        older n h = omega arith

module _ (file new old : ℕ) where
  demoted_rows :
      (before : List VersionRow) (last : VersionRow)
      → last.id ≡ new
      → old < new
      → mark_rows false old (before ++ last ∷ []) ≡ mark_rows false old before ++ last ∷ []
  demoted_rows before last e h =
      mark_rows-append false old before (last ∷ [])
      ∙ ap (λ l. mark_rows false old before ++ l) single_row
    where
      single_row : mark_rows false old (last ∷ []) ≡ last ∷ []
      single_row = unfold mark_rows in ground arith

  pub demote-Unmarked :
      (env : Env)
      → Ensures
          (IsAppended file new (Undemoted file old new))
          (demote env old)
          (λ _. IsAppended file new (Unmarked file))
  demote-Unmarked env =
      Ensures-if (λ _. IsAppended file new (Unmarked file)) (old == 0) (pure tt)
        (statement env (mark_query false old))
        (λ e. Ensures-pure (λ _. IsAppended file new (Unmarked file)) tt (λ t a. as_it_is e t a))
        (λ e.
          Ensures-statement (λ _. IsAppended file new (Unmarked file)) env (mark_query false old)
            (λ now t a. unmarked e now t a))
    where
      as_it_is :
          (old == 0) ≡ true
          → (t : Tables) → IsAppended file new (Undemoted file old new) t
          → IsAppended file new (Unmarked file) t
      as_it_is e t a = record {
        before = a.before;
        last = a.last;
        split = a.split;
        named = a.named;
        of_file = a.of_file;
        marked = a.marked;
        newest = a.newest;
        positive = a.positive;
        issued = a.issued;
        single = a.single;
        extra = rw e at (a.extra.1);
      }

      unmarked :
          (old == 0) ≡ false
          → (now : ℕ) (t : Tables) → IsAppended file new (Undemoted file old new) t
          → Yields (λ _. IsAppended file new (Unmarked file)) (mark_query false old now t)
      unmarked e now t a =
          unfold mark_query in
          record {
            before = mark_rows false old a.before;
            last = a.last;
            split =
                ap (mark_rows false old) a.split ∙ demoted_rows a.before a.last a.named a.extra.0;
            named = a.named;
            of_file = a.of_file;
            marked = a.marked;
            newest = a.newest;
            positive = a.positive;
            issued = All-mark_rows (λ n. (0 < n) × (n < new)) false old a.before a.issued;
            single = λ f. le_trans (unmark-le f old a.before) (a.single f);
            extra = rw e at (a.extra.1);
          }

marked_again :
    (new : ℕ) (before : List VersionRow) (last : VersionRow)
    → last.id ≡ new
    → All (λ (v : VersionRow). v.id < new) before
    → mark_rows true new (before ++ last ∷ []) ≡ before ++ mark_latest true last ∷ []
marked_again new before last e h =
    mark_rows-append true new before (last ∷ [])
    ∙ ap₂ (λ xs ys. xs ++ ys) (mark_absent new before h) (unfold mark_rows in ground arith)

count_last :
    (file f : ℕ) (before : List VersionRow) (last : VersionRow)
    → last.file_id ≡ file
    → latest_count file before ≡ 0
    → latest_count f before ≤ 1
    → latest_count f (before ++ mark_latest true last ∷ []) ≤ 1
count_last file f before last e none_left single =
    rw (latest_count-append f before (mark_latest true last ∷ []))
      (elim (Bool-cases (last.file_id == f)) [
        | inl same ↦
            let this : f ≡ file = ground arith in
            let gone : latest_count f before ≡ 0 = rw this none_left in ground arith
        | inr other ↦ ground arith
      ])

module _ (file new : ℕ) where
  promoted :
      (now : ℕ) (t : Tables)
      → IsAppended file new (Unmarked file) t
      → Yields (λ _. IsCurrent) (mark_query true new now t)
  unfolding mark_query
  promoted now t a = record {
    issued = subst (All (λ (v : VersionRow). (0 < v.id) × (v.id ≤ t.versions.seq))) (sym rows) (
        All-append (λ (v : VersionRow). (0 < v.id) × (v.id ≤ t.versions.seq)) a.before
          (mark_latest true a.last ∷ [])
          (All-imp (λ (v : VersionRow) (h : (0 < v.id) × (v.id < new)). older v.id h) a.before
            a.issued)
          (newest, tt));
    single = λ f.
        subst (λ l. latest_count f l ≤ 1) (sym rows)
          (count_last file f a.before a.last a.of_file a.extra (a.single f));
  }
    where
      rows : mark_rows true new t.versions.rows ≡ a.before ++ mark_latest true a.last ∷ []
      rows =
          ap (mark_rows true new) a.split
          ∙ marked_again new a.before a.last a.named
              (All-imp (λ (v : VersionRow) (h : (0 < v.id) × (v.id < new)). h.1) a.before a.issued)

      older : (n : ℕ) → (0 < n) × (n < new) → (0 < n) × (n ≤ t.versions.seq)
      older n h = omega (arith, a.newest)

      newest : (0 < a.last.id) × (a.last.id ≤ t.versions.seq)
      newest = omega (arith, a.newest, a.named, a.positive)

  -- `SetLatest` makes the appended version the only latest one of its file.
  pub set_latest-IsCurrent :
      (env : Env) (old : ℕ)
      → Ensures
          (IsAppended file new (Undemoted file old new))
          (set_latest env new old)
          (λ _. IsCurrent)
  unfolding set_latest
  set_latest-IsCurrent env old =
      Ensures-bind (λ _. IsAppended file new (Unmarked file)) (λ _. IsCurrent) (demote env old) _
        (demote-Unmarked file new old env)
        (λ _. Ensures-statement (λ _. IsCurrent) env (mark_query true new) promoted)
