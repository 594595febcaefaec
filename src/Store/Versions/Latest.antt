-- ===== src/Store/Versions/Latest.antt =====
-- internal/store/file_store.go: which versions are marked as the latest, and what SetLatest does to it.
use prowiki.Base.{
  ℕ, ◌+◌, ◌≤◌, ◌<◌, ◌≡◌, refl, ap, Bool, true, false, List, [], ◌∷◌, ◌++◌, length, select,
  first_where, All, ◌==◌, if◌then◌else◌, none, some, arith,
}
use prowiki.Db.Schema.{VersionRow}
use prowiki.Store.Versions.{is_latest_of, mark_latest, mark_rows}

-- How many versions of a file are marked as its latest.
abbrev pub latest_count : ℕ → List VersionRow → ℕ
latest_count file rows = length (select (is_latest_of file) rows)

pub latest_count-append :
    (file : ℕ) (xs ys : List VersionRow)
    → latest_count file (xs ++ ys) ≡ latest_count file xs + latest_count file ys
latest_count-append file [] ys = omega arith
latest_count-append file (v ∷ xs) ys = ground (arith, latest_count-append file xs ys)

pub unmark-le :
    (file id : ℕ) (rows : List VersionRow)
    → latest_count file (mark_rows false id rows) ≤ latest_count file rows
unfolding mark_rows
unmark-le file id [] = omega arith
unmark-le file id (v ∷ rows) = ground (arith, unmark-le file id rows)

-- Unmarking the one latest version leaves none.
pub unmark_one :
    (file : ℕ) (rows : List VersionRow) (v : VersionRow)
    → latest_count file rows ≤ 1
    → first_where (is_latest_of file) rows ≡ some v
    → latest_count file (mark_rows false v.id rows) ≡ 0
unfolding mark_rows
unmark_one file [] v h e = absurd (cc)
unmark_one file (r ∷ rows) v h e = ground (arith, unmark-le file r.id rows, unmark_one file rows v)

pub none_latest :
    (file : ℕ) (rows : List VersionRow)
    → first_where (is_latest_of file) rows ≡ none
    → latest_count file rows ≡ 0
none_latest file [] e = refl
none_latest file (r ∷ rows) e = ground (arith, none_latest file rows)

-- Marking an id that no row has changes nothing.
pub mark_absent :
    (id : ℕ) (rows : List VersionRow)
    → All (λ (v : VersionRow). v.id < id) rows
    → mark_rows true id rows ≡ rows
unfolding mark_rows
mark_absent id [] h = refl
mark_absent id (v ∷ rows) h = ground (arith, h.0, mark_absent id rows h.1)

pub mark_rows-append :
    (b : Bool) (id : ℕ) (xs ys : List VersionRow)
    → mark_rows b id (xs ++ ys) ≡ mark_rows b id xs ++ mark_rows b id ys
unfolding mark_rows
mark_rows-append b id [] ys = refl
mark_rows-append b id (v ∷ xs) ys =
    ap (λ rest. (if v.id == id then mark_latest b v else v) ∷ rest) (mark_rows-append b id xs ys)

pub All-mark_rows :
    (P : ℕ → Type 0) (b : Bool) (id : ℕ) (rows : List VersionRow)
    → All (λ (v : VersionRow). P v.id) rows
    → All (λ (v : VersionRow). P v.id) (mark_rows b id rows)
unfolding mark_rows
All-mark_rows P b id [] h = tt
All-mark_rows P b id (v ∷ rows) h = (kept (v.id == id), All-mark_rows P b id rows h.1)
  where
    kept : (c : Bool) → P (if c then mark_latest b v else v).id
    kept true = h.0
    kept false = h.0
