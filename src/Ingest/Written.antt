-- ===== src/Ingest/Written.antt =====
-- internal/app/ingest/service.go: what the statements of a file's transaction leave in the tables.
use mathlib.Core.List.{append_assoc, append-nil}
use prowiki.Base.{
  ℕ, suc, ◌≡◌, refl, sym, subst, ap, Bool, false, String, str_eq, ◌&&◌, Bytes, select, ◌∙◌, true,
  List, [], ◌∷◌, ◌++◌, map, Bool-cases, inl, inr, exists_where, update_where, ◌==◌, if◌then◌else◌,
  ◌+◌,
}
use prowiki.Domain.Enums.{pending, completed}
use prowiki.Domain.Entities.{Job, FileFeature}
use prowiki.Db.Schema.{Table, VersionRow, Tables, has_project}
use prowiki.Db.Ensures.{Yields, Yields-imp}
use prowiki.Store.Versions
use prowiki.Store.Jobs
use prowiki.Store.Jobs.{has_status}
use prowiki.Store.Versions.Latest.{mark_rows-append}
use prowiki.Ingest.{extraction_job}

-- The junctions that a version gets from another's.
abbrev pub cloned : ℕ → ℕ → List FileFeature → List FileFeature
cloned old new rows =
    map (λ (r : FileFeature). record { file_version_id = new; feature_id = r.feature_id })
      (select (λ (r : FileFeature). r.file_version_id == old) rows)

-- A version but for its mark as the latest of its file.
abbrev pub unmarked : VersionRow → VersionRow
unmarked v = record v { is_latest = false }

-- Behind the versions from before, of which at most the marks changed, stands a new one of the file.
pub record IsAdded (before : Tables) (file : ℕ) (content : Bytes) (hash : String)
    (rows : List VersionRow) : Type 0 where
  pub older : List VersionRow
  pub last : VersionRow
  pub split : rows ≡ older ++ last ∷ []
  pub same_older : map unmarked older ≡ map unmarked before.versions.rows
  pub id : last.id ≡ suc before.versions.seq
  pub of_file : last.file_id ≡ file
  pub same_content : last.content ≡ content
  pub same_hash : last.ast_hash ≡ hash

unmarked-mark_rows :
    (b : Bool) (id : ℕ) (rows : List VersionRow)
    → map unmarked (Versions.mark_rows b id rows) ≡ map unmarked rows
unfolding Versions.mark_rows
unmarked-mark_rows b id [] = refl
unmarked-mark_rows b id (v ∷ rows) = elim (Bool-cases (v.id == id)) [
  | inl e ↦ rw e (ap (λ l. unmarked v ∷ l) (unmarked-mark_rows b id rows))
  | inr e ↦ rw e (ap (λ l. unmarked v ∷ l) (unmarked-mark_rows b id rows))
]

pub mark_rows-IsAdded :
    (before : Tables) (file : ℕ) (content : Bytes) (hash : String) (b : Bool) (id : ℕ)
    (rows : List VersionRow)
    → IsAdded before file content hash rows
    → IsAdded before file content hash (Versions.mark_rows b id rows)
unfolding Versions.mark_rows
mark_rows-IsAdded before file content hash b id rows a =
    let v = a.last in
    let split = ap (Versions.mark_rows b id) a.split ∙ mark_rows-append b id a.older (v ∷ []) in
    elim (Bool-cases (v.id == id)) [
      | inl e ↦ record {
        older = Versions.mark_rows b id a.older;
        last = Versions.mark_latest b v;
        split = split ∙ ap (λ u. Versions.mark_rows b id a.older ++ u ∷ []) (rw e refl);
        same_older = unmarked-mark_rows b id a.older ∙ a.same_older;
        id = a.id;
        of_file = a.of_file;
        same_content = a.same_content;
        same_hash = a.same_hash;
      }
      | inr e ↦ record {
        older = Versions.mark_rows b id a.older;
        last = v;
        split = split ∙ ap (λ u. Versions.mark_rows b id a.older ++ u ∷ []) (rw e refl);
        same_older = unmarked-mark_rows b id a.older ∙ a.same_older;
        id = a.id;
        of_file = a.of_file;
        same_content = a.same_content;
        same_hash = a.same_hash;
      }
    ]

-- A new version was inserted, and neither the queue nor the junctions have changed.
pub record IsInserted (before : Tables) (file : ℕ) (content : Bytes) (hash : String) (new : ℕ)
    (t : Tables) : Type 0 where
  pub id : new ≡ suc before.versions.seq
  pub added : IsAdded before file content hash t.versions.rows
  pub seq : t.versions.seq ≡ new
  pub jobs : t.jobs ≡ before.jobs
  pub junctions : t.file_features ≡ before.file_features

-- The version has the junctions of the old one, and the queue is as it was.
pub record IsBypassed (before : Tables) (file : ℕ) (content : Bytes) (hash : String) (old : ℕ)
    (t : Tables) : Type 0 where
  pub added : IsAdded before file content hash t.versions.rows
  pub seq : t.versions.seq ≡ suc before.versions.seq
  pub jobs : t.jobs ≡ before.jobs
  pub junctions :
      t.file_features
      ≡ before.file_features ++ cloned old (suc before.versions.seq) before.file_features

-- A completed job of the version.
abbrev pub is_done_for : ℕ → Job → Bool
is_done_for version j =
    str_eq j.target_type "File" && ((j.target_id == version) && has_status completed j)

-- The completed jobs of the old version, if there is one, wait again with ten more of priority.
abbrev pub reset_rows : ℕ → ℕ → List Job → List Job
reset_rows old now rows =
    if old == 0
    then rows
    else update_where (is_done_for old)
        (λ (j : Job). record {
          id = j.id;
          project_id = j.project_id;
          target_id = j.target_id;
          target_type = j.target_type;
          stage = j.stage;
          status = pending;
          priority = j.priority + 10;
          retry_count = j.retry_count;
          payload = j.payload;
          created_at = j.created_at;
          updated_at = now;
        })
        rows

-- After the jobs of the old version there is one more, for the new version, and the junctions are as
-- they were.
pub record IsRestructured (before : Tables) (file : ℕ) (content : Bytes) (hash : String)
    (project old : ℕ) (t : Tables) : Type 0 where
  pub added : IsAdded before file content hash t.versions.rows
  pub seq : t.versions.seq ≡ suc before.versions.seq
  pub junctions : t.file_features ≡ before.file_features
  pub reset_at : ℕ
  pub enqueued_at : ℕ
  pub jobs :
      t.jobs.rows
      ≡ reset_rows old reset_at before.jobs.rows
        ++ record {
          id = suc before.jobs.seq;
          project_id = project;
          target_id = suc before.versions.seq;
          target_type = "File";
          stage = "level_1_overview";
          status = pending;
          priority = 1;
          retry_count = 0;
          payload = "";
          created_at = enqueued_at;
          updated_at = enqueued_at;
        }
          ∷ []

abbrev Linked : ℕ → List FileFeature → Tables → Tables → Type 0
Linked new rs t t' =
    (t'.versions ≡ t.versions)
    × (t'.jobs ≡ t.jobs)
    × (t'.file_features
        ≡ t.file_features
          ++ map (λ (r : FileFeature). record { file_version_id = new; feature_id = r.feature_id })
              rs)

clone_rows-Linked :
    (new : ℕ) (rs : List FileFeature) (now : ℕ) (t : Tables)
    → Yields (λ _. Linked new rs t) (Versions.clone_rows new rs now t)
unfolding Versions.clone_rows
clone_rows-Linked new [] now t = (refl, refl, sym (append-nil t.file_features))
clone_rows-Linked new (r ∷ rs) now t =
    elim (Bool-cases (exists_where (Versions.is_junction new r.feature_id) t.file_features)) [
      | inl e ↦ rw (e, Versions.clone_rows) tt
      | inr e ↦ elim (Bool-cases (Versions.is_linkable t new r.feature_id)) [
        | inl f ↦
            let next = Versions.link new r.feature_id t in
            rw (e, f, Versions.clone_rows)
              (Yields-imp (Versions.clone_rows new rs now next)
                (λ _ t' (versions, jobs, rows).
                  (versions, jobs, rows ∙ append_assoc t.file_features (_ ∷ []) _))
                (clone_rows-Linked new rs now next))
        | inr f ↦ rw (e, f, Versions.clone_rows) tt
      ]
    ]

pub cloned-IsBypassed :
    (before : Tables) (file : ℕ) (content : Bytes) (hash : String) (old new now : ℕ) (t : Tables)
    → IsInserted before file content hash new t
    → Yields (λ _. IsBypassed before file content hash old) (Versions.clone_query old new now t)
unfolding Versions.clone_query
cloned-IsBypassed before file content hash old new now t i =
    let rows = Versions.junctions_of old t.file_features in
    Yields-imp (Versions.clone_rows new rows now t)
      (λ _ t' (versions, jobs, linked). record {
        added =
            subst (IsAdded before file content hash)
              (sym (ap (λ (vs : Table VersionRow). vs.rows) versions)) i.added;
        seq = ap (λ (vs : Table VersionRow). vs.seq) versions ∙ i.seq ∙ i.id;
        jobs = jobs ∙ i.jobs;
        junctions =
            linked
            ∙ ap (λ (rs : List FileFeature). rs ++ cloned old new rs) i.junctions
            ∙ ap (λ (n : ℕ). before.file_features ++ cloned old n before.file_features) i.id;
      })
      (clone_rows-Linked new rows now t)

-- The new version was inserted, and the jobs of the old one were reset.
pub record IsReset (before : Tables) (file : ℕ) (content : Bytes) (hash : String) (old new : ℕ)
    (t : Tables) : Type 0 where
  pub id : new ≡ suc before.versions.seq
  pub added : IsAdded before file content hash t.versions.rows
  pub seq : t.versions.seq ≡ new
  pub job_seq : t.jobs.seq ≡ before.jobs.seq
  pub junctions : t.file_features ≡ before.file_features
  pub at : ℕ
  pub jobs : t.jobs.rows ≡ reset_rows old at before.jobs.rows

pub not-IsReset :
    (before : Tables) (file : ℕ) (content : Bytes) (hash : String) (old new : ℕ) (t : Tables)
    → (old == 0) ≡ true
    → IsInserted before file content hash new t
    → IsReset before file content hash old new t
not-IsReset before file content hash old new t none_before i = record {
  id = i.id;
  added = i.added;
  seq = i.seq;
  job_seq = ap (λ (js : Table Job). js.seq) i.jobs;
  junctions = i.junctions;
  at = 0;
  jobs = rw none_before (ap (λ (js : Table Job). js.rows) i.jobs);
}

pub reset_query-IsReset :
    (before : Tables) (file : ℕ) (content : Bytes) (hash : String) (old new now : ℕ) (t : Tables)
    → (old == 0) ≡ false
    → IsInserted before file content hash new t
    → Yields (λ _. IsReset before file content hash old new) (Jobs.reset_query old now t)
unfolding Jobs.reset_query
reset_query-IsReset before file content hash old new now t some_before i = record {
  id = i.id;
  added = i.added;
  seq = i.seq;
  job_seq = ap (λ (js : Table Job). js.seq) i.jobs;
  junctions = i.junctions;
  at = now;
  jobs = rw some_before (
      ap
        (λ (js : Table Job).
          update_where (Jobs.is_completed_for old)
            (λ (j : Job). record j {
              status = pending;
              priority = j.priority + 10;
              updated_at = now;
            })
            js.rows)
        i.jobs);
}

pub enqueued-IsRestructured :
    (before : Tables) (file : ℕ) (content : Bytes) (hash : String) (project old new now : ℕ)
    (t : Tables)
    → IsReset before file content hash old new t
    → Yields
        (λ _. IsRestructured before file content hash project old)
        (Jobs.insert_jobs (extraction_job project new ∷ []) now t)
unfolding Jobs.insert_jobs
enqueued-IsRestructured before file content hash project old new now t i =
    elim (Bool-cases (has_project t project)) [
      | inl e ↦
          rw (e, Jobs.insert_jobs)
            (record {
              added = i.added;
              seq = i.seq ∙ i.id;
              junctions = i.junctions;
              reset_at = i.at;
              enqueued_at = now;
              jobs =
                  ap
                    (λ (js : List Job).
                      js ++ Jobs.new_row now (extraction_job project new) (suc t.jobs.seq) ∷ [])
                    i.jobs
                  ∙ ap
                      (λ (n : ℕ).
                        reset_rows old i.at before.jobs.rows
                        ++ Jobs.new_row now (extraction_job project n) (suc t.jobs.seq) ∷ [])
                      i.id
                  ∙ ap
                      (λ (n : ℕ).
                        reset_rows old i.at before.jobs.rows
                        ++ Jobs.new_row now (extraction_job project (suc before.versions.seq))
                            (suc n)
                          ∷ [])
                      i.job_seq;
            })
      | inr e ↦ rw (e, Jobs.insert_jobs) tt
    ]
