-- ===== src/Handlers/Repeated.antt =====
-- internal/handlers/parse.go with internal/queue/sqlite_queue.go: an answer that names a feature which
-- the project has.
use prowiki.Base.{
  ℕ, ◌≡◌, refl, Bool, true, ◌||◌, String, List, [], ◌∷◌, ◌++◌, exists_where, Bool-cases, inl, inr,
  arith, some, suc,
}
use prowiki.Domain.Entities.{Feature}
use prowiki.Db.Schema.{Tables, has_project}
use prowiki.Db.Io.{Env, World, later, statement, ◌>>◌}
use prowiki.Db.Ensures.{Ensures, Yields, Ensures-bind, Ensures-statement}
use prowiki.Txn.Atomic.{AllOrNothing, immediate-AllOrNothing}
use prowiki.Store.Versions
use prowiki.Store.Features
use prowiki.Store.Features.{is_named, feature_row, insert_feature}
use prowiki.Queue
use prowiki.Handlers.Parse.{ParsedFeature, ParseResult, insert_features, write_result}

-- One of the features has the name of a feature of the project.
abbrev pub is_repeated : ℕ → List ParsedFeature → List Feature → Bool
is_repeated project fs rows =
    exists_where (λ (f : ParsedFeature). exists_where (is_named project f.name) rows) fs

abbrev Repeated : ℕ → List ParsedFeature → Tables → Type 0
Repeated project fs t = is_repeated project fs t.features.rows ≡ true

exists_where-append :
    (p : Feature → Bool) (xs ys : List Feature)
    → exists_where p (xs ++ ys) ≡ (exists_where p xs || exists_where p ys)
exists_where-append p [] ys = refl
exists_where-append p (x ∷ xs) ys = ground (arith, exists_where-append p xs ys)

repeated_still :
    (project : ℕ) (fs : List ParsedFeature) (rows : List Feature) (x : Feature)
    → is_repeated project fs rows ≡ true
    → is_repeated project fs (rows ++ x ∷ []) ≡ true
repeated_still project [] rows x h = absurd (cc)
repeated_still project (f ∷ fs) rows x h =
    elim (Bool-cases (exists_where (is_named project f.name) rows)) [
      | inl e ↦ ground (arith, e, exists_where-append (is_named project f.name) rows (x ∷ []))
      | inr e ↦
          let rest : is_repeated project fs rows ≡ true = ground (arith, e, h) in
          ground (arith, repeated_still project fs rows x rest)
    ]

module _ (env : Env) (project version : ℕ) where
  create-Repeated :
      (f : ParsedFeature) (fs : List ParsedFeature)
      → Ensures
          (Repeated project (f ∷ fs))
          (Features.create env project f.name f.description)
          (λ _. Repeated project fs)
  unfolding Features.create
  create-Repeated f fs =
      Ensures-statement (λ _. Repeated project fs) env (insert_feature project f.name f.description)
        created
    where
      created :
          (now : ℕ) (t : Tables)
          → Repeated project (f ∷ fs) t
          → Yields (λ _. Repeated project fs) (insert_feature project f.name f.description now t)
      created now t h = elim (Bool-cases (exists_where (is_named project f.name) t.features.rows)) [
        | inl e ↦ rw (e, insert_feature) tt
        | inr e ↦ elim (Bool-cases (has_project t project)) [
          | inr g ↦ rw (e, g, insert_feature) tt
          | inl g ↦
              let rest : is_repeated project fs t.features.rows ≡ true = ground (arith, e, h) in
              rw (e, g, insert_feature)
                (repeated_still project fs t.features.rows
                  (feature_row now project f.name f.description (suc t.features.seq)) rest)
        ]
      ]

  add-Repeated :
      (feature : ℕ) (fs : List ParsedFeature)
      → Ensures
          (Repeated project fs)
          (Features.add_to_file_version env version feature)
          (λ _. Repeated project fs)
  unfolding Features.add_to_file_version Features.link_feature
  add-Repeated feature fs =
      Ensures-statement (λ _. Repeated project fs) env (Features.link_feature version feature)
        linked
    where
      linked :
          (now : ℕ) (t : Tables)
          → Repeated project fs t
          → Yields (λ _. Repeated project fs) (Features.link_feature version feature now t)
      linked now t h =
          elim (Bool-cases (exists_where (Versions.is_junction version feature) t.file_features)) [
            | inl e ↦ rw (e, Features.link_feature) h
            | inr e ↦ elim (Bool-cases (Versions.is_linkable t version feature)) [
              | inl g ↦ rw (e, g, Features.link_feature) h
              | inr g ↦ rw (e, g, Features.link_feature) tt
            ]
          ]

  update-Repeated :
      (summary : String) (fs : List ParsedFeature)
      → Ensures
          (Repeated project fs)
          (Versions.update_summary env version summary)
          (λ _. Repeated project fs)
  unfolding Versions.update_summary Versions.summary_query
  update-Repeated summary fs =
      Ensures-statement (λ _. Repeated project fs) env (Versions.summary_query version summary)
        (λ now t h. h)

  insert_features-fails :
      (fs : List ParsedFeature)
      → Ensures (Repeated project fs) (insert_features env project version fs) (λ _ _. ⊥)
  unfolding insert_features
  insert_features-fails [] = record { at = λ w h. absurd (cc) }
  insert_features-fails (f ∷ fs) =
      Ensures-bind (λ _. Repeated project fs) (λ _ _. ⊥)
        (Features.create env project f.name f.description) _ (create-Repeated f fs)
        λ id.
          Ensures-bind (λ _. Repeated project fs) (λ _ _. ⊥)
            (Features.add_to_file_version env version id) _ (add-Repeated id fs)
            λ _. insert_features-fails fs

  write_result-fails :
      (result : ParseResult)
      → Ensures
          (Repeated project result.features)
          (write_result env project version result)
          (λ _ _. ⊥)
  unfolding write_result
  write_result-fails result =
      Ensures-bind (λ _. Repeated project result.features) (λ _ _. ⊥)
        (Versions.update_summary env version result.summary) _
        (update-Repeated result.summary result.features)
        λ _.
          Ensures-bind (λ _ _. ⊥) (λ _ _. ⊥) (insert_features env project version result.features) _
            (insert_features-fails result.features) λ _. record { at = λ w h. absurd h }

  -- Where an answer names a feature that the project has, `Complete` with what the handler of the stage
  -- `PARSE` writes never succeeds, whichever calls fail, and no table changes.
  pub repeated_never_completes :
      (result : ParseResult) (id : ℕ) (w : World)
      → is_repeated project result.features w.tables.features.rows ≡ true
      → AllOrNothing w
          (Queue.complete env id (some (write_result env project version result)) w)
          (λ _ _. ⊥)
  unfolding Queue.complete
  repeated_never_completes result id w h =
      immediate-AllOrNothing env
        (write_result env project version result >> statement env (Queue.delete_query id)) w
        (λ _ _. ⊥)
        ((Ensures-bind (λ _ _. ⊥) (λ _ _. ⊥) (write_result env project version result) _
            (write_result-fails result) (λ _. record { at = λ v k. absurd k })).at
          (later w) h)
