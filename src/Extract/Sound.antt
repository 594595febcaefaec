-- ===== src/Extract/Sound.antt =====
-- internal/app/extract/service.go with internal/worker/dispatcher.go: the extraction keeps the invariant
-- of the queue wherever it stops, and so does a daemon over it.
use prowiki.Base.{
  ℕ, Bool, subst, sym, refl, ◌⊎◌, ◌≡◌, true, false, str_eq, List, [], ◌∷◌, Bytes, Bool-cases, inl,
  inr, if◌then◌else◌, arith,
}
use prowiki.Domain.Errors.{Error, Result, ok, err, panicked, is_context_overflow}
use prowiki.Domain.Enums.{
  completed, stage_level1_overview, stage_level2_entity, stage_level3_feature,
  stage_level4_edge_case, stage_style_evaluation, stage_intersection_synthesis,
}
use prowiki.Domain.Entities.{Job, PromptTemplate}
use prowiki.Db.Schema.{Tables}
use prowiki.Db.Io.{Env, World, Io, pure, raise, lift, ◌>>◌}
use prowiki.Db.Keeps.{Keeps, Keeps-pure, Keeps-raise, Keeps-lift, Keeps-bind}
use prowiki.Db.Ensures.{Ensures, Post, Keeps-once}
use prowiki.Txn.{TxFunc}
use prowiki.Store.Versions
use prowiki.Store.Features
use prowiki.Store.Jobs
use prowiki.Store.Jobs.Sound.{IsSound, Keeping, enqueue_many-IsSound, update_status-IsSound}
use prowiki.Store.Prompts
use prowiki.Prompt.{db_registry}
use prowiki.Llm.Request.{Completer, active}
use prowiki.Handlers.Parse.{wrapped_call}
use prowiki.Handlers.Idle.{
  Idle, Gives, create-Idle, add_to_file_version-Idle, update_summary-Idle, wrapping_keeps,
  wrapped_call-Keeps, find_version-Idle, Idle-Keeps, Gives-bind,
}
use prowiki.Worker.{start}
use prowiki.Worker.Services.{service_dispatch}
use prowiki.Queue.Invariant.{IsSound-IsFramed}
use prowiki.Worker.Sound.{IsTame, start-IsSound}
use prowiki.Extract.{
  Service, FeatureSchema, OverviewSchema, write_features, write_overview, process_overview, ask,
  or_truncated, next_job,
}

update_status-Keeps : (env : Env) (id : ℕ) → Keeps IsSound (Jobs.update_status env id completed)
unfolding Jobs.update_status
update_status-Keeps env id =
    Keeps-once IsSound env (Jobs.update_status_query id completed)
      (record { at = λ w h. (update_status-IsSound env id completed).at w (h, λ e. absurd (cc)) })

enqueue_many-Keeps : (env : Env) (j : Job) → Keeps IsSound (Jobs.enqueue_many env (j ∷ []))
unfolding Jobs.enqueue_many
enqueue_many-Keeps env j =
    Keeps-once IsSound env (Jobs.insert_jobs (j ∷ []))
      (record { at = λ w h. (enqueue_many-IsSound env (j ∷ [])).at w h })

write_features-Keeps :
    (env : Env) (project version : ℕ) (fs : List FeatureSchema)
    → Keeps IsSound (write_features env project version fs)
unfolding write_features
write_features-Keeps env project version [] = Keeps-pure tt
write_features-Keeps env project version (f ∷ fs) =
    let create = Features.create env project f.name f.description in
    let add = Features.add_to_file_version env version in
    Keeps-bind create _
      (Idle-Keeps IsSound IsSound-IsFramed create (create-Idle env project f.name f.description))
      λ id.
        Keeps-bind (add id) _
          (Idle-Keeps IsSound IsSound-IsFramed (add id) (add_to_file_version-Idle env version id))
          λ _. write_features-Keeps env project version fs

write_overview-Keeps :
    (env : Env) (job : Job) (version : ℕ) (o : OverviewSchema)
    → Keeps IsSound (write_overview env job version o)
unfolding write_overview
write_overview-Keeps env job version o =
    let update = Versions.update_summary env version o.summary in
    Keeps-bind update _
      (Idle-Keeps IsSound IsSound-IsFramed update (update_summary-Idle env version o.summary))
      λ _.
        Keeps-bind (write_features env job.project_id version o.features) _
          (write_features-Keeps env job.project_id version o.features)
          λ _.
            Keeps-bind (Jobs.enqueue_many env (next_job job ∷ [])) _
              (enqueue_many-Keeps env (next_job job)) λ _. update_status-Keeps env job.id

or_truncated-IsSound :
    (c : Completer) (prompt : Bytes) (x : Result Bytes × World)
    → IsSound x.1.tables
    → IsSound (or_truncated c prompt x).1.tables
or_truncated-IsSound c prompt (ok text, w) h = h
or_truncated-IsSound c prompt (panicked p, w) h = h
or_truncated-IsSound c prompt (err e, w) h = elim (Bool-cases (is_context_overflow e)) [
  | inl over ↦ rw over h
  | inr other ↦ rw other h
]

find_overview_prompt-Idle : (env : Env) → Idle (Prompts.active env stage_level1_overview)
unfolding Prompts.active Prompts.active_query
find_overview_prompt-Idle env w = ground arith

refused_if :
    (b : Bool) (e : Error) (m : Io TxFunc)
    → (f : Error) × (m ≡ raise f)
    → (f : Error) × ((if b then raise e else m) ≡ raise f)
refused_if true e m rest = (e, refl)
refused_if false e m rest = rest

service_dispatch-cases :
    (process : Job → Io (Unit {0})) (job : Job)
    → (service_dispatch process job ≡ (process job >> pure (pure tt)))
      ⊎ ((e : Error) × (service_dispatch process job ≡ raise e))
unfolding service_dispatch
service_dispatch-cases process job = elim (Bool-cases (str_eq job.stage stage_level1_overview)) [
  | inl e ↦ inl (rw e refl)
  | inr e ↦ inr (
      rw e (
        refused_if (str_eq job.stage stage_level2_entity) _ _ (
          refused_if (str_eq job.stage stage_level3_feature) _ _ (
            refused_if (str_eq job.stage stage_level4_edge_case) _ _ (
              refused_if (str_eq job.stage stage_style_evaluation) _ _
                (refused_if (str_eq job.stage stage_intersection_synthesis) _ _ (_, refl)))))))
]

module _ (env : Env) (s : Service) (idle : Idle (s.registry.find stage_level1_overview)) where
  process_overview-Keeps : (job : Job) → Keeps IsSound (process_overview env s job)
  unfolding process_overview
  process_overview-Keeps job =
      let find = Versions.get_by_id env job.target_id in
      let find_prompt = active s.registry stage_level1_overview in
      Keeps-bind (wrapped_call "failed to get file version" find) _
        (wrapped_call-Keeps _ find
          (Idle-Keeps IsSound IsSound-IsFramed find (find_version-Idle env job.target_id)))
        λ version.
          Keeps-bind (wrapped_call "missing prompt" find_prompt) _
            (wrapped_call-Keeps _ find_prompt
              (Idle-Keeps IsSound IsSound-IsFramed find_prompt idle))
            λ template.
              Keeps-bind (lift (s.registry.render template (s.scrub version.content "go" ∷ []))) _
                (Keeps-lift _)
                λ prompt.
                  Keeps-bind (wrapped_call "completion failed" (ask s.completer prompt)) _
                    (wrapped_call-Keeps _ (ask s.completer prompt)
                      (record { at = λ w h. or_truncated-IsSound s.completer prompt _ h }))
                    λ text.
                      Keeps-bind (wrapped_call "schema parsing failed" (lift (s.parse_strict text)))
                        _ (record { at = λ w h. wrapping_keeps IsSound _ _ h })
                        λ overview. write_overview-Keeps env job version.id overview

  abbrev IsKeeping : TxFunc → Type 0
  IsKeeping fn = Ensures IsSound fn Keeping

  raise-IsKeeping : (e : Error) → Gives IsKeeping (raise e)
  raise-IsKeeping e = record { at = λ w h. tt }

  service_dispatch-Keeps :
      (job : Job) → Keeps IsSound (service_dispatch (process_overview env s) job)
  service_dispatch-Keeps job = elim (service_dispatch-cases (process_overview env s) job) [
    | inl done ↦ subst (Keeps IsSound) (sym done) (
        Keeps-bind (process_overview env s job) _ (process_overview-Keeps job)
          (λ _. Keeps-pure (pure tt)))
    | inr (e, refused) ↦ subst (Keeps IsSound) (sym refused) (Keeps-raise e)
  ]

  service_dispatch-Gives :
      (job : Job) → Gives IsKeeping (service_dispatch (process_overview env s) job)
  service_dispatch-Gives job = elim (service_dispatch-cases (process_overview env s) job) [
    | inl done ↦ subst (Gives IsKeeping) (sym done) (
        Gives-bind IsKeeping (process_overview env s job) _
          (λ _. record { at = λ w h. record { at = λ v k. k } }))
    | inr (e, refused) ↦ subst (Gives IsKeeping) (sym refused) (raise-IsKeeping e)
  ]

  service_dispatch-IsTame : IsTame (service_dispatch (process_overview env s))
  service_dispatch-IsTame = record {
    handling = service_dispatch-Keeps;
    writing = λ job w w' fn e.
        subst (Post (λ (f : TxFunc) (t : Tables). IsKeeping f)) e
          ((service_dispatch-Gives job).at w tt);
  }

-- The daemon with the dispatcher over the extraction service and the prompts of the database, for every
-- model, scrubber, template engine and parser of answers, however many polls it makes and whichever
-- calls of the database fail, also between two writes of the service: it keeps the invariant of the
-- queue.
pub service_daemon-IsSound :
    (env : Env) (s : Service) (template : PromptTemplate → List Bytes → Result Bytes) (polls : ℕ)
    (w : World)
    → IsSound w.tables
    → IsSound
        (start polls env
          (service_dispatch
            (process_overview env (record s { registry = db_registry env template })))
          w).1.tables
service_daemon-IsSound env s template polls w h =
    start-IsSound env _
      (service_dispatch-IsTame env (record s { registry = db_registry env template })
        (find_overview_prompt-Idle env))
      polls w h
