-- ===== src/Handlers/Keeps.antt =====
-- internal/handlers: what the calls of the queue keep, the handler of the stage `PARSE` keeps, and so
-- does the dispatcher that internal/di/container.go builds.
use prowiki.Base.{ℕ, subst, List, [], ◌∷◌, Bool-cases, inl, inr, some, str_eq, Bytes}
use prowiki.Domain.Errors.{Result}
use prowiki.Domain.Entities.{Job, PromptTemplate, FileVersion}
use prowiki.Db.Schema.{Tables}
use prowiki.Db.Io.{Env, Io, lift}
use prowiki.Db.Keeps.{Keeps, Keeps-pure, Keeps-raise, Keeps-bind}
use prowiki.Db.Ensures.{Ensures, Ensures-bind, Ensures-pure, Post}
use prowiki.Txn.{TxFunc}
use prowiki.Store.Versions
use prowiki.Store.Features
use prowiki.Queue.Rules.{QueueRules}
use prowiki.Prompt.{db_registry}
use prowiki.Llm.Request.{Completer, complete, active}
use prowiki.Worker.{Dispatch}
use prowiki.Worker.Keeps.{IsTameFor}
use prowiki.Handlers.{dispatch, stage_parse}
use prowiki.Handlers.Parse.{
  ParseHandler, ParsedFeature, ParseResult, downstream_job, insert_features, write_result, handle,
  wrapped_call, parse_request,
}
use prowiki.Handlers.Idle.{
  Idle, Gives, create-Idle, add_to_file_version-Idle, update_summary-Idle, wrapping_keeps,
  wrapped_call-Keeps, find_version-Idle, find_prompt-Idle, Idle-Keeps, Idle-Ensures, Gives-bind,
}

module _ (env : Env) (P : Tables → Type 0) (rules : QueueRules env P) where
  insert_features-keeps :
      (project version : ℕ) (fs : List ParsedFeature)
      → Ensures P (insert_features env project version fs) (λ _. P)
  unfolding insert_features
  insert_features-keeps project version [] = Ensures-pure (λ _. P) tt (λ t s. s)
  insert_features-keeps project version (f ∷ fs) =
      let create = Features.create env project f.name f.description in
      let add = Features.add_to_file_version env version in
      Ensures-bind (λ _. P) (λ _. P) create _
        (Idle-Ensures P rules.framed create (create-Idle env project f.name f.description))
        λ id.
          Ensures-bind (λ _. P) (λ _. P) (add id) _
            (Idle-Ensures P rules.framed (add id) (add_to_file_version-Idle env version id))
            λ _. insert_features-keeps project version fs

  write_result-keeps :
      (project version : ℕ) (result : ParseResult)
      → Ensures P (write_result env project version result) (λ _. P)
  unfolding write_result
  write_result-keeps project version result =
      let update = Versions.update_summary env version result.summary in
      let insert = insert_features env project version result.features in
      Ensures-bind (λ _. P) (λ _. P) update _
        (Idle-Ensures P rules.framed update (update_summary-Idle env version result.summary))
        λ _.
          Ensures-bind (λ _. P) (λ _. P) insert _
            (insert_features-keeps project version result.features)
            λ _. rules.enqueuing (downstream_job project version ∷ [])

module _ (env : Env) (P : Tables → Type 0) (rules : QueueRules env P) (h : ParseHandler)
    (idle : Idle (h.registry.find stage_parse)) where
  abbrev find_version : Job → Io FileVersion
  find_version job =
      wrapped_call "failed to get file version" (Versions.get_by_id env job.target_id)

  abbrev find_prompt : Io PromptTemplate
  find_prompt = wrapped_call "failed to get parse prompt" (active h.registry stage_parse)

  abbrev render : PromptTemplate → FileVersion → Io Bytes
  render template version =
      wrapped_call "failed to render parse prompt"
        (lift (h.registry.render template (version.content ∷ [])))

  abbrev ask : Bytes → Io Bytes
  ask rendered =
      wrapped_call "llm completion failed" (complete h.completer (parse_request rendered))

  abbrev read_answer : Bytes → Io ParseResult
  read_answer text = wrapped_call "failed to parse json strict" (lift (h.parse_strict text))

  handle-Keeps : (job : Job) → Keeps P (handle env h job)
  unfolding handle
  handle-Keeps job =
      Keeps-bind (find_version job) _
        (wrapped_call-Keeps _ (Versions.get_by_id env job.target_id) (
          Idle-Keeps P rules.framed (Versions.get_by_id env job.target_id)
            (find_version-Idle env job.target_id)))
        λ version.
          Keeps-bind find_prompt _
            (wrapped_call-Keeps _ (active h.registry stage_parse)
              (Idle-Keeps P rules.framed (active h.registry stage_parse) idle))
            λ template.
              Keeps-bind (render template version) _ (record { at = λ w k. wrapping_keeps P _ _ k })
                λ rendered.
                  Keeps-bind (ask rendered) _ (record { at = λ w k. wrapping_keeps P _ _ k })
                    λ text.
                      Keeps-bind (read_answer text) _
                        (record { at = λ w k. wrapping_keeps P _ _ k })
                        λ result. Keeps-pure (write_result env job.project_id version.id result)

  abbrev IsKeeping : TxFunc → Type 0
  IsKeeping fn = Ensures P fn (λ _. P)

  handle-Gives : (job : Job) → Gives IsKeeping (handle env h job)
  unfolding handle
  handle-Gives job = Gives-bind IsKeeping (find_version job) _ λ version.
      Gives-bind IsKeeping find_prompt _ λ template.
        Gives-bind IsKeeping (render template version) _ λ rendered.
          Gives-bind IsKeeping (ask rendered) _ λ text.
            Gives-bind IsKeeping (read_answer text) _ λ result. record {
              at = λ w k. write_result-keeps env P rules job.project_id version.id result;
            }

  dispatch-Keeps : (job : Job) → Keeps P (dispatch (some (handle env h)) job)
  unfolding dispatch
  dispatch-Keeps job = elim (Bool-cases (str_eq job.stage stage_parse)) [
    | inl e ↦ rw e (handle-Keeps job)
    | inr e ↦ rw e (Keeps-raise _)
  ]

  dispatch-Gives : (job : Job) → Gives IsKeeping (dispatch (some (handle env h)) job)
  unfolding dispatch
  dispatch-Gives job = elim (Bool-cases (str_eq job.stage stage_parse)) [
    | inl e ↦ rw e (handle-Gives job)
    | inr e ↦ rw e (record { at = λ w k. tt })
  ]

  dispatch-IsTame : IsTameFor P (dispatch (some (handle env h)))
  dispatch-IsTame = record {
    handling = dispatch-Keeps;
    writing = λ job w w' fn e.
        subst (Post (λ (f : TxFunc) (t : Tables). IsKeeping f)) e ((dispatch-Gives job).at w tt);
  }

-- The dispatcher that internal/di/container.go builds, of the model, the template engine and the parser
-- of answers.
abbrev pub container_dispatch :
    Env
    → Completer
    → (PromptTemplate → List Bytes → Result Bytes)
    → (Bytes → Result ParseResult)
    → Dispatch
container_dispatch env completer template parse_strict = dispatch (
    some (
      handle env (record {
        completer = completer;
        registry = db_registry env template;
        parse_strict = parse_strict;
      })))

pub container_dispatch-IsTame :
    (env : Env) (P : Tables → Type 0) (rules : QueueRules env P) (completer : Completer)
    (template : PromptTemplate → List Bytes → Result Bytes)
    (parse_strict : Bytes → Result ParseResult)
    → IsTameFor P (container_dispatch env completer template parse_strict)
container_dispatch-IsTame env P rules completer template parse_strict =
    dispatch-IsTame env P rules
      (record {
        completer = completer;
        registry = db_registry env template;
        parse_strict = parse_strict;
      })
      (find_prompt-Idle env)
