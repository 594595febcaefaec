-- ===== src/Style/Written.antt =====
-- internal/app/style/evaluator.go: the anomalies that an evaluation leaves, also where it stops.
use prowiki.Base.{suc, ◌++◌, ℕ, ◌≡◌, refl, ◌&&◌, List, [], ◌∷◌, Bool-cases, inl, inr}
use prowiki.Domain.Enums.{stage_style_evaluation}
use prowiki.Domain.Entities.{CodeStyle, FileVersion}
use prowiki.Db.Schema.{Tables, has_version, has_code_style}
use prowiki.Db.Io.{Env, World}
use prowiki.Db.Adds.{Inserts, IsLoop, IsLoop-step}
use prowiki.Store.Styles
use prowiki.Store.Styles.{anomaly_row, insert_anomaly}
use prowiki.Handlers.Asked.{IsAsked, ask-IsAsked}
use prowiki.Style.{AnomalySchema, StyleSchema, Evaluator, style_request, write_anomalies, evaluate}

-- The tables with an anomaly of a version and a rule.
abbrev pub with_anomaly : ℕ → ℕ → AnomalySchema → ℕ → Tables → Tables
with_anomaly version style a now t = record t {
  anomalies = record {
    rows =
        t.anomalies.rows
        ++ record {
          id = suc t.anomalies.seq;
          file_version_id = version;
          code_style_id = style;
          rationale = a.rationale;
          created_at = now;
        }
          ∷ [];
    seq = suc t.anomalies.seq;
  };
}

insert_anomaly-Inserts :
    (version style : ℕ) (a : AnomalySchema) (now : ℕ) (t : Tables)
    → Inserts (with_anomaly version style a now t) (insert_anomaly version style a.rationale now t)
unfolding insert_anomaly
insert_anomaly-Inserts version style a now t =
    elim (Bool-cases (has_version t version && has_code_style t style)) [
      | inl e ↦ rw (e, insert_anomaly) refl
      | inr e ↦ rw (e, insert_anomaly) tt
    ]

write_anomalies-IsLoop :
    (env : Env) (version style : ℕ) (list : List AnomalySchema) (w : World)
    → IsLoop (with_anomaly version style) list w.tables (write_anomalies env version style list w)
unfolding write_anomalies Styles.create_style_anomaly
write_anomalies-IsLoop env version style [] w = refl
write_anomalies-IsLoop env version style (a ∷ rest) w =
    IsLoop-step (with_anomaly version style) env a rest (insert_anomaly version style a.rationale)
      (write_anomalies env version style rest) w (insert_anomaly-Inserts version style a)
      (write_anomalies-IsLoop env version style rest)

-- An evaluation, for any model, template engine and parser of answers and whichever calls fail, where
-- the search for the template writes nothing: it fails and changes no table; or the model was asked
-- with the prompt of the rule and the content of the version, its answer was parsed, and of the
-- anomalies in it a row each was added for the version and the rule, in their order: all of them if it
-- returns nil, a part from the start if it returns an error. Then it does not panic.
pub evaluate-IsAsked :
    (env : Env) (e : Evaluator) (rule : CodeStyle) (version : FileVersion)
    → ((w : World) → (e.registry.find stage_style_evaluation w).1.tables ≡ w.tables)
    → (w : World)
    → IsAsked e.registry e.completer style_request
        (e.codes_of rule.rule ∷ version.content ∷ [])
        e.parse_strict
        (λ (s : StyleSchema). s.anomalies)
        (with_anomaly version.id rule.id)
        w
        (evaluate env e rule version w)
unfolding evaluate
evaluate-IsAsked env e rule version reads w =
    ask-IsAsked e.registry e.completer style_request (e.codes_of rule.rule ∷ version.content ∷ [])
      e.parse_strict (λ (s : StyleSchema). s.anomalies) (with_anomaly version.id rule.id)
      stage_style_evaluation "missing prompt for style"
      (λ found. write_anomalies env version.id rule.id found.anomalies) reads
      (λ found v. write_anomalies-IsLoop env version.id rule.id found.anomalies v) w
