-- ===== src/Handlers/Asked.antt =====
-- internal/app/style/evaluator.go and internal/app/graph/synthesizer.go: a prompt is rendered, a model
-- is asked, its answer is parsed, and a row is written for each thing that it names.
use prowiki.Base.{ℕ, ◌≡◌, refl, subst, String, List, Bytes, ◌⊎◌, inl, inr}
use prowiki.Domain.Errors.{Result, ok, err, panicked}
use prowiki.Domain.Enums.{Stage}
use prowiki.Domain.Entities.{PromptTemplate}
use prowiki.Db.Schema.{Tables}
use prowiki.Db.Io.{World, Io, lift, later, continue, ◌>>=◌}
use prowiki.Db.Adds.{IsLoop}
use prowiki.Llm.Request.{CompletionRequest, Completer, complete, Registry, active}
use prowiki.Handlers.Parse.{wrapped_call, wrapping}

abbrev pub Fails : Result (Unit {0}) → Type 0
Fails (ok u) = ⊥
Fails (err e) = Unit
Fails (panicked p) = Unit

-- Where the values that the model is found to name came from.
pub record IsAnswer {R : Type 0} (registry : Registry) (completer : Completer)
    (request : Bytes → CompletionRequest) (vars : List Bytes) (parse : Bytes → Result R) (found : R)
    : Type 0 where
  pub template : PromptTemplate
  pub prompt : Bytes
  pub tick : ℕ
  pub text : Bytes
  pub rendered : registry.render template vars ≡ ok prompt
  pub answered : completer tick (request prompt) ≡ ok text
  pub parsed : parse text ≡ ok found

on_ok :
    {A : Type 0} (w v : World) (r : Result A) (f : A → Io (Unit {0}))
    (Out : Result (Unit {0}) × World → Type 0)
    → ((x : Result (Unit {0}) × World) → Fails x.0 → x.1.tables ≡ w.tables → Out x)
    → v.tables ≡ w.tables
    → ((a : A) → r ≡ ok a → Out (f a v))
    → Out (continue r f v)
on_ok w v (ok a) f Out fails same h = h a refl
on_ok w v (err e) f Out fails same h = fails (err e, v) tt same
on_ok w v (panicked p) f Out fails same h = fails (panicked p, v) tt same

wrapping_reads :
    {A : Type 0} (s : String) (x : Result A × World) (t : Tables)
    → x.1.tables ≡ t
    → (wrapping s x).1.tables ≡ t
wrapping_reads s (ok a, w) t e = e
wrapping_reads s (err b, w) t e = e
wrapping_reads s (panicked p, w) t e = e

module _ {R S : Type 0} (registry : Registry) (completer : Completer)
    (request : Bytes → CompletionRequest) (vars : List Bytes) (parse : Bytes → Result R)
    (items : R → List S) (added : S → ℕ → Tables → Tables) where
  -- The call failed before it wrote, or it had an answer and wrote what the answer names.
  abbrev pub IsAsked : World → Result (Unit {0}) × World → Type 0
  IsAsked w x =
      (Fails x.0 × (x.1.tables ≡ w.tables))
      ⊎ ((found : R) × IsAnswer registry completer request vars parse found
          × IsLoop added (items found) w.tables x)

  pub ask-IsAsked :
      (stage : Stage) (what : String) (write : R → Io (Unit {0}))
      → ((v : World) → (registry.find stage v).1.tables ≡ v.tables)
      → ((found : R) (v : World) → IsLoop added (items found) v.tables (write found v))
      → (w : World)
      → IsAsked w (
          (wrapped_call what (active registry stage) >>= λ template.
          lift (registry.render template vars) >>= λ prompt.
          complete completer (request prompt) >>= λ text. lift (parse text) >>= write)
            w)
  ask-IsAsked stage what write reads loop w =
      let x = wrapped_call what (active registry stage) w in
      let same : x.1.tables ≡ w.tables =
        wrapping_reads what (registry.find stage w) w.tables (reads w) in
      on_ok w x.1 x.0 _ (IsAsked w) failed same λ template _.
        on_ok w x.1 (registry.render template vars) _ (IsAsked w) failed same λ prompt rendered.
          on_ok w (later x.1) (completer x.1.tick (request prompt)) _ (IsAsked w) failed same
            λ text answered.
              on_ok w (later x.1) (parse text) write (IsAsked w) failed same λ found parsed. inr (
                found,
                record {
                  template = template;
                  prompt = prompt;
                  tick = x.1.tick;
                  text = text;
                  rendered = rendered;
                  answered = answered;
                  parsed = parsed;
                },
                subst (λ t. IsLoop added (items found) t (write found (later x.1))) same
                    (loop found (later x.1)),
              )
    where
      failed : (x : Result (Unit {0}) × World) → Fails x.0 → x.1.tables ≡ w.tables → IsAsked w x
      failed x f same = inl (f, same)
