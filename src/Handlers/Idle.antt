-- ===== src/Handlers/Idle.antt =====
-- internal/handlers: the calls of the handlers that leave the queue as it is, and rules for what a
-- handler keeps and returns.
use prowiki.Base.{ℕ, ◌≡◌, String, arith}
use prowiki.Domain.Errors.{Result, ok, err, panicked}
use prowiki.Db.Schema.{Tables}
use prowiki.Db.Io.{Env, World, Io, ◌>>=◌}
use prowiki.Db.Keeps.{Keeps}
use prowiki.Db.Ensures.{Ensures, Ensures-bind, Post}
use prowiki.Store.Versions
use prowiki.Store.Features
use prowiki.Queue.Rules.{IsFramed}
use prowiki.Store.Prompts
use prowiki.Handlers.{stage_parse}
use prowiki.Handlers.Parse.{wrapped_call, wrapping}

-- A call that leaves the queue as it is.
abbrev pub Idle : {A : Type 0} → Io A → Type 0
Idle m =
    (w : World)
    → ((m w).1.tables.jobs ≡ w.tables.jobs) × ((m w).1.tables.dead_letters ≡ w.tables.dead_letters)

pub create-Idle :
    (env : Env) (project : ℕ) (name description : String)
    → Idle (Features.create env project name description)
unfolding Features.create Features.insert_feature
create-Idle env project name description w = ground arith

pub add_to_file_version-Idle :
    (env : Env) (version feature : ℕ) → Idle (Features.add_to_file_version env version feature)
unfolding Features.add_to_file_version Features.link_feature
add_to_file_version-Idle env version feature w = ground arith

pub update_summary-Idle :
    (env : Env) (version : ℕ) (summary : String)
    → Idle (Versions.update_summary env version summary)
unfolding Versions.update_summary Versions.summary_query
update_summary-Idle env version summary w = ground arith

kept-Post :
    {A : Type 0} (P : Tables → Type 0) (x : Result A × World) → P x.1.tables → Post (λ _. P) x
kept-Post P (ok a, w) h = h
kept-Post P (err e, w) h = tt
kept-Post P (panicked p, w) h = tt

module _ {A : Type 0} (P : Tables → Type 0) (framed : IsFramed P) (m : Io A) (idle : Idle m) where
  pub Idle-Keeps : Keeps P m
  Idle-Keeps = record { at = λ w h. framed w.tables (m w).1.tables (idle w).0 (idle w).1 h }

  pub Idle-Ensures : Ensures P m (λ _. P)
  Idle-Ensures = record { at = λ w h. kept-Post P (m w) (Idle-Keeps.at w h) }

-- What holds of each value that a call returns.
abbrev pub Gives : {A : Type 0} → (A → Type 0) → Io A → Type 0
Gives R m = Ensures (λ _. Unit) m (λ a _. R a)

given : {A : Type 0} (x : Result A × World) → Post (λ _ _. Unit) x
given (ok a, w) = tt
given (err e, w) = tt
given (panicked p, w) = tt

module _ {A B : Type 0} (R : B → Type 0) where
  pub Gives-bind : (m : Io A) (f : A → Io B) → ((a : A) → Gives R (f a)) → Gives R (m >>= f)
  Gives-bind m f kf =
      Ensures-bind (λ _ _. Unit) (λ b _. R b) m f (record { at = λ w h. given (m w) }) kf

pub wrapping_keeps :
    {A : Type 0} (P : Tables → Type 0) (s : String) (x : Result A × World)
    → P x.1.tables
    → P (wrapping s x).1.tables
wrapping_keeps P s (ok a, w) h = h
wrapping_keeps P s (err e, w) h = h
wrapping_keeps P s (panicked p, w) h = h

pub wrapped_call-Keeps :
    {A : Type 0} {P : Tables → Type 0} (s : String) (m : Io A)
    → Keeps P m
    → Keeps P (wrapped_call s m)
wrapped_call-Keeps {P} s m k = record { at = λ w h. wrapping_keeps P s (m w) (k.at w h) }

pub find_version-Idle : (env : Env) (id : ℕ) → Idle (Versions.get_by_id env id)
unfolding Versions.get_by_id Versions.version_query
find_version-Idle env id w = ground arith

pub find_prompt-Idle : (env : Env) → Idle (Prompts.active env stage_parse)
unfolding Prompts.active Prompts.active_query
find_prompt-Idle env w = ground arith
