-- ===== src/Txn/Keeps.antt =====
-- internal/txn/txn.go: a transaction keeps what its function re-establishes when it succeeds.
use prowiki.Base.{String, Option, some, none}
use prowiki.Domain.Errors.{Result, ok, err, panicked}
use prowiki.Db.Schema.{Tables}
use prowiki.Db.Io.{Env, World, Io, later}
use prowiki.Db.Keeps.{Keeps}
use prowiki.Db.Ensures.{Ensures, Post, Leads}
use prowiki.Txn.{immediate, commit, conclude, begun}

module _ {A : Type 0} (P : Tables → Type 0) where
  committed :
      (o : Option String) (w : World) (a : A) (w' : World)
      → P w.tables
      → P w'.tables
      → P (commit o w a w').1.tables
  committed none w a w' h k = k
  committed (some e) w a w' h k = h

  concluded :
      (env : Env) (w : World) (r : Result A) (w' : World)
      → P w.tables
      → Post (λ _. P) (r, w')
      → P (conclude env w (r, w')).1.tables
  concluded env w (ok a) w' h k = committed (env.fault w'.tick) w a w' h k
  concluded env w (err e) w' h k = h
  concluded env w (panicked p) w' h k = h

  begun_keeps :
      (env : Env) (o : Option String) (w : World) (fn : Io A)
      → Ensures P fn (λ _. P)
      → P w.tables
      → P (begun env o w fn).1.tables
  begun_keeps env none w fn k h = concluded env w (fn w).0 (fn w).1 h (k.at w h)
  begun_keeps env (some e) w fn k h = h

module _ {A : Type 0} {P : Tables → Type 0} where
  pub Keeps-immediate : (env : Env) (fn : Io A) → Ensures P fn (λ _. P) → Keeps P (immediate env fn)
  unfolding immediate
  Keeps-immediate env fn k = record {
    at = λ w h. begun_keeps P env (env.fault w.tick) (later w) fn k h;
  }

module _ {A : Type 0} (Q P : Tables → Type 0) where
  led_from :
      (env : Env) (o : Option String) (w : World) (fn : Io A)
      → ((t : Tables) → Q t → P t)
      → Ensures Q fn (λ _. P)
      → Q w.tables
      → P (begun env o w fn).1.tables
  led_from env none w fn weaken k h =
      concluded P env w (fn w).0 (fn w).1 (weaken w.tables h) (k.at w h)
  led_from env (some e) w fn weaken k h = weaken w.tables h

module _ {A : Type 0} {Q P : Tables → Type 0} where
  -- What undoing leaves is what held at the start.
  pub Leads-immediate :
      (env : Env) (fn : Io A)
      → ((t : Tables) → Q t → P t)
      → Ensures Q fn (λ _. P)
      → Leads Q (immediate env fn) P
  unfolding immediate
  Leads-immediate env fn weaken k = record {
    at = λ w h. led_from Q P env (env.fault w.tick) (later w) fn weaken k h;
  }
