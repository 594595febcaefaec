-- ===== src/Db/Keeps.antt =====
-- Invariants of the tables: one rule for each way in which a call is built. They hold in every
-- environment, so on every branch on which a statement fails.
use prowiki.Base.{String, ℕ, Bool, true, false, Option, some, none, if◌then◌else◌}
use prowiki.Domain.Errors.{Error, Result, ok, err, panicked}
use prowiki.Db.Schema.{Tables}
use prowiki.Db.Io.{
  Env, World, Io, Query, pure, raise, lift, continue, ◌>>=◌, statement, attempt, later,
}

-- `m` keeps `P`, whether it returns a value, an error or a panic.
pub record Keeps {A : Type 0} (P : Tables → Type 0) (m : Io A) : Type 0 where
  pub at : (w : World) → P w.tables → P (m w).1.tables

-- A statement's tables satisfy `P`, if it succeeds.
abbrev pub Leaves : {A : Type 0} → (Tables → Type 0) → Result (A × Tables) → Type 0
Leaves P (ok (a, t)) = P t
Leaves P (err e) = Unit
Leaves P (panicked p) = Unit

settled :
    {A : Type 0} (P : Tables → Type 0) (o : Option String) (r : Result (A × Tables)) (w : World)
    → P w.tables
    → Leaves P r
    → P (attempt o r w).1.tables
settled P none (ok (a, t)) w h k = k
settled P none (err e) w h k = h
settled P none (panicked p) w h k = h
settled P (some e) r w h k = h

module _ {A : Type 0} {P : Tables → Type 0} where
  pub Keeps-pure : (a : A) → Keeps P (pure a)
  Keeps-pure a = record { at = λ w h. h }

  pub Keeps-raise : (e : Error) → Keeps P (raise {A = A} e)
  Keeps-raise e = record { at = λ w h. h }

  pub Keeps-lift : (r : Result A) → Keeps P (lift r)
  Keeps-lift r = record { at = λ w h. h }

  pub Keeps-if : (b : Bool) (m n : Io A) → Keeps P m → Keeps P n → Keeps P (if b then m else n)
  Keeps-if true m n km kn = km
  Keeps-if false m n km kn = kn

  pub Keeps-statement :
      (env : Env) (q : Query A)
      → ((now : ℕ) (t : Tables) → P t → Leaves P (q now t))
      → Keeps P (statement env q)
  unfolding statement
  Keeps-statement env q k = record {
    at = λ w h.
        settled P (env.fault w.tick) (q (env.clock w.tick) w.tables) (later w) h
          (k (env.clock w.tick) w.tables h);
  }

module _ {A B : Type 0} {P : Tables → Type 0} where
  continued :
      (r : Result A) (f : A → Io B) (w : World)
      → ((a : A) → Keeps P (f a))
      → P w.tables
      → P (continue r f w).1.tables
  continued (ok a) f w kf h = (kf a).at w h
  continued (err e) f w kf h = h
  continued (panicked p) f w kf h = h

  pub Keeps-bind :
      (m : Io A) (f : A → Io B) → Keeps P m → ((a : A) → Keeps P (f a)) → Keeps P (m >>= f)
  Keeps-bind m f km kf = record { at = λ w h. continued (m w).0 f (m w).1 kf (km.at w h) }

pub ruleset keeps_rules = (Keeps-pure, Keeps-raise, Keeps-lift, Keeps-if, Keeps-bind)
