-- ===== src/Db/Ensures.antt =====
-- What a call establishes if it returns a value. A transaction needs no more of its function, since
-- it undoes what a failed function wrote.
use prowiki.Base.{String, subst, ℕ, ◌≡◌, refl, Bool, true, false, Option, some, none, if◌then◌else◌}
use prowiki.Domain.Errors.{Result, ok, err, panicked}
use prowiki.Db.Schema.{Tables}
use prowiki.Db.Keeps.{Keeps}
use prowiki.Db.Io.{Env, World, Io, Query, pure, continue, ◌>>=◌, statement, attempt, later}

abbrev pub Post : {A : Type 0} → (A → Tables → Type 0) → Result A × World → Type 0
Post Q (ok a, w) = Q a w.tables
Post Q (err e, w) = Unit
Post Q (panicked p, w) = Unit

pub record Ensures {A : Type 0} (P : Tables → Type 0) (m : Io A) (Q : A → Tables → Type 0)
    : Type 0 where
  pub at : (w : World) → P w.tables → Post Q (m w)

abbrev pub Yields : {A : Type 0} → (A → Tables → Type 0) → Result (A × Tables) → Type 0
Yields Q (ok (a, t)) = Q a t
Yields Q (err e) = Unit
Yields Q (panicked p) = Unit

pub Yields-imp :
    {A : Type 0} (x : Result (A × Tables)) {Q R : A → Tables → Type 0}
    → ((a : A) (t : Tables) → Q a t → R a t)
    → Yields Q x
    → Yields R x
Yields-imp (ok (a, t)) f h = f a t h
Yields-imp (err e) f h = tt
Yields-imp (panicked p) f h = tt

pub Post-imp :
    {A : Type 0} (x : Result A × World) {Q R : A → Tables → Type 0}
    → ((a : A) (t : Tables) → Q a t → R a t)
    → Post Q x
    → Post R x
Post-imp (ok a, w) f h = f a w.tables h
Post-imp (err e, w) f h = tt
Post-imp (panicked p, w) f h = tt

-- What holds after a call that returned a given value.
pub Post-at :
    {A : Type 0} (x : Result A × World) (Q : A → Tables → Type 0) (a : A)
    → Post Q x
    → x.0 ≡ ok a
    → Q a x.1.tables
Post-at (ok b, w) Q a h e = let same : b ≡ a = cc in subst (λ c. Q c w.tables) same h
Post-at (err b, w) Q a h e = absurd (cc)
Post-at (panicked p, w) Q a h e = absurd (cc)

yielded :
    {A : Type 0} (Q : A → Tables → Type 0) (o : Option String) (r : Result (A × Tables)) (w : World)
    → Yields Q r
    → Post Q (attempt o r w)
yielded Q none (ok (a, t)) w h = h
yielded Q none (err e) w h = tt
yielded Q none (panicked p) w h = tt
yielded Q (some e) r w h = tt

module _ {A : Type 0} {P : Tables → Type 0} (Q : A → Tables → Type 0) where
  pub Ensures-pure : (a : A) → ((t : Tables) → P t → Q a t) → Ensures P (pure a) Q
  Ensures-pure a k = record { at = λ w h. k w.tables h }

  pub Ensures-statement :
      (env : Env) (q : Query A)
      → ((now : ℕ) (t : Tables) → P t → Yields Q (q now t))
      → Ensures P (statement env q) Q
  unfolding statement
  Ensures-statement env q k = record {
    at = λ w h.
        yielded Q (env.fault w.tick) (q (env.clock w.tick) w.tables) (later w)
          (k (env.clock w.tick) w.tables h);
  }

  pub Ensures-if :
      (b : Bool) (m n : Io A)
      → (b ≡ true → Ensures P m Q)
      → (b ≡ false → Ensures P n Q)
      → Ensures P (if b then m else n) Q
  Ensures-if true m n km kn = km refl
  Ensures-if false m n km kn = kn refl

module _ {A B : Type 0} (Q : A → Tables → Type 0) (R : B → Tables → Type 0) where
  went_on :
      (r : Result A) (w : World) (f : A → Io B)
      → ((a : A) → Ensures (Q a) (f a) R)
      → Post Q (r, w)
      → Post R (continue r f w)
  went_on (ok a) w f kf h = (kf a).at w h
  went_on (err e) w f kf h = tt
  went_on (panicked p) w f kf h = tt

  pub Ensures-bind :
      {P : Tables → Type 0} (m : Io A) (f : A → Io B)
      → Ensures P m Q
      → ((a : A) → Ensures (Q a) (f a) R)
      → Ensures P (m >>= f) R
  Ensures-bind m f km kf = record { at = λ w h. went_on (m w).0 (m w).1 f kf (km.at w h) }

-- From `Q` before the call to `P` after it, whether it returns a value, an error or a panic.
pub record Leads {A : Type 0} (Q : Tables → Type 0) (m : Io A) (P : Tables → Type 0) : Type 0 where
  pub at : (w : World) → Q w.tables → P (m w).1.tables

module _ {A B : Type 0} (Q : A → Tables → Type 0) (P : Tables → Type 0) where
  led_on :
      (r : Result A) (w : World) (f : A → Io B)
      → ((a : A) → Leads (Q a) (f a) P)
      → P w.tables
      → Post Q (r, w)
      → P (continue r f w).1.tables
  led_on (ok a) w f kf h k = (kf a).at w k
  led_on (err e) w f kf h k = h
  led_on (panicked p) w f kf h k = h

  pub Leads-bind :
      {R : Tables → Type 0} (m : Io A) (f : A → Io B)
      → Leads R m P
      → Ensures R m Q
      → ((a : A) → Leads (Q a) (f a) P)
      → Leads R (m >>= f) P
  Leads-bind m f lm km kf = record {
    at = λ w h. led_on (m w).0 (m w).1 f kf (lm.at w h) (km.at w h);
  }

-- A statement that fails changes nothing, so that it keeps what it establishes when it succeeds.
once :
    {A : Type 0} (P : Tables → Type 0) (o : Option String) (r : Result (A × Tables)) (w : World)
    → P w.tables
    → Post (λ _. P) (attempt o r w)
    → P (attempt o r w).1.tables
once P none (ok (a, t)) w h k = k
once P none (err e) w h k = h
once P none (panicked p) w h k = h
once P (some e) r w h k = h

pub Keeps-once :
    {A : Type 0} (P : Tables → Type 0) (env : Env) (q : Query A)
    → Ensures P (statement env q) (λ _. P)
    → Keeps P (statement env q)
unfolding statement
Keeps-once P env q k = record {
  at = λ w h. once P (env.fault w.tick) (q (env.clock w.tick) w.tables) (later w) h (k.at w h);
}
