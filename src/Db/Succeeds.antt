-- ===== src/Db/Succeeds.antt =====
-- What a call establishes where it surely returns a value.
use prowiki.Base.{List, ℕ, ◌≡◌, refl, Bool, true, false, if◌then◌else◌}
use prowiki.Domain.Errors.{Result, ok, err, panicked}
use prowiki.Domain.Entities.{Job}
use prowiki.Db.Schema.{Tables}
use prowiki.Db.Io.{World, Io, Query, pure, continue, ◌>>=◌, statement, settle, later, reliable}

-- A value, with what it and the tables satisfy.
abbrev pub Value : {A : Type 0} → (A → Tables → Type 0) → Result A × World → Type 0
Value Q (ok a, w) = Q a w.tables
Value Q (err e, w) = ⊥
Value Q (panicked p, w) = ⊥

pub record Succeeds {A : Type 0} (P : Tables → Type 0) (m : Io A) (Q : A → Tables → Type 0)
    : Type 0 where
  pub at : (w : World) → P w.tables → Value Q (m w)

-- The outcome of a query.
abbrev pub Gives : {A : Type 0} → (A → Tables → Type 0) → Result (A × Tables) → Type 0
Gives Q (ok (a, t)) = Q a t
Gives Q (err e) = ⊥
Gives Q (panicked p) = ⊥

given :
    {A : Type 0} (Q : A → Tables → Type 0) (r : Result (A × Tables)) (w : World)
    → Gives Q r
    → Value Q (settle w r)
given Q (ok (a, t)) w h = h
given Q (err e) w h = h
given Q (panicked p) w h = h

module _ {A : Type 0} {P : Tables → Type 0} (Q : A → Tables → Type 0) where
  pub Succeeds-pure : (a : A) → ((t : Tables) → P t → Q a t) → Succeeds P (pure a) Q
  Succeeds-pure a k = record { at = λ w h. k w.tables h }

  pub Succeeds-statement :
      (clock : ℕ → ℕ) (arrange : List Job → List Job) (q : Query A)
      → ((now : ℕ) (t : Tables) → P t → Gives Q (q now t))
      → Succeeds P (statement (reliable clock arrange) q) Q
  unfolding statement
  Succeeds-statement clock arrange q k = record {
    at = λ w h. given Q (q (clock w.tick) w.tables) (later w) (k (clock w.tick) w.tables h);
  }

  pub Succeeds-if :
      (b : Bool) (m n : Io A)
      → (b ≡ true → Succeeds P m Q)
      → (b ≡ false → Succeeds P n Q)
      → Succeeds P (if b then m else n) Q
  Succeeds-if true m n km kn = km refl
  Succeeds-if false m n km kn = kn refl

module _ {A B : Type 0} (Q : A → Tables → Type 0) (R : B → Tables → Type 0) where
  goes_on :
      (r : Result A) (w : World) (f : A → Io B)
      → ((a : A) → Succeeds (Q a) (f a) R)
      → Value Q (r, w)
      → Value R (continue r f w)
  goes_on (ok a) w f kf h = (kf a).at w h
  goes_on (err e) w f kf h = absurd h
  goes_on (panicked p) w f kf h = absurd h

  pub Succeeds-bind :
      {P : Tables → Type 0} (m : Io A) (f : A → Io B)
      → Succeeds P m Q
      → ((a : A) → Succeeds (Q a) (f a) R)
      → Succeeds P (m >>= f) R
  Succeeds-bind m f km kf = record { at = λ w h. goes_on (m w).0 (m w).1 f kf (km.at w h) }
