-- ===== src/Txn/Succeeds.antt =====
-- internal/txn/txn.go: a transaction of a function that returns a value, where the database works.
use prowiki.Base.{ℕ, List}
use prowiki.Domain.Errors.{Result, ok, err, panicked}
use prowiki.Domain.Entities.{Job}
use prowiki.Db.Schema.{Tables}
use prowiki.Db.Io.{World, Io, later, reliable}
use prowiki.Db.Succeeds.{Succeeds, Value}
use prowiki.Txn.{immediate, conclude}

module _ {A : Type 0} (Q : A → Tables → Type 0) (clock : ℕ → ℕ)
    (arrange : List Job → List Job) where
  concluded_well :
      (w : World) (x : Result A × World)
      → Value Q x
      → Value Q (conclude (reliable clock arrange) w x)
  concluded_well w (ok a, v) h = h
  concluded_well w (err e, v) h = h
  concluded_well w (panicked p, v) h = h

  pub Succeeds-immediate :
      {P : Tables → Type 0} (fn : Io A)
      → Succeeds P fn Q
      → Succeeds P (immediate (reliable clock arrange) fn) Q
  unfolding immediate
  Succeeds-immediate fn k = record {
    at = λ w h. concluded_well (later w) (fn (later w)) (k.at (later w) h);
  }
