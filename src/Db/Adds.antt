-- ===== src/Db/Adds.antt =====
-- Loops that insert a row for each member of a list, each in a statement of its own and outside of a
-- transaction, and what they leave where a statement fails.
use prowiki.Base.{ℕ, ◌≡◌, refl, ap, subst, String, List, [], ◌∷◌, ◌++◌, Option, none, some}
use prowiki.Domain.Errors.{Result, ok, err, panicked}
use prowiki.Db.Schema.{Tables}
use prowiki.Db.Io.{Env, World, Io, Query, statement, attempt, later, continue, ◌>>◌}

-- The statement of a member adds it, or fails with an error.
abbrev pub Inserts : Tables → Result (ℕ × Tables) → Type 0
Inserts u (ok (id, t)) = t ≡ u
Inserts u (err e) = Unit
Inserts u (panicked p) = ⊥

module _ {S : Type 0} (added : S → ℕ → Tables → Tables) where
  -- The second tables are the first after all members were added, in their order, at some times.
  abbrev pub Adds : List S → Tables → Tables → Type 0
  Adds [] t u = u ≡ t
  Adds (s ∷ rest) t u = (now : ℕ) × Adds rest (added s now t) u

  -- A part of the members from the start was added.
  abbrev pub AddsPart : List S → Tables → Tables → Type 0
  AddsPart ss t u = (done : List S) × (rest : List S) × (ss ≡ done ++ rest) × Adds done t u

  -- A loop that returns a value added all members, one that returns an error a part; none panics.
  abbrev pub IsLoop : List S → Tables → Result (Unit {0}) × World → Type 0
  IsLoop ss t (ok u, w) = Adds ss t w.tables
  IsLoop ss t (err e, w) = AddsPart ss t w.tables
  IsLoop ss t (panicked p, w) = ⊥

  one_more :
      (s : S) (ss : List S) (now : ℕ) (t u : Tables) (x : Result (Unit {0}) × World)
      → u ≡ added s now t
      → IsLoop ss u x
      → IsLoop (s ∷ ss) t x
  one_more s ss now t u (ok a, w) same h = (now, subst (λ v. Adds ss v w.tables) same h)
  one_more s ss now t u (err e, w) same (done, rest, split, h) =
      (s ∷ done, rest, ap (λ l. s ∷ l) split, (now, subst (λ v. Adds done v w.tables) same h))
  one_more s ss now t u (panicked p, w) same h = h

  stepped :
      (s : S) (ss : List S) (now : ℕ) (t : Tables) (o : Option String) (r : Result (ℕ × Tables))
      (w : World) (m : Io (Unit {0}))
      → w.tables ≡ t
      → Inserts (added s now t) r
      → ((v : World) → IsLoop ss v.tables (m v))
      → IsLoop (s ∷ ss) t (continue (attempt o r w).0 (λ _. m) (attempt o r w).1)
  stepped s ss now t (some e) r w m same h k = ([], s ∷ ss, refl, same)
  stepped s ss now t none (ok (id, u)) w m same h k =
      one_more s ss now t u (m (record w { tables = u })) h (k (record w { tables = u }))
  stepped s ss now t none (err e) w m same h k = ([], s ∷ ss, refl, same)
  stepped s ss now t none (panicked p) w m same h k = absurd h

  pub IsLoop-step :
      (env : Env) (s : S) (ss : List S) (q : Query ℕ) (m : Io (Unit {0})) (w : World)
      → ((now : ℕ) (t : Tables) → Inserts (added s now t) (q now t))
      → ((v : World) → IsLoop ss v.tables (m v))
      → IsLoop (s ∷ ss) w.tables ((statement env q >> m) w)
  unfolding statement
  IsLoop-step env s ss q m w h k =
      stepped s ss (env.clock w.tick) w.tables (env.fault w.tick) (q (env.clock w.tick) w.tables)
        (later w) m refl (h (env.clock w.tick) w.tables) k
