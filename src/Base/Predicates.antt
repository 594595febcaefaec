-- ===== src/Base/Predicates.antt =====
-- Predicates on all members of a list, and how the list forms of the SQL clauses carry them.
use Prim.Native.Nat.{ℕ, zero, suc}
use mathlib.Core.Path.{◌≡◌, refl}
use mathlib.Core.Logic.{inl, inr}
use mathlib.Core.Bool.{Bool, true, false}
use mathlib.Core.Option.{none, some}
use native.Mathlib.Omega.{arith}
use mathlib.Core.List.{List, [], ◌∷◌, ◌++◌, map}
use prowiki.Base.Tests.{if◌then◌else◌, Bool-cases}
use prowiki.Base.Lists.{All, select, take, drop, update_where, first_where}

module _ {ℓ κ} {A : Type ℓ} (P : A → Type κ) where
  pub All-append : (xs ys : List A) → All P xs → All P ys → All P (xs ++ ys)
  All-append [] ys hx hy = hy
  All-append (x ∷ xs) ys hx hy = (hx.0, All-append xs ys hx.1 hy)

  pub All-take : (n : ℕ) (xs : List A) → All P xs → All P (take n xs)
  All-take zero xs h = tt
  All-take (suc n) [] h = tt
  All-take (suc n) (x ∷ xs) h = (h.0, All-take n xs h.1)

  pub All-drop : (n : ℕ) (xs : List A) → All P xs → All P (drop n xs)
  All-drop zero xs h = h
  All-drop (suc n) [] h = tt
  All-drop (suc n) (x ∷ xs) h = All-drop n xs h.1

  pub All-take-drop : (n : ℕ) (xs : List A) → All P (take n xs) → All P (drop n xs) → All P xs
  All-take-drop zero xs ht hd = hd
  All-take-drop (suc n) [] ht hd = tt
  All-take-drop (suc n) (x ∷ xs) ht hd = (ht.0, All-take-drop n xs ht.1 hd)

  pub All-if :
      (b : Bool) (x : A) (xs : List A)
      → (b ≡ true → P x)
      → All P xs
      → All P (if b then x ∷ xs else xs)
  All-if true x xs hx h = (hx refl, h)
  All-if false x xs hx h = h

  -- A selected member satisfies what every member that passes the test satisfies.
  pub All-select :
      (p : A → Bool) (xs : List A) → All (λ x. p x ≡ true → P x) xs → All P (select p xs)
  All-select p [] h = tt
  All-select p (x ∷ xs) h = All-if (p x) x (select p xs) h.0 (All-select p xs h.1)

  -- The converse.
  pub All-of_select :
      (p : A → Bool) (xs : List A) → All P (select p xs) → All (λ x. p x ≡ true → P x) xs
  All-of_select p [] h = tt
  All-of_select p (x ∷ xs) h = elim (Bool-cases (p x)) [
    | inl e ↦ let h' : All P (x ∷ select p xs) = rw e at h in ((λ _. h'.0), All-of_select p xs h'.1)
    | inr e ↦
        let h' : All P (select p xs) = rw e at h in ((λ t. absurd (cc)), All-of_select p xs h')
  ]

  pub All-update_where :
      (p : A → Bool) (f : A → A) (xs : List A)
      → All (λ x. P (if p x then f x else x)) xs
      → All P (update_where p f xs)
  All-update_where p f [] h = tt
  All-update_where p f (x ∷ xs) h = (h.0, All-update_where p f xs h.1)

module _ {ℓ κ μ} {A : Type ℓ} {B : Type κ} (P : B → Type μ) where
  pub All-map : (f : A → B) (xs : List A) → All (λ x. P (f x)) xs → All P (map f xs)
  All-map f [] h = tt
  All-map f (x ∷ xs) h = (h.0, All-map f xs h.1)

module _ {ℓ κ} {A : Type ℓ} {P : A → Type κ} where
  pub All-of_each : ((x : A) → P x) → (xs : List A) → All P xs
  All-of_each h [] = tt
  All-of_each h (x ∷ xs) = (h x, All-of_each h xs)

  pub All-imp {μ} : {Q : A → Type μ} → ((x : A) → P x → Q x) → (xs : List A) → All P xs → All Q xs
  All-imp f [] h = tt
  All-imp f (x ∷ xs) h = (f x h.0, All-imp f xs h.1)

module _ {ℓ κ μ} {A : Type ℓ} where
  pub All-zip :
      (P : A → Type κ) (Q : A → Type μ) (xs : List A)
      → All P xs
      → All Q xs
      → All (λ x. P x × Q x) xs
  All-zip P Q [] hp hq = tt
  All-zip P Q (x ∷ xs) hp hq = ((hp.0, hq.0), All-zip P Q xs hp.1 hq.1)

module _ {ℓ κ μ} {A : Type ℓ} {B : Type κ} where
  pub All-swap :
      (R : A → B → Type μ) (xs : List A) (ys : List B)
      → All (λ x. All (R x) ys) xs
      → All (λ y. All (λ x. R x y) xs) ys
  All-swap R [] ys h = All-of_each (λ y. tt) ys
  All-swap R (x ∷ xs) ys h = All-zip (R x) (λ y. All (λ z. R z y) xs) ys h.0 (All-swap R xs ys h.1)

module _ {ℓ} {A : Type ℓ} (p : A → Bool) where
  pub first_where-append :
      (xs : List A) (x : A)
      → first_where p xs ≡ none
      → p x ≡ true
      → first_where p (xs ++ x ∷ []) ≡ some x
  first_where-append [] x h e = ground (arith, e)
  first_where-append (y ∷ xs) x h e = ground (arith, first_where-append xs x)

  pub first_where-found : (xs : List A) (x : A) → first_where p xs ≡ some x → p x ≡ true
  first_where-found [] x h = absurd (cc)
  first_where-found (y ∷ xs) x h = ground (arith, first_where-found xs x)
