-- ===== src/Api/Scan/Printed.antt =====
-- The decimal form of an id, as encoding/json writes it in the list of files, is read back.
use prowiki.Base.{
  ℕ, zero, suc, subst, ◌+◌, ◌-◌, ◌*◌, ◌/◌, ◌<◌, ◌≡◌, refl, ap, sym, ◌∙◌, true, false, leb, ltb,
  ◌==◌, [], ◌∷◌, ◌++◌, All, All-append, if◌then◌else◌, some, Bytes, is_space, arith, Bool-cases,
  inl, inr,
}
use Prim.Native.Nat.{◌%◌}
use prowiki.Api.Scan.{
  positive, is_digit, skip_space, digits_value, limit, in_range, scan_digits, scan_number,
}

-- `strconv.FormatInt` of a number that is not negative; `digits` bounds how many it has.
unfoldable pub decimal : ℕ → ℕ → Bytes
decimal zero n = []
decimal (suc digits) n =
    let front = decimal digits (n / 10) in
    if ltb n 10 then (48 + n) ∷ [] else front ++ (48 + n % 10) ∷ []

-- A number has fewer digits than its value plus two.
abbrev pub decimal_text : ℕ → Bytes
decimal_text n = decimal (suc n) n

-- A text that does not start with a digit.
abbrev pub IsAfter : Bytes → Type 0
IsAfter [] = Unit
IsAfter (c ∷ s) = is_digit c ≡ false

digits_value-append :
    (n : ℕ) (xs ys : Bytes)
    → All (λ c. is_digit c ≡ true) xs
    → digits_value n (xs ++ ys) ≡ digits_value (digits_value n xs) ys
unfolding digits_value
digits_value-append n [] ys h = refl
digits_value-append n (x ∷ xs) ys h = rw h.0 (digits_value-append (n * 10 + (x - 48)) xs ys h.1)

digits_value-stop : (n : ℕ) (ys : Bytes) → IsAfter ys → digits_value n ys ≡ n
unfolding digits_value
digits_value-stop n [] h = refl
digits_value-stop n (y ∷ ys) h = rw h refl

decimal-digits : (k n : ℕ) → All (λ c. is_digit c ≡ true) (decimal k n)
unfolding decimal
decimal-digits zero n = tt
decimal-digits (suc k) n = elim (Bool-cases (ltb n 10)) [
  | inl small ↦ rw small ((ground arith, tt))
  | inr big ↦ rw big (
      All-append (λ c. is_digit c ≡ true) (decimal k (n / 10)) ((48 + n % 10) ∷ [])
        (decimal-digits k (n / 10)) ((ground arith, tt)))
]

digits_value-decimal : (k n : ℕ) → n < k → digits_value 0 (decimal k n) ≡ n
unfolding digits_value decimal
digits_value-decimal zero n h = absurd (omega arith)
digits_value-decimal (suc k) n h = elim (Bool-cases (ltb n 10)) [
  | inl small ↦
      let digit : is_digit (48 + n) ≡ true = ground arith in rw (small, digit) (omega arith)
  | inr big ↦
      let digit : is_digit (48 + n % 10) ≡ true = ground arith in
      rw
        (
          big,
          digits_value-append 0 (decimal k (n / 10)) ((48 + n % 10) ∷ [])
              (decimal-digits k (n / 10)),
          digits_value-decimal k (n / 10) (ground arith),
          digit,
        )
        (omega arith)
]

append_starts : (xs : Bytes) (d : ℕ) → (c : ℕ) × ((s : Bytes) × (xs ++ d ∷ [] ≡ c ∷ s))
append_starts [] d = (d, ([], refl))
append_starts (c ∷ s) d = (c, (s ++ d ∷ [], refl))

decimal_starts : (k n : ℕ) → (c : ℕ) × ((s : Bytes) × (decimal (suc k) n ≡ c ∷ s))
unfolding decimal
decimal_starts k n = elim (Bool-cases (ltb n 10)) [
  | inl small ↦ (48 + n, ([], rw small refl))
  | inr big ↦
      let (c, (s, e)) = append_starts (decimal k (n / 10)) (48 + n % 10) in (c, (s, rw big e))
]

scan_number_digit :
    (c : ℕ) (s : Bytes)
    → is_digit c ≡ true
    → scan_number (c ∷ s) ≡ in_range (positive (digits_value 0 (c ∷ s)))
unfolding scan_number skip_space scan_digits
scan_number_digit c s h =
    let newline : (c == 10) ≡ false = ground arith in
    let space : is_space c ≡ false = ground arith in
    let plus : (c == 43) ≡ false = ground arith in
    let minus : (c == 45) ≡ false = ground arith in rw (newline, space, plus, minus, h) refl

-- The decimal form of an id below 2 ^ 63, and whatever stands behind it that does not go on with a
-- digit, is read as that id.
pub scan_number-decimal :
    (n : ℕ) (rest : Bytes)
    → n < limit
    → IsAfter rest
    → scan_number (decimal_text n ++ rest) ≡ some (positive n)
scan_number-decimal n rest h after =
    let (c, (s, e)) = decimal_starts n n in
    let digits : All (λ d. is_digit d ≡ true) (c ∷ s) =
      subst (All (λ d. is_digit d ≡ true)) e (decimal-digits (suc n) n) in
    let value : digits_value 0 (c ∷ s ++ rest) ≡ n =
      ap (λ (t : Bytes). digits_value 0 (t ++ rest)) (sym e)
      ∙ digits_value-append 0 (decimal (suc n) n) rest (decimal-digits (suc n) n)
      ∙ ap (λ (m : ℕ). digits_value m rest) (digits_value-decimal (suc n) n (omega arith))
      ∙ digits_value-stop n rest after in
    let fits : leb limit n ≡ false = ground arith in
    rw (e, scan_number_digit c (s ++ rest) digits.0, value, fits) refl
