-- ===== src/Llm/Schema/Repair.antt =====
-- internal/llm/schema.go: what is left of an answer with prose or fences around its JSON.
use prowiki.Base.{
  ℕ, suc, ◌≡◌, refl, ap, ◌∙◌, Bool, true, false, ◌||◌, [], ◌∷◌, ◌++◌, length, take, drop, ltb,
  if◌then◌else◌, Option, none, some, Bytes, All, arith, is_space, trim_left, trim_right, trim_space,
}
use prowiki.Llm.Schema.{
  index_where, last_index_where, first_of, last_of, from_index, to_index, is_char, strip_before,
  strip_after, repair_markdown_fences,
}

abbrev pub is_opening : ℕ → Bool
is_opening c = is_char b'{' c || is_char b'[' c

abbrev pub is_closing : ℕ → Bool
is_closing c = is_char b'}' c || is_char b']' c

first_of-index_where :
    (p q : ℕ → Bool) (s : Bytes)
    → first_of (index_where p s) (index_where q s) ≡ index_where (λ c. p c || q c) s
unfolding index_where
first_of-index_where p q [] = refl
first_of-index_where p q (c ∷ s) = ground (arith, first_of-index_where p q s)

last_of-last_index_where :
    (p q : ℕ → Bool) (s : Bytes)
    → last_of (last_index_where p s) (last_index_where q s) ≡ last_index_where (λ c. p c || q c) s
unfolding last_index_where
last_of-last_index_where p q [] = refl
last_of-last_index_where p q (c ∷ s) = ground (arith, last_of-last_index_where p q s)

index_where-first :
    (p : ℕ → Bool) (before s : Bytes) (c : ℕ)
    → All (λ d. p d ≡ false) before
    → p c ≡ true
    → index_where p (before ++ c ∷ s) ≡ some (length before)
unfolding index_where
index_where-first p [] s c h e = ground (arith, e)
index_where-first p (d ∷ before) s c h e = ground (arith, h.0, index_where-first p before s c h.1 e)

last_index_where-none :
    (p : ℕ → Bool) (s : Bytes) → All (λ d. p d ≡ false) s → last_index_where p s ≡ none
unfolding last_index_where
last_index_where-none p [] h = refl
last_index_where-none p (d ∷ s) h = ground (arith, h.0, last_index_where-none p s h.1)

last_index_where-last :
    (p : ℕ → Bool) (before s : Bytes) (c : ℕ)
    → All (λ d. p d ≡ false) s
    → p c ≡ true
    → last_index_where p (before ++ c ∷ s) ≡ some (length before)
unfolding last_index_where
last_index_where-last p [] s c h e = ground (arith, e, last_index_where-none p s h)
last_index_where-last p (d ∷ before) s c h e =
    ground (arith, last_index_where-last p before s c h e)

drop-length : (before s : Bytes) → drop (length before) (before ++ s) ≡ s
drop-length [] s = refl
drop-length (d ∷ before) s = drop-length before s

take-length :
    (before s : Bytes) (c : ℕ) → take (suc (length before)) (before ++ c ∷ s) ≡ before ++ c ∷ []
take-length [] s c = refl
take-length (d ∷ before) s c = ap (λ (r : Bytes). d ∷ r) (take-length before s c)

ltb-length : (before s : Bytes) (c : ℕ) → ltb (length before) (length (before ++ c ∷ s)) ≡ true
ltb-length [] s c = ground arith
ltb-length (d ∷ before) s c = ground (arith, ltb-length before s c)

left_of :
    (b : Bool) (t u r : Bytes) (d c : ℕ) (before : Bytes)
    → t ≡ u ++ c ∷ r
    → (if b then t else d ∷ (before ++ c ∷ r)) ≡ (if b then u else d ∷ before) ++ c ∷ r
left_of true t u r d c before h = h
left_of false t u r d c before h = refl

trim_left-append :
    (before s : Bytes) (c : ℕ)
    → is_space c ≡ false
    → trim_left (before ++ c ∷ s) ≡ trim_left before ++ c ∷ s
unfolding trim_left
trim_left-append [] s c e = ground (arith, e)
trim_left-append (d ∷ before) s c e =
    left_of (is_space d) _ (trim_left before) s d c before (trim_left-append before s c e)

-- What `trim_right` does with a character and the trimmed rest.
abbrev onto_right : ℕ → Bytes → Bytes
onto_right d [] = if is_space d then [] else d ∷ []
onto_right d (x ∷ r) = d ∷ x ∷ r

trim_right-onto : (d : ℕ) (s : Bytes) → trim_right (d ∷ s) ≡ onto_right d (trim_right s)
unfolding trim_right
trim_right-onto d s = refl

kept_right : (c : ℕ) (r : Bytes) → is_space c ≡ false → onto_right c r ≡ c ∷ r
kept_right c [] e = ground (arith, e)
kept_right c (x ∷ r) e = refl

onto_right-append :
    (d : ℕ) (before r : Bytes) (c : ℕ) → onto_right d (before ++ c ∷ r) ≡ d ∷ (before ++ c ∷ r)
onto_right-append d [] r c = refl
onto_right-append d (x ∷ before) r c = refl

trim_right-append :
    (before s : Bytes) (c : ℕ)
    → is_space c ≡ false
    → trim_right (before ++ c ∷ s) ≡ before ++ c ∷ trim_right s
trim_right-append [] s c e = trim_right-onto c s ∙ kept_right c (trim_right s) e
trim_right-append (d ∷ before) s c e =
    trim_right-onto d (before ++ c ∷ s)
    ∙ ap (onto_right d) (trim_right-append before s c e)
    ∙ onto_right-append d before (trim_right s) c

trim_left-All : (P : ℕ → Type 0) (s : Bytes) → All P s → All P (trim_left s)
unfolding trim_left
trim_left-All P [] h = h
trim_left-All P (d ∷ s) h = kept (is_space d) (trim_left-All P s h.1)
  where
    kept : (b : Bool) → All P (trim_left s) → All P (if b then trim_left s else d ∷ s)
    kept true k = k
    kept false k = h

trim_right-All : (P : ℕ → Type 0) (s : Bytes) → All P s → All P (trim_right s)
unfolding trim_right
trim_right-All P [] h = h
trim_right-All P (d ∷ s) h = kept (trim_right s) (trim_right-All P s h.1)
  where
    kept : (r : Bytes) → All P r → All P (onto_right d r)
    kept [] k = ends (is_space d)
      where
        ends : (b : Bool) → All P (if b then [] else d ∷ [])
        ends true = tt
        ends false = (h.0, tt)
    kept (x ∷ r) k = (h.0, k)

opening_is_no_space : (c : ℕ) → is_opening c ≡ true → is_space c ≡ false
opening_is_no_space c h = ground arith

closing_is_no_space : (c : ℕ) → is_closing c ≡ true → is_space c ≡ false
closing_is_no_space c h = ground arith

-- The text from an opening to a closing character, with other text around it.
abbrev around : Bytes → ℕ → Bytes → ℕ → Bytes → Bytes
around before o middle c after = before ++ o ∷ (middle ++ c ∷ after)

trim_space-around :
    (before middle after : Bytes) (o c : ℕ)
    → is_space o ≡ false
    → is_space c ≡ false
    → trim_space (around before o middle c after)
      ≡ around (trim_left before) o middle c (trim_right after)
unfolding trim_space
trim_space-around before middle after o c e f =
    ap trim_right (trim_left-append before (middle ++ c ∷ after) o e)
    ∙ trim_right-append (trim_left before) (middle ++ c ∷ after) o e
    ∙ ap (λ (r : Bytes). trim_left before ++ o ∷ r) (trim_right-append middle after c f)

strip_before-around :
    (before s : Bytes) (o : ℕ)
    → All (λ d. is_opening d ≡ false) before
    → is_opening o ≡ true
    → strip_before (before ++ o ∷ s) ≡ o ∷ s
unfolding strip_before
strip_before-around before s o h e =
    ap (λ (i : Option ℕ). from_index i (before ++ o ∷ s))
      (first_of-index_where (is_char b'{') (is_char b'[') (before ++ o ∷ s)
        ∙ index_where-first is_opening before s o h e)
    ∙ drop-length before (o ∷ s)

strip_after-around :
    (s after : Bytes) (c : ℕ)
    → All (λ d. is_closing d ≡ false) after
    → is_closing c ≡ true
    → strip_after (s ++ c ∷ after) ≡ s ++ c ∷ []
unfolding strip_after
strip_after-around s after c h e =
    ap (λ (i : Option ℕ). to_index i (s ++ c ∷ after))
      (last_of-last_index_where (is_char b'}') (is_char b']') (s ++ c ∷ after)
        ∙ last_index_where-last is_closing s after c h e)
    ∙ ground (arith, ltb-length s after c, take-length s after c)

-- A text from a brace or bracket that opens to one that closes comes back from `repairMarkdownFences`
-- without what stands around it, where no brace or bracket opens before it and none closes after it.
pub repair_markdown_fences_lem :
    (before middle after : Bytes) (o c : ℕ)
    → All (λ d. is_opening d ≡ false) before
    → is_opening o ≡ true
    → is_closing c ≡ true
    → All (λ d. is_closing d ≡ false) after
    → repair_markdown_fences (before ++ o ∷ (middle ++ c ∷ after)) ≡ o ∷ (middle ++ c ∷ [])
unfolding repair_markdown_fences trim_left trim_right
repair_markdown_fences_lem before middle after o c h eo ec k =
    let no = opening_is_no_space o eo in
    let nc = closing_is_no_space c ec in
    ap (λ (s : Bytes). trim_space (strip_after (strip_before s)))
      (trim_space-around before middle after o c no nc)
    ∙ ap (λ (s : Bytes). trim_space (strip_after s))
        (strip_before-around (trim_left before) (middle ++ c ∷ trim_right after) o
          (trim_left-All (λ d. is_opening d ≡ false) before h) eo)
    ∙ ap trim_space (
        strip_after-around (o ∷ middle) (trim_right after) c
          (trim_right-All (λ d. is_closing d ≡ false) after k) ec)
    ∙ trim_space-around [] middle [] o c no nc
