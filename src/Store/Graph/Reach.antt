-- ===== src/Store/Graph/Reach.antt =====
-- internal/store/graph_store.go: which features the traversal finds.
use prowiki.Base.{
  ℕ, zero, suc, ◌≤◌, ◌≡◌, refl, sym, ap, ◌∙◌, subst, Bool, true, false, ◌&&◌, ◌||◌, List, [], ◌∷◌,
  ◌++◌, exists_where, ◌==◌, ==_iff, if◌then◌else◌, inl, inr, ◌↔◌, arith, Bool-cases,
}
use prowiki.Domain.Entities.{Feature, FeatureInteraction, Job}
use prowiki.Db.Io.{World, reliable, later}
use prowiki.Domain.Errors.{ok}
use prowiki.Store.Graph.{
  starts, targets, next_depth, depths, is_in, distinct, further_depths, pipelines_query,
  discover_macro_pipelines,
}

abbrev pub In : ℕ → List ℕ → Type 0
In id ids = is_in id ids ≡ true

-- One of the interactions leads from one feature to the other.
abbrev pub IsEdge : List FeatureInteraction → ℕ → ℕ → Type 0
IsEdge interactions from to =
    exists_where
      (λ (i : FeatureInteraction). (i.from_feature_id == from) && (i.to_feature_id == to))
      interactions
    ≡ true

-- A walk along so many interactions.
pub data Walk (interactions : List FeatureInteraction) : ℕ → ℕ → ℕ → Type 0 where
  stay : {a : ℕ} → Walk interactions 0 a a
  step :
      {n a b c : ℕ}
      → IsEdge interactions a b
      → Walk interactions n b c
      → Walk interactions (suc n) a c

is_in-append : (x : ℕ) (xs ys : List ℕ) → is_in x (xs ++ ys) ≡ (is_in x xs || is_in x ys)
is_in-append x [] ys = refl
is_in-append x (z ∷ xs) ys = ground (arith, is_in-append x xs ys)

is_in-distinct : (x : ℕ) (xs : List ℕ) → is_in x (distinct xs) ≡ is_in x xs
unfolding distinct
is_in-distinct x [] = refl
is_in-distinct x (y ∷ xs) = ground (arith, is_in-distinct x xs, is_in-distinct y xs)

is_in-targets :
    (is : List FeatureInteraction) (a c : ℕ)
    → is_in c (targets is a)
      ≡ exists_where
          (λ (i : FeatureInteraction). (i.from_feature_id == a) && (i.to_feature_id == c))
          is
unfolding targets
is_in-targets [] a c = refl
is_in-targets (i ∷ is) a c = ground (arith, is_in-targets is a c)

In-next_depth :
    (is : List FeatureInteraction) (ids : List ℕ) (c : ℕ)
    → In c (next_depth is ids)
    → (a : ℕ) × In a ids × IsEdge is a c
unfolding next_depth
In-next_depth is [] c h = absurd (cc)
In-next_depth is (a ∷ ids) c h = elim (Bool-cases (is_in c (targets is a))) [
  | inl e ↦ (a, ground arith, sym (is_in-targets is a c) ∙ e)
  | inr e ↦
      let later : In c (next_depth is ids) =
        ground (arith, e, is_in-append c (targets is a) (next_depth is ids)) in
      let (b, found, edge) = In-next_depth is ids c later in (b, ground (arith, found), edge)
]

next_depth-In :
    (is : List FeatureInteraction) (ids : List ℕ) (a c : ℕ)
    → In a ids
    → IsEdge is a c
    → In c (next_depth is ids)
unfolding next_depth
next_depth-In is [] a c h edge = absurd (cc)
next_depth-In is (b ∷ ids) a c h edge = elim (Bool-cases (b == a)) [
  | inl e ↦
      let same : b ≡ a = (==_iff b a).0 e in
      let here : In c (targets is b) =
        is_in-targets is b c ∙ subst (λ (x : ℕ). IsEdge is x c) (sym same) edge in
      ground (arith, here, is_in-append c (targets is b) (next_depth is ids))
  | inr e ↦
      let further : In a ids = ground (arith, e) in
      ground (
        arith,
        next_depth-In is ids a c further edge,
        is_in-append c (targets is b) (next_depth is ids),
      )
]

-- Reached from one of the features along at most `n` interactions.
abbrev Reached : List FeatureInteraction → List ℕ → ℕ → ℕ → Type 0
Reached is ids n c = (a k : ℕ) × In a ids × (k ≤ n) × Walk is k a c

depths-Reached :
    (n : ℕ) (is : List FeatureInteraction) (ids : List ℕ) (c : ℕ)
    → In c (depths n is ids)
    → Reached is ids n c
unfolding depths
depths-Reached zero is ids c h = (c, 0, h, omega arith, stay)
depths-Reached (suc n) is ids c h = elim (Bool-cases (is_in c ids)) [
  | inl e ↦ (c, 0, e, omega arith, stay)
  | inr e ↦
      let later : In c (depths n is (next_depth is ids)) =
        ground (arith, e, is_in-append c ids (depths n is (next_depth is ids))) in
      let (b, k, found, few, walk) = depths-Reached n is (next_depth is ids) c later in
      let (a, first, edge) = In-next_depth is ids b found in
      (a, suc k, first, omega arith, step edge walk)
]

Reached-depths :
    (n k : ℕ) (is : List FeatureInteraction) (ids : List ℕ) (a c : ℕ)
    → In a ids
    → k ≤ n
    → Walk is k a c
    → In c (depths n is ids)
unfolding depths
Reached-depths zero zero is ids a c h few stay = h
Reached-depths zero (suc k) is ids a c h few walk = absurd (omega arith)
Reached-depths (suc n) zero is ids a c h few stay =
    ground (arith, h, is_in-append a ids (depths n is (next_depth is ids)))
Reached-depths (suc n) (suc k) is ids a c h few (step {b = b} edge walk) = ground (
  arith,
  Reached-depths n k is (next_depth is ids) b c (next_depth-In is ids a b h edge) (omega arith)
      walk,
  is_in-append c ids (depths n is (next_depth is ids)),
)

abbrev pub HasNoDuplicates : List ℕ → Type 0
HasNoDuplicates [] = Unit
HasNoDuplicates (x ∷ xs) = (is_in x xs ≡ false) × HasNoDuplicates xs

distinct-HasNoDuplicates : (xs : List ℕ) → HasNoDuplicates (distinct xs)
unfolding distinct
distinct-HasNoDuplicates [] = tt
distinct-HasNoDuplicates (x ∷ xs) = kept (is_in x (distinct xs)) refl (distinct-HasNoDuplicates xs)
  where
    kept :
        (b : Bool)
        → is_in x (distinct xs) ≡ b
        → HasNoDuplicates (distinct xs)
        → HasNoDuplicates (if b then distinct xs else x ∷ distinct xs)
    kept true e rest = rest
    kept false e rest = (e, rest)

-- A feature of the project.
abbrev pub is_of_project : ℕ → List Feature → ℕ → Bool
is_of_project project features id =
    exists_where (λ (f : Feature). (f.id == id) && (f.project_id == project)) features

abbrev starts_some : List FeatureInteraction → ℕ → Bool
starts_some interactions id =
    exists_where (λ (i : FeatureInteraction). i.from_feature_id == id) interactions

-- A feature of the project that an interaction starts from.
abbrev pub IsStart : ℕ → List Feature → List FeatureInteraction → ℕ → Type 0
IsStart project features interactions id =
    (exists_where (λ (i : FeatureInteraction). i.from_feature_id == id) interactions ≡ true)
    × (exists_where (λ (f : Feature). (f.id == id) && (f.project_id == project)) features ≡ true)

is_in-starts :
    (project a : ℕ) (fs : List Feature) (is : List FeatureInteraction)
    → is_in a (starts project fs is) ≡ (starts_some is a && is_of_project project fs a)
unfolding starts
is_in-starts project a fs [] = refl
is_in-starts project a fs (i ∷ is) =
    let rest = is_in-starts project a fs is in
    elim (Bool-cases (i.from_feature_id == a)) [
      | inl e ↦
          let same : i.from_feature_id ≡ a = ground (arith, e) in
          let of = ap (is_of_project project fs) same in ground (arith, e, of, rest)
      | inr e ↦ elim (Bool-cases (is_of_project project fs i.from_feature_id)) [
        | inl o ↦ ground (arith, e, o, rest)
        | inr o ↦ ground (arith, e, o, rest)
      ]
    ]

-- Reached from a feature of the project that an interaction starts from, along at most six
-- interactions.
abbrev pub IsInPipeline : ℕ → List Feature → List FeatureInteraction → ℕ → Type 0
IsInPipeline project features interactions c =
    (a k : ℕ) × IsStart project features interactions a × (k ≤ 6) × Walk interactions k a c

-- `DiscoverMacroPipelines`, where the database works: it changes no table, and returns each feature
-- once that can be reached along at most six interactions from a feature of the project that an
-- interaction starts from, and no other.
pub discover_macro_pipelines_lem :
    (clock : ℕ → ℕ) (arrange : List Job → List Job) (project : ℕ) (w : World)
    → (ids : List ℕ) × (discover_macro_pipelines (reliable clock arrange) project w
        ≡ (ok ids, later w))
      × HasNoDuplicates ids
      × ((c : ℕ)
          → (is_in c ids ≡ true)
            ↔ IsInPipeline project w.tables.features.rows w.tables.interactions.rows c)
unfolding discover_macro_pipelines pipelines_query
discover_macro_pipelines_lem clock arrange project w =
    let is = w.tables.interactions.rows in
    let fs = w.tables.features.rows in
    let first = starts project fs is in
    let all = depths further_depths is first in
    (
      distinct all,
      refl,
      distinct-HasNoDuplicates all,
      λ c. (
        λ found.
            let (a, k, start, few, walk) =
              depths-Reached further_depths is first c (sym (is_in-distinct c all) ∙ found) in
            let both = sym (is_in-starts project a fs is) ∙ start in
            (a, k, (ground (arith, both), ground (arith, both)), few, walk),
        λ (a, k, start, few, walk).
            let begun : In a first =
              is_in-starts project a fs is ∙ ground (arith, start.0, start.1) in
            is_in-distinct c all ∙ Reached-depths further_depths k is first a c begun few walk,
      ),
    )
