-- ===== src/Web/Renders/Documents.antt =====
-- web_framework.go: what the loop of `setDocument` does to the entries of the cache.
use goserver.Common.{
  arith, List, [], none, refl, ℕ, ◌+◌, ◌∷◌, ◌≡◌, ◌≤◌, if◌then◌else◌, length, some, suc, Bool-cases,
  Option-cases, false, inl, inr, is_some, some_inj, subst, Option,
}
use goserver.Text.{Str, str_eq}
use goserver.Text.Compare.{str_eq_iff}
use goserver.Maps.{lookup}
use goserver.Web.Renders.{CacheEntry, CachedDocument, weight, weight_at, drop_document}
use goserver.Web.Renders.Bytes.{IsMap, total}

-- the documents of the entries with other keys
unfoldable pub others : Str → List (Str × CacheEntry) → ℕ
others key [] = 0
others key ((k, e) ∷ items) =
    (if str_eq k key then 0 else elim e.document [ none ↦ 0 | some d ↦ 1 ]) + others key items

-- What the loop of `setDocument` does to the entries: one document less, and nothing else.
abbrev pub IsFreed : Str → List (Str × CacheEntry) → ℕ → List (Str × CacheEntry) → Type 0
IsFreed key items freed items' =
    (total items ≡ freed + total items')
    × (others key items ≡ suc (others key items'))
    × (lookup key items' ≡ lookup key items)
    × ((j : Str) → is_some (lookup j items') ≡ is_some (lookup j items))
    × (IsMap items → IsMap items')

IsFreed-cons :
    (key k : Str) (e : CacheEntry) (items items' : List (Str × CacheEntry)) (freed : ℕ)
    → IsFreed key items freed items'
    → IsFreed key ((k, e) ∷ items) freed ((k, e) ∷ items')
unfolding total others lookup
IsFreed-cons key k e items items' freed (a, b, c, d, m) = (
  omega (arith, a),
  omega (arith, b),
  ground (arith, c),
  (λ j. ground (arith, d j)),
  (λ h. (ground (arith, d k, h.0), m h.1)),
)

IsFreed-here :
    (key k : Str) (e : CacheEntry) (d : CachedDocument) (items : List (Str × CacheEntry))
    → str_eq k key ≡ false
    → e.document ≡ some d
    → IsFreed key ((k, e) ∷ items) (length d.body) ((k, record e { document = none }) ∷ items)
unfolding total others lookup weight
IsFreed-here key k e d items other h =
    (rw h (omega arith), rw (other, h) (omega arith), rw other refl, (λ j. ground arith), (λ m. m))

IsFreed-eq :
    (key : Str) (items i2 items' : List (Str × CacheEntry)) (fr freed : ℕ)
    → ◌≡◌ {A = Option (ℕ × List (Str × CacheEntry))} (some (fr, i2)) (some (freed, items'))
    → IsFreed key items fr i2
    → IsFreed key items freed items'
IsFreed-eq key items i2 items' fr freed h f =
    subst (λ (r : ℕ × List (Str × CacheEntry)). IsFreed key items r.0 r.1) (some_inj h) f

rest-IsFreed :
    (key k : Str) (e : CacheEntry) (items items' : List (Str × CacheEntry)) (freed : ℕ)
    → ((i2 : List (Str × CacheEntry)) (fr : ℕ)
        → drop_document key items ≡ some (fr, i2)
        → IsFreed key items fr i2)
    → ◌≡◌ {A = Option (ℕ × List (Str × CacheEntry))}
        (elim (drop_document key items) [ none ↦ none | some (fr, i2) ↦ some (fr, (k, e) ∷ i2) ])
        (some (freed, items'))
    → IsFreed key ((k, e) ∷ items) freed items'
rest-IsFreed key k e items items' freed ih h = elim (Option-cases (drop_document key items)) [
  | inl none_left ↦ (let bad = rw none_left at h in cc)
  | inr ((fr, i2), found) ↦
      IsFreed-eq key ((k, e) ∷ items) ((k, e) ∷ i2) items' fr freed (rw found at h)
        (IsFreed-cons key k e items i2 fr (ih i2 fr found))
]

pub drop_document-IsFreed :
    (key : Str) (items items' : List (Str × CacheEntry)) (freed : ℕ)
    → drop_document key items ≡ some (freed, items')
    → IsFreed key items freed items'
unfolding drop_document
drop_document-IsFreed key [] items' freed h = cc
drop_document-IsFreed key ((k, e) ∷ items) items' freed h = elim (Bool-cases (str_eq k key)) [
  | inl same ↦
      rest-IsFreed key k e items items' freed (λ i2 fr. drop_document-IsFreed key items i2 fr)
        (rw (drop_document, same) at h)
  | inr other ↦ elim (Option-cases e.document) [
    | inl bare ↦
        rest-IsFreed key k e items items' freed (λ i2 fr. drop_document-IsFreed key items i2 fr)
          (rw (drop_document, other, bare) at h)
    | inr (d, has) ↦
        IsFreed-eq key ((k, e) ∷ items) _ items' _ freed (rw (drop_document, other, has) at h)
          (IsFreed-here key k e d items other has)
  ]
]

rest_none :
    (key k : Str) (e : CacheEntry) (items : List (Str × CacheEntry))
    → ◌≡◌ {A = Option (ℕ × List (Str × CacheEntry))}
        (elim (drop_document key items) [ none ↦ none | some (fr, i2) ↦ some (fr, (k, e) ∷ i2) ])
        none
    → drop_document key items ≡ none
rest_none key k e items h = elim (Option-cases (drop_document key items)) [
  | inl missing ↦ missing
  | inr ((fr, i2), found) ↦ (let bad = rw found at h in cc)
]

weight_of_bare : (e : CacheEntry) → e.document ≡ none → weight e ≡ 0
unfolding weight
weight_of_bare e h = rw h refl

pub weight_at-le-total :
    (key : Str) (items : List (Str × CacheEntry)) → weight_at key items ≤ total items
unfolding weight_at total lookup
weight_at-le-total key [] = omega arith
weight_at-le-total key ((k, e) ∷ items) = ground (arith, weight_at-le-total key items)

pub drop_document-none :
    (key : Str) (items : List (Str × CacheEntry))
    → IsMap items
    → drop_document key items ≡ none
    → total items ≡ weight_at key items
unfolding drop_document total weight_at lookup
drop_document-none key [] m h = refl
drop_document-none key ((k, e) ∷ items) (free, m) h = elim (Bool-cases (str_eq k key)) [
  | inl same ↦
      let more =
        drop_document-none key items m (rest_none key k e items (rw (drop_document, same) at h)) in
      let missing = subst (λ u. lookup u items ≡ none) ((str_eq_iff k key).0 same) free in
      rw (weight_at, same) (omega (arith, rw (weight_at, missing) at more))
  | inr other ↦ elim (Option-cases e.document) [
    | inl bare ↦
        let more =
          drop_document-none key items m
            (rest_none key k e items (rw (drop_document, other, bare) at h)) in
        ground (arith, more, weight_of_bare e bare, other)
    | inr (d, has) ↦ (let bad = rw (drop_document, other, has) at h in cc)
  ]
]

pub others_le : (key : Str) (items : List (Str × CacheEntry)) → others key items ≤ length items
unfolding others
others_le key [] = omega arith
others_le key ((k, e) ∷ items) = ground (arith, others_le key items)
