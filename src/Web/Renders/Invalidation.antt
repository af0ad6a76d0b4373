-- ===== src/Web/Renders/Invalidation.antt =====
-- web_framework.go: what `invalidateTags` leaves.
use goserver.Common.{
  arith, List, [], false, if◌then◌else◌, some, true, ◌∷◌, ◌≡◌, Bool-cases, inl, inr, refl, subst,
  sym, none, ◌-◌,
}
use goserver.Text.{Str, member, str_eq}
use goserver.Text.Compare.{str_eq_iff}
use goserver.Maps.{lookup, delete, lookup-delete}
use goserver.Web.Renders.{RenderCache, CacheEntry, drop_keys, invalidate_tags, weight_at}
use goserver.Web.Renders.Index.{tagged, IsIndexed, tagged-delete}

drop_keys-lookup :
    (keys : List Str) (c : RenderCache) (j : Str)
    → lookup j (drop_keys keys c).items ≡ (if member j keys then none else lookup j c.items)
unfolding drop_keys member
drop_keys-lookup [] c j = refl
drop_keys-lookup (k ∷ keys) c j = ground (
  arith,
  drop_keys-lookup keys
      (record c {
        items = delete k c.items;
        document_bytes = c.document_bytes - weight_at k c.items;
        key_tags = delete k c.key_tags;
      })
      j,
  lookup-delete k j c.items,
  str_eq_iff k j,
  str_eq_iff j k,
)

drop_keys-tags : (keys : List Str) (c : RenderCache) → (drop_keys keys c).tags ≡ c.tags
unfolding drop_keys
drop_keys-tags [] c = refl
drop_keys-tags (k ∷ keys) c = drop_keys-tags keys _

-- One tag's turn in `invalidateTags`.
abbrev invalidated : Str → RenderCache → RenderCache
invalidated tag c =
    let c1 = drop_keys (tagged tag c.tags) c in record c1 { tags = delete tag c1.tags }

lookup_of_dropped :
    (keys : List Str) (c : RenderCache) (j : Str) (e : CacheEntry)
    → lookup j (drop_keys keys c).items ≡ some e
    → (member j keys ≡ false) × (lookup j c.items ≡ some e)
lookup_of_dropped keys c j e h = elim (Bool-cases (member j keys)) [
  | inl listed ↦ (let bad = rw (drop_keys-lookup keys c j, listed) at h in cc)
  | inr free ↦ (free, rw (drop_keys-lookup keys c j, free) at h)
]

invalidated-IsIndexed :
    (tag : Str) (c : RenderCache)
    → IsIndexed c.items c.tags
    → IsIndexed (invalidated tag c).items (invalidated tag c).tags
invalidated-IsIndexed tag c v k e t h n m =
    let (free, found) = lookup_of_dropped (tagged tag c.tags) c k e h in
    let listed = v k e t found n m in
    elim (Bool-cases (str_eq tag t)) [
      | inl same ↦
          (let here =
              subst (λ u. member k (tagged u c.tags) ≡ true) (sym ((str_eq_iff tag t).0 same))
                listed in
            cc)
      | inr other ↦
          rw (drop_keys-tags (tagged tag c.tags) c, tagged-delete tag t c.tags, other) listed
    ]

-- So does an invalidation of tags.
invalidate_tags-IsIndexed :
    (tags : List Str) (c : RenderCache)
    → IsIndexed c.items c.tags
    → IsIndexed (invalidate_tags tags c).items (invalidate_tags tags c).tags
unfolding invalidate_tags
invalidate_tags-IsIndexed [] c v = v
invalidate_tags-IsIndexed (tag ∷ more) c v =
    invalidate_tags-IsIndexed more (invalidated tag c) (invalidated-IsIndexed tag c v)

invalidate_tags-kept :
    (tags : List Str) (c : RenderCache) (key : Str) (e : CacheEntry)
    → lookup key (invalidate_tags tags c).items ≡ some e
    → lookup key c.items ≡ some e
unfolding invalidate_tags
invalidate_tags-kept [] c key e h = h
invalidate_tags-kept (tag ∷ more) c key e h =
    (lookup_of_dropped (tagged tag c.tags) c key e
      (invalidate_tags-kept more (invalidated tag c) key e h)).1

untagged_of_free :
    (key tag t : Str) (e : CacheEntry) (c : RenderCache)
    → IsIndexed c.items c.tags
    → lookup key c.items ≡ some e
    → member key (tagged t c.tags) ≡ false
    → tag ≡ t
    → str_eq tag [] ≡ false
    → member tag e.result.cache_tags ≡ false
untagged_of_free key tag t e c v found free same n =
    elim (Bool-cases (member tag e.result.cache_tags)) [
      | inl m ↦
          (let listed =
              subst (λ u. member key (tagged u c.tags) ≡ true) same (v key e tag found n m) in
            cc)
      | inr m ↦ m
    ]

-- An entry that is still in the cache after an invalidation of tags has none of these tags,
-- the empty one aside, where the index listed every entry under its tags before.
pub invalidate_tags_fresh :
    (tags : List Str) (c : RenderCache) (key tag : Str) (e : CacheEntry)
    → IsIndexed c.items c.tags
    → lookup key (invalidate_tags tags c).items ≡ some e
    → member tag tags ≡ true
    → str_eq tag [] ≡ false
    → member tag e.result.cache_tags ≡ false
unfolding invalidate_tags member
invalidate_tags_fresh [] c key tag e v h m n = cc
invalidate_tags_fresh (t ∷ more) c key tag e v h m n = elim (Bool-cases (str_eq tag t)) [
  | inr other ↦
      invalidate_tags_fresh more (invalidated t c) key tag e (invalidated-IsIndexed t c v) h
        (ground (arith, m, other)) n
  | inl same ↦
      let (free, found) =
        lookup_of_dropped (tagged t c.tags) c key e
          (invalidate_tags-kept more (invalidated t c) key e h) in
      untagged_of_free key tag t e c v found free ((str_eq_iff tag t).0 same) n
]
