-- ===== src/Web/Renders/Bytes.antt =====
-- web_framework.go: the count of the bytes of documents in `renderCache`, and the room for one more.
use goserver.Common.{
  arith, List, [], none, refl, ℕ, ◌+◌, ◌∷◌, ◌≡◌, ◌≤◌, if_intro, if◌then◌else◌, leb, length,
}
use goserver.Text.{Str}
use goserver.Text.Compare.{str_eq_iff}
use goserver.Maps.{lookup, insert, delete, lookup-insert, lookup-delete, lookup_or}
use goserver.Web.Renders.{
  RenderCache, CacheEntry, RenderResult, weight, weight_at, drop_keys, evict_oldest,
  invalidate_tags, oldest_from, set_with_tag_versions,
}

-- Each key stands once.
abbrev pub IsMap : List (Str × CacheEntry) → Type 0
IsMap [] = Unit {0}
IsMap ((k, e) ∷ items) = (lookup k items ≡ none) × IsMap items

-- the bytes of all documents
unfoldable pub total : List (Str × CacheEntry) → ℕ
total [] = 0
total ((k, e) ∷ items) = weight e + total items

pub total-insert :
    (k : Str) (e : CacheEntry) (m : List (Str × CacheEntry))
    → total (insert k e m) + weight_at k m ≡ total m + weight e
unfolding total weight_at insert lookup
total-insert k e [] = omega arith
total-insert k e ((j, w) ∷ m) = ground (arith, total-insert k e m)

delete-missing : (k : Str) (m : List (Str × CacheEntry)) → lookup k m ≡ none → delete k m ≡ m
unfolding lookup delete
delete-missing k [] h = refl
delete-missing k ((j, w) ∷ m) h = ground (arith, delete-missing k m)

total-delete :
    (k : Str) (m : List (Str × CacheEntry)) → IsMap m → total (delete k m) + weight_at k m ≡ total m
unfolding total weight_at delete lookup
total-delete k [] h = refl
total-delete k ((j, w) ∷ m) (free, h) =
    ground (arith, total-delete k m h, delete-missing k m, str_eq_iff j k, free)

pub insert-IsMap :
    (k : Str) (e : CacheEntry) (m : List (Str × CacheEntry)) → IsMap m → IsMap (insert k e m)
unfolding insert lookup
insert-IsMap k e [] h = (refl, tt)
insert-IsMap k e ((j, w) ∷ m) (free, h) =
    ground
      (arith, insert-IsMap k e m h, lookup-insert k j e m, str_eq_iff j k, str_eq_iff k j, free)

delete-IsMap : (k : Str) (m : List (Str × CacheEntry)) → IsMap m → IsMap (delete k m)
unfolding delete
delete-IsMap k [] h = tt
delete-IsMap k ((j, w) ∷ m) (free, h) =
    ground (arith, delete-IsMap k m h, lookup-delete k j m, free)

-- The count is that of the documents, and keeps its limit.
pub record IsCounted (c : RenderCache) : Type 0 where
  pub distinct : IsMap c.items
  pub counted : c.document_bytes ≡ total c.items
  pub bounded : c.document_bytes ≤ c.max_document_bytes

evict-IsCounted : (c : RenderCache) → IsCounted c → IsCounted (evict_oldest c)
unfolding evict_oldest
evict-IsCounted c v =
    let oldest = oldest_from c.items [] 0 in
    let left = total-delete oldest c.items v.distinct in
    record {
      distinct = delete-IsMap oldest c.items v.distinct;
      counted = omega (arith, left, v.counted);
      bounded = omega (arith, v.bounded);
    }

-- A render that is stored keeps the count of bytes.
pub set-IsCounted :
    (key : Str) (result : RenderResult) (versions : List (Str × Str)) (now : ℕ) (c : RenderCache)
    → IsCounted c
    → IsCounted (set_with_tag_versions key result versions now c)
unfolding set_with_tag_versions
set-IsCounted key result versions now c v =
    let full = leb c.max_entries (length c.items) in
    let v1 = if_intro IsCounted full (evict_oldest c) c (λ _. evict-IsCounted c v) (λ _. v) in
    let c1 = if full then evict_oldest c else c in
    let entry : CacheEntry = record {
      result = result;
      document = none;
      stored = now;
      tag_versions = versions;
    } in
    let grown = total-insert key entry c1.items in
    record {
      distinct = insert-IsMap key _ _ v1.distinct;
      counted = unfold weight in omega (arith, grown, v1.counted);
      bounded = omega (arith, v1.bounded);
    }

drop_keys-IsCounted :
    (keys : List Str) (c : RenderCache) → IsCounted c → IsCounted (drop_keys keys c)
unfolding drop_keys
drop_keys-IsCounted [] c v = v
drop_keys-IsCounted (k ∷ keys) c v = drop_keys-IsCounted keys _ (record {
  distinct = delete-IsMap k c.items v.distinct;
  counted = omega (arith, total-delete k c.items v.distinct, v.counted);
  bounded = omega (arith, v.bounded);
})

-- So does an invalidation of tags.
invalidate_tags-IsCounted :
    (tags : List Str) (c : RenderCache) → IsCounted c → IsCounted (invalidate_tags tags c)
unfolding invalidate_tags
invalidate_tags-IsCounted [] c v = v
invalidate_tags-IsCounted (tag ∷ more) c v =
    let v1 = drop_keys-IsCounted (lookup_or [] tag c.tags) c v in
    invalidate_tags-IsCounted more _
      (record { distinct = v1.distinct; counted = v1.counted; bounded = v1.bounded })
