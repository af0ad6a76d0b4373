-- ===== src/Web/Renders.antt =====
-- web_framework.go: `renderCache`, the rendered pages by key with an index of their tags and the
-- bytes of their documents. Sets of keys are lists, Go's order of a map is that of the list, and
-- time is in nanoseconds. Of a result only its tags matter here.
pub mod Index
pub mod Invalidation
pub mod Bytes
pub mod Documents
pub mod Room
use goserver.Common.{
  arith, Bool, List, Option, [], false, if◌then◌else◌, leb, length, ltb, none, null, some, suc,
  true, zero, ℕ, ◌+◌, ◌-◌, ◌==◌, ◌||◌, ◌∷◌,
}
use goserver.Text.{Str, member, str_eq, without}
use goserver.Maps.{lookup, insert, delete, lookup_or}

pub record RenderResult : Type 0 where
  pub html : Str
  pub cache_tags : List Str

pub record CachedDocument : Type 0 where
  pub body : Str
  pub public_static : Bool

pub record CacheEntry : Type 0 where
  pub result : RenderResult
  pub document : Option CachedDocument
  pub stored : ℕ
  pub tag_versions : List (Str × Str)

pub record RenderCache : Type 0 where
  pub items : List (Str × CacheEntry)
  pub revalidating : List Str
  pub max_entries : ℕ
  pub document_bytes : ℕ
  pub max_document_bytes : ℕ
  pub tags : List (Str × List Str)
  pub key_tags : List (Str × List Str)

unfoldable pub new_render_cache : ℕ → RenderCache
new_render_cache max_entries = record {
  items = [];
  revalidating = [];
  max_entries = if max_entries == 0 then 1024 else max_entries;
  document_bytes = 0;
  max_document_bytes = 33554432;
  tags = [];
  key_tags = [];
}

-- the bytes of an entry's document, and of the entry with a key
unfoldable pub weight : CacheEntry → ℕ
weight e = elim e.document [ none ↦ 0 | some d ↦ length d.body ]

unfoldable pub weight_at : Str → List (Str × CacheEntry) → ℕ
weight_at key items = elim (lookup key items) [ none ↦ 0 | some e ↦ weight e ]

-- the loop that looks for another entry with a document and drops that document
unfoldable pub drop_document : Str → List (Str × CacheEntry) → Option (ℕ × List (Str × CacheEntry))
drop_document key [] = none
drop_document key ((k, e) ∷ items) =
    let rest : Option (ℕ × List (Str × CacheEntry)) = elim (drop_document key items) [
      | none ↦ none
      | some (freed, items') ↦ some (freed, (k, e) ∷ items')
    ] in
    if str_eq k key then rest else elim e.document [
      | none ↦ rest
      | some d ↦ some (length d.body, (k, record e { document = none }) ∷ items)
    ]

-- the outer loop, with fuel: whether there is room, and the cache
unfoldable pub free_documents : ℕ → Str → ℕ → RenderCache → Bool × RenderCache
free_documents zero key size c = (leb (c.document_bytes + size) c.max_document_bytes, c)
free_documents (suc fuel) key size c =
    if ltb c.max_document_bytes (c.document_bytes + size)
    then elim (drop_document key c.items) [
      | none ↦ (false, c)
      | some (freed, items) ↦
          free_documents fuel key size
            (record c { items = items; document_bytes = c.document_bytes - freed })
    ]
    else (true, c)

-- `setDocument`; the fuel is the number of entries
unfoldable pub set_document : Str → Option CachedDocument → RenderCache → RenderCache
set_document key none c = c
set_document key (some document) c =
    let size = length document.body in
    if ltb 1048576 size then c else elim (lookup key c.items) [
      | none ↦ c
      | some entry ↦
          let c1 = record c { document_bytes = c.document_bytes - weight entry } in
          let r = free_documents (length c.items) key size c1 in
          if r.0
          then record (r.1) {
            items = insert key (record entry { document = some document }) r.1.items;
            document_bytes = r.1.document_bytes + size;
          }
          else r.1
    ]

-- the key of the oldest entry; the empty key stands for none yet
unfoldable pub oldest_from : List (Str × CacheEntry) → Str → ℕ → Str
oldest_from [] oldest t = oldest
oldest_from ((k, e) ∷ items) oldest t =
    let taken = oldest_from items k e.stored in
    let kept = oldest_from items oldest t in
    if str_eq oldest [] || ltb e.stored t then taken else kept

unfoldable pub evict_oldest : RenderCache → RenderCache
evict_oldest c =
    let oldest = oldest_from c.items [] 0 in
    record c {
      items = delete oldest c.items;
      document_bytes = c.document_bytes - weight_at oldest c.items;
    }

-- the loops over the old tags and over the new tags of a key
unfoldable pub untag : Str → List Str → List (Str × List Str) → List (Str × List Str)
untag key [] tags = tags
untag key (tag ∷ old) tags =
    let left = without key (lookup_or [] tag tags) in
    untag key old (if null left then delete tag tags else insert tag left tags)

unfoldable pub add_tags : Str → List Str → List (Str × List Str) → List (Str × List Str)
add_tags key [] tags = tags
add_tags key (tag ∷ more) tags =
    add_tags key more
      (if str_eq tag [] then tags else insert tag (key ∷ lookup_or [] tag tags) tags)

unfoldable pub plain_tags : List Str → List Str
plain_tags [] = []
plain_tags (tag ∷ tags) = let rest = plain_tags tags in if str_eq tag [] then rest else tag ∷ rest

-- `setWithTagVersions`
unfoldable pub set_with_tag_versions :
    Str → RenderResult → List (Str × Str) → ℕ → RenderCache → RenderCache
set_with_tag_versions key result versions now c =
    let c1 = if leb c.max_entries (length c.items) then evict_oldest c else c in
    let entry : CacheEntry = record {
      result = result;
      document = none;
      stored = now;
      tag_versions = versions;
    } in
    record c1 {
      items = insert key entry c1.items;
      document_bytes = c1.document_bytes - weight_at key c1.items;
      tags = add_tags key result.cache_tags (untag key (lookup_or [] key c1.key_tags) c1.tags);
      key_tags = insert key (plain_tags result.cache_tags) c1.key_tags;
    }

unfoldable pub set : Str → RenderResult → ℕ → RenderCache → RenderCache
set key result now c = set_with_tag_versions key result [] now c

-- the loop of `invalidateTags` over the keys of one tag, and over the tags
unfoldable pub drop_keys : List Str → RenderCache → RenderCache
drop_keys [] c = c
drop_keys (key ∷ keys) c = drop_keys keys (record c {
  items = delete key c.items;
  document_bytes = c.document_bytes - weight_at key c.items;
  key_tags = delete key c.key_tags;
})

unfoldable pub invalidate_tags : List Str → RenderCache → RenderCache
invalidate_tags [] c = c
invalidate_tags (tag ∷ more) c =
    let c1 = drop_keys (lookup_or [] tag c.tags) c in
    invalidate_tags more (record c1 { tags = delete tag c1.tags })

-- `get`, `beginRevalidate` and `endRevalidate`
unfoldable pub get : Str → RenderCache → Option CacheEntry
get key c = lookup key c.items

unfoldable pub begin_revalidate : Str → RenderCache → Bool × RenderCache
begin_revalidate key c =
    if member key c.revalidating
    then (false, c)
    else (true, record c { revalidating = key ∷ c.revalidating })

unfoldable pub end_revalidate : Str → RenderCache → RenderCache
end_revalidate key c = record c { revalidating = without key c.revalidating }
