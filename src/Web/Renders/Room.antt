-- ===== src/Web/Renders/Room.antt =====
-- web_framework.go: the room that `setDocument` makes, and the count of bytes after it.
use goserver.Common.{
  arith, List, none, refl, ℕ, ◌+◌, ◌≡◌, ◌≤◌, if_intro, if◌then◌else◌, leb, length, some, suc,
  Option-cases, inl, inr, Bool, true, zero, ltb, ◌-◌, ◌∙◌,
}
use goserver.Text.{Str}
use goserver.Maps.{lookup, insert}
use goserver.Web.Renders.{
  RenderCache, CacheEntry, CachedDocument, weight, weight_at, drop_document, free_documents,
  set_document,
}
use goserver.Web.Renders.Bytes.{IsMap, total, IsCounted, total-insert, insert-IsMap}
use goserver.Web.Renders.Documents.{
  others, IsFreed, drop_document-IsFreed, weight_at-le-total, drop_document-none, others_le,
}

-- While the documents of other entries are dropped: the count leaves out the entry's own document.
record IsLoose (key : Str) (c : RenderCache) : Type 0 where
  distinct : IsMap c.items
  counted : c.document_bytes + weight_at key c.items ≡ total c.items

-- What the loop leaves: room, and the entry with the key as it was.
record IsFitting (key : Str) (size : ℕ) (c : RenderCache) (r : Bool × RenderCache) : Type 0 where
  success : r.0 ≡ true
  loose : IsLoose key r.1
  kept : lookup key r.1.items ≡ lookup key c.items
  limit : r.1.max_document_bytes ≡ c.max_document_bytes
  fits : r.1.document_bytes + size ≤ c.max_document_bytes

count_of_none :
    (key : Str) (c : RenderCache)
    → IsLoose key c
    → drop_document key c.items ≡ none
    → c.document_bytes ≡ 0
count_of_none key c v e = omega (arith, v.counted, drop_document-none key c.items v.distinct e)

fits_at_once :
    (key : Str) (size : ℕ) (c : RenderCache)
    → IsLoose key c
    → size ≤ c.max_document_bytes
    → drop_document key c.items ≡ none
    → IsFitting key size c (leb (c.document_bytes + size) c.max_document_bytes, c)
fits_at_once key size c v small e =
    let empty = count_of_none key c v e in
    record {
      success = ground (arith, empty);
      loose = v;
      kept = refl;
      limit = refl;
      fits = omega (arith, empty);
    }

counted_before :
    (key : Str) (c : RenderCache)
    → IsLoose key c
    → c.document_bytes + (elim (lookup key c.items) [ none ↦ 0 | some e ↦ weight e ])
      ≡ total c.items
unfolding weight_at
counted_before key c v = v.counted

IsLoose-after :
    (key : Str) (c : RenderCache) (freed : ℕ) (items : List (Str × CacheEntry))
    → IsLoose key c
    → IsFreed key c.items freed items
    → IsLoose key (record c { items = items; document_bytes = c.document_bytes - freed })
unfolding weight_at
IsLoose-after key c freed items v (a, b, same, found, m) = record {
  distinct = m v.distinct;
  counted =
      rw (weight_at, same)
        (omega (
          arith,
          a,
          counted_before key c v,
          rw (weight_at, same) at (weight_at-le-total key items),
        ));
}

free_documents-IsFitting :
    (fuel : ℕ) (key : Str) (size : ℕ) (c : RenderCache)
    → IsLoose key c
    → others key c.items ≤ fuel
    → size ≤ c.max_document_bytes
    → IsFitting key size c (free_documents fuel key size c)
unfolding free_documents
free_documents-IsFitting zero key size c v h small =
    elim (Option-cases (drop_document key c.items)) [
      | inl e ↦ fits_at_once key size c v small e
      | inr ((freed, items), e) ↦
          (let f = drop_document-IsFreed key c.items items freed e in
            absurd (omega (arith, f.1, h)))
    ]
free_documents-IsFitting (suc fuel) key size c v h small =
    if_intro (IsFitting key size c) (ltb c.max_document_bytes (c.document_bytes + size)) _ _
      (λ full. elim (Option-cases (drop_document key c.items)) [
        | inl e ↦ absurd (ground (arith, full, count_of_none key c v e))
        | inr ((freed, items), e) ↦
            let f = drop_document-IsFreed key c.items items freed e in
            let c' = record c { items = items; document_bytes = c.document_bytes - freed } in
            let v' = IsLoose-after key c freed items v f in
            let r = free_documents-IsFitting fuel key size c' v' (omega (arith, f.1, h)) small in
            rw e (record {
              success = r.success;
              loose = r.loose;
              kept = r.kept ∙ f.2;
              limit = r.limit;
              fits = r.fits;
            })
      ])
      (λ free. record {
        success = refl;
        loose = v;
        kept = refl;
        limit = refl;
        fits = ground (arith, free);
      })

loosened :
    (key : Str) (c : RenderCache) (e : CacheEntry)
    → IsCounted c
    → lookup key c.items ≡ some e
    → IsLoose key (record c { document_bytes = c.document_bytes - weight e })
unfolding weight_at
loosened key c e v found = record {
  distinct = v.distinct;
  counted =
      rw (weight_at, found)
        (omega (arith, v.counted, rw (weight_at, found) at (weight_at-le-total key c.items)));
}

-- The end of `setDocument`, whatever the loop returned.
set_document_end :
    (key : Str) (document : CachedDocument) (e : CacheEntry) (c : RenderCache)
    (r : Bool × RenderCache)
    → IsFitting key (length document.body) c r
    → IsCounted (
        if r.0
        then record (r.1) {
          items = insert key (record e { document = some document }) r.1.items;
          document_bytes = r.1.document_bytes + length document.body;
        }
        else r.1)
unfolding weight
set_document_end key document e c r f =
    let e' = record e { document = some document } in
    let grown = total-insert key e' r.1.items in
    rw f.success (record {
      distinct = insert-IsMap key e' r.1.items f.loose.distinct;
      counted = omega (arith, grown, f.loose.counted);
      bounded = omega (arith, f.fits, f.limit);
    })

-- Where each key stands once and the count of bytes is that of the documents and within its
-- limit, which is a megabyte or more, all this still holds after a document is set: the loop
-- makes room, with the number of entries as fuel.
pub set_document-IsCounted :
    (key : Str) (document : CachedDocument) (c : RenderCache)
    → IsCounted c
    → 1048576 ≤ c.max_document_bytes
    → IsCounted (set_document key (some document) c)
unfolding set_document
set_document-IsCounted key document c v limit =
    let size = length document.body in
    if_intro IsCounted (ltb 1048576 size) _ _ (λ _. v)
      (λ small. elim (Option-cases (lookup key c.items)) [
        | inl missing ↦ rw missing v
        | inr (e, found) ↦
            let c1 = record c { document_bytes = c.document_bytes - weight e } in
            let f =
              free_documents-IsFitting (length c.items) key size c1 (loosened key c e v found)
                (others_le key c.items) (ground (arith, small, limit)) in
            rw found (set_document_end key document e c1 _ f)
      ])
