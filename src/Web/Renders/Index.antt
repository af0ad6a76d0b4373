-- ===== src/Web/Renders/Index.antt =====
-- web_framework.go: the index of tags, and how `setWithTagVersions` keeps it.
use goserver.Common.{
  arith, List, [], false, if◌then◌else◌, some, true, ◌∷◌, ◌≡◌, Bool-cases, if_intro, inl, inr, null,
  refl, subst, sym, ℕ, leb, length, some_inj,
}
use goserver.Text.{Str, member, str_eq, without}
use goserver.Text.Compare.{str_eq_iff, str_eq_refl}
use goserver.Maps.{lookup, insert, delete, lookup_or, lookup-insert, lookup-delete}
use goserver.Web.Renders.{
  RenderCache, CacheEntry, RenderResult, add_tags, untag, evict_oldest, set_with_tag_versions,
}

-- The keys that the index lists under a tag.
abbrev pub tagged : Str → List (Str × List Str) → List Str
tagged tag tags = lookup_or [] tag tags

-- Every tag of an entry, the empty one aside, lists the entry's key.
abbrev pub IsIndexed : List (Str × CacheEntry) → List (Str × List Str) → Type 0
IsIndexed items tags =
    (key : Str) (e : CacheEntry) (tag : Str)
    → lookup key items ≡ some e
    → str_eq tag [] ≡ false
    → member tag e.result.cache_tags ≡ true
    → member key (tagged tag tags) ≡ true

member-without :
    (k s : Str) (xs : List Str)
    → member k (without s xs) ≡ (if str_eq k s then false else member k xs)
unfolding member without
member-without k s [] = ground arith
member-without k s (x ∷ xs) =
    ground (arith, member-without k s xs, str_eq_iff k s, str_eq_iff k x, str_eq_iff s x)

tagged-insert :
    (tag other : Str) (keys : List Str) (tags : List (Str × List Str))
    → tagged other (insert tag keys tags) ≡ (if str_eq tag other then keys else tagged other tags)
unfolding lookup_or
tagged-insert tag other keys tags = ground (arith, lookup-insert tag other keys tags)

pub tagged-delete :
    (tag other : Str) (tags : List (Str × List Str))
    → tagged other (delete tag tags) ≡ (if str_eq tag other then [] else tagged other tags)
unfolding lookup_or
tagged-delete tag other tags = ground (arith, lookup-delete tag other tags)

member_of_null : (k : Str) (xs : List Str) → null xs ≡ true → member k xs ≡ false
unfolding member
member_of_null k [] h = refl
member_of_null k (x ∷ xs) h = cc

-- Taking a key out of the index leaves the other keys.
member-untag_one :
    (key k tag t : Str) (tags : List (Str × List Str))
    → str_eq k key ≡ false
    → member k (tagged tag tags) ≡ true
    → member k (
        tagged tag (
          if null (without key (tagged t tags))
          then delete t tags
          else insert t (without key (tagged t tags)) tags))
      ≡ true
member-untag_one key k tag t tags n h =
    let left = without key (tagged t tags) in
    if_intro (λ x. member k (tagged tag x) ≡ true) (null left) _ _
      (λ e. elim (Bool-cases (str_eq t tag)) [
        | inl same ↦
            (let at =
                subst (λ u. member k (tagged u tags) ≡ true) (sym ((str_eq_iff t tag).0 same)) h in
              absurd (
                ground
                  (arith, member-without k key (tagged t tags), member_of_null k left e, at, n)))
        | inr other ↦ rw (tagged-delete t tag tags, other) h
      ])
      (λ _. elim (Bool-cases (str_eq t tag)) [
        | inl same ↦
            (let at =
                subst (λ u. member k (tagged u tags) ≡ true) (sym ((str_eq_iff t tag).0 same)) h in
              rw (tagged-insert t tag left tags, same, member-without k key (tagged t tags), n) at)
        | inr other ↦ rw (tagged-insert t tag left tags, other) h
      ])

member-untag :
    (key k tag : Str) (old : List Str) (tags : List (Str × List Str))
    → str_eq k key ≡ false
    → member k (tagged tag tags) ≡ true
    → member k (tagged tag (untag key old tags)) ≡ true
unfolding untag
member-untag key k tag [] tags n h = h
member-untag key k tag (t ∷ old) tags n h =
    member-untag key k tag old _ n (member-untag_one key k tag t tags n h)

member-add_one :
    (key k tag t : Str) (tags : List (Str × List Str))
    → member k (tagged tag tags) ≡ true
    → member k (tagged tag (if str_eq t [] then tags else insert t (key ∷ tagged t tags) tags))
      ≡ true
unfolding member
member-add_one key k tag t tags h =
    if_intro (λ x. member k (tagged tag x) ≡ true) (str_eq t []) _ _ (λ _. h)
      (λ _. elim (Bool-cases (str_eq t tag)) [
        | inl same ↦
            (let at =
                subst (λ u. member k (tagged u tags) ≡ true) (sym ((str_eq_iff t tag).0 same)) h in
              rw (tagged-insert t tag (key ∷ tagged t tags) tags, same) (ground (arith, at)))
        | inr other ↦ rw (tagged-insert t tag (key ∷ tagged t tags) tags, other) h
      ])

member-add_tags_other :
    (key k tag : Str) (new : List Str) (tags : List (Str × List Str))
    → member k (tagged tag tags) ≡ true
    → member k (tagged tag (add_tags key new tags)) ≡ true
unfolding add_tags
member-add_tags_other key k tag [] tags h = h
member-add_tags_other key k tag (t ∷ new) tags h =
    member-add_tags_other key k tag new _ (member-add_one key k tag t tags h)

member-add_tags_self :
    (key tag : Str) (new : List Str) (tags : List (Str × List Str))
    → str_eq tag [] ≡ false
    → member tag new ≡ true
    → member key (tagged tag (add_tags key new tags)) ≡ true
unfolding add_tags member
member-add_tags_self key tag [] tags n h = cc
member-add_tags_self key tag (t ∷ new) tags n h = elim (Bool-cases (str_eq tag t)) [
  | inl same ↦
      let eq = (str_eq_iff tag t).0 same in
      let plain = subst (λ u. str_eq u [] ≡ false) eq n in
      member-add_tags_other key key tag new _ (
        rw
          (
            plain,
            tagged-insert t tag (key ∷ tagged t tags) tags,
            subst (λ u. str_eq u tag ≡ true) eq (str_eq_refl tag),
            str_eq_refl key,
          )
          refl)
  | inr other ↦ member-add_tags_self key tag new _ n (ground (arith, h, other))
]

lookup_of_delete :
    (key k : Str) (items : List (Str × CacheEntry)) (e : CacheEntry)
    → lookup k (delete key items) ≡ some e
    → lookup k items ≡ some e
lookup_of_delete key k items e h = ground (arith, lookup-delete key k items, h)

IsIndexed-delete :
    (key : Str) (items : List (Str × CacheEntry)) (tags : List (Str × List Str))
    → IsIndexed items tags
    → IsIndexed (delete key items) tags
IsIndexed-delete key items tags v k e tag h n m = v k e tag (lookup_of_delete key k items e h) n m

evict-IsIndexed :
    (c : RenderCache) → IsIndexed c.items c.tags → IsIndexed (evict_oldest c).items c.tags
unfolding evict_oldest
evict-IsIndexed c v = IsIndexed-delete _ c.items c.tags v

IsIndexed-insert :
    (key : Str) (entry : CacheEntry) (old : List Str) (items : List (Str × CacheEntry))
    (tags : List (Str × List Str))
    → IsIndexed items tags
    → IsIndexed (insert key entry items) (add_tags key entry.result.cache_tags (untag key old tags))
IsIndexed-insert key entry old items tags v k e tag h n m = elim (Bool-cases (str_eq key k)) [
  | inl same ↦
      let found = rw (lookup-insert key k entry items, same) at h in
      let tagged_new =
        subst (λ x. member tag x.result.cache_tags ≡ true) (sym (some_inj found)) m in
      subst
        (λ x.
          member x (tagged tag (add_tags key entry.result.cache_tags (untag key old tags))) ≡ true)
        ((str_eq_iff key k).0 same)
        (member-add_tags_self key tag entry.result.cache_tags (untag key old tags) n tagged_new)
  | inr other ↦
      let found = rw (lookup-insert key k entry items, other) at h in
      member-add_tags_other key k tag entry.result.cache_tags (untag key old tags) (
        member-untag key k tag old tags (ground (arith, str_eq_iff key k, str_eq_iff k key, other))
          (v k e tag found n m))
]

-- A render that is stored keeps the index: every entry stands under each of its tags.
pub set-IsIndexed :
    (key : Str) (result : RenderResult) (versions : List (Str × Str)) (now : ℕ) (c : RenderCache)
    → IsIndexed c.items c.tags
    → IsIndexed
        (set_with_tag_versions key result versions now c).items
        (set_with_tag_versions key result versions now c).tags
unfolding set_with_tag_versions
set-IsIndexed key result versions now c v =
    let full = leb c.max_entries (length c.items) in
    let v1 =
      if_intro (λ (x : RenderCache). IsIndexed x.items x.tags) full (evict_oldest c) c
        (λ _. unfold evict_oldest in evict-IsIndexed c v) (λ _. v) in
    IsIndexed-insert key _ _ _ _ v1
