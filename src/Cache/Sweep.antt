-- ===== src/Cache/Sweep.antt =====
-- cache.go: `triggerRevalidate`, `GetOrSetSWR` and the cleanup loop of memory.
use goserver.Common.{
  arith, Bool, List, Option, Option-cases, [], false, if◌then◌else◌, inl, inr, ltb, none, refl,
  some, true, ℕ, ◌<◌, ◌∷◌, ◌≡◌,
}
use goserver.Text.Compare.{str_eq_iff, str_eq_refl}
use goserver.Text.{Str, member, str_eq, without}
use goserver.Lru.{Lru}
use goserver.Cache.{
  CacheItem, HybridCache, cleanup_round, finish_revalidate, get_or_set_swr, mem, memory_remove,
  save, sweep, trigger_revalidate, value, Fetched,
}

abbrev pub Distinct : List Str → Type 0
Distinct [] = Unit
Distinct (x ∷ xs) = (member x xs ≡ false) × Distinct xs

member-without :
    (s t : Str) (xs : List Str)
    → member t (without s xs) ≡ (if str_eq s t then false else member t xs)
unfolding member without
member-without s t [] = ground arith
member-without s t (x ∷ xs) =
    ground
      (arith, member-without s t xs, str_eq_iff s x, str_eq_iff t x, str_eq_iff s t, str_eq_refl x)

Distinct-without : (s : Str) (xs : List Str) → Distinct xs → Distinct (without s xs)
unfolding without
Distinct-without s [] h = tt
Distinct-without s (x ∷ xs) (h, k) = ground (arith, member-without s x xs, Distinct-without s xs k)

-- What a sweep leaves of an entry.
abbrev pub unexpired : ℕ → Option CacheItem → Option CacheItem
unexpired now none = none
unexpired now (some item) = if ltb item.expiration now then none else some item

module _ (L : Lru CacheItem) (has_dir : Bool) (path : Str → Str) where
  open L use {State, peek, touch, add, remove, keys, peek-touch, peek-remove, keys_complete}

  -- The keys whose refresh runs are distinct: no key is refreshed twice at a time.
  abbrev pub IsValid : HybridCache L has_dir path → Type 0
  IsValid c = Distinct c.revalidating

  pub trigger_revalidate-IsValid :
      (key : Str) (c : HybridCache L has_dir path)
      → IsValid c
      → IsValid (trigger_revalidate L has_dir path key c)
        × (member key (trigger_revalidate L has_dir path key c).revalidating ≡ true)
  unfolding trigger_revalidate member
  trigger_revalidate-IsValid key c v = ground (arith, str_eq_refl key)

  save-revalidating :
      (key content : Str) (max_age now : ℕ) (written : Bool) (c : HybridCache L has_dir path)
      → (save L has_dir path key content max_age now written c).revalidating ≡ c.revalidating
  unfolding save
  save-revalidating key content max_age now written c = ground arith

  -- A refresh that ends, however it ends, frees its key and no other.
  pub finish_revalidate-IsValid :
      (key : Str) (max_age now : ℕ) (written : Bool) (result : Option Str)
      (c : HybridCache L has_dir path) (j : Str)
      → IsValid c
      → IsValid (finish_revalidate L has_dir path key max_age now written result c)
        × (member j (finish_revalidate L has_dir path key max_age now written result c).revalidating
            ≡ (if str_eq key j then false else member j c.revalidating))
  unfolding finish_revalidate
  finish_revalidate-IsValid key max_age now written none c j v =
      (Distinct-without key c.revalidating v, member-without key j c.revalidating)
  finish_revalidate-IsValid key max_age now written (some []) c j v =
      (Distinct-without key c.revalidating v, member-without key j c.revalidating)
  finish_revalidate-IsValid key max_age now written (some (x ∷ xs)) c j v =
      rw (save-revalidating key (x ∷ xs) max_age now written c)
        (Distinct-without key c.revalidating v, member-without key j c.revalidating)

  -- `GetOrSetSWR` answers a stale entry of memory at once, touches only its order in memory
  -- and leaves the files as they are, and has a refresh of the key running when it returns.
  get_or_set_swr_stale :
      (between : HybridCache L has_dir path → HybridCache L has_dir path) (joined : Option Fetched)
      (key : Str) (max_age called now : ℕ) (written : Bool) (result : Option Str)
      (c : HybridCache L has_dir path) (item : CacheItem)
      → mem L has_dir path key c ≡ some item
      → item.expiration < called
      → let after =
          get_or_set_swr L has_dir path between joined key max_age called now written result c in
        (after.0 ≡ value item.value)
        × (after.1.disk ≡ c.disk)
        × (after.1.memory ≡ touch key c.memory)
        × (member key after.1.revalidating ≡ true)
  unfolding get_or_set_swr trigger_revalidate member
  get_or_set_swr_stale between joined key max_age called now written result c item e h =
      ground (arith, str_eq_refl key)

  sweep-mem :
      (now : ℕ) (ks : List Str) (j : Str) (c : HybridCache L has_dir path)
      → mem L has_dir path j (sweep L has_dir path now ks c)
        ≡ (if member j ks then unexpired now (mem L has_dir path j c) else mem L has_dir path j c)
  unfolding sweep member
  sweep-mem now [] j c = refl
  sweep-mem now (k ∷ ks) j c = elim (Option-cases (mem L has_dir path k c)) [
    | inl e ↦ ground (arith, sweep-mem now ks j c, str_eq_iff j k)
    | inr (item, e) ↦ ground (
      arith,
      sweep-mem now ks j c,
      sweep-mem now ks j (memory_remove L has_dir path k c),
      peek-remove k j c.memory,
      str_eq_iff j k,
      str_eq_iff k j,
    )
  ]

  -- After a round of the cleanup loop memory holds exactly the entries that had not expired.
  cleanup_round-mem :
      (now : ℕ) (j : Str) (c : HybridCache L has_dir path)
      → mem L has_dir path j (cleanup_round L has_dir path now c)
        ≡ unexpired now (mem L has_dir path j c)
  unfolding cleanup_round
  cleanup_round-mem now j c = elim (Option-cases (mem L has_dir path j c)) [
    | inl e ↦ ground (arith, sweep-mem now (keys c.memory) j c)
    | inr (item, e) ↦ ground (arith, sweep-mem now (keys c.memory) j c, keys_complete j c.memory)
  ]
