-- ===== src/Cache/Laws.antt =====
-- cache.go: the values that `Get`, `GetOrSet` and a flight return, and the entries that `save` leaves.
use goserver.Common.{
  arith, Bool, if◌then◌else◌, none, some, true, ℕ, ◌+◌, ◌<◌, ◌≡◌, ◌≤◌, Bool-cases, Option,
  Option-cases, [], inl, inr, leb, ◌∷◌, ◌≢◌, refl, ◌⊎◌, ap, sym, ◌∙◌,
}
use goserver.Maps.{lookup-insert_self}
use goserver.Text.{Str}
use goserver.Lru.{Lru}
use goserver.Cache.{
  CacheItem, HybridCache, get, save, File, flight, mem, memory_remove, read_file, store_result,
  touched, value, fresh_file, get_or_set, get_or_set_disk, Fetched, share,
}

module _ (L : Lru CacheItem) (has_dir : Bool) (path : Str → Str) where
  open L use {State, peek, touch, add, remove, keys, peek-touch, peek-add_self, peek-add_ne}

  -- What was saved is in memory until it expires, and a lookup then finds it, whatever time
  -- passed before.
  pub get-save :
      (key content : Str) (max_age now later : ℕ) (written : Bool) (c : HybridCache L has_dir path)
      → later ≤ now + max_age
      → (get L has_dir path key later (save L has_dir path key content max_age now written c)).0
        ≡ some content
  unfolding get save
  get-save key content max_age now later written c h =
      ground
        (arith, peek-add_self key (record { value = content; expiration = now + max_age }) c.memory)

  -- A lookup after the expiry of what was saved, file included, finds nothing where there is
  -- no cache directory, and returns the expired content of the file where there is one.
  pub get-expired :
      (key content : Str) (max_age now later : ℕ) (c : HybridCache L has_dir path)
      → now + max_age < later
      → (get L has_dir path key later (save L has_dir path key content max_age now true c)).0
        ≡ (if has_dir then some content else none)
  unfolding get save
  get-expired key content max_age now later c h = ground (
    arith,
    peek-add_self key (record { value = content; expiration = now + max_age }) c.memory,
    lookup-insert_self (path key) (record { content = content; mod_time = now }) c.disk,
  )

  module _ (key : Str) (max_age called now stored : ℕ) (written : Bool) where
    -- The cache of a call that leads a flight: after its look into memory, which drops an expired
    -- entry and moves another to the front.
    unfoldable pub looked : HybridCache L has_dir path → HybridCache L has_dir path
    looked c = elim (mem L has_dir path key c) [
      | none ↦ touched L has_dir path key c
      | some item ↦ memory_remove L has_dir path key (touched L has_dir path key c)
    ]

    -- Where the value that `GetOrSet` returns may come from.
    pub data Origin (between : HybridCache L has_dir path → HybridCache L has_dir path)
        (joined : Option Fetched) (result : Option Str) (c : HybridCache L has_dir path) (v : Str)
        : Type 0 where
      in_memory :
          (item : CacheItem)
          → mem L has_dir path key c ≡ some item
          → called ≤ item.expiration
          → v ≡ item.value
          → Origin between joined result c v
      on_disk :
          (f : File)
          → read_file L has_dir path key c ≡ some f
          → called ≤ f.mod_time + max_age
          → v ≡ f.content
          → Origin between joined result c v
      in_flight :
          (item : CacheItem)
          → joined ≡ none
          → mem L has_dir path key (between (looked c)) ≡ some item
          → now ≤ item.expiration
          → v ≡ item.value
          → Origin between joined result c v
      generated : joined ≡ none → result ≡ some v → v ≢ [] → Origin between joined result c v
      shared : joined ≡ some (value v) → Origin between joined result c v

    store_result-value :
        (result : Option Str) (c : HybridCache L has_dir path) (v : Str)
        → (store_result L has_dir path key max_age stored written result c).0 ≡ value v
        → (result ≡ some v) × (v ≢ [])
    unfolding store_result
    store_result-value none c v h = cc
    store_result-value (some []) c v h = cc
    store_result-value (some (x ∷ xs)) c v h = (ground arith, ground arith)

    flight-Origin :
        (between : HybridCache L has_dir path → HybridCache L has_dir path) (result : Option Str)
        (c d : HybridCache L has_dir path) (v : Str)
        → d ≡ looked c
        → (flight L has_dir path key max_age now stored written result (between d)).0 ≡ value v
        → Origin between none result c v
    unfolding flight
    flight-Origin between result c d v same h =
        elim (Option-cases (mem L has_dir path key (between d))) [
          | inl e ↦
              let (g, n) =
                store_result-value result (touched L has_dir path key (between d)) v
                  (rw (e, flight) at h) in
              generated refl g n
          | inr (item, e) ↦ elim (Bool-cases (leb now item.expiration)) [
            | inl t ↦
                in_flight item refl (ap (λ x. mem L has_dir path key (between x)) (sym same) ∙ e)
                  (ground arith) (ground arith)
            | inr f ↦
                let (g, n) =
                  store_result-value result
                    (memory_remove L has_dir path key (touched L has_dir path key (between d))) v
                    (rw (e, flight, f) at h) in
                generated refl g n
          ]
        ]

    share-Origin :
        (between : HybridCache L has_dir path → HybridCache L has_dir path)
        (joined : Option Fetched) (result : Option Str) (c d : HybridCache L has_dir path) (v : Str)
        → d ≡ looked c
        → (share L has_dir path between joined
            (flight L has_dir path key max_age now stored written result)
            (between d)).0
          ≡ value v
        → Origin between joined result c v
    unfolding share
    share-Origin between none result c d v same h = flight-Origin between result c d v same h
    share-Origin between (some theirs) result c d v same h = shared (ap some h)

    fresh_file-some :
        (c : HybridCache L has_dir path) (f : File)
        → fresh_file L has_dir path key max_age called c ≡ some f
        → (read_file L has_dir path key c ≡ some f) × (called ≤ f.mod_time + max_age)
    unfolding fresh_file
    fresh_file-some c f h = elim (Option-cases (read_file L has_dir path key c)) [
      | inl e ↦ absurd (ground arith)
      | inr (g, e) ↦ ground arith
    ]

    get_or_set_disk-Origin :
        (between : HybridCache L has_dir path → HybridCache L has_dir path)
        (joined : Option Fetched) (result : Option Str) (c d : HybridCache L has_dir path) (v : Str)
        → d ≡ looked c
        → d.disk ≡ c.disk
        → (get_or_set_disk L has_dir path between joined key max_age called now stored written
            result d).0
          ≡ value v
        → Origin between joined result c v
    unfolding get_or_set_disk
    get_or_set_disk-Origin between joined result c d v after same h =
        elim (Option-cases (fresh_file L has_dir path key max_age called d)) [
          | inl e ↦ share-Origin between joined result c d v after (rw (e, get_or_set_disk) at h)
          | inr (f, e) ↦
              let (r, t) = fresh_file-some d f e in on_disk f (ground arith) t (ground arith)
        ]

    -- A value that `GetOrSet` returns is one of these: an entry of memory that had not expired
    -- when the call began, or a file that had not; where the call leads its flight, an entry
    -- that another goroutine stored under the key between its look into memory and its flight,
    -- and that has not expired in the flight, or what the generator gave and is not empty;
    -- where it joins a flight, the value that this flight gave.
    pub get_or_set-Origin :
        (between : HybridCache L has_dir path → HybridCache L has_dir path)
        (joined : Option Fetched) (result : Option Str) (c : HybridCache L has_dir path) (v : Str)
        → (get_or_set L has_dir path between joined key max_age called now stored written result
            c).0
          ≡ value v
        → Origin between joined result c v
    unfolding get_or_set looked
    get_or_set-Origin between joined result c v h = elim (Option-cases (mem L has_dir path key c)) [
      | inl e ↦
          get_or_set_disk-Origin between joined result c (touched L has_dir path key c) v
            (rw (looked, e) refl) refl (rw (e, get_or_set) at h)
      | inr (item, e) ↦ elim (Bool-cases (leb called item.expiration)) [
        | inl t ↦ in_memory item e (ground arith) (ground arith)
        | inr f ↦
            get_or_set_disk-Origin between joined result c
              (memory_remove L has_dir path key (touched L has_dir path key c)) v
              (rw (looked, e) refl) refl (rw (e, get_or_set, f) at h)
      ]
    ]

  -- A value that a flight stored is what a later `GetOrSet` on the resulting cache returns
  -- until it expires, whatever the later call's generator would give.
  pub get_or_set-after_store :
      (key v : Str) (max_age now later flown stored : ℕ) (written written' : Bool)
      (result result' : Option Str)
      (between : HybridCache L has_dir path → HybridCache L has_dir path) (joined : Option Fetched)
      (c : HybridCache L has_dir path)
      → (store_result L has_dir path key max_age now written result c).0 ≡ value v
      → later ≤ now + max_age
      → (get_or_set L has_dir path between joined key max_age later flown stored written' result'
          (store_result L has_dir path key max_age now written result c).1).0
        ≡ value v
  unfolding get_or_set store_result save
  get_or_set-after_store key v max_age now later flown stored written written' none result' between
        joined c h t =
      cc
  get_or_set-after_store key v max_age now later flown stored written written' (some []) result'
        between joined c h t =
      cc
  get_or_set-after_store key v max_age now later flown stored written written' (some (x ∷ xs))
        result' between joined c h t =
      ground
        (arith, peek-add_self key (record { value = x ∷ xs; expiration = now + max_age }) c.memory)

  -- A failing or empty generator stores nothing.
  pub store_result_failed :
      (key : Str) (max_age now : ℕ) (written : Bool) (result : Option Str)
      (c : HybridCache L has_dir path)
      → (result ≡ none) ⊎ (result ≡ some [])
      → (store_result L has_dir path key max_age now written result c).1 ≡ c
  unfolding store_result
  store_result_failed key max_age now written none c h = refl
  store_result_failed key max_age now written (some []) c h = refl
  store_result_failed key max_age now written (some (x ∷ xs)) c h = absurd (ground arith)
