-- ===== src/Cache.antt =====
-- cache.go: the memory cache in front of files, with single flights and background refreshes.
-- Time is in nanoseconds. What other goroutines do between two locked regions of one call is an
-- argument `between`, and so is the flight of the same key that a call joins, `joined`: `none`
-- where it runs its own. File system, hash and generators are arguments too.
pub mod Laws
pub mod Sweep
use mathlib.Core.Option
use goserver.Common.{
  none, some, Bool, List, Option, [], if◌then◌else◌, leb, ltb, map, null, ℕ, ◌&&◌, ◌*◌, ◌+◌, ◌-◌,
  ◌||◌, ◌∷◌, false, true,
}
use goserver.Text.{Str, member, without}
use goserver.Maps.{lookup, insert}
use goserver.Lru.{Lru}

pub record CacheItem : Type 0 where
  pub value : Str
  pub expiration : ℕ

pub record File : Type 0 where
  pub content : Str
  pub mod_time : ℕ

pub data Fetched : Type 0 where
  value : Str → Fetched
  generator_failed : Fetched
  empty_data : Fetched
  -- `v.([]byte)` on the nil that a refresh in the background returns
  panicked : Fetched

-- The environment of `HybridCache`: `has_dir` is `dataDir != ""`, `path` is `getSafePath`.
module _ (L : Lru CacheItem) (has_dir : Bool) (path : Str → Str) where
  open L use {State, peek, touch, add, remove, keys}

  pub record HybridCache : Type 0 where
    pub memory : State
    pub disk : List (Str × File)
    pub revalidating : List Str

  abbrev pub mem : Str → HybridCache → Option CacheItem
  mem key c = peek key c.memory

  -- `memoryGet`, which moves the entry to the front
  abbrev pub touched : Str → HybridCache → HybridCache
  touched key c = record c { memory = touch key c.memory }

  abbrev pub memory_add : Str → CacheItem → HybridCache → HybridCache
  memory_add key item c = record c { memory = add key item c.memory }

  abbrev pub memory_remove : Str → HybridCache → HybridCache
  memory_remove key c = record c { memory = remove key c.memory }

  abbrev pub read_file : Str → HybridCache → Option File
  read_file key c = if has_dir then lookup (path key) c.disk else none

  -- `save`; `written` tells whether the file could be written and renamed
  unfoldable pub save : Str → Str → ℕ → ℕ → Bool → HybridCache → HybridCache
  save key content max_age now written c =
      let c' = memory_add key (record { value = content; expiration = now + max_age }) c in
      if has_dir && written
      then record c' {
        disk = insert (path key) (record { content = content; mod_time = now }) c'.disk;
      }
      else c'

  -- `triggerRevalidate`: a second refresh of a key is not started while one runs
  unfoldable pub trigger_revalidate : Str → HybridCache → HybridCache
  trigger_revalidate key c =
      if member key c.revalidating then c else record c { revalidating = key ∷ c.revalidating }

  -- the goroutine of `triggerRevalidate`, when the generator has returned; `none` also where it
  -- joined a flight and ran none
  unfoldable pub finish_revalidate : Str → ℕ → ℕ → Bool → Option Str → HybridCache → HybridCache
  finish_revalidate key max_age now written result c =
      let saved : HybridCache = elim result [
        | none ↦ c
        | some content ↦ if null content then c else save key content max_age now written c
      ] in
      record saved { revalidating = without key saved.revalidating }

  -- what follows `generate` in both flights
  unfoldable pub store_result :
      Str → ℕ → ℕ → Bool → Option Str → HybridCache → Fetched × HybridCache
  store_result key max_age now written none c = (generator_failed, c)
  store_result key max_age now written (some content) c =
      if null content
      then (empty_data, c)
      else (value content, save key content max_age now written c)

  -- the flight of `GetOrSet`: it looks at `now` and stores at `stored`
  unfoldable pub flight : Str → ℕ → ℕ → ℕ → Bool → Option Str → HybridCache → Fetched × HybridCache
  flight key max_age now stored written result c = elim (mem key c) [
    | none ↦ store_result key max_age stored written result (touched key c)
    | some item ↦
        if leb now item.expiration
        then (value item.value, touched key c)
        else store_result key max_age stored written result (memory_remove key (touched key c))
  ]

  -- the flight of `GetOrSetSWR`, which keeps the time of the call
  unfoldable pub swr_flight :
      Str → ℕ → ℕ → ℕ → Bool → Option Str → HybridCache → Fetched × HybridCache
  swr_flight key max_age called now written result c = elim (mem key c) [
    | none ↦ store_result key max_age now written result (touched key c)
    | some item ↦
        if leb called item.expiration
        then (value item.value, touched key c)
        else store_result key max_age now written result (touched key c)
  ]

  -- the file that `GetOrSet` may use: one that has not expired
  unfoldable pub fresh_file : Str → ℕ → ℕ → HybridCache → Option File
  fresh_file key max_age now c = elim (read_file key c) [
    | none ↦ none
    | some f ↦ if leb now (f.mod_time + max_age) then some f else none
  ]

  module _ (between : HybridCache → HybridCache) (joined : Option Fetched) where
    -- `group.Do` with the flight of this call
    unfoldable pub share :
        (HybridCache → Fetched × HybridCache) → HybridCache → Fetched × HybridCache
    share own c = elim joined [ none ↦ own c | some theirs ↦ (theirs, c) ]

    -- `GetOrSet` after the look into memory
    unfoldable pub get_or_set_disk :
        Str → ℕ → ℕ → ℕ → ℕ → Bool → Option Str → HybridCache → Fetched × HybridCache
    get_or_set_disk key max_age called now stored written result c =
        elim (fresh_file key max_age called c) [
          | some f ↦ (
            value f.content,
            memory_add key (record { value = f.content; expiration = f.mod_time + max_age }) c,
          )
          | none ↦ share (flight key max_age now stored written result) (between c)
        ]

    unfoldable pub get_or_set :
        Str → ℕ → ℕ → ℕ → ℕ → Bool → Option Str → HybridCache → Fetched × HybridCache
    get_or_set key max_age called now stored written result c = elim (mem key c) [
      | none ↦ get_or_set_disk key max_age called now stored written result (touched key c)
      | some item ↦
          if leb called item.expiration
          then (value item.value, touched key c)
          else get_or_set_disk key max_age called now stored written result
              (memory_remove key (touched key c))
    ]

    -- `GetOrSetSWR`: a stale value is returned, and its refresh is started
    unfoldable pub get_or_set_swr :
        Str → ℕ → ℕ → ℕ → Bool → Option Str → HybridCache → Fetched × HybridCache
    get_or_set_swr key max_age called now written result c = elim (mem key c) [
      | some item ↦ (
        value item.value,
        if leb called item.expiration
            then touched key c
            else trigger_revalidate key (touched key c),
      )
      | none ↦ elim (read_file key c) [
        | some f ↦
            let item : CacheItem = record {
              value = f.content;
              expiration = f.mod_time + max_age;
            } in
            let c' = memory_add key item (touched key c) in
            (value f.content, if leb called item.expiration then c' else trigger_revalidate key c')
        | none ↦ share (swr_flight key max_age called now written result) (between (touched key c))
      ]
    ]

  -- `Fetch`: a typed `GetOrSet`. `encode` is the identity on bytes and strings and else JSON, with
  -- `decode` the other way; every error is `none`, and so is the panic.
  unfoldable pub fetch :
      {A : Type 0}
      → (A → Option Str)
      → (Str → Option A)
      → (HybridCache → HybridCache)
      → Option Fetched
      → Str
      → ℕ
      → ℕ
      → ℕ
      → ℕ
      → Bool
      → Option A
      → HybridCache
      → Option A × HybridCache
  fetch {A} encode decode between joined key max_age called now stored written result c =
      let generated : Option Str = elim result [ none ↦ none | some a ↦ encode a ] in
      let r = get_or_set between joined key max_age called now stored written generated c in
      let decoded : Option A = elim (r.0) [
        | value bytes ↦ decode bytes
        | generator_failed ↦ none
        | empty_data ↦ none
        | panicked ↦ none
      ] in
      (decoded, r.1)

  -- `Set`, for the bytes of the value, `none` where JSON cannot encode it; and whether it succeeds
  unfoldable pub set : Str → Option Str → ℕ → ℕ → Bool → HybridCache → Bool × HybridCache
  set key none ttl now written c = (false, c)
  set key (some bytes) ttl now written c = (true, save key bytes ttl now written c)

  -- `Get`: a file is returned whatever its age; the entry of memory moves to the front
  unfoldable pub get : Str → ℕ → HybridCache → Option Str × HybridCache
  get key now c =
      let from_disk : Option Str = Option.map (λ f. f.content) (read_file key c) in
      let found : Option Str = elim (mem key c) [
        | none ↦ from_disk
        | some item ↦ if leb now item.expiration then some item.value else from_disk
      ] in
      (found, touched key c)

  -- one round of `startMemoryCleanupLoop`, over the keys that it listed
  unfoldable pub sweep : ℕ → List Str → HybridCache → HybridCache
  sweep now [] c = c
  sweep now (k ∷ ks) c = sweep now ks (elim (mem k c) [
    | none ↦ c
    | some item ↦ if ltb item.expiration now then memory_remove k c else c
  ])

  unfoldable pub cleanup_round : ℕ → HybridCache → HybridCache
  cleanup_round now c = sweep now (keys c.memory) c

-- one round of `startCleanupLoop` over the files: `tmp` tests the suffix ".tmp"
unfoldable pub clean_files : (Str → Bool) → ℕ → List (Str × File) → List (Str × File)
clean_files tmp now [] = []
clean_files tmp now ((p, f) ∷ files) =
    let rest = clean_files tmp now files in
    if tmp p || ltb (14 * 24 * 3600 * 1000000000) (now - f.mod_time) then rest else (p, f) ∷ rest
