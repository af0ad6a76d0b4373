-- ===== src/Session.antt =====
-- session.go: the memory storage of sessions and the calls on a session id. Values are opaque,
-- time is in nanoseconds, and one call runs at a time but for the generator of `GetOrSet`, which
-- runs without the lock. A Go map is a reference: the cache holds addresses of a heap of maps.
pub mod Laws
use goserver.Common.{
  none, set as write_at, List, Option, [], get_or, if◌then◌else◌, length, ltb, some, ℕ, ◌*◌, ◌++◌,
  ◌+◌, ◌∷◌,
}
use goserver.Text.{Str}
use goserver.Maps.{lookup, insert}
use goserver.Lru.{Lru}

-- `memItem`, whose map stands in the heap
pub record MemItem : Type 0 where
  pub address : ℕ
  pub expires_at : ℕ

-- `sessionExpiration`, 43,200 seconds
abbrev pub session_expiration : ℕ
session_expiration = 43200 * 1000000000

module _ (Value : Type 0) (L : Lru MemItem) where
  abbrev pub Session : Type 0
  Session = List (Str × Value)

  pub record Storage : Type 0 where
    pub cache : L.State
    pub heap : List Session

  -- a new map, and an item that refers to it
  unfoldable pub put_new : Str → Session → ℕ → Storage → Storage
  put_new id content now s = record {
    cache =
        L.add id (record { address = length s.heap; expires_at = now + session_expiration })
          s.cache;
    heap = s.heap ++ content ∷ [];
  }

  abbrev pub map_at : ℕ → Storage → Session
  map_at a s = get_or s.heap a []

  abbrev pub touched : Str → Storage → Storage
  touched id s = record s { cache = L.touch id s.cache }

  abbrev pub removed : Str → Storage → Storage
  removed id s = record s { cache = L.remove id s.cache }

  -- `Get`, which returns a copy
  unfoldable pub get : Str → ℕ → Storage → Option Session × Storage
  get id now s = elim (L.peek id s.cache) [
    | none ↦ (none, touched id s)
    | some item ↦
        if ltb item.expires_at now
        then (none, removed id (touched id s))
        else (some (map_at item.address s), touched id s)
  ]

  -- `Set`, which stores a copy
  unfoldable pub set : Str → Session → ℕ → Storage → Storage
  set id content now s = put_new id content now s

  -- `Delete`
  unfoldable pub delete : Str → Storage → Storage
  delete id s = removed id s

  -- `GetOrSetSession`, for an initial session
  unfoldable pub get_or_set_session : Str → Session → ℕ → Storage → Session × Storage
  get_or_set_session id initial now s =
      let (found, s') = get id now s in
      elim found [
        | some content ↦ (content, s')
        | none ↦
            let (again, s'') = get id now s' in
            elim again [ some content ↦ (content, s'') | none ↦ (initial, set id initial now s'') ]
      ]

  -- the part of `GetOrSet` after the generator: an item that is there is written to
  unfoldable pub store_value : Str → Str → Value → ℕ → Storage → Storage
  store_value id key v now s = elim (L.peek id s.cache) [
    | some item ↦ record (touched id s) {
      heap = write_at s.heap item.address (insert key v (map_at item.address s));
    }
    | none ↦ put_new id ((key, v) ∷ []) now s
  ]

  -- the map that the flight of `GetOrSet` reads: an expired item is removed
  unfoldable pub flight_session : Str → ℕ → Storage → Session × Storage
  flight_session id now s = elim (L.peek id s.cache) [
    | none ↦ ([], touched id s)
    | some item ↦
        if ltb item.expires_at now
        then ([], removed id (touched id s))
        else (map_at item.address s, touched id s)
  ]

  -- the flight: `between` is what other calls do while the generator runs
  unfoldable pub value_flight :
      (Storage → Storage) → Str → Str → Option Value → ℕ → ℕ → Storage → Option Value × Storage
  value_flight between id key result now later s =
      let (content, s') = flight_session id now s in
      elim (lookup key content) [
        | some v ↦ (some v, s')
        | none ↦ elim result [
          | none ↦ (none, between s')
          | some v ↦ (some v, store_value id key v later (between s'))
        ]
      ]

  -- `GetOrSet`: the first look does not ask whether the item has expired
  unfoldable pub get_or_set :
      (Storage → Storage) → Str → Str → Option Value → ℕ → ℕ → Storage → Option Value × Storage
  get_or_set between id key result now later s = elim (L.peek id s.cache) [
    | none ↦ value_flight between id key result now later (touched id s)
    | some item ↦ elim (lookup key (map_at item.address s)) [
      | some v ↦ (some v, touched id s)
      | none ↦ value_flight between id key result now later (touched id s)
    ]
  ]

  -- `SetSessionValue`: read, change the copy, write back with a new expiry
  unfoldable pub set_session_value : Str → Str → Value → ℕ → Storage → Storage
  set_session_value id name v now s =
      let (found, s') = get id now s in
      let content : Session = elim found [ none ↦ [] | some m ↦ m ] in
      set id (insert name v content) now s'

  -- `GetSessionValue`
  unfoldable pub get_session_value : Str → Str → ℕ → Storage → Option Value
  get_session_value id name now s =
      let (found, s') = get id now s in elim found [ none ↦ none | some m ↦ lookup name m ]
