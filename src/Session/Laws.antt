-- ===== src/Session/Laws.antt =====
-- session.go: reads after writes in the memory storage.
use goserver.Common.{
  arith, Option, Option-cases, [], get_elem?-append_last, get_elem?-get_or, if◌then◌else◌, inl, inr,
  length, length-append, ltb, none, refl, some, ℕ, ◌++◌, ◌+◌, ◌<◌, ◌∙◌, ◌∷◌, ◌≡◌, ◌≤◌,
}
use goserver.Text.{Str, str_eq}
use goserver.Text.Compare.{str_eq_refl}
use goserver.Maps.{lookup, lookup-insert, insert}
use goserver.Lru.{Lru}
use goserver.Session.{
  MemItem, Storage, Session, get, set, delete, put_new, session_expiration, get_or_set,
  flight_session, get_session_value, map_at, set_session_value, store_value, touched, value_flight,
}

module _ (Value : Type 0) (L : Lru MemItem) where
  get-put_new :
      (id : Str) (content : Session Value L) (now later : ℕ) (s : Storage Value L)
      → (get Value L id later (put_new Value L id content now s)).0
        ≡ (if ltb (now + session_expiration) later then none else some content)
  unfolding get put_new
  get-put_new id content now later s =
      let grown = s.heap ++ content ∷ [] in
      ground (
        arith,
        L.peek-add_self id
            (record { address = length s.heap; expires_at = now + session_expiration }) s.cache,
        get_elem?-append_last s.heap content,
        length-append s.heap (content ∷ []),
        get_elem?-get_or grown (length s.heap) [],
      )

  -- A session that is set is read back until it expires, and after that it is gone.
  pub get-set :
      (id : Str) (content : Session Value L) (now later : ℕ) (s : Storage Value L)
      → (get Value L id later (set Value L id content now s)).0
        ≡ (if ltb (now + session_expiration) later then none else some content)
  unfolding set
  get-set id content now later s = get-put_new id content now later s

  -- A deleted session is gone.
  pub get-delete :
      (id : Str) (now : ℕ) (s : Storage Value L)
      → (get Value L id now (delete Value L id s)).0 ≡ none
  unfolding get delete
  get-delete id now s = ground (arith, L.peek-remove id id s.cache, str_eq_refl id)

  lookup_nil : (key : Str) → lookup {V = Value} key [] ≡ none
  unfolding lookup
  lookup_nil key = refl

  -- Until the new expiry, a session value that is set is read back, and every other value of
  -- that session reads as it did when it was set.
  pub get_session_value-set_session_value :
      (id name other : Str) (v : Value) (now later : ℕ) (s : Storage Value L)
      → later ≤ now + session_expiration
      → get_session_value Value L id other later (set_session_value Value L id name v now s)
        ≡ (if str_eq name other then some v else get_session_value Value L id other now s)
  unfolding get_session_value set_session_value
  get_session_value-set_session_value id name other v now later s soon =
      elim (Option-cases (get Value L id now s).0) [
        | inl e ↦ ground (
          arith,
          e,
          get-set id (insert name v []) now later (get Value L id now s).1,
          lookup-insert name other v [],
          lookup_nil other,
        )
        | inr (m, e) ↦ ground (
          arith,
          e,
          get-set id (insert name v m) now later (get Value L id now s).1,
          lookup-insert name other v m,
        )
      ]

  -- For an expired session that `Get` no longer gives, `GetOrSet` still returns a value that
  -- the session held under the key.
  pub get_or_set_expired :
      (between : Storage Value L → Storage Value L) (id key : Str) (result : Option Value)
      (now later : ℕ) (s : Storage Value L) (item : MemItem) (v : Value)
      → L.peek id s.cache ≡ some item
      → item.expires_at < now
      → lookup key (map_at Value L item.address s) ≡ some v
      → ((get Value L id now s).0 ≡ none)
        × ((get_or_set Value L between id key result now later s).0 ≡ some v)
  unfolding get get_or_set
  get_or_set_expired between id key result now later s item v e old found = ground arith

  get_or_set_absent :
      (id key : Str) (v : Value) (now flown : ℕ) (s : Storage Value L)
      → L.peek id s.cache ≡ none
      → L.peek id (L.touch id s.cache) ≡ none
      → L.peek id (L.touch id (L.touch id s.cache)) ≡ none
      → get_or_set Value L (λ t. t) id key (some v) now flown s ≡ (
        some v,
        put_new Value L id ((key, v) ∷ []) flown (touched Value L id (touched Value L id s)),
      )
  unfolding get_or_set value_flight flight_session store_value lookup
  get_or_set_absent id key v now flown s e e1 e2 = ground arith

  get_session_value-put_new :
      (id key : Str) (v : Value) (now later : ℕ) (s : Storage Value L)
      → later ≤ now + session_expiration
      → get_session_value Value L id key later (put_new Value L id ((key, v) ∷ []) now s) ≡ some v
  unfolding get_session_value lookup
  get_session_value-put_new id key v now later s soon =
      ground (arith, get-put_new id ((key, v) ∷ []) now later s, str_eq_refl key)

  -- For a session that is not there, `GetOrSet` stores what the generator gives, and that value
  -- is read back until it expires.
  pub get_or_set_stored :
      (id key : Str) (v : Value) (now flown later : ℕ) (s : Storage Value L)
      → L.peek id s.cache ≡ none
      → later ≤ flown + session_expiration
      → ((get_or_set Value L (λ t. t) id key (some v) now flown s).0 ≡ some v)
        × (get_session_value Value L id key later
              (get_or_set Value L (λ t. t) id key (some v) now flown s).1
            ≡ some v)
  get_or_set_stored id key v now flown later s gone soon =
      let s1 = touched Value L id s in
      let s2 = touched Value L id s1 in
      let e1 : L.peek id s1.cache ≡ none = L.peek-touch id id s.cache ∙ gone in
      let e2 : L.peek id s2.cache ≡ none = L.peek-touch id id s1.cache ∙ e1 in
      let run : get_or_set Value L (λ t. t) id key (some v) now flown s
          ≡ (some v, put_new Value L id ((key, v) ∷ []) flown s2) =
        get_or_set_absent id key v now flown s gone e1 e2 in
      (ground (arith, run), rw run (get_session_value-put_new id key v flown later s2 soon))
