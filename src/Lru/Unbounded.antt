-- ===== src/Lru/Unbounded.antt =====
-- An instance of `Lru` that never evicts: an association list.
use goserver.Common.{refl, arith, List, [], false, inl, is_some, none, true, ◌∷◌, ◌≡◌, ◌⊎◌}
use goserver.Text.{Str, member, str_eq}
use goserver.Text.Compare.{str_eq_refl, str_eq_iff}
use goserver.Maps.{lookup, delete, insert, lookup-delete, lookup-insert, lookup-insert_self}
use goserver.Lru.{Lru}

module _ {V : Type 0} where
  pub insert_other :
      (k j : Str) (v : V) (m : List (Str × V))
      → str_eq k j ≡ false
      → (lookup j (insert k v m) ≡ lookup j m) ⊎ (lookup j (insert k v m) ≡ none)
  insert_other k j v m h = inl (rw (lookup-insert, h))

  unfoldable pub entry_keys : List (Str × V) → List Str
  entry_keys [] = []
  entry_keys ((k, v) ∷ m) = k ∷ entry_keys m

  pub entry_keys_complete :
      (k : Str) (m : List (Str × V)) → is_some (lookup k m) ≡ true → member k (entry_keys m) ≡ true
  unfolding lookup entry_keys member
  entry_keys_complete k [] h = h
  entry_keys_complete k ((j, v) ∷ m) h =
      ground (arith, str_eq_iff j k, str_eq_refl k, entry_keys_complete k m)

abbrev pub unbounded : (V : Type 0) → Lru V
unbounded V = record {
  State = List (Str × V);
  peek = lookup;
  touch = λ k s. s;
  add = insert;
  remove = delete;
  keys = entry_keys;
  peek-touch = λ k j s. refl;
  peek-add_self = lookup-insert_self;
  peek-add_ne = insert_other;
  peek-remove = lookup-delete;
  keys_complete = entry_keys_complete;
}
