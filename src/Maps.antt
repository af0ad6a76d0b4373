-- ===== src/Maps.antt =====
-- Go maps with string keys, as association lists: the first entry with a key counts.
use goserver.Common.{
  arith, refl, List, null, Option, none, [], false, if◌then◌else◌, some, ◌∷◌, ◌≡◌,
}
use goserver.Text.{Str, str_eq}
use goserver.Text.Compare.{str_eq_iff, str_eq_refl}

module _ {ℓ} {V : Type ℓ} where
  unfoldable pub lookup : Str → List (Str × V) → Option V
  lookup k [] = none
  lookup k ((j, v) ∷ m) = if str_eq j k then some v else lookup k m

  unfoldable pub insert : Str → V → List (Str × V) → List (Str × V)
  insert k v [] = (k, v) ∷ []
  insert k v ((j, w) ∷ m) = if str_eq j k then (k, v) ∷ m else (j, w) ∷ insert k v m

  unfoldable pub delete : Str → List (Str × V) → List (Str × V)
  delete k [] = []
  delete k ((j, w) ∷ m) = if str_eq j k then delete k m else (j, w) ∷ delete k m

  -- `m[k]` with the zero value on a missing key
  unfoldable pub lookup_or : V → Str → List (Str × V) → V
  lookup_or d k m = elim (lookup k m) [ none ↦ d | some v ↦ v ]

  pub lookup-insert :
      (k j : Str) (v : V) (m : List (Str × V))
      → lookup j (insert k v m) ≡ (if str_eq k j then some v else lookup j m)
  unfolding lookup insert
  lookup-insert k j v [] = refl
  lookup-insert k j v ((i, w) ∷ m) =
      ground (arith, str_eq_iff k j, str_eq_iff i k, str_eq_iff i j, lookup-insert k j v m)

  pub lookup-insert_self : (k : Str) (v : V) (m : List (Str × V)) → lookup k (insert k v m) ≡ some v
  lookup-insert_self k v m = simp (lookup-insert, str_eq_refl)

  pub lookup-delete :
      (k j : Str) (m : List (Str × V))
      → lookup j (delete k m) ≡ (if str_eq k j then none else lookup j m)
  unfolding lookup delete
  lookup-delete k j [] = ground arith
  lookup-delete k j ((i, w) ∷ m) =
      ground (arith, str_eq_iff k j, str_eq_iff i k, str_eq_iff i j, lookup-delete k j m)

  pub insert-ne-nil : (k : Str) (v : V) (m : List (Str × V)) → null (insert k v m) ≡ false
  unfolding insert
  insert-ne-nil k v [] = refl
  insert-ne-nil k v ((i, w) ∷ m) = ground arith
