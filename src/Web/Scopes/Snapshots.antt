-- ===== src/Web/Scopes/Snapshots.antt =====
-- web_framework.go: `Snapshot` against `Get`.
use goserver.Common.{arith, List, Option, [], ◌∷◌, ◌≡◌, none, some, All, refl, ◌∙◌}
use goserver.Text.{Str}
use goserver.Text.Compare.{str_eq_iff}
use goserver.Maps.{lookup, insert, lookup-insert}
use goserver.Web.Scopes.{copy_values, snapshot, get}

module _ {V : Type 0} where
  -- Each name stands once.
  abbrev pub Distinct : List (Str × V) → Type 0
  Distinct [] = Unit
  Distinct ((k, v) ∷ values) = (lookup k values ≡ none) × Distinct values

  -- the first of two options
  abbrev first : Option V → Option V → Option V
  first none b = b
  first (some a) b = some a

  first_elim :
      (a b : Option V) → first a b ≡ elim a as (λ x. Option V) [ none ↦ b | some v ↦ some v ]
  first_elim none b = refl
  first_elim (some a) b = refl

  lookup-copy_values :
      (name : Str) (values out : List (Str × V))
      → Distinct values
      → lookup name (copy_values values out) ≡ first (lookup name values) (lookup name out)
  unfolding copy_values lookup
  lookup-copy_values name [] out d = refl
  lookup-copy_values name ((k, v) ∷ values) out (free, d) = ground (
    arith,
    lookup-copy_values name values (insert k v out) d,
    lookup-insert k name v out,
    str_eq_iff k name,
    free,
  )

  -- Where no scope has a name twice, a name has the value in the snapshot that the lookup
  -- through the scopes gives it.
  pub lookup-snapshot :
      (name : Str) (scopes : List (List (Str × V)))
      → All Distinct scopes
      → lookup name (snapshot scopes) ≡ get name scopes
  unfolding snapshot get lookup
  lookup-snapshot name [] d = refl
  lookup-snapshot name (values ∷ parents) (d, ds) =
      lookup-copy_values name values (snapshot parents) d
      ∙ rw (lookup-snapshot name parents ds) (first_elim (lookup name values) (get name parents))
