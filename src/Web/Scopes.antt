-- ===== src/Web/Scopes.antt =====
-- web_framework.go: scopes of a component's names, from the inmost to the outmost, and the
-- attributes of page states in a document.
pub mod Snapshots
pub mod Attributes
use goserver.Common.{
  arith, Bool, List, Option, [], ◌∷◌, ◌++◌, ℕ, if◌then◌else◌, none, some, suc, zero, ◌||◌, ◌+◌,
  length, null, true, false, ◌==◌,
}
use goserver.Text.{Str, codes, has_prefix, cut_prefix}
use goserver.Maps.{lookup, insert, lookup_or}

module _ {V : Type 0} where
  -- `NewScope`: a scope is its own values and those of its parents
  unfoldable pub new_scope : List (List (Str × V)) → List (List (Str × V))
  new_scope parent = [] ∷ parent

  unfoldable pub set : Str → V → List (List (Str × V)) → List (List (Str × V))
  set name value [] = []
  set name value (values ∷ parents) = insert name value values ∷ parents

  unfoldable pub get : Str → List (List (Str × V)) → Option V
  get name [] = none
  get name (values ∷ parents) =
      let outer = get name parents in
      elim (lookup name values) [ none ↦ outer | some value ↦ some value ]

  unfoldable pub copy_values : List (Str × V) → List (Str × V) → List (Str × V)
  copy_values [] out = out
  copy_values ((k, v) ∷ values) out = copy_values values (insert k v out)

  -- `Snapshot`: the outmost scope first
  unfoldable pub snapshot : List (List (Str × V)) → List (Str × V)
  snapshot [] = []
  snapshot (values ∷ parents) = copy_values values (snapshot parents)

-- `strings.Index(s, sub)`: what is before the first place of a text that is not empty, and from there
unfoldable pub find : Str → Str → Option (Str × Str)
find sub [] = none
find sub (c ∷ s) =
    let later : Option (Str × Str) = elim (find sub s) [
      | none ↦ none
      | some (before, at) ↦ some (c ∷ before, at)
    ] in
    if has_prefix (c ∷ s) sub then some ([], c ∷ s) else later

-- `strings.IndexByte(s, '"')`: what is before the quote and what is behind it
unfoldable pub cut_quote : Str → Option (Str × Str)
cut_quote [] = none
cut_quote (c ∷ s) =
    let later : Option (Str × Str) = elim (cut_quote s) [
      | none ↦ none
      | some (before, rest) ↦ some (c ∷ before, rest)
    ] in
    if c == b'"' then some ([], s) else later

unfoldable pub drop_bytes : Str → Str → Str
drop_bytes [] s = s
drop_bytes (d ∷ sub) [] = []
drop_bytes (d ∷ sub) (c ∷ s) = drop_bytes sub s

-- the first attribute with a prefix: what is before it, its value, and what is behind its quote
unfoldable pub first_attribute : Str → Str → Option (Str × Str × Str)
first_attribute sub source = elim (find sub source) [
  | none ↦ none
  | some (before, at) ↦ elim (cut_quote (drop_bytes sub at)) [
    | none ↦ none
    | some (value, rest) ↦ some (before, value, rest)
  ]
]

abbrev pub state_prefix : Str
state_prefix = codes "data-gosh-state=\""

-- the loop of `replaceRuntimeStateTokens`, with fuel
unfoldable pub replace_from : ℕ → List (Str × Str) → Str → Option Str
replace_from zero replacements source = none
replace_from (suc fuel) replacements source = elim (first_attribute state_prefix source) [
  | none ↦ some source
  | some (before, value, rest) ↦ elim (replace_from fuel replacements rest) [
    | none ↦ none
    | some done ↦
        some (before ++ (state_prefix ++ (lookup_or value value replacements ++ b'"' ∷ done)))
  ]
]

unfoldable pub replace_runtime_state_tokens : Str → List (Str × Str) → Option Str
replace_runtime_state_tokens source replacements =
    if null source || null replacements
    then some source
    else replace_from (length source + 1) replacements source

-- the loop of `removeRuntimeStateAttributes`, with fuel
unfoldable pub remove_from : ℕ → Str → Option Str
remove_from zero source = none
remove_from (suc fuel) source = elim (first_attribute (b' ' ∷ state_prefix) source) [
  | none ↦ some source
  | some (before, value, rest) ↦ remove_from fuel (before ++ rest)
]

unfoldable pub remove_runtime_state_attributes : Str → Option Str
remove_runtime_state_attributes source = remove_from (length source + 1) source
