-- ===== src/Web/Scopes/Attributes.antt =====
-- web_framework.go: the loops over the attributes of states.
use goserver.Common.{
  arith, Option, [], ◌∷◌, ◌++◌, ◌≡◌, ◌≤◌, ◌<◌, ◌+◌, ℕ, none, some, suc, zero, length, length-append,
  refl, Option-cases, inl, inr, subst, if_intro, ◌==◌, true, List, is_some,
}
use goserver.Text.{Str, has_prefix}
use goserver.Maps.{lookup_or}
use goserver.Web.Scopes.{
  find, cut_quote, drop_bytes, first_attribute, remove_from, remove_runtime_state_attributes,
  state_prefix, replace_from,
}

-- What is found is no longer than the text.
Short : Str → Option (Str × Str) → Type 0
Short s none = Unit {0}
Short s (some (before, at)) = length before + length at ≤ length s

-- The same, less one byte.
Shorter : Str → Option (Str × Str) → Type 0
Shorter s none = Unit {0}
Shorter s (some (before, rest)) = length before + length rest < length s

find-Short : (sub s : Str) → Short s (find sub s)
unfolding find Short
find-Short sub [] = tt
find-Short sub (c ∷ s) =
    if_intro (Short (c ∷ s)) (has_prefix (c ∷ s) sub) _ _ (λ _. omega arith)
      (λ _. later (find sub s) (find-Short sub s))
  where
    later :
        (r : Option (Str × Str))
        → Short s r
        → Short (c ∷ s) (elim r [ none ↦ none | some (before, at) ↦ some (c ∷ before, at) ])
    later none h = tt
    later (some (before, at)) h = omega (arith, h)

cut_quote-Shorter : (s : Str) → Shorter s (cut_quote s)
unfolding cut_quote Shorter
cut_quote-Shorter [] = tt
cut_quote-Shorter (c ∷ s) =
    if_intro (Shorter (c ∷ s)) (c == b'"') _ _ (λ _. omega arith)
      (λ _. later (cut_quote s) (cut_quote-Shorter s))
  where
    later :
        (r : Option (Str × Str))
        → Shorter s r
        → Shorter (c ∷ s) (elim r [ none ↦ none | some (before, rest) ↦ some (c ∷ before, rest) ])
    later none h = tt
    later (some (before, rest)) h = omega (arith, h)

length-drop_bytes : (sub s : Str) → length (drop_bytes sub s) ≤ length s
unfolding drop_bytes
length-drop_bytes [] s = omega arith
length-drop_bytes (d ∷ sub) [] = omega arith
length-drop_bytes (d ∷ sub) (c ∷ s) = omega (arith, length-drop_bytes sub s)

-- Without its first attribute a text is shorter.
Less : Str → Option (Str × Str × Str) → Type 0
Less s none = Unit {0}
Less s (some (before, value, rest)) = length before + length rest < length s

first_attribute-Less : (sub source : Str) → Less source (first_attribute sub source)
unfolding first_attribute Less Short Shorter
first_attribute-Less sub source = at_place (find sub source) (find-Short sub source)
  where
    at_quote :
        (before at : Str) (r : Option (Str × Str))
        → length before + length at ≤ length source
        → Shorter (drop_bytes sub at) r
        → Less source (elim r [ none ↦ none | some (value, rest) ↦ some (before, value, rest) ])
    at_quote before at none h k = tt
    at_quote before at (some (value, rest)) h k = omega (arith, h, k, length-drop_bytes sub at)

    at_place :
        (r : Option (Str × Str))
        → Short source r
        → Less source (elim r [
          | none ↦ none
          | some (before, at) ↦ elim (cut_quote (drop_bytes sub at)) [
            | none ↦ none
            | some (value, rest) ↦ some (before, value, rest)
          ]
        ])
    at_place none h = tt
    at_place (some (before, at)) h =
        at_quote before at (cut_quote (drop_bytes sub at)) h (cut_quote-Shorter (drop_bytes sub at))

abbrev attribute : Str → Option (Str × Str × Str)
attribute source = first_attribute (b' ' ∷ state_prefix) source

remove_from_lem :
    (fuel : ℕ) (source : Str)
    → length source < fuel
    → (r : Str) × (remove_from fuel source ≡ some r) × (attribute r ≡ none)
unfolding remove_from Less
remove_from_lem zero source h = absurd (omega (arith, h))
remove_from_lem (suc fuel) source h = elim (Option-cases (attribute source)) [
  | inl missing ↦ (source, rw (remove_from, missing) refl, missing)
  | inr ((before, value, rest), found) ↦
      let less = subst (Less source) found (first_attribute-Less (b' ' ∷ state_prefix) source) in
      let (r, e, k) =
        remove_from_lem fuel (before ++ rest) (omega (arith, h, less, length-append before rest)) in
      (r, rw (remove_from, found) e, k)
]

-- The loop ends within as many turns as the document has bytes and one more, and in what it
-- leaves no attribute with the prefix and a quote behind it is found.
pub remove_runtime_state_attributes-none :
    (source : Str)
    → (r : Str) × (remove_runtime_state_attributes source ≡ some r)
      × (first_attribute (b' ' ∷ state_prefix) r ≡ none)
unfolding remove_runtime_state_attributes
remove_runtime_state_attributes-none source =
    remove_from_lem (length source + 1) source (omega arith)

-- `replaceRuntimeStateTokens` ends too: the rest behind an attribute is shorter than the text.
replace_from_ends :
    (fuel : ℕ) (replacements : List (Str × Str)) (source : Str)
    → length source < fuel
    → is_some (replace_from fuel replacements source) ≡ true
unfolding replace_from Less
replace_from_ends zero replacements source h = absurd (omega (arith, h))
replace_from_ends (suc fuel) replacements source h =
    elim (Option-cases (first_attribute state_prefix source)) [
      | inl missing ↦ rw (replace_from, missing) refl
      | inr ((before, value, rest), found) ↦
          let less = subst (Less source) found (first_attribute-Less state_prefix source) in
          let ends = replace_from_ends fuel replacements rest (omega (arith, h, less)) in
          rw (replace_from, found) (go (replace_from fuel replacements rest) before value ends)
    ]
  where
    go :
        (r : Option Str) (before value : Str)
        → is_some r ≡ true
        → is_some (elim r as (λ x. Option Str) [
          | none ↦ none
          | some done ↦
              some (before ++ (state_prefix ++ (lookup_or value value replacements ++ b'"' ∷ done)))
        ])
          ≡ true
    go none before value e = cc
    go (some done) before value e = refl
