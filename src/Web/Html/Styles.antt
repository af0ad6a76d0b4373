-- ===== src/Web/Html/Styles.antt =====
-- web_framework.go: what `safeStyleDeclarations` lets through.
use goserver.Common.{
  arith, List, [], ◌∷◌, ◌++◌, ◌≡◌, ◌||◌, ◌==◌, ℕ, Option, some, none, true, false, if_intro, refl,
  any, all, Option-cases, inl, inr, null, not, is_some, some_inj, subst, All, ◌&&◌,
}
use goserver.Text.{Str, codes, split, join, trim_space, cut_prefix, trim_prefix}
use goserver.Text.Compare.{append-cut_prefix}
use goserver.Web.Html.{
  is_markup, is_name_byte, is_plain_name, is_declaration_name, is_unsafe_value, cut,
  declarations_from, safe_style_declarations,
}

-- None of the bytes `{`, `}`, `<` and `>`.
abbrev Plain : Str → Type 0
Plain s = any is_markup s ≡ false

any-append : (s t : Str) → any is_markup (s ++ t) ≡ (any is_markup s || any is_markup t)
any-append [] t = refl
any-append (c ∷ s) t = ground (arith, any-append s t)

name_byte_plain : (c : ℕ) → (is_name_byte c || c == b'_') ≡ true → is_markup c ≡ false
name_byte_plain c h = ground (arith, h)

all-Plain : (s : Str) → all (λ x. is_name_byte x || x == b'_') s ≡ true → Plain s
all-Plain [] h = refl
all-Plain (c ∷ s) h = ground (arith, h, name_byte_plain c, all-Plain s)

all_name-Plain : (s : Str) → all is_name_byte s ≡ true → Plain s
all_name-Plain [] h = refl
all_name-Plain (c ∷ s) h = ground (arith, h, name_byte_plain c, all_name-Plain s)

is_plain_name-Plain : (s : Str) → is_plain_name s ≡ true → Plain s
unfolding is_plain_name
is_plain_name-Plain [] h = refl
is_plain_name-Plain (c ∷ s) h = ground (arith, h, name_byte_plain c, all_name-Plain s)

trim_prefix-Plain : (s : Str) → Plain (trim_prefix s (codes "-")) → Plain s
unfolding trim_prefix
trim_prefix-Plain s h = elim (Option-cases (cut_prefix s (codes "-"))) [
  | inl missing ↦ rw (trim_prefix, missing) at h
  | inr (rest, found) ↦
      rw (append-cut_prefix s (codes "-") rest found)
        (ground (arith, any-append (codes "-") rest, rw (trim_prefix, found) at h))
]

is_declaration_name-Plain : (s : Str) → is_declaration_name s ≡ true → Plain s
unfolding is_declaration_name
is_declaration_name-Plain s h = elim (Option-cases (cut_prefix s (codes "--"))) [
  | inl missing ↦
      trim_prefix-Plain s (is_plain_name-Plain _ (rw (is_declaration_name, missing) at h))
  | inr (rest, found) ↦
      let good = rw (is_declaration_name, found) at h in
      rw (append-cut_prefix s (codes "--") rest found) (ground (arith, all-Plain rest, good))
]

value-Plain : (value : Str) → is_unsafe_value value ≡ false → Plain value
unfolding is_unsafe_value
value-Plain value h = ground (arith, h)

join-Plain : (ds : List Str) → All Plain ds → Plain (join (b';' ∷ []) ds)
unfolding join
join-Plain [] h = refl
join-Plain (d ∷ []) h = h.0
join-Plain (d ∷ e ∷ ds) (h, hs) =
    ground
      (arith, h, any-append d ((b';' ∷ []) ++ join (b';' ∷ []) (e ∷ ds)), join-Plain (e ∷ ds) hs)

-- Where all declarations that come out are plain.
AllPlain : Option (List Str) → Type 0
AllPlain r = (ds : List Str) → r ≡ some ds → All Plain ds

with_one :
    (name value : Str) (rest : Option (List Str))
    → Plain name
    → Plain value
    → AllPlain rest
    → AllPlain (elim rest [ none ↦ none | some ds ↦ some ((name ++ b':' ∷ value) ∷ ds) ])
unfolding AllPlain
with_one name value none n v h = λ ds e. cc
with_one name value (some ds') n v h = λ ds e.
    subst (All Plain) (some_inj e)
      (ground (arith, n, v, any-append name (b':' ∷ value)), h ds' refl)

declarations-Plain : (parts : List Str) → AllPlain (declarations_from parts)
unfolding declarations_from AllPlain
declarations-Plain [] = λ ds h. subst (All Plain) (some_inj h) tt
declarations-Plain (declaration ∷ more) =
    let r = cut b':' declaration in
    let name = trim_space r.0 in
    let value = trim_space (elim r.1 as (λ x. Str) [ none ↦ [] | some v ↦ v ]) in
    if_intro AllPlain (null name && null value) _ _ (λ _. declarations-Plain more)
      (λ _.
        if_intro AllPlain (not (is_some r.1) || not (is_declaration_name name) || null value) _ _
          (λ _ ds h. cc)
          (λ good.
            if_intro AllPlain (is_unsafe_value value) _ _ (λ _ ds h. cc)
              (λ harmless.
                with_one name value _ (is_declaration_name-Plain name (ground (arith, good)))
                  (value-Plain value harmless) (declarations-Plain more))))

-- Declarations that are let through have none of the bytes "{", "}", "<" and ">".
pub safe_style_declarations-plain :
    (value css : Str) → safe_style_declarations value ≡ some css → any is_markup css ≡ false
unfolding safe_style_declarations
safe_style_declarations-plain value css h =
    elim (Option-cases (declarations_from (split b';' value))) [
      | inl missing ↦ (let bad = rw (safe_style_declarations, missing) at h in cc)
      | inr (ds, found) ↦
          subst Plain (some_inj (rw (safe_style_declarations, found) at h))
            (join-Plain ds (unfold AllPlain in declarations-Plain (split b';' value) ds found))
    ]
