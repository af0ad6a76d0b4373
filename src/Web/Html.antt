-- ===== src/Web/Html.antt =====
-- web_framework.go: the white space between the tags of a document, tags, and inline styles.
-- `bytes.TrimSpace` is that of ASCII. The pattern of declaration names is written out as a test.
pub mod Compact
pub mod Styles
use goserver.Common.{
  arith, Bool, List, Option, [], ◌∷◌, ◌++◌, ◌&&◌, ◌||◌, ◌==◌, ℕ, if◌then◌else◌, leb, length, ltb,
  none, not, null, some, suc, true, false, zero, any, all, map, reverse, is_some,
}
use goserver.Text.{
  Str, codes, str_eq, has_prefix, trim_space, to_lower, contains, split, join, trim_prefix,
  cut_prefix,
}

abbrev pub is_break : ℕ → Bool
is_break c = c == 13 || c == 10 || c == 9

-- `isHTMLSpace`
abbrev pub is_html_space : ℕ → Bool
is_html_space c = c == 32 || c == 9 || c == 13 || c == 10

-- `isHTMLNameChar`
unfoldable pub is_html_name_char : ℕ → Bool
is_html_name_char c =
    (leb b'a' c && leb c b'z')
    || (leb b'A' c && leb c b'Z')
    || (leb b'0' c && leb c b'9')
    || c == b'-'
    || c == b'_'
    || c == b':'

-- `htmlTagEnd` on the bytes after the start, with the quote that is open: the bytes before the `>`,
-- and those after it
unfoldable pub tag_end : Option ℕ → Str → Option (Str × Str)
tag_end quote [] = none
tag_end quote (c ∷ s) =
    let next : Option ℕ = elim quote [
      | some q ↦ if c == q then none else some q
      | none ↦ if c == b'\'' || c == b'"' then some c else none
    ] in
    let longer : Option (Str × Str) = elim (tag_end next s) [
      | none ↦ none
      | some (tag, rest) ↦ some (c ∷ tag, rest)
    ] in
    elim quote [ some q ↦ longer | none ↦ if c == b'>' then some ([], s) else longer ]

-- the bytes of a name
unfoldable pub tag_word : Str → Str
tag_word [] = []
tag_word (c ∷ s) =
    let rest = tag_word s in
    if c == 32 || c == 9 || c == 13 || c == 10 || c == b'/' then [] else c ∷ rest

unfoldable pub starts_with : ℕ → Str → Bool
starts_with c [] = false
starts_with c (d ∷ s) = d == c

-- `htmlTagName`
unfoldable pub html_tag_name : Str → Str × Bool
html_tag_name text =
    let source = trim_space text in
    if null source || starts_with b'!' source || starts_with b'?' source
    then ([], false)
    else elim source [
      | [] ↦ ([], false)
      | c ∷ s ↦
          if c == b'/'
          then (to_lower (tag_word (trim_space s)), true)
          else (to_lower (tag_word (c ∷ s)), false)
    ]

abbrev pub is_raw_tag : Str → Bool
is_raw_tag tag =
    str_eq tag (codes "pre")
    || str_eq tag (codes "script")
    || str_eq tag (codes "style")
    || str_eq tag (codes "textarea")

-- `rawTag` after a tag
unfoldable pub next_raw : Str → Str × Bool → Str
next_raw raw (tag, closing) =
    if closing && str_eq tag raw then [] else if not closing && is_raw_tag tag then tag else raw

-- what is left after the spaces between two tags
unfoldable pub drop_spaces : Str → Str
drop_spaces [] = []
drop_spaces (c ∷ s) = if is_html_space c then drop_spaces s else c ∷ s

unfoldable pub between_tags : Str → Str
between_tags s = let rest = drop_spaces s in if starts_with b'<' rest then rest else s

unfoldable pub ends_with_space : Str → Bool
ends_with_space out = starts_with 32 (reverse out)

-- what the loop's body leaves: the raw tag, the output and the rest
unfoldable pub compact_step : Str → Str → ℕ → Str → Str × Str × Str
compact_step raw out c s =
    if c == b'<'
    then if not (null raw) && not (has_prefix (to_lower (c ∷ s)) (b'<' ∷ b'/' ∷ to_lower raw))
      then (raw, out ++ c ∷ [], s)
      else elim (tag_end none s) [
        | none ↦ (raw, out ++ c ∷ s, [])
        | some (tag, rest) ↦
            let raw' = next_raw raw (html_tag_name tag) in
            (raw', out ++ (c ∷ tag ++ b'>' ∷ []), if null raw' then between_tags rest else rest)
      ]
    else if is_break c
    then (raw, if null out || ends_with_space out then out else out ++ 32 ∷ [], s)
    else (raw, out ++ c ∷ [], s)

-- the loop, with fuel
unfoldable pub compact_from : ℕ → Str → Str → Str → Option Str
compact_from fuel raw out [] = some out
compact_from zero raw out (c ∷ s) = none
compact_from (suc fuel) raw out (c ∷ s) =
    let r = compact_step raw out c s in compact_from fuel r.0 r.1 r.2

-- `compactHTMLIntertagWhitespace`
unfoldable pub compact_html : Str → Option Str
compact_html document =
    if any is_break document then compact_from (length document) [] [] document else some document

abbrev pub is_letter : ℕ → Bool
is_letter c = (leb b'a' c && leb c b'z') || (leb b'A' c && leb c b'Z')

abbrev pub is_name_byte : ℕ → Bool
is_name_byte c = is_letter c || (leb b'0' c && leb c b'9') || c == b'-'

-- `-?[a-zA-Z][a-zA-Z0-9-]*`
unfoldable pub is_plain_name : Str → Bool
is_plain_name [] = false
is_plain_name (c ∷ s) = is_letter c && all is_name_byte s

-- `cssDeclarationNamePattern`
unfoldable pub is_declaration_name : Str → Bool
is_declaration_name s = elim (cut_prefix s (codes "--")) [
  | some rest ↦ not (null rest) && all (λ x. is_name_byte x || x == b'_') rest
  | none ↦ is_plain_name (trim_prefix s (codes "-"))
]

-- `strings.Cut(s, sep)` for a separator of one byte: what is before it and, where it is found, after
unfoldable pub cut : ℕ → Str → Str × Option Str
cut sep [] = ([], none)
cut sep (c ∷ s) = let r = cut sep s in if c == sep then ([], some s) else (c ∷ r.0, r.1)

abbrev pub is_markup : ℕ → Bool
is_markup c = c == b'{' || c == b'}' || c == b'<' || c == b'>'

unfoldable pub is_unsafe_value : Str → Bool
is_unsafe_value value =
    let lower = to_lower value in
    any is_markup value
    || contains lower (codes "expression(")
    || contains lower (codes "javascript:")
    || contains lower (codes "-moz-binding")
    || contains lower (codes "behavior:")

-- the loop over the declarations
unfoldable pub declarations_from : List Str → Option (List Str)
declarations_from [] = some []
declarations_from (declaration ∷ more) =
    let rest = declarations_from more in
    let r = cut b':' declaration in
    let name = trim_space r.0 in
    let value : Str = trim_space (elim r.1 [ none ↦ [] | some v ↦ v ]) in
    if null name && null value
    then rest
    else if not (is_some r.1) || not (is_declaration_name name) || null value
    then none
    else if is_unsafe_value value
    then none
    else elim rest [ none ↦ none | some ds ↦ some ((name ++ b':' ∷ value) ∷ ds) ]

unfoldable pub safe_style_declarations : Str → Option Str
safe_style_declarations value = elim (declarations_from (split b';' value)) [
  | none ↦ none
  | some ds ↦ some (join (b';' ∷ []) ds)
]
