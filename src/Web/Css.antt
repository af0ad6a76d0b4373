-- ===== src/Web/Css.antt =====
-- web_framework.go: the styles of a page, cut into units at the top level and packed into chunks.
-- A size of 0 stands for one that is not positive.
pub mod Lossless
pub mod Chunks
pub mod Sizes
use goserver.Common.{
  arith, Bool, List, [], ◌∷◌, ◌++◌, ℕ, ◌+◌, ◌-◌, ◌==◌, ◌&&◌, ◌||◌, if◌then◌else◌, ltb, leb, length,
  null, reverse, true, false, map,
}
use goserver.Text.{Str, trim_space, has_prefix, has_suffix, join, split}

-- what `splitCSSUnits` is in: plain text, a comment, a string with its quote, or one byte to skip
pub data CssScan : Type 0 where
  plain : CssScan
  comment : CssScan
  quoted : ℕ → CssScan
  skip : CssScan → CssScan

-- the loop's body: the next state and depth, and whether a unit ends with this byte
unfoldable pub css_step : CssScan → ℕ → ℕ → Str → CssScan × ℕ × Bool
css_step plain depth c rest =
    if c == b'/' && has_prefix rest (b'*' ∷ [])
    then (skip comment, depth, false)
    else if c == b'\'' || c == b'"'
    then (quoted c, depth, false)
    else if c == b'{'
    then (plain, depth + 1, false)
    else if c == b'}'
    then (plain, depth - 1, depth - 1 == 0)
    else if c == b';'
    then (plain, depth, depth == 0)
    else (plain, depth, false)
css_step comment depth c rest =
    if c == b'*' && has_prefix rest (b'/' ∷ [])
    then (skip plain, depth, false)
    else (comment, depth, false)
css_step (quoted q) depth c rest =
    if c == b'\\'
    then (skip (quoted q), depth, false)
    else if c == q
    then (plain, depth, false)
    else (quoted q, depth, false)
css_step (skip after) depth c rest = (after, depth, false)

unfoldable pub add_unit : Str → List Str → List Str
add_unit text units =
    let unit = trim_space text in if null unit then units else (unit ++ b'\n' ∷ []) ∷ units

-- the loop, with the bytes since `start`
unfoldable pub units_from : CssScan → ℕ → Str → Str → List Str
units_from scan depth cur [] = add_unit cur []
units_from scan depth cur (c ∷ s) =
    let r = css_step scan depth c s in
    let text = cur ++ c ∷ [] in
    let ended = add_unit text (units_from r.0 r.1 [] s) in
    let longer = units_from r.0 r.1 text s in if r.2 then ended else longer

unfoldable pub split_css_units : Str → List Str
split_css_units css = units_from plain 0 [] css

-- the parts that are not blank, each with a new line at its end
unfoldable pub all_css : List Str → Str
all_css [] = []
all_css (part ∷ parts) =
    let rest = all_css parts in
    if null (trim_space part)
    then rest
    else if has_suffix part (b'\n' ∷ [])
    then part ++ rest
    else part ++ (b'\n' ∷ rest)

unfoldable pub all_units : List Str → List Str
all_units [] = []
all_units (part ∷ parts) = split_css_units part ++ all_units parts

unfoldable pub chunk_size : List Str → ℕ
chunk_size [] = 0
chunk_size (unit ∷ chunk) = length unit + chunk_size chunk

unfoldable pub flush : List Str → List (List Str) → List (List Str)
flush current chunks = if null current then chunks else current ∷ chunks

-- the loop over the units, with the current chunk and its size
unfoldable pub fill_chunks : ℕ → List Str → List Str → ℕ → List (List Str)
fill_chunks max [] current size = flush current []
fill_chunks max (unit ∷ units) current size =
    let next = flush current (fill_chunks max units (unit ∷ []) (length unit)) in
    let longer = fill_chunks max units (current ++ unit ∷ []) (size + length unit) in
    if ltb 0 size && ltb max (size + length unit) then next else longer

-- the loop that moves units from the end of the previous chunk, which is given reversed
unfoldable pub borrow : ℕ → ℕ → List Str → List Str → List Str × List Str
borrow min max [] last = ([], last)
borrow min max (unit ∷ []) last = (unit ∷ [], last)
borrow min max (unit ∷ before ∷ more) last =
    let previous = unit ∷ before ∷ more in
    let next = borrow min max (before ∷ more) (unit ∷ last) in
    if ltb (chunk_size last) min
    then if ltb max (chunk_size last + length unit) || ltb (chunk_size previous - length unit) min
      then (previous, last)
      else next
    else (previous, last)

unfoldable pub balance : ℕ → ℕ → List (List Str) → List (List Str)
balance min max [] = []
balance min max (chunk ∷ []) = chunk ∷ []
balance min max (previous ∷ last ∷ []) =
    if ltb (chunk_size last) min
    then (let r = borrow min max (reverse previous) last in reverse r.0 ∷ r.1 ∷ [])
    else previous ∷ last ∷ []
balance min max (chunk ∷ next ∷ third ∷ chunks) = chunk ∷ balance min max (next ∷ third ∷ chunks)

-- the sizes that `buildCSSChunks` works with
unfoldable pub min_chunk : ℕ → ℕ
min_chunk min = if min == 0 then 4096 else min

unfoldable pub max_chunk : ℕ → ℕ → ℕ
max_chunk min max =
    let limit = if max == 0 then 65536 else max in
    if ltb limit (min_chunk min) then min_chunk min else limit

-- the chunks of all units, of which there is one at least
unfoldable pub pack_units : ℕ → ℕ → List Str → List Str
pack_units min max units = map (join []) (balance min max (fill_chunks max units [] 0))

unfoldable pub build_css_chunks : List Str → Bool → ℕ → ℕ → List Str
build_css_chunks parts split min max =
    let full = all_css parts in
    let units = all_units parts in
    let limit = max_chunk min max in
    if null (trim_space full)
    then []
    else if split
    then if leb (length full) limit || null units
      then full ∷ []
      else pack_units (min_chunk min) limit units
    else full ∷ []
