-- ===== src/Text.antt =====
-- The functions of Go's `strings` package that the program calls, over byte strings: a Go string
-- is a sequence of bytes. Letter case and white space are those of ASCII.
pub mod Compare
pub mod Pieces
pub mod Ink
use Prim.Native.Char.{code}
use Prim.Native.String.{String}
use goserver.Common.{
  ℕ, ◌+◌, ◌-◌, Bool, true, false, not, ◌&&◌, ◌||◌, Option, none, some, List, [], ◌∷◌, ◌++◌, map,
  reverse, ltb, leb, ◌==◌, if◌then◌else◌, any, suc, zero, ◌%◌, ◌/◌,
}

abbrev pub Str : Type 0
Str = List ℕ

-- An ASCII literal, as bytes.
abbrev pub codes : String → Str
codes String.[] = []
codes (String.◌∷◌ c s) = code c ∷ codes s

-- `s == t`
unfoldable pub str_eq : Str → Str → Bool
str_eq [] [] = true
str_eq [] (d ∷ t) = false
str_eq (c ∷ s) [] = false
str_eq (c ∷ s) (d ∷ t) = c == d && str_eq s t

-- `strings.CutPrefix(s, prefix)`, `none` where the prefix is missing
unfoldable pub cut_prefix : Str → Str → Option Str
cut_prefix s [] = some s
cut_prefix [] (d ∷ t) = none
cut_prefix (c ∷ s) (d ∷ t) = if c == d then cut_prefix s t else none

unfoldable pub has_prefix : Str → Str → Bool
has_prefix s [] = true
has_prefix [] (d ∷ t) = false
has_prefix (c ∷ s) (d ∷ t) = c == d && has_prefix s t

unfoldable pub trim_prefix : Str → Str → Str
trim_prefix s prefix = elim (cut_prefix s prefix) [ none ↦ s | some rest ↦ rest ]

unfoldable pub has_suffix : Str → Str → Bool
has_suffix s suffix = has_prefix (reverse s) (reverse suffix)

unfoldable pub trim_suffix : Str → Str → Str
trim_suffix s suffix = reverse (trim_prefix (reverse s) (reverse suffix))

-- `strings.Contains(s, sub)`
unfoldable pub contains : Str → Str → Bool
contains [] sub = has_prefix [] sub
contains (c ∷ s) sub = has_prefix (c ∷ s) sub || contains s sub

-- `strings.TrimLeft` and `strings.TrimRight` for a cut set given as a test
unfoldable pub trim_left : (ℕ → Bool) → Str → Str
trim_left cut [] = []
trim_left cut (c ∷ s) = if cut c then trim_left cut s else c ∷ s

unfoldable pub trim_right : (ℕ → Bool) → Str → Str
trim_right cut s = reverse (trim_left cut (reverse s))

unfoldable pub trim : (ℕ → Bool) → Str → Str
trim cut s = trim_right cut (trim_left cut s)

abbrev pub is_slash : ℕ → Bool
is_slash c = c == b'/'

abbrev pub is_space : ℕ → Bool
is_space c = c == 32 || (leb 9 c && leb c 13)

unfoldable pub trim_space : Str → Str
trim_space s = trim is_space s

-- the pieces of `strings.Split(s, sep)` for a separator of one byte, with `cur` the piece begun
unfoldable pub split_from : ℕ → Str → Str → List Str
split_from sep cur [] = cur ∷ []
split_from sep cur (c ∷ s) =
    let closed = cur ∷ split_from sep [] s in
    let longer = split_from sep (cur ++ c ∷ []) s in if c == sep then closed else longer

unfoldable pub split : ℕ → Str → List Str
split sep s = split_from sep [] s

-- `strings.Join(parts, sep)`
unfoldable pub join : Str → List Str → Str
join sep [] = []
join sep (p ∷ []) = p
join sep (p ∷ q ∷ ps) = p ++ (sep ++ join sep (q ∷ ps))

abbrev upper_byte : ℕ → ℕ
upper_byte c = if leb b'a' c && leb c b'z' then c - 32 else c

abbrev lower_byte : ℕ → ℕ
lower_byte c = if leb b'A' c && leb c b'Z' then c + 32 else c

unfoldable pub to_upper : Str → Str
to_upper s = map upper_byte s

unfoldable pub to_lower : Str → Str
to_lower s = map lower_byte s

-- `slices.Contains(list, s)`
unfoldable pub member : Str → List Str → Bool
member s [] = false
member s (x ∷ xs) = str_eq s x || member s xs

-- the list without any copy of `s`
unfoldable pub without : Str → List Str → List Str
without s [] = []
without s (x ∷ xs) = let rest = without s xs in if str_eq s x then rest else x ∷ rest

-- `strconv.Itoa` of a number that is not negative; the fuel is the number itself and one more
unfoldable pub itoa_from : ℕ → ℕ → Str → Str
itoa_from zero n acc = acc
itoa_from (suc f) n acc =
    let acc' = (48 + n % 10) ∷ acc in
    let rest = itoa_from f (n / 10) acc' in if ltb n 10 then acc' else rest

unfoldable pub itoa : ℕ → Str
itoa n = itoa_from (n + 1) n []
