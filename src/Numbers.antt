-- ===== src/Numbers.antt =====
-- `strconv.ParseInt(s, 10, 64)` and `strconv.ParseUint(s, 10, bits)`, on bytes.
pub mod Decimal
use goserver.Common.{
  arith, Bool, List, Option, [], ◌∷◌, ◌++◌, ◌&&◌, ◌||◌, ◌==◌, ◌+◌, ◌-◌, ◌*◌, ◌%◌, ℕ, if◌then◌else◌,
  leb, ltb, none, some, true, false, null,
}
use goserver.Text.{Str}

-- A number with its sign; zero has both.
pub record Signed : Type 0 where
  pub negative : Bool
  pub magnitude : ℕ

-- the digits of a number, behind those that are read
unfoldable pub digits_from : ℕ → Str → Option ℕ
digits_from n [] = some n
digits_from n (c ∷ s) =
    let rest = digits_from (n * 10 + (c - 48)) s in if leb 48 c && leb c 57 then rest else none

unfoldable pub parse_digits : Str → Option ℕ
parse_digits s = if null s then none else digits_from 0 s

abbrev pub int_max : ℕ
int_max = 9223372036854775807

unfoldable pub within : Bool → Option ℕ → Option Signed
within negative none = none
within negative (some n) =
    if leb n (if negative then int_max + 1 else int_max)
    then some (record { negative = negative; magnitude = n })
    else none

unfoldable pub parse_int : Str → Option Signed
parse_int [] = none
parse_int (c ∷ s) =
    if c == b'-'
    then within true (parse_digits s)
    else if c == b'+'
    then within false (parse_digits s)
    else within false (parse_digits (c ∷ s))

-- `strconv.ParseUint(s, 10, bits)` for numbers up to a limit
unfoldable pub parse_uint : ℕ → Str → Option ℕ
parse_uint limit s = elim (parse_digits s) [
  | none ↦ none
  | some n ↦ if leb n limit then some n else none
]
