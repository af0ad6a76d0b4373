-- ===== src/Utils.antt =====
-- utils.go: values of the environment, the client's address, origins, parameters of a query, and
-- escapes. What the environment holds for a key is given, `none` where it is not set; floats,
-- durations and random keys are left out. An integer of 64 bits is its two's complement.
pub mod Addresses
use goserver.Common.{
  arith, Bool, List, Option, [], ◌∷◌, ◌++◌, ◌&&◌, ◌||◌, ◌==◌, ◌+◌, ◌-◌, ◌*◌, ◌/◌, ◌%◌, ◌^◌, ℕ,
  if◌then◌else◌, leb, length, ltb, none, not, null, some, true, false, is_some,
}
use goserver.Text.{
  Str, codes, str_eq, has_prefix, has_suffix, trim_suffix, trim_space, trim, contains, split,
  to_lower, to_upper, member, cut_prefix,
}
use goserver.Maps.{lookup}
use goserver.Http.{get}
use goserver.Numbers.{Signed, parse_int, parse_uint}

-- `GetEnv`
unfoldable pub get_env : Option Str → Str → Str
get_env none default_value = default_value
get_env (some value) default_value = value

-- `strconv.ParseBool`
unfoldable pub parse_bool : Str → Option Bool
parse_bool s =
    if member s
      (codes "1" ∷ codes "t" ∷ codes "T" ∷ codes "true" ∷ codes "TRUE" ∷ codes "True" ∷ [])
    then some true
    else if member s
        (codes "0" ∷ codes "f" ∷ codes "F" ∷ codes "false" ∷ codes "FALSE" ∷ codes "False" ∷ [])
    then some false
    else none

unfoldable pub get_env_bool : Option Str → Bool → Bool
get_env_bool none default_value = default_value
get_env_bool (some value) default_value = elim (parse_bool value) [
  | none ↦ default_value
  | some parsed ↦ parsed
]

unfoldable pub get_env_int : Option Str → Signed → Signed
get_env_int env default_value =
    let value = get_env env [] in
    if null value
    then default_value
    else elim (parse_int value) [ none ↦ default_value | some v ↦ v ]

abbrev pub word : ℕ
word = 2 ^ 64

-- the two's complement of a number
unfoldable pub to_word : Signed → ℕ
to_word n = if n.negative then (word - n.magnitude) % word else n.magnitude

-- the two numbers of a shift
unfoldable pub shifted : List Str → Option ℕ
shifted (left ∷ right ∷ []) = elim (parse_int (trim_space left)) [
  | none ↦ none
  | some l ↦ elim (parse_uint 63 (trim_space right)) [
    | none ↦ none
    | some r ↦ some ((to_word l * 2 ^ r) % word)
  ]
]
shifted parts = none

-- `strings.Split(val, "<<")`, with the piece begun
unfoldable pub split_shift : Str → Str → List Str
split_shift cur [] = cur ∷ []
split_shift cur (c ∷ []) = (cur ++ c ∷ []) ∷ []
split_shift cur (c ∷ d ∷ s) =
    let closed = cur ∷ split_shift [] s in
    let longer = split_shift (cur ++ c ∷ []) (d ∷ s) in
    if c == b'<' && d == b'<' then closed else longer

-- the suffix of a size: its factor and what is before it
unfoldable pub unit_of : Str → ℕ × Str
unit_of val =
    if has_suffix val (codes "KB")
    then (1024, trim_suffix val (codes "KB"))
    else if has_suffix val (codes "MB")
    then (1048576, trim_suffix val (codes "MB"))
    else if has_suffix val (codes "GB")
    then (1073741824, trim_suffix val (codes "GB"))
    else (1, val)

unfoldable pub get_env_bytes : Option Str → ℕ → ℕ
get_env_bytes env default_value =
    let given = get_env env [] in
    let val = trim_space (to_upper given) in
    if null given
    then default_value
    else if contains val (codes "<<")
    then elim (shifted (split_shift [] val)) [ none ↦ default_value | some n ↦ n ]
    else elim (parse_int (trim_space (unit_of val).1)) [
      | none ↦ default_value
      | some n ↦ (to_word n * (unit_of val).0) % word
    ]

unfoldable pub get_response_mode : Option Str → Str
get_response_mode env =
    let value = to_lower (get_env env (codes "html")) in
    if str_eq value (codes "html") || str_eq value (codes "json") then value else codes "html"

-- the first three bytes
unfoldable pub first_three : Str → Str
first_three (a ∷ b ∷ c ∷ s) = a ∷ b ∷ c ∷ []
first_three s = s

unfoldable pub mask_partially : Str → Str
mask_partially s =
    if leb (length s) 4 then codes "[***]" else b'[' ∷ (first_three s ++ codes "...]")

-- the loop over the pieces
unfoldable pub trimmed : List Str → List Str
trimmed [] = []
trimmed (p ∷ parts) =
    let rest = trimmed parts in if null (trim_space p) then rest else trim_space p ∷ rest

unfoldable pub split_and_trim : Str → ℕ → List Str
split_and_trim s sep = trimmed (split sep s)

-- the loop over the parts of `X-Forwarded`
unfoldable pub forwarded_for : (Str → Bool) → List Str → Option Str
forwarded_for is_valid_ip [] = none
forwarded_for is_valid_ip (part ∷ parts) =
    let rest = forwarded_for is_valid_ip parts in
    elim (cut_prefix part (codes "for=")) [
      | none ↦ rest
      | some found ↦
          let ip = trim (λ c. c == b'"') (trim_space found) in
          if is_valid_ip ip then some ip else rest
    ]

-- the three headers in their turn
unfoldable pub ip_of_forwarded_for : (Str → Bool) → List (Str × Str) → Option Str
ip_of_forwarded_for is_valid_ip headers =
    elim (split_and_trim (get (codes "X-Forwarded-For") headers) b',') [
      | [] ↦ none
      | first ∷ ips ↦ let ip = trim_space first in if is_valid_ip ip then some ip else none
    ]

unfoldable pub ip_of_real_ip : (Str → Bool) → List (Str × Str) → Option Str
ip_of_real_ip is_valid_ip headers =
    let given = get (codes "X-Real-Ip") headers in
    let ip = trim_space given in
    if null given then none else if is_valid_ip ip then some ip else none

-- `GetRealIP`; `net.ParseIP` and `net.SplitHostPort` are arguments
unfoldable pub get_real_ip : (Str → Bool) → (Str → Option Str) → List (Str × Str) → Str → Str
get_real_ip is_valid_ip split_host headers remote_addr =
    elim (ip_of_forwarded_for is_valid_ip headers) [
      | some ip ↦ ip
      | none ↦ elim (ip_of_real_ip is_valid_ip headers) [
        | some ip ↦ ip
        | none ↦
            elim (forwarded_for is_valid_ip
              (split_and_trim (get (codes "X-Forwarded") headers) b';')) [
                | some ip ↦ ip
                | none ↦ elim (split_host remote_addr) [ none ↦ remote_addr | some ip ↦ ip ]
              ]
      ]
    ]

-- `isValidOrigin`; the host of the origin is that of `url.Parse`, and the test for a loopback
-- address that of `net.ParseIP`
unfoldable pub is_valid_origin : Bool → (Str → Option Str) → (Str → Bool) → Str → Str → Bool
is_valid_origin is_dev url_host is_loopback origin valid_host =
    if is_dev then true else elim (url_host origin) [
      | none ↦ false
      | some host ↦
          if has_prefix host (codes "localhost") || has_prefix host (codes "127.0.0.1")
          then true
          else if is_loopback host
          then true
          else str_eq host valid_host
    ]

-- `toASCII` and `hex4`
abbrev hex_digit : ℕ → ℕ
hex_digit n = if ltb n 10 then 48 + n else 87 + n

unfoldable pub hex4 : ℕ → Str
hex4 b = b'0' ∷ b'0' ∷ hex_digit (b / 16) ∷ hex_digit (b % 16) ∷ []

unfoldable pub to_ascii : Str → Str
to_ascii [] = []
to_ascii (b ∷ input) =
    let rest = to_ascii input in if ltb b 128 then b ∷ rest else (codes "\\u" ++ hex4 b) ++ rest

-- `getFirst`
unfoldable pub get_first : List (Str × List Str) → Str → Option Str
get_first query key = elim (lookup key query) [
  | none ↦ none
  | some vals ↦ elim vals [ [] ↦ none | v ∷ vs ↦ if null v then none else some v ]
]

-- `GetQueryParam`; `allowed` is `none` for a nil slice
unfoldable pub get_query_param : List (Str × List Str) → Str → Str → Option (List Str) → Str
get_query_param query key default_value allowed = elim (get_first query key) [
  | none ↦ default_value
  | some val ↦ elim allowed [
    | none ↦ val
    | some names ↦ if member val names then val else default_value
  ]
]

-- the loops of `GetQueryArray`
unfoldable pub plain_values : List Str → List Str
plain_values [] = []
plain_values (v ∷ vals) = let rest = plain_values vals in if null v then rest else v ∷ rest

unfoldable pub allowed_values : List Str → List Str → List Str
allowed_values names [] = []
allowed_values names (v ∷ vals) =
    let rest = allowed_values names vals in
    if null v then rest else if member v names then v ∷ rest else rest

unfoldable pub get_query_array :
    List (Str × List Str) → Str → List Str → Option (List Str) → List Str
get_query_array query key default_value allowed = elim (lookup key query) [
  | none ↦ default_value
  | some vals ↦ if null vals then default_value else elim allowed [
    | none ↦ plain_values vals
    | some names ↦
        let result = allowed_values names vals in if null result then default_value else result
  ]
]
