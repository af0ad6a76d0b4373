-- ===== src/Json.antt =====
-- json.go: paths with dots into a decoded value. Scalars other than texts are given by their JSON
-- text. The cache of compiled paths is a list.
pub mod Paths
pub mod Leads
use goserver.Common.{
  arith, Bool, List, Option, [], ◌∷◌, ℕ, if◌then◌else◌, none, some, suc, zero, null,
}
use goserver.Text.{Str, split, str_eq}
use goserver.Maps.{lookup, insert}
use goserver.Numbers.{Signed, parse_int}

mutual
  pub data Value : Type 0 where
    text : Str → Value
    scalar : Str → Value
    array : Items → Value
    object : Fields → Value

  pub data Items : Type 0 where
    nil_array : Items
    item : Value → Items → Items

  pub data Fields : Type 0 where
    nil_object : Fields
    field : Str → Value → Fields → Fields

pub data PathSegment : Type 0 where
  path_key : Str → PathSegment
  path_index : Signed → PathSegment
  path_wildcard : PathSegment

unfoldable pub path_segment : Str → PathSegment
path_segment p =
    if str_eq p (b'*' ∷ [])
    then path_wildcard
    else elim (parse_int p) [ none ↦ path_key p | some index ↦ path_index index ]

unfoldable pub path_segments : List Str → List PathSegment
path_segments [] = []
path_segments (p ∷ parts) = path_segment p ∷ path_segments parts

-- `compilePath` with its cache
unfoldable pub compile_path :
    Str → List (Str × List PathSegment) → List PathSegment × List (Str × List PathSegment)
compile_path path cache = elim (lookup path cache) [
  | some segments ↦ (segments, cache)
  | none ↦ let segments = path_segments (split b'.' path) in (segments, insert path segments cache)
]

-- `node[s.key]`
unfoldable pub get_field : Str → Fields → Option Value
get_field key nil_object = none
get_field key (field k v fields) =
    let rest = get_field key fields in if str_eq k key then some v else rest

-- `node[s.index]` within the bounds
unfoldable pub get_item : ℕ → Items → Option Value
get_item n nil_array = none
get_item zero (item v items) = some v
get_item (suc n) (item v items) = get_item n items

unfoldable pub item_at : Signed → Items → Option Value
item_at index items =
    if index.negative then get_zero index.magnitude items else get_item index.magnitude items
  where
    get_zero : ℕ → Items → Option Value
    get_zero zero rest = get_item zero rest
    get_zero (suc n) rest = none

-- the loop of `GetDotPath`: a wildcard ends it
unfoldable pub follow : List PathSegment → Value → Option Value
follow [] v = some v
follow (path_wildcard ∷ segments) (object fields) = some (object fields)
follow (path_wildcard ∷ segments) (array items) = some (array items)
follow (path_wildcard ∷ segments) (text s) = none
follow (path_wildcard ∷ segments) (scalar s) = none
follow (path_index index ∷ segments) (array items) = elim (item_at index items) [
  | none ↦ none
  | some v ↦ follow segments v
]
follow (path_index index ∷ segments) (object fields) = none
follow (path_index index ∷ segments) (text s) = none
follow (path_index index ∷ segments) (scalar s) = none
follow (path_key key ∷ segments) (object fields) = elim (get_field key fields) [
  | none ↦ none
  | some v ↦ follow segments v
]
follow (path_key key ∷ segments) (array items) = none
follow (path_key key ∷ segments) (text s) = none
follow (path_key key ∷ segments) (scalar s) = none

-- `GetDotPath`, with the cache; the map is `none` where it is nil
unfoldable pub get_dot_path :
    Option Fields
    → Str
    → List (Str × List PathSegment)
    → Option Value × List (Str × List PathSegment)
get_dot_path none path cache = (none, cache)
get_dot_path (some fields) path cache =
    let compiled = compile_path path cache in
    if null path then (none, cache) else (follow compiled.0 (object fields), compiled.1)
