-- ===== src/Json/Paths.antt =====
-- json.go: `GetDotPath` on a path of two paths, and its cache.
use goserver.Common.{
  arith, List, Option, [], ◌∷◌, ◌++◌, ◌≡◌, none, some, refl, ap, ◌∙◌, false, sym, ℕ, Bool-cases,
  Option-cases, inl, inr, null, some_inj,
}
use goserver.Text.{Str, str_eq, split, split_from}
use goserver.Text.Compare.{str_eq_iff}
use goserver.Maps.{lookup, insert, lookup-insert}
use goserver.Json.{
  Value, Fields, PathSegment, path_segment, path_segments, compile_path, follow, get_dot_path,
  item_at, get_field, path_index, path_key, path_wildcard,
}

split_from-append :
    (sep : ℕ) (cur p q : Str)
    → split_from sep cur (p ++ sep ∷ q) ≡ split_from sep cur p ++ split sep q
unfolding split_from split
split_from-append sep cur [] q = ground arith
split_from-append sep cur (c ∷ p) q =
    ground (arith, split_from-append sep [] p q, split_from-append sep (cur ++ c ∷ []) p q)

path_segments-append :
    (xs ys : List Str) → path_segments (xs ++ ys) ≡ path_segments xs ++ path_segments ys
unfolding path_segments
path_segments-append [] ys = refl
path_segments-append (x ∷ xs) ys = ap (λ s. path_segment x ∷ s) (path_segments-append xs ys)

-- No part of a path is a wildcard.
abbrev pub Plain : List PathSegment → Type 0
Plain [] = Unit
Plain (path_wildcard ∷ segments) = ⊥
Plain (path_key key ∷ segments) = Plain segments
Plain (path_index index ∷ segments) = Plain segments

-- What a value leads to, where there is one.
abbrev pub along : List PathSegment → Option Value → Option Value
along segments none = none
along segments (some v) = follow segments v

along-append :
    (xs ys : List PathSegment) (o : Option Value)
    → ((v : Value) → follow (xs ++ ys) v ≡ along ys (follow xs v))
    → along (xs ++ ys) o ≡ along ys (along xs o)
along-append xs ys none h = refl
along-append xs ys (some v) h = h v

follow-append :
    (xs ys : List PathSegment) (v : Value) → Plain xs → follow (xs ++ ys) v ≡ along ys (follow xs v)
unfolding follow
follow-append [] ys v h = refl
follow-append (path_wildcard ∷ xs) ys v h = absurd h
follow-append (path_key key ∷ xs) ys (Value.object fields) h =
    along-append xs ys (get_field key fields) (λ v. follow-append xs ys v h)
follow-append (path_key key ∷ xs) ys (Value.array items) h = refl
follow-append (path_key key ∷ xs) ys (Value.text s) h = refl
follow-append (path_key key ∷ xs) ys (Value.scalar s) h = refl
follow-append (path_index index ∷ xs) ys (Value.array items) h =
    along-append xs ys (item_at index items) (λ v. follow-append xs ys v h)
follow-append (path_index index ∷ xs) ys (Value.object fields) h = refl
follow-append (path_index index ∷ xs) ys (Value.text s) h = refl
follow-append (path_index index ∷ xs) ys (Value.scalar s) h = refl

-- The segments of a path without the cache.
abbrev pub segments_of : Str → List PathSegment
segments_of path = path_segments (split b'.' path)

-- The cache holds for each path its segments.
abbrev pub IsConsistent : List (Str × List PathSegment) → Type 0
IsConsistent cache =
    (path : Str) (segments : List PathSegment)
    → lookup path cache ≡ some segments
    → segments ≡ segments_of path

insert-IsConsistent :
    (path : Str) (cache : List (Str × List PathSegment))
    → IsConsistent cache
    → IsConsistent (insert path (segments_of path) cache)
insert-IsConsistent path cache v other segments h = elim (Bool-cases (str_eq path other)) [
  | inl same ↦
      let e = rw (lookup-insert path other (segments_of path) cache, same) at h in
      sym (some_inj e) ∙ ap segments_of ((str_eq_iff path other).0 same)
  | inr ne ↦ v other segments (rw (lookup-insert path other (segments_of path) cache, ne) at h)
]

compile_path_lem :
    (path : Str) (cache : List (Str × List PathSegment))
    → IsConsistent cache
    → ((compile_path path cache).0 ≡ segments_of path) × IsConsistent (compile_path path cache).1
unfolding compile_path
compile_path_lem path cache v = elim (Option-cases (lookup path cache)) [
  | inl missing ↦ rw (compile_path, missing) (refl, insert-IsConsistent path cache v)
  | inr (segments, found) ↦ rw (compile_path, found) (v path segments found, v)
]

pub get_dot_path_eq :
    (fields : Fields) (path : Str) (cache : List (Str × List PathSegment))
    → null path ≡ false
    → IsConsistent cache
    → (get_dot_path (some fields) path cache).0 ≡ follow (segments_of path) (Value.object fields)
unfolding get_dot_path
get_dot_path_eq fields path cache h v = rw (h, (compile_path_lem path cache v).0) refl

null-append_cons : (p q : Str) (c : ℕ) → null (p ++ c ∷ q) ≡ false
null-append_cons [] q c = refl
null-append_cons (d ∷ p) q c = refl

-- With a cache that holds for each of its paths the segments of that path, a path of two, the
-- first of which is not empty and has no wildcard, leads to what the second leads to from the
-- value of the first, and to nothing where the first has none.
get_dot_path-append :
    (fields : Fields) (p q : Str) (cache : List (Str × List PathSegment))
    → null p ≡ false
    → Plain (segments_of p)
    → IsConsistent cache
    → (get_dot_path (some fields) (p ++ b'.' ∷ q) cache).0
      ≡ along (segments_of q) (get_dot_path (some fields) p cache).0
unfolding split
get_dot_path-append fields p q cache h plain v =
    let whole : segments_of (p ++ b'.' ∷ q) ≡ segments_of p ++ segments_of q =
      ap path_segments (split_from-append b'.' [] p q)
      ∙ path_segments-append (split b'.' p) (split b'.' q) in
    get_dot_path_eq fields (p ++ b'.' ∷ q) cache (null-append_cons p q b'.') v
    ∙ ap (λ s. follow s (Value.object fields)) whole
    ∙ follow-append (segments_of p) (segments_of q) (Value.object fields) plain
    ∙ ap (along (segments_of q)) (sym (get_dot_path_eq fields p cache h v))
