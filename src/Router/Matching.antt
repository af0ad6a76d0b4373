-- ===== src/Router/Matching.antt =====
-- router.go: a relation between segments and the parts of a path, and the two matchers.
use goserver.Common.{
  arith, Bool-cases, List, [], false, inl, inr, is_some, refl, subst, sym, true, ◌↔◌, ◌∷◌, ◌≡◌, ◌⊎◌,
  All, ap, map,
}
use goserver.Text.Pieces.{split-join}
use goserver.Router.Paths.{
  IsSafe, All-of_safe, join-EndsClear, path_of, path_of-ne-root, slash_not-Free, trim_left-path_of,
  trim_right_of_EndsClear,
}
use goserver.Text.{Str, codes, str_eq, is_slash, join, trim, has_prefix}
use goserver.Text.Compare.{str_eq_iff, str_eq_refl}
use goserver.Maps.{insert}
use goserver.Router.{
  Segment, fast_match_no_params, fast_parts, is_root, match_parts, match_segments, seg_param,
  seg_static, seg_wildcard, split_path, compile_parts, compile_pattern,
}

-- Pattern segments against the parts of a path: a wildcard takes the rest, one part at least.
pub data Matches : List Segment → List Str → Type 0 where
  done : Matches [] []
  lit :
      {s : Str} {segs : List Segment} {parts : List Str}
      → Matches segs parts
      → Matches (seg_static s ∷ segs) (s ∷ parts)
  param :
      {n p : Str} {segs : List Segment} {parts : List Str}
      → Matches segs parts
      → Matches (seg_param n ∷ segs) (p ∷ parts)
  rest :
      {n p : Str} {segs : List Segment} {parts : List Str}
      → Matches (seg_wildcard n ∷ segs) (p ∷ parts)

fast_parts_sound :
    (segs : List Segment) (parts : List Str) → fast_parts segs parts ≡ true → Matches segs parts
unfolding fast_parts
fast_parts_sound [] [] h = done
fast_parts_sound [] (p ∷ parts) h = cc
fast_parts_sound (s ∷ segs) [] h = cc
fast_parts_sound (seg_static s ∷ segs) (p ∷ parts) h = elim (Bool-cases (str_eq p s)) [
  | inl e ↦
      subst (λ q. Matches (seg_static s ∷ segs) (q ∷ parts)) (sym ((str_eq_iff p s).0 e))
        (lit (fast_parts_sound segs parts (ground arith)))
  | inr n ↦ absurd (ground arith)
]
fast_parts_sound (seg_param n ∷ segs) (p ∷ parts) h = param (fast_parts_sound segs parts h)
fast_parts_sound (seg_wildcard n ∷ segs) (p ∷ parts) h = rest

fast_parts_complete :
    {segs : List Segment} {parts : List Str} → Matches segs parts → fast_parts segs parts ≡ true
unfolding fast_parts
fast_parts_complete done = refl
fast_parts_complete (lit {s} m) = rw str_eq_refl (fast_parts_complete m)
fast_parts_complete (param m) = fast_parts_complete m
fast_parts_complete rest = refl

match_parts-fast_parts :
    (segs : List Segment) (parts : List Str) (params : List (Str × Str))
    → is_some (match_parts segs parts params) ≡ fast_parts segs parts
unfolding match_parts fast_parts
match_parts-fast_parts [] [] params = refl
match_parts-fast_parts [] (p ∷ parts) params = refl
match_parts-fast_parts (s ∷ segs) [] params = refl
match_parts-fast_parts (seg_static s ∷ segs) (p ∷ parts) params =
    ground (arith, match_parts-fast_parts segs parts params)
match_parts-fast_parts (seg_param n ∷ segs) (p ∷ parts) params =
    match_parts-fast_parts segs parts (insert n p params)
match_parts-fast_parts (seg_wildcard n ∷ segs) (p ∷ parts) params = refl

-- The matcher without parameters accepts a path exactly when the matcher that serves requests
-- does.
pub match_segments-fast_match :
    (segs : List Segment) (p : Str) → is_some (match_segments segs p) ≡ fast_match_no_params segs p
unfolding match_segments fast_match_no_params
match_segments-fast_match segs p = ground (arith, match_parts-fast_parts segs (split_path p) [])

-- What a compiled pattern accepts: the root for the root pattern, else what `Matches` says of
-- the parts.
abbrev pub Accepts : List Segment → Str → Type 0
Accepts segs p =
    ((is_root segs ≡ true) × (p ≡ codes "/"))
    ⊎ ((is_root segs ≡ false) × Matches segs (split_path p))

-- The matcher that serves a request succeeds on a path exactly when the segments accept the
-- path, where `Accepts` is defined by the relation `Matches` between segments and parts.
pub match_segments_iff :
    (segs : List Segment) (p : Str) → (is_some (match_segments segs p) ≡ true) ↔ Accepts segs p
unfolding match_segments
match_segments_iff segs p = elim (Bool-cases (is_root segs)) [
  | inl r ↦ (
    λ h. inl (r, (str_eq_iff p (codes "/")).0 (ground arith)),
    elim [ inl (_, e) ↦ ground (arith, str_eq_iff p (codes "/")) | inr (n, _) ↦ ground arith ],
  )
  | inr r ↦ (
    λ h. inr (
      r,
      fast_parts_sound segs (split_path p)
          (ground (arith, match_parts-fast_parts segs (split_path p) [])),
    ),
    elim [
      | inl (y, _) ↦ ground arith
      | inr (_, m) ↦
          ground (arith, match_parts-fast_parts segs (split_path p) [], fast_parts_complete m)
    ],
  )
]

trim-path_of :
    (p : Str) (ps : List Str)
    → All IsSafe (p ∷ ps)
    → trim is_slash (path_of (p ∷ ps)) ≡ join (codes "/") (p ∷ ps)
unfolding trim
trim-path_of p ps h =
    rw (trim_left-path_of p ps h) (trim_right_of_EndsClear _ (join-EndsClear p ps h))

-- The parts of a clean path below the root.
pub split_path_of :
    (p : Str) (ps : List Str) → All IsSafe (p ∷ ps) → split_path (path_of (p ∷ ps)) ≡ p ∷ ps
unfolding split_path
split_path_of p ps h = ground (
  arith,
  path_of-ne-root p ps h,
  str_eq_iff (path_of (p ∷ ps)) (codes "/"),
  trim-path_of p ps h,
  split-join b'/' p ps (All-of_safe (p ∷ ps) h),
)

-- A part of a pattern that stands for itself.
abbrev pub IsLiteral : Str → Type 0
IsLiteral part = (has_prefix part (codes ":") ≡ false) × (has_prefix part (codes "*") ≡ false)

compile_parts_of_literals :
    (ps : List Str) → All IsLiteral ps → compile_parts ps ≡ map seg_static ps
unfolding compile_parts
compile_parts_of_literals [] _ = refl
compile_parts_of_literals (p ∷ ps) (h, k) = ground (arith, h, compile_parts_of_literals ps k)

compile_path_of :
    (p : Str) (ps : List Str)
    → All IsSafe (p ∷ ps)
    → compile_pattern (path_of (p ∷ ps)) ≡ compile_parts (p ∷ ps)
unfolding compile_pattern
compile_path_of p ps h = ground (
  arith,
  path_of-ne-root p ps h,
  str_eq_iff (path_of (p ∷ ps)) (codes "/"),
  trim-path_of p ps h,
  split-join b'/' p ps (All-of_safe (p ∷ ps) h),
)

Matches-literals : (ps qs : List Str) → Matches (map seg_static ps) qs → ps ≡ qs
Matches-literals [] [] m = refl
Matches-literals [] (q ∷ qs) m = elim m [ ]
Matches-literals (p ∷ ps) [] m = elim m [ ]
Matches-literals (p ∷ ps) (q ∷ qs) (lit m) = ap (◌∷◌ p) (Matches-literals ps qs m)

literals-Matches : (ps : List Str) → Matches (map seg_static ps) ps
literals-Matches [] = done
literals-Matches (p ∷ ps) = lit (literals-Matches ps)

is_root_of_literals :
    (p : Str) (ps : List Str) → All IsSafe (p ∷ ps) → is_root (map seg_static (p ∷ ps)) ≡ false
unfolding is_root
is_root_of_literals p [] ((_, f), _) = ground (arith, str_eq_iff p (codes "/"), slash_not-Free p f)
is_root_of_literals p (q ∷ qs) h = refl

literal_segments :
    (p : Str) (ps : List Str) (q : Str) (qs : List Str)
    → All IsSafe (p ∷ ps)
    → All IsSafe (q ∷ qs)
    → (is_some (match_segments (map seg_static (p ∷ ps)) (path_of (q ∷ qs))) ≡ true)
      ↔ ((p ∷ ps) ≡ (q ∷ qs))
literal_segments p ps q qs hp hq =
    let root = is_root_of_literals p ps hp in
    let accepts = match_segments_iff (map seg_static (p ∷ ps)) (path_of (q ∷ qs)) in
    (
      λ h. elim (accepts.0 h) [
        | inl (y, _) ↦ absurd (ground arith)
        | inr (_, m) ↦ Matches-literals (p ∷ ps) (q ∷ qs) (rw (split_path_of q qs hq) at m)
      ],
      λ e. accepts.1 (
          inr (
            root,
            rw (split_path_of q qs hq)
                (subst (Matches (map seg_static (p ∷ ps))) e (literals-Matches (p ∷ ps))),
          )),
    )

-- A compiled pattern of literal parts, each of them a plain name without a slash, accepts,
-- among the clean paths below the root, exactly the path it was compiled from.
compile_pattern-literal :
    (p : Str) (ps : List Str) (q : Str) (qs : List Str)
    → All IsSafe (p ∷ ps)
    → All IsLiteral (p ∷ ps)
    → All IsSafe (q ∷ qs)
    → (is_some (match_segments (compile_pattern (path_of (p ∷ ps))) (path_of (q ∷ qs))) ≡ true)
      ↔ ((p ∷ ps) ≡ (q ∷ qs))
compile_pattern-literal p ps q qs hp hl hq =
    rw (compile_path_of p ps hp, compile_parts_of_literals (p ∷ ps) hl)
      (literal_segments p ps q qs hp hq)
