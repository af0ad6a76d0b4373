-- ===== src/Router/Paths.antt =====
-- router.go: the paths that `cleanPath` returns.
use mathlib.Core.List.{reverse-cons, reverse-append, reverse-reverse}
use goserver.Common.{
  arith, All, All-reverse_aux, List, [], append-nil, append_assoc, refl, reverse, sym, ◌++◌, ◌∷◌,
  ◌≡◌, ◌≢◌, inl, inr, ℕ, ◌∙◌, ◌⊎◌, ap, if_intro, subst, true, ◌==◌,
}
use goserver.Text.{Str, codes, join, split, is_slash, split_from, str_eq, trim_left, trim_right}
use goserver.Text.Compare.{str_eq_iff}
use goserver.Text.Pieces.{Free, split-Free, split-join}
use goserver.Router.{resolve, resolve_all, path_clean, clean_path, rooted, step_up}

abbrev pub IsPlain : Str → Type 0
IsPlain part = (part ≢ []) × (part ≢ codes ".") × (part ≢ codes "..")

-- A part that names an entry of a directory.
abbrev pub IsSafe : Str → Type 0
IsSafe part = IsPlain part × Free b'/' part

resolve-IsSafe :
    (stack : List Str) (part : Str)
    → All IsSafe stack
    → Free b'/' part
    → All IsSafe (resolve true stack part)
unfolding resolve step_up
resolve-IsSafe [] part h k =
    ground (arith, str_eq_iff part [], str_eq_iff part (codes "."), str_eq_iff part (codes ".."))
resolve-IsSafe (top ∷ stack) part h k =
    ground (arith, str_eq_iff part [], str_eq_iff part (codes "."), str_eq_iff part (codes ".."))

resolve_all-IsSafe :
    (stack parts : List Str)
    → All IsSafe stack
    → All (Free b'/') parts
    → All IsSafe (resolve_all true stack parts)
unfolding resolve_all
resolve_all-IsSafe stack [] h _ = All-reverse_aux IsSafe stack [] h tt
resolve_all-IsSafe stack (part ∷ parts) h (k, ks) =
    resolve_all-IsSafe (resolve true stack part) parts (resolve-IsSafe stack part h k) ks

resolve_of_IsPlain :
    (stack : List Str) (part : Str) → IsPlain part → resolve true stack part ≡ part ∷ stack
unfolding resolve step_up
resolve_of_IsPlain stack part h =
    ground (arith, str_eq_iff part [], str_eq_iff part (codes "."), str_eq_iff part (codes ".."))

resolve_all_of_IsSafe :
    (stack parts : List Str)
    → All IsSafe parts
    → resolve_all true stack parts ≡ reverse stack ++ parts
unfolding resolve_all
resolve_all_of_IsSafe stack [] _ = sym (append-nil _)
resolve_all_of_IsSafe stack (part ∷ parts) ((plain, _), h) =
    rw (resolve_of_IsPlain stack part plain, resolve_all_of_IsSafe (part ∷ stack) parts h)
      (simp (reverse-cons, append_assoc))

-- The rooted path with these parts.
unfoldable pub path_of : List Str → Str
path_of parts = b'/' ∷ join (codes "/") parts

-- A path that is the root followed by safe parts.
pub record IsClean (p : Str) : Type 0 where
  pub parts : List Str
  pub safe : All IsSafe parts
  pub shape : p ≡ path_of parts

path_clean-IsClean : (p : Str) → IsClean (path_clean (b'/' ∷ p))
unfolding path_clean path_of
path_clean-IsClean p = record {
  parts = resolve_all true [] (split b'/' (b'/' ∷ p));
  safe = resolve_all-IsSafe [] (split b'/' (b'/' ∷ p)) tt (split-Free b'/' (b'/' ∷ p));
  shape = refl;
}

-- What `cleanPath` gives to `path.Clean` begins with a slash.
rooted-IsClean : (c : ℕ) (p : Str) → IsClean (path_clean (rooted (c ∷ p)))
unfolding rooted
rooted-IsClean c p =
    if_intro (λ (x : Str). IsClean (path_clean x)) (c == b'/') _ _
      (λ slash.
        subst (λ (d : ℕ). IsClean (path_clean (d ∷ p))) (sym (ground (arith, slash)))
          (path_clean-IsClean p))
      (λ _. path_clean-IsClean (c ∷ p))

-- The text ends in a byte that is no slash.
pub record EndsClear (s : Str) : Type 0 where
  pub front : Str
  pub last : ℕ
  pub split_at : s ≡ front ++ last ∷ []
  pub clear : last ≢ b'/'

EndsClear-prepend : (p s : Str) → EndsClear s → EndsClear (p ++ s)
EndsClear-prepend p s e = record {
  front = p ++ e.front;
  last = e.last;
  split_at = rw (e.split_at, append_assoc);
  clear = e.clear;
}

EndsClear-of_Free : (c : ℕ) (s : Str) → Free b'/' (c ∷ s) → EndsClear (c ∷ s)
EndsClear-of_Free c [] (h, _) = record { front = []; last = c; split_at = refl; clear = h }
EndsClear-of_Free c (d ∷ s) (_, h) = EndsClear-prepend (c ∷ []) (d ∷ s) (EndsClear-of_Free d s h)

EndsClear-of_IsSafe : (p : Str) → IsSafe p → EndsClear p
EndsClear-of_IsSafe [] (h, _) = absurd (h.0 refl)
EndsClear-of_IsSafe (c ∷ s) (_, h) = EndsClear-of_Free c s h

pub join-EndsClear :
    (p : Str) (ps : List Str) → All IsSafe (p ∷ ps) → EndsClear (join (codes "/") (p ∷ ps))
unfolding join
join-EndsClear p [] (h, _) = EndsClear-of_IsSafe p h
join-EndsClear p (q ∷ qs) (_, h) =
    EndsClear-prepend p (b'/' ∷ join (codes "/") (q ∷ qs))
      (EndsClear-prepend (codes "/") (join (codes "/") (q ∷ qs)) (join-EndsClear q qs h))

path_of-EndsClear : (p : Str) (ps : List Str) → All IsSafe (p ∷ ps) → EndsClear (path_of (p ∷ ps))
unfolding path_of
path_of-EndsClear p ps h =
    EndsClear-prepend (codes "/") (join (codes "/") (p ∷ ps)) (join-EndsClear p ps h)

pub trim_right_of_EndsClear : (s : Str) → EndsClear s → trim_right is_slash s ≡ s
unfolding trim_right trim_left
trim_right_of_EndsClear s e =
    let kept : trim_left is_slash (reverse s) ≡ reverse s =
      rw (e.split_at, reverse-append) (ground (arith, e.clear)) in
    rw kept (reverse-reverse s)

IsClean-trim : (s : Str) → IsClean s → (s ≡ codes "/") ⊎ ((trim_right is_slash s ≡ s) × (s ≢ []))
unfolding path_of join
IsClean-trim s h = go h.parts h.safe h.shape
  where
    go :
        (ps : List Str)
        → All IsSafe ps
        → s ≡ path_of ps
        → (s ≡ codes "/") ⊎ ((trim_right is_slash s ≡ s) × (s ≢ []))
    go [] _ e = inl e
    go (p ∷ ps) k e = inr (rw e (trim_right_of_EndsClear _ (path_of-EndsClear p ps k)), λ n. cc)

-- Every text whose bytes are no slashes differs from "/".
pub slash_not-Free : (p : Str) → Free b'/' p → p ≢ codes "/"
slash_not-Free [] h = λ e. cc
slash_not-Free (c ∷ p) (h, _) = λ e. ground (arith, h)

pub path_of-ne-root : (p : Str) (ps : List Str) → All IsSafe (p ∷ ps) → path_of (p ∷ ps) ≢ codes "/"
unfolding path_of join
path_of-ne-root [] ps (h, _) = absurd (h.0.0 refl)
path_of-ne-root (c ∷ p) [] h = λ e. cc
path_of-ne-root (c ∷ p) (q ∷ qs) h = λ e. cc

pub trim_left-path_of :
    (p : Str) (ps : List Str)
    → All IsSafe (p ∷ ps)
    → trim_left is_slash (path_of (p ∷ ps)) ≡ join (codes "/") (p ∷ ps)
unfolding path_of join trim_left
trim_left-path_of [] ps (h, _) = absurd (h.0.0 refl)
trim_left-path_of (c ∷ p) [] ((_, (n, _)), _) = ground (arith, n)
trim_left-path_of (c ∷ p) (q ∷ qs) ((_, (n, _)), _) = ground (arith, n)

pub All-of_safe : (ps : List Str) → All IsSafe ps → All (Free b'/') ps
All-of_safe [] _ = tt
All-of_safe (p ∷ ps) ((_, k), h) = (k, All-of_safe ps h)

-- `cleanPath` is `path.Clean` of the rooted path: its trimming changes nothing.
pub clean_path-eq-path_clean : (c : ℕ) (p : Str) → clean_path (c ∷ p) ≡ path_clean (rooted (c ∷ p))
unfolding clean_path
clean_path-eq-path_clean c p =
    let cp = path_clean (rooted (c ∷ p)) in
    elim (IsClean-trim cp (rooted-IsClean c p)) [
      | inl e ↦ ground (arith, e, str_eq_iff cp (codes "/"))
      | inr (e, n) ↦ ground (arith, e, n, str_eq_iff cp (codes "/"), str_eq_iff cp [])
    ]

-- Whatever the input, the cleaned path is the root followed by parts that are not empty, not
-- "." and not "..", and hold no slash.
pub clean_path-IsClean : (p : Str) → IsClean (clean_path p)
unfolding clean_path path_of join
clean_path-IsClean [] = record { parts = []; safe = tt; shape = refl }
clean_path-IsClean (c ∷ p) = rw clean_path-eq-path_clean (rooted-IsClean c p)

resolve_all_path :
    (ps : List Str) → All IsSafe ps → resolve_all true [] (split b'/' (path_of ps)) ≡ ps
unfolding path_of join
resolve_all_path [] _ = unfold resolve_all resolve split split_from str_eq in refl
resolve_all_path (p ∷ ps) h =
    rw (split-join b'/' [] (p ∷ ps) (tt, All-of_safe (p ∷ ps) h))
      (unfold resolve_all resolve str_eq in resolve_all_of_IsSafe [] (p ∷ ps) h)

path_clean_of_safe : (ps : List Str) → All IsSafe ps → path_clean (path_of ps) ≡ path_of ps
unfolding path_clean
path_clean_of_safe ps h =
    unfold path_of in
    ap (λ parts. b'/' ∷ join (codes "/") parts) (unfold path_of in resolve_all_path ps h)

pub clean_path_of_safe : (ps : List Str) → All IsSafe ps → clean_path (path_of ps) ≡ path_of ps
unfolding path_of
clean_path_of_safe ps h =
    clean_path-eq-path_clean b'/' (join (codes "/") ps) ∙ (unfold rooted in path_clean_of_safe ps h)

-- A clean path is left alone.
pub clean_path_of_IsClean : (p : Str) → IsClean p → clean_path p ≡ p
clean_path_of_IsClean p h = rw h.shape (clean_path_of_safe h.parts h.safe)

-- Cleaning a path twice is cleaning it once.
clean_path_idempotent : (p : Str) → clean_path (clean_path p) ≡ clean_path p
clean_path_idempotent p = clean_path_of_IsClean (clean_path p) (clean_path-IsClean p)
