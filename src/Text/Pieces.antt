-- ===== src/Text/Pieces.antt =====
-- Splitting at a byte and joining again.
use goserver.Common.{
  ℕ, ◌≡◌, ap, ◌∙◌, ◌≢◌, List, [], ◌∷◌, ◌++◌, arith, All, append_assoc, append-nil,
}
use goserver.Text.{Str, split_from, split, join}

-- The byte `sep` does not stand in the text.
abbrev pub Free : ℕ → Str → Type 0
Free sep s = All (λ c. c ≢ sep) s

Free-push : (sep : ℕ) (s : Str) (c : ℕ) → Free sep s → c ≢ sep → Free sep (s ++ c ∷ [])
Free-push sep [] c _ h = (h, tt)
Free-push sep (d ∷ s) c (p, q) h = (p, Free-push sep s c q h)

split_from-Free : (sep : ℕ) (cur s : Str) → Free sep cur → All (Free sep) (split_from sep cur s)
unfolding split_from
split_from-Free sep cur [] h = (h, tt)
split_from-Free sep cur (c ∷ s) h = ground (
  arith,
  split_from-Free sep [] s tt,
  split_from-Free sep (cur ++ c ∷ []) s,
  Free-push sep cur c h,
)

pub split-Free : (sep : ℕ) (s : Str) → All (Free sep) (split sep s)
unfolding split
split-Free sep s = split_from-Free sep [] s tt

split_from_of_Free : (sep : ℕ) (cur s : Str) → Free sep s → split_from sep cur s ≡ (cur ++ s) ∷ []
unfolding split_from
split_from_of_Free sep cur [] h = rw append-nil
split_from_of_Free sep cur (c ∷ s) (p, q) =
    ground (arith, split_from_of_Free sep (cur ++ c ∷ []) s q, append_assoc cur (c ∷ []) s)

split_from-append :
    (sep : ℕ) (cur p s : Str)
    → Free sep p
    → split_from sep cur (p ++ sep ∷ s) ≡ (cur ++ p) ∷ split_from sep [] s
unfolding split_from
split_from-append sep cur [] s h = ground (arith, append-nil cur)
split_from-append sep cur (c ∷ p) s (n, h) =
    ground (arith, split_from-append sep (cur ++ c ∷ []) p s h, append_assoc cur (c ∷ []) p)

-- Splitting undoes joining, for a list of pieces without the separator that is not empty.
pub split-join :
    (sep : ℕ) (p : Str) (ps : List Str)
    → All (Free sep) (p ∷ ps)
    → split sep (join (sep ∷ []) (p ∷ ps)) ≡ p ∷ ps
unfolding split join
split-join sep p [] (h, _) = split_from_of_Free sep [] p h
split-join sep p (q ∷ qs) (h, k) =
    split_from-append sep [] p (join (sep ∷ []) (q ∷ qs)) h ∙ ap (◌∷◌ p) (split-join sep q qs k)
