-- ===== src/Web/Html/Compact.antt =====
-- web_framework.go: `compactHTMLIntertagWhitespace` ends, and what it does to the bytes.
use goserver.Common.{
  arith, [], ◌∷◌, ◌++◌, ◌≡◌, ◌≤◌, ℕ, Bool, Option, some, none, true, length, if_intro, suc, zero,
  refl, sym, ap, ◌∙◌, Bool-cases, inl, inr, some_inj, ◌==◌, ==_iff, Option-cases, if◌then◌else◌,
  not, null, ◌&&◌, ◌<◌, any, append-nil, append_assoc, length-append, ◌||◌,
}
use goserver.Text.{Str, has_prefix, to_lower}
use goserver.Text.Ink.{ink, ink-append, ink_next}
use goserver.Web.Html.{
  tag_end, compact_step, compact_from, compact_html, between_tags, drop_spaces, is_break,
  starts_with, ends_with_space,
}

longer_lem :
    (c : ℕ) (s tag rest : Str) (found : Option (Str × Str))
    → ((t r : Str) → found ≡ some (t, r) → s ≡ t ++ b'>' ∷ r)
    → ◌≡◌ {A = Option (Str × Str)}
        (elim found [ none ↦ none | some (t, r) ↦ some (c ∷ t, r) ])
        (some (tag, rest))
    → c ∷ s ≡ tag ++ b'>' ∷ rest
longer_lem c s tag rest none ih h = cc
longer_lem c s tag rest (some (t, r)) ih h =
    let e = some_inj h in
    ap (λ x. c ∷ x) (ih t r refl) ∙ ap (λ (x : Str × Str). x.0 ++ b'>' ∷ x.1) e

tag_end_lem :
    (s : Str) (quote : Option ℕ) (tag rest : Str)
    → tag_end quote s ≡ some (tag, rest)
    → s ≡ tag ++ b'>' ∷ rest
unfolding tag_end
tag_end_lem [] quote tag rest h = cc
tag_end_lem (c ∷ s) (some q) tag rest h = longer_lem c s tag rest _ (λ t r. tag_end_lem s _ t r) h
tag_end_lem (c ∷ s) none tag rest h = elim (Bool-cases (c == b'>')) [
  | inl end ↦
      ap (λ x. x ∷ s) ((==_iff c b'>').0 end)
      ∙ ap (λ (x : Str × Str). x.0 ++ b'>' ∷ x.1)
          (some_inj {a = ([], s)} {b = (tag, rest)} (rw end at h))
  | inr other ↦ longer_lem c s tag rest _ (λ t r. tag_end_lem s _ t r) (rw other at h)
]

ink-drop_spaces : (s : Str) → ink (drop_spaces s) ≡ ink s
unfolding ink drop_spaces
ink-drop_spaces [] = refl
ink-drop_spaces (c ∷ s) = ground (arith, ink-drop_spaces s)

length-drop_spaces : (s : Str) → length (drop_spaces s) ≤ length s
unfolding drop_spaces
length-drop_spaces [] = omega arith
length-drop_spaces (c ∷ s) = ground (arith, length-drop_spaces s)

-- One turn of the loop: the rest is shorter, and no byte but white space is lost or added.
record IsTurn (out : Str) (text : Str) (r : Str × Str × Str) : Type 0 where
  shorter : length (r.2) < length text
  kept : ink (r.1) ++ ink (r.2) ≡ ink out ++ ink text

rest_of_tag :
    (raw rest : Str)
    → (ink (if null raw then between_tags rest else rest) ≡ ink rest)
      × (length (if null raw then between_tags rest else rest) ≤ length rest)
unfolding between_tags
rest_of_tag raw rest =
    let P : Str → Type 0 = λ x. (ink x ≡ ink rest) × (length x ≤ length rest) in
    if_intro P (null raw) _ _
      (λ _.
        if_intro P (starts_with b'<' (drop_spaces rest)) _ _
          (λ _. (ink-drop_spaces rest, length-drop_spaces rest)) (λ _. (refl, omega arith)))
      (λ _. (refl, omega arith))

taken-IsTurn : (raw out : Str) (c : ℕ) (s : Str) → IsTurn out (c ∷ s) (raw, out ++ c ∷ [], s)
taken-IsTurn raw out c s = record { shorter = omega arith; kept = ink_next out s c }

kept_all : (out text : Str) → ink (out ++ text) ++ ink [] ≡ ink out ++ ink text
unfolding ink
kept_all out text = append-nil (ink (out ++ text)) ∙ ink-append out text

kept_blank :
    (b : Bool) (out : Str) (c : ℕ) (s : Str)
    → is_break c ≡ true
    → ink (if b then out else out ++ 32 ∷ []) ++ ink s ≡ ink out ++ ink (c ∷ s)
unfolding ink
kept_blank b out c s blank =
    let lost : ink (c ∷ s) ≡ ink s = ground (arith, blank) in
    rw lost (
      ap (λ x. x ++ ink s)
        (if_intro (λ x. ink x ≡ ink out) b _ _ (λ _. refl)
          (λ _. ink-append out (32 ∷ []) ∙ append-nil (ink out))))

tag-IsTurn :
    (raw raw' out : Str) (c : ℕ) (s tag rest : Str)
    → s ≡ tag ++ b'>' ∷ rest
    → IsTurn out
        (c ∷ s)
        (raw', out ++ (c ∷ tag ++ b'>' ∷ []), if null raw' then between_tags rest else rest)
tag-IsTurn raw raw' out c s tag rest e =
    let left = rest_of_tag raw' rest in
    let whole : (c ∷ tag ++ b'>' ∷ []) ++ rest ≡ c ∷ s =
      ap (λ x. c ∷ x) (append_assoc tag (b'>' ∷ []) rest ∙ sym e) in
    record {
      shorter = omega (arith, left.1, ap length e, length-append tag (b'>' ∷ rest));
      kept =
          rw (left.0, ink-append out (c ∷ tag ++ b'>' ∷ []))
            (append_assoc (ink out) (ink (c ∷ tag ++ b'>' ∷ [])) (ink rest)
              ∙ ap (λ x. ink out ++ x)
                  (sym (ink-append (c ∷ tag ++ b'>' ∷ []) rest) ∙ ap ink whole));
    }

compact_step-IsTurn :
    (raw out : Str) (c : ℕ) (s : Str) → IsTurn out (c ∷ s) (compact_step raw out c s)
unfolding compact_step
compact_step-IsTurn raw out c s =
    let P = IsTurn out (c ∷ s) in
    if_intro P (c == b'<') _ _
      (λ opens.
        if_intro P
          (not (null raw) && not (has_prefix (to_lower (c ∷ s)) (b'<' ∷ b'/' ∷ to_lower raw))) _ _
          (λ _. taken-IsTurn raw out c s)
          (λ _. elim (Option-cases (tag_end none s)) [
            | inl open_end ↦
                rw open_end (record { shorter = omega arith; kept = kept_all out (c ∷ s) })
            | inr ((tag, rest), found) ↦
                rw found (tag-IsTurn raw _ out c s tag rest (tag_end_lem s none tag rest found))
          ]))
      (λ _.
        if_intro P (is_break c) _ _
          (λ blank. record {
            shorter = omega arith;
            kept = kept_blank (null out || ends_with_space out) out c s blank;
          })
          (λ _. taken-IsTurn raw out c s))

compact_from_lem :
    (fuel : ℕ) (raw out text : Str)
    → length text ≤ fuel
    → (r : Str) × (compact_from fuel raw out text ≡ some r) × (ink r ≡ ink out ++ ink text)
unfolding compact_from ink
compact_from_lem fuel raw out [] h = (out, refl, sym (append-nil (ink out)))
compact_from_lem zero raw out (c ∷ s) h = absurd (omega (arith, h))
compact_from_lem (suc fuel) raw out (c ∷ s) h =
    let t = compact_step-IsTurn raw out c s in
    let n = compact_step raw out c s in
    let (r, e, k) = compact_from_lem fuel n.0 n.1 n.2 (omega (arith, h, t.shorter)) in
    (r, e, k ∙ t.kept)

-- The loop ends on every document within as many turns as it has bytes, and leaves the bytes
-- of the document in their order, white space aside.
pub ink-compact_html :
    (document : Str) → (r : Str) × (compact_html document ≡ some r) × (ink r ≡ ink document)
unfolding compact_html ink
ink-compact_html document =
    if_intro (λ (x : Option Str). (r : Str) × (x ≡ some r) × (ink r ≡ ink document))
      (any is_break document) _ _
      (λ _. compact_from_lem (length document) [] [] document (omega arith))
      (λ _. (document, refl, refl))
