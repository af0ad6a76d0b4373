-- ===== src/Web/Pages/Order.antt =====
-- web_framework.go: the order of the pages that `LoadPages` makes, and `Match` on it.
use goserver.Common.{
  arith, All, Bool-cases, List, Option-cases, [], false, inl, inr, is_some, refl, some, true, ◌∷◌,
  ◌≡◌, Option, ap, none, some_inj, subst, ◌≢◌, get_elem?, suc, zero, ℕ,
}
use goserver.Text.{Str}
use goserver.Web.Pages.{
  page_less, Page, Pages, Param, insert_page, load_pages, match_items, match_pages, match_route,
  sort_pages, split_url_path, str_lt, walk_pages,
}

str_lt_asym : (s t : Str) → str_lt s t ≡ true → str_lt t s ≡ false
unfolding str_lt
str_lt_asym [] [] h = refl
str_lt_asym [] (d ∷ t) h = refl
str_lt_asym (c ∷ s) [] h = cc
str_lt_asym (c ∷ s) (d ∷ t) h = ground (arith, str_lt_asym s t)

str_lt_trans : (s t u : Str) → str_lt s t ≡ true → str_lt t u ≡ true → str_lt s u ≡ true
unfolding str_lt
str_lt_trans [] [] u h k = cc
str_lt_trans [] (d ∷ t) [] h k = cc
str_lt_trans [] (d ∷ t) (e ∷ u) h k = refl
str_lt_trans (c ∷ s) [] u h k = cc
str_lt_trans (c ∷ s) (d ∷ t) [] h k = cc
str_lt_trans (c ∷ s) (d ∷ t) (e ∷ u) h k = ground (arith, str_lt_trans s t u)

page_less_asym : (p q : Page) → page_less p q ≡ true → page_less q p ≡ false
unfolding page_less
page_less_asym p q h = ground (arith, str_lt_asym p.route q.route)

page_less_trans :
    (p q r : Page) → page_less p q ≡ true → page_less q r ≡ true → page_less p r ≡ true
unfolding page_less
page_less_trans p q r h k = ground (arith, str_lt_trans p.route q.route r.route)

-- No page of the list is less than one before it.
abbrev IsOrdered : List Page → Type 0
IsOrdered [] = Unit {0}
IsOrdered (p ∷ ps) = All (λ q. page_less q p ≡ false) ps × IsOrdered ps

abbrev NotBefore : Page → Page → Type 0
NotBefore p q = page_less q p ≡ false

not_less_before :
    (p q : Page) (qs : List Page)
    → page_less p q ≡ true
    → All (NotBefore q) qs
    → All (NotBefore p) qs
not_less_before p q [] less h = tt
not_less_before p q (r ∷ rs) less (h, hs) = (
  elim (Bool-cases (page_less r p)) [
    | inl e ↦ (let bad = page_less_trans r p q e less in cc)
    | inr e ↦ e
  ],
  not_less_before p q rs less hs,
)

All-insert_page :
    (x p : Page) (qs : List Page)
    → NotBefore x p
    → All (NotBefore x) qs
    → All (NotBefore x) (insert_page p qs)
unfolding insert_page
All-insert_page x p [] h hs = (h, tt)
All-insert_page x p (q ∷ qs) h (k, ks) = elim (Bool-cases (page_less p q)) [
  | inl e ↦ rw e (h, (k, ks))
  | inr e ↦ rw e (k, All-insert_page x p qs h ks)
]

insert_page-IsOrdered : (p : Page) (qs : List Page) → IsOrdered qs → IsOrdered (insert_page p qs)
unfolding insert_page
insert_page-IsOrdered p [] h = (tt, tt)
insert_page-IsOrdered p (q ∷ qs) (h, hs) = elim (Bool-cases (page_less p q)) [
  | inl e ↦ rw e ((page_less_asym p q e, not_less_before p q qs e h), (h, hs))
  | inr e ↦ rw e (All-insert_page q p qs e h, insert_page-IsOrdered p qs hs)
]

sort_pages-IsOrdered : (ps qs : List Page) → IsOrdered qs → IsOrdered (sort_pages ps qs)
unfolding sort_pages
sort_pages-IsOrdered [] qs h = h
sort_pages-IsOrdered (p ∷ ps) qs h =
    sort_pages-IsOrdered ps (insert_page p qs) (insert_page-IsOrdered p qs h)

-- A page that matches the parts does not come before `p`.
abbrev pub IsBest : Page → List Str → List Page → Type 0
IsBest p parts pages =
    All (λ q. is_some (match_route q.segments parts []) ≡ true → page_less q p ≡ false) pages

IsBest-of_rest :
    (p : Page) (parts : List Str) (qs : List Page) → All (NotBefore p) qs → IsBest p parts qs
IsBest-of_rest p parts [] h = tt
IsBest-of_rest p parts (q ∷ qs) (h, hs) = ((λ m. h), IsBest-of_rest p parts qs hs)

is_some-none {ℓ} : {A : Type ℓ} (o : Option A) → o ≡ none → is_some o ≢ true
is_some-none o e m = ground (arith, e, m)

page_less_irrefl : (p : Page) → page_less p p ≡ false
unfolding page_less
page_less_irrefl p = ground (arith, str_lt_asym p.route p.route)

match_items-IsBest :
    (pages : List Page) (parts : List Str) (p : Page) (params : List (Str × Param))
    → IsOrdered pages
    → match_items pages parts ≡ some (p, params)
    → IsBest p parts pages
unfolding match_items
match_items-IsBest [] parts p params o h = tt
match_items-IsBest (q ∷ qs) parts p params (first, o) h =
    elim (Option-cases (match_route q.segments parts [])) [
      | inl e ↦ (
        (λ m. absurd (is_some-none _ e m)),
        match_items-IsBest qs parts p params o (rw (match_items, e) at h),
      )
      | inr (ps, e) ↦
          let same = ap (λ r. r.0) (some_inj (rw (match_items, e) at h)) in
          subst (λ x. IsBest x parts (q ∷ qs)) same
            ((λ m. page_less_irrefl q), IsBest-of_rest q parts qs first)
    ]

sorted_items :
    (files : List (Str × Str)) (pages : Pages)
    → load_pages files ≡ some pages
    → IsOrdered pages.items
unfolding load_pages
sorted_items files pages loaded =
    elim (Option-cases
      (walk_pages files (record { items = []; not_found = none; error_page = none }))) [
        | inl e ↦ (let bad = rw (load_pages, e) at loaded in cc)
        | inr (raw, e) ↦
            let sorted = ap (λ x. x.items) (some_inj (rw (load_pages, e) at loaded)) in
            subst IsOrdered sorted (sort_pages-IsOrdered raw.items [] tt)
      ]

All-get_elem? {ℓ κ} :
    {A : Type ℓ} (P : A → Type κ) (xs : List A) (i : ℕ) (x : A)
    → All P xs
    → get_elem? xs i ≡ some x
    → P x
All-get_elem? P [] i x h e = cc
All-get_elem? P (y ∷ ys) zero x (h, hs) e = subst P (some_inj e) h
All-get_elem? P (y ∷ ys) (suc i) x (h, hs) e = All-get_elem? P ys i x hs e

-- Of the pages that were loaded and whose segments match a path, the one that is chosen has
-- none before it in the order: none has a higher score, nor the same score and a smaller
-- route.
pub match_pages_best :
    (files : List (Str × Str)) (pages : Pages) (path : Str) (p : Page) (params : List (Str × Param))
    (i : ℕ) (q : Page)
    → load_pages files ≡ some pages
    → match_pages pages path ≡ some (p, params)
    → get_elem? pages.items i ≡ some q
    → is_some (match_route q.segments (split_url_path path) []) ≡ true
    → page_less q p ≡ false
unfolding match_pages
match_pages_best files pages path p params i q loaded found listed matched =
    All-get_elem? _ pages.items i q
      (match_items-IsBest pages.items (split_url_path path) p params
        (sorted_items files pages loaded) found)
      listed matched
