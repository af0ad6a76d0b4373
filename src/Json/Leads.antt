-- ===== src/Json/Leads.antt =====
-- json.go: `GetDotPath` beside a relation between a value and the values that a path leads to.
use goserver.Common.{
  arith, List, [], ◌∷◌, ◌++◌, ◌≡◌, ◌≢◌, ◌⊎◌, ◌↔◌, ◌∙◌, some, refl, ap, false, sym, ℕ, Bool-cases,
  Option-cases, inl, inr, null, some_inj, length, All, suc, zero, true, Bool, subst,
}
use goserver.Text.{Str, str_eq}
use goserver.Text.Compare.{str_eq_iff}
use goserver.Json.{
  Value, Items, Fields, PathSegment, follow, get_dot_path, get_field, get_item, item_at, path_index,
  path_key, path_wildcard, nil_array, item, nil_object, field, object, array, text, scalar,
}
use goserver.Json.Paths.{IsConsistent, get_dot_path_eq, segments_of}
use goserver.Numbers.{Signed}

unfoldable pub values_of : Items → List Value
values_of nil_array = []
values_of (item v items) = v ∷ values_of items

unfoldable pub entries_of : Fields → List (Str × Value)
entries_of nil_object = []
entries_of (field k v fields) = (k, v) ∷ entries_of fields

-- The value stands behind so many others.
pub record IsAt (n : ℕ) (v : Value) (items : Items) : Type 0 where
  pub before : List Value
  pub after : List Value
  pub split_at : values_of items ≡ before ++ v ∷ after
  pub place : length before ≡ n

-- The first entry with the key has the value.
pub record IsFirst (key : Str) (v : Value) (fields : Fields) : Type 0 where
  pub before : List (Str × Value)
  pub after : List (Str × Value)
  pub split_at : entries_of fields ≡ before ++ (key, v) ∷ after
  pub others : All (λ (e : Str × Value). e.0 ≢ key) before

-- The values that the segments lead to; what stands behind a wildcard is not read.
pub data Leads : List PathSegment → Value → Value → Type 0 where
  arrived : (v : Value) → Leads [] v v
  all_fields :
      (fields : Fields) (segments : List PathSegment)
      → Leads (path_wildcard ∷ segments) (object fields) (object fields)
  all_items :
      (items : Items) (segments : List PathSegment)
      → Leads (path_wildcard ∷ segments) (array items) (array items)
  by_key :
      (key : Str) (fields : Fields) (segments : List PathSegment) (u w : Value)
      → IsFirst key u fields
      → Leads segments u w
      → Leads (path_key key ∷ segments) (object fields) w
  by_index :
      (index : Signed) (items : Items) (segments : List PathSegment) (u w : Value)
      → (index.negative ≡ false) ⊎ (index.magnitude ≡ 0)
      → IsAt index.magnitude u items
      → Leads segments u w
      → Leads (path_index index ∷ segments) (array items) w

get_item_sound : (n : ℕ) (items : Items) (v : Value) → get_item n items ≡ some v → IsAt n v items
unfolding get_item values_of
get_item_sound n nil_array v h = absurd (ground (arith, h))
get_item_sound zero (item u items) v h = record {
  before = [];
  after = values_of items;
  split_at = ap (λ x. x ∷ values_of items) (some_inj h);
  place = refl;
}
get_item_sound (suc n) (item u items) v h =
    let r = get_item_sound n items v h in
    record {
      before = u ∷ r.before;
      after = r.after;
      split_at = ap (λ xs. u ∷ xs) r.split_at;
      place = ap suc r.place;
    }

get_item_complete :
    (items : Items) (before after : List Value) (v : Value)
    → values_of items ≡ before ++ v ∷ after
    → get_item (length before) items ≡ some v
unfolding get_item values_of
get_item_complete nil_array [] after v e = cc
get_item_complete nil_array (x ∷ before) after v e = cc
get_item_complete (item u items) [] after v e = cc
get_item_complete (item u items) (x ∷ before) after v e = get_item_complete items before after v cc

item_at_sound :
    (negative : Bool) (n : ℕ) (items : Items) (v : Value)
    → item_at (record { negative = negative; magnitude = n }) items ≡ some v
    → ((negative ≡ false) ⊎ (n ≡ 0)) × IsAt n v items
unfolding item_at
item_at_sound false n items v h = (inl refl, get_item_sound n items v h)
item_at_sound true zero items v h = (inr refl, get_item_sound 0 items v h)
item_at_sound true (suc n) items v h = cc

item_at_complete :
    (negative : Bool) (n : ℕ) (items : Items) (v : Value)
    → (negative ≡ false) ⊎ (n ≡ 0)
    → IsAt n v items
    → item_at (record { negative = negative; magnitude = n }) items ≡ some v
unfolding item_at
item_at_complete false n items v _ k =
    ap (λ m. get_item m items) (sym k.place) ∙ get_item_complete items k.before k.after v k.split_at
item_at_complete true zero items v _ k =
    ap (λ m. get_item m items) (sym k.place) ∙ get_item_complete items k.before k.after v k.split_at
item_at_complete true (suc n) items v (inl e) k = cc
item_at_complete true (suc n) items v (inr e) k = absurd (ground (arith, e))

get_field_sound :
    (key : Str) (fields : Fields) (v : Value) → get_field key fields ≡ some v → IsFirst key v fields
unfolding get_field entries_of
get_field_sound key nil_object v h = absurd (ground (arith, h))
get_field_sound key (field k u fields) v h = elim (Bool-cases (str_eq k key)) [
  | inl same ↦ record {
    before = [];
    after = entries_of fields;
    split_at =
        ap (λ x. (k, x) ∷ entries_of fields) (some_inj (rw (get_field, same) at h))
        ∙ ap (λ x. (x, v) ∷ entries_of fields) ((str_eq_iff k key).0 same);
    others = tt;
  }
  | inr apart ↦
      let r = get_field_sound key fields v (rw (get_field, apart) at h) in
      record {
        before = (k, u) ∷ r.before;
        after = r.after;
        split_at = ap (λ xs. (k, u) ∷ xs) r.split_at;
        others = (λ e. (let t = (str_eq_iff k key).1 e in cc), r.others);
      }
]

get_field_complete :
    (key : Str) (fields : Fields) (before after : List (Str × Value)) (v : Value)
    → entries_of fields ≡ before ++ (key, v) ∷ after
    → All (λ (e : Str × Value). e.0 ≢ key) before
    → get_field key fields ≡ some v
unfolding get_field entries_of
get_field_complete key nil_object [] after v e h = cc
get_field_complete key nil_object (x ∷ before) after v e h = cc
get_field_complete key (field k u fields) [] after v e h =
    let same : k ≡ key = cc in
    let value_same : u ≡ v = cc in rw (get_field, (str_eq_iff k key).1 same, value_same) refl
get_field_complete key (field k u fields) ((k', u') ∷ before) after v e (n, h) =
    elim (Bool-cases (str_eq k key)) [
      | inl same ↦
          (let keys : k ≡ key = (str_eq_iff k key).0 same in
            let firsts : k' ≡ k = cc in absurd (n (firsts ∙ keys)))
      | inr apart ↦
          let rest : entries_of fields ≡ before ++ (key, v) ∷ after = cc in
          rw (get_field, apart) (get_field_complete key fields before after v rest h)
    ]

follow_sound :
    (segments : List PathSegment) (v w : Value) → follow segments v ≡ some w → Leads segments v w
unfolding follow
follow_sound [] v w h = subst (Leads [] v) (some_inj h) (arrived v)
follow_sound (path_wildcard ∷ segments) (object fields) w h =
    subst (Leads (path_wildcard ∷ segments) (object fields)) (some_inj h)
      (all_fields fields segments)
follow_sound (path_wildcard ∷ segments) (array items) w h =
    subst (Leads (path_wildcard ∷ segments) (array items)) (some_inj h) (all_items items segments)
follow_sound (path_wildcard ∷ segments) (text s) w h = cc
follow_sound (path_wildcard ∷ segments) (scalar s) w h = cc
follow_sound (path_index index ∷ segments) (array items) w h =
    elim (Option-cases (item_at index items)) [
      | inl e ↦ absurd (ground (arith, h, e))
      | inr (u, e) ↦
          let (low, place) = item_at_sound index.negative index.magnitude items u e in
          by_index index items segments u w low place
            (follow_sound segments u w (rw (follow, e) at h))
    ]
follow_sound (path_index index ∷ segments) (object fields) w h = cc
follow_sound (path_index index ∷ segments) (text s) w h = cc
follow_sound (path_index index ∷ segments) (scalar s) w h = cc
follow_sound (path_key key ∷ segments) (object fields) w h =
    elim (Option-cases (get_field key fields)) [
      | inl e ↦ absurd (ground (arith, h, e))
      | inr (u, e) ↦
          by_key key fields segments u w (get_field_sound key fields u e)
            (follow_sound segments u w (rw (follow, e) at h))
    ]
follow_sound (path_key key ∷ segments) (array items) w h = cc
follow_sound (path_key key ∷ segments) (text s) w h = cc
follow_sound (path_key key ∷ segments) (scalar s) w h = cc

follow_complete :
    {segments : List PathSegment} {v w : Value} → Leads segments v w → follow segments v ≡ some w
unfolding follow
follow_complete (arrived v) = refl
follow_complete (all_fields fields segments) = refl
follow_complete (all_items items segments) = refl
follow_complete (by_key key fields segments u w k l) =
    rw (follow, get_field_complete key fields k.before k.after u k.split_at k.others)
      (follow_complete l)
follow_complete (by_index index items segments u w low k l) =
    rw (follow, item_at_complete index.negative index.magnitude items u low k) (follow_complete l)

-- With a cache that holds for each of its paths the segments of that path, a path that is not
-- empty gives a value exactly when its segments lead to it: a key to the value of the first
-- field with that key, an index to the item of an array with so many items before it, a
-- wildcard to the object or the array itself, whatever segments follow.
pub get_dot_path_iff :
    (fields : Fields) (path : Str) (cache : List (Str × List PathSegment)) (w : Value)
    → null path ≡ false
    → IsConsistent cache
    → ((get_dot_path (some fields) path cache).0 ≡ some w)
      ↔ Leads (segments_of path) (object fields) w
get_dot_path_iff fields path cache w h v =
    let e = get_dot_path_eq fields path cache h v in
    (λ r. follow_sound (segments_of path) (object fields) w (sym e ∙ r), λ l. e ∙ follow_complete l)
