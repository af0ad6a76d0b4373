-- ===== src/Web/States.antt =====
-- web_framework.go: `runtimeStateStore`, the tokens of page states. Random tokens, the copy of the
-- properties through JSON and the clock, in nanoseconds, are arguments.
pub mod Room
use goserver.Common.{
  arith, Bool, List, Option, [], false, if◌then◌else◌, is_some, leb, length, ltb, none, some, suc,
  true, zero, ℕ, ◌*◌, ◌++◌, ◌+◌, ◌||◌, ◌∷◌,
}
use goserver.Text.{Str, str_eq}
use goserver.Maps.{lookup, insert, delete}

abbrev pub runtime_state_ttl : ℕ
runtime_state_ttl = 30 * 60 * 1000000000

abbrev pub runtime_state_limit : ℕ
runtime_state_limit = 4096

abbrev pub runtime_state_prune : ℕ
runtime_state_prune = 60 * 1000000000

pub record StateEntry (Props : Type 0) : Type 0 where
  pub owner : Str
  pub props : Props
  pub expires : ℕ

-- `next_prune` is `none` while it is the zero time.
pub record StateStore (Props : Type 0) : Type 0 where
  pub entries : List (Str × StateEntry Props)
  pub order : List Str
  pub next_prune : Option ℕ

module _ {Props : Type 0} where
  unfoldable pub new_runtime_state_store : StateStore Props
  new_runtime_state_store = record { entries = []; order = []; next_prune = none }

  -- the loops of `discardOldestLocked` and `pruneExpiredLocked`, over `order`
  unfoldable pub discard_from :
      List Str → List (Str × StateEntry Props) → Bool × List Str × List (Str × StateEntry Props)
  discard_from [] entries = (false, [], entries)
  discard_from (token ∷ order) entries =
      let rest = discard_from order entries in
      if is_some (lookup token entries) then (true, order, delete token entries) else rest

  unfoldable pub discard_oldest : StateStore Props → Bool × StateStore Props
  discard_oldest s =
      let (found, order, entries) = discard_from s.order s.entries in
      (found, record s { entries = entries; order = order })

  unfoldable pub prune_from :
      ℕ → List Str → List (Str × StateEntry Props) → List Str × List (Str × StateEntry Props)
  prune_from now [] entries = ([], entries)
  prune_from now (token ∷ order) entries =
      let kept = prune_from now order entries in
      let removed = prune_from now order (delete token entries) in
      elim (lookup token entries) [
        | none ↦ kept
        | some entry ↦ if ltb now entry.expires then (token ∷ order, entries) else removed
      ]

  unfoldable pub prune_expired : ℕ → StateStore Props → StateStore Props
  prune_expired now s =
      let (order, entries) = prune_from now s.order s.entries in
      record { entries = entries; order = order; next_prune = some (now + runtime_state_prune) }

  -- `s.nextPrune.IsZero() || !now.Before(s.nextPrune)`
  unfoldable pub is_prune_due : ℕ → StateStore Props → Bool
  is_prune_due now s = elim s.next_prune [ none ↦ true | some at ↦ leb at now ]

  -- the loop before the insertion, with fuel
  unfoldable pub make_room : ℕ → StateStore Props → StateStore Props
  make_room zero s = s
  make_room (suc fuel) s =
      let (found, s') = discard_oldest s in
      let rest = make_room fuel s' in
      if leb runtime_state_limit (length s.entries) then (if found then rest else s') else s

  -- `put`, for the token that was made; `trusted` keeps the properties as they are
  unfoldable pub put :
      (Props → Props) → Str → Str → Props → Bool → ℕ → StateStore Props → StateStore Props
  put clone token owner props trusted now s =
      let kept = if trusted then props else clone props in
      let pruned = if is_prune_due now s then prune_expired now s else s in
      let roomy = make_room (length pruned.order) pruned in
      record roomy {
        entries =
            insert token (record { owner = owner; props = kept; expires = now + runtime_state_ttl })
              roomy.entries;
        order = roomy.order ++ token ∷ [];
      }

  -- `Get`: an expired entry is removed
  unfoldable pub get :
      (Props → Props) → Str → Str → ℕ → StateStore Props → Option Props × StateStore Props
  get clone owner token now s =
      if str_eq token [] || ltb 128 (length token)
      then (none, s)
      else elim (lookup token s.entries) [
        | none ↦ (none, s)
        | some entry ↦
            if ltb now entry.expires
            then (if str_eq entry.owner owner then some (clone entry.props) else none, s)
            else (none, record s { entries = delete token s.entries })
      ]
