-- ===== src/Proxies.antt =====
-- proxymanager.go: a pool of proxies with a list of bad ones. A proxy is its URL's text, and
-- time is in nanoseconds.
pub mod Rotation
use goserver.Common.{
  none, Bool, List, Option, [], false, get_elem?, if◌then◌else◌, length, ltb, null, some, suc, true,
  zero, ℕ, ◌%◌, ◌++◌, ◌+◌, ◌-◌, ◌∷◌,
}
use goserver.Text.{Str}
use goserver.Maps.{lookup, insert}

pub record ProxyManager : Type 0 where
  pub bad_proxies : List (Str × ℕ)
  pub proxies : List Str
  pub bad_duration : ℕ

unfoldable pub new_proxy_manager : ℕ → ProxyManager
new_proxy_manager bad_duration = record {
  bad_proxies = [];
  proxies = [];
  bad_duration = bad_duration;
}

-- the loop that forgets the proxies whose time is over
unfoldable pub forget_old : ℕ → ℕ → List (Str × ℕ) → List (Str × ℕ)
forget_old now bad_duration [] = []
forget_old now bad_duration ((p, t) ∷ bad) =
    let rest = forget_old now bad_duration bad in
    if ltb bad_duration (now - t) then rest else (p, t) ∷ rest

-- the lists of the providers that answered, in the order in which they answered, and whether
-- one of them failed
unfoldable pub collect : List (Option (List Str)) → List Str × Bool
collect [] = ([], false)
collect (none ∷ answers) = let (all_proxies, failed) = collect answers in (all_proxies, true)
collect (some list ∷ answers) =
    let (all_proxies, failed) = collect answers in (list ++ all_proxies, failed)

-- `UpdateSynchronously`: the new state, and whether an error is returned
unfoldable pub update_synchronously :
    List (Option (List Str)) → ℕ → ProxyManager → ProxyManager × Bool
update_synchronously answers now m =
    let (all_proxies, failed) = collect answers in
    (
      record m { proxies = all_proxies; bad_proxies = forget_old now m.bad_duration m.bad_proxies },
      failed,
    )

-- `MarkBad`; `none` is a nil URL
unfoldable pub mark_bad : Option Str → ℕ → ProxyManager → ProxyManager
mark_bad none now m = m
mark_bad (some u) now m = record m { bad_proxies = insert u now m.bad_proxies }

-- `!isBad || now.Sub(bannedTime) > m.badDuration`
unfoldable pub is_usable : ProxyManager → ℕ → Str → Bool
is_usable m now p = elim (lookup p m.bad_proxies) [
  | none ↦ true
  | some banned ↦ ltb m.bad_duration (now - banned)
]

-- the loop, with `rounds` left and `i` done
unfoldable pub pick : ProxyManager → ℕ → ℕ → ℕ → ℕ → Option Str
pick m now start zero i = none
pick m now start (suc rounds) i =
    let rest = pick m now start rounds (i + 1) in
    elim (get_elem? m.proxies ((start + i) % length m.proxies)) [
      | none ↦ none
      | some p ↦ if is_usable m now p then some p else rest
    ]

-- `GetRandomProxy`, for the number that `rand.Intn(total)` gave
unfoldable pub get_random_proxy : ℕ → ℕ → ProxyManager → Option Str
get_random_proxy start now m =
    if null m.proxies then none else pick m now start (length m.proxies) 0
