-- ===== src/Lru.antt =====
-- The LRU cache of github.com/hashicorp/golang-lru, which is not part of the repository: its
-- operations, and the documented behaviour on which cache.go, session.go and ratelimit.go rely.
-- A bounded cache may evict any other entry when one is added.
pub mod Unbounded
use goserver.Common.{refl, List, Option, false, if◌then◌else◌, is_some, none, some, true, ◌≡◌, ◌⊎◌}
use goserver.Text.{Str, member, str_eq}

pub record Lru (V : Type 0) : Type 1 where
  pub State : Type 0
  pub peek : Str → State → Option V
  pub touch : Str → State → State
  pub add : Str → V → State → State
  pub remove : Str → State → State
  pub keys : State → List Str
  -- `Get` returns what `Peek` returns and changes the order only.
  pub peek-touch : (k j : Str) (s : State) → peek j (touch k s) ≡ peek j s
  pub peek-add_self : (k : Str) (v : V) (s : State) → peek k (add k v s) ≡ some v
  pub peek-add_ne :
      (k j : Str) (v : V) (s : State)
      → str_eq k j ≡ false
      → (peek j (add k v s) ≡ peek j s) ⊎ (peek j (add k v s) ≡ none)
  pub peek-remove :
      (k j : Str) (s : State) → peek j (remove k s) ≡ (if str_eq k j then none else peek j s)
  pub keys_complete : (k : Str) (s : State) → is_some (peek k s) ≡ true → member k (keys s) ≡ true
