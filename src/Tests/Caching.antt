-- ===== src/Tests/Caching.antt =====
-- Examples of the caches and of the rate limiter, on caches that never evict.
use goserver.Common.{arith, [], false, refl, some, true, ℕ, ◌++◌, ◌∷◌, ◌≡◌, none}
use goserver.Tests.{program}
use goserver.Text.{Str, codes}
use goserver.Lru.Unbounded.{unbounded}
use goserver.Cache.{
  CacheItem, HybridCache, Fetched, save, get_or_set, get_or_set_swr, store_result, mem,
  cleanup_round, get, value,
}
use goserver.Cache.Laws.{Origin, get-expired, get_or_set-Origin, get_or_set-after_store}
use goserver.RateLimit.{RateLimiter, Clients}
use goserver.RateLimit.Windows.{passed, run, passed-run}
use goserver.RateLimit.Sharing.{IsValid, after}

abbrev hashed : Str → Str
hashed key = codes "ab/" ++ key

abbrev Pages : Type 0
Pages = HybridCache (unbounded CacheItem) true hashed

abbrev empty_pages : Pages
empty_pages = record { memory = []; disk = []; revalidating = [] }

-- One page, saved at 100 for 50.
abbrev one_page : Pages
unfolding program
one_page = save (unbounded CacheItem) true hashed (codes "k") (codes "page") 50 100 true empty_pages

get-expired_example :
    (goserver.Cache.get
      (unbounded CacheItem)
      true
      hashed
      (codes "k")
      151
      (save (unbounded CacheItem) true hashed (codes "k") (codes "page") 50 100 true empty_pages)).0
    ≡ some (codes "page")
get-expired_example =
    get-expired (unbounded CacheItem) true hashed (codes "k") (codes "page") 50 100 151 empty_pages
      (omega arith)

get_or_set-Origin_example :
    Origin
      (unbounded CacheItem)
      true
      hashed
      (codes "k")
      50
      160
      161
      162
      true
      (λ c. c)
      none
      (some (codes "new"))
      empty_pages
      (codes "new")
unfolding program
get_or_set-Origin_example =
    get_or_set-Origin (unbounded CacheItem) true hashed (codes "k") 50 160 161 162 true (λ c. c)
      none (some (codes "new")) empty_pages (codes "new") refl

get_or_set-after_store_example :
    (get_or_set
      (unbounded CacheItem)
      true
      hashed
      (λ c. c)
      none
      (codes "k")
      50
      140
      141
      142
      true
      (some (codes "other"))
      (store_result
        (unbounded CacheItem)
        true
        hashed
        (codes "k")
        50
        100
        true
        (some (codes "page"))
        empty_pages).1).0
    ≡ value (codes "page")
unfolding program
get_or_set-after_store_example =
    get_or_set-after_store (unbounded CacheItem) true hashed (codes "k") (codes "page") 50 100 140
      141 142 true true (some (codes "page")) (some (codes "other")) (λ c. c) none empty_pages refl
      (omega arith)

-- Two requests each second.
abbrev two_a_second : RateLimiter
two_a_second = record { rate = 2; window = 1000; skip_localhost = false }

passed-run_example :
    passed (run two_a_second (10 ∷ 20 ∷ 30 ∷ []) (record { window_start = 5; count = 0 })) ≡ 2
passed-run_example =
    passed-run two_a_second (10 ∷ 20 ∷ 30 ∷ []) (record { window_start = 5; count = 0 })
      ((omega arith, omega arith), ((omega arith, omega arith), ((omega arith, omega arith), tt)))

abbrev nobody : Clients (unbounded ℕ)
nobody = record { cache = []; heap = [] }

nobody-IsValid : IsValid (unbounded ℕ) nobody
unfolding program
nobody-IsValid = record { bounded = λ ip a h. cc; distinct = λ ip jp a h k. cc }

abbrev one_client : Clients (unbounded ℕ)
one_client = after (unbounded ℕ) two_a_second 10 (codes "10.0.0.1") nobody
