-- ===== src/RateLimit/Sharing.antt =====
-- ratelimit.go: the records of the clients on the heap, and the middleware on them.
use goserver.Common.{
  arith, Option, [], get_elem?, get_or, length, length-set, none, set, some, sym, true, ℕ, ◌++◌,
  ◌<◌, ◌∙◌, ◌∷◌, ◌≡◌, Bool-cases, Option-cases, false, inl, inr, length-append, subst, ◌⊎◌, ap,
  get_elem?-append, get_elem?-append_last, get_elem?-get_or, get_elem?-set_ne, get_elem?-set_self,
  ◌≢◌, ◌&&◌, some_inj,
}
use goserver.Text.Compare.{str_eq_iff}
use goserver.Text.{Str, str_eq}
use goserver.Lru.{Lru}
use goserver.Http.{Handler, Renderer, Request, Writer}
use goserver.RateLimit.{
  RateLimiter, ClientData, Clients, count_request, find_client, missing, answer, is_localhost,
  with_rate_limiter,
}

module _ (L : Lru ℕ) where
  -- Cached addresses lie in the heap, and two clients have two addresses.
  pub record IsValid (s : Clients L) : Type 0 where
    pub bounded : (ip : Str) (a : ℕ) → L.peek ip s.cache ≡ some a → a < length s.heap
    pub distinct :
        (ip jp : Str) (a : ℕ)
        → L.peek ip s.cache ≡ some a
        → L.peek jp s.cache ≡ some a
        → str_eq ip jp ≡ true

  -- The record of a client, if it is cached.
  abbrev pub record_of : Str → Clients L → Option ClientData
  record_of ip s = elim (L.peek ip s.cache) [ none ↦ none | some a ↦ get_elem? s.heap a ]

  find_client_hit :
      (ip : Str) (now a : ℕ) (s : Clients L)
      → L.peek ip s.cache ≡ some a
      → find_client L ip now s ≡ (a, record s { cache = L.touch ip s.cache })
  unfolding find_client
  find_client_hit ip now a s e = rw (e, find_client)

  find_client_miss :
      (ip : Str) (now : ℕ) (s : Clients L)
      → L.peek ip s.cache ≡ none
      → find_client L ip now s ≡ (
        length s.heap,
        record {
          cache = L.add ip (length s.heap) s.cache;
          heap = s.heap ++ record { window_start = now; count = 0 } ∷ [];
        },
      )
  unfolding find_client
  find_client_miss ip now s e = rw (e, find_client)

  -- what a request leaves of the heap and the cache
  abbrev pub after : RateLimiter → ℕ → Str → Clients L → Clients L
  after rl now ip s =
      let (a, found) = find_client L ip now s in
      record found {
        heap = set found.heap a (count_request rl now (get_or found.heap a (missing L)));
      }

  after_hit-IsValid :
      (rl : RateLimiter) (now a : ℕ) (ip : Str) (s : Clients L)
      → IsValid s
      → L.peek ip s.cache ≡ some a
      → IsValid (after rl now ip s)
  after_hit-IsValid rl now a ip s v e = rw (find_client_hit ip now a s e) (record {
    bounded = λ jp b h.
        rw (length-set s.heap a (count_request rl now (get_or s.heap a (missing L))))
          (v.bounded jp b (sym (L.peek-touch ip jp s.cache) ∙ h));
    distinct = λ jp kp b h k.
        v.distinct jp kp b (sym (L.peek-touch ip jp s.cache) ∙ h)
          (sym (L.peek-touch ip kp s.cache) ∙ k);
  })

  added_cases :
      (ip jp : Str) (n b : ℕ) (c : L.State)
      → L.peek jp (L.add ip n c) ≡ some b
      → ((str_eq ip jp ≡ true) × (b ≡ n)) ⊎ ((str_eq ip jp ≡ false) × (L.peek jp c ≡ some b))
  added_cases ip jp n b c h = elim (Bool-cases (str_eq ip jp)) [
    | inl same ↦
        let e : jp ≡ ip = sym ((str_eq_iff ip jp).0 same) in
        let h' : L.peek ip (L.add ip n c) ≡ some b =
          subst (λ k. L.peek k (L.add ip n c) ≡ some b) e h in
        inl (same, ground (arith, L.peek-add_self ip n c))
    | inr other ↦ elim (L.peek-add_ne ip jp n c other) [
      | inl kept ↦ inr (other, ground arith)
      | inr lost ↦ absurd (ground arith)
    ]
  ]

  after_miss-IsValid :
      (rl : RateLimiter) (now : ℕ) (ip : Str) (s : Clients L)
      → IsValid s
      → L.peek ip s.cache ≡ none
      → IsValid (after rl now ip s)
  after_miss-IsValid rl now ip s v e = rw (find_client_miss ip now s e) (record {
    bounded = λ jp b h.
        let grown = s.heap ++ record { window_start = now; count = 0 } ∷ [] in
        rw
          (length-set grown (length s.heap)
            (count_request rl now (get_or grown (length s.heap) (missing L))))
          (rw (length-append s.heap (record { window_start = now; count = 0 } ∷ []))
            (elim (added_cases ip jp (length s.heap) b s.cache h) [
              | inl (_, n) ↦ omega arith
              | inr (_, old) ↦ omega (arith, v.bounded jp b old)
            ]));
    distinct = λ jp kp b h k. elim (added_cases ip jp (length s.heap) b s.cache h) [
      | inl (j, n) ↦ elim (added_cases ip kp (length s.heap) b s.cache k) [
        | inl (i, _) ↦ ground (arith, str_eq_iff ip jp, str_eq_iff ip kp, str_eq_iff jp kp)
        | inr (_, old) ↦ absurd (omega (arith, v.bounded kp b old))
      ]
      | inr (_, old) ↦ elim (added_cases ip kp (length s.heap) b s.cache k) [
        | inl (_, n) ↦ absurd (omega (arith, v.bounded jp b old))
        | inr (_, old') ↦ v.distinct jp kp b old old'
      ]
    ];
  })

  -- Every request keeps the clients apart.
  pub after-IsValid :
      (rl : RateLimiter) (now : ℕ) (ip : Str) (s : Clients L)
      → IsValid s
      → IsValid (after rl now ip s)
  after-IsValid rl now ip s v = elim (Option-cases (L.peek ip s.cache)) [
    | inl e ↦ after_miss-IsValid rl now ip s v e
    | inr (a, e) ↦ after_hit-IsValid rl now a ip s v e
  ]

  -- After a request, in a state that keeps the clients apart, the client's record is its
  -- earlier record with the request counted, or a new window with it at a first request.
  record_of-after_self :
      (rl : RateLimiter) (now : ℕ) (ip : Str) (s : Clients L)
      → IsValid s
      → record_of ip (after rl now ip s)
        ≡ some (
            count_request rl now (elim (record_of ip s) [
              | none ↦ record { window_start = now; count = 0 }
              | some c ↦ c
            ]))
  record_of-after_self rl now ip s v = elim (Option-cases (L.peek ip s.cache)) [
    | inl e ↦
        let first : ClientData = record { window_start = now; count = 0 } in
        let grown = s.heap ++ first ∷ [] in
        let n = length s.heap in
        rw (find_client_miss ip now s e) (
          ground (
            arith,
            e,
            L.peek-add_self ip n s.cache,
            get_elem?-set_self grown n (count_request rl now (get_or grown n (missing L))),
            length-append s.heap (first ∷ []),
            get_elem?-append_last s.heap first,
            get_elem?-get_or grown n (missing L),
          ))
    | inr (a, e) ↦ rw (find_client_hit ip now a s e) (
        ground (
          arith,
          e,
          L.peek-touch ip ip s.cache,
          v.bounded ip a e,
          get_elem?-set_self s.heap a (count_request rl now (get_or s.heap a (missing L))),
          get_elem?-get_or s.heap a (missing L),
        ))
  ]

  -- A request, in a state that keeps the clients apart, leaves the record of any other client
  -- as it was, unless the cache evicts that client.
  record_of-after_ne :
      (rl : RateLimiter) (now : ℕ) (ip jp : Str) (s : Clients L)
      → IsValid s
      → str_eq ip jp ≡ false
      → (record_of jp (after rl now ip s) ≡ record_of jp s)
        ⊎ (L.peek jp (after rl now ip s).cache ≡ none)
  record_of-after_ne rl now ip jp s v other = elim (Option-cases (L.peek ip s.cache)) [
    | inl e ↦
        rw (find_client_miss ip now s e) (elim (L.peek-add_ne ip jp (length s.heap) s.cache other) [
          | inr lost ↦ inr (rw (find_client_miss ip now s e, after) lost)
          | inl kept ↦ elim (Option-cases (L.peek jp s.cache)) [
            | inl f ↦ inr (rw (find_client_miss ip now s e, after) (kept ∙ f))
            | inr (b, f) ↦
                let first : ClientData = record { window_start = now; count = 0 } in
                let grown = s.heap ++ first ∷ [] in
                let n = length s.heap in
                let small = v.bounded jp b f in
                inl (
                  ground (
                    arith,
                    kept,
                    f,
                    small,
                    get_elem?-append s.heap (first ∷ []) b,
                    get_elem?-set_ne grown n b (count_request rl now (get_or grown n (missing L)))
                        (omega arith),
                  ))
          ]
        ])
    | inr (a, e) ↦ rw (find_client_hit ip now a s e) (elim (Option-cases (L.peek jp s.cache)) [
      | inl f ↦ inr (rw (find_client_hit ip now a s e, after) (L.peek-touch ip jp s.cache ∙ f))
      | inr (b, f) ↦
          let apart : a ≢ b =
            λ same. ground (arith, other, v.distinct ip jp a e (f ∙ ap some (sym same))) in
          inl (
            ground (
              arith,
              f,
              L.peek-touch ip jp s.cache,
              get_elem?-set_ne s.heap a b (count_request rl now (get_or s.heap a (missing L)))
                  apart,
            ))
    ])
  ]

  found_record :
      (now : ℕ) (ip : Str) (s : Clients L)
      → IsValid s
      → get_or (find_client L ip now s).1.heap (find_client L ip now s).0 (missing L)
        ≡ (elim (record_of ip s) [ none ↦ record { window_start = now; count = 0 } | some c ↦ c ])
  found_record now ip s v = elim (Option-cases (L.peek ip s.cache)) [
    | inl e ↦
        let first : ClientData = record { window_start = now; count = 0 } in
        rw (find_client_miss ip now s e) (
          ground (
            arith,
            e,
            get_elem?-append_last s.heap first,
            length-append s.heap (first ∷ []),
            get_elem?-get_or (s.heap ++ first ∷ []) (length s.heap) (missing L),
          ))
    | inr (a, e) ↦
        rw (find_client_hit ip now a s e)
          (ground (arith, e, v.bounded ip a e, get_elem?-get_or s.heap a (missing L)))
  ]

  -- A request that the limiter does not skip is answered by its client's updated record.
  pub with_rate_limiter_lem :
      (rl : RateLimiter) (rd : Renderer) (now : ℕ) (ip : Str) (next : Handler) (r : Request)
      (w : Writer) (s : Clients L) (c : ClientData)
      → (rl.skip_localhost && is_localhost ip) ≡ false
      → IsValid s
      → record_of ip (after rl now ip s) ≡ some c
      → with_rate_limiter L rl rd now ip next r w s
        ≡ (answer rl rd now c next r w, after rl now ip s)
  unfolding with_rate_limiter
  with_rate_limiter_lem rl rd now ip next r w s c counted v e = rw counted (
      ap (λ d. (answer rl rd now d next r w, after rl now ip s))
        (ap (count_request rl now) (found_record now ip s v)
          ∙ some_inj (sym (record_of-after_self rl now ip s v) ∙ e)))
