-- ===== src/Utils/Addresses.antt =====
-- utils.go: the address that `GetRealIP` returns.
use goserver.Common.{
  Bool, List, Option, [], ◌∷◌, ◌≡◌, ◌⊎◌, none, some, true, if_intro, refl, inl, inr, null,
  Option-cases, if◌then◌else◌, ◌==◌,
}
use goserver.Text.{Str, codes, trim, trim_space, cut_prefix}
use goserver.Http.{get}
use goserver.Utils.{forwarded_for, ip_of_forwarded_for, ip_of_real_ip, get_real_ip, split_and_trim}

module _ (is_valid_ip : Str → Bool) where
  -- What is found is an address.
  Valid : Option Str → Type 0
  Valid none = Unit {0}
  Valid (some ip) = is_valid_ip ip ≡ true

  tested-Valid : (ip : Str) → Valid (if is_valid_ip ip then some ip else none)
  unfolding Valid
  tested-Valid ip = if_intro Valid (is_valid_ip ip) _ _ (λ good. good) (λ _. tt)

  forwarded_for-Valid : (parts : List Str) → Valid (forwarded_for is_valid_ip parts)
  unfolding forwarded_for Valid
  forwarded_for-Valid [] = tt
  forwarded_for-Valid (part ∷ parts) = elim (Option-cases (cut_prefix part (codes "for="))) [
    | inl missing ↦ rw (forwarded_for, missing) (forwarded_for-Valid parts)
    | inr (found, e) ↦
        rw (forwarded_for, e)
          (if_intro Valid (is_valid_ip (trim (λ c. c == b'"') (trim_space found))) _ _
            (λ good. good) (λ _. forwarded_for-Valid parts))
  ]

  ip_of_forwarded_for-Valid :
      (headers : List (Str × Str)) → Valid (ip_of_forwarded_for is_valid_ip headers)
  unfolding ip_of_forwarded_for Valid
  ip_of_forwarded_for-Valid headers =
      first_of (split_and_trim (get (codes "X-Forwarded-For") headers) b',')
    where
      first_of :
          (ips : List Str)
          → Valid (elim ips [
            | [] ↦ none
            | first ∷ rest ↦
                if is_valid_ip (trim_space first) then some (trim_space first) else none
          ])
      first_of [] = tt
      first_of (first ∷ rest) = tested-Valid (trim_space first)

  ip_of_real_ip-Valid : (headers : List (Str × Str)) → Valid (ip_of_real_ip is_valid_ip headers)
  unfolding ip_of_real_ip Valid
  ip_of_real_ip-Valid headers =
      if_intro Valid (null (get (codes "X-Real-Ip") headers)) _ _ (λ _. tt) (λ _. tested-Valid _)

  -- The address is one that `net.ParseIP` takes, or the host of the remote address, or that address
  -- where it has no host.
  get_real_ip_sound :
      (split_host : Str → Option Str) (headers : List (Str × Str)) (remote_addr : Str)
      → (is_valid_ip (get_real_ip is_valid_ip split_host headers remote_addr) ≡ true)
        ⊎ (split_host remote_addr ≡ some (get_real_ip is_valid_ip split_host headers remote_addr))
        ⊎ ((split_host remote_addr ≡ none)
            × (get_real_ip is_valid_ip split_host headers remote_addr ≡ remote_addr))
  unfolding get_real_ip Valid
  get_real_ip_sound split_host headers remote_addr =
      chosen _ _ _ _ refl (ip_of_forwarded_for-Valid headers) (ip_of_real_ip-Valid headers)
        (forwarded_for-Valid _)
    where
      chosen :
          (a b c d : Option Str)
          → split_host remote_addr ≡ d
          → Valid a
          → Valid b
          → Valid c
          → (is_valid_ip (elim a [
            | some ip ↦ ip
            | none ↦ elim b [
              | some ip ↦ ip
              | none ↦ elim c [ some ip ↦ ip | none ↦ elim d [ none ↦ remote_addr | some ip ↦ ip ] ]
            ]
          ])
              ≡ true)
            ⊎ (split_host remote_addr
                ≡ some (elim a [
                  | some ip ↦ ip
                  | none ↦ elim b [
                    | some ip ↦ ip
                    | none ↦ elim c [
                      | some ip ↦ ip
                      | none ↦ elim d [ none ↦ remote_addr | some ip ↦ ip ]
                    ]
                  ]
                ]))
            ⊎ ((split_host remote_addr ≡ none)
                × (elim a [
                  | some ip ↦ ip
                  | none ↦ elim b [
                    | some ip ↦ ip
                    | none ↦ elim c [
                      | some ip ↦ ip
                      | none ↦ elim d [ none ↦ remote_addr | some ip ↦ ip ]
                    ]
                  ]
                ]
                    ≡ remote_addr))
      chosen (some ip) b c d e va vb vc = inl va
      chosen none (some ip) c d e va vb vc = inl vb
      chosen none none (some ip) d e va vb vc = inl vc
      chosen none none none (some ip) e va vb vc = inr (inl e)
      chosen none none none none e va vb vc = inr (inr (e, refl))
