-- ===== src/App/Ip/Chooses.antt =====
-- internal/app/ip.go: which settings choose a strategy.
use Prim.Native.String.{◌++◌}
use scorpion.Prelude.{
  ℕ, zero, suc, String, ◌≡◌, ◌≢◌, refl, sym, ◌⊎◌, inl, inr, Bool-cases, false, List, [], ◌∷◌, ◌==◌,
  ◌||◌, eq_iff, Result, ok, err, Result-cases, if◌then◌else◌, subst, arith,
}
use scorpion.Prelude.Int.{ℤ, pos, negsuc, leb_ℤ}
use scorpion.Config.{Ip}
use scorpion.Http.Middleware.{Strategy}
use scorpion.App.Ip.{
  IpLibs, header_name, with_network, networks, with_ranges, no_ranges, new_ip_strategy,
}

ok_inj {ℓ} : {A : Type ℓ} (a b : A) → ◌≡◌ {A = Result A} (ok a) (ok b) → a ≡ b
ok_inj a b e = cc

module _ (libs : IpLibs) where
  -- Each text is read as the network beside it.
  abbrev Parsed : List String → List libs.Network → Type 0
  Parsed [] [] = Unit
  Parsed [] (_ ∷ _) = ⊥
  Parsed (_ ∷ _) [] = ⊥
  Parsed (cidr ∷ cidrs) (n ∷ ns) = (libs.parse_cidr cidr ≡ ok n) × Parsed cidrs ns

  -- The guards of the strategy that the settings name, which trusts this header.
  abbrev Guards : Ip → Strategy → String → Type 0
  Guards cfg s header =
      ((n : ℕ) × (cfg.strategy ≡ "rightmost_trusted_count")
        × (cfg.trusted_count ≡ pos (suc n))
        × (libs.new_rightmost_trusted_count header (pos (suc n)) ≡ ok s))
      ⊎ ((cidr : String) × (cidrs : List String) × (ranges : List libs.Network) × (cfg.strategy
            ≡ "rightmost_trusted_range")
          × (cfg.trusted_ranges ≡ cidr ∷ cidrs)
          × Parsed (cidr ∷ cidrs) ranges
          × (libs.new_rightmost_trusted_range header ranges ≡ ok s))
      ⊎ (cfg.strategy ≡ "rightmost_non_private") × (libs.new_rightmost_non_private header ≡ ok s)
      ⊎ (cfg.strategy ≡ "single_ip_header") × (libs.new_single_ip_header header ≡ ok s)
      ⊎ ((cfg.strategy ≡ "remote_addr") ⊎ (cfg.strategy ≡ "")) × (s ≡ libs.remote_addr)

  -- The header of the settings, or the usual one where they name none.
  abbrev Trusted : Ip → String → Type 0
  Trusted cfg header =
      (cfg.header ≡ "") × (header ≡ "X-Forwarded-For") ⊎ (cfg.header ≢ "") × (header ≡ cfg.header)

  abbrev pub Chosen : Ip → Strategy → Type 0
  Chosen cfg s = (header : String) × Trusted cfg header × Guards cfg s header

  header_name-Trusted : (cfg : Ip) → Trusted cfg (header_name cfg)
  header_name-Trusted cfg = elim (Bool-cases (cfg.header == "")) [
    | inl unset ↦ inl ((eq_iff cfg.header "").0 unset, rw unset refl)
    | inr named ↦ inr ((λ unset. cc (named, (eq_iff cfg.header "").1 unset)), rw named refl)
  ]

  positive_count : (z : ℤ) → leb_ℤ z (pos 0) ≡ false → (n : ℕ) × (z ≡ pos (suc n))
  positive_count (pos zero) e = cc
  positive_count (pos (suc n)) e = (n, refl)
  positive_count (negsuc n) e = absurd (ground arith)

  with_network-Parsed :
      (cidr : String) (cidrs : List String) (n : libs.Network) (rest : Result (List libs.Network))
      (ns : List libs.Network)
      → libs.parse_cidr cidr ≡ ok n
      → ((ms : List libs.Network) → rest ≡ ok ms → Parsed cidrs ms)
      → with_network libs n rest ≡ ok ns
      → Parsed (cidr ∷ cidrs) ns
  unfolding with_network
  with_network-Parsed cidr cidrs n (err e) ns p ih h = cc
  with_network-Parsed cidr cidrs n (ok ms) [] p ih h = cc
  with_network-Parsed cidr cidrs n (ok ms) (m ∷ ns) p ih h =
      let same : ◌≡◌ {A = List libs.Network} (n ∷ ms) (m ∷ ns) = cc in
      subst (λ z. Parsed (cidr ∷ cidrs) z) same (p, ih ms refl)

  networks-Parsed :
      (cidrs : List String) (ns : List libs.Network) → networks libs cidrs ≡ ok ns → Parsed cidrs ns
  unfolding networks
  networks-Parsed [] [] h = tt
  networks-Parsed [] (n ∷ ns) h = cc
  networks-Parsed (cidr ∷ cidrs) ns h = elim (Result-cases (libs.parse_cidr cidr)) [
    | inr (e, bad) ↦ cc (rw (bad, networks) at h)
    | inl (n, good) ↦
        with_network-Parsed cidr cidrs n (networks libs cidrs) ns good (networks-Parsed cidrs)
          (rw (good, networks) at h)
  ]

  with_ranges-Parsed :
      (header : String) (s : Strategy) (cidrs : List String) (m : Result (List libs.Network))
      → ((ns : List libs.Network) → m ≡ ok ns → Parsed cidrs ns)
      → with_ranges libs header m ≡ ok s
      → (ns : List libs.Network) × Parsed cidrs ns
        × (libs.new_rightmost_trusted_range header ns ≡ ok s)
  unfolding with_ranges
  with_ranges-Parsed header s cidrs (err e) parsed h = cc
  with_ranges-Parsed header s cidrs (ok ns) parsed h = (ns, parsed ns refl, h)

  ranges_lem :
      (header : String) (s : Strategy) (cidrs : List String)
      → no_ranges cidrs (with_ranges libs header (networks libs cidrs)) ≡ ok s
      → (cidr : String) × (rest : List String) × (ns : List libs.Network) × (cidrs ≡ cidr ∷ rest)
        × Parsed (cidr ∷ rest) ns
        × (libs.new_rightmost_trusted_range header ns ≡ ok s)
  ranges_lem header s [] h = cc
  ranges_lem header s (cidr ∷ rest) h =
      let (ns, parsed, made) =
        with_ranges-Parsed header s (cidr ∷ rest) (networks libs (cidr ∷ rest))
          (networks-Parsed (cidr ∷ rest)) h in
      (cidr, rest, ns, refl, parsed, made)

  remote_lem :
      (cfg : Ip) (s : Strategy)
      → (if cfg.strategy == "remote_addr" || cfg.strategy == ""
          then ok libs.remote_addr
          else err ("unknown IP extraction strategy: " ++ cfg.strategy))
        ≡ ok s
      → ((cfg.strategy ≡ "remote_addr") ⊎ (cfg.strategy ≡ "")) × (s ≡ libs.remote_addr)
  remote_lem cfg s h = elim (Bool-cases (cfg.strategy == "remote_addr")) [
    | inl a ↦ (inl ((eq_iff cfg.strategy "remote_addr").0 a), sym (ok_inj _ _ (rw a at h)))
    | inr a ↦ elim (Bool-cases (cfg.strategy == "")) [
      | inl b ↦ (inr ((eq_iff cfg.strategy "").0 b), sym (ok_inj _ _ (rw (a, b) at h)))
      | inr b ↦ cc (rw (a, b) at h)
    ]
  ]

  new_ip_strategy-Guards :
      (cfg : Ip) (s : Strategy) → new_ip_strategy libs cfg ≡ ok s → Guards cfg s (header_name cfg)
  unfolding new_ip_strategy
  new_ip_strategy-Guards cfg s h = elim (Bool-cases (cfg.strategy == "rightmost_trusted_count")) [
    | inl a ↦ elim (Bool-cases (leb_ℤ cfg.trusted_count (pos 0))) [
      | inl none_trusted ↦ cc (rw (a, none_trusted) at h)
      | inr some_trusted ↦
          let (n, count) = positive_count cfg.trusted_count some_trusted in
          inl (
            n,
            (eq_iff cfg.strategy "rightmost_trusted_count").0 a,
            count,
            rw count at (rw (a, some_trusted) at h),
          )
    ]
    | inr a ↦ elim (Bool-cases (cfg.strategy == "rightmost_trusted_range")) [
      | inl b ↦
          let (cidr, rest, ns, same, parsed, made) =
            ranges_lem (header_name cfg) s cfg.trusted_ranges (rw (a, b) at h) in
          inr (
            inl (
              cidr,
              rest,
              ns,
              (eq_iff cfg.strategy "rightmost_trusted_range").0 b,
              same,
              parsed,
              made,
            ))
      | inr b ↦ elim (Bool-cases (cfg.strategy == "rightmost_non_private")) [
        | inl c ↦
            inr (inr (inl ((eq_iff cfg.strategy "rightmost_non_private").0 c, rw (a, b, c) at h)))
        | inr c ↦ elim (Bool-cases (cfg.strategy == "single_ip_header")) [
          | inl d ↦
              inr (
                inr
                  (inr (inl ((eq_iff cfg.strategy "single_ip_header").0 d, rw (a, b, c, d) at h))))
          | inr d ↦ inr (inr (inr (inr (remote_lem cfg s (rw (a, b, c, d) at h)))))
        ]
      ]
    ]
  ]

  -- An address strategy is made only from settings that pass the guards of the strategy they name: a
  -- count of trusted proxies that is positive; at least one trusted range, each of which is read as a
  -- network, in their order; and no settings with another name than the five, or none, which stands
  -- for the remote address. The first four strategies are made for the header that the settings name,
  -- and for X-Forwarded-For where they name none.
  pub new_ip_strategy-Chosen :
      (cfg : Ip) (s : Strategy) → new_ip_strategy libs cfg ≡ ok s → Chosen cfg s
  new_ip_strategy-Chosen cfg s h =
      (header_name cfg, header_name-Trusted cfg, new_ip_strategy-Guards cfg s h)
