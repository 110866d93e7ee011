-- ===== src/App/Ip.antt =====
-- internal/app/ip.go: `NewIPStrategy`. The library realclientip-go and `net.ParseCIDR` are a parameter.
pub mod Chooses
use Prim.Native.String.{◌++◌}
use scorpion.Prelude.{String, List, [], ◌∷◌, ◌==◌, ◌||◌, Result, ok, err, if◌then◌else◌}
use scorpion.Prelude.Int.{ℤ, pos, leb_ℤ}
use scorpion.Config.{Ip}
use scorpion.Http.Middleware.{Strategy}

pub record IpLibs : Type 1 where
  pub Network : Type 0
  pub parse_cidr : String → Result Network
  pub new_rightmost_trusted_count : String → ℤ → Result Strategy
  pub new_rightmost_trusted_range : String → List Network → Result Strategy
  pub new_rightmost_non_private : String → Result Strategy
  pub new_single_ip_header : String → Result Strategy
  pub remote_addr : Strategy

abbrev pub header_name : Ip → String
header_name cfg = if cfg.header == "" then "X-Forwarded-For" else cfg.header

abbrev pub no_ranges : List String → Result Strategy → Result Strategy
no_ranges [] s = err "trusted_ranges must not be empty for rightmost_trusted_range strategy"
no_ranges (_ ∷ _) s = s

module _ (libs : IpLibs) where
  unfoldable pub with_network :
      libs.Network → Result (List libs.Network) → Result (List libs.Network)
  with_network network (err e) = err e
  with_network network (ok networks) = ok (network ∷ networks)

  -- The loop over the ranges, which the first invalid one ends. The text of its error leaves out the
  -- range that `Errorf` quotes.
  unfoldable pub networks : List String → Result (List libs.Network)
  unfolding with_network
  networks [] = ok []
  networks (cidr ∷ cidrs) =
      let rest = networks cidrs in
      elim (libs.parse_cidr cidr) [
        | err e ↦ err ("invalid trusted range: " ++ e)
        | ok network ↦ with_network network rest
      ]

  unfoldable pub with_ranges : String → Result (List libs.Network) → Result Strategy
  with_ranges header (err e) = err e
  with_ranges header (ok ranges) = libs.new_rightmost_trusted_range header ranges

  unfoldable pub new_ip_strategy : Ip → Result Strategy
  unfolding networks with_ranges
  new_ip_strategy cfg =
      let header = header_name cfg in
      if cfg.strategy == "rightmost_trusted_count"
      then if leb_ℤ cfg.trusted_count (pos 0)
        then err "trusted_count must be > 0 for rightmost_trusted_count strategy"
        else libs.new_rightmost_trusted_count header cfg.trusted_count
      else if cfg.strategy == "rightmost_trusted_range"
      then no_ranges cfg.trusted_ranges (with_ranges header (networks cfg.trusted_ranges))
      else if cfg.strategy == "rightmost_non_private"
      then libs.new_rightmost_non_private header
      else if cfg.strategy == "single_ip_header"
      then libs.new_single_ip_header header
      else if cfg.strategy == "remote_addr" || cfg.strategy == ""
      then ok libs.remote_addr
      else err ("unknown IP extraction strategy: " ++ cfg.strategy)
