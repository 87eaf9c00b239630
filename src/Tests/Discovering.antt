-- ===== src/Tests/Discovering.antt =====
-- The theorems on the discovery of routes, applied.
use domux.Prelude.{◌≡◌, ◌≢◌, refl, Bool, true, false, [], ◌∷◌, ◌++◌, ◌⊎◌, All, get_or}
use domux.Prelude.Int.{pos, is_positive}
use domux.Prelude.Result.{ok}
use domux.Text.{
  Text, codes, ◌==◌, trim_space, trim_left, trim_right, is_space, trim_prefix, trim_suffix,
  cut_prefix, cut_suffix, has_prefix, has_suffix,
}
use domux.Mapping.{get}
use domux.Sort.{sort, insert, Ascending, by_key}
use domux.Core.Types.{DiscoveredRoute}
use domux.Core.Zone.Hosts.{IsPlainDomain}
use domux.Discovery.Target.{resolve_port, resolve_host, first_positive}
use domux.Discovery.Target.Port.{IsLeastPort, resolve_port_ok}
use domux.Discovery.Target.Networks.{resolve_host_found}
use domux.Discovery.Routes.{discover_routes}
use domux.Discovery.Routes.Hosts.{IsInDomain, discover_routes-IsInDomain}
use domux.Discovery.Routes.Accounted.{Accounts, discover_routes-Accounts}
use domux.Tests.{zone, env, source, container, intent}

least_port : resolve_port container intent ≡ ok (pos 8080)
unfolding resolve_port first_positive sort insert
least_port = refl

resolve_port_ok_example :
    ((is_positive intent.port ≡ true) × (pos 8080 ≡ intent.port))
    ⊎ ((is_positive intent.port ≡ false) × IsLeastPort container.exposed_ports (pos 8080))
resolve_port_ok_example = resolve_port_ok container intent (pos 8080) least_port

front_filled : trim_space (codes "172.18.0.2") ≢ []
unfolding trim_space trim_left trim_right is_space
front_filled = cc

named : codes "front" ≢ []
named = cc

resolve_host_found_example :
    (host network : Text) × (resolve_host source container intent ≡ ok (host, network))
    × (host ≡ trim_space (get_or (get network container.networks) []))
    × (host ≢ [])
unfolding get ◌==◌ trim_space trim_left trim_right is_space
resolve_host_found_example =
    resolve_host_found source container intent (codes "front") (codes "172.18.0.2") refl
      front_filled (refl, named)

zone_plain : IsPlainDomain zone.domain
unfolding trim_space trim_left trim_right is_space trim_prefix trim_suffix cut_prefix cut_suffix
    has_prefix has_suffix ◌==◌
zone_plain = record { trimmed = refl; filled = cc; no_star = refl }

abbrev no_file : Text → Bool
no_file path = false

abbrev http_url : Text → Text
http_url address = codes "http://" ++ address

discover_routes-IsInDomain_example :
    Ascending
      (by_key (λ (r : DiscoveredRoute). r.host))
      (discover_routes env no_file http_url source (zone ∷ []) (container ∷ [])).0
    × All IsInDomain (discover_routes env no_file http_url source (zone ∷ []) (container ∷ [])).0
discover_routes-IsInDomain_example =
    discover_routes-IsInDomain env no_file http_url source (zone ∷ []) (container ∷ [])
      (zone_plain, tt)

discover_routes-Accounts_example :
    Accounts
      (container ∷ [])
      (discover_routes env no_file http_url source (zone ∷ []) (container ∷ [])).0
      (discover_routes env no_file http_url source (zone ∷ []) (container ∷ [])).1
discover_routes-Accounts_example =
    discover_routes-Accounts env no_file http_url source (zone ∷ []) (container ∷ [])
