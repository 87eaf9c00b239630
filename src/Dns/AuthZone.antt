-- ===== src/Dns/AuthZone.antt =====
-- internal/dns/authzone/resolver.go. The lookup of NS records is a parameter: it says for a name
-- whether it returned a non-empty list and no error.
pub mod Longest
use domux.Prelude.{Bool, Option, none, some, List, [], ◌∷◌, if◌then◌else◌}
use domux.Prelude.Result.{Result, ok, err}
use domux.Text.{Text, ◌==◌, trim_space, trim_suffix, trim_prefix, split, join}
use domux.Core.Names.{dot, star_dot}

-- normalizeDNSName
unfoldable pub normalize_dns_name : Text → Text
normalize_dns_name value = trim_prefix star_dot (trim_suffix dot (trim_space value))

-- The loop of candidateZones, over the labels that are left.
unfoldable pub candidates : List Text → List Text
candidates [] = []
candidates (label ∷ labels) =
    let candidate = join b'.' (label ∷ labels) in
    let rest = candidates labels in if candidate == [] then rest else candidate ∷ rest

unfoldable pub candidate_zones : Text → List Text
unfolding candidates
candidate_zones fqdn = candidates (split b'.' fqdn)

pub data ResolveError : Type 0 where
  fqdn_required : ResolveError
  no_zone : Text → ResolveError

module _ (has_ns : Text → Bool) where
  -- The loop of ResolveAuthZone
  unfoldable pub first_zone : List Text → Option Text
  first_zone [] = none
  first_zone (candidate ∷ rest) = if has_ns candidate then some candidate else first_zone rest

  unfoldable pub resolve_auth_zone : Text → Result ResolveError Text
  unfolding first_zone candidate_zones
  resolve_auth_zone name =
      let fqdn = normalize_dns_name name in
      if fqdn == [] then err fqdn_required else elim (first_zone (candidate_zones fqdn)) [
        | some zone ↦ ok zone
        | none ↦ err (no_zone fqdn)
      ]
