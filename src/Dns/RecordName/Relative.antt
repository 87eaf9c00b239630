-- ===== src/Dns/RecordName/Relative.antt =====
-- The relative names that ResolveRecordName computes.
use domux.Prelude.{
  ◌≡◌, ◌≢◌, refl, ap, Bool, true, false, [], ◌∷◌, ◌++◌, arith, length, length-append,
}
use domux.Prelude.Result.{Result, ok, err}
use domux.Text.{Text, trim_space, trim_suffix, has_prefix}
use domux.Text.Equality.{eq_iff}
use domux.Text.Affix.{has_suffix-append, trim_suffix-append, trim_prefix_none}
use domux.Core.Names.{domain_within_managed_domain, dot, star_dot}
use domux.Dns.RecordName.{
  RecordName, apex, trim_dot, relative_of, resolve_record_name, ali_dns_sub_domain,
}

-- A name as it stands after white space and one final dot are taken off.
abbrev pub IsBare : Text → Type 0
IsBare name = trim_dot (trim_space name) ≡ name

relative_of-append :
    (x suffix : Text) → x ≢ [] → trim_dot x ≡ x → relative_of suffix (x ++ suffix) ≡ x
unfolding relative_of trim_dot
relative_of-append x suffix filled bare = ground (arith, trim_suffix-append suffix x, eq_iff x [])

-- A name made of a relative part, a dot and a zone is taken apart into the relative part and the zone,
-- and the name that AliDNS is given is the full one, if the zone is not empty, neither the zone nor the
-- full name has blanks around it or a final dot, and the relative part is not empty, has no final dot
-- and is not the sign "@" of the zone itself.
pub resolve_record_name-append :
    (zone x : Text)
    → zone ≢ []
    → IsBare zone
    → IsBare (x ++ b'.' ∷ zone)
    → x ≢ []
    → trim_dot x ≡ x
    → x ≢ apex
    → (r : RecordName) × (resolve_record_name zone (x ++ b'.' ∷ zone) ≡ ok r)
      × (r.relative ≡ x)
      × (r.zone ≡ zone)
      × (ali_dns_sub_domain r ≡ x ++ b'.' ∷ zone)
unfolding resolve_record_name trim_dot ali_dns_sub_domain
resolve_record_name-append zone x zone_filled zone_bare bare filled x_bare other = (
  record { domain = zone; zone = zone; fqdn = x ++ b'.' ∷ zone; relative = x },
  resolved,
  refl,
  refl,
  ground (arith, eq_iff x apex),
)
  where
    not_zone : (x ++ b'.' ∷ zone) ≢ zone
    not_zone e = omega (arith, ap length e, length-append {0} x (b'.' ∷ zone))

    not_nil : (x ++ b'.' ∷ zone) ≢ []
    not_nil e = omega (arith, ap length e, length-append {0} x (b'.' ∷ zone))

    resolved :
        resolve_record_name zone (x ++ b'.' ∷ zone)
        ≡ ok (record { domain = zone; zone = zone; fqdn = x ++ b'.' ∷ zone; relative = x })
    resolved = ground (
      arith,
      zone_bare,
      bare,
      eq_iff zone [],
      eq_iff (x ++ b'.' ∷ zone) [],
      eq_iff (x ++ b'.' ∷ zone) zone,
      not_zone,
      not_nil,
      has_suffix-append (b'.' ∷ zone) x,
      relative_of-append x (b'.' ∷ zone) filled x_bare,
    )

abbrev pub is_ok {ℓ} : {E A : Type ℓ} → Result E A → Bool
is_ok (ok a) = true
is_ok (err e) = false

-- For names that are not empty and are no wildcards, ResolveRecordName accepts a record of a zone
-- exactly when DomainWithinManagedDomain places it there.
pub is_ok-resolve_record_name :
    (zone fqdn : Text)
    → trim_dot (trim_space zone) ≢ []
    → trim_dot (trim_space fqdn) ≢ []
    → has_prefix star_dot (trim_dot (trim_space fqdn)) ≡ false
    → is_ok (resolve_record_name zone fqdn) ≡ domain_within_managed_domain zone fqdn
unfolding resolve_record_name domain_within_managed_domain
is_ok-resolve_record_name zone fqdn named filled plain = ground (
  arith,
  eq_iff (trim_suffix dot (trim_space zone)) [],
  eq_iff (trim_suffix dot (trim_space fqdn)) [],
  trim_prefix_none star_dot (trim_suffix dot (trim_space fqdn)) plain,
)
