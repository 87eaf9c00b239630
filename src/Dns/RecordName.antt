-- ===== src/Dns/RecordName.antt =====
-- internal/ddns/provider/record_name.go: a record's name relative to its zone.
pub mod Relative
use domux.Prelude.{not, List, [], ◌∷◌, ◌++◌, if◌then◌else◌}
use domux.Prelude.Result.{Result, ok, err}
use domux.Text.{Text, codes, ◌==◌, trim_space, trim_suffix, has_suffix}
use domux.Core.Names.{dot}

pub record RecordName : Type 0 where
  pub domain : Text
  pub zone : Text
  pub fqdn : Text
  pub relative : Text

pub data NameError : Type 0 where
  zone_required record_name_required : NameError
  not_in_zone : Text → Text → NameError

abbrev pub apex : Text
apex = codes "@"

-- trimDot
unfoldable pub trim_dot : Text → Text
trim_dot value = trim_suffix dot value

-- the relative name before a suffix that is there
unfoldable pub relative_of : Text → Text → Text
relative_of suffix fqdn =
    let relative = trim_suffix dot (trim_suffix suffix fqdn) in
    if relative == [] then apex else relative

-- ResolveRecordName
unfoldable pub resolve_record_name : Text → Text → Result NameError RecordName
unfolding trim_dot
resolve_record_name raw_zone raw_fqdn =
    let zone = trim_dot (trim_space raw_zone) in
    let fqdn = trim_dot (trim_space raw_fqdn) in
    if zone == []
    then err zone_required
    else if fqdn == []
    then err record_name_required
    else if fqdn == zone
    then ok (record { domain = zone; zone = zone; fqdn = fqdn; relative = apex })
    else if not (has_suffix (dot ++ zone) fqdn)
    then err (not_in_zone fqdn zone)
    else ok (record {
      domain = zone;
      zone = zone;
      fqdn = fqdn;
      relative = relative_of (dot ++ zone) fqdn;
    })

-- AliDNSSubDomain
unfoldable pub ali_dns_sub_domain : RecordName → Text
ali_dns_sub_domain r = if r.relative == apex then apex ++ b'.' ∷ r.zone else r.fqdn
