-- ===== src/Ddns/Errors.antt =====
-- internal/ddns/provider/errors.go. An error is the sentinel that it wraps, if any, and its message.
use domux.Prelude.{ℕ, Bool, true, false, ◌||◌, Option, some, ◌++◌}
use domux.Text.{Text, codes, to_lower, contains}

pub data Sentinel : Type 0 where
  zone_resolution_failed zone_access_denied target_outside_managed_domain : Sentinel

pub record Error : Type 0 where
  pub wraps : Option Sentinel
  pub message : Text

abbrev colon : Text
colon = codes ": "

-- WrapZoneResolutionFailed
unfoldable pub wrap_zone_resolution_failed : Text → Error → Error
wrap_zone_resolution_failed fqdn e = record {
  wraps = some zone_resolution_failed;
  message = codes "dns zone resolution failed" ++ colon ++ fqdn ++ colon ++ e.message;
}

-- WrapZoneAccessDenied
unfoldable pub wrap_zone_access_denied : Text → Error → Error
wrap_zone_access_denied zone e = record {
  wraps = some zone_access_denied;
  message = codes "dns zone access denied" ++ colon ++ zone ++ colon ++ e.message;
}

-- WrapTargetOutsideManagedDomain
unfoldable pub wrap_target_outside_managed_domain : Text → Text → Error
wrap_target_outside_managed_domain managed_domain fqdn = record {
  wraps = some target_outside_managed_domain;
  message =
      codes "target outside managed domain"
      ++ colon
      ++ fqdn
      ++ codes " is outside "
      ++ managed_domain;
}

-- errors.Is(err, ErrDNSZoneAccessDenied)
abbrev pub wraps_access_denied : Option Sentinel → Bool
wraps_access_denied (some zone_access_denied) = true
wraps_access_denied _ = false

-- IsAccessDenied
unfoldable pub is_access_denied : (ℕ → ℕ) → Error → Bool
is_access_denied unicode_lower e =
    let message = to_lower unicode_lower e.message in
    wraps_access_denied e.wraps
    || contains (codes "access denied") message
    || contains (codes "permission denied") message
    || contains (codes "forbidden") message
    || contains (codes "unauthorized") message
