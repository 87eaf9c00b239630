-- ===== src/Core/Names.antt =====
pub mod Compact
pub mod Within
-- Names and domain names in internal/core/types.go: compactNames, DomainWithinManagedDomain
-- and QualifiedBundleName.
use domux.Prelude.{Bool, true, List, [], ◌∷◌, ◌++◌, ◌||◌, if◌then◌else◌, ◌≡◌, false, refl}
use domux.Text.{Text, codes, ◌==◌, trim_space, trim_suffix, trim_prefix, has_suffix}

-- whether a text is a key of a Go set
unfoldable pub elem : Text → List Text → Bool
elem x [] = false
elem x (y ∷ ys) = y == x || elem x ys

-- no text stands twice
abbrev pub Distinct : List Text → Type 0
Distinct [] = Unit
Distinct (x ∷ xs) = (elem x xs ≡ false) × Distinct xs

-- The loop of compactNames; what is appended to `out` is the result.
unfoldable pub compact : List Text → List Text → List Text
unfolding elem
compact seen [] = []
compact seen (value ∷ values) =
    let trimmed = trim_space value in
    let skip = compact seen values in
    let keep = trimmed ∷ compact (trimmed ∷ seen) values in
    if trimmed == [] then skip else if elem trimmed seen then skip else keep

unfoldable pub compact_names : List Text → List Text
unfolding compact
compact_names values = compact [] values

abbrev pub dot : Text
dot = codes "."

abbrev pub star_dot : Text
star_dot = codes "*."

-- DomainWithinManagedDomain, and domainBelongsToZone, which is the same
unfoldable pub domain_within_managed_domain : Text → Text → Bool
domain_within_managed_domain managed_domain domain =
    let managed = trim_suffix dot (trim_space managed_domain) in
    let name = trim_prefix star_dot (trim_suffix dot (trim_space domain)) in
    if name == managed then true else has_suffix (dot ++ managed) name

unfoldable pub qualified_bundle_name : Text → Text → Text
qualified_bundle_name zone_name bundle_name =
    let bundle = trim_space bundle_name in
    if bundle == [] || bundle == zone_name then zone_name else zone_name ++ b':' ∷ bundle
