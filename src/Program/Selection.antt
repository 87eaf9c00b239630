-- ===== src/Program/Selection.antt =====
-- What a request or a run of a job selects, in cmd/domux/main.go.
use domux.Prelude.{
  not, ◌&&◌, ◌||◌, Option, none, some, List, [], ◌∷◌, ◌++◌, if◌then◌else◌, is_empty,
}
use domux.Prelude.Result.{Result, ok, err}
use domux.Text.{Text, ◌==◌, trim_space}
use domux.Sort.{sort, by_key}
use domux.Core.Types.{ManagedZone, CertificateBundle, DeployTarget}
use domux.Certs.Requests.{IssueRequest, RequestError, build_requests}

pub data SelectError : Type 0 where
  zone_not_found bundle_not_found target_not_found no_bundles : Text → SelectError
  bad_requests : List RequestError → SelectError

-- the loop of selectedZones
unfoldable pub zone_named : Text → List ManagedZone → Option ManagedZone
zone_named domain [] = none
zone_named domain (z ∷ zones) =
    if z.name == domain || z.domain == domain then some z else zone_named domain zones

unfoldable pub selected_zones : List ManagedZone → Text → Result SelectError (List ManagedZone)
unfolding zone_named
selected_zones zones raw =
    let domain = trim_space raw in
    if domain == [] then ok zones else elim (zone_named domain zones) [
      | some z ↦ ok (z ∷ [])
      | none ↦ err (zone_not_found domain)
    ]

-- the loop of buildCertificateRequests
unfoldable pub zone_requests : List ManagedZone → List IssueRequest × List RequestError
zone_requests [] = ([], [])
zone_requests (z ∷ zones) =
    let (requests, errs) = zone_requests zones in
    if z.certificate.enabled
    then elim (build_requests z) [
      | err e ↦ (requests, e ∷ errs)
      | ok more ↦ (more ++ requests, errs)
    ]
    else (requests, errs)

unfoldable pub build_certificate_requests : List ManagedZone → List IssueRequest × List RequestError
unfolding zone_requests
build_certificate_requests zones =
    let (requests, errs) = zone_requests zones in
    (sort (by_key (λ r. r.bundle_name)) requests, errs)

unfoldable pub requests_named : Text → List IssueRequest → List IssueRequest
requests_named name [] = []
requests_named name (r ∷ rs) =
    let rest = requests_named name rs in if r.bundle_name == name then r ∷ rest else rest

unfoldable pub selected_certificate_requests :
    List ManagedZone → Text → Text → Result SelectError (List IssueRequest)
unfolding requests_named
selected_certificate_requests zones domain raw_name = elim (selected_zones zones domain) [
  | err e ↦ err e
  | ok chosen ↦
      let (requests, errs) = build_certificate_requests chosen in
      let name = trim_space raw_name in
      let filtered = requests_named name requests in
      if not (is_empty errs)
      then err (bad_requests errs)
      else if name == []
      then ok requests
      else if is_empty filtered
      then err (bundle_not_found name)
      else ok filtered
]

-- the loop of selectedStoredBundles
unfoldable pub bundles_of : Text → Text → List CertificateBundle → List CertificateBundle
bundles_of domain name [] = []
bundles_of domain name (b ∷ bs) =
    let rest = bundles_of domain name bs in
    if not (domain == []) && not (b.zone == domain)
    then rest
    else if not (name == []) && not (b.name == name)
    then rest
    else b ∷ rest

unfoldable pub selected_stored_bundles :
    List CertificateBundle → Text → Text → Result SelectError (List CertificateBundle)
unfolding bundles_of
selected_stored_bundles bundles raw_domain raw_name =
    let domain = trim_space raw_domain in
    let name = trim_space raw_name in
    let filtered = bundles_of domain name bundles in
    if not (name == []) && is_empty filtered
    then err (bundle_not_found name)
    else if not (domain == []) && name == [] && is_empty filtered
    then err (no_bundles domain)
    else ok filtered

unfoldable pub target_named : Text → List DeployTarget → Option DeployTarget
target_named name [] = none
target_named name (t ∷ ts) = if t.name == name then some t else target_named name ts

-- selectedDeployTarget; none for an empty name, where the source returns the zero target
unfoldable pub selected_deploy_target :
    List DeployTarget → Text → Result SelectError (Option DeployTarget)
unfolding target_named
selected_deploy_target targets raw =
    let name = trim_space raw in
    if name == [] then ok none else elim (target_named name targets) [
      | some t ↦ ok (some t)
      | none ↦ err (target_not_found name)
    ]

unfoldable pub names_equal : Text → List Text → List Text
names_equal name [] = []
names_equal name (t ∷ ts) = let rest = names_equal name ts in if t == name then t ∷ rest else rest

unfoldable pub filter_deploy_targets : List Text → Text → List Text
unfolding names_equal
filter_deploy_targets targets raw =
    let name = trim_space raw in if name == [] then targets else names_equal name targets
