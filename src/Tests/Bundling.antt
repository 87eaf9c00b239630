-- ===== src/Tests/Bundling.antt =====
-- The theorems on bundles and deploy targets, applied.
use domux.Prelude.{[], ◌∷◌, All}
use domux.Text.{codes}
use domux.Core.Types.{CertificateBundle}
use domux.Core.Bundles.{current_certificate_bundles}
use domux.Core.Bundles.Current.{Planned, current_certificate_bundles-Planned}
use domux.Tests.{example_org, zone}

abbrev issued : CertificateBundle
issued = record {
  name = codes "example.org:apps";
  domain = example_org;
  zone = example_org;
  domains = codes "*.example.org" ∷ [];
  deploy_targets = codes "old" ∷ [];
  cert_path = codes "/certs/apps.crt";
  key_path = codes "/certs/apps.key";
  not_after = 9;
}

current_certificate_bundles-Planned_example :
    All
      (λ b. Planned (zone ∷ []) b.name b.deploy_targets)
      (current_certificate_bundles (zone ∷ []) (issued ∷ []))
current_certificate_bundles-Planned_example =
    current_certificate_bundles-Planned (zone ∷ []) (issued ∷ [])
