-- ===== src/Proxy/Tls/Loading.antt =====
-- What loading certificates makes available.
use domux.Prelude.{
  ◌≡◌, ◌≢◌, refl, true, false, Option, none, some, List, [], ◌∷◌, arith, ℕ, All, ◌∙◌, is_some,
}
use domux.Text.{Text, trim_space, has_prefix, to_lower}
use domux.Text.Equality.{eq_iff, ==_refl}
use domux.Mapping.{get-put}
use domux.Core.Names.{star_dot}
use domux.Proxy.Tls.{CertStore, new_store, set, get_certificate, set_all, has_certificates}

abbrev pub normal : (ℕ → ℕ) → Text → Text
normal unicode_lower name = to_lower unicode_lower (trim_space name)

abbrev pub IsWildcard : (ℕ → ℕ) → Text → Type 0
IsWildcard unicode_lower name = has_prefix star_dot (normal unicode_lower name) ≡ true

module _ {ℓ} {Cert : Type ℓ} (unicode_lower : ℕ → ℕ) where
  -- After Set for a host that is no wildcard, a client that names the host, in whatever case,
  -- gets the certificate that was set.
  pub get_certificate-set :
      (host name : Text) (cert : Cert) (s : CertStore Cert)
      → has_prefix star_dot (normal unicode_lower host) ≡ false
      → to_lower unicode_lower name ≡ normal unicode_lower host
      → name ≢ []
      → get_certificate unicode_lower (some name) (set unicode_lower host cert s) ≡ some cert
  unfolding set get_certificate
  get_certificate-set host name cert s plain same named = ground (
    arith,
    eq_iff name [],
    get-put (normal unicode_lower host) (to_lower unicode_lower name) cert s.exact,
    ==_refl (normal unicode_lower host),
  )

  -- Set for another host leaves the choice for this one alone, once a certificate is loaded.
  pub get_certificate-set_ne :
      (host name : Text) (cert : Cert) (s : CertStore Cert)
      → has_prefix star_dot (normal unicode_lower host) ≡ false
      → to_lower unicode_lower name ≢ normal unicode_lower host
      → is_some s.default_cert ≡ true
      → get_certificate unicode_lower (some name) (set unicode_lower host cert s)
        ≡ get_certificate unicode_lower (some name) s
  unfolding set get_certificate
  get_certificate-set_ne host name cert s plain other loaded = ground (
    arith,
    eq_iff (normal unicode_lower host) (to_lower unicode_lower name),
    get-put (normal unicode_lower host) (to_lower unicode_lower name) cert s.exact,
  )

  default_cert-set_wildcard :
      (host : Text) (cert : Cert) (s : CertStore Cert)
      → IsWildcard unicode_lower host
      → (set unicode_lower host cert s).default_cert ≡ s.default_cert
  unfolding set
  default_cert-set_wildcard host cert s w = ground arith

  default_cert-set_all :
      (pairs : List (Text × Cert)) (s : CertStore Cert)
      → All (λ (p : Text × Cert). IsWildcard unicode_lower p.0) pairs
      → (set_all unicode_lower pairs s).default_cert ≡ s.default_cert
  unfolding set_all
  default_cert-set_all [] s w = refl
  default_cert-set_all ((host, cert) ∷ pairs) s w =
      default_cert-set_all pairs (set unicode_lower host cert s) w.1
      ∙ default_cert-set_wildcard host cert s w.0

  -- A store into which only wildcard certificates were loaded refuses every client: it says that it
  -- has no certificates, and GetCertificate fails also for names that the wildcards cover.
  pub only_wildcards :
      (pairs : List (Text × Cert)) (hello : Option Text)
      → All (λ (p : Text × Cert). IsWildcard unicode_lower p.0) pairs
      → (has_certificates (set_all unicode_lower pairs new_store) ≡ false)
        × (get_certificate unicode_lower hello (set_all unicode_lower pairs new_store) ≡ none)
  unfolding has_certificates get_certificate
  only_wildcards pairs hello w = ground (arith, default_cert-set_all pairs new_store w)
