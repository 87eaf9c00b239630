-- ===== src/Proxy/Tls.antt =====
-- internal/proxy/tls/store.go: the certificates by host name. A `*tls.Certificate` is a value of an
-- abstract type, and an absent result stands for the error errNoCertificatesLoaded.
pub mod Choice
pub mod Loading
use domux.Prelude.{Bool, true, false, Option, none, some, List, [], ◌∷◌, if◌then◌else◌, is_some, ℕ}
use domux.Prelude.Result.{Result, ok, err}
use domux.Text.{Text, ◌==◌, trim_space, trim_prefix, has_prefix, to_lower, split, join}
use domux.Mapping.{Mapping, get, put}
use domux.Core.Names.{star_dot}

pub record CertStore {ℓ} (Cert : Type ℓ) : Type ℓ where
  pub exact : Mapping Cert
  pub wildcards : Mapping Cert
  pub default_cert : Option Cert

-- NewMemoryStore
abbrev pub new_store {ℓ} : {Cert : Type ℓ} → CertStore Cert
new_store = record { exact = []; wildcards = []; default_cert = none }

-- The loop of GetCertificate over the shorter suffixes of the labels
unfoldable pub wildcard_for {ℓ} : {Cert : Type ℓ} → Mapping Cert → List Text → Option Cert
wildcard_for wildcards [] = none
wildcard_for wildcards (p ∷ []) = none
wildcard_for wildcards (p ∷ q ∷ ps) =
    let rest = wildcard_for wildcards (q ∷ ps) in
    elim (get (join b'.' (q ∷ ps)) wildcards) [ some cert ↦ some cert | none ↦ rest ]

module _ {ℓ} {Cert : Type ℓ} where
  -- What GetCertificate returns for a lower-case host name, with a default certificate.
  unfoldable pub choose : CertStore Cert → Cert → Text → Cert
  unfolding wildcard_for
  choose s fallback host = elim (get host s.exact) [
    | some cert ↦ cert
    | none ↦ elim (wildcard_for s.wildcards (split b'.' host)) [
      | some cert ↦ cert
      | none ↦ fallback
    ]
  ]

module _ {ℓ} {Cert : Type ℓ} (unicode_lower : ℕ → ℕ) where
  -- Set
  unfoldable pub set : Text → Cert → CertStore Cert → CertStore Cert
  set name cert s =
      let host = to_lower unicode_lower (trim_space name) in
      if has_prefix star_dot host
      then record s { wildcards = put (trim_prefix star_dot host) cert s.wildcards }
      else record s {
        exact = put host cert s.exact;
        default_cert = if is_some s.default_cert then s.default_cert else some cert;
      }

  -- GetCertificate; no name stands for a nil hello.
  unfoldable pub get_certificate : Option Text → CertStore Cert → Option Cert
  unfolding choose
  get_certificate hello s = elim s.default_cert [
    | none ↦ none
    | some fallback ↦ elim hello [
      | none ↦ some fallback
      | some name ↦
          if name == []
          then some fallback
          else some (choose s fallback (to_lower unicode_lower name))
    ]
  ]

  -- LoadPair, over the reader of key pairs
  unfoldable pub load_pair :
      (Text → Text → Option Cert) → Text → Text → Text → CertStore Cert → CertStore Cert × Bool
  load_pair read host cert_path key_path s = elim (read cert_path key_path) [
    | none ↦ (s, false)
    | some cert ↦ (set host cert s, true)
  ]

  -- Set for each of a list of hosts, as a start of the program does
  unfoldable pub set_all : List (Text × Cert) → CertStore Cert → CertStore Cert
  set_all [] s = s
  set_all ((host, cert) ∷ pairs) s = set_all pairs (set host cert s)

module _ {ℓ} {Cert : Type ℓ} where
  -- SetDefault
  unfoldable pub set_default : Cert → CertStore Cert → CertStore Cert
  set_default cert s = record s { default_cert = some cert }

  -- HasCertificates
  unfoldable pub has_certificates : CertStore Cert → Bool
  has_certificates s = is_some s.default_cert
