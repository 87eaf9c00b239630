-- ===== src/Discovery/Labels.antt =====
-- Labels of a container, and what they ask for: the first part of
-- internal/discovery/docker/discovery.go.
use domux.Prelude.{
  Bool, true, false, not, ◌&&◌, ◌||◌, none, some, [], ◌∷◌, ◌++◌, if◌then◌else◌, get_or, ◌≡◌, arith,
}
use domux.Prelude.Int.{ℤ, pos}
use domux.Prelude.Result.{Result, ok, err}
use domux.Text.{Text, codes, ◌==◌, trim_space, has_suffix}
use domux.Text.Equality.{eq_iff}
use domux.Text.Decimal.{atoi}
use domux.Mapping.{Mapping, get}
use domux.Core.Names.{dot}

pub record RouteIntent : Type 0 where
  pub managed : Bool
  pub domain : Text
  pub zone : Text
  pub subdomain : Text
  pub port : ℤ
  pub network : Text

pub data LabelError : Type 0 where
  conflicting : Text → Text → LabelError
  invalid_port : Text → Text → LabelError

abbrev pub default_label_prefix : Text
default_label_prefix = codes "domux."

unfoldable pub normalize_label_prefix : Text → Text
normalize_label_prefix raw =
    let prefix = trim_space raw in
    if prefix == []
    then default_label_prefix
    else if not (has_suffix dot prefix)
    then prefix ++ dot
    else prefix

-- labelKey
unfoldable pub label_key : Text → Text → Text
label_key prefix suffix = normalize_label_prefix prefix ++ suffix

-- strings.TrimSpace(labels[labelKey(prefix, suffix)]); a missing label is empty
unfoldable pub label : Mapping Text → Text → Text → Text
label labels prefix suffix = trim_space (get_or (get (label_key prefix suffix) labels) [])

abbrev pub no_intent : RouteIntent
no_intent = record {
  managed = false;
  domain = [];
  zone = [];
  subdomain = [];
  port = pos 0;
  network = [];
}

-- The port label, which is read last
with_port : Text → Text → RouteIntent → Result LabelError RouteIntent
with_port prefix raw_port intent = if raw_port == [] then ok intent else elim (atoi raw_port) [
  | none ↦ err (invalid_port (label_key prefix (codes "port")) raw_port)
  | some port ↦ ok (record intent { port = port; managed = true })
]

-- ParseLabels, behind its test for an empty map
parse_filled : Mapping Text → Text → Result LabelError RouteIntent
unfolding with_port
parse_filled labels prefix =
    let domain = label labels prefix (codes "domain") in
    let zone = label labels prefix (codes "zone") in
    let subdomain = label labels prefix (codes "subdomain") in
    let network = label labels prefix (codes "network") in
    let domain' = if domain == [] then zone else domain in
    let intent : RouteIntent = record {
      managed =
          not (domain' == []) || not (zone == []) || not (subdomain == []) || not (network == []);
      domain = domain';
      zone = zone;
      subdomain = subdomain;
      port = pos 0;
      network = network;
    } in
    if not (domain == []) && not (zone == []) && not (domain == zone)
    then err (conflicting (label_key prefix (codes "domain")) (label_key prefix (codes "zone")))
    else with_port prefix (label labels prefix (codes "port")) intent

unfoldable pub parse_labels : Mapping Text → Text → Result LabelError RouteIntent
unfolding parse_filled
parse_labels [] prefix = ok no_intent
parse_labels (l ∷ labels) prefix = parse_filled (l ∷ labels) (normalize_label_prefix prefix)

with_port_managed :
    (prefix raw : Text) (intent r : RouteIntent)
    → with_port prefix raw intent ≡ ok r
    → r.managed ≡ false
    → (r ≡ intent) × (raw ≡ [])
unfolding with_port
with_port_managed prefix raw intent r h u = ground (arith, eq_iff raw [])

-- A container that is not taken to be managed asks for nothing: each of its five labels is missing
-- or blank.
pub parse_labels_unmanaged :
    (l : Text × Text) (labels : Mapping Text) (prefix : Text) (r : RouteIntent)
    → parse_labels (l ∷ labels) prefix ≡ ok r
    → r.managed ≡ false
    → (label (l ∷ labels) (normalize_label_prefix prefix) (codes "domain") ≡ [])
      × (label (l ∷ labels) (normalize_label_prefix prefix) (codes "zone") ≡ [])
      × (label (l ∷ labels) (normalize_label_prefix prefix) (codes "subdomain") ≡ [])
      × (label (l ∷ labels) (normalize_label_prefix prefix) (codes "network") ≡ [])
      × (label (l ∷ labels) (normalize_label_prefix prefix) (codes "port") ≡ [])
unfolding parse_labels
parse_labels_unmanaged l labels prefix r h u =
    let at = λ (suffix : Text). label (l ∷ labels) (normalize_label_prefix prefix) suffix in
    ground (
      arith,
      eq_iff (at (codes "domain")) [],
      eq_iff (at (codes "zone")) [],
      eq_iff (at (codes "subdomain")) [],
      eq_iff (at (codes "network")) [],
      eq_iff (at (codes "port")) [],
    )
