-- ===== src/Dns/AuthZone/Longest.antt =====
-- The zone that ResolveAuthZone chooses.
use domux.Prelude.{
  ◌≡◌, ◌≢◌, refl, sym, ap, Bool, true, false, none, some, List, [], ◌∷◌, ◌++◌, arith, length, ◌<◌,
  Bool-cases, inl, inr, subst,
}
use domux.Prelude.Result.{ok, err}
use domux.Text.{Text, ◌==◌, split, join}
use domux.Text.Equality.{eq_iff, ne_of_==}
use domux.Dns.AuthZone.{normalize_dns_name, candidates, first_zone, resolve_auth_zone, no_zone}

module _ (has_ns : Text → Bool) where
  -- The zone is an ending of the labels, it has NS records, and no longer ending has any.
  pub record IsAuthZone (labels : List Text) (zone : Text) : Type 0 where
    pub front : List Text
    pub base : List Text
    pub labels_eq : labels ≡ front ++ base
    pub zone_eq : zone ≡ join b'.' base
    pub filled : zone ≢ []
    pub served : has_ns zone ≡ true
    pub longest :
        (f b : List Text)
        → labels ≡ f ++ b
        → length f < length front
        → join b'.' b ≢ []
        → has_ns (join b'.' b) ≡ false

  skip :
      (l : Text) (ls : List Text) (zone : Text)
      → (join b'.' (l ∷ ls) ≢ [] → has_ns (join b'.' (l ∷ ls)) ≡ false)
      → IsAuthZone ls zone
      → IsAuthZone (l ∷ ls) zone
  skip l ls zone miss found = record {
    front = l ∷ found.front;
    base = found.base;
    labels_eq = ap (◌∷◌ l) found.labels_eq;
    zone_eq = found.zone_eq;
    filled = found.filled;
    served = found.served;
    longest = go;
  }
    where
      go :
          (f b : List Text)
          → l ∷ ls ≡ f ++ b
          → length f < length (l ∷ found.front)
          → join b'.' b ≢ []
          → has_ns (join b'.' b) ≡ false
      go [] b e lt h =
          subst (λ (x : List Text). join b'.' x ≢ [] → has_ns (join b'.' x) ≡ false) e miss h
      go (x ∷ f) b e lt h = found.longest f b (cc) (omega arith) h

  whole :
      (l : Text) (ls : List Text)
      → join b'.' (l ∷ ls) ≢ []
      → has_ns (join b'.' (l ∷ ls)) ≡ true
      → IsAuthZone (l ∷ ls) (join b'.' (l ∷ ls))
  whole l ls filled hit = record {
    front = [];
    base = l ∷ ls;
    labels_eq = refl;
    zone_eq = refl;
    filled = filled;
    served = hit;
    longest = λ f b e lt h. absurd (omega arith);
  }

  first_hit :
      (l : Text) (ls : List Text) (zone : Text)
      → join b'.' (l ∷ ls) ≢ []
      → has_ns (join b'.' (l ∷ ls)) ≡ true
      → first_zone has_ns (candidates (l ∷ ls)) ≡ some zone
      → join b'.' (l ∷ ls) ≡ zone
  unfolding first_zone candidates
  first_hit l ls zone filled hit h = ground (arith, eq_iff (join b'.' (l ∷ ls)) [])

  first_zone_sound :
      (labels : List Text) (zone : Text)
      → first_zone has_ns (candidates labels) ≡ some zone
      → IsAuthZone labels zone
  unfolding first_zone candidates
  first_zone_sound [] zone h = cc
  first_zone_sound (l ∷ ls) zone h = elim (Bool-cases (join b'.' (l ∷ ls) == [])) [
    | inl empty ↦
        skip l ls zone (λ filled. absurd (filled ((eq_iff _ []).0 empty)))
          (first_zone_sound ls zone (ground arith))
    | inr filled ↦ elim (Bool-cases (has_ns (join b'.' (l ∷ ls)))) [
      | inl hit ↦
          subst (IsAuthZone (l ∷ ls)) (first_hit l ls zone (ne_of_== _ [] filled) hit h)
            (whole l ls (ne_of_== _ [] filled) hit)
      | inr miss ↦ skip l ls zone (λ _. miss) (first_zone_sound ls zone (ground arith))
    ]
  ]

  first_zone-none :
      (labels f b : List Text)
      → first_zone has_ns (candidates labels) ≡ none
      → labels ≡ f ++ b
      → join b'.' b ≢ []
      → has_ns (join b'.' b) ≡ false
  unfolding first_zone candidates join
  first_zone-none [] [] b h e filled = absurd (filled (ap (join b'.') (sym e)))
  first_zone-none [] (x ∷ f) b h e filled = cc
  first_zone-none (l ∷ ls) [] b h e filled =
      subst (λ (x : List Text). join b'.' x ≢ [] → has_ns (join b'.' x) ≡ false) e
        (λ named. ground (arith, eq_iff (join b'.' (l ∷ ls)) [])) filled
  first_zone-none (l ∷ ls) (x ∷ f) b h e filled = first_zone-none ls f b (ground arith) (cc) filled

  -- A zone that ResolveAuthZone returns is the longest ending of the normalized name, on label
  -- boundaries, that has NS records.
  pub resolve_auth_zone-IsAuthZone :
      (name zone : Text)
      → resolve_auth_zone has_ns name ≡ ok zone
      → IsAuthZone (split b'.' (normalize_dns_name name)) zone
  unfolding resolve_auth_zone
  resolve_auth_zone-IsAuthZone name zone h =
      first_zone_sound (split b'.' (normalize_dns_name name)) zone (ground arith)

  -- When it finds no zone for a name, no non-empty ending of the name has NS records.
  pub resolve_auth_zone_none :
      (name fqdn : Text) (f b : List Text)
      → resolve_auth_zone has_ns name ≡ err (no_zone fqdn)
      → split b'.' fqdn ≡ f ++ b
      → join b'.' b ≢ []
      → has_ns (join b'.' b) ≡ false
  unfolding resolve_auth_zone
  resolve_auth_zone_none name fqdn f b h e filled =
      first_zone-none (split b'.' fqdn) f b (ground arith) e filled
