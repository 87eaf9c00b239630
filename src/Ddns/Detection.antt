-- ===== src/Ddns/Detection.antt =====
-- internal/ddns/ipdetect/ipdetect.go: the detection of the public addresses, and PublicIPConfig.Detector of
-- internal/platform/config/config.go. The HTTP client is a parameter: the body that a URL answers with.
pub mod Answers
use domux.Prelude.{Bool, true, false, not, ◌&&◌, List, [], ◌∷◌, ◌++◌, if◌then◌else◌, is_empty}
use domux.Prelude.Int.{pos, is_positive}
use domux.Prelude.Result.{Result, ok, err}
use domux.Text.{Text, codes, ◌==◌, trim_space}
use domux.Core.Types.{Duration}
use domux.Ddns.Service.{Snapshot}
use domux.Config.{PublicIpConfig}

-- The client is its timeout.
pub record HttpDetector : Type 0 where
  pub ipv4_url : Text
  pub ipv6_url : Text
  pub ipv4_urls : List Text
  pub ipv6_urls : List Text
  pub timeout : Duration

pub data DetectError (Failure : Type 0) : Type 0 where
  failed : Text → Text → Failure → DetectError Failure
  empty_result : Text → Text → DetectError Failure

abbrev pub default_ipv4_urls : List Text
default_ipv4_urls = codes "https://api.ipify.org" ∷ codes "https://ipv4.icanhazip.com" ∷ []

abbrev pub default_ipv6_urls : List Text
default_ipv6_urls = codes "https://api64.ipify.org" ∷ codes "https://ipv6.icanhazip.com" ∷ []

-- DefaultHTTPDetector; ten seconds in nanoseconds
abbrev pub default_http_detector : HttpDetector
default_http_detector = record {
  ipv4_url = [];
  ipv6_url = [];
  ipv4_urls = default_ipv4_urls;
  ipv6_urls = default_ipv6_urls;
  timeout = pos 10_000_000_000;
}

-- PublicIPConfig.Detector
unfoldable pub detector : PublicIpConfig → HttpDetector
detector c = record {
  ipv4_url = [];
  ipv6_url = [];
  ipv4_urls = if is_empty c.ipv4_urls then default_ipv4_urls else c.ipv4_urls;
  ipv6_urls = if is_empty c.ipv6_urls then default_ipv6_urls else c.ipv6_urls;
  timeout = if is_positive c.timeout then c.timeout else default_http_detector.timeout;
}

-- familyURLs
unfoldable pub family_urls : Text → List Text → List Text → List Text
family_urls single many defaults =
    if not (is_empty many)
    then many
    else if not (trim_space single == [])
    then single ∷ []
    else defaults

module _ {Failure : Type 0} (fetch : Duration → Text → Result Failure Text) (d : HttpDetector) where
  -- detectOne
  unfoldable pub detect_one : Text → Result Failure Text
  detect_one url = elim (fetch d.timeout url) [ err e ↦ err e | ok body ↦ ok (trim_space body) ]

  -- The loop of detectFamily, which asks the URLs behind an answer no more
  unfoldable pub detect_family : Text → List Text → Result (List (DetectError Failure)) Text
  unfolding detect_one
  detect_family label [] = err []
  detect_family label (url ∷ urls) =
      let rest = detect_family label urls in
      elim (detect_one url) [
        | ok value ↦
            if not (value == [])
            then ok value
            else elim rest [ ok v ↦ ok v | err errs ↦ err (empty_result label url ∷ errs) ]
        | err e ↦ elim rest [ ok v ↦ ok v | err errs ↦ err (failed label url e ∷ errs) ]
      ]

  -- an address and the errors of its detection, where the family is asked for
  abbrev pub asked :
      Bool → Result (List (DetectError Failure)) Text → Text × List (DetectError Failure)
  asked false r = ([], [])
  asked true (ok v) = (v, [])
  asked true (err errs) = ([], errs)

  -- Detect
  unfoldable pub detect : Bool → Bool → Snapshot × List (DetectError Failure)
  unfolding detect_family family_urls
  detect ipv4 ipv6 =
      let both = not ipv4 && not ipv6 in
      let first =
        asked (if both then true else ipv4)
          (detect_family (codes "IPv4") (family_urls d.ipv4_url d.ipv4_urls default_ipv4_urls)) in
      let second =
        asked (if both then true else ipv6)
          (detect_family (codes "IPv6") (family_urls d.ipv6_url d.ipv6_urls default_ipv6_urls)) in
      (record { ipv4 = first.0; ipv6 = second.0 }, first.1 ++ second.1)
