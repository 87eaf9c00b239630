-- ===== src/Certs/Requests/Renewal.antt =====
-- When a certificate is renewed, and the names in the requests of a zone.
use domux.Prelude.{ℕ, ◌≡◌, ◌≤◌, ◌+◌, true, false, ◌||◌, arith, nat_eq, leb}
use domux.Prelude.Int.{pos, is_zero}
use domux.Core.Types.{CertificateBundle}
use domux.Certs.Requests.{renewal_time, should_renew}

-- A certificate is renewed from its renewal time on: for a duration that is not zero, from that long
-- before its end, and at once where its end is not known.
pub should_renew_iff :
    (bundle : CertificateBundle) (now days : ℕ)
    → is_zero (pos days) ≡ false
    → should_renew bundle now (pos days)
      ≡ (nat_eq bundle.not_after 0 || leb bundle.not_after (now + days))
unfolding should_renew renewal_time
should_renew_iff bundle now days h = ground (arith, h)

-- A later time or a longer duration never makes a renewal unnecessary.
pub should_renew_mono :
    (bundle : CertificateBundle) (now later shorter longer : ℕ)
    → now ≤ later
    → shorter ≤ longer
    → is_zero (pos shorter) ≡ false
    → should_renew bundle now (pos shorter) ≡ true
    → should_renew bundle later (pos longer) ≡ true
should_renew_mono bundle now later shorter longer t d h renew = ground (
  arith,
  should_renew_iff bundle now shorter h,
  should_renew_iff bundle later longer,
  t,
  d,
  h,
  renew,
)
