-- ===== src/Tests/Middleware.antt =====
-- Examples of internal/middleware.
use pkgsite.Prelude.{ℕ, true, false, List, [], ◌∷◌, Text, Option, none, some, codes, ◌≡◌, ◌≢◌, ◌↔◌}
use pkgsite.Stdlib.{mem_text}
use pkgsite.Quota.{
  QuotaSettings, Request, Limit, allowed, quota, IsHeader, IsExhausted, quota-Refuses,
}

abbrev ip_of : Text → Option (List ℕ)
ip_of [] = none
ip_of (c ∷ s) = some (c ∷ s)

ip_of-nonempty : (s : Text) → ip_of s ≢ some []
ip_of-nonempty [] h = cc
ip_of-nonempty (c ∷ s) h = cc

abbrev same : List ℕ → Text
same ip = ip

abbrev hashed : Text → Text → Text
hashed key s = s

abbrev none_left : Text → ℕ → Limit
none_left key qps = allowed 0

abbrev enforced : QuotaSettings
enforced = record {
  enable = true;
  qps = 5;
  record_only = some false;
  auth_values = codes "secret" ∷ [];
  hmac_key = [];
}

abbrev a_request : Request
a_request = record {
  bypass_header = [];
  godoc_forwarded_for = [];
  forwarded_for = codes "10.1.2.3, 10.0.0.1";
}

quota-Refuses_example : ((quota ip_of same hashed none_left enforced a_request).0 ≡ false) ↔ (
    (true ≡ true)
    × (some false ≡ some false)
    × (mem_text [] (codes "secret" ∷ []) ≡ false)
    × ((h : Text) × IsHeader ip_of same hashed none_left a_request h
        × IsExhausted ip_of same hashed none_left enforced h))
quota-Refuses_example =
    quota-Refuses ip_of same hashed none_left enforced a_request (λ s. ip_of-nonempty s)
