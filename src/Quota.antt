-- ===== src/Quota.antt =====
-- internal/middleware/quota.go: whether a request is served or refused. Redis's limiter, the hash of
-- its key, and the parsing and printing of IP addresses are parameters.
use pkgsite.Prelude.{
  ℕ, Bool, true, false, not, ◌&&◌, List, [], ◌∷◌, Text, Option, none, some, is_empty, cut, ltb,
  if◌then◌else◌, ◌≡◌, ◌≢◌, ◌↔◌, arith, ◌⊎◌, inl, inr, refl, ◌++◌, ap, sym, ◌∙◌,
}
use mathlib.Core.Path.{subst}
use pkgsite.Latest.{trim_space}
use pkgsite.Stdlib.{mem_text}

pub record QuotaSettings : Type 0 where
  pub enable : Bool
  pub qps : ℕ
  pub record_only : Option Bool
  pub auth_values : List Text
  pub hmac_key : Text

-- What the handler reads of a request.
pub record Request : Type 0 where
  pub bypass_header : Text
  pub godoc_forwarded_for : Text
  pub forwarded_for : Text

-- An answer of the limiter: an error, which may be a timeout, or how many requests are allowed.
pub data Limit : Type 0 where
  timeout : Limit
  failed : Limit
  allowed : ℕ → Limit

-- The reasons are the values of a metric.
pub data Reason : Type 0 where
  is_disabled is_bypassed no_header bad_header is_timeout is_error is_allowed is_blocked : Reason

unfoldable pub zero_last : List ℕ → List ℕ
zero_last [] = []
zero_last (b ∷ []) = 0 ∷ []
zero_last (b ∷ c ∷ bs) = b ∷ zero_last (c ∷ bs)

module _ (parse_ip : Text → Option (List ℕ)) (ip_text : List ℕ → Text) (mac : Text → Text → Text)
    (limiter : Text → ℕ → Limit) where
  unfoldable pub ip_key : Text → Text
  unfolding cut trim_space zero_last
  ip_key s = elim (parse_ip (trim_space (cut s b',').0)) [
    | none ↦ []
    | some ip ↦ ip_text (zero_last ip)
  ]

  unfoldable pub enforce_quota : ℕ → Text → Text → Bool × Reason
  unfolding ip_key
  enforce_quota qps header hmac_key =
      let key = ip_key header in
      if is_empty header
      then (false, no_header)
      else if is_empty key
      then (false, bad_header)
      else elim (limiter (mac hmac_key key) qps) [
        | timeout ↦ (false, is_timeout)
        | failed ↦ (false, is_error)
        | allowed n ↦ if ltb 0 n then (false, is_allowed) else (true, is_blocked)
      ]

  abbrev pub header_of : Request → Text
  header_of r = if is_empty r.godoc_forwarded_for then r.forwarded_for else r.godoc_forwarded_for

  abbrev pub refuses : Option Bool → Bool
  refuses none = false
  refuses (some record_only) = not record_only

  -- Whether the request is served, and the reason that is counted.
  unfoldable pub quota : QuotaSettings → Request → Bool × Reason
  unfolding enforce_quota mem_text
  quota settings r =
      if not settings.enable
      then (true, is_disabled)
      else if mem_text r.bypass_header settings.auth_values
      then (true, is_bypassed)
      else let (blocked, reason) = enforce_quota settings.qps (header_of r) settings.hmac_key in
        (not (blocked && refuses settings.record_only), reason)

  -- The range of an address: the address with its last byte zero.
  abbrev pub IsRange : List ℕ → List ℕ → Type 0
  IsRange ip range =
      (bytes : List ℕ) × (last : ℕ) × (ip ≡ bytes ++ last ∷ []) × (range ≡ bytes ++ 0 ∷ [])

  -- The header that has the address: the first one, unless it is empty.
  abbrev pub IsHeader : Request → Text → Type 0
  IsHeader r h =
      ((r.godoc_forwarded_for ≢ []) × (h ≡ r.godoc_forwarded_for))
      ⊎ ((r.godoc_forwarded_for ≡ []) × (h ≡ r.forwarded_for))

  header_of-IsHeader : (r : Request) → IsHeader r (header_of r)
  header_of-IsHeader r = ground arith

  IsHeader-unique : (r : Request) (h : Text) → IsHeader r h → h ≡ header_of r
  IsHeader-unique r h (inl (n, e)) = ground arith
  IsHeader-unique r h (inr (n, e)) = ground arith

  zero_last-IsRange : (ip : List ℕ) → ip ≢ [] → IsRange ip (zero_last ip)
  unfolding zero_last
  zero_last-IsRange [] n = absurd (n refl)
  zero_last-IsRange (b ∷ []) n = ([], b, refl, refl)
  zero_last-IsRange (b ∷ c ∷ bs) n =
      let (bytes, last, e, f) = zero_last-IsRange (c ∷ bs) (λ x. cc) in
      (b ∷ bytes, last, ap (λ x. b ∷ x) e, ap (λ x. b ∷ x) f)

  zero_last-append : (bytes : List ℕ) (last : ℕ) → zero_last (bytes ++ last ∷ []) ≡ bytes ++ 0 ∷ []
  unfolding zero_last
  zero_last-append [] last = refl
  zero_last-append (b ∷ []) last = refl
  zero_last-append (b ∷ c ∷ bs) last = ap (λ x. b ∷ x) (zero_last-append (c ∷ bs) last)

  refused_iff :
      (settings : QuotaSettings) (r : Request)
      → ((quota settings r).0 ≡ false) ↔ (
          (settings.enable ≡ true)
          × (settings.record_only ≡ some false)
          × (mem_text r.bypass_header settings.auth_values ≡ false)
          × (header_of r ≢ [])
          × (ip_key (header_of r) ≢ [])
          × (limiter (mac settings.hmac_key (ip_key (header_of r))) settings.qps ≡ allowed 0))
  unfolding quota enforce_quota
  refused_iff settings r = ground arith

  -- The header has an address before its first comma, and the limiter answers, for the text of the
  -- address's range, that no request is allowed.
  abbrev pub IsExhausted : QuotaSettings → Text → Type 0
  IsExhausted settings h =
      (h ≢ [])
      × (ip : List ℕ) × (range : List ℕ) × (parse_ip (trim_space (cut h b',').0) ≡ some ip)
      × IsRange ip range
      × (ip_text range ≢ [])
      × (limiter (mac settings.hmac_key (ip_text range)) settings.qps ≡ allowed 0)

  exhausted :
      (settings : QuotaSettings) (h : Text)
      → ((s : Text) → parse_ip s ≢ some [])
      → h ≢ []
      → ip_key h ≢ []
      → limiter (mac settings.hmac_key (ip_key h)) settings.qps ≡ allowed 0
      → IsExhausted settings h
  unfolding ip_key
  exhausted settings h ips n k l = go (parse_ip (trim_space (cut h b',').0)) refl
    where
      go : (o : Option (List ℕ)) → parse_ip (trim_space (cut h b',').0) ≡ o → IsExhausted settings h
      go none e = absurd (k (rw (e, ip_key) refl))
      go (some ip) e = (
        n,
        ip,
        zero_last ip,
        e,
        zero_last-IsRange ip (λ z. ips _ (e ∙ ap some z)),
        rw (e, ip_key) at k,
        rw (e, ip_key) at l,
      )

  exhausted_key :
      (settings : QuotaSettings) (h : Text)
      → IsExhausted settings h
      → (ip_key h ≢ []) × (limiter (mac settings.hmac_key (ip_key h)) settings.qps ≡ allowed 0)
  unfolding ip_key
  exhausted_key settings h (n, ip, range, e, (bytes, last, f, g), k, l) =
      let same : ip_key h ≡ ip_text range =
        rw (e, ip_key) (ap ip_text (ap zero_last f ∙ zero_last-append bytes last ∙ sym g)) in
      (rw same k, rw same l)

  -- An address that is parsed having bytes, a request is refused exactly when quotas are enabled and
  -- enforced, it has none of the values that bypass them, X-Godoc-Forwarded-For, or X-Forwarded-For where
  -- that is empty, has an address before its first comma, and the limiter answers that no request is
  -- allowed for the address with its last byte zero. An error of the limiter refuses nothing.
  pub quota-Refuses :
      (settings : QuotaSettings) (r : Request)
      → ((s : Text) → parse_ip s ≢ some [])
      → ((quota settings r).0 ≡ false) ↔ (
          (settings.enable ≡ true)
          × (settings.record_only ≡ some false)
          × (mem_text r.bypass_header settings.auth_values ≡ false)
          × ((h : Text) × IsHeader r h × IsExhausted settings h))
  quota-Refuses settings r ips = (
    λ q.
        let (a, b, c, d, e, f) = (refused_iff settings r).0 q in
        (a, b, c, (header_of r, header_of-IsHeader r, exhausted settings (header_of r) ips d e f)),
    λ (a, b, c, (h, i, x)).
        let e = IsHeader-unique r h i in
        let y : IsExhausted settings (header_of r) = subst (IsExhausted settings) e x in
        let (k, l) = exhausted_key settings (header_of r) y in
        (refused_iff settings r).1 (a, b, c, y.0, k, l),
  )
