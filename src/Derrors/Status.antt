-- ===== src/Derrors/Status.antt =====
-- Errors and status codes: to a status and back, through wrapping and reprocessing.
use pkgsite.Prelude.{
  ℕ, Bool, true, false, List, [], ◌∷◌, Option, none, some, ◌≡◌, ◌⊎◌, refl, arith, ◌==◌, In, ◌||◌,
  if◌then◌else◌,
}
use pkgsite.Derrors.{
  Error, wrap, Code, codes_table, from_status, to_status, to_reprocess_status, wrap_error,
  add_error, status_of,
}

abbrev is_nil : Option Error → Bool
is_nil none = true
is_nil (some e) = false

unfoldable pub has_code : ℕ → List Code → Bool
has_code n [] = false
has_code n (c ∷ cs) = c.code == n || has_code n cs

-- The status of the error that `FromStatus` makes of a code, wrapped in a message or not, is that
-- code if it is 200 or stands in the table of codes, and 500 otherwise.
pub to_status-from_status :
    (code : ℕ) (has_format : Bool)
    → to_status (from_status code has_format)
      ≡ (if code == 200 || has_code code codes_table then code else 500)
unfolding to_status from_status has_code
to_status-from_status code has_format = ground arith

status_of-wrap : (e : Error) (cs : List Code) → status_of (wrap e) cs ≡ status_of e cs
unfolding status_of
status_of-wrap e [] = refl
status_of-wrap e (c ∷ cs) = ground (arith, status_of-wrap e cs)

-- `Wrap` keeps the status of every error, and of nil; `Add` turns every error into status 500.
pub to_status-context :
    (e : Option Error)
    → (to_status (wrap_error e) ≡ to_status e)
      × (to_status (add_error e) ≡ (if is_nil e then 200 else 500))
unfolding to_status wrap_error add_error
to_status-context none = (refl, refl)
to_status-context (some e) = (status_of-wrap e codes_table, refl)

-- A reprocessing status is 520, 521, 540, 541 or 542, is told apart from the others, and stands for
-- exactly one former status; `ToReprocessStatus` leaves every other status alone, and a second
-- application changes nothing.
pub to_reprocess_status_lem :
    (m n : ℕ)
    → (to_reprocess_status (to_reprocess_status m) ≡ to_reprocess_status m)
      × ((to_reprocess_status m ≡ m)
          ⊎ In (to_reprocess_status m) (520 ∷ 521 ∷ 540 ∷ 541 ∷ 542 ∷ []))
      × (to_reprocess_status m ≡ to_reprocess_status n
          → (m ≡ n) ⊎ (to_reprocess_status m ≡ m) ⊎ (to_reprocess_status n ≡ n))
unfolding to_reprocess_status
to_reprocess_status_lem m n = ground arith
