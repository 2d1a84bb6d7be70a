-- ===== src/Frontend/FetchServer/Served.antt =====
-- What a user is served who asks for a path to be fetched.
use pkgsite.Prelude.{
  Bool, true, false, not, ◌&&◌, List, [], ◌∷◌, Text, Option, none, some, ◌⊎◌, inl, inr, ◌≡◌, refl,
  sym, ap, ◌∙◌, arith, ◌==◌, if◌then◌else◌, is_empty, In,
}
use pkgsite.Derrors.{to_status}
use pkgsite.Frontend.FetchServer.{FetchResult, Response, not_a_valid_path}
use pkgsite.Frontend.FetchServer.Verdict.{
  no_error, lacks_path, decide, verdict_from, without_decision, result_from_fetch_request,
}

abbrev or_prefix : Text → Text → Text
or_prefix [] other = other
or_prefix (c ∷ s) other = c ∷ s

prefix-step :
    (b : Bool) (prefix found rest : Text)
    → or_prefix (if b && is_empty prefix then found else prefix) rest
      ≡ or_prefix prefix (if b && not (is_empty found) then found else rest)
prefix-step true [] [] rest = refl
prefix-step true [] (c ∷ s) rest = refl
prefix-step false [] found rest = refl
prefix-step true (d ∷ p) found rest = refl
prefix-step false (d ∷ p) found rest = refl

or_prefix-nil : (prefix : Text) → or_prefix prefix [] ≡ prefix
or_prefix-nil [] = refl
or_prefix-nil (c ∷ s) = refl

-- A status that a decision shows, and success only for a result that succeeded.
abbrev pub IsVerdict : FetchResult → FetchResult → Type 0
IsVerdict fr g =
    ((g.status ≡ 200) × (fr.status ≡ 200))
    ⊎ (g.status ≡ 404)
    ⊎ (g.status ≡ 408)
    ⊎ (g.status ≡ 491)
    ⊎ (g.status ≡ 500)

abbrev Decided : FetchResult → Option (Option FetchResult) → Type 0
Decided fr none = Unit
Decided fr (some none) = Unit
Decided fr (some (some g)) = IsVerdict fr g

Decided-if :
    (fr : FetchResult) (b : Bool) (x y : Option (Option FetchResult))
    → (b ≡ true → Decided fr x)
    → Decided fr y
    → Decided fr (if b then x else y)
Decided-if fr true x y hx hy = hx refl
Decided-if fr false x y hx hy = hy

module _ (check_path : Text → Bool) (renders : Response → Bool) (full_path requested : Text) where
  abbrev turn : FetchResult → Option (Option FetchResult)
  turn fr = decide check_path renders full_path requested fr

  abbrev result : List FetchResult → Option FetchResult
  result frs = result_from_fetch_request check_path renders full_path requested frs

  -- The first result that decides.
  abbrev pub first_decision : List FetchResult → Option (Option FetchResult)
  first_decision [] = none
  first_decision (fr ∷ frs) = elim (turn fr) [ some r ↦ some r | none ↦ first_decision frs ]

  -- The first module that was found and lacks the path, "" for none.
  abbrev pub first_prefix : List FetchResult → Text
  first_prefix [] = []
  first_prefix (fr ∷ frs) =
      if lacks_path fr.err && not (is_empty fr.module_path)
      then fr.module_path
      else first_prefix frs

  abbrev search : Text → List FetchResult → Option (Option FetchResult) → Option FetchResult ⊎ Text
  search prefix frs (some r) = inl r
  search prefix frs none = inr (or_prefix prefix (first_prefix frs))

  verdict_from-first :
      (prefix : Text) (frs : List FetchResult)
      → verdict_from check_path renders full_path requested prefix frs
        ≡ search prefix frs (first_decision frs)
  unfolding verdict_from
  verdict_from-first prefix [] = ap inr (sym (or_prefix-nil prefix))
  verdict_from-first prefix (fr ∷ frs) =
      elim (turn fr)
        as (λ o.
          elim o [
            | some r ↦ inl r
            | none ↦
                verdict_from check_path renders full_path requested
                  (if lacks_path fr.err && is_empty prefix then fr.module_path else prefix) frs
          ]
          ≡ search prefix (fr ∷ frs) (elim o [ some r ↦ some r | none ↦ first_decision frs ])) [
            | some r ↦ refl
            | none ↦
                verdict_from-first
                  (if lacks_path fr.err && is_empty prefix then fr.module_path else prefix) frs
                ∙ search-step (first_decision frs)
          ]
    where
      search-step :
          (o : Option (Option FetchResult))
          → search (if lacks_path fr.err && is_empty prefix then fr.module_path else prefix) frs o
            ≡ search prefix (fr ∷ frs) o
      search-step (some r) = refl
      search-step none =
          ap inr (prefix-step (lacks_path fr.err) prefix fr.module_path (first_prefix frs))

  decide-Decided : (fr : FetchResult) → Decided fr (turn fr)
  unfolding decide to_status
  decide-Decided fr =
      Decided-if fr ((fr.status == 200) && no_error fr.err) _ _
        (λ h. inl (ground arith, ground arith))
        (Decided-if fr (fr.status == 408) _ _ (λ _. inr (inr (inl refl)))
          (Decided-if fr (fr.status == 500) _ _ (λ _. inr (inr (inr (inr refl))))
            (Decided-if fr (fr.status == 491) _ _
              (λ h.
                Decided-if fr (not (check_path fr.go_mod_path)) _ _ (λ _. inr (inl refl))
                  (Decided-if fr (renders (not_a_valid_path fr.go_mod_path)) _ _ (λ _. ground arith)
                    tt))
              (Decided-if fr (fr.status == 490) _ _ (λ _. inr (inl refl)) tt))))

  abbrev pub settled : FetchResult → Option (Option FetchResult) → Text → Option FetchResult
  settled fr (some r) prefix = r
  settled fr none prefix = without_decision check_path renders full_path requested fr prefix

  -- The one loop of `resultFromFetchRequest` amounts to two searches, for any results, first to
  -- last: the first result that decides gives the answer; if none does, the answer is made from the
  -- first result of all and the first module that was found and lacks the path.
  pub result_from_fetch_request-first :
      (fr : FetchResult) (frs : List FetchResult)
      → result_from_fetch_request check_path renders full_path requested (fr ∷ frs)
        ≡ settled fr (first_decision (fr ∷ frs)) (first_prefix (fr ∷ frs))
  unfolding result_from_fetch_request
  result_from_fetch_request-first fr frs =
      ap
        (λ v. elim v [
          | inl r ↦ r
          | inr prefix ↦ without_decision check_path renders full_path requested fr prefix
        ])
        (verdict_from-first [] (fr ∷ frs))
      ∙ settle (first_decision (fr ∷ frs))
    where
      settle :
          (o : Option (Option FetchResult))
          → elim (search [] (fr ∷ frs) o) [
            | inl r ↦ r
            | inr prefix ↦ without_decision check_path renders full_path requested fr prefix
          ]
            ≡ settled fr o (first_prefix (fr ∷ frs))
      settle (some r) = refl
      settle none = refl

  -- The statuses of an answer, success only where one of the results succeeded.
  abbrev pub Answers : List FetchResult → Option FetchResult → Type 0
  Answers frs none = Unit
  Answers frs (some g) = ((fr : FetchResult) × In fr frs × IsVerdict fr g)

  Answers-later :
      (fr : FetchResult) (frs : List FetchResult) (o : Option FetchResult)
      → Answers frs o
      → Answers (fr ∷ frs) o
  Answers-later fr frs none a = tt
  Answers-later fr frs (some g) (x, place, v) = (x, inr place, v)

  abbrev Answered : List FetchResult → Option (Option FetchResult) → Type 0
  Answered frs none = Unit
  Answered frs (some r) = Answers frs r

  first_decision-Answered : (frs : List FetchResult) → Answered frs (first_decision frs)
  first_decision-Answered [] = tt
  first_decision-Answered (fr ∷ frs) =
      step (turn fr) (decide-Decided fr) (first_decision frs) (first_decision-Answered frs)
    where
      step :
          (o : Option (Option FetchResult))
          → Decided fr o
          → (p : Option (Option FetchResult)) → Answered frs p
          → Answered (fr ∷ frs) (elim o [ some r ↦ some r | none ↦ p ])
      step none d none a = tt
      step none d (some r) a = Answers-later fr frs r a
      step (some none) d p a = tt
      step (some (some g)) d p a = (fr, inl refl, d)

  without_decision-Answers :
      (fr : FetchResult) (frs : List FetchResult) (prefix : Text)
      → Answers (fr ∷ frs) (without_decision check_path renders full_path requested fr prefix)
  unfolding without_decision
  without_decision-Answers fr frs [] = (fr, inl refl, inr (inl refl))
  without_decision-Answers fr frs (c ∷ prefix) = Answers-if _ _ (fr, inl refl, inr (inl refl))
    where
      Answers-if :
          (b : Bool) (g : FetchResult)
          → Answers (fr ∷ frs) (some g)
          → Answers (fr ∷ frs) (if b then some g else none)
      Answers-if true g a = a
      Answers-if false g a = tt

  pub result_from_fetch_request-Answers :
      (frs : List FetchResult)
      → Answers frs (result_from_fetch_request check_path renders full_path requested frs)
  unfolding result_from_fetch_request
  result_from_fetch_request-Answers [] = tt
  result_from_fetch_request-Answers (fr ∷ frs) =
      rw (result_from_fetch_request-first fr frs)
        (settle (first_decision (fr ∷ frs)) (first_decision-Answered (fr ∷ frs)))
    where
      settle :
          (o : Option (Option FetchResult))
          → Answered (fr ∷ frs) o
          → Answers (fr ∷ frs) (settled fr o (first_prefix (fr ∷ frs)))
      settle (some r) a = a
      settle none a = without_decision-Answers fr frs (first_prefix (fr ∷ frs))
