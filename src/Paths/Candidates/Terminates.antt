-- ===== src/Paths/Candidates/Terminates.antt =====
-- The loop of `CandidateModulePaths` ends: `path.Dir` shortens a path.
use pkgsite.Prelude.{
  ℕ, zero, suc, ◌+◌, ◌-◌, ◌≤◌, ◌<◌, take, ltb, Bool, true, false, ◌||◌, List, [], ◌∷◌, ◌++◌, Text,
  some, codes, text_eq, has_prefix, split, push_head, push_head-nonempty, length, ◌==◌, ◌≡◌, ◌≢◌,
  ◌⊎◌, inl, inr, refl, sym, ap, ◌∙◌, arith, Bool-cases,
}
use pkgsite.Paths.Candidates.{is_end, ancestors, without_hosts, last, candidate_module_paths}
use pkgsite.Paths.Candidates.Dir.{
  clean_step, clean_elements, join_kept, finish, clean, has_slash, dir_part, dir,
}
use pkgsite.Paths.{vcs_host_with_three_element_repo_name}
use pkgsite.Stdlib.{contains}

-- The length of the elements with a slash behind each.
abbrev weight : List Text → ℕ
weight [] = 0
weight (e ∷ es) = suc (length e) + weight es

weight-push_head : (c : ℕ) (es : List Text) → es ≢ [] → weight (push_head c es) ≡ suc (weight es)
weight-push_head c [] h = absurd (h refl)
weight-push_head c (e ∷ es) h = omega arith

split-nonempty : (s : Text) → split s b'/' ≢ []
unfolding split
split-nonempty [] h = cc
split-nonempty (c ∷ s) h = elim (Bool-cases (c == b'/')) [
  | inl y ↦ (let e : split (c ∷ s) b'/' ≡ [] ∷ split s b'/' = rw (split, y) refl in cc)
  | inr n ↦ push_head-nonempty c (split s b'/') (sym (rw (split, n) refl) ∙ h)
]

weight-split : (s : Text) → weight (split s b'/') ≡ suc (length s)
unfolding split
weight-split [] = refl
weight-split (c ∷ s) = elim (Bool-cases (c == b'/')) [
  | inl y ↦ rw (split, y) (omega (arith, weight-split s))
  | inr n ↦
      rw (split, n)
        (omega (arith, weight-split s, weight-push_head c (split s b'/') (split-nonempty s)))
]

push_head-append :
    (c : ℕ) (es fs : List Text) → es ≢ [] → push_head c (es ++ fs) ≡ push_head c es ++ fs
push_head-append c [] fs h = absurd (h refl)
push_head-append c (e ∷ es) fs h = refl

split-slash : (s : Text) → split (s ++ codes "/") b'/' ≡ split s b'/' ++ ([] ∷ [])
unfolding split
split-slash [] = refl
split-slash (c ∷ s) = elim (Bool-cases (c == b'/')) [
  | inl y ↦ rw (split, y) (ap (λ es. [] ∷ es) (split-slash s))
  | inr n ↦
      rw (split, n)
        (ap (push_head c) (split-slash s) ∙ push_head-append c (split s b'/') _ (split-nonempty s))
]

weight-clean_step :
    (r : Bool) (ks : List Text) (e : Text) → weight (clean_step r ks e) ≤ weight ks + suc (length e)
unfolding clean_step
weight-clean_step r [] e = ground arith
weight-clean_step r (k ∷ ks) e = ground arith

clean_step-nil : (r : Bool) (ks : List Text) → clean_step r ks [] ≡ ks
unfolding clean_step
clean_step-nil r [] = refl
clean_step-nil r (k ∷ ks) = refl

-- An empty last element is not kept.
weight-clean_elements :
    (r : Bool) (ks es : List Text)
    → weight (clean_elements r ks (es ++ ([] ∷ []))) ≤ weight ks + weight es
unfolding clean_elements
weight-clean_elements r ks [] = rw (clean_step-nil r ks) (omega arith)
weight-clean_elements r ks (e ∷ es) =
    omega (arith, weight-clean_elements r (clean_step r ks e) es, weight-clean_step r ks e)

length-append : (s t : Text) → length (s ++ t) ≡ length s + length t
length-append [] t = omega arith
length-append (c ∷ s) t = omega (arith, length-append s t)

length-join_kept : (ks : List Text) → length (join_kept ks) ≡ weight ks - 1
unfolding join_kept
length-join_kept [] = refl
length-join_kept (k ∷ []) = omega arith
length-join_kept (k ∷ l ∷ ks) =
    omega (arith, length-join_kept (l ∷ ks), length-append (join_kept (l ∷ ks)) (b'/' ∷ k))

-- What is kept of a text with a slash behind it.
length-kept :
    (r : Bool) (s : Text)
    → length (join_kept (clean_elements r [] (split s b'/' ++ ([] ∷ [])))) ≤ length s
length-kept r s = omega (
  arith,
  length-join_kept (clean_elements r [] (split s b'/' ++ ([] ∷ []))),
  weight-clean_elements r [] (split s b'/'),
  weight-split s,
)

-- What `path.Clean` returns is no longer than what it keeps, with the leading slash.
finish_short :
    (kept s : Text)
    → length kept ≤ length s
    → (is_end (finish false kept) ≡ true) ⊎ (length (finish false kept) ≤ length s)
unfolding text_eq
finish_short [] s h = inl refl
finish_short (k ∷ ks) s h = inr h

-- `path.Clean` of a path that ends in a slash.
clean_shorter :
    (s : Text)
    → (is_end (clean (s ++ codes "/")) ≡ true) ⊎ (length (clean (s ++ codes "/")) ≤ length s)
unfolding clean split clean_elements clean_step join_kept text_eq has_prefix
clean_shorter [] = inl refl
clean_shorter (c ∷ s) = elim (Bool-cases (c == b'/')) [
  | inl y ↦
      inr (rw (clean, has_prefix, split, y, split-slash s) (omega (arith, length-kept true s)))
  | inr n ↦
      (let e : clean (c ∷ (s ++ codes "/"))
            ≡ finish false (join_kept (clean_elements false [] (split (c ∷ s) b'/' ++ ([] ∷ [])))) =
          rw (clean, has_prefix, n) refl
          ∙ ap (λ es. finish false (join_kept (clean_elements false [] es)))
              (split-slash (c ∷ s)) in
        rw e (finish_short _ (c ∷ s) (length-kept false (c ∷ s))))
]

dir_part-nonempty : (p : Text) → has_slash p ≡ true → dir_part p ≢ []
unfolding dir_part
dir_part-nonempty [] h e = cc
dir_part-nonempty (c ∷ p) h e =
    let here : ((c == b'/') || has_slash p) ≡ true = h in
    let f : dir_part (c ∷ p) ≡ c ∷ dir_part p = rw (dir_part, here) refl in cc

dir_part-slash :
    (p : Text)
    → (dir_part p ≡ []) ⊎ ((s : Text) × (dir_part p ≡ s ++ codes "/") × (length s < length p))
unfolding dir_part
dir_part-slash [] = inl refl
dir_part-slash (c ∷ p) = elim (Bool-cases ((c == b'/') || has_slash p)) [
  | inl y ↦ inr (elim (dir_part-slash p) [
    | inl e ↦ ([], rw (dir_part, y, e) (ap (λ b. b ∷ []) (slash e y)), omega arith)
    | inr (s, e, h) ↦ (c ∷ s, rw (dir_part, y, e) refl, omega arith)
  ])
  | inr n ↦ inl (rw (dir_part, n) refl)
]
  where
    slash : dir_part p ≡ [] → ((c == b'/') || has_slash p) ≡ true → c ≡ b'/'
    slash e y = ground (arith, dir_part-nonempty p)

-- `path.Dir` ends the loop, or shortens the path.
pub dir_shorter : (p : Text) → (is_end (dir p) ≡ true) ⊎ (length (dir p) < length p)
unfolding dir
dir_shorter p = elim (dir_part-slash p) [
  | inl e ↦ inl (rw e refl)
  | inr (s, e, h) ↦ rw e (elim (clean_shorter s) [ inl y ↦ inl y | inr l ↦ inr (omega arith) ])
]

module _ (check_path : Text → Bool) where
  ancestors-end : (fuel : ℕ) (p : Text) → is_end p ≡ true → ancestors check_path fuel p ≡ some []
  unfolding ancestors
  ancestors-end zero p h = rw (ancestors, h) refl
  ancestors-end (suc fuel) p h = rw (ancestors, h) refl

  -- Paths that pass the check, each shorter than the one before.
  abbrev pub Below : ℕ → List Text → Type 0
  Below n [] = Unit
  Below n (p ∷ r) = (length p < n) × (check_path p ≡ true) × Below (length p) r

  Below-mono : (m n : ℕ) (r : List Text) → m ≤ n → Below m r → Below n r
  Below-mono m n [] h b = tt
  Below-mono m n (p ∷ r) h (l, c, b) = (omega arith, c, b)

  ancestors_lem :
      (fuel : ℕ) (p : Text)
      → length p < fuel
      → (r : List Text) × (ancestors check_path fuel p ≡ some r) × Below (suc (length p)) r
  unfolding ancestors
  ancestors_lem zero p h = absurd (omega arith)
  ancestors_lem (suc fuel) p h =
      let (r, e, b) = rest (dir_shorter p) λ l. ancestors_lem fuel (dir p) (omega arith) in
      elim (Bool-cases (is_end p)) [
        | inl y ↦ ([], ancestors-end (suc fuel) p y, tt)
        | inr n ↦ elim (Bool-cases (check_path p)) [
          | inl c ↦ (p ∷ r, rw (ancestors, n, c, e) refl, (omega arith, c, b))
          | inr c ↦ (r, rw (ancestors, n, c, e) refl, Below-mono _ _ r (omega arith) b)
        ]
      ]
    where
      rest :
          (is_end (dir p) ≡ true) ⊎ (length (dir p) < length p)
          → (length (dir p) < length p
              → (r : List Text) × (ancestors check_path fuel (dir p) ≡ some r)
                × Below (suc (length (dir p))) r)
          → (r : List Text) × (ancestors check_path fuel (dir p) ≡ some r) × Below (length p) r
      rest (inl y) again = ([], ancestors-end fuel (dir p) y, tt)
      rest (inr l) again = (let (r, e, b) = again l in (r, e, Below-mono _ _ r (omega arith) b))

  Below-take : (k n : ℕ) (r : List Text) → Below n r → Below n (take k r)
  Below-take zero n r b = tt
  Below-take (suc k) n [] b = tt
  Below-take (suc k) n (p ∷ r) (l, c, b) = (l, c, Below-take k (length p) r b)

  Below-without_hosts : (n : ℕ) (r : List Text) → Below n r → Below n (without_hosts r)
  unfolding without_hosts
  Below-without_hosts n r b = elim (Bool-cases (length r == 0)) [
    | inl y ↦ rw (without_hosts, y) tt
    | inr nonempty ↦ elim (Bool-cases (vcs_host_with_three_element_repo_name (last r))) [
      | inr other ↦ rw (without_hosts, nonempty, other) b
      | inl host ↦ elim (Bool-cases (ltb (length r) 3)) [
        | inl y ↦ rw (without_hosts, nonempty, host, y) tt
        | inr many ↦ rw (without_hosts, nonempty, host, many) (Below-take (length r - 2) n r b)
      ]
    ]
  ]

  -- On every path outside the standard library the loop ends, and the candidates are valid module
  -- paths, from longest to shortest, none longer than the full path.
  pub candidate_module_paths-Below :
      (check_import_path : Text → Bool) (full_path : Text)
      → contains full_path ≡ false
      → (r : List Text) × (candidate_module_paths check_path check_import_path full_path ≡ some r)
        × Below (suc (length full_path)) r
  unfolding candidate_module_paths
  candidate_module_paths-Below check_import_path full_path h =
      let (r, e, b) = ancestors_lem (suc (length full_path)) full_path (omega arith) in
      (without_hosts r, rw (candidate_module_paths, h, e) refl, Below-without_hosts _ r b)
