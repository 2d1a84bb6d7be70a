-- ===== src/Vuln/Compact/Dedup.antt =====
-- `slicesCompact` of internal/vuln/client.go against its description.
use mathlib.Core.List.{append_assoc, append-nil}
use pkgsite.Prelude.{
  ℕ, zero, suc, ◌+◌, ◌-◌, ◌≤◌, ◌<◌, true, false, List, [], ◌∷◌, ◌++◌, ◌≡◌, refl, ap, sym, ◌∙◌,
  arith, Bool-cases, inl, inr, Text, text_eq, length, take, drop, ltb, ◌==◌, if◌then◌else◌,
}
use pkgsite.Vuln.Compact.{at, write, compact_step, compact_loop, slices_compact}

-- The elements that differ from the one before them.
abbrev pub changes : Text → List Text → List Text
changes prev [] = []
changes prev (x ∷ xs) = let rest = changes x xs in if text_eq x prev then rest else x ∷ rest

drop-at :
    (k : ℕ) (t : List Text) {x : Text} {xs : List Text}
    → drop k t ≡ x ∷ xs
    → (at t k ≡ x) × (drop (k + 1) t ≡ xs) × (k < length t)
drop-at zero [] h = ground arith
drop-at zero (y ∷ t) h = ground arith
drop-at (suc k) [] h = ground arith
drop-at (suc k) (y ∷ t) h = ground (arith, drop-at k t h)

take-at : (k : ℕ) (t : List Text) → k < length t → take (k + 1) t ≡ take k t ++ at t k ∷ []
take-at zero [] h = ground arith
take-at (suc k) [] h = ground arith
take-at zero (y ∷ t) h = ground arith
take-at (suc k) (y ∷ t) h = ground (arith, take-at k t)

write_later :
    (i k : ℕ) (v : Text) (t : List Text)
    → i < k
    → (at (write t i v) k ≡ at t k) × (drop k (write t i v) ≡ drop k t)
write_later i k v [] h = ground arith
write_later zero zero v (x ∷ t) h = ground arith
write_later (suc i) zero v (x ∷ t) h = ground arith
write_later zero (suc k) v (x ∷ t) h = ground arith
write_later (suc i) (suc k) v (x ∷ t) h = ground (arith, write_later i k v t)

write_here :
    (i : ℕ) (v : Text) (t : List Text)
    → i < length t
    → take (i + 1) (write t i v) ≡ take i t ++ v ∷ []
write_here zero v [] h = ground arith
write_here (suc i) v [] h = ground arith
write_here zero v (x ∷ t) h = ground arith
write_here (suc i) v (x ∷ t) h = ground (arith, write_here i v t)

abbrev front : List Text × ℕ → List Text
front st = take st.1 st.0

-- The result of the loop on what it has kept and what it has yet to read.
compact_loop-changes :
    (rest : List Text) (k i : ℕ) (t : List Text)
    → 0 < k
    → i ≤ k
    → drop k t ≡ rest
    → front (compact_loop (length rest) k (t, i)) ≡ take i t ++ changes (at t (k - 1)) rest
unfolding compact_loop compact_step
compact_loop-changes [] k i t hk hi h = sym (append-nil _)
compact_loop-changes (x ∷ xs) k i t hk hi h =
    let (here, next, inside) = drop-at k t h in
    let back : k + 1 - 1 ≡ k = omega arith in
    elim (Bool-cases (text_eq (at t k) (at t (k - 1)))) [
      | inl same ↦
          let same' : text_eq x (at t (k - 1)) ≡ true = rw⁻¹ here same in
          let step : compact_step k (t, i) ≡ (t, i) = rw (same, compact_step) refl in
          ap (λ st. front (compact_loop (length xs) (k + 1) st)) step
          ∙ (compact_loop-changes xs (k + 1) i t (omega arith) (omega arith) next
              ∙ rw (back, here, same') refl)
      | inr new ↦
          let new' : text_eq x (at t (k - 1)) ≡ false = rw⁻¹ here new in
          elim (Bool-cases (i == k)) [
            | inl level ↦
                let step : compact_step k (t, i) ≡ (t, i + 1) =
                  rw (new, level, compact_step) refl in
                let same_place : i ≡ k = ground arith in
                let one_more : take (i + 1) t ≡ take i t ++ x ∷ [] =
                  take-at i t (omega arith) ∙ rw (same_place, here) refl in
                ap (λ st. front (compact_loop (length xs) (k + 1) st)) step
                ∙ (compact_loop-changes xs (k + 1) (i + 1) t (omega arith) (omega arith) next
                    ∙ rw (back, here, new', one_more)
                        (append_assoc (take i t) (x ∷ []) (changes x xs)))
            | inr behind ↦
                let before : i < k = ground arith in
                let t' : List Text = write t i (at t k) in
                let step : compact_step k (t, i) ≡ (t', i + 1) =
                  rw (new, behind, compact_step) refl in
                let (kept, after) = write_later i k (at t k) t before in
                let (here', next', _) = drop-at k t' (after ∙ h) in
                let one_more : take (i + 1) t' ≡ take i t ++ x ∷ [] =
                  write_here i (at t k) t (omega arith) ∙ rw here refl in
                ap (λ st. front (compact_loop (length xs) (k + 1) st)) step
                ∙ (compact_loop-changes xs (k + 1) (i + 1) t' (omega arith) (omega arith) next'
                    ∙ rw (back, here', new', one_more)
                        (append_assoc (take i t) (x ∷ []) (changes x xs)))
          ]
    ]

-- `slicesCompact` gives the elements that differ from the one before them, in order: its loop,
-- which moves them to the front of the slice in place, reads nothing that it has overwritten.
pub slices_compact-changes :
    (x : Text) (xs : List Text) → slices_compact (x ∷ xs) ≡ x ∷ changes x xs
unfolding slices_compact
slices_compact-changes x [] = refl
slices_compact-changes x (y ∷ ys) =
    let l : List Text = x ∷ y ∷ ys in
    let long : ltb (length l) 2 ≡ false = ground arith in
    let count : length l - 1 ≡ length (y ∷ ys) = omega arith in
    rw (slices_compact, long, count)
      (compact_loop-changes (y ∷ ys) 1 1 l (omega arith) (omega arith) refl)
