-- ===== src/Codec/Skip/Terminates.antt =====
-- `skip` terminates on every input.
use pkgsite.Prelude.{
  ℕ, zero, suc, ◌+◌, ◌*◌, ◌≤◌, ◌<◌, Bool, true, false, [], ◌∷◌, Text, ◌≡◌, ◌≢◌, arith, length, drop,
  leb, ltb, ◌==◌, if◌then◌else◌,
}
use pkgsite.Codec.{
  Read, done, failed, panicked, out_of_fuel, ◌>>=◌, read_byte, cur_byte, read_bytes, decode_sized,
  decode_uint, nil_code, n_bytes_code, n_values_code, ref_code, start_code, end_code,
}
use pkgsite.Codec.Skip.{skip, skip_values, skip_fields, rounds}

-- The call comes to an end, and leaves fewer than k bytes to be read.
abbrev Ends : {A : Type 0} → ℕ → Read A → Type 0
Ends k (done a r) = length r < k
Ends k failed = Unit
Ends k panicked = Unit
Ends k out_of_fuel = ⊥

Ends->>= :
    {A B : Type 0} (k j : ℕ) (m : Read A) (g : A → Text → Read B)
    → Ends k m
    → ((a : A) (r : Text) → length r < k → Ends j (g a r))
    → Ends j (m >>= g)
Ends->>= k j (done a r) g h next = next a r h
Ends->>= k j failed g h next = tt
Ends->>= k j panicked g h next = tt
Ends->>= k j out_of_fuel g h next = absurd h

Ends-if :
    {A : Type 0} (k : ℕ) (b : Bool) (x y : Read A)
    → Ends k x
    → Ends k y
    → Ends k (if b then x else y)
Ends-if k true x y hx hy = hx
Ends-if k false x y hx hy = hy

Ends-mono : {A : Type 0} (k j : ℕ) (m : Read A) → k ≤ j → Ends k m → Ends j m
Ends-mono k j (done a r) h e = omega arith
Ends-mono k j failed h e = tt
Ends-mono k j panicked h e = tt
Ends-mono k j out_of_fuel h e = absurd e

length-drop-le : (n : ℕ) (s : Text) → length (drop n s) ≤ length s
length-drop-le zero s = omega arith
length-drop-le (suc n) [] = omega arith
length-drop-le (suc n) (x ∷ s) = omega (arith, length-drop-le n s)

read_bytes-Ends : (n : ℕ) (s : Text) → Ends (suc (length s)) (read_bytes n s)
unfolding read_bytes
read_bytes-Ends n s = Ends-if _ (leb n (length s)) _ _ (omega (arith, length-drop-le n s)) tt

decode_sized-Ends : (n : ℕ) (s : Text) → Ends (suc (length s)) (decode_sized n s)
unfolding decode_sized
decode_sized-Ends n s =
    Ends-if _ (n == 4) _ _ (Ends->>= _ _ (read_bytes 4 s) _ (read_bytes-Ends 4 s) (λ a r h. h)) (
      Ends-if _ (n == 8) _ _ (Ends->>= _ _ (read_bytes 8 s) _ (read_bytes-Ends 8 s) (λ a r h. h))
        tt)

decode_uint-Ends : (s : Text) → Ends (length s) (decode_uint s)
unfolding decode_uint read_byte
decode_uint-Ends [] = tt
decode_uint-Ends (b ∷ s) =
    Ends-if _ (ltb b end_code) _ _ (omega arith) (Ends-if _ (b == n_bytes_code) _ _ (sized s) tt)
  where
    sized : (s : Text) → Ends (suc (length s)) (read_byte s >>= decode_sized)
    sized [] = tt
    sized (n ∷ s) =
        Ends-mono (suc (length s)) _ (decode_sized n s) (omega arith) (decode_sized-Ends n s)

mutual
  unfolding skip read_byte cur_byte

  skip-Ends : (f : ℕ) (s : Text) → 2 * length s < f → Ends (length s) (skip f s)
  skip-Ends zero s h = absurd (omega arith)
  skip-Ends (suc f) [] h = tt
  skip-Ends (suc f) (b ∷ r) h =
      let k : ℕ = suc (length r) in
      Ends-if k (ltb b end_code) _ _ (omega arith) (
        Ends-if k (b == nil_code) _ _ (omega arith) (
          Ends-if k (b == n_bytes_code) _ _
            (Ends->>= (length r) k (decode_uint r) _ (decode_uint-Ends r) λ n t less.
              Ends->>= (suc (length t)) k (read_bytes n t) _ (read_bytes-Ends n t)
                λ a u le. omega arith)
            (Ends-if k (b == n_values_code) _ _
              (Ends->>= (length r) k (decode_uint r) _ (decode_uint-Ends r) λ n t less.
                Ends-mono (suc (length t)) k (skip_values f (rounds n) t) (omega arith)
                  (skip_values-Ends f (rounds n) t (omega arith)))
              (Ends-if k (b == ref_code) _ _
                (Ends->>= (length r) k (decode_uint r) _ (decode_uint-Ends r)
                  λ n t less. omega arith)
                (Ends-if k (b == start_code) _ _
                  (Ends-mono (length r) k (skip_fields f r) (omega arith)
                    (skip_fields-Ends f r (omega arith)))
                  tt)))))

  skip_values-Ends :
      (f n : ℕ) (s : Text) → 2 * length s + 1 < f → Ends (suc (length s)) (skip_values f n s)
  skip_values-Ends zero n s h = absurd (omega arith)
  skip_values-Ends (suc f) zero s h = omega arith
  skip_values-Ends (suc f) (suc n) s h =
      Ends->>= (length s) (suc (length s)) (skip f s) _ (skip-Ends f s (omega arith)) λ _ t less.
        Ends-mono (suc (length t)) (suc (length s)) (skip_values f n t) (omega arith)
          (skip_values-Ends f n t (omega arith))

  skip_fields-Ends : (f : ℕ) (s : Text) → 2 * length s + 1 < f → Ends (length s) (skip_fields f s)
  skip_fields-Ends zero s h = absurd (omega arith)
  skip_fields-Ends (suc f) [] h = tt
  skip_fields-Ends (suc f) (b ∷ r) h = Ends-if (suc (length r)) (b == end_code) _ _ (omega arith) (
      Ends->>= (suc (length r)) (suc (length r)) (skip f (b ∷ r)) _
        (skip-Ends f (b ∷ r) (omega arith))
        λ _ t less.
          Ends-mono (length t) (suc (length r)) (skip_fields f t) (omega arith)
            (skip_fields-Ends f t (omega arith)))

by_end :
    (n : ℕ) (m : Read (Unit {0}))
    → Ends n m
    → (m ≢ out_of_fuel) × ((t : Text) → m ≡ done tt t → length t < n)
by_end n (done a r) h = ((λ e. cc), λ t e. ground arith)
by_end n failed h = ((λ e. cc), λ t e. cc)
by_end n panicked h = ((λ e. cc), λ t e. cc)
by_end n out_of_fuel h = absurd h

-- On every input, valid or not, `skip` terminates: its calls nest no deeper than one more than twice
-- the number of bytes left.
pub skip_terminates : (s : Text) → skip (2 * length s + 1) s ≢ out_of_fuel
skip_terminates s =
    (by_end (length s) (skip (2 * length s + 1) s) (skip-Ends (2 * length s + 1) s (omega arith))).0

-- Where `skip` succeeds, it has read at least one byte.
pub skip_shorter : (s t : Text) → skip (2 * length s + 1) s ≡ done tt t → length t < length s
skip_shorter s t =
    (by_end (length s) (skip (2 * length s + 1) s) (skip-Ends (2 * length s + 1) s (omega arith))).1
      t
