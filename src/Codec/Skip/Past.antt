-- ===== src/Codec/Skip/Past.antt =====
-- `skip` reads past every encoded value.
use pkgsite.Prelude.{
  ℕ, zero, suc, ◌+◌, ◌-◌, ◌^◌, ◌≤◌, ◌<◌, false, [], ◌∷◌, ◌++◌, Text, ◌≡◌, refl, ap, ◌∙◌, inl, inr,
  arith, length, leb, ltb, ◌==◌, Bool-cases, append_assoc,
}
use pkgsite.Codec.{
  done, ◌>>=◌, read_byte, cur_byte, read_bytes, little_endian, encode_uint, encode_len,
  encode_bytes, encode_nil, start_list, u64_mod, n_bytes_code, n_values_code, start_code, end_code,
}
use pkgsite.Codec.RoundTrip.{decode_uint-encode_uint, read_bytes-append, length-little_endian}
use pkgsite.Codec.Skip.{skip, skip_values, skip_fields, rounds}
use pkgsite.Codec.Skip.Value.{
  Value, nil, uint, bytes, list, ref, struct, Values, end, next, count, encode, encode_all, Fits,
  AllFit, calls, calls_all,
}

-- `skip` at a length.
skip_sized :
    (f n : ℕ) (b t : Text)
    → n < u64_mod
    → length b ≡ n
    → skip (suc f) (n_bytes_code ∷ (encode_uint n ++ (b ++ t))) ≡ done tt t
unfolding skip read_byte
skip_sized f n b t h e =
    let read : read_bytes n (b ++ t) ≡ done b t = rw e at (read_bytes-append b t) in
    ap (λ r. r >>= λ m u. read_bytes m u >>= λ _ w. done tt w)
      (decode_uint-encode_uint n (b ++ t) h)
    ∙ ap (λ r. r >>= λ _ w. done tt w) read

skip-encode_uint : (f u : ℕ) (t : Text) → skip (suc f) (encode_uint u ++ t) ≡ done tt t
unfolding skip read_byte encode_uint
skip-encode_uint f u t = elim (Bool-cases (ltb u end_code)) [
  | inl small ↦ rw (encode_uint, small) (rw (skip, small) refl)
  | inr large ↦ elim (Bool-cases (leb u (2 ^ 32 - 1))) [
    | inl four ↦
        rw (encode_uint, large, four)
          (skip_sized f 4 (little_endian 4 u) t (omega arith) (length-little_endian 4 u))
    | inr eight ↦
        rw (encode_uint, large, eight)
          (skip_sized f 8 (little_endian 8 u) t (omega arith) (length-little_endian 8 u))
  ]
]

-- No encoded value begins like the end of a struct.
abbrev Begins : Text → Type 0
Begins s = (b : ℕ) × (r : Text) × (s ≡ b ∷ r) × ((b == end_code) ≡ false)

uint-Begins : (u : ℕ) (t : Text) → Begins (encode_uint u ++ t)
unfolding encode_uint
uint-Begins u t = elim (Bool-cases (ltb u end_code)) [
  | inl small ↦ (u, t, rw (encode_uint, small) refl, ground arith)
  | inr large ↦ elim (Bool-cases (leb u (2 ^ 32 - 1))) [
    | inl four ↦
        (n_bytes_code, 4 ∷ (little_endian 4 u ++ t), rw (encode_uint, large, four) refl, refl)
    | inr eight ↦
        (n_bytes_code, 8 ∷ (little_endian 8 u ++ t), rw (encode_uint, large, eight) refl, refl)
  ]
]

encode-Begins : (v : Value) (t : Text) → Begins (encode v ++ t)
unfolding encode encode_nil encode_bytes encode_len start_list
encode-Begins nil t = (_, _, refl, refl)
encode-Begins (uint u) t = uint-Begins u t
encode-Begins (bytes b) t = (_, _, refl, refl)
encode-Begins (list vs) t = (_, _, refl, refl)
encode-Begins (ref u) t = (_, _, refl, refl)
encode-Begins (struct vs) t = (_, _, refl, refl)

skip_fields_more :
    (f : ℕ) (s : Text) → Begins s → skip_fields (suc f) s ≡ (skip f s >>= λ _ t. skip_fields f t)
unfolding skip cur_byte
skip_fields_more f s (b, r, e, more) = rw e (rw (skip_fields, more) refl)

calls_pos : (v : Value) → 0 < calls v
unfolding calls
calls_pos nil = omega arith
calls_pos (uint u) = omega arith
calls_pos (bytes b) = omega arith
calls_pos (list vs) = omega arith
calls_pos (ref u) = omega arith
calls_pos (struct vs) = omega arith

calls_all_pos : (vs : Values) → 0 < calls_all vs
unfolding calls
calls_all_pos end = omega arith
calls_all_pos (next v vs) = omega arith

mutual
  unfolding skip encode calls Fits read_byte cur_byte encode_bytes encode_len start_list encode_nil

  past :
      (v : Value) (f : ℕ) (t : Text)
      → calls v ≤ suc f
      → Fits v
      → skip (suc f) (encode v ++ t) ≡ done tt t
  past nil f t c h = refl
  past (uint u) f t c h = skip-encode_uint f u t
  past (bytes b) f t c h =
      ap (λ s. skip (suc f) (n_bytes_code ∷ s)) (append_assoc (encode_uint (length b)) b t)
      ∙ skip_sized f (length b) b t (omega arith) refl
  past (list vs) f t c h =
      let few : rounds (count vs) ≡ count vs = ground (arith, h.0) in
      ap (λ s. skip (suc f) (n_values_code ∷ s))
        (append_assoc (encode_uint (count vs)) (encode_all vs) t)
      ∙ ap (λ r. r >>= λ n u. skip_values f (rounds n) u)
          (decode_uint-encode_uint (count vs) (encode_all vs ++ t) (omega (arith, h.0)))
      ∙ ap (λ n. skip_values f n (encode_all vs ++ t)) few
      ∙ past_values vs f t (omega arith) h.1
  past (ref u) f t c h = ap (λ r. r >>= λ _ w. done tt w) (decode_uint-encode_uint u t h)
  past (struct vs) f t c h =
      ap (λ s. skip (suc f) (start_code ∷ s)) (append_assoc (encode_all vs) (end_code ∷ []) t)
      ∙ past_fields vs f t (omega arith) h

  past_values :
      (vs : Values) (f : ℕ) (t : Text)
      → calls_all vs ≤ f
      → AllFit vs
      → skip_values f (count vs) (encode_all vs ++ t) ≡ done tt t
  past_values end zero t c h = absurd (omega arith)
  past_values end (suc f) t c h = refl
  past_values (next v vs) zero t c h = absurd (omega arith)
  past_values (next v vs) (suc zero) t c h = absurd (omega (arith, calls_pos v))
  past_values (next v vs) (suc (suc f)) t c h =
      ap (λ s. skip (suc f) s >>= λ _ u. skip_values (suc f) (count vs) u)
        (append_assoc (encode v) (encode_all vs) t)
      ∙ ap (λ r. r >>= λ _ u. skip_values (suc f) (count vs) u)
          (past v f (encode_all vs ++ t) (omega (arith, calls_all_pos vs)) h.0)
      ∙ past_values vs (suc f) t (omega (arith, calls_pos v)) h.1

  past_fields :
      (vs : Values) (f : ℕ) (t : Text)
      → calls_all vs ≤ f
      → AllFit vs
      → skip_fields f (encode_all vs ++ end_code ∷ t) ≡ done tt t
  past_fields end zero t c h = absurd (omega arith)
  past_fields end (suc f) t c h = refl
  past_fields (next v vs) zero t c h = absurd (omega arith)
  past_fields (next v vs) (suc zero) t c h = absurd (omega (arith, calls_pos v))
  past_fields (next v vs) (suc (suc f)) t c h =
      ap (skip_fields (suc (suc f))) (append_assoc (encode v) (encode_all vs) (end_code ∷ t))
      ∙ skip_fields_more (suc f) _ (encode-Begins v (encode_all vs ++ end_code ∷ t))
      ∙ ap (λ r. r >>= λ _ u. skip_fields (suc f) u)
          (past v f (encode_all vs ++ end_code ∷ t) (omega (arith, calls_all_pos vs)) h.0)
      ∙ past_fields vs (suc f) t (omega (arith, calls_pos v)) h.1

-- Whatever follows a value that the encoder wrote, `skip` reads the value and no more: a decoder
-- that does not know a field finds the next one. Numbers are uint64, lengths are ints.
pub skip-encode :
    (v : Value) (f : ℕ) (t : Text) → Fits v → skip (calls v + f) (encode v ++ t) ≡ done tt t
skip-encode v f t h =
    let fuel : calls v + f ≡ suc (calls v + f - 1) = omega (arith, calls_pos v) in
    rw fuel (past v (calls v + f - 1) t (omega (arith, calls_pos v)) h)
