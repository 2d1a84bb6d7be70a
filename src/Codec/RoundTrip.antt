-- ===== src/Codec/RoundTrip.antt =====
-- What the decoder reads of what the encoder writes.
use pkgsite.Prelude.{
  ℕ, zero, suc, ◌+◌, ◌-◌, ◌*◌, ◌/◌, ◌%◌, ◌^◌, ◌≤◌, ◌<◌, true, false, [], ◌∷◌, ◌++◌, Text, ◌≡◌, refl,
  ap, ◌∙◌, inl, inr, arith, length, take, drop, leb, ltb, ◌==◌, Bool-cases, append_assoc,
}
use pkgsite.Prelude.Int.{ℤ, pos, negsuc}
use pkgsite.Codec.{
  done, ◌>>=◌, read_byte, read_bytes, little_endian, from_little_endian, encode_uint, decode_sized,
  decode_uint, encode_int, decode_int, encode_len, decode_len, encode_bytes, decode_bytes, u64_mod,
  as_uint64, complement, end_code,
}

pub length-little_endian : (n u : ℕ) → length (little_endian n u) ≡ n
unfolding little_endian
length-little_endian zero u = refl
length-little_endian (suc n) u = ap suc (length-little_endian n (u / 256))

take-append : (s t : Text) → take (length s) (s ++ t) ≡ s
take-append [] t = refl
take-append (x ∷ s) t = ap (λ l. x ∷ l) (take-append s t)

drop-append : (s t : Text) → drop (length s) (s ++ t) ≡ t
drop-append [] t = refl
drop-append (x ∷ s) t = drop-append s t

le-append : (s t : Text) → length s ≤ length (s ++ t)
le-append [] t = omega arith
le-append (x ∷ s) t = omega (arith, le-append s t)

pub read_bytes-append : (s t : Text) → read_bytes (length s) (s ++ t) ≡ done s t
unfolding read_bytes
read_bytes-append s t =
    let enough : leb (length s) (length (s ++ t)) ≡ true = ground (arith, le-append s t) in
    rw (read_bytes, enough, take-append s t, drop-append s t) refl

from_little_endian_4 : (u : ℕ) → u < 2 ^ 32 → from_little_endian (little_endian 4 u) ≡ u
unfolding from_little_endian little_endian
from_little_endian_4 u h = omega arith

from_little_endian_8 : (u : ℕ) → u < u64_mod → from_little_endian (little_endian 8 u) ≡ u
unfolding from_little_endian little_endian
from_little_endian_8 u h = omega arith

decode_sized_4 :
    (u : ℕ) (t : Text) → u < 2 ^ 32 → decode_sized 4 (little_endian 4 u ++ t) ≡ done u t
unfolding decode_sized
decode_sized_4 u t h =
    let read : read_bytes 4 (little_endian 4 u ++ t) ≡ done (little_endian 4 u) t =
      rw (length-little_endian 4 u) at (read_bytes-append (little_endian 4 u) t) in
    rw (decode_sized, read, from_little_endian_4 u h) refl

decode_sized_8 :
    (u : ℕ) (t : Text) → u < u64_mod → decode_sized 8 (little_endian 8 u ++ t) ≡ done u t
unfolding decode_sized
decode_sized_8 u t h =
    let read : read_bytes 8 (little_endian 8 u ++ t) ≡ done (little_endian 8 u) t =
      rw (length-little_endian 8 u) at (read_bytes-append (little_endian 8 u) t) in
    rw (decode_sized, read, from_little_endian_8 u h) refl

-- A uint64 that is encoded, whatever follows, is decoded.
pub decode_uint-encode_uint :
    (u : ℕ) (t : Text) → u < u64_mod → decode_uint (encode_uint u ++ t) ≡ done u t
unfolding decode_uint encode_uint
decode_uint-encode_uint u t h = elim (Bool-cases (ltb u end_code)) [
  | inl small ↦ rw (encode_uint, small) (rw (decode_uint, small) refl)
  | inr large ↦ elim (Bool-cases (leb u (2 ^ 32 - 1))) [
    | inl four ↦ rw (encode_uint, large, four) (decode_sized_4 u t (ground arith))
    | inr eight ↦ rw (encode_uint, large, eight) (decode_sized_8 u t h)
  ]
]

-- The values of an int64.
abbrev pub IsInt64 : ℤ → Type 0
IsInt64 (pos n) = n < 2 ^ 63
IsInt64 (negsuc n) = n < 2 ^ 63

-- Every int64 that is encoded, whatever follows, is decoded.
pub decode_int-encode_int :
    (i : ℤ) (t : Text) → IsInt64 i → decode_int (encode_int i ++ t) ≡ done i t
unfolding decode_int encode_int
decode_int-encode_int (pos n) t h =
    let shifted : n * 2 % u64_mod ≡ n * 2 = omega arith in
    let even : (n * 2 % 2 == 1) ≡ false = ground arith in
    let back : n * 2 / 2 ≡ n = omega arith in
    let positive : ltb n (2 ^ 63) ≡ true = ground arith in
    rw
      (
        encode_int,
        shifted,
        decode_int,
        decode_uint-encode_uint (n * 2) t (omega arith),
        even,
        back,
        positive,
      )
      refl
decode_int-encode_int (negsuc n) t h =
    let flipped : complement (as_uint64 (negsuc n)) ≡ n = omega arith in
    let shifted : n * 2 % u64_mod ≡ n * 2 = omega arith in
    let odd : ((n * 2 + 1) % 2 == 1) ≡ true = ground arith in
    let back : (n * 2 + 1) / 2 ≡ n = omega arith in
    let negative : ltb (complement n) (2 ^ 63) ≡ false = ground arith in
    let again : u64_mod - 1 - complement n ≡ n = omega arith in
    rw
      (
        encode_int,
        flipped,
        shifted,
        decode_int,
        decode_uint-encode_uint (n * 2 + 1) t (omega arith),
        odd,
        back,
        negative,
        again,
      )
      refl

pub decode_len-encode_len :
    (n : ℕ) (t : Text) → n < u64_mod → decode_len (encode_len n ++ t) ≡ done n t
unfolding decode_len encode_len read_byte
decode_len-encode_len n t h = decode_uint-encode_uint n t h

-- A string or a slice of bytes that is encoded, whatever follows, is decoded.
pub decode_bytes-encode_bytes :
    (b t : Text) → length b < u64_mod → decode_bytes (encode_bytes b ++ t) ≡ done b t
unfolding decode_bytes encode_bytes
decode_bytes-encode_bytes b t h =
    ap (λ s. decode_len s >>= read_bytes) (append_assoc (encode_len (length b)) b t)
    ∙ ap (λ r. r >>= read_bytes) (decode_len-encode_len (length b) (b ++ t) h)
    ∙ read_bytes-append b t
