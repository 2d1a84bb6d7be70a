-- ===== src/Codec.antt =====
-- internal/godoc/codec/codec.go: the wire format of encoded documentation. An encoder's buffer is
-- the list of bytes written so far; a decoder's is what it has yet to read, `buf[i:]`. Values of
-- registered types, which reflection and generated code encode, are left out.
pub mod RoundTrip
pub mod Skip
use pkgsite.Prelude.{
  ℕ, zero, suc, ◌+◌, ◌-◌, ◌*◌, ◌/◌, ◌%◌, ◌^◌, Bool, true, false, [], ◌∷◌, ◌++◌, Text, Option, none,
  some, length, take, drop, leb, ltb, ◌==◌, if◌then◌else◌,
}
use pkgsite.Prelude.Int.{ℤ, pos, negsuc}

-- What a call of the decoder does: a result with the rest of the input, an error of this package
-- (`failf`), which `Decode` returns, or a panic for an index out of range, which it passes on.
pub data Read (A : Type 0) : Type 0 where
  done : A → Text → Read A
  failed : Read A
  panicked : Read A
  out_of_fuel : Read A

infixl 5 ◌>>=◌
abbrev pub ◌>>=◌ : {A B : Type 0} → Read A → (A → Text → Read B) → Read B
done a s >>= f = f a s
failed >>= f = failed
panicked >>= f = panicked
out_of_fuel >>= f = out_of_fuel

-- The codes.
abbrev pub nil_code : ℕ
nil_code = 255

abbrev pub n_bytes_code : ℕ
n_bytes_code = 247

abbrev pub n_values_code : ℕ
n_values_code = 246

abbrev pub ref_code : ℕ
ref_code = 245

abbrev pub start_code : ℕ
start_code = 244

abbrev pub end_code : ℕ
end_code = 243

abbrev pub u64_mod : ℕ
u64_mod = 2 ^ 64

-- `readByte` and `curByte`.
unfoldable pub read_byte : Text → Read ℕ
read_byte [] = panicked
read_byte (b ∷ s) = done b s

unfoldable pub cur_byte : Text → Read ℕ
cur_byte [] = panicked
cur_byte (b ∷ s) = done b (b ∷ s)

-- `readBytes`: a buffer has no room behind its bytes. An n that is too large for an int is negative
-- as one, for which the slice expression panics too.
unfoldable pub read_bytes : ℕ → Text → Read Text
read_bytes n s = if leb n (length s) then done (take n s) (drop n s) else panicked

-- `binary.LittleEndian`: n bytes.
unfoldable pub little_endian : ℕ → ℕ → Text
little_endian zero u = []
little_endian (suc n) u = (u % 256) ∷ little_endian n (u / 256)

unfoldable pub from_little_endian : Text → ℕ
from_little_endian [] = 0
from_little_endian (b ∷ s) = b + 256 * from_little_endian s

-- `EncodeUint`.
unfoldable pub encode_uint : ℕ → Text
unfolding little_endian
encode_uint u =
    if ltb u end_code
    then u ∷ []
    else if leb u (2 ^ 32 - 1)
    then n_bytes_code ∷ 4 ∷ little_endian 4 u
    else n_bytes_code ∷ 8 ∷ little_endian 8 u

-- The rest of `DecodeUint`, once the length is read.
unfoldable pub decode_sized : ℕ → Text → Read ℕ
unfolding read_bytes from_little_endian
decode_sized n s =
    if n == 4
    then (read_bytes 4 s >>= λ b r. done (from_little_endian b) r)
    else if n == 8
    then (read_bytes 8 s >>= λ b r. done (from_little_endian b) r)
    else failed

unfoldable pub decode_uint : Text → Read ℕ
unfolding read_byte decode_sized
decode_uint s = read_byte s >>= λ b r.
    if ltb b end_code
    then done b r
    else if b == n_bytes_code
    then (read_byte r >>= decode_sized)
    else failed

-- Go's conversions between int64 and uint64, and ^.
abbrev pub as_uint64 : ℤ → ℕ
as_uint64 (pos n) = n
as_uint64 (negsuc n) = u64_mod - 1 - n

abbrev pub as_int64 : ℕ → ℤ
as_int64 u = if ltb u (2 ^ 63) then pos u else negsuc (u64_mod - 1 - u)

abbrev pub complement : ℕ → ℕ
complement u = u64_mod - 1 - u

abbrev pub is_negative : ℤ → Bool
is_negative (pos n) = false
is_negative (negsuc n) = true

-- `EncodeInt`: the lowest bit is 0 after the shift, so that `| 1` adds 1.
unfoldable pub encode_int : ℤ → Text
unfolding encode_uint
encode_int i = encode_uint (
    if is_negative i then complement (as_uint64 i) * 2 % u64_mod + 1 else as_uint64 i * 2 % u64_mod)

unfoldable pub decode_int : Text → Read ℤ
unfolding decode_uint
decode_int s = decode_uint s >>= λ u r.
    if u % 2 == 1 then done (as_int64 (complement (u / 2))) r else done (as_int64 (u / 2)) r

-- `encodeLen` and `decodeLen`.
unfoldable pub encode_len : ℕ → Text
unfolding encode_uint
encode_len n = n_bytes_code ∷ encode_uint n

unfoldable pub decode_len : Text → Read ℕ
unfolding read_byte decode_uint
decode_len s = read_byte s >>= λ b r. if b == n_bytes_code then decode_uint r else failed

-- `EncodeBytes` and `EncodeString`; `DecodeBytes` and `DecodeString`.
unfoldable pub encode_bytes : Text → Text
unfolding encode_len
encode_bytes b = encode_len (length b) ++ b

unfoldable pub decode_bytes : Text → Read Text
unfolding decode_len read_bytes
decode_bytes s = decode_len s >>= read_bytes

unfoldable pub encode_bool : Bool → Text
encode_bool b = (if b then 1 else 0) ∷ []

unfoldable pub decode_bool : Text → Read Bool
unfolding read_byte
decode_bool s =
    read_byte s >>= λ b r. if b == 0 then done false r else if b == 1 then done true r else failed

unfoldable pub encode_nil : Text
encode_nil = nil_code ∷ []

-- `StartList` of the encoder, and of the decoder, where `negsuc 0` is -1, a nil list.
unfoldable pub start_list : ℕ → Text
unfolding encode_uint
start_list n = n_values_code ∷ encode_uint n

unfoldable pub read_list : Text → Read ℤ
unfolding read_byte decode_uint
read_list s = read_byte s >>= λ b r.
    if b == nil_code
    then done (negsuc 0) r
    else if b == n_values_code
    then (decode_uint r >>= λ n t. done (as_int64 n) t)
    else failed

-- `NextStructField`: `none` is -1.
unfoldable pub next_struct_field : Text → Read (Option ℕ)
unfolding cur_byte decode_uint
next_struct_field s = cur_byte s >>= λ b r.
    if b == end_code then done none (drop 1 r) else (decode_uint r >>= λ n t. done (some n) t)
