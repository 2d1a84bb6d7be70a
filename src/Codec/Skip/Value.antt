-- ===== src/Codec/Skip/Value.antt =====
-- The values of the wire format, and that `skip` reads past each of them.
use pkgsite.Prelude.{ℕ, suc, ◌+◌, ◌^◌, ◌<◌, [], ◌∷◌, ◌++◌, Text, length}
use pkgsite.Codec.{
  encode_uint, encode_bytes, encode_nil, start_list, u64_mod, ref_code, start_code, end_code,
}

-- A struct is a sequence of values too, field numbers and fields by turns.
mutual
  pub data Value : Type 0 where
    nil : Value
    uint : ℕ → Value
    bytes : Text → Value
    list : Values → Value
    ref : ℕ → Value
    struct : Values → Value

  pub data Values : Type 0 where
    end : Values
    next : Value → Values → Values

abbrev pub count : Values → ℕ
count end = 0
count (next v vs) = suc (count vs)

-- What the encoder writes for a value.
unfoldable mutual
  pub encode : Value → Text
  encode nil = encode_nil
  encode (uint u) = encode_uint u
  encode (bytes b) = encode_bytes b
  encode (list vs) = start_list (count vs) ++ encode_all vs
  encode (ref u) = ref_code ∷ encode_uint u
  encode (struct vs) = start_code ∷ (encode_all vs ++ end_code ∷ [])

  pub encode_all : Values → Text
  encode_all end = []
  encode_all (next v vs) = encode v ++ encode_all vs

-- All numbers are uint64, and all lengths are ints.
unfoldable mutual
  pub Fits : Value → Type 0
  Fits nil = Unit
  Fits (uint u) = u < u64_mod
  Fits (bytes b) = length b < 2 ^ 63
  Fits (list vs) = (count vs < 2 ^ 63) × AllFit vs
  Fits (ref u) = u < u64_mod
  Fits (struct vs) = AllFit vs

  pub AllFit : Values → Type 0
  AllFit end = Unit
  AllFit (next v vs) = Fits v × AllFit vs

-- The calls that `skip` nests for a value.
unfoldable mutual
  pub calls : Value → ℕ
  calls nil = 1
  calls (uint u) = 1
  calls (bytes b) = 1
  calls (list vs) = suc (calls_all vs)
  calls (ref u) = 1
  calls (struct vs) = suc (calls_all vs)

  pub calls_all : Values → ℕ
  calls_all end = 1
  calls_all (next v vs) = suc (calls v + calls_all vs)
