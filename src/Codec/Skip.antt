-- ===== src/Codec/Skip.antt =====
-- `skip` of internal/godoc/codec/codec.go, which a decoder runs on a field that it does not know.
pub mod Value
pub mod Terminates
pub mod Past
use pkgsite.Prelude.{ℕ, zero, suc, ◌==◌, ltb, drop, Text, if◌then◌else◌, ◌^◌}
use pkgsite.Codec.{
  Read, done, failed, panicked, out_of_fuel, ◌>>=◌, read_byte, cur_byte, read_bytes, decode_uint,
  nil_code, n_bytes_code, n_values_code, ref_code, start_code, end_code,
}

-- `int(d.DecodeUint())` as a count of rounds: it is negative from 2 ^ 63 on.
abbrev pub rounds : ℕ → ℕ
rounds n = if ltb n (2 ^ 63) then n else 0

-- The fuel counts the nested calls, `skip_values` is the loop for a list, and `skip_fields` the one
-- for a struct.
unfoldable mutual
  unfolding read_byte cur_byte

  pub skip : ℕ → Text → Read (Unit {0})
  skip zero s = out_of_fuel
  skip (suc f) s = elim (read_byte s) [
    | done b r ↦
        let list : Read (Unit {0}) = decode_uint r >>= λ n t. skip_values f (rounds n) t in
        let fields = skip_fields f r in
        if ltb b end_code
        then done tt r
        else if b == nil_code
        then done tt r
        else if b == n_bytes_code
        then (decode_uint r >>= λ n t. read_bytes n t >>= λ _ u. done tt u)
        else if b == n_values_code
        then list
        else if b == ref_code
        then (decode_uint r >>= λ _ t. done tt t)
        else if b == start_code
        then fields
        else failed
    | failed ↦ failed
    | panicked ↦ panicked
    | out_of_fuel ↦ out_of_fuel
  ]

  pub skip_values : ℕ → ℕ → Text → Read (Unit {0})
  skip_values zero n s = out_of_fuel
  skip_values (suc f) zero s = done tt s
  skip_values (suc f) (suc n) s = skip f s >>= λ _ t. skip_values f n t

  pub skip_fields : ℕ → Text → Read (Unit {0})
  skip_fields zero s = out_of_fuel
  skip_fields (suc f) s = elim (cur_byte s) [
    | done b r ↦
        let more : Read (Unit {0}) = skip f r >>= λ _ t. skip_fields f t in
        if b == end_code then done tt (drop 1 r) else more
    | failed ↦ failed
    | panicked ↦ panicked
    | out_of_fuel ↦ out_of_fuel
  ]
