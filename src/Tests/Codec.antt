-- ===== src/Tests/Codec.antt =====
-- Examples of internal/godoc/codec.
use pkgsite.Prelude.{◌∷◌, [], ◌++◌, ◌+◌, ◌*◌, ◌≢◌, Text, codes, ◌≡◌, arith, length}
use pkgsite.Codec.{done, out_of_fuel, n_values_code, nil_code, end_code}
use pkgsite.Codec.Skip.{skip}
use pkgsite.Codec.Skip.Value.{Value, Fits, uint, bytes, list, ref, struct, end, next, encode, calls}
use pkgsite.Codec.Skip.Past.{skip-encode}
use pkgsite.Codec.Skip.Terminates.{skip_terminates}

abbrev position : Value
position = struct (next (uint 0) (next (list (next (ref 300) (next (bytes (codes "x")) end))) end))

skip-encode_example :
    skip (calls position + 0) (encode position ++ end_code ∷ []) ≡ done tt (end_code ∷ [])
unfolding Fits
skip-encode_example =
    skip-encode position 0 (end_code ∷ [])
      (omega arith, ((omega arith, (omega arith, (omega arith, tt))), tt))

abbrev cut_short : Text
cut_short = n_values_code ∷ 3 ∷ nil_code ∷ []

skip_terminates_example : skip (2 * length cut_short + 1) cut_short ≢ out_of_fuel
skip_terminates_example = skip_terminates cut_short
