-- ===== src/Prelude/Bytes.antt =====
-- Go's strings as lists of bytes, with the functions of package strings that the program calls.
use Prim.Native.Char.{code}
use Prim.Native.Nat.{ℕ, ◌+◌, ◌-◌, ◌≤◌}
use Prim.Native.String.{String}
use mathlib.Core.Bool.{Bool, true, false, ◌&&◌, ◌||◌}
use mathlib.Core.List.{List, [], ◌∷◌, ◌++◌}
use mathlib.Core.Logic.{◌↔◌}
use mathlib.Core.Path.{◌≡◌, refl}
use native.Mathlib.Omega.{arith}
use pkgsite.Prelude.Lists.{length, take, drop}
use pkgsite.Prelude.Tests.{leb, ◌==◌, if◌then◌else◌}

abbrev pub Text : Type 0
Text = List ℕ

-- The code points of a literal: its bytes, since the program's literals are ASCII.
abbrev pub codes : String → Text
codes String.[] = []
codes (String.◌∷◌ c s) = code c ∷ codes s

unfoldable pub text_eq : Text → Text → Bool
text_eq [] [] = true
text_eq [] (d ∷ t) = false
text_eq (c ∷ s) [] = false
text_eq (c ∷ s) (d ∷ t) = (c == d) && text_eq s t

text_eq_sound : (s t : Text) → text_eq s t ≡ true → s ≡ t
unfolding text_eq
text_eq_sound [] [] h = refl
text_eq_sound [] (d ∷ t) h = cc
text_eq_sound (c ∷ s) [] h = cc
text_eq_sound (c ∷ s) (d ∷ t) h = ground (arith, text_eq_sound s t)

pub text_eq_refl : (s : Text) → text_eq s s ≡ true
unfolding text_eq
text_eq_refl [] = refl
text_eq_refl (c ∷ s) = ground (arith, text_eq_refl s)

pub text_eq_iff : (s t : Text) → (text_eq s t ≡ true) ↔ (s ≡ t)
text_eq_iff s t = (text_eq_sound s t, λ e. rw (← e) (text_eq_refl s))

abbrev pub is_empty : Text → Bool
is_empty [] = true
is_empty (c ∷ s) = false

unfoldable pub has_prefix : Text → Text → Bool
has_prefix s [] = true
has_prefix [] (d ∷ p) = false
has_prefix (c ∷ s) (d ∷ p) = (c == d) && has_prefix s p

unfoldable pub has_suffix : Text → Text → Bool
unfolding text_eq
has_suffix s p = leb (length p) (length s) && text_eq (drop (length s - length p) s) p

pub has_prefix-length : (s p : Text) → has_prefix s p ≡ true → length p ≤ length s
unfolding has_prefix
has_prefix-length s [] h = omega arith
has_prefix-length [] (d ∷ p) h = cc
has_prefix-length (c ∷ s) (d ∷ p) h = ground (arith, has_prefix-length s p)

unfoldable pub trim_prefix : Text → Text → Text
unfolding has_prefix
trim_prefix s p = if has_prefix s p then drop (length p) s else s

unfoldable pub trim_suffix : Text → Text → Text
unfolding has_suffix
trim_suffix s p = if has_suffix s p then take (length s - length p) s else s

-- `strings.Contains`.
unfoldable pub contains_text : Text → Text → Bool
unfolding has_prefix
contains_text [] t = is_empty t
contains_text (c ∷ s) t = has_prefix (c ∷ s) t || contains_text s t

-- `strings.Count` for a text of one byte.
unfoldable pub count_byte : Text → ℕ → ℕ
count_byte [] b = 0
count_byte (c ∷ s) b = (if c == b then 1 else 0) + count_byte s b

-- `strings.Cut` at a separator of one byte.
unfoldable pub cut : Text → ℕ → Text × Text × Bool
cut [] sep = ([], [], false)
cut (c ∷ s) sep =
    let rest = cut s sep in if c == sep then ([], s, true) else (c ∷ rest.0, rest.1, rest.2)

abbrev pub push_head : ℕ → List Text → List Text
push_head c [] = (c ∷ []) ∷ []
push_head c (p ∷ ps) = (c ∷ p) ∷ ps

pub push_head-nonempty : (c : ℕ) (ps : List Text) → push_head c ps ≡ [] → ⊥
push_head-nonempty c [] e = cc
push_head-nonempty c (p ∷ ps) e = cc

-- `strings.Split` at a separator of one byte.
unfoldable pub split : Text → ℕ → List Text
split [] sep = [] ∷ []
split (c ∷ s) sep = let rest = split s sep in if c == sep then [] ∷ rest else push_head c rest

unfoldable pub join : List Text → Text → Text
join [] sep = []
join (p ∷ []) sep = p
join (p ∷ q ∷ ps) sep = p ++ (sep ++ join (q ∷ ps) sep)

unfoldable pub is_digit : ℕ → Bool
is_digit c = leb b'0' c && leb c b'9'
