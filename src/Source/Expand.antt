-- ===== src/Source/Expand.antt =====
-- `expand` of internal/source/source.go, for templates made of plain text and of variables.
use pkgsite.Prelude.{
  ℕ, suc, false, List, [], ◌∷◌, ◌++◌, Text, Option, none, some, ◌≡◌, refl, arith, text_eq,
  text_eq_iff, has_prefix, count_byte, length, if◌then◌else◌, ◌==◌, ap, ◌∙◌,
}
use pkgsite.Source.{key_at, expand_from, expand}

-- A piece of a template: plain text, or a variable, which stands in braces.
pub data Piece : Type 0 where
  plain : Text → Piece
  variable : Text → Piece

abbrev pub print : List Piece → Text
print [] = []
print (plain s ∷ ps) = s ++ print ps
print (variable k ∷ ps) = b'{' ∷ (k ++ b'}' ∷ print ps)

-- The first entry with the key.
unfoldable pub lookup : List (Text × Text) → Text → Option (Text × Text)
unfolding text_eq
lookup [] k = none
lookup ((j, v) ∷ m) k = let rest = lookup m k in if text_eq j k then some (j, v) else rest

-- Each variable by its value; one without a value stays.
abbrev pub substitute : List (Text × Text) → List Piece → Text
substitute m [] = []
substitute m (plain s ∷ ps) = s ++ substitute m ps
substitute m (variable k ∷ ps) = elim (lookup m k) [
  | some p ↦ p.1 ++ substitute m ps
  | none ↦ b'{' ∷ (k ++ b'}' ∷ substitute m ps)
]

-- Plain text has no opening brace, a variable none at all.
abbrev pub IsTemplate : List Piece → Type 0
IsTemplate [] = Unit
IsTemplate (plain s ∷ ps) = (count_byte s b'{' ≡ 0) × IsTemplate ps
IsTemplate (variable k ∷ ps) = (count_byte k b'{' ≡ 0) × ((count_byte k b'}' ≡ 0) × IsTemplate ps)

-- No key has a closing brace.
abbrev pub HasKeys : List (Text × Text) → Type 0
HasKeys [] = Unit
HasKeys ((k, v) ∷ m) = (count_byte k b'}' ≡ 0) × HasKeys m

key_at-none :
    (m : List (Text × Text)) (c : ℕ) (s : Text) → (c == b'{') ≡ false → key_at m (c ∷ s) ≡ none
unfolding key_at has_prefix
key_at-none [] c s h = refl
key_at-none ((k, v) ∷ m) c s h = ground (arith, key_at-none m c s h)

expand_from-plain :
    (s t : Text) (m : List (Text × Text))
    → count_byte s b'{' ≡ 0
    → expand_from (s ++ t) m 0 ≡ s ++ expand_from t m 0
unfolding expand_from count_byte
expand_from-plain [] t m h = refl
expand_from-plain (c ∷ s) t m h = ground (arith, key_at-none m c (s ++ t), expand_from-plain s t m)

expand_from-skip :
    (s : Text) (b : ℕ) (t : Text) (m : List (Text × Text))
    → expand_from (s ++ b ∷ t) m (suc (length s)) ≡ expand_from t m 0
unfolding expand_from
expand_from-skip [] b t m = refl
expand_from-skip (c ∷ s) b t m = expand_from-skip s b t m

-- A key with its closing brace is in front exactly when it is the variable's name.
prefix_key :
    (k j t : Text)
    → count_byte k b'}' ≡ 0
    → count_byte j b'}' ≡ 0
    → has_prefix (k ++ b'}' ∷ t) (j ++ b'}' ∷ []) ≡ text_eq j k
unfolding has_prefix text_eq count_byte
prefix_key [] [] t h i = refl
prefix_key [] (d ∷ j) t h i = ground arith
prefix_key (c ∷ k) [] t h i = ground arith
prefix_key (c ∷ k) (d ∷ j) t h i = ground (arith, prefix_key k j t)

key_at-lookup :
    (m : List (Text × Text)) (k t : Text)
    → HasKeys m
    → count_byte k b'}' ≡ 0
    → key_at m (b'{' ∷ (k ++ b'}' ∷ t)) ≡ lookup m k
unfolding key_at lookup has_prefix
key_at-lookup [] k t h i = refl
key_at-lookup ((j, v) ∷ m) k t h i = rw (prefix_key k j t i h.0, key_at-lookup m k t h.1 i) refl

lookup-key : (m : List (Text × Text)) (k : Text) (p : Text × Text) → lookup m k ≡ some p → p.0 ≡ k
unfolding lookup
lookup-key [] k p e = cc
lookup-key ((j, v) ∷ m) k p e = ground (arith, lookup-key m k p, text_eq_iff j k)

module _ (m : List (Text × Text)) (keys : HasKeys m) where
  -- A variable that is in front.
  expand_from-variable :
      (k t r : Text)
      → count_byte k b'{' ≡ 0
      → count_byte k b'}' ≡ 0
      → expand_from t m 0 ≡ r
      → expand_from (b'{' ∷ (k ++ b'}' ∷ t)) m 0
        ≡ (elim (lookup m k) [ some p ↦ p.1 ++ r | none ↦ b'{' ∷ (k ++ b'}' ∷ r) ])
  unfolding expand_from
  expand_from-variable k t r h i tail =
      rw (expand_from, key_at-lookup m k t keys i) (go (lookup m k) refl)
    where
      close : expand_from (b'}' ∷ t) m 0 ≡ b'}' ∷ r
      close = rw (expand_from, key_at-none m b'}' t refl) (ap (λ x. b'}' ∷ x) tail)

      go :
          (o : Option (Text × Text))
          → lookup m k ≡ o
          → (elim o [
            | some p ↦ p.1 ++ expand_from (k ++ b'}' ∷ t) m (suc (length p.0))
            | none ↦ b'{' ∷ expand_from (k ++ b'}' ∷ t) m 0
          ])
            ≡ (elim o [ some p ↦ p.1 ++ r | none ↦ b'{' ∷ (k ++ b'}' ∷ r) ])
      go none e = rw (expand_from-plain k (b'}' ∷ t) m h, close) refl
      go (some p) e =
          ap (λ x. p.1 ++ x) (rw (lookup-key m k p e) (expand_from-skip k b'}' t m) ∙ tail)

  expand_from-substitute :
      (ps : List Piece) → IsTemplate ps → expand_from (print ps) m 0 ≡ substitute m ps
  unfolding expand_from
  expand_from-substitute [] h = refl
  expand_from-substitute (plain s ∷ ps) h =
      expand_from-plain s (print ps) m h.0 ∙ ap (λ x. s ++ x) (expand_from-substitute ps h.1)
  expand_from-substitute (variable k ∷ ps) h =
      expand_from-variable k (print ps) (substitute m ps) h.0 h.1.0
        (expand_from-substitute ps h.1.1)

  -- Expanding a template replaces each of its variables by its value, once, and leaves the rest as it
  -- is: no value is expanded again. A variable without a value stays. Keys have no closing brace,
  -- plain text has no opening one and a variable's name has none.
  pub expand-substitute : (ps : List Piece) → IsTemplate ps → expand (print ps) m ≡ substitute m ps
  unfolding expand
  expand-substitute ps h = expand_from-substitute ps h
