-- ===== src/Paths/Candidates/Rootless.antt =====
-- `path.Dir` of a path with no leading slash has none either.
use pkgsite.Prelude.{
  ℕ, Bool, false, ◌≡◌, refl, inl, inr, List, [], ◌∷◌, ◌++◌, Text, arith, codes, has_prefix,
  is_empty, split, push_head, ◌==◌, Bool-cases,
}
use pkgsite.Paths.Candidates.Dir.{
  clean_step, clean_elements, join_kept, finish, clean, dir_part, dir,
}

abbrev pub Rootless : Text → Type 0
Rootless p = has_prefix p (codes "/") ≡ false

-- The elements of a path, none of which starts with a slash.
abbrev AllRootless : List Text → Type 0
AllRootless [] = Unit
AllRootless (e ∷ es) = Rootless e × AllRootless es

abbrev AllKept : List Text → Type 0
AllKept [] = Unit
AllKept (e ∷ es) = Rootless e × (is_empty e ≡ false) × AllKept es

push_head-AllRootless :
    (c : ℕ) (ps : List Text) → (c == b'/') ≡ false → AllRootless ps → AllRootless (push_head c ps)
unfolding has_prefix
push_head-AllRootless c [] n h = ground arith
push_head-AllRootless c (p ∷ ps) n h = ground arith

split-AllRootless : (s : Text) → AllRootless (split s b'/')
unfolding split has_prefix
split-AllRootless [] = (refl, tt)
split-AllRootless (c ∷ s) = elim (Bool-cases (c == b'/')) [
  | inl y ↦ rw y (refl, split-AllRootless s)
  | inr n ↦ rw n (push_head-AllRootless c (split s b'/') n (split-AllRootless s))
]

clean_step-AllKept :
    (r : Bool) (ks : List Text) (e : Text) → AllKept ks → Rootless e → AllKept (clean_step r ks e)
unfolding clean_step
clean_step-AllKept r [] e h n = ground arith
clean_step-AllKept r (k ∷ ks) e h n = ground arith

clean_elements-AllKept :
    (r : Bool) (ks es : List Text) → AllKept ks → AllRootless es → AllKept (clean_elements r ks es)
unfolding clean_elements
clean_elements-AllKept r ks [] h n = h
clean_elements-AllKept r ks (e ∷ es) h n =
    clean_elements-AllKept r (clean_step r ks e) es (clean_step-AllKept r ks e h n.0) n.1

append-Rootless :
    (s t : Text) → Rootless s → is_empty s ≡ false → Rootless (s ++ t) × (is_empty (s ++ t) ≡ false)
unfolding has_prefix
append-Rootless [] t h n = cc
append-Rootless (c ∷ s) t h n = ground arith

join_kept-Rootless :
    (k : Text) (ks : List Text)
    → AllKept (k ∷ ks)
    → Rootless (join_kept (k ∷ ks)) × (is_empty (join_kept (k ∷ ks)) ≡ false)
unfolding join_kept
join_kept-Rootless k [] h = (h.0, h.1)
join_kept-Rootless k (l ∷ ks) h =
    let (r, n) = join_kept-Rootless l ks h.2 in append-Rootless (join_kept (l ∷ ks)) (b'/' ∷ k) r n

finish-Rootless : (ks : List Text) → AllKept ks → Rootless (finish false (join_kept ks))
unfolding has_prefix join_kept
finish-Rootless [] h = refl
finish-Rootless (k ∷ ks) h = let (r, n) = join_kept-Rootless k ks h in rw n r

dir_part-Rootless : (p : Text) → Rootless p → Rootless (dir_part p)
unfolding dir_part has_prefix
dir_part-Rootless [] h = refl
dir_part-Rootless (c ∷ s) h = ground arith

pub dir-Rootless : (p : Text) → Rootless p → Rootless (dir p)
unfolding dir clean
dir-Rootless p h = rw (dir_part-Rootless p h) (
    finish-Rootless (clean_elements false [] (split (dir_part p) b'/')) (
      clean_elements-AllKept false [] (split (dir_part p) b'/') tt
        (split-AllRootless (dir_part p))))
