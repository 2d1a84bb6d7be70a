-- ===== src/Paths/Candidates/Dir.antt =====
-- `path.Dir` and `path.Clean`.
use pkgsite.Prelude.{
  Bool, true, false, not, ◌||◌, ◌&&◌, List, [], ◌∷◌, ◌++◌, Text, codes, text_eq, is_empty,
  has_prefix, split, ◌==◌, if◌then◌else◌,
}

abbrev pub is_dots : Text → Bool
is_dots e = text_eq e (codes "..")

-- One element of the path, on the elements kept so far, the last one first.
unfoldable pub clean_step : Bool → List Text → Text → List Text
unfolding text_eq
clean_step rooted [] e =
    if is_empty e || text_eq e (codes ".") then [] else if is_dots e && rooted then [] else e ∷ []
clean_step rooted (k ∷ ks) e =
    if is_empty e || text_eq e (codes ".")
    then k ∷ ks
    else if is_dots e && not (is_dots k)
    then ks
    else e ∷ k ∷ ks

unfoldable pub clean_elements : Bool → List Text → List Text → List Text
unfolding clean_step
clean_elements rooted ks [] = ks
clean_elements rooted ks (e ∷ es) = clean_elements rooted (clean_step rooted ks e) es

-- The kept elements, last one first, as a path.
unfoldable pub join_kept : List Text → Text
join_kept [] = []
join_kept (k ∷ []) = k
join_kept (k ∷ l ∷ ks) = join_kept (l ∷ ks) ++ (b'/' ∷ k)

-- A leading slash, or "." for an empty path.
abbrev pub finish : Bool → Text → Text
finish true kept = b'/' ∷ kept
finish false kept = if is_empty kept then codes "." else kept

unfoldable pub clean : Text → Text
unfolding has_prefix split clean_elements join_kept
clean p =
    let rooted = has_prefix p (codes "/") in
    finish rooted (join_kept (clean_elements rooted [] (split p b'/')))

abbrev pub has_slash : Text → Bool
has_slash [] = false
has_slash (c ∷ s) = (c == b'/') || has_slash s

-- `path.Split`'s first result: up to the last slash, with it.
unfoldable pub dir_part : Text → Text
dir_part [] = []
dir_part (c ∷ s) = if (c == b'/') || has_slash s then c ∷ dir_part s else []

unfoldable pub dir : Text → Text
unfolding dir_part clean
dir p = clean (dir_part p)
