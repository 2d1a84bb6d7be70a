-- ===== src/Frontend/FetchServer/NotFound/GithubPath.antt =====
-- The redirection for GitHub's paths, of internal/frontend/fetchserver/404.go.
use pkgsite.Prelude.{
  ℕ, zero, suc, ◌-◌, not, ◌||◌, ◌&&◌, List, [], ◌∷◌, ◌++◌, Text, Option, none, some, codes, text_eq,
  is_empty, has_prefix, split, push_head, length, take, drop, leb, ◌==◌, if◌then◌else◌,
}

-- `strings.Split` at a text: the number of bytes still to be passed over is kept.
unfoldable pub split_text : Text → ℕ → Text → List Text
unfolding has_prefix
split_text sep n [] = [] ∷ []
split_text sep (suc n) (c ∷ s) = split_text sep n s
split_text sep zero (c ∷ s) =
    let apart = split_text sep (length sep - 1) s in
    let joined = split_text sep zero s in
    if has_prefix (c ∷ s) sep then [] ∷ apart else push_head c joined

-- `[^/]+` at the front.
unfoldable pub segment : Text → Text
segment [] = []
segment (c ∷ s) = if c == b'/' then [] else c ∷ segment s

-- `(/[^/]+)?` at the front.
abbrev pub slash_segment : Text → Text
slash_segment [] = []
slash_segment (c ∷ s) = if (c == b'/') && not (is_empty (segment s)) then b'/' ∷ segment s else []

-- `githubRegexp.FindString`: the leftmost match of (blob|tree)(/[^/]+)?.
unfoldable pub find_github : Text → Text
unfolding has_prefix segment
find_github [] = []
find_github (c ∷ s) =
    let word = take 4 (c ∷ s) in
    if has_prefix (c ∷ s) (codes "blob") || has_prefix (c ∷ s) (codes "tree")
    then word ++ slash_segment (drop 4 (c ∷ s))
    else find_github s

abbrev pub first_of : List Text → Text
first_of [] = []
first_of (p ∷ ps) = p

-- What is left around one separator.
abbrev pub around : List Text → Option Text
around (p ∷ q ∷ []) = some (p ++ q)
around _ = none

-- `githubPathRedirect`: the path to redirect to, `none` for "".
unfoldable pub github_path_redirect : Text → Option Text
unfolding split text_eq split_text find_github
github_path_redirect full_path =
    let parts = split full_path b'/' in
    if leb (length parts) 3 || not (text_eq (first_of parts) (codes "github.com"))
    then none
    else around (split_text (b'/' ∷ find_github full_path) zero full_path)
