-- ===== src/Symbol/Build.antt =====
-- internal/build_context.go, and the sets of build contexts of internal/symbol.go.
use pkgsite.Prelude.{
  ℕ, suc, Bool, false, not, ◌||◌, ◌&&◌, List, [], ◌∷◌, Text, Option, none, some, codes, text_eq,
  is_empty, length, ltb, if◌then◌else◌,
}
use pkgsite.Prelude.Int.{ℤ, pos, negsuc, sub_ℕ}
use pkgsite.Vuln.Compact.{text_gt}

pub record BuildContext : Type 0 where
  pub goos : Text
  pub goarch : Text

abbrev pub all : Text
all = codes "all"

abbrev context : Text → Text → BuildContext
context goos goarch = record { goos = goos; goarch = goarch }

abbrev pub build_context_all : BuildContext
build_context_all = context all all

abbrev pub build_contexts_known : List BuildContext
build_contexts_known =
    context (codes "linux") (codes "amd64")
    ∷ context (codes "windows") (codes "amd64")
    ∷ context (codes "darwin") (codes "amd64")
    ∷ context (codes "js") (codes "wasm")
    ∷ []

unfoldable pub build_eq : BuildContext → BuildContext → Bool
unfolding text_eq
build_eq b c = text_eq b.goos c.goos && text_eq b.goarch c.goarch

-- `Match`: the first one is the pattern.
unfoldable pub element_matches : Text → Text → Bool
unfolding text_eq
element_matches pattern target = is_empty pattern || text_eq target all || text_eq pattern target

unfoldable pub matches : BuildContext → BuildContext → Bool
unfolding element_matches
matches pattern target =
    element_matches pattern.goos target.goos && element_matches pattern.goarch target.goarch

-- `DocumentationForBuildContext` on the build contexts of the documents: the first one that matches.
unfoldable pub documentation_for_build_context :
    List BuildContext → BuildContext → Option BuildContext
unfolding matches
documentation_for_build_context [] bc = none
documentation_for_build_context (d ∷ docs) bc =
    let rest = documentation_for_build_context docs bc in if matches bc d then some d else rest

-- The place of a build context in a list, or its length.
unfoldable pub position : BuildContext → List BuildContext → ℕ
unfolding build_eq
position c [] = 0
position c (d ∷ ds) = let rest = position c ds in if build_eq c d then 0 else suc rest

-- `CompareBuildContexts`.
unfoldable pub compare_build_contexts : BuildContext → BuildContext → ℤ
unfolding build_eq position
compare_build_contexts c1 c2 =
    if build_eq c1 c2
    then pos 0
    else if build_eq c1 build_context_all
    then negsuc 0
    else if build_eq c2 build_context_all
    then pos 1
    else sub_ℕ (position c1 build_contexts_known) (position c2 build_contexts_known)

unfoldable pub mem_build : BuildContext → List BuildContext → Bool
unfolding build_eq
mem_build b [] = false
mem_build b (c ∷ cs) = build_eq b c || mem_build b cs

-- `us.builds[b] = true`.
unfoldable pub set_build : List BuildContext → BuildContext → List BuildContext
unfolding mem_build
set_build bs b = if mem_build b bs then bs else b ∷ bs

unfoldable pub set_builds : List BuildContext → List BuildContext → List BuildContext
unfolding set_build
set_builds bs [] = bs
set_builds bs (c ∷ cs) = set_builds (set_build bs c) cs

unfoldable pub add_build_context : List BuildContext → BuildContext → List BuildContext
unfolding build_eq set_build set_builds
add_build_context bs build =
    if not (build_eq build build_context_all)
    then set_build bs build
    else set_builds bs build_contexts_known

unfoldable pub supports_build : List BuildContext → BuildContext → Bool
unfolding build_eq mem_build
supports_build bs build =
    if build_eq build build_context_all then ltb 0 (length bs) else mem_build build bs

-- `BuildContexts`: a sort by the names of the systems.
unfoldable pub insert_build : BuildContext → List BuildContext → List BuildContext
unfolding text_gt
insert_build b [] = b ∷ []
insert_build b (c ∷ cs) =
    let rest = insert_build b cs in if text_gt b.goos c.goos then c ∷ rest else b ∷ c ∷ cs

unfoldable pub build_contexts : List BuildContext → List BuildContext
unfolding insert_build
build_contexts [] = []
build_contexts (b ∷ bs) = insert_build b (build_contexts bs)
