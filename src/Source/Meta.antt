-- ===== src/Source/Meta.antt =====
-- internal/source/meta-tags.go: what the go-import and go-source tags of a page say of a module. The
-- page is the tokens that encoding/xml finds in it, up to the first error.
pub mod Rooted
use pkgsite.Prelude.{
  ℕ, Bool, true, false, not, ◌||◌, ◌&&◌, List, [], ◌∷◌, ◌++◌, Text, Option, none, some, codes,
  text_eq, is_empty, has_prefix, contains_text, trim_prefix, push_head, drop, length, leb,
  if◌then◌else◌, ◌==◌,
}
use pkgsite.Derrors.{root, wrap, not_found}
use pkgsite.Fetch.Readme.{equal_fold}
use pkgsite.Worker.Fetch.Env.{Answer, ok, err}

pub record SourceMeta : Type 0 where
  pub repo_root_prefix : Text
  pub repo_url : Text
  pub dir_template : Text
  pub file_template : Text

pub data Token : Type 0 where
  start_element : Text → List (Text × Text) → Token
  end_element : Text → Token
  other_token : Token

-- White space of ASCII.
abbrev pub is_space : ℕ → Bool
is_space c = (leb 9 c && leb c 13) || (c == 32)

unfoldable pub words : Text → List Text
words [] = [] ∷ []
words (c ∷ s) = let rest = words s in if is_space c then [] ∷ rest else push_head c rest

unfoldable pub nonempty : List Text → List Text
nonempty [] = []
nonempty (w ∷ ws) = let rest = nonempty ws in if is_empty w then rest else w ∷ rest

-- `strings.Fields`.
unfoldable pub fields : Text → List Text
unfolding words nonempty
fields s = nonempty (words s)

unfoldable pub attr_value : List (Text × Text) → Text → Text
unfolding equal_fold
attr_value [] name = []
attr_value ((n, v) ∷ attrs) name =
    let rest = attr_value attrs name in if equal_fold n name then v else rest

-- Whether a root is the path or a part of it that a slash ends.
unfoldable pub is_root : Text → Text → Bool
unfolding has_prefix
is_root path prefix =
    has_prefix path prefix
    && ((length path == length prefix) || has_prefix (drop (length prefix) path) (codes "/"))

-- Where the scan of the tokens stands after one of them.
pub data Scan : Type 0 where
  scanning : Option SourceMeta → Scan
  finished : Option SourceMeta → Scan

-- The fields of a go-import tag.
unfoldable pub import_tag : List Text → Option SourceMeta → Scan
unfolding text_eq
import_tag (prefix ∷ vcs ∷ url ∷ []) sm =
    if text_eq vcs (codes "mod") then scanning sm else elim sm [
      | some m ↦ finished none
      | none ↦ scanning (
          some (record {
            repo_root_prefix = prefix;
            repo_url = url;
            dir_template = [];
            file_template = [];
          }))
    ]
import_tag [] sm = scanning sm
import_tag (prefix ∷ []) sm = scanning sm
import_tag (prefix ∷ vcs ∷ []) sm = scanning sm
import_tag (prefix ∷ vcs ∷ url ∷ more ∷ fs) sm = scanning sm

abbrev pub source_of : Text → Text → Text → Text → SourceMeta
source_of prefix url dir file = record {
  repo_root_prefix = prefix;
  repo_url = url;
  dir_template = dir;
  file_template = file;
}

-- The fields of a go-source tag.
unfoldable pub source_tag : List Text → Option SourceMeta → Scan
unfolding text_eq
source_tag (prefix ∷ url ∷ dir ∷ file ∷ []) none =
    if text_eq url (codes "_")
    then finished none
    else finished (some (source_of prefix url dir file))
source_tag (prefix ∷ url ∷ dir ∷ file ∷ []) (some m) =
    if not (text_eq m.repo_root_prefix prefix)
    then finished none
    else finished
        (some (source_of prefix (if text_eq url (codes "_") then m.repo_url else url) dir file))
source_tag [] sm = scanning sm
source_tag (a ∷ []) sm = scanning sm
source_tag (a ∷ b ∷ []) sm = scanning sm
source_tag (a ∷ b ∷ c ∷ []) sm = scanning sm
source_tag (a ∷ b ∷ c ∷ d ∷ e ∷ fs) sm = scanning sm

unfoldable pub meta_tag : Text → Text → List Text → Option SourceMeta → Scan
unfolding is_root import_tag source_tag text_eq
meta_tag import_path name [] sm = scanning sm
meta_tag import_path name (prefix ∷ fs) sm =
    if not (is_root import_path prefix)
    then scanning sm
    else if text_eq name (codes "go-import")
    then import_tag (prefix ∷ fs) sm
    else source_tag (prefix ∷ fs) sm

unfoldable pub scan_token : Text → Token → Option SourceMeta → Scan
unfolding meta_tag fields attr_value equal_fold text_eq
scan_token import_path other_token sm = scanning sm
scan_token import_path (end_element name) sm =
    if equal_fold name (codes "head") then finished sm else scanning sm
scan_token import_path (start_element name attrs) sm =
    let attr = attr_value attrs (codes "name") in
    if equal_fold name (codes "body")
    then finished sm
    else if not (equal_fold name (codes "meta"))
    then scanning sm
    else if not (text_eq attr (codes "go-import")) && not (text_eq attr (codes "go-source"))
    then scanning sm
    else meta_tag import_path attr (fields (attr_value attrs (codes "content"))) sm

unfoldable pub scan_tokens : Text → List Token → Option SourceMeta → Option SourceMeta
unfolding scan_token
scan_tokens import_path [] sm = sm
scan_tokens import_path (t ∷ ts) sm = elim (scan_token import_path t sm) [
  | scanning m ↦ scan_tokens import_path ts m
  | finished m ↦ m
]

unfoldable pub parse_meta : Text → List Token → Answer SourceMeta
unfolding scan_tokens
parse_meta import_path ts = elim (scan_tokens import_path ts none) [
  | none ↦ err (wrap (root not_found))
  | some sm ↦ ok sm
]

-- `get` is the page that a request for a URL answers with; the flag asks for the status 200.
unfoldable pub fetch_meta : (Text → Bool → Answer (List Token)) → Text → Answer SourceMeta
unfolding parse_meta contains_text
fetch_meta get import_path =
    let uri =
      (if contains_text import_path (codes "/") then import_path else import_path ++ codes "/")
      ++ codes "?go-get=1" in
    let parsed : List Token → Answer SourceMeta =
      λ ts. elim (parse_meta import_path ts) [ err e ↦ err (wrap e) | ok sm ↦ ok sm ] in
    elim (get (codes "https://" ++ uri) true) [
      | ok ts ↦ parsed ts
      | err e ↦ elim (get (codes "http://" ++ uri) false) [
        | err f ↦ err (wrap f)
        | ok ts ↦ parsed ts
      ]
    ]

-- The directory of a module in the repository whose root is given.
unfoldable pub relative_dir : Text → Text → Text
unfolding trim_prefix
relative_dir module_path prefix = trim_prefix (trim_prefix module_path prefix) (codes "/")
