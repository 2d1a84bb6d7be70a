-- ===== src/Source/Meta/Rooted.antt =====
-- What `parse_meta` of internal/source/meta-tags.go accepts.
use pkgsite.Prelude.{
  ◌+◌, Bool, true, false, not, ◌&&◌, List, [], ◌∷◌, ◌++◌, Text, Option, none, some, codes, text_eq,
  has_prefix, trim_prefix, drop, length, if◌then◌else◌, ◌≡◌, ◌⊎◌, inl, inr, refl, arith, ap, ◌∙◌,
  append-nil,
}
use pkgsite.Derrors.{root, wrap, not_found}
use pkgsite.Fetch.Readme.{equal_fold}
use pkgsite.Worker.Fetch.Env.{ok, err}
use pkgsite.Source.Meta.{
  SourceMeta, Token, start_element, end_element, other_token, fields, attr_value, is_root, Scan,
  scanning, finished, import_tag, source_tag, meta_tag, scan_token, scan_tokens, parse_meta,
  relative_dir,
}

-- A path is a root, or the root, a slash and the directory.
abbrev pub Joins : Text → Text → Text → Type 0
Joins path prefix dir = ((path ≡ prefix) × (dir ≡ [])) ⊎ (path ≡ prefix ++ b'/' ∷ dir)

prefix_splits : (s p : Text) → has_prefix s p ≡ true → s ≡ p ++ drop (length p) s
unfolding has_prefix
prefix_splits s [] h = refl
prefix_splits [] (d ∷ p) h = cc
prefix_splits (c ∷ s) (d ∷ p) h = ground (arith, prefix_splits s p)

nothing_left : (s : Text) → length s ≡ 0 → s ≡ []
nothing_left [] h = refl
nothing_left (c ∷ s) h = absurd (omega (arith, h))

length-drop :
    (s p : Text) → has_prefix s p ≡ true → length s ≡ length p + length (drop (length p) s)
unfolding has_prefix
length-drop s [] h = omega arith
length-drop [] (d ∷ p) h = cc
length-drop (c ∷ s) (d ∷ p) h = ground (arith, length-drop s p)

-- What is left of a path behind its root, without the slash.
left_over :
    (t : Text)
    → (t ≡ []) ⊎ (has_prefix t (codes "/") ≡ true)
    → ((t ≡ []) × (trim_prefix t (codes "/") ≡ [])) ⊎ (t ≡ b'/' ∷ trim_prefix t (codes "/"))
unfolding trim_prefix has_prefix
left_over [] h = inl (refl, refl)
left_over (c ∷ t) (inl e) = cc
left_over (c ∷ t) (inr e) = ground (arith, e)

is_root_parts :
    (path prefix : Text)
    → is_root path prefix ≡ true
    → (has_prefix path prefix ≡ true)
      × ((drop (length prefix) path ≡ [])
          ⊎ (has_prefix (drop (length prefix) path) (codes "/") ≡ true))
unfolding is_root
is_root_parts path prefix h =
    ground (arith, h, nothing_left (drop (length prefix) path), length-drop path prefix)

is_root-Joins :
    (path prefix : Text) → is_root path prefix ≡ true → Joins path prefix (relative_dir path prefix)
unfolding relative_dir trim_prefix
is_root-Joins path prefix h =
    let parts = is_root_parts path prefix h in
    let split = prefix_splits path prefix parts.0 in
    rw (parts.0)
      (joined (drop (length prefix) path) split (left_over (drop (length prefix) path) parts.1))
  where
    joined :
        (t : Text)
        → path ≡ prefix ++ t
        → ((t ≡ []) × (trim_prefix t (codes "/") ≡ [])) ⊎ (t ≡ b'/' ∷ trim_prefix t (codes "/"))
        → Joins path prefix (trim_prefix t (codes "/"))
    joined t e (inl (n, m)) = inl (e ∙ ap (λ x. prefix ++ x) n ∙ append-nil prefix, m)
    joined t e (inr n) = inr (e ∙ ap (λ x. prefix ++ x) n)

-- The root that has been found, if any, is one of the path.
abbrev IsRooted : Text → Option SourceMeta → Type 0
IsRooted path none = Unit
IsRooted path (some m) = is_root path m.repo_root_prefix ≡ true

abbrev found : Scan → Option SourceMeta
found (scanning m) = m
found (finished m) = m

import_tag-IsRooted :
    (path prefix : Text) (fs : List Text) (sm : Option SourceMeta)
    → is_root path prefix ≡ true
    → IsRooted path sm
    → IsRooted path (found (import_tag (prefix ∷ fs) sm))
unfolding import_tag
import_tag-IsRooted path prefix [] sm h i = i
import_tag-IsRooted path prefix (v ∷ []) sm h i = i
import_tag-IsRooted path prefix (v ∷ u ∷ []) none h i = ground (arith, h, i)
import_tag-IsRooted path prefix (v ∷ u ∷ []) (some m) h i = ground (arith, h, i)
import_tag-IsRooted path prefix (v ∷ u ∷ w ∷ fs) sm h i = i

source_tag-IsRooted :
    (path prefix : Text) (fs : List Text) (sm : Option SourceMeta)
    → is_root path prefix ≡ true
    → IsRooted path sm
    → IsRooted path (found (source_tag (prefix ∷ fs) sm))
unfolding source_tag
source_tag-IsRooted path prefix [] sm h i = i
source_tag-IsRooted path prefix (u ∷ []) sm h i = i
source_tag-IsRooted path prefix (u ∷ d ∷ []) sm h i = i
source_tag-IsRooted path prefix (u ∷ d ∷ f ∷ []) none h i = ground (arith, h, i)
source_tag-IsRooted path prefix (u ∷ d ∷ f ∷ []) (some m) h i = ground (arith, h, i)
source_tag-IsRooted path prefix (u ∷ d ∷ f ∷ g ∷ fs) sm h i = i

meta_tag-IsRooted :
    (path name : Text) (fs : List Text) (sm : Option SourceMeta)
    → IsRooted path sm
    → IsRooted path (found (meta_tag path name fs sm))
unfolding meta_tag
meta_tag-IsRooted path name [] sm i = i
meta_tag-IsRooted path name (prefix ∷ fs) sm i = go (is_root path prefix) refl
  where
    tag :
        (b : Bool)
        → is_root path prefix ≡ true
        → IsRooted path
            (found (if b then import_tag (prefix ∷ fs) sm else source_tag (prefix ∷ fs) sm))
    tag true h = import_tag-IsRooted path prefix fs sm h i
    tag false h = source_tag-IsRooted path prefix fs sm h i

    go :
        (b : Bool)
        → is_root path prefix ≡ b
        → IsRooted path (found (meta_tag path name (prefix ∷ fs) sm))
    go true h = rw (h) (tag (text_eq name (codes "go-import")) h)
    go false h = rw (h) i

-- The three guards before a tag is read.
guarded-IsRooted :
    (path : Text) (a b c : Bool) (sm : Option SourceMeta) (tag : Scan)
    → IsRooted path sm
    → IsRooted path (found tag)
    → IsRooted path (
        found
          (if a then finished sm else if b then scanning sm else if c then scanning sm else tag))
guarded-IsRooted path true b c sm tag i h = i
guarded-IsRooted path false true c sm tag i h = i
guarded-IsRooted path false false true sm tag i h = i
guarded-IsRooted path false false false sm tag i h = h

scan_token-IsRooted :
    (path : Text) (t : Token) (sm : Option SourceMeta)
    → IsRooted path sm
    → IsRooted path (found (scan_token path t sm))
unfolding scan_token
scan_token-IsRooted path other_token sm i = i
scan_token-IsRooted path (end_element name) sm i =
    guarded-IsRooted path (equal_fold name (codes "head")) false false sm (scanning sm) i i
scan_token-IsRooted path (start_element name attrs) sm i =
    let attr = attr_value attrs (codes "name") in
    let fs = fields (attr_value attrs (codes "content")) in
    guarded-IsRooted path (equal_fold name (codes "body")) (not (equal_fold name (codes "meta")))
      (not (text_eq attr (codes "go-import")) && not (text_eq attr (codes "go-source"))) sm
      (meta_tag path attr fs sm) i (meta_tag-IsRooted path attr fs sm i)

scan_tokens-IsRooted :
    (path : Text) (ts : List Token) (sm : Option SourceMeta)
    → IsRooted path sm
    → IsRooted path (scan_tokens path ts sm)
unfolding scan_tokens
scan_tokens-IsRooted path [] sm i = i
scan_tokens-IsRooted path (t ∷ ts) sm i =
    go (scan_token path t sm) (scan_tokens-IsRooted path ts) (scan_token-IsRooted path t sm i)
  where
    go :
        (s : Scan)
        → ((m : Option SourceMeta) → IsRooted path m → IsRooted path (scan_tokens path ts m))
        → IsRooted path (found s)
        → IsRooted path (elim s [ scanning m ↦ scan_tokens path ts m | finished m ↦ m ])
    go (scanning m) next h = next m h
    go (finished m) next h = h

-- The tags of a page are those of a repository whose root is the module's path, or a part of it that
-- ends before a slash: the path is the root with the module's directory, which the links are built
-- from, joined to it.
pub parse_meta-Joins :
    (path : Text) (ts : List Token) (sm : SourceMeta)
    → parse_meta path ts ≡ ok sm
    → Joins path sm.repo_root_prefix (relative_dir path sm.repo_root_prefix)
unfolding parse_meta
parse_meta-Joins path ts sm e =
    go (scan_tokens path ts none) (scan_tokens-IsRooted path ts none tt) e
  where
    go :
        (o : Option SourceMeta)
        → IsRooted path o
        → elim o [ none ↦ err (wrap (root not_found)) | some m ↦ ok m ] ≡ ok sm
        → Joins path sm.repo_root_prefix (relative_dir path sm.repo_root_prefix)
    go none h f = absurd cc
    go (some m) h f = is_root-Joins path sm.repo_root_prefix (ground (arith, h, f))
