-- ===== src/Semver/Laws.antt =====
-- The functions and the laws of golang.org/x/mod/semver that the program relies on.
use pkgsite.Prelude.{Bool, true, Text, ◌≡◌, ◌≢◌, Ordering}

pub record Semver : Type 0 where
  pub is_valid : Text → Bool
  pub prerelease : Text → Text
  pub canonical : Text → Text
  pub major_minor : Text → Text
  pub cmp : Text → Text → Ordering

-- `semver.Compare(a, b) < 0` and `> 0`.
abbrev pub is_lt : Ordering → Bool
is_lt Ordering.lt = true
is_lt Ordering.eq = Bool.false
is_lt Ordering.gt = Bool.false

abbrev pub is_gt : Ordering → Bool
is_gt Ordering.lt = Bool.false
is_gt Ordering.eq = Bool.false
is_gt Ordering.gt = true

abbrev pub flip : Ordering → Ordering
flip Ordering.lt = Ordering.gt
flip Ordering.eq = Ordering.eq
flip Ordering.gt = Ordering.lt

-- `Compare` orders all texts by semantic version precedence, invalid ones below the valid ones:
-- a total preorder.
pub record IsOrdered (s : Semver) : Type 0 where
  pub cmp_swap : (v w : Text) → s.cmp w v ≡ flip (s.cmp v w)
  pub cmp_trans :
      (u v w : Text) → s.cmp u v ≢ Ordering.gt → s.cmp v w ≢ Ordering.gt → s.cmp u w ≢ Ordering.gt
