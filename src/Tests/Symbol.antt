-- ===== src/Tests/Symbol.antt =====
-- Examples of the history of symbols.
use pkgsite.Prelude.{true, [], Text, some, Ordering, codes, ◌≡◌, ◌≢◌, refl}
use pkgsite.Semver.Toy.{toy, toy-IsOrdered, rank}
use pkgsite.Symbol.{
  BuildContext, SymbolMeta, History, mem_build, add_symbol, has, introduced_history, versions,
}
use pkgsite.Symbol.Earliest.{introduced_history-earliest}
use pkgsite.Symbol.First.{is_version, introduced_history-first}
use pkgsite.Symbol.Notes.{first_version}

abbrev function : Text → SymbolMeta
function signature = record {
  name = codes "CloseOnExec";
  synopsis = signature;
  section = codes "Functions";
  kind = codes "Function";
  parent_name = [];
}

abbrev linux : BuildContext
linux = record { goos = codes "linux"; goarch = codes "amd64" }

abbrev windows : BuildContext
windows = record { goos = codes "windows"; goarch = codes "amd64" }

-- The symbol is there from v1.1.0 on, on Windows since v1.2.0.
abbrev history : History
unfolding add_symbol
history =
    add_symbol
      (add_symbol (add_symbol [] (function (codes "(fd Handle)")) (codes "v1.2.0") windows)
        (function (codes "(fd int)")) (codes "v1.1.0") linux)
      (function (codes "(fd int)")) (codes "v1.2.0") linux

introduced_history-first_example :
    (r : History) × (introduced_history toy history ≡ some r)
    × ((v n : Text) (b : BuildContext)
        → has r v n b ≡ is_version (first_version history n b (versions toy history)) v)
unfolding mem_build history
introduced_history-first_example = introduced_history-first toy history (refl, (refl, (refl, tt)))

abbrev introduced : History
unfolding add_symbol
introduced =
    add_symbol (add_symbol [] (function (codes "(fd Handle)")) (codes "v1.2.0") windows)
      (function (codes "(fd int)")) (codes "v1.1.0") linux

introduced_history-earliest_example :
    (v : Text) × (has introduced v (codes "CloseOnExec") linux ≡ true)
    × (toy.cmp (codes "v1.2.0") v ≢ Ordering.lt)
unfolding mem_build introduced_history has history introduced rank
introduced_history-earliest_example =
    introduced_history-earliest toy toy-IsOrdered history introduced (codes "v1.2.0")
      (codes "CloseOnExec") linux (refl, (refl, (refl, tt))) refl refl
