-- ===== src/Fetch/Files.antt =====
-- `path.Base`, `path.Ext` and `path.Join`, and the file system of a module's zip file, `fs.FS`, as
-- what io/fs answers.
use pkgsite.Prelude.{
  ℕ, Bool, ◌&&◌, ◌⊎◌, List, [], ◌∷◌, ◌++◌, ◌+◌, leb, Text, Option, codes, is_empty, drop, length,
  ◌==◌, if◌then◌else◌,
}
use pkgsite.Derrors.{Error}
use pkgsite.Paths.Candidates.Dir.{clean, dir_part}
use pkgsite.Worker.Fetch.Env.{Answer}

-- The text without the slashes at its end.
unfoldable pub trim_slashes_right : Text → Text
trim_slashes_right [] = []
trim_slashes_right (c ∷ s) =
    let rest = trim_slashes_right s in if is_empty rest && (c == b'/') then [] else c ∷ rest

unfoldable pub base : Text → Text
unfolding trim_slashes_right dir_part
base p =
    let q = trim_slashes_right p in
    if is_empty p then codes "." else if is_empty q then codes "/" else drop (length (dir_part q)) q

-- `strings.ToLower`, of ASCII.
abbrev pub to_lower : ℕ → ℕ
to_lower c = if leb b'A' c && leb c b'Z' then c + 32 else c

abbrev pub lower : Text → Text
lower [] = []
lower (c ∷ s) = to_lower c ∷ lower s

-- From the last dot on, of an element with no slash: `none` if it has no dot.
abbrev from_dot : Text → Option Text
from_dot [] = Option.none
from_dot (c ∷ s) = elim (from_dot s) [
  | Option.some e ↦ Option.some e
  | Option.none ↦ if c == b'.' then Option.some (c ∷ s) else Option.none
]

-- `path.Ext`, of an element with no slash.
abbrev pub ext : Text → Text
ext s = elim (from_dot s) [ Option.none ↦ [] | Option.some e ↦ e ]

unfoldable pub join_path : Text → Text → Text
unfolding clean
join_path a b =
    if is_empty a && is_empty b
    then []
    else if is_empty a
    then clean b
    else if is_empty b
    then clean a
    else clean (a ++ (b'/' ∷ b))

-- An error of io/fs: `fs.ErrNotExist`, or another one.
pub data FileError : Type 0 where
  not_exist : FileError
  failed : Error → FileError

-- A call of the function that `fs.WalkDir` gets, with what the entry's `Info` answers.
pub record WalkEntry : Type 0 where
  pub path : Text
  pub failure : Option FileError
  pub is_dir : Bool
  pub size : ℕ ⊎ FileError

-- An entry of a directory, as `ReadDir` lists it.
pub record DirEntry : Type 0 where
  pub name : Text
  pub is_dir : Bool
  pub size : ℕ ⊎ FileError

-- What `Open` and `ReadDir` give: an error, a file that is no directory, or its entries.
pub data Opened : Type 0 where
  unopened : FileError → Opened
  plain_file : Opened
  unlisted : FileError → Opened
  listed : List DirEntry → Opened

-- `stat_go_mod` says whether go.mod is a directory, `signature` is the hash that `FSSignature`
-- makes of all names and contents, `file_size` is what `Stat` says of a file that was opened.
pub record ContentDir : Type 0 where
  pub walk : List WalkEntry
  pub opened : Text → Opened
  pub read_file : Text → Answer Text
  pub file_size : Text → Answer ℕ
  pub stat_go_mod : Option Bool
  pub signature : Answer Text

abbrev pub max_file_size : ℕ
max_file_size = 30000000
