-- ===== src/Storage.antt =====
-- The files of src/storage.rs: the configuration, and a path as its text, with the functions of
-- Rust's Path on Unix that the code calls.
pub mod Names
mod Segments
mod Components
mod Filing
pub mod Unique
mod Free
mod Examples
use agro.Base.{
  ℕ, zero, suc, ◌+◌, ◌/◌, ◌%◌, ◌*◌, Bool, true, false, ◌&&◌, ◌||◌, not, List, [], ◌∷◌, ◌++◌, Option,
  none, some, Text, codes, same, leb, ltb, ◌==◌, if◌then◌else◌,
}

abbrev pub slash : ℕ
slash = b'/'

abbrev pub dot : ℕ
dot = b'.'

abbrev pub is_absolute : Text → Bool
is_absolute [] = false
is_absolute (c ∷ s) = c == slash

unfoldable pub ends_with_slash : Text → Bool
ends_with_slash [] = false
ends_with_slash (c ∷ []) = c == slash
ends_with_slash (c ∷ d ∷ s) = ends_with_slash (d ∷ s)

-- `Path::join`: an absolute path replaces the one it is joined onto.
unfoldable pub join : Text → Text → Text
unfolding ends_with_slash
join a b =
    if is_absolute b then b else if same a [] || ends_with_slash a then a ++ b else a ++ slash ∷ b

pub data Component : Type 0 where
  root_dir cur_dir parent_dir : Component
  normal : Text → Component

-- The pieces between the separators; `piece` is the one being read.
unfoldable pub pieces : Text → Text → List Text
pieces piece [] = piece ∷ []
pieces piece (c ∷ s) =
    let next = pieces [] s in
    let longer = pieces (piece ++ c ∷ []) s in if c == slash then piece ∷ next else longer

-- A piece after the first: empty ones and `.` are skipped.
abbrev pub component_of : Text → List Component → List Component
component_of piece rest =
    if same piece [] || same piece (codes ".")
    then rest
    else if same piece (codes "..")
    then parent_dir ∷ rest
    else normal piece ∷ rest

unfoldable pub components_of : List Text → List Component
unfolding same
components_of [] = []
components_of (piece ∷ rest) = component_of piece (components_of rest)

-- `Path::components`: a leading separator is the root, and a leading `.` the current directory.
unfoldable pub first_component : List Text → List Component
unfolding same components_of
first_component [] = []
first_component (piece ∷ rest) =
    if same piece (codes ".") then cur_dir ∷ components_of rest else components_of (piece ∷ rest)

unfoldable pub components : Text → List Component
unfolding pieces first_component
components path =
    if is_absolute path
    then root_dir ∷ components_of (pieces [] path)
    else first_component (pieces [] path)

pub record Storage : Type 0 where
  pub library_root : Option Text
  pub spool_root : Text
  pub spool_max_bytes : ℕ
  pub spool_ttl_hours : ℕ
  pub archive_hook : Option Text

abbrev pub archives : Storage → Bool
archives s = elim s.library_root [ none ↦ false | some _ ↦ true ]

unfoldable pub part_file : Storage → Text → Text
unfolding join
part_file s upload_id = join s.spool_root (upload_id ++ codes ".part")

unfoldable pub spool_file : Storage → Text → Text
unfolding join
spool_file s content_hash = join s.spool_root (content_hash ++ codes ".bin")

unfoldable pub covers_root : Storage → Text
unfolding join
covers_root s =
    join (elim s.library_root [ none ↦ s.spool_root | some root ↦ root ]) (codes ".covers")

unfoldable pub cover_file : Storage → Text → Text → Text
unfolding join covers_root
cover_file s album_key extension = join (covers_root s) (album_key ++ dot ∷ extension)

pub data Resolved : Type 0 where
  resolved : Text → Resolved
  absolute traversal : Resolved

abbrev pub is_normal : Component → Bool
is_normal (normal name) = true
is_normal _ = false

unfoldable pub all_normal : List Component → Bool
all_normal [] = true
all_normal (c ∷ cs) = is_normal c && all_normal cs

unfoldable pub resolve_within : Text → Text → Resolved
unfolding components all_normal join
resolve_within root relative =
    if is_absolute relative
    then absolute
    else if not (all_normal (components relative))
    then traversal
    else resolved (join root relative)

-- A number in decimal; the fuel is at least the number of digits.
unfoldable pub digits : ℕ → ℕ → Text → Text
digits zero n tail = tail
digits (suc fuel) n tail = elim (ltb n 10) [
  | true ↦ (48 + n) ∷ tail
  | false ↦ digits fuel (n / 10) ((48 + n % 10) ∷ tail)
]

unfoldable pub decimal : ℕ → Text
unfolding digits
decimal n = digits (suc n) n []
