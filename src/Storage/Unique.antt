-- ===== src/Storage/Unique.antt =====
-- `unique_path` of src/storage.rs. Whether a file exists and the fresh UUID are arguments; the
-- path ends in a name, as every path does that is joined from names.
use agro.Base.{
  ℕ, zero, suc, ◌+◌, Bool, true, false, [], ◌∷◌, ◌++◌, Option, none, some, Text, codes, ◌==◌,
  if◌then◌else◌,
}
use agro.Storage.{slash, dot, join, decimal}

-- The text before and after the last `sep`.
unfoldable pub split_last : ℕ → Text → Option (Text × Text)
split_last sep [] = none
split_last sep (c ∷ s) = elim (split_last sep s) [
  | none ↦ if c == sep then some ([], s) else none
  | some (front, back) ↦ some (c ∷ front, back)
]

-- `Path::parent`, empty where there is none.
unfoldable pub parent : Text → Text
unfolding split_last
parent path = elim (split_last slash path) [
  | none ↦ []
  | some ([], name) ↦ slash ∷ []
  | some (c ∷ front, name) ↦ c ∷ front
]

unfoldable pub last_name : Text → Text
unfolding split_last
last_name path = elim (split_last slash path) [ none ↦ path | some (front, name) ↦ name ]

-- `Path::file_stem`: a name whose only dot comes first has no extension.
unfoldable pub file_stem : Text → Text
unfolding split_last
file_stem name = elim (split_last dot name) [
  | none ↦ name
  | some ([], ext) ↦ name
  | some (c ∷ stem, ext) ↦ c ∷ stem
]

-- `Path::extension` with its dot, or nothing.
unfoldable pub dotted_extension : Text → Text
unfolding split_last
dotted_extension name = elim (split_last dot name) [
  | none ↦ []
  | some ([], ext) ↦ []
  | some (c ∷ stem, ext) ↦ dot ∷ ext
]

-- `{stem} ({mark}){ext}`
abbrev pub marked : Text → Text → Text → Text
marked stem ext mark = stem ++ (codes " (" ++ (mark ++ (codes ")" ++ ext)))

-- `for n in 2..1000`, as the rounds that are left and the next `n`.
unfoldable pub first_free : (Text → Bool) → (ℕ → Text) → ℕ → ℕ → Option Text
first_free exists name zero n = none
first_free exists name (suc rounds) n = elim (exists (name n)) [
  | true ↦ first_free exists name rounds (n + 1)
  | false ↦ some (name n)
]

abbrev pub last_resort : Text → Option Text → Text
last_resort fallback none = fallback
last_resort fallback (some path) = path

unfoldable pub sibling : Text → Text → Text
unfolding join parent last_name file_stem dotted_extension
sibling candidate mark =
    join (parent candidate)
      (marked (file_stem (last_name candidate)) (dotted_extension (last_name candidate)) mark)

unfoldable pub unique_path : (Text → Bool) → Text → Text → Text
unfolding sibling first_free decimal
unique_path exists uuid candidate =
    if exists candidate
    then last_resort (sibling candidate uuid)
        (first_free exists (λ n. sibling candidate (decimal n)) 998 2)
    else candidate
