-- ===== src/Storage/Names.antt =====
-- The shelf position of a file, from its tags.
use agro.Base.{
  ℕ, Bool, ◌&&◌, ◌||◌, List, [], ◌∷◌, ◌++◌, Option, none, some, Text, codes, same, leb, ltb, ◌==◌,
  if◌then◌else◌, length, take, map, any, select, is_whitespace, to_lowercase,
}
use agro.Storage.{dot, join, decimal}

abbrev pub max_segment : ℕ
max_segment = 120

-- `RESERVED`
unfoldable pub reserved : List Text
reserved =
    codes "con"
    ∷ codes "prn"
    ∷ codes "aux"
    ∷ codes "nul"
    ∷ codes "com1"
    ∷ codes "com2"
    ∷ codes "com3"
    ∷ codes "com4"
    ∷ codes "com5"
    ∷ codes "com6"
    ∷ codes "com7"
    ∷ codes "com8"
    ∷ codes "com9"
    ∷ codes "lpt1"
    ∷ codes "lpt2"
    ∷ codes "lpt3"
    ∷ codes "lpt4"
    ∷ codes "lpt5"
    ∷ codes "lpt6"
    ∷ codes "lpt7"
    ∷ codes "lpt8"
    ∷ codes "lpt9"
    ∷ []

-- `char::is_control`: the category Cc.
abbrev pub is_control : ℕ → Bool
is_control c = ltb c 32 || (leb 127 c && leb c 159)

abbrev pub is_forbidden : ℕ → Bool
is_forbidden c =
    is_control c
    || c == b'/'
    || c == b'\\'
    || c == b':'
    || c == b'*'
    || c == b'?'
    || c == 34
    || c == b'<'
    || c == b'>'
    || c == b'|'

abbrev pub clean : ℕ → ℕ
clean c = if is_forbidden c then 32 else c

-- `split_whitespace`; `word` is the one being read.
abbrev pub finish_word : Text → List Text → List Text
finish_word [] rest = rest
finish_word (c ∷ word) rest = (c ∷ word) ∷ rest

unfoldable pub words : Text → Text → List Text
unfolding is_whitespace
words word [] = finish_word word []
words word (c ∷ s) =
    let next = words [] s in
    let longer = words (word ++ c ∷ []) s in
    if is_whitespace c then finish_word word next else longer

-- `join(" ")`
unfoldable pub unwords : List Text → Text
unwords [] = []
unwords (w ∷ []) = w
unwords (w ∷ v ∷ rest) = w ++ 32 ∷ unwords (v ∷ rest)

abbrev pub is_trailing : ℕ → Bool
is_trailing c = c == dot || c == 32

abbrev pub keep_unless_trailing : ℕ → Text → Text
keep_unless_trailing c [] = if is_trailing c then [] else c ∷ []
keep_unless_trailing c (d ∷ s) = c ∷ d ∷ s

-- `trim_end_matches(['.', ' '])`
unfoldable pub trim_trailing : Text → Text
trim_trailing [] = []
trim_trailing (c ∷ s) = keep_unless_trailing c (trim_trailing s)

-- Whether the name is one of the reserved ones in any case. The only letters outside ASCII whose
-- lowercase is in ASCII are the Kelvin and the dotted I, and no reserved name has a k or an i.
abbrev pub is_reserved : Text → Bool
is_reserved name = any (same (to_lowercase name)) reserved

unfoldable pub usable_or : Text → Text → Text
unfolding same any reserved to_lowercase
usable_or fallback name =
    if same name [] || same name (codes ".") || same name (codes "..") || is_reserved name
    then fallback
    else name

unfoldable pub segment : Text → Text → Text
unfolding words unwords trim_trailing usable_or
segment value fallback =
    let trimmed = trim_trailing (unwords (words [] (map clean value))) in
    let truncated =
      if ltb max_segment (length trimmed) then take max_segment trimmed else trimmed in
    usable_or fallback (trim_trailing truncated)

-- `trim_start_matches('.')`
unfoldable pub trim_dots : Text → Text
trim_dots [] = []
trim_dots (c ∷ s) = let rest = trim_dots s in if c == dot then rest else c ∷ s

abbrev pub is_ascii_alphanumeric : ℕ → Bool
is_ascii_alphanumeric c =
    (leb 48 c && leb c 57) || (leb 65 c && leb c 90) || (leb 97 c && leb c 122)

abbrev pub or_bin : Text → Text
or_bin [] = codes "bin"
or_bin (c ∷ s) = c ∷ s

unfoldable pub extension : Text → Text
unfolding trim_dots select to_lowercase
extension value = or_bin (to_lowercase (take 8 (select is_ascii_alphanumeric (trim_dots value))))

pub record Filing : Type 0 where
  pub album_artist : Option Text
  pub artist : Text
  pub album : Option Text
  pub title : Text
  pub track_no : Option ℕ
  pub extension : Text

-- `{n:02}`
unfoldable pub two_digits : ℕ → Text
unfolding decimal
two_digits n = if ltb n 10 then b'0' ∷ decimal n else decimal n

abbrev pub unwrap_or : Text → Option Text → Text
unwrap_or default none = default
unwrap_or default (some t) = t

unfoldable pub artist_name : Filing → Text
unfolding segment
artist_name f = segment (unwrap_or f.artist f.album_artist) (codes "Unknown Artist")

unfoldable pub album_name : Filing → Text
unfolding segment
album_name f = segment (unwrap_or [] f.album) (codes "Unknown Album")

abbrev pub numbered : Option ℕ → Text → Text
numbered none rest = rest
numbered (some n) rest = if ltb 0 n then two_digits n ++ (codes " - " ++ rest) else rest

unfoldable pub file_name : Filing → Text
unfolding segment extension two_digits
file_name f =
    numbered f.track_no (segment f.title (codes "Untitled") ++ dot ∷ extension f.extension)

unfoldable pub relative_path : Filing → Text
unfolding join artist_name album_name file_name
relative_path f = join (join (artist_name f) (album_name f)) (file_name f)
