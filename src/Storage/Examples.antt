-- ===== src/Storage/Examples.antt =====
-- Files of the library.
use agro.Base.{
  ◌≡◌, ◌⊎◌, refl, true, false, [], ◌∷◌, some, Bool, Text, codes, same, any, select, is_whitespace,
  to_lowercase, to_ascii_lowercase, ◌||◌, ◌<◌, ◌≤◌, ℕ,
}
use agro.Storage.{
  join, ends_with_slash, pieces, components_of, first_component, components, all_normal,
  resolve_within, normal, resolved, traversal, absolute, digits, decimal, part_file, cover_file,
  covers_root,
}
use agro.Storage.Names.{
  Filing, words, unwords, trim_trailing, reserved, usable_or, segment, trim_dots, extension,
  two_digits, artist_name, album_name, file_name, relative_path,
}
use agro.Storage.Unique.{
  split_last, parent, last_name, file_stem, dotted_extension, first_free, sibling, unique_path,
}
use agro.Storage.Segments.{IsPlain, segment-IsPlain}
use agro.Storage.Filing.{fallback-IsPlain, relative_path-resolve_within}
use agro.Storage.Free.{unique_path_free}

program : Unit {0}
unfolding same any select is_whitespace to_lowercase to_ascii_lowercase join ends_with_slash pieces
    components_of first_component components all_normal resolve_within digits decimal words unwords
    trim_trailing reserved usable_or segment trim_dots extension two_digits artist_name album_name
    file_name relative_path split_last parent last_name file_stem dotted_extension first_free
    sibling unique_path part_file cover_file covers_root
program = tt

abbrev hostile : Filing
hostile = record {
  album_artist = some (codes "../../etc");
  artist = codes "x";
  album = some (codes "AUX");
  title = codes "a/b: c.. ";
  track_no = some 7;
  extension = codes "..FLAC/";
}

shelved : relative_path hostile ≡ codes ".. .. etc/Unknown Album/07 - a b c.flac"
unfolding program
shelved = refl

-- A reserved name with an extension passes, although Windows reserves it too.
device_file : segment (codes "con.txt") (codes "Untitled") ≡ codes "con.txt"
unfolding program
device_file = refl

escapes :
    (resolve_within (codes "/music") (codes "a/../../b") ≡ traversal)
    × ((resolve_within (codes "/music") (codes "/etc/passwd") ≡ absolute)
        × (resolve_within (codes "/music") (codes "./a") ≡ traversal))
unfolding program
escapes = (refl, (refl, refl))

segment-IsPlain_example : IsPlain (segment (codes "a/b: c.. ") (codes "Untitled"))
segment-IsPlain_example = segment-IsPlain (codes "a/b: c.. ") (codes "Untitled") fallback-IsPlain.0

relative_path-resolve_within_example :
    (components (relative_path hostile)
      ≡ normal (artist_name hostile)
        ∷ normal (album_name hostile)
        ∷ normal (file_name hostile)
        ∷ [])
    × (resolve_within (codes "/music") (relative_path hostile)
        ≡ resolved (join (codes "/music") (relative_path hostile)))
relative_path-resolve_within_example = relative_path-resolve_within (codes "/music") hostile

abbrev taken : Text → Bool
taken path = same path (codes "/m/a.flac") || same path (codes "/m/a (2).flac")

beside : unique_path taken (codes "uuid") (codes "/m/a.flac") ≡ codes "/m/a (3).flac"
unfolding program
beside = refl

unique_path_free_example :
    (taken (unique_path taken (codes "uuid") (codes "/m/a.flac")) ≡ false)
    ⊎ ((unique_path taken (codes "uuid") (codes "/m/a.flac")
          ≡ sibling (codes "/m/a.flac") (codes "uuid"))
        × ((n : ℕ) → 2 ≤ n → n < 1000 → taken (sibling (codes "/m/a.flac") (decimal n)) ≡ true))
unique_path_free_example = unique_path_free taken (codes "uuid") (codes "/m/a.flac")
