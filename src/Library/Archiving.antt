-- ===== src/Library/Archiving.antt =====
-- Shelving an uploaded file: src/library/archive.rs. The tags in a file are a parameter, as is the
-- UUID of a taken name.
use agro.Base.{
  ℕ, ◌%◌, ◌^◌, List, [], ◌∷◌, Option, none, some, Text, codes, same, trim, ◌==◌, if◌then◌else◌,
  delete, any,
}
use mathlib.Core.Option as Option
use agro.Storage.{resolve_within, Resolved, resolved}
use agro.Storage.Names.{Filing, relative_path}
use agro.Storage.Unique.{unique_path}
use agro.Library.{Library, LibraryTrack, UploadSession, write_file, remove_file, is_named}
use agro.Library.Index.{library_track, set_archived_path, or_else}
use agro.Library.Spooling.{PutReply, archived, unfiled}

pub record FileTags : Type 0 where
  pub title : Option Text
  pub artist : Option Text
  pub album : Option Text
  pub album_artist : Option Text
  pub track_no : Option ℕ
  pub extension : Text

abbrev pub or_text : Option Text → Text → Text
or_text none default = default
or_text (some t) default = t

abbrev pub if_filled : Option Text → Option Text
if_filled none = none
if_filled (some t) = if same (trim t) [] then none else some t

abbrev pub or_number : Option ℕ → Option ℕ → Option ℕ
or_number none other = other
or_number (some n) other = some n

-- Where the file is shelved: its own tags first, what the index has next.
unfoldable pub filing_of : FileTags → Option LibraryTrack → Option Text → Filing
unfolding trim same
filing_of tags indexed declared = record {
  album_artist = or_else tags.album_artist (elim indexed [ none ↦ none | some t ↦ t.album_artist ]);
  artist =
      or_text (or_else tags.artist (Option.map (λ t. t.artist) indexed)) (codes "Unknown Artist");
  album = or_else tags.album (elim indexed [ none ↦ none | some t ↦ t.album ]);
  title = or_text (or_else tags.title (Option.map (λ t. t.title) indexed)) (codes "Untitled");
  track_no =
      or_number tags.track_no
        (elim indexed [ none ↦ none | some t ↦ Option.map (λ n. n % 2 ^ 32) t.track_no ]);
  extension = or_text (if_filled declared) tags.extension;
}

-- `strip_prefix`: what follows the root and its separators.
abbrev pub without_slashes : Text → Text
without_slashes [] = []
without_slashes (c ∷ s) = if c == b'/' then without_slashes s else c ∷ s

unfoldable pub strip_prefix : Text → Text → Option Text
strip_prefix [] path = some (without_slashes path)
strip_prefix (c ∷ root) [] = none
strip_prefix (c ∷ root) (d ∷ path) =
    let rest = strip_prefix root path in if c == d then rest else none

module _ (read_tags : List ℕ → FileTags) where
  -- The file moved to the target, and the row that points there.
  unfoldable pub shelve : Library → UploadSession → List ℕ → Text → Text → Text → Library
  unfolding delete same set_archived_path strip_prefix
  shelve s session bytes root relative target = record s {
    shelved = write_file target bytes s.shelved;
    parts = remove_file session.upload_id s.parts;
    library_tracks =
        set_archived_path session.content_hash (or_text (strip_prefix root target) relative)
          s.library_tracks;
  }

  unfoldable pub place :
      Library → UploadSession → List ℕ → Text → Text → Text → Resolved → Library × PutReply
  unfolding unique_path shelve any same
  place s session bytes uuid root relative (resolved path) =
      let taken = λ (path : Text). any (is_named path) s.shelved in
      (shelve s session bytes root relative (unique_path taken uuid path), archived)
  place s session bytes uuid root relative _ = (s, unfiled)

  unfoldable pub archive_under :
      Library → UploadSession → List ℕ → Text → Text → Option Text → Library × PutReply
  unfolding place resolve_within
  archive_under s session bytes uuid relative none = (s, unfiled)
  archive_under s session bytes uuid relative (some root) =
      place s session bytes uuid root relative (resolve_within root relative)

  unfoldable pub shelf_path : Library → UploadSession → List ℕ → Text
  unfolding library_track filing_of relative_path
  shelf_path s session bytes =
      relative_path
        (filing_of (read_tags bytes) (library_track s session.content_hash) session.extension)

  unfoldable pub archive : Library → UploadSession → List ℕ → Text → Library × PutReply
  unfolding shelf_path archive_under
  archive s session bytes uuid =
      archive_under s session bytes uuid (shelf_path s session bytes) s.storage.library_root
