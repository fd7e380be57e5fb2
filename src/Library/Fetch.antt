-- ===== src/Library/Fetch.antt =====
-- `resolve_fetchable` and `fetch` of src/library/fetch.rs.
use agro.Base.{not, List, Option, none, some, Text, same, select, if◌then◌else◌, ℕ}
use agro.Storage.{resolve_within, resolved}
use agro.Library.{Library, Account, File, read_file}
use agro.Library.Index.{library_track, spool_owner}
use agro.Library.Uploads.{is_sha256_hex, is_owner}

-- The archived file of a row, below the library's root.
unfoldable pub archived_file : Library → Option Text → Option Text → Option File
unfolding resolve_within select same
archived_file s none root = none
archived_file s (some relative) none = none
archived_file s (some relative) (some root) = elim (resolve_within root relative) [
  | resolved path ↦ read_file path s.shelved
  | _ ↦ none
]

-- The admin's library is the admin's alone.
unfoldable pub fetch_archived : Library → Account → Text → Option File
unfolding library_track archived_file
fetch_archived s user content_hash =
    if not user.is_admin then none else elim (library_track s content_hash) [
      | none ↦ none
      | some track ↦ archived_file s track.archived_path s.storage.library_root
    ]

abbrev pub or_file : Option File → Option File → Option File
or_file none other = other
or_file (some f) other = some f

-- The spool first, for the account that the file was staged for.
unfoldable pub resolve_fetchable : Library → Account → Text → Option File
unfolding spool_owner fetch_archived select same
resolve_fetchable s user content_hash =
    let archived = fetch_archived s user content_hash in
    let staged = read_file content_hash s.spooled in
    if is_owner user.username (spool_owner s content_hash)
    then or_file staged archived
    else archived

pub data Fetched : Type 0 where
  bad_hash not_found : Fetched
  found : List ℕ → Fetched

abbrev pub served : Option File → Fetched
served none = not_found
served (some f) = found f.bytes

unfoldable pub fetch : Library → Account → Text → Fetched
unfolding is_sha256_hex resolve_fetchable
fetch s user content_hash =
    if not (is_sha256_hex content_hash)
    then bad_hash
    else served (resolve_fetchable s user content_hash)
