-- ===== src/Library.antt =====
-- The state behind src/library.rs and src/db_library.rs: the tables, the files on disk, and the
-- accounts that ask. A file is named by its upload id in the spool's parts, by its content hash in
-- the spool and by its path in the library. Files, hashes and tags are lists of numbers.
mod Index
mod Uploads
mod Spooling
mod Archiving
mod Receive
mod Fetch
mod Evictions
mod Integrity
mod Guests
mod Examples
use agro.Base.{
  ℕ, ◌+◌, ◌-◌, ◌<◌, Bool, true, false, ◌&&◌, ◌||◌, not, List, [], ◌∷◌, ◌++◌, Option, none, some,
  Text, same, eq_nocase, select, delete, any, leb, ltb, ◌==◌, if◌then◌else◌, length, head?,
}
use agro.Storage.{Storage}

pub record Account : Type 0 where
  pub username : Text
  pub is_admin : Bool
  pub quota_bytes : ℕ
  pub may_archive : Bool

abbrev pub can_archive : Account → Bool
can_archive a = a.is_admin || a.may_archive

-- No cap for the admin, nor for a quota of zero.
abbrev pub effective_quota : Account → Option ℕ
effective_quota a = if a.is_admin || a.quota_bytes == 0 then none else some a.quota_bytes

pub record LibraryTrack : Type 0 where
  pub content_hash : Text
  pub title : Text
  pub artist : Text
  pub album : Option Text
  pub album_artist : Option Text
  pub track_no : Option ℕ
  pub disc_no : Option ℕ
  pub year : Option ℕ
  pub genre : Option Text
  pub duration_ms : ℕ
  pub size_bytes : ℕ
  pub format : Option Text
  pub bitrate_kbps : Option ℕ
  pub archived_path : Option Text

pub record Holding : Type 0 where
  pub device_id : Text
  pub user_id : Text
  pub content_hash : Text
  pub local_ref : Option Text
  pub reported_at : ℕ

pub data Target : Type 0 where
  to_archive to_spool : Target

pub record UploadSession : Type 0 where
  pub upload_id : Text
  pub user_id : Text
  pub device_id : Text
  pub content_hash : Text
  pub size_bytes : ℕ
  pub received_bytes : ℕ
  pub target : Target
  pub extension : Option Text
  pub created_at : ℕ
  pub expires_at : ℕ

pub record SpoolItem : Type 0 where
  pub content_hash : Text
  pub size_bytes : ℕ
  pub from_device : Text
  pub user_id : Text
  pub created_at : ℕ
  pub expires_at : ℕ

pub record File : Type 0 where
  pub name : Text
  pub bytes : List ℕ

pub record Library : Type 0 where
  pub accounts : List Account
  pub library_tracks : List LibraryTrack
  pub device_holdings : List Holding
  pub upload_sessions : List UploadSession
  pub spool_items : List SpoolItem
  pub parts : List File
  pub spooled : List File
  pub shelved : List File
  pub storage : Storage

abbrev pub is_named : Text → File → Bool
is_named name f = same f.name name

abbrev pub read_file : Text → List File → Option File
read_file name files = head? (select (is_named name) files)

-- Writing or renaming onto a name replaces the file that is there.
abbrev pub write_file : Text → List ℕ → List File → List File
write_file name bytes files =
    delete (is_named name) files ++ record { name = name; bytes = bytes } ∷ []

abbrev pub remove_file : Text → List File → List File
remove_file name files = delete (is_named name) files

abbrev pub bytes_or_empty : Option File → List ℕ
bytes_or_empty none = []
bytes_or_empty (some f) = f.bytes

-- An hour in the milliseconds of the clock.
abbrev pub hour : ℕ
hour = 3_600_000

abbrev pub min : ℕ → ℕ → ℕ
min a b = if ltb a b then a else b
