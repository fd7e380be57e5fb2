-- ===== src/Library/Uploads.antt =====
-- `begin_upload` of src/library/begin.rs.
use agro.Base.{
  select, ℕ, ◌+◌, ◌*◌, Bool, true, false, ◌&&◌, ◌||◌, not, [], ◌∷◌, ◌++◌, Option, none, some, Text,
  same, trim, leb, ltb, ◌==◌, if◌then◌else◌, length,
}
use agro.Storage.{archives}
use agro.Library.{
  Library, Account, LibraryTrack, UploadSession, to_archive, to_spool, can_archive, effective_quota,
  read_file, bytes_or_empty, hour, min,
}
use agro.Library.Index.{
  library_track, upsert_library_track, put_holding, resumable_upload, spool_bytes_for, spool_owner,
}

abbrev pub max_upload_bytes : ℕ
max_upload_bytes = 2 * 1024 * 1024 * 1024

abbrev pub upload_ttl_hours : ℕ
upload_ttl_hours = 24

pub record BeginUpload : Type 0 where
  pub device_id : Text
  pub track : LibraryTrack
  pub local_ref : Option Text
  pub extension : Option Text

pub data BeginReply : Type 0 where
  bad_hash bad_size no_device : BeginReply
  exists : Text → BeginReply
  upload : (upload_id : Text) → (offset : ℕ) → BeginReply
  quota_exceeded : (used quota : ℕ) → BeginReply

abbrev pub is_lowercase_hex : ℕ → Bool
is_lowercase_hex c = (leb 48 c && leb c 57) || (leb 97 c && leb c 102)

unfoldable pub all_hex : Text → Bool
all_hex [] = true
all_hex (c ∷ s) = is_lowercase_hex c && all_hex s

unfoldable pub is_sha256_hex : Text → Bool
unfolding all_hex
is_sha256_hex value = length value == 64 && all_hex value

-- The index entry of the file and the device's holding, whether or not the bytes travel.
unfoldable pub index_upload : Library → Account → BeginUpload → ℕ → Library
unfolding upsert_library_track put_holding
index_upload s user body now = record s {
  library_tracks =
      upsert_library_track (record body.track { archived_path = none }) s.library_tracks;
  device_holdings =
      put_holding
        (record {
          device_id = body.device_id;
          user_id = user.username;
          content_hash = body.track.content_hash;
          local_ref = body.local_ref;
          reported_at = now;
        })
        s.device_holdings;
}

abbrev is_archived : Option LibraryTrack → Bool
is_archived none = false
is_archived (some t) = elim t.archived_path [ none ↦ false | some _ ↦ true ]

abbrev pub is_owner : Text → Option Text → Bool
is_owner user_id none = false
is_owner user_id (some owner) = same owner user_id

-- Whether this account may count the bytes as here already.
unfoldable pub is_present : Library → Account → Text → Bool
unfolding library_track spool_owner same
is_present s user content_hash =
    (user.is_admin && is_archived (library_track s content_hash))
    || is_owner user.username (spool_owner s content_hash)

abbrev pub is_over : Option ℕ → ℕ → ℕ → Bool
is_over none used size = false
is_over (some quota) used size = ltb quota (used + size)

abbrev pub quota_of : Option ℕ → ℕ
quota_of none = 0
quota_of (some quota) = quota

-- A new session, when the declared size fits the quota.
unfoldable pub create_upload : Library → Account → BeginUpload → ℕ → Text → Library × BeginReply
unfolding spool_bytes_for
create_upload s user body now upload_id =
    let used = spool_bytes_for s user.username in
    if is_over (effective_quota user) used body.track.size_bytes
    then (s, quota_exceeded used (quota_of (effective_quota user)))
    else (
      record s {
        upload_sessions =
            s.upload_sessions
            ++ record {
              upload_id = upload_id;
              user_id = user.username;
              device_id = body.device_id;
              content_hash = body.track.content_hash;
              size_bytes = body.track.size_bytes;
              received_bytes = 0;
              target = if archives s.storage && can_archive user then to_archive else to_spool;
              extension = body.extension;
              created_at = now;
              expires_at = now + upload_ttl_hours * hour;
            }
              ∷ [];
      },
      upload upload_id 0,
    )

-- An interrupted transfer goes on where both the file and its row say it stands.
unfoldable pub resume_or_create :
    Library → Account → BeginUpload → ℕ → Text → Option UploadSession → Library × BeginReply
unfolding same select create_upload
resume_or_create s user body now upload_id none = create_upload s user body now upload_id
resume_or_create s user body now upload_id (some existing) =
    let on_disk = length (bytes_or_empty (read_file existing.upload_id s.parts)) in
    (s, upload existing.upload_id (min on_disk existing.received_bytes))

-- What is refused before anything is stored.
unfoldable pub invalid : BeginUpload → Option BeginReply
unfolding is_sha256_hex trim same
invalid body =
    if not (is_sha256_hex body.track.content_hash)
    then some bad_hash
    else if body.track.size_bytes == 0 || ltb max_upload_bytes body.track.size_bytes
    then some bad_size
    else if same (trim body.device_id) []
    then some no_device
    else none

-- The answer once the file is in the index.
unfoldable pub begin_indexed : Library → Account → BeginUpload → ℕ → Text → Library × BeginReply
unfolding is_present resume_or_create resumable_upload
begin_indexed s user body now upload_id =
    let hash = body.track.content_hash in
    if is_present s user hash
    then (s, exists hash)
    else resume_or_create s user body now upload_id
        (resumable_upload s user.username body.device_id hash now)

unfoldable pub begin_unless :
    Library → Account → BeginUpload → ℕ → Text → Option BeginReply → Library × BeginReply
unfolding index_upload begin_indexed
begin_unless s user body now upload_id (some refusal) = (s, refusal)
begin_unless s user body now upload_id none =
    begin_indexed (index_upload s user body now) user body now upload_id

unfoldable pub begin_upload : Library → Account → BeginUpload → ℕ → Text → Library × BeginReply
unfolding invalid begin_unless
begin_upload s user body now upload_id = begin_unless s user body now upload_id (invalid body)
