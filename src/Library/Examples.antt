-- ===== src/Library/Examples.antt =====
-- Uploads that are spooled, collected and evicted. The hash of the tests is 64 times the digit of a
-- file's length.
use agro.Base.{
  ℕ, zero, suc, ◌+◌, ◌≤◌, ◌≡◌, refl, true, false, List, [], ◌∷◌, none, some, Text, codes, same,
  select, delete, update, any, trim, trim_start, trim_end, is_whitespace, to_lowercase,
  to_ascii_lowercase, order_by, insert_by, order_by_desc, insert_by_desc, length, head?,
}
use agro.Library.{Library, Account}
use agro.Library.Index.{
  library_track, upsert_library_track, put_holding, upload_session, resumable_upload,
  set_upload_received, delete_upload, spool_bytes_for, spool_insert, spool_owner, spool_delete,
  doomed_of, spool_evictable_for, expired_uploads, spool_users,
}
use agro.Library.Uploads.{
  BeginUpload, begin_upload, begin_unless, begin_indexed, invalid, resume_or_create, create_upload,
  index_upload, is_present, is_sha256_hex, all_hex, upload, quota_exceeded, is_owner,
}
use agro.Library.Spooling.{
  park, spool, evict_spool, remove_doomed, interrupted, spooled, budget_of, is_account,
}
use agro.Library.Archiving.{FileTags}
use agro.Library.Receive.{
  whole, broken, from, put_upload, put_found, put_session, copy, allowance, after_copy,
  finish_upload, finish_found, finish_session, close, file_upload, sweep_storage,
}
use agro.Library.Fetch.{fetch, resolve_fetchable, fetch_archived, found, not_found}
use agro.Library.Evictions.{spool_bytes_for-evict_spool}
use agro.Library.Integrity.History.{opened, begun, received}
use agro.Library.Guests.{fetch_guest_staged}

program : Unit {0}
unfolding same select delete update any trim trim_start trim_end is_whitespace to_lowercase
    to_ascii_lowercase order_by insert_by order_by_desc insert_by_desc library_track
    upsert_library_track put_holding upload_session resumable_upload set_upload_received
    delete_upload spool_bytes_for spool_insert spool_owner spool_delete doomed_of
    spool_evictable_for expired_uploads spool_users begin_upload begin_unless begin_indexed invalid
    resume_or_create create_upload index_upload is_present is_sha256_hex all_hex put_upload
    put_found put_session copy allowance after_copy finish_upload finish_found finish_session close
    file_upload park spool evict_spool remove_doomed sweep_storage fetch resolve_fetchable
    fetch_archived
program = tt

abbrev repeat : ℕ → ℕ → Text
repeat zero c = []
repeat (suc n) c = c ∷ repeat n c

abbrev hash_of : List ℕ → Text
hash_of bytes = repeat 64 (48 + length bytes)

abbrev no_tags : List ℕ → FileTags
no_tags bytes = record {
  title = none;
  artist = none;
  album = none;
  album_artist = none;
  track_no = none;
  extension = codes "bin";
}

abbrev member : Text → Account
member name = record { username = name; is_admin = false; quota_bytes = 9; may_archive = false }

abbrev ana : Account
ana = member (codes "ana")

abbrev bo : Account
bo = member (codes "bo")

abbrev start : Library
start = record {
  accounts = ana ∷ bo ∷ [];
  library_tracks = [];
  device_holdings = [];
  upload_sessions = [];
  spool_items = [];
  parts = [];
  spooled = [];
  shelved = [];
  storage = record {
    library_root = none;
    spool_root = codes "spool";
    spool_max_bytes = 100;
    spool_ttl_hours = 72;
    archive_hook = none;
  };
}

abbrev declare : Text → ℕ → BeginUpload
declare device size = record {
  device_id = device;
  track = record {
    content_hash = repeat 64 (48 + size);
    title = codes "t";
    artist = codes "a";
    album = none;
    album_artist = none;
    track_no = none;
    disc_no = none;
    year = none;
    genre = none;
    duration_ms = 1000;
    size_bytes = size;
    format = none;
    bitrate_kbps = none;
    archived_path = none;
  };
  local_ref = none;
  extension = none;
}

abbrev five : Text
five = repeat 64 53

abbrev begun_by_ana : Library
begun_by_ana = (begin_upload start ana (declare (codes "phone") 5) 10 (codes "u1")).0

abbrev sent_by_ana : Library
sent_by_ana =
    (put_upload hash_of no_tags begun_by_ana ana (codes "u1") none (whole (1 ∷ 2 ∷ 3 ∷ 4 ∷ 5 ∷ []))
      20 (codes "x")).0

collected : fetch sent_by_ana ana five ≡ found (1 ∷ 2 ∷ 3 ∷ 4 ∷ 5 ∷ [])
unfolding program
collected = refl

-- In two requests, the second from where the first one ended.
abbrev half : Library
half =
    (put_upload hash_of no_tags begun_by_ana ana (codes "u1") none (whole (1 ∷ 2 ∷ [])) 20
      (codes "x")).0

resumed :
    ((begin_upload half ana (declare (codes "phone") 5) 30 (codes "u2")).1 ≡ upload (codes "u1") 2)
    × (fetch
          (put_upload hash_of no_tags half ana
            (codes "u1")
            (some (from 2))
            (whole (3 ∷ 4 ∷ 5 ∷ []))
            40
            (codes "x")).0
          ana
          five
        ≡ found (1 ∷ 2 ∷ 3 ∷ 4 ∷ 5 ∷ []))
unfolding program
resumed = (refl, refl)

-- After a connection that broke, the upload goes on from the last request that ended, here from the
-- beginning, although the part holds more.
abbrev broke : Library
broke =
    (put_upload hash_of no_tags begun_by_ana ana (codes "u1") none (broken (1 ∷ 2 ∷ 3 ∷ [])) 20
      (codes "x")).0

restarted :
    ((put_upload hash_of no_tags begun_by_ana ana
        (codes "u1")
        none
        (broken (1 ∷ 2 ∷ 3 ∷ []))
        20
        (codes "x")).1
      ≡ interrupted)
    × ((begin_upload broke ana (declare (codes "phone") 5) 30 (codes "u2")).1
        ≡ upload (codes "u1") 0)
unfolding program
restarted = (refl, refl)

-- A second account that uploads the same file is told that it is spooled, and cannot fetch it.
abbrev begun_by_bo : Library
begun_by_bo = (begin_upload sent_by_ana bo (declare (codes "car") 5) 30 (codes "u2")).0

twice :
    ((put_upload hash_of no_tags begun_by_bo bo
        (codes "u2")
        none
        (whole (1 ∷ 2 ∷ 3 ∷ 4 ∷ 5 ∷ []))
        40
        (codes "x")).1
      ≡ spooled)
    × (fetch
          (put_upload hash_of no_tags begun_by_bo bo
            (codes "u2")
            none
            (whole (1 ∷ 2 ∷ 3 ∷ 4 ∷ 5 ∷ []))
            40
            (codes "x")).0
          bo
          five
        ≡ not_found)
unfolding program
twice = (refl, refl)

over :
    (begin_upload sent_by_ana ana (declare (codes "phone") 6) 30 (codes "u2")).1
    ≡ quota_exceeded 5 9
unfolding program
over = refl

fetch_guest_staged_example :
    (hash_of (1 ∷ 2 ∷ 3 ∷ 4 ∷ 5 ∷ []) ≡ five)
    × (is_owner (codes "ana") (spool_owner sent_by_ana five) ≡ true)
fetch_guest_staged_example =
    fetch_guest_staged hash_of no_tags sent_by_ana ana five (1 ∷ 2 ∷ 3 ∷ 4 ∷ 5 ∷ [])
      (received (begun (opened start refl) ana (declare (codes "phone") 5) 10 (codes "u1")) ana
        (codes "u1") none (whole (1 ∷ 2 ∷ 3 ∷ 4 ∷ 5 ∷ [])) 20 (codes "x"))
      refl collected

spool_bytes_for-evict_spool_example :
    spool_bytes_for (evict_spool sent_by_ana (codes "ana") 30) (codes "ana")
    ≤ budget_of sent_by_ana (head? (select (is_account (codes "ana")) sent_by_ana.accounts))
spool_bytes_for-evict_spool_example = spool_bytes_for-evict_spool sent_by_ana (codes "ana") 30
