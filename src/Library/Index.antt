-- ===== src/Library/Index.antt =====
-- The rows of the library: src/db_library/tracks.rs, src/db_library/holdings.rs,
-- src/db_library/uploads.rs and src/db_library/spool.rs.
use agro.Base.{
  ℕ, ◌-◌, Bool, ◌&&◌, ◌||◌, List, [], ◌∷◌, ◌++◌, Option, none, some, Text, same, select, delete,
  update, any, order_by, order_by_desc, leb, ltb, if◌then◌else◌, head?, sum_of,
}
use mathlib.Core.Option as Option
use agro.Library.{Library, LibraryTrack, Holding, UploadSession, SpoolItem}

abbrev pub is_track : Text → LibraryTrack → Bool
is_track content_hash t = same t.content_hash content_hash

unfoldable pub library_track : Library → Text → Option LibraryTrack
unfolding same select
library_track s content_hash = head? (select (is_track content_hash) s.library_tracks)

abbrev pub or_else : Option Text → Option Text → Option Text
or_else none other = other
or_else (some t) other = some t

-- A later report never clears an archive location.
unfoldable pub upsert_library_track : LibraryTrack → List LibraryTrack → List LibraryTrack
unfolding same any update
upsert_library_track track rows =
    if any (is_track track.content_hash) rows
    then update (is_track track.content_hash)
        (λ r. record track { archived_path = or_else track.archived_path r.archived_path }) rows
    else rows ++ track ∷ []

unfoldable pub set_archived_path : Text → Text → List LibraryTrack → List LibraryTrack
unfolding same update
set_archived_path content_hash path rows =
    update (is_track content_hash) (λ r. record r { archived_path = some path }) rows

abbrev pub is_holding : Text → Text → Holding → Bool
is_holding device_id content_hash h = same h.device_id device_id && same h.content_hash content_hash

-- A device that reports a file again keeps its row and the account on it.
unfoldable pub put_holding : Holding → List Holding → List Holding
unfolding same any update
put_holding h rows =
    if any (is_holding h.device_id h.content_hash) rows
    then update (is_holding h.device_id h.content_hash)
        (λ r. record r { local_ref = h.local_ref; reported_at = h.reported_at }) rows
    else rows ++ h ∷ []

abbrev pub is_upload : Text → UploadSession → Bool
is_upload upload_id u = same u.upload_id upload_id

unfoldable pub upload_session : Library → Text → Option UploadSession
unfolding same select
upload_session s upload_id = head? (select (is_upload upload_id) s.upload_sessions)

-- An unfinished upload of the same file by the same device, the newest first.
unfoldable pub resumable_upload : Library → Text → Text → Text → ℕ → Option UploadSession
unfolding same select order_by_desc
resumable_upload s user_id device_id content_hash now = head? (
    order_by_desc (λ u. u.created_at)
      (select
        (λ u.
          same u.user_id user_id
          && same u.device_id device_id
          && same u.content_hash content_hash
          && ltb now u.expires_at)
        s.upload_sessions))

unfoldable pub set_upload_received : Text → ℕ → List UploadSession → List UploadSession
unfolding same update
set_upload_received upload_id received rows =
    update (is_upload upload_id) (λ u. record u { received_bytes = received }) rows

unfoldable pub delete_upload : Text → List UploadSession → List UploadSession
unfolding same delete
delete_upload upload_id rows = delete (is_upload upload_id) rows

unfoldable pub expired_uploads : ℕ → List UploadSession → List UploadSession
unfolding select
expired_uploads now rows = select (λ u. leb u.expires_at now) rows

abbrev pub is_spooled_by : Text → SpoolItem → Bool
is_spooled_by user_id i = same i.user_id user_id

unfoldable pub spool_bytes_for : Library → Text → ℕ
unfolding same select
spool_bytes_for s user_id =
    sum_of (λ i. i.size_bytes) (select (is_spooled_by user_id) s.spool_items)

abbrev pub is_item : Text → SpoolItem → Bool
is_item content_hash i = same i.content_hash content_hash

-- A file that is spooled already keeps its row, with the account and the size on it.
unfoldable pub spool_insert : SpoolItem → List SpoolItem → List SpoolItem
unfolding same any update
spool_insert item rows =
    if any (is_item item.content_hash) rows
    then update (is_item item.content_hash)
        (λ r. record r { expires_at = item.expires_at; from_device = item.from_device }) rows
    else rows ++ item ∷ []

unfoldable pub spool_owner : Library → Text → Option Text
unfolding same select
spool_owner s content_hash =
    Option.map (λ i. i.user_id) (head? (select (is_item content_hash) s.spool_items))

unfoldable pub spool_delete : Text → List SpoolItem → List SpoolItem
unfolding same delete
spool_delete content_hash rows = delete (is_item content_hash) rows

-- The loop that picks what goes: `total` is what the account still occupies.
unfoldable pub doomed_of : ℕ → ℕ → ℕ → List SpoolItem → List SpoolItem
doomed_of now budget total [] = []
doomed_of now budget total (i ∷ rows) =
    let spared = doomed_of now budget total rows in
    let removed = doomed_of now budget (total - i.size_bytes) rows in
    if leb i.expires_at now || ltb budget total then i ∷ removed else spared

unfoldable pub spool_evictable_for : Library → Text → ℕ → ℕ → List SpoolItem
unfolding same select order_by doomed_of
spool_evictable_for s user_id budget now =
    let rows = order_by (λ i. i.created_at) (select (is_spooled_by user_id) s.spool_items) in
    doomed_of now budget (sum_of (λ i. i.size_bytes) rows) rows

-- SELECT DISTINCT user_id
unfoldable pub spool_users : List SpoolItem → List Text
unfolding same any
spool_users [] = []
spool_users (i ∷ rows) =
    let rest = spool_users rows in
    if any (is_spooled_by i.user_id) rows then rest else i.user_id ∷ rest
