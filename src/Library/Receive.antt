-- ===== src/Library/Receive.antt =====
-- The bytes of an upload: src/library/put.rs, and the periodic sweep of src/library/spool.rs. The
-- SHA-256 of a file and the tags in it are parameters, as are the UUIDs. Every call of the file
-- system succeeds but for a connection that breaks.
use agro.Base.{
  ℕ, ◌+◌, ◌-◌, Bool, true, false, ◌&&◌, not, List, [], ◌∷◌, ◌++◌, Option, none, some, Text, same,
  ltb, if◌then◌else◌, length, take, select, delete,
}
use agro.Library.{
  Library, Account, UploadSession, Target, to_archive, to_spool, effective_quota, read_file,
  write_file, remove_file, bytes_or_empty, min,
}
use agro.Library.Index.{
  upload_session, set_upload_received, delete_upload, expired_uploads, spool_bytes_for, spool_users,
}
use agro.Library.Spooling.{
  PutReply, no_such_upload, not_yours, past_the_end, cannot_truncate, interrupted, too_long,
  partial, vanished, mismatch, evict_spool, spool,
}
use agro.Library.Archiving.{archive, FileTags}

-- The header x-agro-offset, when it is a number: at zero or above, or below.
pub data Offset : Type 0 where
  from : ℕ → Offset
  below_zero : Offset

abbrev pub or_beginning : Option Offset → Offset
or_beginning none = from 0
or_beginning (some offset) = offset

-- The body as it arrives: all of it, or up to where the connection broke.
pub data Stream : Type 0 where
  whole broken : List ℕ → Stream

abbrev pub body_of : Stream → List ℕ
body_of (whole bytes) = bytes
body_of (broken bytes) = bytes

-- Whether the stream ends in an error.
abbrev pub is_broken : Stream → Bool
is_broken (whole bytes) = false
is_broken (broken bytes) = true

module _ (sha256 : List ℕ → Text) (read_tags : List ℕ → FileTags) where
  unfoldable pub file_upload :
      Library → UploadSession → Target → List ℕ → ℕ → Text → Library × PutReply
  unfolding archive spool
  file_upload s session to_archive bytes now uuid = archive read_tags s session bytes uuid
  file_upload s session to_spool bytes now uuid = spool s session bytes now

  unfoldable pub close : Text → Library → Library
  unfolding delete_upload
  close upload_id l = record l { upload_sessions = delete_upload upload_id l.upload_sessions }

  -- Nothing is filed whose hash is not the declared one, and the session ends in both cases.
  unfoldable pub finish_session : Library → UploadSession → ℕ → Text → Library × PutReply
  unfolding same select delete file_upload close
  finish_session s session now uuid =
      let bytes = bytes_or_empty (read_file session.upload_id s.parts) in
      let filed = file_upload s session session.target bytes now uuid in
      if same (sha256 bytes) session.content_hash
      then (close session.upload_id filed.0, filed.1)
      else (
        close session.upload_id (record s { parts = remove_file session.upload_id s.parts }),
        mismatch,
      )

  unfoldable pub finish_found : Library → Option UploadSession → ℕ → Text → Library × PutReply
  unfolding finish_session
  finish_found s none now uuid = (s, vanished)
  finish_found s (some session) now uuid = finish_session s session now uuid

  unfoldable pub finish_upload : Library → Text → ℕ → Text → Library × PutReply
  unfolding upload_session finish_found
  finish_upload s upload_id now uuid = finish_found s (upload_session s upload_id) now uuid

  -- How many bytes this request may still write: what is left of the declared size and, under a
  -- quota, of the quota.
  unfoldable pub allowance : Library → Account → UploadSession → ℕ → ℕ
  unfolding spool_bytes_for
  allowance s user session offset =
      let declared = session.size_bytes - offset in
      elim (effective_quota user) [
        | none ↦ declared
        | some quota ↦ min declared (quota - spool_bytes_for s user.username - offset)
      ]

  -- The whole body was copied, up to one byte past the allowance.
  unfoldable pub after_copy :
      Library → Account → UploadSession → ℕ → ℕ → ℕ → List ℕ → ℕ → Text → Library × PutReply
  unfolding close set_upload_received finish_upload delete same
  after_copy s user session offset allowed written file now uuid =
      let received = offset + written in
      let kept = record s {
        parts = write_file session.upload_id file s.parts;
        upload_sessions = set_upload_received session.upload_id received s.upload_sessions;
      } in
      if ltb allowed written
      then (
        close session.upload_id (record s { parts = remove_file session.upload_id s.parts }),
        too_long (effective_quota user),
      )
      else if ltb received session.size_bytes
      then (kept, partial received)
      else finish_upload kept session.upload_id now uuid

  -- The part cut to the offset, and the body after it as far as it may go.
  unfoldable pub copy :
      Library → Account → UploadSession → ℕ → List ℕ → Stream → ℕ → Text → Library × PutReply
  unfolding allowance after_copy delete same
  copy s user session offset existing body now uuid =
      let allowed = allowance s user session offset in
      let copied = take (allowed + 1) (body_of body) in
      let file = take offset existing ++ copied in
      let done = after_copy s user session offset allowed (length copied) file now uuid in
      if is_broken body && ltb (length (body_of body)) (allowed + 1)
      then (record s { parts = write_file session.upload_id file s.parts }, interrupted)
      else done

  unfoldable pub put_session :
      Library → Account → UploadSession → Offset → Stream → ℕ → Text → Library × PutReply
  unfolding same select delete copy
  put_session s user session below_zero body now uuid =
      let existing = bytes_or_empty (read_file session.upload_id s.parts) in
      if same session.user_id user.username
      then (record s { parts = write_file session.upload_id existing s.parts }, cannot_truncate)
      else (s, not_yours)
  put_session s user session (from offset) body now uuid =
      let existing = bytes_or_empty (read_file session.upload_id s.parts) in
      if not (same session.user_id user.username)
      then (s, not_yours)
      else if ltb (length existing) offset
      then (s, past_the_end)
      else copy s user session offset existing body now uuid

  unfoldable pub put_found :
      Library → Account → Option UploadSession → Offset → Stream → ℕ → Text → Library × PutReply
  unfolding put_session
  put_found s user none offset body now uuid = (s, no_such_upload)
  put_found s user (some session) offset body now uuid =
      put_session s user session offset body now uuid

  -- An absent offset, or one that is no number, is the beginning.
  unfoldable pub put_upload :
      Library → Account → Text → Option Offset → Stream → ℕ → Text → Library × PutReply
  unfolding upload_session put_found
  put_upload s user upload_id header body now uuid =
      put_found s user (upload_session s upload_id) (or_beginning header) body now uuid

  -- The periodic sweep: every account's spool, then the uploads that were abandoned.
  unfoldable pub evict_all : List Text → ℕ → Library → Library
  unfolding evict_spool
  evict_all [] now s = s
  evict_all (user_id ∷ users) now s = evict_all users now (evict_spool s user_id now)

  unfoldable pub drop_uploads : List UploadSession → Library → Library
  unfolding close delete same
  drop_uploads [] s = s
  drop_uploads (u ∷ expired) s =
      drop_uploads expired
        (close u.upload_id (record s { parts = remove_file u.upload_id s.parts }))

  unfoldable pub sweep_storage : Library → ℕ → Library
  unfolding evict_all drop_uploads expired_uploads spool_users
  sweep_storage s now =
      let swept = evict_all (spool_users s.spool_items) now s in
      drop_uploads (expired_uploads now swept.upload_sessions) swept
