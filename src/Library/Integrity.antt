-- ===== src/Library/Integrity.antt =====
-- Whatever happens, a file in the spool is the one its hash names.
use agro.Base.{
  ◌+◌, head?, ℕ, ◌≡◌, sym, subst, ◌&&◌, List, [], ◌∷◌, Option, none, some, inl, inr, Text, same,
  select, delete, eq_of_same, All, All-append, All-delete, Bool-cases, ltb, length,
}
use mathlib.Core.Option as Option
use agro.Storage.{Resolved, resolved, absolute, traversal}
use agro.Library.{
  effective_quota, bytes_or_empty, Library, Account, UploadSession, SpoolItem, File, Target,
  to_archive, to_spool, is_named, read_file,
}
use agro.Library.Index.{
  spool_bytes_for, expired_uploads, spool_users, spool_evictable_for, upload_session,
}
use agro.Library.Uploads.{
  invalid, begin_indexed, begin_unless, is_present, is_over, BeginReply, BeginUpload, begin_upload,
  index_upload, resume_or_create, create_upload,
}
use agro.Library.Spooling.{park, budget_of, is_account, remove_doomed, evict_spool, spool}
use agro.Library.Archiving.{shelf_path, place, archive_under, FileTags, archive, shelve}
use agro.Library.Receive.{
  or_beginning, finish_found, is_broken, body_of, put_found, Offset, from, below_zero, Stream,
  file_upload, close, finish_session, finish_upload, after_copy, copy, put_session, put_upload,
  evict_all, drop_uploads, sweep_storage, allowance,
}

module _ (sha256 : List ℕ → Text) where
  abbrev pub IsIntact : Library → Type 0
  IsIntact s = All (λ f. sha256 f.bytes ≡ f.name) s.spooled

  remove_doomed-IsIntact :
      (doomed : List SpoolItem) (s : Library) → IsIntact s → IsIntact (remove_doomed doomed s)
  unfolding remove_doomed
  remove_doomed-IsIntact [] s h = h
  remove_doomed-IsIntact (i ∷ doomed) s h =
      remove_doomed-IsIntact doomed _ (All-delete _ (is_named i.content_hash) s.spooled h)

  evict_spool-IsIntact :
      (s : Library) (user_id : Text) (now : ℕ) → IsIntact s → IsIntact (evict_spool s user_id now)
  unfolding evict_spool
  evict_spool-IsIntact s user_id now h =
      remove_doomed-IsIntact
        (spool_evictable_for s user_id
          (budget_of s (head? (select (is_account user_id) s.accounts))) now)
        s h

  park-IsIntact :
      (s : Library) (session : UploadSession) (bytes : List ℕ) (now : ℕ)
      → sha256 bytes ≡ session.content_hash
      → IsIntact s
      → IsIntact (park s session bytes now)
  unfolding park
  park-IsIntact s session bytes now e h =
      let file : File = record { name = session.content_hash; bytes = bytes } in
      All-append _ (delete (is_named session.content_hash) s.spooled) (file ∷ [])
        (All-delete _ (is_named session.content_hash) s.spooled h) (e, tt)

  spool-IsIntact :
      (s : Library) (session : UploadSession) (bytes : List ℕ) (now : ℕ)
      → sha256 bytes ≡ session.content_hash
      → IsIntact s
      → IsIntact (spool s session bytes now).0
  unfolding spool
  spool-IsIntact s session bytes now e h =
      evict_spool-IsIntact (park s session bytes now) session.user_id now
        (park-IsIntact s session bytes now e h)

  module _ (read_tags : List ℕ → FileTags) where
    place-IsIntact :
        (s : Library) (session : UploadSession) (bytes : List ℕ) (uuid root relative : Text)
        (r : Resolved)
        → IsIntact s
        → IsIntact (place read_tags s session bytes uuid root relative r).0
    unfolding place shelve
    place-IsIntact s session bytes uuid root relative (resolved path) h = h
    place-IsIntact s session bytes uuid root relative absolute h = h
    place-IsIntact s session bytes uuid root relative traversal h = h

    archive_under-IsIntact :
        (s : Library) (session : UploadSession) (bytes : List ℕ) (uuid relative : Text)
        (root : Option Text)
        → IsIntact s
        → IsIntact (archive_under read_tags s session bytes uuid relative root).0
    unfolding archive_under
    archive_under-IsIntact s session bytes uuid relative none h = h
    archive_under-IsIntact s session bytes uuid relative (some root) h =
        place-IsIntact s session bytes uuid root relative _ h

    file_upload-IsIntact :
        (s : Library) (session : UploadSession) (target : Target) (bytes : List ℕ) (now : ℕ)
        (uuid : Text)
        → sha256 bytes ≡ session.content_hash
        → IsIntact s
        → IsIntact (file_upload sha256 read_tags s session target bytes now uuid).0
    unfolding file_upload archive
    file_upload-IsIntact s session to_archive bytes now uuid e h =
        archive_under-IsIntact s session bytes uuid (shelf_path read_tags s session bytes)
          s.storage.library_root h
    file_upload-IsIntact s session to_spool bytes now uuid e h =
        spool-IsIntact s session bytes now e h

    finish_session-IsIntact :
        (s : Library) (session : UploadSession) (now : ℕ) (uuid : Text)
        → IsIntact s
        → IsIntact (finish_session sha256 read_tags s session now uuid).0
    unfolding finish_session close
    finish_session-IsIntact s session now uuid h =
        elim (Bool-cases (
          same (sha256 (bytes_or_empty (read_file session.upload_id s.parts)))
            session.content_hash)) [
              | inl e ↦
                  rw e
                    (file_upload-IsIntact s session session.target _ now uuid (eq_of_same _ _ e) h)
              | inr e ↦ rw e h
            ]

    finish_found-IsIntact :
        (s : Library) (session : Option UploadSession) (now : ℕ) (uuid : Text)
        → IsIntact s
        → IsIntact (finish_found sha256 read_tags s session now uuid).0
    unfolding finish_found
    finish_found-IsIntact s none now uuid h = h
    finish_found-IsIntact s (some session) now uuid h = finish_session-IsIntact s session now uuid h

    after_copy-IsIntact :
        (s : Library) (user : Account) (session : UploadSession) (offset allowed written : ℕ)
        (file : List ℕ) (now : ℕ) (uuid : Text)
        → IsIntact s
        → IsIntact
            (after_copy sha256 read_tags s user session offset allowed written file now uuid).0
    unfolding after_copy close finish_upload
    after_copy-IsIntact s user session offset allowed written file now uuid h =
        elim (Bool-cases (ltb allowed written)) [
          | inl e ↦ rw e h
          | inr e ↦ elim (Bool-cases (ltb (offset + written) session.size_bytes)) [
            | inl k ↦ rw (e, k) h
            | inr k ↦ rw (e, k) (finish_found-IsIntact _ _ now uuid h)
          ]
        ]

    copy-IsIntact :
        (s : Library) (user : Account) (session : UploadSession) (offset : ℕ) (existing : List ℕ)
        (body : Stream) (now : ℕ) (uuid : Text)
        → IsIntact s
        → IsIntact (copy sha256 read_tags s user session offset existing body now uuid).0
    unfolding copy
    copy-IsIntact s user session offset existing body now uuid h =
        elim (Bool-cases (
          is_broken body
          && ltb (length (body_of body)) (allowance sha256 read_tags s user session offset + 1))) [
            | inl e ↦ rw e h
            | inr e ↦ rw e (after_copy-IsIntact s user session offset _ _ _ now uuid h)
          ]

    put_session-IsIntact :
        (s : Library) (user : Account) (session : UploadSession) (offset : Offset) (body : Stream)
        (now : ℕ) (uuid : Text)
        → IsIntact s
        → IsIntact (put_session sha256 read_tags s user session offset body now uuid).0
    unfolding put_session
    put_session-IsIntact s user session below_zero body now uuid h =
        elim (Bool-cases (same session.user_id user.username)) [ inl e ↦ rw e h | inr e ↦ rw e h ]
    put_session-IsIntact s user session (from offset) body now uuid h =
        elim (Bool-cases (same session.user_id user.username)) [
          | inl e ↦
              let existing = bytes_or_empty (read_file session.upload_id s.parts) in
              elim (Bool-cases (ltb (length existing) offset)) [
                | inl k ↦ rw (e, k) h
                | inr k ↦ rw (e, k) (copy-IsIntact s user session offset existing body now uuid h)
              ]
          | inr e ↦ rw e h
        ]

    put_found-IsIntact :
        (s : Library) (user : Account) (found : Option UploadSession) (offset : Offset)
        (body : Stream) (now : ℕ) (uuid : Text)
        → IsIntact s
        → IsIntact (put_found sha256 read_tags s user found offset body now uuid).0
    unfolding put_found
    put_found-IsIntact s user none offset body now uuid h = h
    put_found-IsIntact s user (some session) offset body now uuid h =
        put_session-IsIntact s user session offset body now uuid h

    evict_all-IsIntact :
        (users : List Text) (now : ℕ) (s : Library)
        → IsIntact s
        → IsIntact (evict_all sha256 read_tags users now s)
    unfolding evict_all
    evict_all-IsIntact [] now s h = h
    evict_all-IsIntact (u ∷ users) now s h =
        evict_all-IsIntact users now (evict_spool s u now) (evict_spool-IsIntact s u now h)

    drop_uploads-IsIntact :
        (expired : List UploadSession) (s : Library)
        → IsIntact s
        → IsIntact (drop_uploads sha256 read_tags expired s)
    unfolding drop_uploads close
    drop_uploads-IsIntact [] s h = h
    drop_uploads-IsIntact (u ∷ expired) s h = drop_uploads-IsIntact expired _ h

    sweep_storage-IsIntact :
        (s : Library) (now : ℕ) → IsIntact s → IsIntact (sweep_storage sha256 read_tags s now)
    unfolding sweep_storage
    sweep_storage-IsIntact s now h =
        let evicted = evict_all sha256 read_tags (spool_users s.spool_items) now s in
        drop_uploads-IsIntact (expired_uploads now evicted.upload_sessions) evicted
          (evict_all-IsIntact (spool_users s.spool_items) now s h)

    create_upload-IsIntact :
        (s : Library) (user : Account) (body : BeginUpload) (now : ℕ) (uuid : Text)
        → IsIntact s
        → IsIntact (create_upload s user body now uuid).0
    unfolding create_upload
    create_upload-IsIntact s user body now uuid h =
        elim (Bool-cases (
          is_over (effective_quota user) (spool_bytes_for s user.username) body.track.size_bytes)) [
            | inl e ↦ rw e h
            | inr e ↦ rw e h
          ]

    resume_or_create-IsIntact :
        (s : Library) (user : Account) (body : BeginUpload) (now : ℕ) (uuid : Text)
        (existing : Option UploadSession)
        → IsIntact s
        → IsIntact (resume_or_create s user body now uuid existing).0
    unfolding resume_or_create
    resume_or_create-IsIntact s user body now uuid none h =
        create_upload-IsIntact s user body now uuid h
    resume_or_create-IsIntact s user body now uuid (some existing) h = h

    begin_indexed-IsIntact :
        (s : Library) (user : Account) (body : BeginUpload) (now : ℕ) (uuid : Text)
        → IsIntact s
        → IsIntact (begin_indexed s user body now uuid).0
    unfolding begin_indexed
    begin_indexed-IsIntact s user body now uuid h =
        elim (Bool-cases (is_present s user body.track.content_hash)) [
          | inl e ↦ rw e h
          | inr e ↦ rw e (resume_or_create-IsIntact s user body now uuid _ h)
        ]

    begin_unless-IsIntact :
        (s : Library) (user : Account) (body : BeginUpload) (now : ℕ) (uuid : Text)
        (refusal : Option BeginReply)
        → IsIntact s
        → IsIntact (begin_unless s user body now uuid refusal).0
    unfolding begin_unless index_upload
    begin_unless-IsIntact s user body now uuid (some refusal) h = h
    begin_unless-IsIntact s user body now uuid none h =
        begin_indexed-IsIntact (index_upload s user body now) user body now uuid h

    -- What can happen to the library, from an empty spool on.
    pub data History : Library → Type 0 where
      opened : (s : Library) → s.spooled ≡ [] → History s
      begun :
          {s : Library}
          → History s
          → (user : Account) (body : BeginUpload) (now : ℕ) (uuid : Text)
          → History (begin_upload s user body now uuid).0
      received :
          {s : Library}
          → History s
          → (user : Account) (upload_id : Text) (header : Option Offset) (body : Stream) (now : ℕ)
            (uuid : Text)
          → History (put_upload sha256 read_tags s user upload_id header body now uuid).0
      swept : {s : Library} → History s → (now : ℕ) → History (sweep_storage sha256 read_tags s now)

    pub History-IsIntact : {s : Library} → History s → IsIntact s
    unfolding put_upload begin_upload
    History-IsIntact (opened s e) = subst (All (λ f. sha256 f.bytes ≡ f.name)) (sym e) tt
    History-IsIntact (begun {s} past user body now uuid) =
        begin_unless-IsIntact s user body now uuid (invalid body) (History-IsIntact past)
    History-IsIntact (received {s} past user upload_id header body now uuid) =
        put_found-IsIntact s user (upload_session s upload_id) (or_beginning header) body now uuid
          (History-IsIntact past)
    History-IsIntact (swept {s} past now) = sweep_storage-IsIntact s now (History-IsIntact past)

-- A file that a name reads has that name and is one of the files.
pub read_file-All :
    (P : File → Type 0) (name : Text) (files : List File) (f : File)
    → All P files
    → read_file name files ≡ some f
    → P f × (f.name ≡ name)
unfolding select
read_file-All P name [] f h e = absurd (cc e)
read_file-All P name (g ∷ files) f h e = elim (Bool-cases (is_named name g)) [
  | inl k ↦
      let same_file : g ≡ f = Option.some-injective g f (rw k at e) in
      (
        subst P same_file h.0,
        subst (λ (x : File). x.name ≡ name) same_file (eq_of_same g.name name k),
      )
  | inr k ↦ read_file-All P name files f h.1 (rw k at e)
]
