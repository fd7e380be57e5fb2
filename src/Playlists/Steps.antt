-- ===== src/Playlists/Steps.antt =====
-- The writes to the tables of playlists, one at a time.
use agro.Base.{
  ℕ, ◌≡◌, Bool, false, List, [], Option, arith, Text, same, any, update, Option-cases, inl, inr,
}
use agro.Social.{Graph}
use agro.Playlists.{
  Store, Row, NewPlaylistItem, has_id, find, get_playlist, playlist_role, bump_revision,
  create_playlist, update_playlist_visibility, update_playlist_edit_access, delete_playlist,
  follow_playlist, unfollow_playlist, playlist_from_row,
}
use agro.Playlists.Access.{PlaylistVisibility, EditAccess}
use agro.Playlists.Blends.{
  BlendSettings, Pick, create_blend, answer_blend_invite, leave_blend, update_blend, write_blend,
  empty_waiting_blend, erase_playlists,
}
use agro.Playlists.Items.{add_playlist_item, add_playlist_items, remove_playlist_item}
use agro.Playlists.Edits.{
  PlaylistEdit, ok, apply_edits, draft_of, apply_playlist_edits, update_playlist_details,
  commit_edits, Result-cases,
}

-- One write: every function that changes the tables of playlists, items, followers and blends; and
-- any change of the friend graph. Migrations and the normalised name columns are left out. A minted
-- playlist id is new.
pub data Step (s : Store) : Store → Type 0 where
  create :
      (id user_id title : Text) (description : Option Text) (level : PlaylistVisibility) (now : ℕ)
      → any (has_id id) s.playlists ≡ false
      → Step s (create_playlist s id user_id title description level now).0
  visibility :
      (id user_id : Text) (level : PlaylistVisibility) (now : ℕ)
      → Step s (update_playlist_visibility s id user_id level now).0
  access :
      (id who : Text) (e : EditAccess) (now : ℕ)
      → Step s (update_playlist_edit_access s id who e now).0
  erase : (id user_id : Text) → Step s (delete_playlist s id user_id).0
  follow : (id who : Text) (now : ℕ) → Step s (follow_playlist s id who now)
  unfollow : (id who : Text) → Step s (unfollow_playlist s id who).0
  add_item :
      (mint : ℕ → Text) (id actor : Text) (t : NewPlaylistItem) (now : ℕ)
      → Step s (add_playlist_item s mint id actor t now).0
  add_items :
      (mint : ℕ → Text) (id actor : Text) (ts : List NewPlaylistItem) (now : ℕ)
      → Step s (add_playlist_items s mint id actor ts now).0
  remove_item : (id item : Text) (now : ℕ) → Step s (remove_playlist_item s id item now).0
  edits :
      (mint : ℕ → Text) (id actor : Text) (base now n : ℕ) (es : List PlaylistEdit) (s' : Store)
      → apply_playlist_edits s mint id actor base es now ≡ ok (n, s')
      → Step s s'
  details :
      (id who : Text) (base : ℕ) (title : Text) (description : Option Text) (now n : ℕ) (s' : Store)
      → update_playlist_details s id who base title description now ≡ ok (n, s')
      → Step s s'
  blend :
      (id owner title : Text) (invited : List Text) (settings : BlendSettings) (now : ℕ)
      → any (has_id id) s.playlists ≡ false
      → Step s (create_blend s id owner title invited settings now).0
  answer :
      (id who : Text) (accept : Bool) (now : ℕ) → Step s (answer_blend_invite s id who accept now).0
  leave : (id who : Text) → Step s (leave_blend s id who).0
  recipe :
      (id title : Text) (settings : BlendSettings) (now : ℕ)
      → Step s (update_blend s id title settings now)
  rewrite :
      (mint : ℕ → Text) (id : Text) (picks : List Pick) (now : ℕ)
      → Step s (write_blend s mint id picks now)
  wait : (id : Text) (now : ℕ) → Step s (empty_waiting_blend s id now)
  erase_account : (username : Text) → Step s (erase_playlists s username)
  befriend : (graph : Graph) → Step s (record s { graph = graph })

pub data Reach : Store → Type 0 where
  start : (s : Store) → s.playlists ≡ [] → Reach s
  one_more : {s s' : Store} → Reach s → Step s s' → Reach s'

-- Whether a step makes a playlist of this id.
abbrev pub mints : {s s' : Store} → Text → Step s s' → Bool
mints id (create made user title d level now fresh) = same made id
mints id (blend made owner title invited settings now fresh) = same made id
mints id _ = false

-- A later state, the id not being minted again in between.
pub data Later (id : Text) (s : Store) : Store → Type 0 where
  at_once : Later id s s
  and_then : {t u : Store} → Later id s t → (st : Step t u) → mints id st ≡ false → Later id s u

-- What an edit and a change of the details that succeed make of the table of playlists.
pub edits-playlists :
    (s s' : Store) (mint : ℕ → Text) (id actor : Text) (base now n : ℕ) (es : List PlaylistEdit)
    → apply_playlist_edits s mint id actor base es now ≡ ok (n, s')
    → s'.playlists ≡ bump_revision s.playlists id now
unfolding apply_playlist_edits commit_edits get_playlist
edits-playlists s s' mint id actor base now n es e =
    elim (Option-cases (find (has_id id) s.playlists)) [
      | inl miss ↦ absurd (ground arith)
      | inr (r, hit) ↦
          let role = playlist_role s (playlist_from_row r) actor in
          elim (Result-cases
            (apply_edits mint id actor now role (draft_of s.playlist_items id) es)) [
              | inl (d, h) ↦ ground arith
              | inr (error, h) ↦ absurd (ground arith)
            ]
    ]

abbrev pub set_details : Text → Option Text → Row → Row
set_details title description q = record q { title = title; description = description }

pub details-playlists :
    (s s' : Store) (id who : Text) (base : ℕ) (title : Text) (description : Option Text) (now n : ℕ)
    → update_playlist_details s id who base title description now ≡ ok (n, s')
    → s'.playlists
      ≡ bump_revision (update (has_id id) (set_details title description) s.playlists) id now
unfolding update_playlist_details
details-playlists s s' id who base title description now n e =
    elim (Option-cases (find (has_id id) s.playlists)) [
      | inl miss ↦ absurd (ground arith)
      | inr (r, hit) ↦ ground arith
    ]

pub answer-playlists :
    (s : Store) (id who : Text) (accept : Bool) (now : ℕ)
    → (answer_blend_invite s id who accept now).0.playlists ≡ s.playlists
unfolding answer_blend_invite
answer-playlists s id who accept now = ground arith
