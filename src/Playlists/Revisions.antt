-- ===== src/Playlists/Revisions.antt =====
-- Revisions: an edit is made against one state of the playlist, and moves it on by one.
use agro.Base.{
  ℕ, suc, ◌≡◌, List, [], ◌∷◌, Option, none, some, arith, Text, update, Option-cases, inl, inr,
}
use agro.Playlists.{
  Store, Row, has_id, find, get_playlist, playlist_role, bump, bump_revision, playlist_from_row,
}
use agro.Playlists.Edits.{
  PlaylistEdit, ok, apply_edits, draft_of, commit_edits, apply_playlist_edits, Result-cases,
}

pub find-bump_revision :
    (rows : List Row) (id : Text) (now : ℕ) (r : Row)
    → find (has_id id) rows ≡ some r
    → find (has_id id) (bump_revision rows id now) ≡ some (bump now r)
unfolding find bump_revision update
find-bump_revision [] id now r h = ground arith
find-bump_revision (q ∷ rows) id now r h = ground (arith, find-bump_revision rows id now r)

-- The revision that the table holds for a playlist.
abbrev pub revision : Store → Text → Option ℕ
revision s id = elim (find (has_id id) s.playlists) [ none ↦ none | some r ↦ some r.revision ]

-- An edit that succeeds was made against the revision that the playlist had, and moves it on by
-- one: the new revision is what the call answers and what the table then holds.
pub apply_playlist_edits-revision :
    (s s' : Store) (mint : ℕ → Text) (id actor : Text) (base now next : ℕ)
    (edits : List PlaylistEdit)
    → apply_playlist_edits s mint id actor base edits now ≡ ok (next, s')
    → (revision s id ≡ some base) × (revision s' id ≡ some next) × (next ≡ suc base)
unfolding apply_playlist_edits commit_edits get_playlist
apply_playlist_edits-revision s s' mint id actor base now next edits e =
    elim (Option-cases (find (has_id id) s.playlists)) [
      | inl miss ↦ ground arith
      | inr (r, hit) ↦
          let role = playlist_role s (playlist_from_row r) actor in
          elim (Result-cases
            (apply_edits mint id actor now role (draft_of s.playlist_items id) edits)) [
              | inl (d, h) ↦ ground (arith, find-bump_revision s.playlists id now r hit)
              | inr (error, h) ↦ ground arith
            ]
    ]
