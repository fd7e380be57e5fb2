-- ===== src/Playlists.antt =====
-- Playlists: src/db_playlists.rs, src/db_playlist_items.rs, src/playlist_visibility.rs and
-- src/playlist_access.rs. The state is the record `Store` of the tables that these files read and
-- write, with the friend graph beside them.
pub mod Access
pub mod Blends
pub mod Clamps
pub mod Contributors
pub mod Edits
mod Examples
pub mod History
pub mod Items
pub mod Once
pub mod Revisions
pub mod Roles
pub mod Steps
use agro.Base.{
  ℕ, suc, ◌+◌, ◌≡◌, Bool, true, false, ◌&&◌, ◌||◌, not, List, [], ◌∷◌, ◌++◌, map, Option, none,
  some, Text, same, codes, trim, eq_nocase, select, delete, update, any, count, ltb, ◌==◌,
  if◌then◌else◌, head?, length, insert_or_ignore,
}
use agro.Social.{Graph, FriendState, pending, accepted, blocked, friend_state, are_friends}
use Access.{
  PlaylistVisibility, EditAccess, PlaylistRole, flags, from_flags, from_stored, stored, clamped_to,
  off, is_off, is_public_access, owner, editor, contributor, viewer,
}

-- A row of `playlists`. `edit_access` is the raw column, which `playlist_from_row` reads.
pub record Row : Type 0 where
  pub id : Text
  pub user_id : Text
  pub title : Text
  pub description : Option Text
  pub is_public : Bool
  pub friends_only : Bool
  pub created_at : ℕ
  pub updated_at : ℕ
  pub revision : ℕ
  pub edit_access : ℕ
  pub kind : Text

pub record Playlist : Type 0 where
  pub id : Text
  pub user_id : Text
  pub title : Text
  pub description : Option Text
  pub is_public : Bool
  pub friends_only : Bool
  pub created_at : ℕ
  pub updated_at : ℕ
  pub revision : ℕ
  pub edit_access : EditAccess
  pub kind : Text

abbrev pub playlist_from_row : Row → Playlist
playlist_from_row r = record {
  id = r.id;
  user_id = r.user_id;
  title = r.title;
  description = r.description;
  is_public = r.is_public;
  friends_only = r.friends_only;
  created_at = r.created_at;
  updated_at = r.updated_at;
  revision = r.revision;
  edit_access = from_stored r.edit_access;
  kind = r.kind;
}

pub record NewPlaylistItem : Type 0 where
  pub title : Text
  pub artist : Text
  pub album : Option Text
  pub duration_ms : Option ℕ
  pub artwork_url : Option Text
  pub origin_uri : Option Text

-- The column `position`: -1 while an edit has not placed the item, or a number from 0.
pub data Position : Type 0 where
  unplaced : Position
  place_at : ℕ → Position

-- A row of `playlist_items`. The columns norm_artist and norm_title are functions of the track,
-- which nothing here reads, and are left out.
pub record PlaylistItem : Type 0 where
  pub id : Text
  pub playlist_id : Text
  pub position : Position
  pub track : NewPlaylistItem
  pub added_by : Option Text
  pub added_at : Option ℕ

pub record Follower : Type 0 where
  pub playlist_id : Text
  pub user_id : Text
  pub followed_at : ℕ

-- `BlendWindow` and `BlendRefresh` of src/blend_recipe.rs
pub data BlendWindow : Type 0 where
  four_weeks six_months all_time : BlendWindow

pub data BlendRefresh : Type 0 where
  daily weekly frozen : BlendRefresh

-- A row of `blends`; its numbers are not negative.
pub record Blend : Type 0 where
  pub playlist_id : Text
  pub size : ℕ
  pub mix : ℕ
  pub time_window : BlendWindow
  pub refresh : BlendRefresh
  pub refreshed_at : Option ℕ

pub record BlendMember : Type 0 where
  pub playlist_id : Text
  pub username : Text
  pub state : Text
  pub invited_at : ℕ

pub record Store : Type 0 where
  pub playlists : List Row
  pub playlist_items : List PlaylistItem
  pub playlist_followers : List Follower
  pub blends : List Blend
  pub blend_members : List BlendMember
  pub graph : Graph

abbrev pub is_generated : Playlist → Bool
is_generated p = not (same p.kind (codes "manual"))

abbrev pub visibility : Playlist → PlaylistVisibility
visibility p = from_flags p.is_public p.friends_only

abbrev pub has_id : Text → Row → Bool
has_id id r = same r.id id

abbrev pub owned : Text → Text → Row → Bool
owned id user_id r = same r.id id && same r.user_id user_id

-- `query_row(…).optional()`
unfoldable pub find : (Row → Bool) → List Row → Option Row
find p [] = none
find p (r ∷ rs) = let rest = find p rs in if p r then some r else rest

unfoldable pub get_playlist : Store → Text → Option Playlist
get_playlist s id = elim (find (has_id id) s.playlists) [
  | none ↦ none
  | some r ↦ some (playlist_from_row r)
]

unfoldable pub is_blend_member : Store → Text → Text → Bool
is_blend_member s playlist_id username =
    any
      (λ m.
        same m.playlist_id playlist_id
        && eq_nocase m.username (trim username)
        && same m.state (codes "joined"))
      s.blend_members

abbrev pub opens : PlaylistVisibility → Bool → Bool
opens PlaylistVisibility.public friends = true
opens PlaylistVisibility.friends friends = friends
opens PlaylistVisibility.private friends = false

unfoldable pub can_view_playlist : Store → Playlist → Text → Bool
can_view_playlist s p who =
    if same p.user_id who
    then true
    else if is_generated p
    then is_blend_member s p.id who
    else opens (visibility p) (are_friends s.graph p.user_id who)

-- The last match of `playlist_role`, where edit access is not off.
abbrev pub role_of : EditAccess → Option FriendState → PlaylistRole
role_of access (some blocked) = viewer
role_of access (some accepted) = editor
role_of access (some pending) = if is_public_access access then contributor else viewer
role_of access none = if is_public_access access then contributor else viewer

unfoldable pub playlist_role : Store → Playlist → Text → PlaylistRole
playlist_role s p who =
    let access = clamped_to p.edit_access (visibility p) in
    if is_generated p
    then if can_view_playlist s p who then viewer else PlaylistRole.none
    else if same p.user_id who
    then owner
    else if not (can_view_playlist s p who)
    then PlaylistRole.none
    else if is_off access
    then viewer
    else role_of access (friend_state s.graph p.user_id who)

abbrev pub bump : ℕ → Row → Row
bump now r = record r { revision = r.revision + 1; updated_at = now }

-- UPDATE … RETURNING revision: the new table and the revision, or none where no row has the id.
unfoldable pub bump_revision : List Row → Text → ℕ → List Row
bump_revision rows id now = update (has_id id) (bump now) rows

unfoldable pub create_playlist :
    Store → Text → Text → Text → Option Text → PlaylistVisibility → ℕ → Store × Playlist
create_playlist s id user_id title description level now =
    let (is_public, friends_only) = flags level in
    let row : Row = record {
      id = id;
      user_id = user_id;
      title = title;
      description = description;
      is_public = is_public;
      friends_only = friends_only;
      created_at = now;
      updated_at = now;
      revision = 0;
      edit_access = 0;
      kind = codes "manual";
    } in
    (record s { playlists = s.playlists ++ row ∷ [] }, playlist_from_row row)

unfoldable pub update_playlist_visibility :
    Store → Text → Text → PlaylistVisibility → ℕ → Store × Bool
update_playlist_visibility s id user_id level now = elim (find (owned id user_id) s.playlists) [
  | none ↦ (s, false)
  | some current ↦
      let access = clamped_to (from_stored current.edit_access) level in
      let set = λ (r : Row). record r {
        is_public = (flags level).0;
        friends_only = (flags level).1;
        edit_access = stored access;
      } in
      (record s { playlists = bump_revision (update (has_id id) set s.playlists) id now }, true)
]

unfoldable pub delete_playlist : Store → Text → Text → Store × Bool
delete_playlist s id user_id =
    let rest = delete (owned id user_id) s.playlists in
    if ltb 0 (count (owned id user_id) s.playlists)
    then (
      record s {
        playlists = rest;
        playlist_items = delete (λ i. same i.playlist_id id) s.playlist_items;
        playlist_followers = delete (λ f. same f.playlist_id id) s.playlist_followers;
        blends = delete (λ b. same b.playlist_id id) s.blends;
        blend_members = delete (λ m. same m.playlist_id id) s.blend_members;
      },
      true,
    )
    else (s, false)

-- `Db::update_playlist_edit_access` of src/db_playlist_edits.rs
unfoldable pub update_playlist_edit_access :
    Store → Text → Text → EditAccess → ℕ → Store × Option EditAccess
update_playlist_edit_access s id who access now = elim (get_playlist s id) [
  | none ↦ (s, none)
  | some p ↦
      let kept = clamped_to access (visibility p) in
      let set = λ (r : Row). record r { edit_access = stored kept } in
      if same p.user_id who
      then (
        record s { playlists = bump_revision (update (has_id id) set s.playlists) id now },
        some kept,
      )
      else (s, none)
]

-- src/db_playlist_followers.rs
unfoldable pub follow_playlist : Store → Text → Text → ℕ → Store
follow_playlist s playlist_id user_id now =
    let key = λ (f : Follower). same f.playlist_id playlist_id && same f.user_id user_id in
    let row : Follower = record {
      playlist_id = playlist_id;
      user_id = user_id;
      followed_at = now;
    } in
    record s { playlist_followers = insert_or_ignore key row s.playlist_followers }

unfoldable pub unfollow_playlist : Store → Text → Text → Store × Bool
unfollow_playlist s playlist_id user_id =
    let key = λ (f : Follower). same f.playlist_id playlist_id && same f.user_id user_id in
    (
      record s { playlist_followers = delete key s.playlist_followers },
      ltb 0 (count key s.playlist_followers),
    )

unfoldable pub is_following_playlist : Store → Text → Text → Bool
is_following_playlist s playlist_id user_id =
    any (λ f. same f.playlist_id playlist_id && same f.user_id user_id) s.playlist_followers
