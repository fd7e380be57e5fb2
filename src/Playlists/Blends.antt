-- ===== src/Playlists/Blends.antt =====
-- The blends at rest: src/db_blend.rs, the two writes of src/db_blend_refresh.rs, and what
-- src/db/erasure.rs does to the playlists of an account that is deleted.
use agro.Base.{
  ℕ, suc, Bool, false, ◌&&◌, ◌||◌, not, List, [], ◌∷◌, ◌++◌, Option, none, some, Text, same, codes,
  trim, to_lowercase, eq_nocase, delete, update, any, count, ltb, if◌then◌else◌, insert_or_ignore,
}
use agro.Playlists.{
  Store, Row, Playlist, PlaylistItem, NewPlaylistItem, place_at, Follower, Blend, BlendMember,
  BlendWindow, BlendRefresh, has_id, bump_revision, playlist_from_row,
}
use agro.Playlists.Items.{is_in, insert_item}

pub record BlendSettings : Type 0 where
  pub size : ℕ
  pub mix : ℕ
  pub window : BlendWindow
  pub refresh : BlendRefresh

abbrev pub is_blend : Text → Blend → Bool
is_blend playlist_id b = same b.playlist_id playlist_id

abbrev pub is_seat : Text → Text → BlendMember → Bool
is_seat playlist_id name m = same m.playlist_id playlist_id && same m.username name

abbrev pub blend_row : Text → Text → Text → ℕ → Row
blend_row id owner title now = record {
  id = id;
  user_id = owner;
  title = title;
  description = none;
  is_public = false;
  friends_only = false;
  created_at = now;
  updated_at = now;
  revision = 0;
  edit_access = 0;
  kind = codes "blend";
}

unfoldable pub invite : Text → ℕ → List Text → List BlendMember → List BlendMember
unfolding trim to_lowercase insert_or_ignore
invite id now [] members = members
invite id now (name ∷ invited) members =
    let who = to_lowercase (trim name) in
    invite id now invited (
      insert_or_ignore (is_seat id who)
        (record { playlist_id = id; username = who; state = codes "invited"; invited_at = now })
        members)

unfoldable pub create_blend :
    Store → Text → Text → Text → List Text → BlendSettings → ℕ → Store × Playlist
unfolding invite
create_blend s id owner title invited settings now =
    let blend : Blend = record {
      playlist_id = id;
      size = settings.size;
      mix = settings.mix;
      time_window = settings.window;
      refresh = settings.refresh;
      refreshed_at = none;
    } in
    let first : BlendMember = record {
      playlist_id = id;
      username = owner;
      state = codes "joined";
      invited_at = now;
    } in
    (
      record s {
        playlists = s.playlists ++ blend_row id owner title now ∷ [];
        blends = s.blends ++ blend ∷ [];
        blend_members = invite id now invited (s.blend_members ++ first ∷ []);
      },
      playlist_from_row (blend_row id owner title now),
    )

-- Written again the next time anyone reads it.
unfoldable pub mark_due : Text → List Blend → List Blend
unfolding update same
mark_due playlist_id blends =
    update (is_blend playlist_id) (λ b. record b { refreshed_at = none }) blends

abbrev pub is_invited : Text → Text → BlendMember → Bool
is_invited playlist_id name m = is_seat playlist_id name m && same m.state (codes "invited")

unfoldable pub answer_blend_invite : Store → Text → Text → Bool → ℕ → Store × Bool
unfolding mark_due insert_or_ignore update delete count trim to_lowercase same
answer_blend_invite s playlist_id username accept now =
    let name = to_lowercase (trim username) in
    let asked = is_invited playlist_id name in
    let changed = ltb 0 (count asked s.blend_members) in
    let follow : Follower = record {
      playlist_id = playlist_id;
      user_id = name;
      followed_at = now;
    } in
    let joined = record s {
      blend_members = update asked (λ m. record m { state = codes "joined" }) s.blend_members;
    } in
    if not accept
    then (record s { blend_members = delete asked s.blend_members }, changed)
    else if changed
    then (
      record joined {
        playlist_followers =
            insert_or_ignore (λ f. same f.playlist_id playlist_id && same f.user_id name) follow
              s.playlist_followers;
        blends = mark_due playlist_id s.blends;
      },
      changed,
    )
    else (joined, changed)

unfoldable pub leave_blend : Store → Text → Text → Store × Bool
unfolding mark_due delete count trim to_lowercase same
leave_blend s playlist_id username =
    let name = trim username in
    let seat = λ (m : BlendMember). same m.playlist_id playlist_id && eq_nocase m.username name in
    (
      record s {
        blend_members = delete seat s.blend_members;
        playlist_followers =
            delete (λ f. same f.playlist_id playlist_id && eq_nocase f.user_id name)
              s.playlist_followers;
        blends = mark_due playlist_id s.blends;
      },
      ltb 0 (count seat s.blend_members),
    )

unfoldable pub update_blend : Store → Text → Text → BlendSettings → ℕ → Store
unfolding mark_due update same bump_revision
update_blend s playlist_id title settings now =
    let set = λ (b : Blend). record b {
      size = settings.size;
      mix = settings.mix;
      time_window = settings.window;
      refresh = settings.refresh;
    } in
    let rename = λ (r : Row). record r { title = title } in
    record s {
      blends = mark_due playlist_id (update (is_blend playlist_id) set s.blends);
      playlists = bump_revision (update (has_id playlist_id) rename s.playlists) playlist_id now;
    }

-- A track chosen for a blend, and the first of the members it was chosen for.
pub record Pick : Type 0 where
  pub track : NewPlaylistItem
  pub from : Text

unfoldable pub insert_picks :
    (ℕ → Text) → Text → ℕ → ℕ → List Pick → List PlaylistItem → List PlaylistItem
unfolding insert_item
insert_picks mint playlist_id now n [] items = items
insert_picks mint playlist_id now n (pick ∷ picks) items =
    insert_picks mint playlist_id now (suc n) picks
      (insert_item items (mint n) playlist_id (place_at n) pick.from pick.track now)

-- The transaction of `refresh_blend_if_due`, given the tracks that were chosen.
unfoldable pub write_blend : Store → (ℕ → Text) → Text → List Pick → ℕ → Store
unfolding insert_picks delete update same bump_revision
write_blend s mint playlist_id picks now = record s {
  playlist_items =
      insert_picks mint playlist_id now 0 picks (delete (is_in playlist_id) s.playlist_items);
  blends = update (is_blend playlist_id) (λ b. record b { refreshed_at = some now }) s.blends;
  playlists = bump_revision s.playlists playlist_id now;
}

unfoldable pub empty_waiting_blend : Store → Text → ℕ → Store
unfolding mark_due delete count same bump_revision
empty_waiting_blend s playlist_id now =
    if ltb 0 (count (is_in playlist_id) s.playlist_items)
    then record s {
      playlist_items = delete (is_in playlist_id) s.playlist_items;
      blends = mark_due playlist_id s.blends;
      playlists = bump_revision s.playlists playlist_id now;
    }
    else s

abbrev pub is_owner : Text → Row → Bool
is_owner username r = same r.user_id username

-- Whether the playlist of an id is the account's.
abbrev pub is_owned : Store → Text → Text → Bool
is_owned s username playlist_id =
    any (λ r. is_owner username r && same r.id playlist_id) s.playlists

abbrev is_added_by : Text → Option Text → Bool
is_added_by username none = false
is_added_by username (some name) = eq_nocase name username

-- The track stays where another account's playlist has it, without the name.
abbrev scrub : PlaylistItem → PlaylistItem
scrub i = record i { added_by = none }

-- What the deletion of an account does to the tables of playlists.
unfoldable pub erase_playlists : Store → Text → Store
unfolding any delete update same to_lowercase
erase_playlists s username =
    let items = delete (λ i. is_owned s username i.playlist_id) s.playlist_items in
    let members = delete (λ m. is_owned s username m.playlist_id) s.blend_members in
    let is_in_blend = λ (b : Blend).
      any (λ m. same m.username username && same m.playlist_id b.playlist_id) members in
    record s {
      playlist_items = update (λ i. is_added_by username i.added_by) scrub items;
      playlist_followers =
          delete (λ f. same f.user_id username || is_owned s username f.playlist_id)
            s.playlist_followers;
      blends =
          update is_in_blend (λ b. record b { refreshed_at = none })
            (delete (λ b. is_owned s username b.playlist_id) s.blends);
      blend_members = delete (λ m. eq_nocase m.username username) members;
      playlists = delete (is_owner username) s.playlists;
    }
