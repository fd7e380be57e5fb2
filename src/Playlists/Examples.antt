-- ===== src/Playlists/Examples.antt =====
-- Playlists at concrete inputs.
use agro.Base.{
  ℕ, suc, ◌≡◌, ◌≢◌, refl, Bool, true, false, not, ◌&&◌, ◌||◌, List, [], ◌∷◌, map, Text, same, any,
  trim, to_lowercase, select, delete, update, count, insert_or_ignore, is_whitespace, trim_start,
  trim_end, to_ascii_lowercase, codes, some, none, All,
}
use agro.Social.{empty, friend_state, are_friends, contains, is_blocked}
use agro.Playlists.{
  BlendWindow, BlendRefresh, Store, Row, Playlist, PlaylistItem, NewPlaylistItem, place_at, find,
  get_playlist, is_blend_member, can_view_playlist, playlist_role, bump_revision, create_playlist,
  update_playlist_visibility, update_playlist_edit_access, delete_playlist, follow_playlist,
  unfollow_playlist, is_following_playlist,
}
use agro.Playlists.Access.{
  PlaylistVisibility, EditAccess, flags, from_flags, from_public_flag, from_stored, is_off,
  is_public_access, stored, clamped_to, can_add, can_rearrange,
}
use agro.Playlists.Roles.{playlist_role_shared}
use agro.Playlists.Items.{
  insert_by_position, order_by_position, get_playlist_items, item_ids, insert_item, renumber,
  renumber_from, next_position, add_playlist_item, insert_items, add_playlist_items,
  remove_playlist_item,
}
use agro.Playlists.Edits.{
  PlaylistEdit, add, remove, ok, err, forbidden, Draft, insert, position, remove_at, place, get,
  apply_add, apply_remove, apply_move, apply_edit, apply_edits, draft_of, commit_edits,
  apply_playlist_edits, update_playlist_details,
}
use agro.Playlists.Contributors.{content, contributor_keeps_others}
use agro.Playlists.Revisions.{revision, apply_playlist_edits-revision}
use agro.Playlists.Once.{apply_playlist_edits_once}
use agro.Playlists.Blends.{BlendSettings, create_blend, invite}
use agro.Playlists.Clamps.{IsClamped, IsKeyed}
use agro.Playlists.Steps.{start, one_more, create, blend, visibility, at_once, and_then}
use agro.Playlists.History.{Reach-IsClamped}

program : Unit {0}
unfolding same any trim to_lowercase select delete update count insert_or_ignore is_whitespace
    trim_start trim_end to_ascii_lowercase friend_state contains find get_playlist is_blend_member
    can_view_playlist playlist_role bump_revision create_playlist update_playlist_visibility
    update_playlist_edit_access delete_playlist follow_playlist unfollow_playlist
    is_following_playlist flags from_flags from_public_flag from_stored stored clamped_to can_add
    can_rearrange insert_by_position order_by_position get_playlist_items item_ids insert_item
    renumber_from next_position add_playlist_item insert_items add_playlist_items
    remove_playlist_item insert position remove_at place get apply_add apply_remove apply_move
    apply_edit apply_edits draft_of commit_edits apply_playlist_edits update_playlist_details invite
    create_blend
program = tt

abbrev ann : Text
ann = codes "ann"

abbrev bob : Text
bob = codes "bob"

abbrev mix : Text
mix = codes "p1"

abbrev row : Row
row = record {
  id = mix;
  user_id = ann;
  title = codes "Mix";
  description = none;
  is_public = true;
  friends_only = false;
  created_at = 1;
  updated_at = 1;
  revision = 4;
  edit_access = 2;
  kind = codes "manual";
}

abbrev track : NewPlaylistItem
track = record {
  title = codes "Song";
  artist = codes "Band";
  album = none;
  duration_ms = none;
  artwork_url = none;
  origin_uri = none;
}

abbrev item : Text → ℕ → Text → PlaylistItem
item id at who = record {
  id = id;
  playlist_id = mix;
  position = place_at at;
  track = track;
  added_by = some who;
  added_at = some 1;
}

abbrev store : Store
store = record {
  playlists = row ∷ [];
  playlist_items = item (codes "i2") 1 ann ∷ item (codes "i1") 0 ann ∷ item (codes "i3") 2 bob ∷ [];
  playlist_followers = record { playlist_id = mix; user_id = bob; followed_at = 2 } ∷ [];
  blends = [];
  blend_members = [];
  graph = empty;
}

-- Ids that no item of `store` has.
abbrev mint : ℕ → Text
mint n = 1000 ∷ n ∷ []

abbrev bobs_edits : List PlaylistEdit
bobs_edits = add track (some (codes "i1")) ∷ remove (codes "i3") ∷ []

the_order : item_ids store.playlist_items mix ≡ codes "i1" ∷ codes "i2" ∷ codes "i3" ∷ []
unfolding program
the_order = refl

abbrev result : Store
result = record store {
  playlists = record row { revision = 5; updated_at = 9 } ∷ [];
  playlist_items =
      item (codes "i2") 2 ann
      ∷ item (codes "i1") 0 ann
      ∷ record {
        id = mint 0;
        playlist_id = mix;
        position = place_at 1;
        track = track;
        added_by = some bob;
        added_at = some 9;
      }
      ∷ [];
}

a_contributor_adds_and_removes :
    apply_playlist_edits store mint mix bob 4 bobs_edits 9 ≡ ok (5, result)
unfolding program
a_contributor_adds_and_removes = refl

a_contributor_takes_nothing_of_others :
    apply_playlist_edits store mint mix bob 4 (remove (codes "i1") ∷ []) 9
    ≡ err (forbidden (codes "you may only remove tracks you added"))
unfolding program
a_contributor_takes_nothing_of_others = refl

abbrev playlist : Playlist
playlist = record {
  id = mix;
  user_id = ann;
  title = codes "Mix";
  description = none;
  is_public = true;
  friends_only = false;
  created_at = 1;
  updated_at = 1;
  revision = 4;
  edit_access = EditAccess.public;
  kind = codes "manual";
}

playlist_role_shared_example :
    let role = playlist_role store playlist bob in
    (can_rearrange role
      ≡ not (is_off playlist.edit_access)
        && (are_friends store.graph playlist.user_id bob
            && (playlist.is_public || playlist.friends_only)))
    × ((can_add role && not (can_rearrange role))
        ≡ (is_public_access playlist.edit_access && playlist.is_public)
          && (not (are_friends store.graph playlist.user_id bob)
              && not (is_blocked (friend_state store.graph playlist.user_id bob))))
unfolding program
playlist_role_shared_example = playlist_role_shared store playlist bob refl refl

abbrev anns : Text → Bool
anns id = same id (codes "i1") || same id (codes "i2")

contributor_keeps_others_example :
    (d : Draft) × (result.playlist_items ≡ renumber d.items d.order)
    × (select anns d.order ≡ select anns (item_ids store.playlist_items mix))
    × (map content (select (λ i. anns i.id) result.playlist_items)
        ≡ map content (select (λ i. anns i.id) store.playlist_items))
unfolding program
contributor_keeps_others_example =
    contributor_keeps_others store result playlist mint mix bob 4 9 5 bobs_edits anns refl refl
      (λ n. refl) (refl, (refl, (refl, tt))) refl

apply_playlist_edits-revision_example :
    (revision store mix ≡ some 4) × (revision result mix ≡ some 5) × (5 ≡ suc 4)
unfolding program
apply_playlist_edits-revision_example =
    apply_playlist_edits-revision store result mint mix bob 4 9 5 bobs_edits refl

-- Bob's edit is followed by a change of the visibility.
abbrev hidden : Store
hidden = (update_playlist_visibility result mix ann PlaylistVisibility.private 9).0

apply_playlist_edits_once_example :
    apply_playlist_edits hidden mint mix ann 4 (remove (codes "i1") ∷ []) 10 ≢ ok (5, store)
unfolding program
apply_playlist_edits_once_example =
    apply_playlist_edits_once store result hidden mint mint mix bob ann 4 9 10 5 bobs_edits
      (remove (codes "i1") ∷ []) (5, store) (refl, tt) refl
      (and_then at_once (visibility mix ann PlaylistVisibility.private 9) refl)

abbrev no_playlists : Store
no_playlists = record store { playlists = [] }

abbrev one_playlist : Store
one_playlist =
    (create_playlist no_playlists mix ann (codes "Mix") none PlaylistVisibility.friends 3).0

abbrev monthly : BlendSettings
monthly = record {
  size = 50;
  mix = 30;
  window = BlendWindow.four_weeks;
  refresh = BlendRefresh.weekly;
}

abbrev with_blend : Store
with_blend = (create_blend one_playlist (codes "b1") ann (codes "Ours") (bob ∷ []) monthly 4).0

Reach-IsClamped_example : IsKeyed with_blend.playlists × All IsClamped with_blend.playlists
unfolding program
Reach-IsClamped_example = Reach-IsClamped with_blend (
    one_more
      (one_more (start no_playlists refl)
        (create mix ann (codes "Mix") none PlaylistVisibility.friends 3 refl))
      (blend (codes "b1") ann (codes "Ours") (bob ∷ []) monthly 4 refl))
