-- ===== src/Playlists/Items.antt =====
-- The items of a playlist and the writes that only its owner makes: src/db_playlist_items.rs. The
-- ids that the source mints with `Uuid::new_v4` are `mint 0`, `mint 1`, … in the order of the items.
use agro.Base.{
  ℕ, suc, ◌+◌, Bool, true, false, ◌&&◌, not, List, [], ◌∷◌, ◌++◌, map, some, Text, same, select,
  delete, update, count, ltb, if◌then◌else◌, length,
}
use agro.Playlists.{
  Store, PlaylistItem, NewPlaylistItem, Position, unplaced, place_at, bump_revision,
}

-- The items of a playlist by position. SQLite orders equal positions as it finds them.
abbrev precedes : Position → Position → Bool
precedes unplaced _ = true
precedes (place_at m) unplaced = false
precedes (place_at m) (place_at n) = not (ltb n m)

unfoldable pub insert_by_position : PlaylistItem → List PlaylistItem → List PlaylistItem
insert_by_position i [] = i ∷ []
insert_by_position i (j ∷ items) =
    let rest = insert_by_position i items in
    if precedes i.position j.position then i ∷ j ∷ items else j ∷ rest

unfoldable pub order_by_position : List PlaylistItem → List PlaylistItem
order_by_position [] = []
order_by_position (i ∷ items) = insert_by_position i (order_by_position items)

abbrev pub is_in : Text → PlaylistItem → Bool
is_in playlist_id i = same i.playlist_id playlist_id

abbrev pub is_item : Text → PlaylistItem → Bool
is_item id i = same i.id id

unfoldable pub get_playlist_items : List PlaylistItem → Text → List PlaylistItem
get_playlist_items items playlist_id = order_by_position (select (is_in playlist_id) items)

unfoldable pub item_ids : List PlaylistItem → Text → List Text
item_ids items playlist_id = map (λ i. i.id) (get_playlist_items items playlist_id)

abbrev pub new_item : Text → Text → Position → Text → NewPlaylistItem → ℕ → PlaylistItem
new_item id playlist_id at actor track now = record {
  id = id;
  playlist_id = playlist_id;
  position = at;
  track = track;
  added_by = some actor;
  added_at = some now;
}

unfoldable pub insert_item :
    List PlaylistItem → Text → Text → Position → Text → NewPlaylistItem → ℕ → List PlaylistItem
insert_item items id playlist_id at actor track now =
    items ++ new_item id playlist_id at actor track now ∷ []

-- The loop of `renumber`, from a position on.
unfoldable pub renumber_from : ℕ → List PlaylistItem → List Text → List PlaylistItem
renumber_from n items [] = items
renumber_from n items (id ∷ order) =
    renumber_from (suc n) (update (is_item id) (λ i. record i { position = place_at n }) items)
      order

abbrev pub renumber : List PlaylistItem → List Text → List PlaylistItem
renumber items order = renumber_from 0 items order

abbrev greatest : Position → ℕ → ℕ
greatest unplaced next = next
greatest (place_at n) next = if ltb n next then next else suc n

-- COALESCE(MAX(position), -1) + 1
unfoldable pub next_position : List PlaylistItem → Text → ℕ
next_position [] playlist_id = 0
next_position (i ∷ items) playlist_id =
    let next = next_position items playlist_id in
    if is_in playlist_id i then greatest i.position next else next

unfoldable pub add_playlist_item :
    Store → (ℕ → Text) → Text → Text → NewPlaylistItem → ℕ → Store × PlaylistItem
add_playlist_item s mint playlist_id actor track now =
    let at = place_at (next_position s.playlist_items playlist_id) in
    (
      record s {
        playlist_items = insert_item s.playlist_items (mint 0) playlist_id at actor track now;
        playlists = bump_revision s.playlists playlist_id now;
      },
      new_item (mint 0) playlist_id at actor track now,
    )

-- The loop of `add_playlist_items`, from the item `n` on.
unfoldable pub insert_items :
    List PlaylistItem
    → (ℕ → Text)
    → ℕ
    → ℕ
    → Text
    → Text
    → List NewPlaylistItem
    → ℕ
    → List PlaylistItem
insert_items items mint n start playlist_id actor [] now = items
insert_items items mint n start playlist_id actor (t ∷ tracks) now =
    insert_items (insert_item items (mint n) playlist_id (place_at (start + n)) actor t now) mint
      (suc n) start playlist_id actor tracks now

unfoldable pub add_playlist_items :
    Store → (ℕ → Text) → Text → Text → List NewPlaylistItem → ℕ → Store × ℕ
add_playlist_items s mint playlist_id actor tracks now =
    let start = next_position s.playlist_items playlist_id in
    (
      record s {
        playlist_items = insert_items s.playlist_items mint 0 start playlist_id actor tracks now;
        playlists = bump_revision s.playlists playlist_id now;
      },
      length tracks,
    )

unfoldable pub remove_playlist_item : Store → Text → Text → ℕ → Store × Bool
remove_playlist_item s playlist_id item_id now =
    let is_it = λ (i : PlaylistItem). is_in playlist_id i && is_item item_id i in
    let rest = delete is_it s.playlist_items in
    if ltb 0 (count is_it s.playlist_items)
    then (
      record s {
        playlist_items = renumber rest (item_ids rest playlist_id);
        playlists = bump_revision s.playlists playlist_id now;
      },
      true,
    )
    else (s, false)
