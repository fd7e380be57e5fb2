-- ===== src/Jam/Playback.antt =====
-- What a jam is playing, and skip votes: src/db_jam/playback.rs.
use agro.Base.{
  ℕ, ◌+◌, ◌-◌, ◌/◌, Bool, ◌&&◌, List, Option, none, some, Text, same, trim, to_lowercase, eq_nocase,
  select, update, any, count, ltb, leb, head?, length,
}
use agro.Jam.{Jam, played, Track, Vote, Rooms, members_of}
use agro.Jam.Queue.{is_track, cast}

unfoldable pub jam_skips_needed : Rooms → Text → ℕ
jam_skips_needed r jam_id = length (members_of r jam_id) / 2 + 1

unfoldable pub skips_on : List Vote → Text → ℕ
skips_on skips track_id = count (λ v. same v.track_id track_id) skips

unfoldable pub vote_skip : Rooms → Text → Text → Text → Rooms × Bool
vote_skip r jam_id track_id username =
    let skips = cast jam_id track_id (to_lowercase (trim username)) r.jam_skips in
    (record r { jam_skips = skips }, leb (jam_skips_needed r jam_id) (skips_on skips track_id))

unfoldable pub jam_skip_state : Rooms → Text → Text → ℕ × Bool
jam_skip_state r track_id viewer = (
  skips_on r.jam_skips track_id,
  any (λ v. same v.track_id track_id && eq_nocase v.username (trim viewer)) r.jam_skips,
)

pub record JamNowPlaying : Type 0 where
  pub track_id : Text
  pub title : Text
  pub artist : Text
  pub added_by : Text
  pub added_by_device : Option Text
  pub content_hash : Option Text
  pub artwork_url : Option Text
  pub duration_ms : ℕ
  pub is_live : Bool
  pub started_at : ℕ
  pub position_ms : ℕ

-- The track row, and the milliseconds since its start, never negative.
abbrev pub on_air : ℕ → Text → ℕ → Option Track → Option JamNowPlaying
on_air now track_id started_at none = none
on_air now track_id started_at (some t) = some (record {
  track_id = track_id;
  title = t.title;
  artist = t.artist;
  added_by = t.added_by;
  added_by_device = t.added_by_device;
  content_hash = t.content_hash;
  artwork_url = t.artwork_url;
  duration_ms = t.duration_ms;
  is_live = t.is_live;
  started_at = started_at;
  position_ms = now - started_at;
})

abbrev pub now_playing_of : Rooms → ℕ → Option Text → Option ℕ → Option JamNowPlaying
now_playing_of r now (some track_id) (some started_at) =
    on_air now track_id started_at (head? (select (λ t. same t.id track_id) r.jam_tracks))
now_playing_of r now _ _ = none

unfoldable pub jam_now_playing : Rooms → Jam → ℕ → Option JamNowPlaying
jam_now_playing r jam now = now_playing_of r now jam.now_playing_id jam.started_at

unfoldable pub set_jam_now_playing : Rooms → Text → Text → ℕ → Rooms
set_jam_now_playing r jam_id track_id now = record r {
  jams =
      update (λ j. same j.id jam_id)
        (λ j. record j { now_playing_id = some track_id; started_at = some now }) r.jams;
}

unfoldable pub clear_jam_now_playing : Rooms → Text → Rooms
clear_jam_now_playing r jam_id = record r {
  jams =
      update (λ j. same j.id jam_id) (λ j. record j { now_playing_id = none; started_at = none })
        r.jams;
}

unfoldable pub mark_jam_track_played : Rooms → Text → Text → Rooms × Bool
mark_jam_track_played r jam_id track_id = (
  record r {
    jam_tracks = update (is_track jam_id track_id) (λ t. record t { state = played }) r.jam_tracks;
  },
  ltb 0 (count (is_track jam_id track_id) r.jam_tracks),
)
