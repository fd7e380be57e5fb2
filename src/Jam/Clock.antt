-- ===== src/Jam/Clock.antt =====
-- The clock that moves every room on: src/jam_clock.rs. A frame is what one member is told; the
-- address and the token with which a member may fetch the file directly come from the hub of
-- connections and are left out of it.
use agro.Base.{
  ℕ, ◌-◌, ◌*◌, Bool, false, ◌||◌, List, [], ◌∷◌, ◌++◌, map, Option, none, some, Text, ltb,
  if◌then◌else◌, head?,
}
use agro.Jam.{Jam, queued, Rooms, members_of, delete_jam, live_jams}
use agro.Social.{is_some}
use agro.Jam.Queue.{JamTrack, tracks_in_state}
use agro.Jam.Playback.{
  JamNowPlaying, jam_now_playing, set_jam_now_playing, clear_jam_now_playing, mark_jam_track_played,
}

abbrev pub unknown_duration_lease_ms : ℕ
unknown_duration_lease_ms = 12 * 60 * 1000

abbrev pub abandoned_after_ms : ℕ
abandoned_after_ms = 5 * 60 * 1000

-- What a member is told of the track that starts.
pub record Playing : Type 0 where
  pub jam_id : Text
  pub track_id : Text
  pub title : Text
  pub artist : Text
  pub artwork_url : Option Text
  pub duration_ms : ℕ
  pub position_ms : ℕ
  pub added_by : Text
  pub device_id : Option Text
  pub content_hash : Option Text

pub data Frame : Type 0 where
  playing : (member : Text) → Playing → Frame
  stopped : (member jam_id : Text) → Frame

unfoldable pub age_ms : ℕ → ℕ → ℕ
age_ms now since = now - since

unfoldable pub ends_at : JamNowPlaying → ℕ
ends_at n = if ltb 0 n.duration_ms then n.duration_ms else unknown_duration_lease_ms

-- The track on air has not come to its end: the clock has nothing to do.
unfoldable pub holds : Option JamNowPlaying → Bool
unfolding ends_at
holds none = false
holds (some n) = n.is_live || ltb n.position_ms (ends_at n)

unfoldable pub retire : Rooms → Jam → Option JamNowPlaying → Rooms
retire r jam none = r
retire r jam (some n) = (mark_jam_track_played r jam.id n.track_id).0

-- `added_by`, `added_by_device` and `content_hash` of what is on air, or the empty defaults.
abbrev pub holder_of : Option JamNowPlaying → Text × (Option Text × Option Text)
holder_of none = ([], (none, none))
holder_of (some n) = (n.added_by, (n.added_by_device, n.content_hash))

abbrev pub starting : Jam → JamTrack → Text × (Option Text × Option Text) → Playing
starting jam t holder = record {
  jam_id = jam.id;
  track_id = t.id;
  title = t.title;
  artist = t.artist;
  artwork_url = t.artwork_url;
  duration_ms = t.duration_ms;
  position_ms = 0;
  added_by = holder.0;
  device_id = holder.1.0;
  content_hash = holder.1.1;
}

unfoldable pub move_on : Rooms → Jam → ℕ → List Text → Option JamTrack → Rooms × List Frame
move_on r jam now members (some t) =
    let started = set_jam_now_playing r jam.id t.id now in
    let holder = holder_of (jam_now_playing started jam now) in
    (started, map (λ member. playing member (starting jam t holder)) members)
move_on r jam now members none =
    if is_some jam.now_playing_id
    then (clear_jam_now_playing r jam.id, map (λ member. stopped member jam.id) members)
    else (r, [])

-- The queued track that was added first.
unfoldable pub next_queued : Rooms → Jam → Option JamTrack
next_queued r jam = head? (tracks_in_state r jam.id queued jam.host)

abbrev sweep : Rooms → Jam → ℕ → Rooms
sweep r jam now =
    if ltb abandoned_after_ms (age_ms now jam.created_at) then delete_jam r jam.id else r

unfoldable pub keep_time : Rooms → Jam → ℕ → List Text → Rooms × List Frame
keep_time r jam now members =
    let retired = retire r jam (jam_now_playing r jam now) in
    if holds (jam_now_playing r jam now)
    then (r, [])
    else move_on retired jam now members (next_queued retired jam)

abbrev pub advance_for : Rooms → Jam → ℕ → List Text → Rooms × List Frame
advance_for r jam now [] = (sweep r jam now, [])
advance_for r jam now (m ∷ members) = keep_time r jam now (m ∷ members)

unfoldable pub advance : Rooms → Jam → ℕ → Rooms × List Frame
advance r jam now = advance_for r jam now (members_of r jam.id)

unfoldable pub advance_all : Rooms → List Jam → ℕ → Rooms × List Frame
advance_all r [] now = (r, [])
advance_all r (jam ∷ jams) now =
    let moved = advance r jam now in
    let rest = advance_all moved.0 jams now in (rest.0, moved.1 ++ rest.1)

unfoldable pub tick : Rooms → ℕ → Rooms × List Frame
tick r now = if r.enabled then advance_all r (live_jams r) now else (r, [])
