-- ===== src/Jam/Queue.antt =====
-- The queue and its approvals: src/db_jam/queue.rs.
use agro.Base.{
  ℕ, ◌+◌, ◌-◌, ◌/◌, Bool, ◌&&◌, not, List, [], ◌∷◌, ◌++◌, map, Option, none, some, Text, same, trim,
  to_lowercase, eq_nocase, select, delete, update, any, count, ltb, leb, if◌then◌else◌, head?,
  insert_or_ignore, order_by, length,
}
use agro.Jam.{
  JamMode, open_, democracy, JamTrackState, proposed, queued, is_proposed, is_track_state, Track,
  Vote, Rooms, members_of,
}

unfoldable pub jam_approvals_needed : Rooms → Text → ℕ
jam_approvals_needed r jam_id = (length (members_of r jam_id) - 1) / 2 + 1

unfoldable pub landing_state : Rooms → Text → JamMode → JamTrackState
landing_state r jam_id open_ = queued
landing_state r jam_id democracy = if leb (length (members_of r jam_id)) 1 then queued else proposed

-- `.map(str::trim).filter(|d| !d.is_empty())`
abbrev pub non_empty : Text → Option Text
non_empty [] = none
non_empty (c ∷ s) = some (c ∷ s)

abbrev pub trimmed : Option Text → Option Text
trimmed none = none
trimmed (some s) = non_empty (trim s)

-- What a caller suggests.
pub record Suggestion : Type 0 where
  pub track_uri : Text
  pub title : Text
  pub artist : Text
  pub artwork_url : Option Text
  pub duration_ms : ℕ
  pub is_live : Bool
  pub added_by_device : Option Text
  pub content_hash : Option Text

unfoldable pub add_jam_track :
    Rooms → Text → Text → Text → Suggestion → JamMode → ℕ → Rooms × (Text × JamTrackState)
add_jam_track r id jam_id added_by s mode now =
    let state = landing_state r jam_id mode in
    let row : Track = record {
      id = id;
      jam_id = jam_id;
      added_by = to_lowercase (trim added_by);
      track_uri = trim s.track_uri;
      title = trim s.title;
      artist = trim s.artist;
      artwork_url = s.artwork_url;
      added_at = now;
      duration_ms = s.duration_ms;
      state = state;
      is_live = s.is_live;
      added_by_device = trimmed s.added_by_device;
      content_hash = trimmed s.content_hash;
    } in
    (record r { jam_tracks = r.jam_tracks ++ row ∷ [] }, (id, state))

abbrev pub is_track : Text → Text → Track → Bool
is_track jam_id track_id t = same t.id track_id && same t.jam_id jam_id

abbrev adder : Option Track → Option Text
adder none = none
adder (some t) = some t.added_by

unfoldable pub jam_track_owner : Rooms → Text → Text → Option Text
jam_track_owner r jam_id track_id = adder (head? (select (is_track jam_id track_id) r.jam_tracks))

unfoldable pub remove_jam_track : Rooms → Text → Text → Rooms × Bool
remove_jam_track r jam_id track_id = (
  record r {
    jam_votes = delete (λ v. same v.track_id track_id) r.jam_votes;
    jam_tracks = delete (is_track jam_id track_id) r.jam_tracks;
  },
  ltb 0 (count (is_track jam_id track_id) r.jam_tracks),
)

abbrev pub counts_for : Text → Track → Vote → Bool
counts_for track_id t v = same v.track_id track_id && not (eq_nocase v.username t.added_by)

-- The votes on a track that are not its proposer's, over the join of votes and tracks.
unfoldable pub approvals_in : List Track → List Vote → Text → ℕ
approvals_in [] votes track_id = 0
approvals_in (t ∷ tracks) votes track_id =
    (if same t.id track_id then count (counts_for track_id t) votes else 0)
    + approvals_in tracks votes track_id

unfoldable pub cast : Text → Text → Text → List Vote → List Vote
cast jam_id track_id username votes =
    let row : Vote = record { jam_id = jam_id; track_id = track_id; username = username } in
    insert_or_ignore (λ v. same v.track_id track_id && same v.username username) row votes

abbrev pub is_waiting : Text → Text → Track → Bool
is_waiting jam_id track_id t = is_track jam_id track_id t && is_proposed t.state

abbrev pub enqueue : Track → Track
enqueue t = record t { state = queued }

unfoldable pub approve_jam_track : Rooms → Text → Text → Text → Rooms × JamTrackState
approve_jam_track r jam_id track_id username =
    let votes = cast jam_id track_id (to_lowercase (trim username)) r.jam_votes in
    let approvals = approvals_in r.jam_tracks votes track_id in
    if leb (jam_approvals_needed r jam_id) approvals
    then (
      record r {
        jam_votes = votes;
        jam_tracks = update (is_waiting jam_id track_id) enqueue r.jam_tracks;
      },
      queued,
    )
    else (record r { jam_votes = votes }, proposed)

-- A track as one account sees it.
pub record JamTrack : Type 0 where
  pub track : Track
  pub open track use *
  pub approvals : ℕ
  pub approved : Bool
  pub still_needed : ℕ

abbrev pub seen_by : Rooms → Text → Text → Track → JamTrack
seen_by r jam_id viewer t = record {
  track = t;
  approvals = count (counts_for t.id t) r.jam_votes;
  approved = any (λ v. same v.track_id t.id && eq_nocase v.username (trim viewer)) r.jam_votes;
  still_needed = jam_approvals_needed r jam_id - count (counts_for t.id t) r.jam_votes;
}

abbrev pub is_in_state : Text → JamTrackState → Track → Bool
is_in_state jam_id state t = same t.jam_id jam_id && is_track_state state t.state

-- `Db::jam_tracks`
unfoldable pub tracks_in_state : Rooms → Text → JamTrackState → Text → List JamTrack
tracks_in_state r jam_id state viewer =
    map (seen_by r jam_id viewer)
      (order_by (λ t. t.added_at) (select (is_in_state jam_id state) r.jam_tracks))
