-- ===== src/Jam.antt =====
-- Jam rooms: src/db_jam.rs and src/db_jam/lifecycle.rs. The state is the record `Rooms` of the
-- tables that a jam reads and writes, with the operator's switch and the friend graph beside them.
-- Instants are milliseconds. A nullable or signed column that the source clamps at 0 is a natural
-- number; minted ids and codes are arguments.
pub mod Queue
pub mod Playback
pub mod Clock
pub mod Api
mod Turns
mod Frames
mod Votes
mod Rights
mod Single
mod Examples
use agro.Base.{
  ℕ, ◌+◌, Bool, true, false, ◌&&◌, ◌||◌, not, List, [], ◌∷◌, ◌++◌, map, Option, none, some, Text,
  same, codes, trim, to_lowercase, eq_nocase, select, delete, update, any, count, ltb,
  if◌then◌else◌, head?, insert_or_ignore, order_by, order_by_desc,
}
use agro.Social.{Graph, Edge, accepted, is_state}

pub data JamMode : Type 0 where
  open_ democracy : JamMode

unfoldable pub mode_as_str : JamMode → Text
mode_as_str open_ = codes "open"
mode_as_str democracy = codes "democracy"

unfoldable pub parse_mode : Text → JamMode
parse_mode raw = if same (to_lowercase (trim raw)) (codes "open") then open_ else democracy

pub data JamTrackState : Type 0 where
  proposed queued played : JamTrackState

abbrev pub is_proposed : JamTrackState → Bool
is_proposed proposed = true
is_proposed _ = false

abbrev pub is_queued : JamTrackState → Bool
is_queued queued = true
is_queued _ = false

abbrev pub is_track_state : JamTrackState → JamTrackState → Bool
is_track_state proposed proposed = true
is_track_state queued queued = true
is_track_state played played = true
is_track_state _ _ = false

pub data JamVisibility : Type 0 where
  code friends : JamVisibility

unfoldable pub visibility_as_str : JamVisibility → Text
visibility_as_str code = codes "code"
visibility_as_str friends = codes "friends"

unfoldable pub parse_visibility : Text → JamVisibility
parse_visibility raw = if eq_nocase (trim raw) (codes "friends") then friends else code

abbrev pub is_for_friends : JamVisibility → Bool
is_for_friends friends = true
is_for_friends code = false

-- A row of `jams`.
pub record Jam : Type 0 where
  pub id : Text
  pub code : Text
  pub host : Text
  pub mode : JamMode
  pub created_at : ℕ
  pub now_playing_id : Option Text
  pub started_at : Option ℕ
  pub visibility : JamVisibility
  pub ended_at : Option ℕ

pub record Member : Type 0 where
  pub jam_id : Text
  pub username : Text
  pub joined_at : ℕ

-- A row of `jam_tracks`; its `played` column always equals `state = 'played'`.
pub record Track : Type 0 where
  pub id : Text
  pub jam_id : Text
  pub added_by : Text
  pub track_uri : Text
  pub title : Text
  pub artist : Text
  pub artwork_url : Option Text
  pub added_at : ℕ
  pub duration_ms : ℕ
  pub state : JamTrackState
  pub is_live : Bool
  pub added_by_device : Option Text
  pub content_hash : Option Text

-- A row of `jam_votes` or of `jam_skips`: the primary key is (track_id, username).
pub record Vote : Type 0 where
  pub jam_id : Text
  pub track_id : Text
  pub username : Text

pub record Rooms : Type 0 where
  pub jams : List Jam
  pub jam_members : List Member
  pub jam_tracks : List Track
  pub jam_votes : List Vote
  pub jam_skips : List Vote
  pub enabled : Bool
  pub graph : Graph

abbrev pub is_running : Option ℕ → Bool
is_running none = true
is_running (some _) = false

abbrev pub is_live_jam : Jam → Bool
is_live_jam j = is_running j.ended_at

unfoldable pub create_jam : Rooms → Text → Text → Text → JamMode → ℕ → Rooms × Jam
create_jam r id secret host mode now =
    let name = to_lowercase (trim host) in
    let jam : Jam = record {
      id = id;
      code = secret;
      host = name;
      mode = mode;
      created_at = now;
      now_playing_id = none;
      started_at = none;
      visibility = code;
      ended_at = none;
    } in
    let member : Member = record { jam_id = id; username = name; joined_at = now } in
    (record r { jams = r.jams ++ jam ∷ []; jam_members = r.jam_members ++ member ∷ [] }, jam)

abbrev pub is_member_row : Text → Text → Member → Bool
is_member_row jam_id username m = same m.jam_id jam_id && eq_nocase m.username (trim username)

unfoldable pub is_jam_member : Rooms → Text → Text → Bool
is_jam_member r jam_id username = any (is_member_row jam_id username) r.jam_members

-- SELECT … ORDER BY created_at DESC LIMIT 1
unfoldable pub jam_for_member : Rooms → Text → Option Jam
jam_for_member r username = head? (
    order_by_desc (λ j. j.created_at)
      (select (λ j. is_live_jam j && any (is_member_row j.id username) r.jam_members) r.jams))

unfoldable pub jam_by_code : Rooms → Text → Option Jam
jam_by_code r secret = head? (select (λ j. eq_nocase j.code (trim secret) && is_live_jam j) r.jams)

unfoldable pub jam_by_id : Rooms → Text → Option Jam
jam_by_id r id = head? (select (λ j. same j.id (trim id) && is_live_jam j) r.jams)

unfoldable pub join_jam : Rooms → Text → Text → ℕ → Rooms
join_jam r jam_id username now =
    let name = to_lowercase (trim username) in
    let row : Member = record { jam_id = jam_id; username = name; joined_at = now } in
    record r {
      jam_members =
          insert_or_ignore (λ m. same m.jam_id jam_id && same m.username name) row r.jam_members;
    }

unfoldable pub leave_jam : Rooms → Text → Text → Rooms × Bool
leave_jam r jam_id username = (
  record r { jam_members = delete (is_member_row jam_id username) r.jam_members },
  ltb 0 (count (is_member_row jam_id username) r.jam_members),
)

-- `Db::jam_members`
unfoldable pub members_of : Rooms → Text → List Text
members_of r jam_id =
    map (λ m. m.username)
      (order_by (λ m. m.joined_at) (select (λ m. same m.jam_id jam_id) r.jam_members))

abbrev pub is_open_jam : Text → Jam → Bool
is_open_jam jam_id j = same j.id jam_id && is_live_jam j

unfoldable pub set_jam_mode : Rooms → Text → JamMode → Rooms × Bool
set_jam_mode r jam_id mode = (
  record r { jams = update (is_open_jam jam_id) (λ j. record j { mode = mode }) r.jams },
  ltb 0 (count (is_open_jam jam_id) r.jams),
)

unfoldable pub end_jam : Rooms → Text → ℕ → Rooms × Bool
end_jam r jam_id now = (
  record r { jams = update (is_open_jam jam_id) (λ j. record j { ended_at = some now }) r.jams },
  ltb 0 (count (is_open_jam jam_id) r.jams),
)

unfoldable pub set_jam_visibility : Rooms → Text → JamVisibility → Rooms × Bool
set_jam_visibility r jam_id v = (
  record r { jams = update (is_open_jam jam_id) (λ j. record j { visibility = v }) r.jams },
  ltb 0 (count (is_open_jam jam_id) r.jams),
)

unfoldable pub delete_jam : Rooms → Text → Rooms
delete_jam r jam_id = record r {
  jam_votes = delete (λ v. same v.jam_id jam_id) r.jam_votes;
  jam_skips = delete (λ v. same v.jam_id jam_id) r.jam_skips;
  jam_tracks = delete (λ t. same t.jam_id jam_id) r.jam_tracks;
  jam_members = delete (λ m. same m.jam_id jam_id) r.jam_members;
  jams = delete (λ j. same j.id jam_id) r.jams;
}

abbrev pub is_accepted_edge : Text → Text → Edge → Bool
is_accepted_edge who host f =
    eq_nocase f.user_id (trim who) && (eq_nocase f.friend_id host && is_state accepted f.state)

unfoldable pub friend_jams : Rooms → Text → List Jam
friend_jams r username =
    order_by_desc (λ j. j.created_at)
      (select
        (λ j.
          is_live_jam j
          && (is_for_friends j.visibility
              && (not (eq_nocase j.host (trim username))
                  && any (is_accepted_edge username j.host) r.graph.friendships)))
        r.jams)

unfoldable pub live_jams : Rooms → List Jam
live_jams r = select is_live_jam r.jams
