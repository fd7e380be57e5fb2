-- ===== src/Jam/Examples.antt =====
-- A room of three, and the claims about jams at it.
use agro.Base.{
  ℕ, ◌≡◌, refl, true, false, [], ◌∷◌, map, ◌&&◌, none, some, Text, codes, same, select, update, any,
  count, insert_or_ignore, delete, trim, to_lowercase, is_whitespace, trim_start, trim_end,
  to_ascii_lowercase, order_by, order_by_desc, insert_by, insert_by_desc, if◌then◌else◌, All, ◌↔◌,
  ◌<◌, ◌*◌, arith, ltb, ◌||◌, ◌≢◌,
}
use agro.Jam.{
  is_member_row, Jam, democracy, JamTrackState, queued, proposed, code, Member, Track, Rooms,
  members_of, jam_for_member, jam_by_code, is_jam_member, join_jam, leave_jam, delete_jam,
}
use agro.Jam.Queue.{
  approve_jam_track, cast, approvals_in, jam_approvals_needed, tracks_in_state, counts_for,
  is_waiting,
}
use agro.Jam.Playback.{
  JamNowPlaying, jam_now_playing, mark_jam_track_played, set_jam_now_playing, clear_jam_now_playing,
  vote_skip, skips_on,
}
use agro.Jam.Api.{
  call_join_jam, call_join_friend_jam, call_leave_jam, enter, depart, depart_other, after,
}
use agro.Jam.Clock.{advance, holds, ends_at, keep_time, retire, move_on, next_queued}
use agro.Jam.Turns.{advance-IsOnTurn, advance_ends_track, Row, IsFresh}
use agro.Jam.Frames.{advance-Names_last, Names}
use agro.Jam.Votes.{approve_jam_track_majority, vote_skip_majority}
use agro.Jam.Single.{IsSingle, call_join_jam-IsSingle}
use agro.Jam.Rights.{same_name, call_join_jam_switches, call_leave_jam_ends}

abbrev ana : Text
ana = codes "ana"

abbrev bo : Text
bo = codes "bo"

abbrev cy : Text
cy = codes "cy"

abbrev di : Text
di = codes "di"

abbrev room : Text
room = codes "r1"

abbrev other_room : Text
other_room = codes "r2"

abbrev jam_of : Text → Text → Text → ℕ → Jam
jam_of id secret host now = record {
  id = id;
  code = secret;
  host = host;
  mode = democracy;
  created_at = now;
  now_playing_id = some (codes "t1");
  started_at = some 1000;
  visibility = code;
  ended_at = none;
}

abbrev track_of : Text → Text → ℕ → JamTrackState → Track
track_of id who at state = record {
  id = id;
  jam_id = room;
  added_by = who;
  track_uri = [];
  title = id;
  artist = [];
  artwork_url = none;
  added_at = at;
  duration_ms = 2000;
  state = state;
  is_live = false;
  added_by_device = some (codes "phone");
  content_hash = none;
}

abbrev member_of : Text → Text → ℕ → Member
member_of id who at = record { jam_id = id; username = who; joined_at = at }

abbrev rooms : Rooms
rooms = record {
  jams = jam_of room (codes "AB") ana 1 ∷ jam_of other_room (codes "CD") cy 2 ∷ [];
  jam_members =
      member_of room ana 1
      ∷ member_of room bo 2
      ∷ member_of room di 3
      ∷ member_of other_room cy 2
      ∷ [];
  jam_tracks =
      track_of (codes "t1") ana 10 queued
      ∷ track_of (codes "t3") bo 30 queued
      ∷ track_of (codes "t2") bo 20 queued
      ∷ track_of (codes "t4") ana 40 proposed
      ∷ [];
  jam_votes = [];
  jam_skips = [];
  enabled = true;
  graph = record { friendships = []; friend_codes = []; presence = [] };
}

abbrev first_jam : Jam
first_jam = jam_of room (codes "AB") ana 1

program : Unit {0}
unfolding same select update any count insert_or_ignore delete trim to_lowercase is_whitespace
    trim_start trim_end to_ascii_lowercase order_by order_by_desc insert_by insert_by_desc
    members_of jam_now_playing holds ends_at advance keep_time retire move_on next_queued
    tracks_in_state mark_jam_track_played set_jam_now_playing clear_jam_now_playing
    approve_jam_track cast approvals_in jam_approvals_needed jam_for_member jam_by_code
    is_jam_member call_join_jam call_leave_jam enter depart depart_other join_jam leave_jam
    delete_jam after
program = tt

-- After two seconds `t1` is over, and `t2` is next although `t3` is stored before it.
second_turn :
    map (λ j. j.now_playing_id) (advance rooms first_jam 3000).0.jams
    ≡ some (codes "t2") ∷ some (codes "t1") ∷ []
unfolding program
second_turn = refl

one_approval : (approve_jam_track rooms room (codes "t4") bo).1 ≡ proposed
unfolding program
one_approval = refl

two_approvals :
    (approve_jam_track (approve_jam_track rooms room (codes "t4") bo).0 room (codes "t4") di).1
    ≡ queued
unfolding program
two_approvals = refl

rooms-occupied : members_of rooms room ≢ []
unfolding program
rooms-occupied h = ground arith

rooms-IsFresh : IsFresh rooms first_jam
rooms-IsFresh = (λ _. refl, (λ _. refl, tt))

advance-IsOnTurn_example :
    (let moved = (advance rooms first_jam 3000).0 in
      All (Row first_jam 3000 moved.jam_tracks) moved.jams)
unfolding program
advance-IsOnTurn_example = advance-IsOnTurn rooms first_jam 3000 rooms-IsFresh rooms-occupied refl

abbrev heard : JamNowPlaying
heard = record {
  track_id = codes "t1";
  title = codes "t1";
  artist = [];
  added_by = ana;
  added_by_device = some (codes "phone");
  content_hash = none;
  artwork_url = none;
  duration_ms = 2000;
  is_live = false;
  started_at = 1000;
  position_ms = 2000;
}

advance_ends_track_example :
    All
      (λ j.
        same j.id room ≡ true
        → (j.now_playing_id ≡ some (codes "t1")) ↔ (false || ltb 2000 2000 ≡ true))
      (advance rooms first_jam 3000).0.jams
unfolding program
advance_ends_track_example =
    advance_ends_track rooms first_jam 3000 heard rooms-IsFresh rooms-occupied refl

-- The frames for `t2`, which bo added, give ana.
advance-Names_last_example :
    All (Names (ana, (some (codes "phone"), none))) (advance rooms first_jam 3000).1
unfolding program
advance-Names_last_example = advance-Names_last rooms first_jam 3000

approve_jam_track_majority_example :
    (let approved = approve_jam_track rooms room (codes "t4") bo in
      (count (counts_for (codes "t4") (track_of (codes "t4") ana 40 proposed)) approved.0.jam_votes
        ≡ 1)
      × ((approved.1 ≡ queued) ↔ (2 < 2 * 1))
      × (approved.1 ≡ queued
          → approved.0.jam_tracks
            ≡ update
                (is_waiting room (codes "t4"))
                (λ q. record q { state = queued })
                rooms.jam_tracks)
      × (approved.1 ≡ proposed → approved.0.jam_tracks ≡ rooms.jam_tracks))
unfolding program
approve_jam_track_majority_example =
    approve_jam_track_majority rooms room (codes "t4") bo (track_of (codes "t4") ana 40 proposed)
      refl

vote_skip_majority_example :
    (let voted = vote_skip rooms room (codes "t1") bo in
      (skips_on voted.0.jam_skips (codes "t1") ≡ 1)
      × ((voted.1 ≡ true) ↔ (3 < 2 * skips_on voted.0.jam_skips (codes "t1")))
      × (vote_skip voted.0 room (codes "t1") bo ≡ voted))
unfolding program skips_on
vote_skip_majority_example = vote_skip_majority rooms room (codes "t1") bo

-- cy, who created the room `CD`, goes over to `AB`; the room `CD` stays.
call_join_jam_switches_example :
    (let s = after rooms (call_join_jam rooms cy (codes "AB") 9) in
      (s.jams ≡ rooms.jams)
      × (is_jam_member s room cy ≡ true)
      × ((a name : Text)
          → is_jam_member s a name ≡ (
              if same_name name cy && (same a other_room || same a room)
              then same a room
              else is_jam_member rooms a name)))
unfolding program
call_join_jam_switches_example =
    call_join_jam_switches rooms cy (codes "AB") 9 (jam_of other_room (codes "CD") cy 2) first_jam
      refl refl refl

left_without_creator :
    is_jam_member (after rooms (call_join_jam rooms cy (codes "AB") 9)) other_room cy ≡ false
unfolding program
left_without_creator = refl

call_leave_jam_ends_example :
    (let s = after rooms (call_leave_jam rooms ana) in
      (s.jams ≡ delete (λ j. true && same j.id room) rooms.jams)
      × (s.jam_members
          ≡ delete
              (λ m. same m.jam_id room && (true || is_member_row room ana m))
              rooms.jam_members)
      × (s.jam_tracks ≡ delete (λ t. true && same t.jam_id room) rooms.jam_tracks)
      × (s.jam_votes ≡ delete (λ v. true && same v.jam_id room) rooms.jam_votes)
      × (s.jam_skips ≡ delete (λ v. true && same v.jam_id room) rooms.jam_skips))
unfolding program
call_leave_jam_ends_example = call_leave_jam_ends rooms ana first_jam refl refl

-- Two rooms that nobody is in yet.
abbrev lobby : Rooms
lobby = record rooms { jam_members = [] }

lobby-IsSingle : IsSingle lobby
unfolding program
lobby-IsSingle name a b in_a in_b = ground arith

call_join_jam-IsSingle_example :
    IsSingle (after lobby (call_join_jam lobby bo (codes "AB") 9))
    × IsSingle (after lobby (call_join_friend_jam lobby bo room 9))
    × IsSingle (after lobby (call_leave_jam lobby bo))
call_join_jam-IsSingle_example = call_join_jam-IsSingle lobby bo (codes "AB") room 9 lobby-IsSingle
