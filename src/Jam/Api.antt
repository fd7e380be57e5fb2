-- ===== src/Jam/Api.antt =====
-- What an account may ask of a room: src/schema_jam/jam_lifecycle.rs, src/schema_jam/jam_queue.rs and
-- `current_jam` and `announce` of src/schema_jam/payloads.rs. An answer names the accounts that are
-- told of the change. Recaps and the payload that describes the room to the caller are left out.
use agro.Base.{
  ℕ, Bool, true, false, ◌||◌, List, [], Option, none, some, Text, same, trim, eq_nocase, select,
  if◌then◌else◌, head?,
}
use agro.Jam.{
  JamMode, democracy, parse_mode, parse_visibility, Jam, Rooms, create_jam, jam_for_member,
  jam_by_code, jam_by_id, join_jam, leave_jam, members_of, set_jam_mode, set_jam_visibility,
  delete_jam, friend_jams,
}
use agro.Jam.Queue.{Suggestion, add_jam_track, jam_track_owner, remove_jam_track, approve_jam_track}
use agro.Jam.Playback.{vote_skip, clear_jam_now_playing, mark_jam_track_played}

pub data Refusal : Type 0 where
  not_in_a_jam feature_off no_open_code no_open_id not_creator not_host not_owner : Refusal
  not_in_queue nothing_playing untitled : Refusal

pub data Answer : Type 0 where
  done : Rooms → (told : List Text) → Answer
  refused : Refusal → Answer

-- The rooms after a call, which a refusal leaves as they were.
unfoldable pub after : Rooms → Answer → Rooms
after r (done s told) = s
after r (refused _) = r

abbrev pub require : Rooms → Answer → Answer
require r rest = if r.enabled then rest else refused feature_off

abbrev pub found_or : Refusal → Option Jam → (Jam → Answer) → Answer
found_or answer none f = refused answer
found_or answer (some jam) f = f jam

-- The caller's jam, and the switch, which every call but create and join asks for first.
abbrev pub current_jam : Rooms → Text → (Jam → Answer) → Answer
current_jam r me f = found_or not_in_a_jam (jam_for_member r me) (λ jam. require r (f jam))

abbrev pub announce : Rooms → Jam → Answer
announce r jam = done r (members_of r jam.id)

abbrev or_else : Option Jam → Jam → Jam
or_else none jam = jam
or_else (some updated) jam = updated

-- Announces the jam as it now stands.
abbrev pub announce_updated : Rooms → Jam → Answer
announce_updated r jam = announce r (or_else (jam_by_id r jam.id) jam)

unfoldable pub depart : Rooms → Jam → Text → Rooms
depart r jam me = (leave_jam r jam.id me).0

unfoldable pub depart_any : Rooms → Option Jam → Text → Rooms
depart_any r none me = r
depart_any r (some existing) me = depart r existing me

unfoldable pub depart_other : Rooms → Option Jam → Jam → Text → Rooms
depart_other r none jam me = r
depart_other r (some existing) jam me = if same existing.id jam.id then r else depart r existing me

abbrev mode_or_default : Option Text → JamMode
mode_or_default none = democracy
mode_or_default (some raw) = parse_mode raw

unfoldable pub call_create_jam : Rooms → Text → Text → Text → Option Text → ℕ → Answer
call_create_jam r id secret me mode now =
    let alone = depart_any r (jam_for_member r me) me in
    let made = create_jam alone id secret me (mode_or_default mode) now in
    require r (announce made.0 made.1)

unfoldable pub enter : Rooms → Text → ℕ → Jam → Answer
enter r me now jam =
    let alone = depart_other r (jam_for_member r me) jam me in
    announce (join_jam alone jam.id me now) jam

unfoldable pub call_join_jam : Rooms → Text → Text → ℕ → Answer
call_join_jam r me secret now =
    require r (found_or no_open_code (jam_by_code r secret) (enter r me now))

unfoldable pub call_join_friend_jam : Rooms → Text → Text → ℕ → Answer
call_join_friend_jam r me jam_id now =
    let open_to_me = head? (select (λ jam. same jam.id (trim jam_id)) (friend_jams r me)) in
    require r (found_or no_open_id open_to_me (enter r me now))

unfoldable pub call_set_jam_visibility : Rooms → Text → Text → Answer
call_set_jam_visibility r me visibility = current_jam r me (λ jam.
    let changed = (set_jam_visibility r jam.id (parse_visibility visibility)).0 in
    if eq_nocase jam.host me then announce_updated changed jam else refused not_creator)

abbrev pub is_empty : List Text → Bool
is_empty [] = true
is_empty _ = false

abbrev pub leaving : Rooms → Text → Jam → Answer
leaving r me jam =
    let left = depart r jam me in
    let remaining = members_of left jam.id in
    done (if eq_nocase jam.host me || is_empty remaining then delete_jam left jam.id else left)
      remaining

unfoldable pub call_leave_jam : Rooms → Text → Answer
call_leave_jam r me = current_jam r me (leaving r me)

unfoldable pub call_set_jam_mode : Rooms → Text → Text → Answer
call_set_jam_mode r me mode = current_jam r me (λ jam.
    let changed = (set_jam_mode r jam.id (parse_mode mode)).0 in
    if eq_nocase jam.host me then announce_updated changed jam else refused not_host)

abbrev pub skip : Rooms → Text → Jam → Option Text → Answer
skip r me jam none = refused nothing_playing
skip r me jam (some track_id) =
    let voted = vote_skip r jam.id track_id me in
    let off_air = clear_jam_now_playing (mark_jam_track_played voted.0 jam.id track_id).0 jam.id in
    announce_updated (if voted.1 then off_air else voted.0) jam

unfoldable pub call_vote_skip_jam_track : Rooms → Text → Answer
call_vote_skip_jam_track r me = current_jam r me (λ jam. skip r me jam jam.now_playing_id)

abbrev is_blank : Text → Bool
is_blank [] = true
is_blank _ = false

unfoldable pub call_add_jam_track : Rooms → Text → Text → Suggestion → ℕ → Answer
call_add_jam_track r id me s now = current_jam r me (λ jam.
    if is_blank (trim s.title)
    then refused untitled
    else announce (add_jam_track r id jam.id me s jam.mode now).0 jam)

abbrev pub approve : Rooms → Text → Jam → Text → Option Text → Answer
approve r me jam track_id none = refused not_in_queue
approve r me jam track_id (some owner) = announce (approve_jam_track r jam.id track_id me).0 jam

unfoldable pub call_approve_jam_track : Rooms → Text → Text → Answer
call_approve_jam_track r me track_id =
    current_jam r me (λ jam. approve r me jam track_id (jam_track_owner r jam.id track_id))

abbrev pub remove : Rooms → Text → Jam → Text → Option Text → Answer
remove r me jam track_id none = refused not_in_queue
remove r me jam track_id (some owner) =
    if eq_nocase jam.host me || eq_nocase owner me
    then announce (remove_jam_track r jam.id track_id).0 jam
    else refused not_owner

unfoldable pub call_remove_jam_track : Rooms → Text → Text → Answer
call_remove_jam_track r me track_id =
    current_jam r me (λ jam. remove r me jam track_id (jam_track_owner r jam.id track_id))
