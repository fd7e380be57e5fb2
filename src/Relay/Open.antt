-- ===== src/Relay/Open.antt =====
-- Opening a relay session: src/relay/open.rs. The name of the caller is the one it signed in with.
use agro.Base.{
  ℕ, Bool, true, false, ◌||◌, Option, none, some, Text, same, trim, eq_nocase, if◌then◌else◌,
}
use agro.Social.{friend_state, are_friends, is_blocked}
use agro.Jam.{Jam, is_jam_member, jam_for_member}
use agro.Jam.Queue.{trimmed}
use agro.Relay.{Server, device_belongs_to, owner_of_device, create_session, create_jam_session}

pub record OpenRelayRequest : Type 0 where
  pub content_hash : Text
  pub from_device : Text
  pub to_device : Text
  pub listener_public_key : Option Text
  pub jam_id : Option Text

-- The refusals, all of status 403.
pub data OpenRefusal : Type 0 where
  foreign_source foreign_target not_a_member unknown_source unauthorized_source : OpenRefusal

pub data Opened : Type 0 where
  refused : OpenRefusal → Opened
  opened : Server → (session_id : Text) → Opened

abbrev pub same_jam : Option Jam → Option Jam → Bool
same_jam (some one) (some other) = same one.id other.id
same_jam _ _ = false

-- May the account receive what a device of `sender_user` holds?
unfoldable pub is_allowed : Server → Text → Text → Bool
is_allowed s user_id sender_user =
    if eq_nocase sender_user user_id
    then true
    else if is_blocked (friend_state s.rooms.graph user_id sender_user)
    then false
    else are_friends s.rooms.graph user_id sender_user
      || same_jam (jam_for_member s.rooms user_id) (jam_for_member s.rooms sender_user)

abbrev pub open_to_jam : Server → Text → Text → ℕ → OpenRelayRequest → Text → Opened
open_to_jam s user_id id now body jam_id =
    let sessions =
      create_jam_session s.sessions id now jam_id user_id (trim body.from_device)
        (trim body.content_hash) in
    if device_belongs_to s user_id (trim body.from_device)
    then (if is_jam_member s.rooms jam_id user_id
        then opened (record s { sessions = sessions }) id
        else refused not_a_member)
    else refused foreign_source

abbrev pub open_from : Server → Text → Text → ℕ → OpenRelayRequest → Option Text → Opened
open_from s user_id id now body none = refused unknown_source
open_from s user_id id now body (some sender_user) =
    let sessions =
      create_session s.sessions id now user_id body.to_device sender_user body.from_device
        body.content_hash in
    if is_allowed s user_id sender_user
    then opened (record s { sessions = sessions }) id
    else refused unauthorized_source

abbrev pub open_for : Server → Text → Text → ℕ → OpenRelayRequest → Option Text → Opened
open_for s user_id id now body (some jam_id) = open_to_jam s user_id id now body jam_id
open_for s user_id id now body none =
    if device_belongs_to s user_id (trim body.to_device)
    then open_from s user_id id now body (owner_of_device s (trim body.from_device))
    else refused foreign_target

-- The RELAY_REQUEST to the holding device is left out.
unfoldable pub open_relay : Server → Text → Text → ℕ → OpenRelayRequest → Opened
open_relay s user_id id now body = open_for s user_id id now body (trimmed body.jam_id)
